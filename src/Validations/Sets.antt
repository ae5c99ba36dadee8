-- ===== src/Validations/Sets.antt =====
-- `new Set(texts)` as the list of its elements in order of insertion.
use worlds_content_server.Prelude.{Bool, ◌&&◌, List, [], ◌∷◌, ◌==◌}
use worlds_content_server.Prelude.Eq.{text_eq, nat_eq}
use worlds_content_server.Prelude.Lists.{length, all, includes}
use worlds_content_server.Prelude.Map.{add_element}
use worlds_content_server.Prelude.Text.{Text}

unfoldable pub add_all : List Text → List Text → List Text
add_all seen [] = seen
add_all seen (x ∷ xs) = add_all (add_element x seen) xs

abbrev pub unique : List Text → List Text
unique xs = add_all [] xs

-- `a.size === b.size && [...a].every((x) => b.has(x))`.
unfoldable pub same_set : List Text → List Text → Bool
same_set a b = length a == length b && all (λ x. includes x b) a
