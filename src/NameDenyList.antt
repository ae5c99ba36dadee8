-- ===== src/NameDenyList.antt =====
-- The names that are banned: src/adapters/name-deny-list-checker.ts. The list comes from a service,
-- through a cache; it is a parameter here, empty when it cannot be fetched.
use worlds_content_server.Prelude.{
  ◌≡◌, refl, sym, ap, ◌∙◌, Bool, true, false, not, List, [], ◌∷◌, map, if◌then◌else◌, ◌==◌, arith,
  Bool-cases, inl, inr,
}
use worlds_content_server.Prelude.Eq.{nat_eq, text_eq, text_beq_iff}
use worlds_content_server.Prelude.Lists.{length, drop, any, includes, All}
use worlds_content_server.Prelude.Text.{Text, codes, lower_case}
use worlds_content_server.Peers.{starts_with}

-- `s.replace(part, '')`: the first occurrence goes.
unfoldable pub remove_first : Text → Text → Text
unfolding starts_with
remove_first part [] = []
remove_first part (c ∷ s) =
    let rest = remove_first part s in
    if starts_with part (c ∷ s) then drop (length part) (c ∷ s) else c ∷ rest

-- `.replace('.eth', '').replace('.dcl', '')`.
unfoldable pub strip_suffixes : Text → Text
unfolding remove_first
strip_suffixes s = remove_first (codes ".dcl") (remove_first (codes ".eth") s)

-- True when the name may be used.
unfoldable pub check_name_deny_list : List Text → Text → Bool
unfolding strip_suffixes any
check_name_deny_list banned name =
    let normalized = strip_suffixes (lower_case name) in
    not (any (λ n. lower_case n == normalized) banned)

unfoldable pub get_banned_names : List Text → List Text
unfolding strip_suffixes
get_banned_names banned = map strip_suffixes banned

unfoldable pub has_dot : Text → Bool
has_dot s = includes b'.' s

-- A text without a dot has no suffix that starts with one.
remove_first-dotless : (part s : Text) → has_dot s ≡ false → remove_first (b'.' ∷ part) s ≡ s
unfolding has_dot remove_first starts_with includes
remove_first-dotless part [] h = refl
remove_first-dotless part (c ∷ s) h = ground (arith, remove_first-dotless part s)

strip_suffixes-dotless : (s : Text) → has_dot s ≡ false → strip_suffixes s ≡ s
unfolding strip_suffixes
strip_suffixes-dotless s h =
    ap (remove_first (codes ".dcl")) (remove_first-dotless (codes "eth") s h)
    ∙ remove_first-dotless (codes "dcl") s h

-- The stripped names without a dot are not names with one.
pub get_banned_names-dotless :
    (banned : List Text) (name : Text)
    → All (λ n. has_dot n ≡ false) banned
    → has_dot name ≡ true
    → includes name (get_banned_names banned) ≡ false
unfolding get_banned_names includes
get_banned_names-dotless [] name h k = refl
get_banned_names-dotless (n ∷ ns) name (g, h) k = elim (Bool-cases (strip_suffixes n == name)) [
  | inl e ↦
      let same : n ≡ name =
        sym (strip_suffixes-dotless n g) ∙ (text_beq_iff (strip_suffixes n) name).0 e in
      cc (g, k, ap has_dot same)
  | inr e ↦ ground (arith, get_banned_names-dotless ns name h k)
]
