-- ===== src/Access/Banned.antt =====
-- A ban of a name and the access of its world: src/adapters/name-deny-list-checker.ts with
-- `getRawWorldRecords` of src/adapters/worlds-manager.ts.
use worlds_content_server.Prelude.{
  ◌≡◌, refl, ap, ◌∙◌, true, false, not, ◌&&◌, List, [], ◌∷◌, ◌==◌, arith, Bool-cases, inl, inr,
}
use worlds_content_server.Prelude.Eq.{text_eq, text_beq_sound}
use worlds_content_server.Prelude.Lists.{All, find, includes}
use worlds_content_server.Prelude.Text.{Text, lower_case}
use worlds_content_server.Database.{WorldRow, Db}
use worlds_content_server.NameDenyList.{get_banned_names, has_dot, get_banned_names-dotless}
use worlds_content_server.Access.Checker.{Externals, row_access, get_world_access}

find-unbanned :
    (banned : List Text) (world : Text) (ws : List WorldRow)
    → All (λ n. has_dot n ≡ false) banned
    → has_dot world ≡ true
    → find (λ w. not (includes w.name (get_banned_names banned)) && w.name == world) ws
      ≡ find (λ w. w.name == world) ws
unfolding find
find-unbanned banned world [] h k = refl
find-unbanned banned world (w ∷ ws) h k = elim (Bool-cases (w.name == world)) [
  | inl e ↦ ground (
    arith,
    e,
    find-unbanned banned world ws h k,
    get_banned_names-dotless banned w.name h (ap has_dot (text_beq_sound w.name world e) ∙ k),
  )
  | inr e ↦ ground (arith, e, find-unbanned banned world ws h k)
]

-- When the banned names have no dot and the world's name has one, bans change nothing in the access
-- that is read for the world: the query for banned names compares whole names with stripped ones.
pub get_world_access-banned :
    (ext : Externals) (world : Text) (db : Db)
    → All (λ n. has_dot n ≡ false) ext.banned
    → has_dot (lower_case world) ≡ true
    → get_world_access ext world db ≡ row_access (find (λ w. w.name == lower_case world) db.worlds)
unfolding get_world_access
get_world_access-banned ext world db h k =
    ap row_access (find-unbanned ext.banned (lower_case world) db.worlds h k)
