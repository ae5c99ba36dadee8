-- ===== src/Settings/Rows.antt =====
-- The row of a world that `updateWorldSettings` of src/adapters/worlds-manager.ts stores.
use worlds_content_server.Prelude.{
  ◌≡◌, refl, true, false, Option, none, some, List, [], ◌∷◌, ◌++◌, ◌==◌, arith, Bool-cases, inl,
  inr,
}
use worlds_content_server.Prelude.Eq.{text_eq, text_beq_refl}
use worlds_content_server.Prelude.Lists.{find, any}
use worlds_content_server.Prelude.Text.{Text}
use worlds_content_server.Database.{Date, WorldRow, WorldSettings, world_named}
use worlds_content_server.Worlds.Scenes.{update_world}
use worlds_content_server.Worlds.Settings.{
  row_named, row_after, settings_row, change_settings, upsert_settings,
}

-- The row of a world after an upsert is the one that was returned.
pub row_named-update_world :
    (world : Text) (f : WorldRow → WorldRow) (worlds : List WorldRow) {w : WorldRow}
    → ((w : WorldRow) → (f w).name ≡ w.name)
    → row_named world worlds ≡ some w
    → row_named world (update_world world f worlds) ≡ some (f w)
unfolding update_world find
row_named-update_world world f [] k e = cc
row_named-update_world world f (v ∷ vs) {w} k e = elim (Bool-cases (v.name == world)) [
  | inl q ↦ ground (arith, q, k v, e)
  | inr q ↦ ground (arith, q, e, row_named-update_world world f vs {w = w} k)
]

pub row_named-append :
    (world : Text) (worlds : List WorldRow) (w : WorldRow)
    → row_named world worlds ≡ none
    → w.name ≡ world
    → row_named world (worlds ++ w ∷ []) ≡ some w
unfolding find
row_named-append world [] w e q = rw (q, text_beq_refl) refl
row_named-append world (v ∷ vs) w e q = elim (Bool-cases (v.name == world)) [
  | inl x ↦ cc (rw x at e)
  | inr x ↦ rw x (row_named-append world vs w (rw x at e) q)
]

pub world_named-row_named :
    (world : Text) (worlds : List WorldRow)
    → world_named world worlds ≡ (elim (row_named world worlds) [ none ↦ false | some w ↦ true ])
unfolding world_named find any
world_named-row_named world [] = refl
world_named-row_named world (v ∷ vs) = elim (Bool-cases (v.name == world)) [
  | inl x ↦ rw x refl
  | inr x ↦ rw x (world_named-row_named world vs)
]

pub row_named-upsert_settings :
    (now : Date) (world owner : Text) (t : WorldSettings) (worlds : List WorldRow)
    → row_named world (upsert_settings now world owner t worlds)
      ≡ some (row_after now world owner t (row_named world worlds))
unfolding upsert_settings change_settings settings_row
row_named-upsert_settings now world owner t worlds = go (row_named world worlds) refl
  where
    go :
        (o : Option WorldRow)
        → row_named world worlds ≡ o
        → row_named world (upsert_settings now world owner t worlds)
          ≡ some (row_after now world owner t o)
    go none e =
        rw (upsert_settings, world_named-row_named world worlds, e)
          (row_named-append world worlds _ e refl)
    go (some w) e =
        rw (upsert_settings, world_named-row_named world worlds, e)
          (row_named-update_world world (change_settings now t) worlds (λ v. refl) e)
