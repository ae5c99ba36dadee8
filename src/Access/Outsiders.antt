-- ===== src/Access/Outsiders.antt =====
-- Whom a change of access may put out: src/logic/access-change-handler/component.ts.
use mathlib.Core.List.{Memᴰ}
use mathlib.Core.Path.{subst}
use worlds_content_server.Prelude.{
  ◌≡◌, refl, sym, ap, ◌∙◌, true, not, Option, none, some, List, [], ◌∷◌, map, ◌==◌, arith,
  Bool-cases, inl, inr,
}
use worlds_content_server.Prelude.Eq.{text_eq, text_beq_iff}
use worlds_content_server.Prelude.Lists.{
  All, filter, includes, includes-append, includes_of_mem, mem_of_includes, mem_map, mem_of_mem_map,
}
use worlds_content_server.Prelude.Filter.{mem_filter, mem_of_filter, All-filter}
use worlds_content_server.Prelude.Text.{Text, lower_case}
use worlds_content_server.Entities.{truthy}
use worlds_content_server.Server.{Server}
use worlds_content_server.Database.{deployment, permission_eq, PermissionRow, Db}
use worlds_content_server.Permissions.Manager.{for_checking, get_world_permission_records}
use worlds_content_server.Access.Checker.{Externals}
use worlds_content_server.Access.Changes.{
  filter_out_privileged_users, privileged, lower_owner, get_owner,
}

-- Neither the owner, in any case of letters, nor the address of a row of the world's deployment
-- permissions.
pub record IsOutsider (ext : Externals) (world : Text) (db : Db) (identity : Text) : Type 0 where
  pub not_owner :
      (owner : Text)
      → truthy (get_owner ext world db) ≡ some owner
      → ¬ (lower_case owner ≡ lower_case identity)
  pub not_deployer :
      (r : PermissionRow)
      → Memᴰ r db.permissions.rows
      → r.world_name ≡ lower_case world
      → r.permission_type ≡ deployment
      → ¬ (lower_case r.address ≡ lower_case identity)

-- The permission's records that are read for a world have its rows.
record_of_row :
    (world : Text) (db : Db) (r : PermissionRow)
    → Memᴰ r db.permissions.rows
    → r.world_name ≡ lower_case world
    → Memᴰ (for_checking db.permissions r) (get_world_permission_records world db)
unfolding get_world_permission_records
record_of_row world db r m e = mem_map (for_checking db.permissions) _ (
    mem_filter (λ r. r.world_name == lower_case world) db.permissions.rows m
      ((text_beq_iff r.world_name (lower_case world)).1 e))

outsider :
    (ext : Externals) (world : Text) (db : Db) (i : Text)
    → not (includes (lower_case i) (privileged ext world db)) ≡ true
    → IsOutsider ext world db i
unfolding privileged for_checking
outsider ext world db i h =
    let owners = lower_owner (truthy (get_owner ext world db)) in
    let records = get_world_permission_records world db in
    let deployers =
      map (λ r. lower_case r.address) (filter (λ r. r.permission_type == deployment) records) in
    let apart = includes-append (lower_case i) owners deployers in
    record {
      not_owner = λ owner e same.
          let found : includes (lower_case i) owners ≡ true =
            ap (λ o. includes (lower_case i) (lower_owner o)) e
            ∙ includes_of_mem (lower_case i) (lower_case owner ∷ []) (Memᴰ.head (sym same)) in
          absurd (ground (arith, apart, found, h));
      not_deployer = λ r m e p same.
          let found : includes (lower_case i) deployers ≡ true =
            includes_of_mem (lower_case i) deployers (
              subst (λ a. Memᴰ a deployers) same
                (mem_map (λ r. lower_case r.address) _
                  (mem_filter (λ r. r.permission_type == deployment) records
                    (record_of_row world db r m e)
                    ((permission_eq.agrees r.permission_type deployment).1 p)))) in
          absurd (ground (arith, apart, found, h));
    }

pub filtered-IsOutsider :
    (ext : Externals) (world : Text) (s : Server) (ids : List Text)
    → All (IsOutsider ext world s.db) (filter_out_privileged_users ext world ids s.db)
unfolding filter_out_privileged_users
filtered-IsOutsider ext world s ids =
    All-filter (IsOutsider ext world s.db) _ ids (λ i e. outsider ext world s.db i e)

-- The other way round: an outsider is among neither of the two.
owner_of_mem :
    (o : Option Text) {x : Text}
    → Memᴰ x (lower_owner o)
    → (owner : Text) × (o ≡ some owner) × (lower_case owner ≡ x)
owner_of_mem none m = elim m [ ]
owner_of_mem (some owner) (Memᴰ.head e) = (owner, refl, sym e)
owner_of_mem (some owner) (Memᴰ.tail m) = elim m [ ]

row_of_deployer :
    (world : Text) (db : Db) {x : Text}
    → Memᴰ x (
        map
          (λ r. lower_case r.address)
          (filter (λ r. r.permission_type == deployment) (get_world_permission_records world db)))
    → (r : PermissionRow) × Memᴰ r db.permissions.rows
      × (r.world_name ≡ lower_case world)
      × (r.permission_type ≡ deployment)
      × (lower_case r.address ≡ x)
unfolding get_world_permission_records for_checking
row_of_deployer world db m =
    let (record', m₁, same) = mem_of_mem_map (λ r. lower_case r.address) _ m in
    let (m₂, is_deployment) = mem_of_filter (λ r. r.permission_type == deployment) _ m₁ in
    let (r, m₃, e) = mem_of_mem_map (for_checking db.permissions) _ m₂ in
    let (m₄, named) = mem_of_filter (λ r. r.world_name == lower_case world) _ m₃ in
    (
      r,
      m₄,
      (text_beq_iff r.world_name (lower_case world)).0 named,
      ap (λ q. q.permission_type) e
          ∙ (permission_eq.agrees record'.permission_type deployment).0 is_deployment,
      ap (λ q. lower_case q.address) e ∙ same,
    )

not-includes :
    (ext : Externals) (world : Text) (db : Db) (i : Text)
    → IsOutsider ext world db i
    → not (includes (lower_case i) (privileged ext world db)) ≡ true
unfolding privileged
not-includes ext world db i o =
    let owners = lower_owner (truthy (get_owner ext world db)) in
    let deployers =
      map (λ r. lower_case r.address)
        (filter (λ r. r.permission_type == deployment) (get_world_permission_records world db)) in
    let apart = includes-append (lower_case i) owners deployers in
    elim (Bool-cases (includes (lower_case i) owners)) [
      | inl e ↦
          let (owner, found, same) = owner_of_mem _ (mem_of_includes (lower_case i) owners e) in
          absurd (o.not_owner owner found same)
      | inr e ↦ elim (Bool-cases (includes (lower_case i) deployers)) [
        | inl d ↦
            let (r, m, named, p, same) =
              row_of_deployer world db (mem_of_includes (lower_case i) deployers d) in
            absurd (o.not_deployer r m named p same)
        | inr d ↦ ground (arith, apart, e, d)
      ]
    ]

pub IsOutsider-filtered :
    (ext : Externals) (world : Text) (s : Server) (ids : List Text) (i : Text)
    → Memᴰ i ids
    → IsOutsider ext world s.db i
    → Memᴰ i (filter_out_privileged_users ext world ids s.db)
unfolding filter_out_privileged_users
IsOutsider-filtered ext world s ids i m o = mem_filter _ ids m (not-includes ext world s.db i o)
