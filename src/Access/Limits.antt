-- ===== src/Access/Limits.antt =====
-- The operations of src/logic/access/component.ts keep the sizes of the stored allow lists within
-- the configured limits.
use mathlib.Core.Path.{subst}
use worlds_content_server.Prelude.{
  ◌≡◌, refl, sym, Bool, Option, none, some, List, [], ◌∷◌, ◌++◌, ◌==◌, Bool-cases, inl, inr,
}
use worlds_content_server.Prelude.Eq.{text_eq}
use worlds_content_server.Prelude.Lists.{All, find}
use worlds_content_server.Prelude.Text.{Text, lower_case}
use worlds_content_server.Prelude.Result.{ok, err}
use worlds_content_server.Errors.{Outcome}
use worlds_content_server.AccessSetting.{AccessSetting}
use worlds_content_server.Database.{Date, WorldRow, Db, world_named}
use worlds_content_server.Server.{Exec, pure, Server, after, ◌>>=◌, continue}
use worlds_content_server.Worlds.Basic.{basic_world, create_basic_world_if_not_exists}
use worlds_content_server.Worlds.Scenes.{update_world}
use worlds_content_server.Access.{
  AccessInput, AccessConfig, RequestedType, known, other, make_setting, new_access_row,
  set_access_of, store_access, Modifier, stored_change, modify_access, modify_access_atomically,
  add_wallet, remove_wallet, add_community, remove_community, one_member, handle_change,
  publish_change, set_access, add_wallet_to_access_allow_list, remove_wallet_from_access_allow_list,
  add_community_to_access_allow_list, remove_community_from_access_allow_list,
}
use worlds_content_server.Access.Checker.{row_access, access_or_default, get_world_access}
use worlds_content_server.Access.Changes.{
  AccessChangeAction, no_kick, kick_all_participants, kick_participants_without_access,
  resolve_action, handle_access_change, react, concerned, kick_participants,
}
use worlds_content_server.Access.Bounds.{
  IsBounded, HasBounded, AllBounded, Keeps, make_setting-IsBounded, add_wallet-Keeps,
  remove_wallet-Keeps, add_community-Keeps, remove_community-Keeps,
}

-- The operations that change settings, with their arguments.
pub data AccessOperation : Type 0 where
  set : (world signer : Text) → AccessInput → AccessOperation
  add_a_wallet : (world owner wallet : Text) → AccessOperation
  remove_a_wallet : (world wallet : Text) → AccessOperation
  add_a_community : (world signer community : Text) → AccessOperation
  remove_a_community : (world community : Text) → AccessOperation

unfoldable pub run_operation : AccessConfig → Date → AccessOperation → Exec (Unit {0})
run_operation config now (set world signer input) = set_access config now world signer input
run_operation config now (add_a_wallet world owner wallet) =
    add_wallet_to_access_allow_list config now world owner wallet
run_operation config now (remove_a_wallet world wallet) =
    remove_wallet_from_access_allow_list config now world wallet
run_operation config now (add_a_community world signer community) =
    add_community_to_access_allow_list config now world signer community
run_operation config now (remove_a_community world community) =
    remove_community_from_access_allow_list config now world community

-- Putting peers out leaves the database.
handle_change-db :
    (config : AccessConfig) (world : Text) (c : AccessSetting × AccessSetting) (s : Server)
    → (after (handle_change config world c) s).db ≡ s.db
unfolding handle_change handle_access_change react kick_participants
handle_change-db config world (prev, new) s = go (resolve_action prev new)
  where
    go :
        (a : AccessChangeAction)
        → (after
            (react config.ext config.kick_batch_size a world (concerned config.ext a world s))
            s).db
          ≡ s.db
    go no_kick = refl
    go kick_all_participants = refl
    go kick_participants_without_access = refl

module _ (config : AccessConfig) where
  abbrev Bounded : List WorldRow → Type 0
  Bounded ws = All (λ w. HasBounded config w.access) ws

  append-Bounded :
      (w : WorldRow) (ws : List WorldRow)
      → Bounded ws
      → HasBounded config w.access
      → Bounded (ws ++ w ∷ [])
  append-Bounded w [] h k = (k, tt)
  append-Bounded w (v ∷ ws) (g, h) k = (g, append-Bounded w ws h k)

  update-Bounded :
      (now : Date) (world : Text) (a : AccessSetting) (ws : List WorldRow)
      → IsBounded config a
      → Bounded ws
      → Bounded (update_world world (set_access_of now a) ws)
  unfolding update_world set_access_of
  update-Bounded now world a [] k h = tt
  update-Bounded now world a (w ∷ ws) k (g, h) = elim (Bool-cases (w.name == world)) [
    | inl e ↦ rw e (k, update-Bounded now world a ws k h)
    | inr e ↦ rw e (g, update-Bounded now world a ws k h)
  ]

  store_access-AllBounded :
      (now : Date) (world : Text) (a : AccessSetting) (db : Db)
      → IsBounded config a
      → AllBounded config db
      → AllBounded config (store_access now world a db)
  unfolding store_access new_access_row
  store_access-AllBounded now world a db k h = elim (Bool-cases (world_named world db.worlds)) [
    | inl e ↦ rw e (update-Bounded now world a db.worlds k h)
    | inr e ↦ rw e (append-Bounded (new_access_row now world a) db.worlds h k)
  ]

  create_basic-AllBounded :
      (now : Date) (world owner : Text) (s : Server)
      → AllBounded config s.db
      → AllBounded config (after (create_basic_world_if_not_exists now world owner) s).db
  unfolding create_basic_world_if_not_exists
  create_basic-AllBounded now world owner s h =
      elim (Bool-cases (world_named (lower_case world) s.db.worlds)) [
        | inl e ↦ rw e h
        | inr e ↦ rw e (
            append-Bounded (basic_world now (lower_case world) (lower_case owner)) s.db.worlds h tt)
      ]

  row_access-IsBounded :
      (p : WorldRow → Bool) (ws : List WorldRow)
      → Bounded ws
      → IsBounded config (row_access (find p ws))
  unfolding row_access find access_or_default
  row_access-IsBounded p [] h = tt
  row_access-IsBounded p (w ∷ ws) (k, h) = elim (Bool-cases (p w)) [
    | inl e ↦ rw e (stored w.access k)
    | inr e ↦ rw e (row_access-IsBounded p ws h)
  ]
    where
      stored :
          (o : Option AccessSetting) → HasBounded config o → IsBounded config (access_or_default o)
      stored none k = tt
      stored (some a) k = k

  modify_access-AllBounded :
      (now : Date) (world : Text) (f : Modifier) (s : Server)
      → Keeps config f
      → AllBounded config s.db
      → AllBounded config (after (modify_access_atomically now world f) s).db
  unfolding modify_access_atomically modify_access stored_change
  modify_access-AllBounded now world f s keeps h = go (f previous) refl
    where
      previous : AccessSetting
      previous = row_access (find (λ w. w.name == lower_case world) s.db.worlds)

      go :
          (o : Outcome (Option AccessSetting))
          → f previous ≡ o
          → AllBounded config (after (modify_access_atomically now world f) s).db
      go (err e) q = rw (after, q) h
      go (ok none) q = rw (after, q) h
      go (ok (some b)) q =
          rw (after, q)
            (store_access-AllBounded now (lower_case world) b s.db
              (keeps previous b q
                (row_access-IsBounded (λ w. w.name == lower_case world) s.db.worlds h))
              h)

  -- A second step that keeps the limits may follow any first one that does.
  continue-AllBounded :
      {A B : Type 0} (f : A → Exec B) (r : Outcome A × Server)
      → ((a : A) (t : Server) → AllBounded config t.db → AllBounded config (after (f a) t).db)
      → AllBounded config r.1.db
      → AllBounded config (continue r.0 f r.1).1.db
  continue-AllBounded f (ok a, t) keeps h = keeps a t h
  continue-AllBounded f (err e, t) keeps h = h

  handle_change-AllBounded :
      (world : Text) (c : AccessSetting × AccessSetting) (s : Server)
      → AllBounded config s.db
      → AllBounded config (after (handle_change config world c) s).db
  handle_change-AllBounded world c s h =
      subst (AllBounded config) (sym (handle_change-db config world c s)) h

  publish_change-AllBounded :
      (world : Text) (r : RequestedType) (t : Server)
      → AllBounded config t.db
      → AllBounded config (after (publish_change config world r) t).db
  unfolding publish_change
  publish_change-AllBounded world (known k) t h = h
  publish_change-AllBounded world (other k) t h = h

  set_access-AllBounded :
      (now : Date) (world signer : Text) (input : AccessInput) (s : Server)
      → AllBounded config s.db
      → AllBounded config (after (set_access config now world signer input) s).db
  unfolding set_access create_basic_world_if_not_exists
  set_access-AllBounded now world signer input s h =
      go (make_setting config signer input input.type) refl
    where
      prev : AccessSetting
      prev = get_world_access config.ext world s.db

      go :
          (o : Outcome AccessSetting)
          → make_setting config signer input input.type ≡ o
          → AllBounded config (after (set_access config now world signer input) s).db
      go (err e) q = rw (after, q) h
      go (ok a) q =
          rw (after, q)
            (continue-AllBounded (λ (u : Unit {0}). publish_change config world input.type) _
              (λ u t. publish_change-AllBounded world input.type t)
              (handle_change-AllBounded world (prev, a) _
                (store_access-AllBounded now (lower_case world) a _
                  (make_setting-IsBounded config signer input input.type a q)
                  (create_basic-AllBounded now world signer s h))))

  -- An operation of the access component, whether it succeeds or is refused, keeps every stored allow
  -- list within the configured numbers of wallets and communities.
  pub run_operation-AllBounded :
      (now : Date) (o : AccessOperation) (s : Server)
      → AllBounded config s.db
      → AllBounded config (after (run_operation config now o) s).db
  unfolding run_operation add_wallet_to_access_allow_list remove_wallet_from_access_allow_list
      add_community_to_access_allow_list remove_community_from_access_allow_list
      create_basic_world_if_not_exists
  run_operation-AllBounded now (set world signer input) s h =
      set_access-AllBounded now world signer input s h
  run_operation-AllBounded now (add_a_wallet world owner wallet) s h =
      continue-AllBounded (λ (c : AccessSetting × AccessSetting). pure tt) _ (λ c t h. h)
        (modify_access-AllBounded now world (add_wallet config.max_wallets wallet) _
          (add_wallet-Keeps config wallet) (create_basic-AllBounded now world owner s h))
  run_operation-AllBounded now (remove_a_wallet world wallet) s h =
      continue-AllBounded (handle_change config world) _ (handle_change-AllBounded world) (
        modify_access-AllBounded now world (remove_wallet wallet) s
          (remove_wallet-Keeps config wallet) h)
  run_operation-AllBounded now (add_a_community world signer community) s h =
      continue-AllBounded
        (λ (u : Unit {0}).
          modify_access_atomically now world (add_community config.max_communities community)
          >>= λ c. pure tt)
        (one_member community (config.ext.get_member_communities signer (community ∷ [])), s)
        (λ u t k.
          continue-AllBounded (λ (c : AccessSetting × AccessSetting). pure tt) _ (λ c t h. h)
            (modify_access-AllBounded now world (add_community config.max_communities community) t
              (add_community-Keeps config community) k))
        h
  run_operation-AllBounded now (remove_a_community world community) s h =
      continue-AllBounded (handle_change config world) _ (handle_change-AllBounded world) (
        modify_access-AllBounded now world (remove_community community) s
          (remove_community-Keeps config community) h)
