-- ===== src/Access/Tests.antt =====
-- The access settings of src/logic/access/component.ts on a small database.
use mathlib.Core.List.{Memᴰ}
use worlds_content_server.Prelude.{
  ◌≡◌, refl, true, false, none, some, List, [], ◌∷◌, ◌++◌, ◌==◌, arith,
}
use worlds_content_server.Prelude.Eq.{text_eq, text_beq}
use worlds_content_server.Prelude.Lists.{All, filter, find, any, includes}
use worlds_content_server.Prelude.Text.{Text, codes, lower_case}
use worlds_content_server.Prelude.Result.{ok}
use worlds_content_server.AccessSetting.{AccessType, AccessSetting, AllowListAccessSetting}
use worlds_content_server.Server.{Server, after}
use worlds_content_server.Fixtures.{world, owner, server_of, sample_db, listed_world}
use worlds_content_server.Peers.{
  get_peers_in_world, RoomPrefixes, empty_registry, on_peer_connected,
}
use worlds_content_server.NameDenyList.{has_dot}
use worlds_content_server.Access.{AccessConfig, AccessInput, known, add_wallet, remove_wallet}
use worlds_content_server.Access.Checker.{Externals, check_setting, row_access, get_world_access}
use worlds_content_server.Access.Changes.{
  kick_all_participants, resolve_action, kicks, kick_participants, handle_access_change,
}
use worlds_content_server.Access.Kicks.{kick_participants-kicks, handle_access_change-spares}
use worlds_content_server.Access.Outsiders.{IsOutsider}
use worlds_content_server.Access.Bounds.{AllBounded}
use worlds_content_server.Access.Limits.{set, run_operation, run_operation-AllBounded}
use worlds_content_server.Access.Effects.{result_of, add_wallet-check}
use worlds_content_server.Access.Banned.{get_world_access-banned}

-- Every address is a member of the communities asked for; the name "a" is banned.
abbrev ext : Externals
ext = record {
  get_member_communities = λ address ids. ok ids;
  hash_sync = λ s. codes "hash of " ++ s;
  compare = λ s h. (codes "hash of " ++ s) == h;
  find_owner = λ name. none;
  banned = codes "a" ∷ [];
}

abbrev config : AccessConfig
config = record { max_communities = 2; max_wallets = 2; kick_batch_size = 1; ext = ext }

abbrev prefixes : RoomPrefixes
prefixes = record { comms = codes "w-"; scene = codes "w-s-" }

-- The deployer and a guest are in the world's room.
abbrev sample : Server
sample = record (server_of sample_db) {
  peers =
      on_peer_connected prefixes (codes "0xb") (codes "w-a.dcl.eth")
        (on_peer_connected prefixes (codes "0xd") (codes "w-a.dcl.eth") empty_registry);
}

abbrev three_wallets : AccessInput
three_wallets = record {
  type = known AccessType.allow_list;
  wallets = some (codes "0xb" ∷ codes "0xc" ∷ codes "0xd" ∷ []);
  communities = none;
  nft = none;
  secret = none;
}

run_operation-AllBounded_example :
    AllBounded config (after (run_operation config 5 (set world owner three_wallets)) sample).db
run_operation-AllBounded_example =
    run_operation-AllBounded config 5 (set world owner three_wallets) sample
      ((omega arith, omega arith), tt)

kick_participants-kicks_example :
    (after (kick_participants 1 (codes "0xb" ∷ codes "0xd" ∷ [])) sample).removed
    ≡ sample.removed ++ kicks sample.peers (codes "0xb" ∷ codes "0xd" ∷ [])
kick_participants-kicks_example =
    kick_participants-kicks 1 (codes "0xb" ∷ codes "0xd" ∷ []) sample (omega arith)

handle_access_change-spares_example :
    (ids : List Text) × ((after
        (handle_access_change ext 1 world AccessSetting.unrestricted
          (AccessSetting.shared_secret (codes "s")))
        sample).removed
      ≡ sample.removed ++ kicks sample.peers ids)
    × All (IsOutsider ext world sample.db) ids
    × (resolve_action AccessSetting.unrestricted (AccessSetting.shared_secret (codes "s"))
          ≡ kick_all_participants
        → (i : Text) → Memᴰ i (get_peers_in_world world sample.peers)
        → IsOutsider ext world sample.db i
        → Memᴰ i ids)
handle_access_change-spares_example =
    handle_access_change-spares ext 1 world AccessSetting.unrestricted
      (AccessSetting.shared_secret (codes "s")) sample (omega arith)

abbrev one_wallet : AllowListAccessSetting
one_wallet = record { wallets = codes "0xB" ∷ []; communities = [] }

added :
    add_wallet 2 (codes "0xC") (AccessSetting.allow_list one_wallet)
    ≡ ok (
        some (
          AccessSetting.allow_list
            (record one_wallet { wallets = codes "0xB" ∷ codes "0xc" ∷ [] })))
unfolding add_wallet any lower_case text_beq
added = refl

add_wallet-check_example :
    check_setting ext
      (AccessSetting.allow_list (record one_wallet { wallets = codes "0xB" ∷ codes "0xc" ∷ [] }))
      (codes "0xc")
      none
    ≡ ok true
unfolding result_of
add_wallet-check_example =
    add_wallet-check ext 2 (codes "0xC") (codes "0xc") none one_wallet
      (some
        (AccessSetting.allow_list (record one_wallet { wallets = codes "0xB" ∷ codes "0xc" ∷ [] })))
      added (unfold lower_case in refl)

removed_wallet :
    remove_wallet (codes "0xb") (AccessSetting.allow_list one_wallet)
    ≡ ok (some (AccessSetting.allow_list (record one_wallet { wallets = [] })))
unfolding remove_wallet filter lower_case text_beq
removed_wallet = refl

dotted : has_dot (lower_case world) ≡ true
unfolding has_dot lower_case includes
dotted = refl

dotless : has_dot (codes "a") ≡ false
unfolding has_dot includes
dotless = refl

get_world_access-banned_example :
    get_world_access ext world sample_db
    ≡ row_access (find (λ w. w.name == lower_case world) (listed_world ∷ []))
get_world_access-banned_example = get_world_access-banned ext world sample_db (dotless, tt) dotted
