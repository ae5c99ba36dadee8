-- ===== src/Permissions/Setting.antt =====
-- `setDeploymentPermission` and `setStreamingPermission` of src/logic/permissions/component.ts.
use mathlib.Core.Path.{subst}
use worlds_content_server.Prelude.{
  ◌≡◌, refl, sym, ap, ◌∙◌, true, ◌&&◌, some, List, map, if◌then◌else◌, ◌==◌,
}
use worlds_content_server.Prelude.Eq.{text_eq}
use worlds_content_server.Prelude.Lists.{includes}
use worlds_content_server.Prelude.Text.{Text, lower_case}
use worlds_content_server.Prelude.Result.{ok}
use worlds_content_server.Errors.{Outcome}
use worlds_content_server.Database.{
  Date, AllowListPermission, deployment, streaming, permission_eq, world_named,
}
use worlds_content_server.Server.{Server, after}
use worlds_content_server.Worlds.Basic.{create_basic_world_if_not_exists}
use worlds_content_server.Permissions.Manager.{has_row}
use worlds_content_server.Permissions.Component.{
  allow_list, wallets_or_empty, replace_wallets, set_deployment_permission,
  set_streaming_permission,
}
use worlds_content_server.Permissions.Effects.{
  permission_rows, create_basic_world-named, create_basic_world-permissions,
}
use worlds_content_server.Permissions.Replace.{IsLower, replace_wallets-has_row, replace_wallets_ok}

module _ (now : Date) (w o : Text) (s : Server) where
  created : Server
  created = after (create_basic_world_if_not_exists now w o) s

  created-rows : permission_rows created ≡ permission_rows s
  unfolding created
  created-rows = ap (λ t. t.rows) (create_basic_world-permissions now w o s)

  created-IsLower : IsLower s → IsLower created
  created-IsLower h = rw created-rows h

  -- What replacing the wallets does once the world exists.
  Replaced : AllowListPermission → List Text → Server → Type 0
  Replaced p ws s' =
      (w' : Text) (p' : AllowListPermission) (a' : Text)
      → has_row w' p' a' (permission_rows s') ≡ (
          if lower_case w == w' && p == p'
          then includes a' (map lower_case ws)
          else has_row w' p' a' (permission_rows s))

  created-named : world_named (lower_case w) created.db.worlds ≡ true
  unfolding created
  created-named = create_basic_world-named now w o s

  replace_created :
      (p : AllowListPermission) (ws : List Text)
      → IsLower s
      → ((replace_wallets now w p ws created).0 ≡ ok tt)
        × Replaced p ws (after (replace_wallets now w p ws) created)
  unfolding Replaced
  replace_created p ws h = (
    replace_wallets_ok now w p ws created created-named,
    λ w' p' a'.
        replace_wallets-has_row now w p ws created w' p' a' created-named (created-IsLower h)
        ∙ ap
            (λ rows.
              if lower_case w == w' && p == p'
              then includes a' (map lower_case ws)
              else has_row w' p' a' rows)
            created-rows,
  )

  deployment_steps :
      (ws : List Text)
      → set_deployment_permission now w o allow_list ws s
        ≡ replace_wallets now w deployment ws created
  unfolding set_deployment_permission created create_basic_world_if_not_exists
  deployment_steps ws = refl

  streaming_steps :
      (ws : List Text)
      → set_streaming_permission now w o allow_list (some ws) s
        ≡ replace_wallets now w streaming ws created
  unfolding set_streaming_permission wallets_or_empty created create_basic_world_if_not_exists
  streaming_steps ws = refl

  Replaced-of_steps :
      (p : AllowListPermission) (ws : List Text) {r : Outcome (Unit {0}) × Server}
      → IsLower s
      → r ≡ replace_wallets now w p ws created
      → (r.0 ≡ ok tt) × Replaced p ws r.1
  Replaced-of_steps p ws h e =
      subst (λ (r : Outcome (Unit {0}) × Server). (r.0 ≡ ok tt) × Replaced p ws r.1) (sym e)
        (replace_created p ws h)

  -- Setting the deployment wallets of a world succeeds, makes the lower-cased wallets exactly the
  -- addresses that hold the permission on that world, and changes no key of another world or of
  -- the streaming permission, when names and addresses are stored in lower case.
  pub set_deployment_permission-wallets :
      (ws : List Text)
      → IsLower s
      → ((set_deployment_permission now w o allow_list ws s).0 ≡ ok tt)
        × ((w' : Text) (p' : AllowListPermission) (a' : Text)
            → has_row w' p' a'
                (permission_rows (after (set_deployment_permission now w o allow_list ws) s))
              ≡ (if lower_case w == w' && deployment == p'
                  then includes a' (map lower_case ws)
                  else has_row w' p' a' (permission_rows s)))
  unfolding Replaced
  set_deployment_permission-wallets ws h = Replaced-of_steps deployment ws h (deployment_steps ws)

  -- Setting the streaming wallets of a world succeeds, makes the lower-cased wallets exactly the
  -- addresses that hold the permission on that world, and changes no key of another world or of
  -- the deployment permission, when names and addresses are stored in lower case.
  pub set_streaming_permission-wallets :
      (ws : List Text)
      → IsLower s
      → ((set_streaming_permission now w o allow_list (some ws) s).0 ≡ ok tt)
        × ((w' : Text) (p' : AllowListPermission) (a' : Text)
            → has_row w' p' a'
                (permission_rows (after (set_streaming_permission now w o allow_list (some ws)) s))
              ≡ (if lower_case w == w' && streaming == p'
                  then includes a' (map lower_case ws)
                  else has_row w' p' a' (permission_rows s)))
  unfolding Replaced
  set_streaming_permission-wallets ws h = Replaced-of_steps streaming ws h (streaming_steps ws)
