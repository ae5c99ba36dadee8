-- ===== src/Server.antt =====
-- The state that an operation reads and changes: the database, the messages that it publishes, the
-- registry of peers, and the participants that it removes from rooms.
-- An operation returns its value, or the error that it throws, beside the state that it leaves.
use worlds_content_server.Prelude.{Option, List, ◌++◌}
use worlds_content_server.Prelude.Text.{Text}
use worlds_content_server.Prelude.Result.{ok, err}
use worlds_content_server.AccessSetting.{AccessType}
use worlds_content_server.Errors.{Error, Outcome}
use worlds_content_server.Coordinates.{Coordinate}
use worlds_content_server.Database.{Date, Db, AllowListPermission, WorldSettings}
use worlds_content_server.Peers.{PeersRegistry}

-- The events sent through `snsClient`, with the values that vary; titles, links, random keys and
-- timestamps are left out.
pub data Message : Type 0 where
  permission_granted : (world : Text) (permission : AllowListPermission) (address : Text) → Message
  permission_revoked : (world : Text) (permission : AllowListPermission) (address : Text) → Message
  access_changed : (world : Text) → AccessType → Message
  settings_changed : (world : Text) → WorldSettings → Message
  missing_resources access_restricted access_restored :
      (wallet : Text) → (created_at : Date) → Message
  spawn_coordinate_set : (world : Text) → Option Coordinate → Option Coordinate → Message

pub record Server : Type 0 where
  pub db : Db
  pub messages : List Message
  pub peers : PeersRegistry
  -- The calls of `commsAdapter.removeParticipant`: a room and an identity.
  pub removed : List (Text × Text)
  -- The hashes under which `storage.storeStream` has stored content.
  pub stored : List Text

abbrev pub Exec {ℓ} : Type ℓ → Type ℓ
Exec A = Server → Outcome A × Server

module _ {ℓ} {A : Type ℓ} where
  abbrev pub pure : A → Exec A
  pure a s = (ok a, s)

  abbrev pub throw : Error → Exec A
  throw e s = (err e, s)

  -- `database.withAsyncContextTransaction`: an error rolls the database back.
  abbrev pub transaction : (Db → Outcome (A × Db)) → Exec A
  transaction f s = elim (f s.db) [ ok r ↦ (ok r.0, record s { db = r.1 }) | err e ↦ (err e, s) ]

  abbrev pub lift : Outcome A → Exec A
  lift o s = (o, s)

  -- A query that only reads.
  abbrev pub query : (Db → A) → Exec A
  query f s = (ok (f s.db), s)

module _ {ℓ κ} {A : Type ℓ} {B : Type κ} where
  abbrev pub continue : Outcome A → (A → Exec B) → Exec B
  continue (ok a) f s = f a s
  continue (err e) f s = (err e, s)

  infixl 5 ◌>>=◌ ◌>>◌
  abbrev pub ◌>>=◌ : Exec A → (A → Exec B) → Exec B
  ◌>>=◌ m f s = let r = m s in continue r.0 f r.1

  abbrev pub ◌>>◌ : Exec A → Exec B → Exec B
  m >> n = m >>= λ _. n

abbrev pub publish : List Message → Exec (Unit {0})
publish ms s = (ok tt, record s { messages = s.messages ++ ms })

abbrev pub update_db : (Db → Db) → Exec (Unit {0})
update_db f s = (ok tt, record s { db = f s.db })

-- The state that an operation leaves.
abbrev pub after {ℓ} : {A : Type ℓ} → Exec A → Server → Server
after m s = (m s).1
