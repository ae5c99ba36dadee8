-- ===== src/Lib.antt =====
-- Verification of the core of the worlds content server: worlds, their scenes and settings,
-- permissions, access settings, connected peers, the limit on wrong secrets, uploads, the validation
-- of deployments, quotas and the admission to rooms. Paths are from the repository's root.
--
-- The parts, and the files that model them:
-- - Prelude and its children: shared names, equality as an interface, lists, maps and sets of
--   texts, positions in lists and sums, integers, texts as UTF-16 codes, the rounding of JavaScript's
--   numbers (Double), its parseInt and number printing (Number), results.
-- - Coordinates: src/logic/coordinates/component.ts. Entities: the fields of a scene entity that
--   are read, and extractSpawnCoordinates of the same component.
-- - Database: the rows of worlds, world_scenes, world_permissions, world_permission_parcels and
--   blocked (src/types.ts and src/migrations). Server: the state that operations change and the
--   monad of operations, which return a value or an error beside the state. Errors: what is thrown.
-- - Worlds: src/adapters/worlds-manager.ts, statement by statement (Scenes), the operations
--   deployScene, undeployScene, undeployWorld and evictUndeployedScenes (Manager) and
--   createBasicWorldIfNotExists (Basic). Inversion and Deployed carry lemmas; Overlap, Stats, Spawn and
--   Reachable the invariants.
-- - Permissions: src/adapters/permissions-manager.ts (Manager) and
--   src/logic/permissions/component.ts (Component), which calls the manager and the worlds manager
--   and publishes messages. Rows, Effects, Replace and Counting carry lemmas.
-- - AccessSetting, Access: src/logic/access; Access.Checker: src/logic/access-checker;
--   Access.Changes: src/logic/access-change-handler and src/logic/participant-kicker. Setting an
--   access writes the world's row, compares it with the previous one, and removes peers that the
--   registry lists, less the owner and the deployers that the permission tables give. Outsiders
--   describes whom that leaves.
-- - Peers: src/adapters/peers-registry.ts. NameDenyList: src/adapters/name-deny-list-checker.ts.
-- - RateLimiter: src/logic/rate-limiter/component.ts, with what it relies on of Redis and its lock.
-- - Uploads: src/logic/multipart.ts. Budget has the budget of uploads in flight, whose leases are
--   acquired, resized, released and retained; Parser what the handlers of a body's fields, files
--   and chunks do to it; Wrapper the checks on the headers, the responses and the clean-up. Calls
--   are histories of calls of a budget; the other modules carry their invariants.
-- - Worlds.Settings: updateWorldSettings and getWorldSettings of the worlds manager. Settings:
--   src/logic/settings/component.ts, which asks the permissions, stores a thumbnail, calls the
--   worlds manager and publishes events.
-- - Concurrency: mapWithConcurrency of src/logic/concurrency.ts, a pool of workers whose steps an
--   order of events interleaves.
-- - Comms: src/logic/comms/component.ts, over an interface of the components it asks.
-- - Quota: src/adapters/wallet-stats.ts, src/adapters/limits-manager.ts and the sums of sizes of the
--   worlds manager. Quota.Blocking: src/adapters/blocking/component.ts.
-- - Validations: src/logic/validations, by file: utils.ts (Validations), common.ts (Common),
--   scene.ts (Scene, with Sets for its sets) and validator.ts (Pipeline), which asks the deny list,
--   the permissions and the limits.
-- - Fixtures and the modules named Tests: concrete states and runs.
--
-- Choices of the model:
-- - A table is the list of its rows. A transaction that throws leaves the database as it was, and a
--   sequence's value is used up when a row conflicts. Statements run one after another.
-- - A time is a number of milliseconds and an argument of each operation.
-- - toLowerCase acts on ASCII letters, the only letters of names, addresses and identifiers.
-- - What parseInt gives is rounded to a double, which may be infinite, and a template prints it with the
--   shortest digits, with an exponent from 1e21 on (Prelude/Double, Prelude/Number); a negative zero
--   is printed as 0 and read as 0. Other numbers are exact, as in the source up to 2^53; the cast to
--   integer in SQL has its 32-bit bounds.
-- - A lock of Redis is acquired when it is free and not otherwise, and is free again after its release;
--   the retries of an acquisition are one call.
-- - The batches of removals have the number of identities as fuel: each batch takes at least one.
-- - Parameters: Redis (the record RateLimiter.Redis, with its laws in IsRedis), the social service,
--   bcrypt, the owner of a name and the banned names (the record Access.Checker.Externals). Publishing
--   a message succeeds, but for blocking, where it is a parameter. The holdings, the whitelist and the
--   owners of names are the record Quota.Services; the schemas, signatures and storage are in the
--   record ValidatorComponents; what comms asks is the record CommsInterfaces.
-- - An upload is a list of events: busboy's and the stream's. Byte counts are whole numbers, and
--   amounts that may be refused are integers. The retries of a removal are as many as the delays.
--
-- Not modelled: the cancellation and the statement timeout of a deployment; the paginated and
-- searching queries; the draining of refused bodies, telemetry and timers of uploads; the stages and
-- signals of a validation; src/logic/deployment-processing.ts, src/logic/worlds, the job that updates
-- owners, ownership of names; HTTP handlers, migrations, log messages, and the clients of services.
pub mod Prelude
pub mod Errors
pub mod Comms
pub mod Concurrency
pub mod Coordinates
pub mod AccessSetting
pub mod Entities
pub mod Database
pub mod Peers
pub mod NameDenyList
pub mod Server
pub mod Settings
pub mod Access
pub mod Quota
pub mod RateLimiter
pub mod Uploads
pub mod Validations
pub mod Worlds
pub mod Permissions
pub mod Fixtures
