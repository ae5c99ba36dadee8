-- ===== src/Fixtures.antt =====
-- States and values that the tests of several modules share.
use worlds_content_server.Prelude.{false, none, some, List, [], ◌∷◌}
use worlds_content_server.Prelude.Text.{Text, codes}
use worlds_content_server.AccessSetting.{AccessSetting}
use worlds_content_server.Entities.{Entity, SceneSettings}
use worlds_content_server.Database.{
  WorldRow, SceneRow, PermissionRow, PermissionTables, deployed, deployment, Db,
}
use worlds_content_server.Peers.{empty_registry}
use worlds_content_server.Server.{Server}
use worlds_content_server.Worlds.Basic.{basic_world}

abbrev pub world : Text
world = codes "a.dcl.eth"

abbrev pub owner : Text
owner = codes "0xa"

abbrev pub settings : SceneSettings
settings = record {
  title = none;
  description = none;
  navmap_thumbnail = none;
  skybox_fixed_time = none;
  fixed_adapter = none;
  opt_out = false;
  tags = [];
  rating = none;
}

abbrev pub scene_of : Text → List Text → Entity
scene_of id parcels = record {
  id = id;
  scene = some (record { base = none; parcels = parcels });
  settings = settings;
  content = [];
}

abbrev pub scene_row : SceneRow
scene_row = record {
  world_name = world;
  entity_id = codes "bafy1";
  deployer = owner;
  entity = scene_of (codes "bafy1") (codes "0,0" ∷ codes "0,1" ∷ []);
  parcels = codes "0,0" ∷ codes "0,1" ∷ [];
  size = 10;
  status = deployed;
  created_at = 1;
  updated_at = 1;
}

-- An owner's world whose access is an allow list of one wallet.
abbrev pub listed_world : WorldRow
listed_world = record (basic_world 1 world owner) {
  access =
      some (AccessSetting.allow_list (record { wallets = codes "0xb" ∷ []; communities = [] }));
}

abbrev pub permission_row : PermissionRow
permission_row = record {
  id = 0;
  world_name = world;
  permission_type = deployment;
  address = codes "0xb";
  created_at = 1;
  updated_at = 1;
}

-- The deployer may deploy on two parcels.
abbrev pub tables : PermissionTables
tables = record {
  rows = permission_row ∷ [];
  parcels =
      record { permission_id = 0; parcel = codes "0,0" }
      ∷ record { permission_id = 0; parcel = codes "0,1" }
      ∷ [];
  next_id = 1;
}

abbrev pub server_of : Db → Server
server_of db = record { db = db; messages = []; peers = empty_registry; removed = []; stored = [] }

abbrev pub empty_db : Db
empty_db = record {
  worlds = [];
  scenes = [];
  permissions = record { rows = []; parcels = []; next_id = 0 };
  blocked = [];
}

abbrev pub sample_db : Db
sample_db = record {
  worlds = listed_world ∷ [];
  scenes = scene_row ∷ [];
  permissions = tables;
  blocked = [];
}
