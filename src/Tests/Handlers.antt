-- ===== src/Tests/Handlers.antt =====
-- The handlers over tables kept in memory.
use saros.Base.{
  ◌≡◌, ◌≢◌, ◌≤◌, length, refl, ℕ, Bool, true, false, Option, none, some, List, [], ◌∷◌, Text, text,
  Outcome, err, tally,
}
use saros.Db.Table.{in_memory}
use saros.Db.Ordered.Memory.{sorting, counting, in_memory-IsRelational}
use saros.Db.Sessions.{SessionRow}
use saros.Db.Inbox.{NotificationRow}
use saros.Db.Inbox.Feed.{row_id}
use saros.Db.Audit.{AuditRow, row_seq}
use saros.Auth.{minted, caller}
use saros.Login
use saros.Metrics
use saros.Services.Wire.{unauthenticated}
use saros.Services.World.{Backend, World}
use saros.Services.Signing.{max_api_tokens_per_user, create_api_token, decide_login}
use saros.Services.Guarded.{handle, removing_credential, handle_anonymous}
use saros.Services.Tokens.{is_token_of, tally-create_api_token}
use saros.Services.Orphans.{Orphaned, rows-decide_login}
use saros.Store.State.{no_faults}
use saros.Db.Inbox.{FollowRow}
use saros.Db.Submissions.{SubmissionRow}
use saros.Db.Stats.{DownloadRow, SeriesRow}
use saros.Services.Depot.{Depot, Stock}
use saros.Services.Review.{act, publishing}
use saros.Tests.Samples.{env, bucket_store, uploaded, lamp}
use saros.Tests.Json.{codec}
use saros.Tests.Accounts.{accounts, webauthn, print}

abbrev backend : Backend
backend = record {
  Key = Text;
  webauthn = webauthn;
  json = codec;
  hex = print;
  digest_of = λ t. t;
  sessions = in_memory SessionRow;
  users = accounts;
  inbox = in_memory NotificationRow;
  inbox_order = sorting NotificationRow;
  inbox_keys = counting NotificationRow row_id;
  trail = in_memory AuditRow;
  trail_order = sorting AuditRow;
  trail_keys = counting AuditRow row_seq;
  action_number = λ a. 1;
  kind_number = λ k. 1;
  auth = record { service_token_digest = none; admin_users = [] };
  cookie_domain = none;
  cookie_secure = true;
}

abbrev world : World backend
world = record {
  sessions = record {
    table = minted (text "tok") (text "ann") 100 1 (text "web session") 1000 ∷ [];
    generation = 0;
  };
  passkeys = record { pending = []; users = [] };
  logins = Login.new;
  inbox = record { table = []; generation = 0 };
  events = record { audit = record { table = []; generation = 0 }; metrics = Metrics.new 0 false };
}

abbrev ann : Option Text
ann = some (text "Bearer tok")

handle_anonymous_example :
    handle backend 1050 none (removing_credential (text "k1")) world ≡ (some unauthenticated, world)
unfolding caller
handle_anonymous_example =
    handle_anonymous backend 1050 none (removing_credential (text "k1")) world refl

abbrev created : World backend
created = (create_api_token backend (some (text "new")) 1050 ann (text "ci") world).1

tally-create_api_token_example :
    tally
      (is_token_of backend (in_memory-IsRelational SessionRow) (text "ann") 1050)
      created.sessions.table
    ≤ max_api_tokens_per_user
unfolding create_api_token caller saros.Auth.require_signed_in saros.Base.strip_prefix
    saros.Auth.caller_of_lookup saros.Db.Sessions.username saros.Db.Sessions.live_username
    saros.Base.dec_text saros.Services.Signing.create_for saros.Db.Sessions.list
    saros.Services.Signing.mint_named saros.Auth.mint_api_token saros.Auth.mint
    saros.Db.Sessions.put
tally-create_api_token_example =
    tally-create_api_token backend (in_memory-IsRelational SessionRow) (some (text "new")) 1050 ann
      (text "ci") (text "new") world created refl

abbrev decided : World backend
decided = (decide_login backend (some (text "fresh")) 1050 7 ann (text "WXYZ-1234") true world).1

rows-decide_login_example : Orphaned backend (text "fresh") world decided
unfolding decide_login caller saros.Base.dec_text saros.Auth.require_signed_in
    saros.Base.strip_prefix saros.Auth.caller_of_lookup saros.Db.Sessions.username
    saros.Db.Sessions.live_username saros.Services.Signing.decide_for
    saros.Services.Signing.decide_approve saros.Auth.mint_api_token saros.Auth.mint
    saros.Db.Sessions.put saros.Services.Signing.approve_login Login.approve Login.decidable
    saros.Base.Map.get saros.Auth.revoke saros.Auth.or_false saros.Base.Map.insert
    saros.Db.Sessions.delete saros.Login.Codes.normalize Login.approve_minted Login.describe
    Login.status_of saros.Services.Signing.decide_deny
rows-decide_login_example =
    rows-decide_login backend (in_memory-IsRelational SessionRow) (text "fresh") 1050 7 ann
      (text "WXYZ-1234") true world decided refl refl

abbrev depot : Depot
depot = record {
  backend = backend;
  env = env;
  objects = bucket_store;
  max_blob_bytes = 1000;
  submissions = in_memory SubmissionRow;
  submissions_order = sorting SubmissionRow;
  follows = in_memory FollowRow;
  counts = in_memory DownloadRow;
  counts_ends = record { transaction = some; commit = some };
  series = in_memory SeriesRow;
  series_order = sorting SeriesRow;
  status_number = λ s. 1;
}

abbrev stock : Stock depot
stock = record {
  world = world;
  store = uploaded;
  mirror = none;
  submissions = record { table = []; generation = 0 };
  follows = [];
  counts = [];
  series = [];
}

-- The publication of a signed-in caller is staged.
staged_by_ann :
    length (
      (act depot 1050 ann no_faults
        (publishing (some (lamp (text "1.0"))))
        stock).store.index.staged)
    ≡ 1
unfolding act saros.Services.Firmware.publish_firmware saros.Auth.require_signed_in caller
    saros.Base.strip_prefix saros.Auth.caller_of_lookup saros.Db.Sessions.username
    saros.Db.Sessions.live_username saros.Base.dec_text saros.Services.Firmware.publish_for
    saros.Store.Catalog.stage saros.Store.Validate.validate saros.Store.Validate.parse_key
    saros.Store.Names.parse_device saros.Store.Names.parse_version
    saros.Store.Validate.validate_blobs saros.Base.Map.get saros.Base.Map.insert
    saros.Store.Catalog.stage_parsed saros.Store.Catalog.over_quota
    saros.Store.VersionDir.write_version_dir saros.Store.Disk.read_path
    saros.Services.Firmware.told_submitted saros.Services.Firmware.record_sent
    saros.Store.Sweep.sweep_incoming saros.Store.Index.rebuild_blob_paths saros.Store.Catalog.hold
staged_by_ann = refl
