-- ===== src/Sync/Tests.antt =====
-- Runs of src/sync/local-sync-agent.ts on concrete inputs.
use brain_mcp_server.Prelude.{
  ◌≡◌, refl, Bool, true, false, Option, none, some, [], ◌∷◌, Text, text_eq, text_beq, option_eq,
  codes, ◌==◌, starts_with,
}
use brain_mcp_server.Prelude.Maps.{Map, get, set, remove, get-set, get-remove}
use brain_mcp_server.Policy.{ok}
use brain_mcp_server.Revisions.{
  FileHead, Revision, ConflictInput, ConflictRecord, opened, accepted, hosted_mcp, local_agent,
}
use brain_mcp_server.Sync.{
  LocalFileSyncState, LocalSyncState, LocalSyncReport, empty_report, RevisionStore, LocalFiles,
  Mutation, done, preserved, IsSeparate, SyncOptions,
}
use brain_mcp_server.Sync.Deletions.{infer_guarded_deletions, delete_confirmed}
use brain_mcp_server.Sync.Deletions.Sent.{IsGuarded, infer_guarded_deletions-IsGuarded}
use brain_mcp_server.Sync.Pull.{Pull}
use brain_mcp_server.Sync.Pull.Heads.{
  pull_heads, pull_head, pull_held, pull_checked, pull_admitted, pull_live,
}
use brain_mcp_server.Sync.Pull.Edits.{IsEdited}
use brain_mcp_server.Sync.Pull.Hosted.{
  pull_hosted_changes, report_recoveries, pull_hosted_changes-IsEdited,
}

abbrev hosted : Text → Revision
hosted content = record {
  brain_id = codes "b";
  filename = codes "a.md";
  revision_id = codes "rev_2";
  content_hash = content;
  updated_at = codes "t";
  origin = hosted_mcp;
  actor = none;
  cursor = 2;
  deleted = false;
  renamed_from = none;
  renamed_to = none;
  parent_revision_id = some (codes "rev_1");
  content = content;
  write_context = none;
}

abbrev hosted_head : FileHead
hosted_head = record {
  brain_id = codes "b";
  filename = codes "a.md";
  revision_id = codes "rev_2";
  content_hash = codes "y";
  line_count = 1;
  byte_count = 1;
  updated_at = codes "t";
  origin = hosted_mcp;
  actor = none;
  cursor = 2;
  deleted = false;
  renamed_from = none;
  renamed_to = none;
}

abbrev recorded_conflict : ConflictInput → ConflictRecord
recorded_conflict input = record {
  input = input;
  conflict_id = codes "conflict_1";
  created_at = codes "t";
  status = opened;
  resolution_revision_id = none;
  resolved_at = none;
}

-- A store that accepts every deletion.
abbrev test_store : RevisionStore (Unit {0})
test_store = record {
  get_head = λ b f s. some hosted_head;
  read_revision = λ b r s. some (hosted (codes "y"));
  list_files = λ b s. hosted_head ∷ [];
  list_conflicts = λ b k s. [];
  propose_deletion = λ d s. (ok (accepted hosted_head (hosted (codes "y"))), s);
  record_conflict = λ i s. (recorded_conflict i, s);
}

-- A disk that holds contents, which are their own hashes.
abbrev put : Text → Option Text → Map Text Text → Map Text Text
put f none d = remove f d
put f (some content) d = set f content d

abbrev exchange : Bool → Text → Option Text → Map Text Text → Mutation × Map Text Text
exchange true f content d = (done, put f content d)
exchange false f content d = (preserved (codes "r") (get f d), d)

abbrev test_files : LocalFiles (Map Text Text)
test_files = record {
  is_safe_path = λ f. true;
  read_hash = λ f d. get f d;
  mutate = λ f content expected d. exchange (get f d == expected) f content d;
}

get-put :
    (f g : Text) (content : Option Text) (d : Map Text Text)
    → text_beq f g ≡ false
    → get g (put f content d) ≡ get g d
get-put f g none d o = rw (get-remove f g d) (rw o refl)
get-put f g (some content) d o = rw (get-set f g content d) (rw o refl)

get-exchange :
    (hit : Bool) (f g : Text) (content : Option Text) (d : Map Text Text)
    → text_beq f g ≡ false
    → get g (exchange hit f content d).1 ≡ get g d
get-exchange true f g content d o = get-put f g content d o
get-exchange false f g content d o = refl

test_files-IsSeparate : IsSeparate test_files
test_files-IsSeparate = record {
  others = λ f g content expected d o. get-exchange (get f d == expected) f g content d o;
}

abbrev test_options : SyncOptions
test_options = record {
  brain_id = codes "b";
  actor = none;
  include_files = [];
  max_deletes = 5;
  is_above_pct = λ c t. false;
}

abbrev tracked : LocalFileSyncState
tracked = record {
  revision_id = some (codes "rev_1");
  content_hash = some (codes "x");
  local_hash = some (codes "x");
}

abbrev test_state : LocalSyncState
test_state = record {
  client_id = codes "c";
  cursor = none;
  files = (codes "NOW.md", tracked) ∷ (codes "a.md", tracked) ∷ [];
  pending_deletions = some (codes "a.md" ∷ []);
  admission_holds = [];
}

abbrev deleted_once : LocalSyncReport × LocalSyncState
deleted_once = (
  record empty_report { deleted = codes "a.md" ∷ [] },
  record test_state { files = (codes "NOW.md", tracked) ∷ []; pending_deletions = some [] },
)

deleted_test :
    infer_guarded_deletions test_store test_options (codes "NOW.md" ∷ []) empty_report test_state tt
    ≡ (ok deleted_once, tt)
unfolding infer_guarded_deletions delete_confirmed get remove text_beq
deleted_test = refl

infer_guarded_deletions-IsGuarded_example :
    IsGuarded test_store test_options (codes "NOW.md" ∷ []) empty_report test_state tt (
      infer_guarded_deletions test_store test_options
        (codes "NOW.md" ∷ [])
        empty_report
        test_state
        tt)
infer_guarded_deletions-IsGuarded_example =
    infer_guarded_deletions-IsGuarded test_store test_options (codes "NOW.md" ∷ []) test_state
      empty_report tt

abbrev before_pull : Pull (Unit {0}) (Map Text Text)
before_pull = record {
  report = empty_report;
  state = test_state;
  max_cursor = 0;
  remote = tt;
  disk = (codes "a.md", codes "z") ∷ [];
}

abbrev pull_conflict : ConflictInput
pull_conflict = record {
  brain_id = codes "b";
  filename = codes "a.md";
  local_base_revision_id = some (codes "rev_1");
  remote_head_revision_id = some (codes "rev_2");
  local_content_hash = codes "z";
  remote_content_hash = some (codes "y");
  local_origin = local_agent;
  remote_origin = some hosted_mcp;
  local_actor = none;
  remote_actor = none;
}

abbrev after_pull : Pull (Unit {0}) (Map Text Text)
after_pull = record before_pull {
  report = record empty_report { conflicts = recorded_conflict pull_conflict ∷ [] };
}

pulled_test :
    pull_hosted_changes test_store test_files test_options none
      (λ f k h s d. none)
      []
      test_state
      tt
      before_pull.disk
    ≡ ok after_pull
unfolding pull_hosted_changes report_recoveries pull_heads pull_head pull_held pull_checked
    pull_admitted pull_live get text_beq starts_with
pulled_test = refl

before_pull-IsEdited : IsEdited test_files (codes "a.md") (codes "z") before_pull
unfolding get text_beq
before_pull-IsEdited = record { present = refl; changed = refl }

foreign_test : text_beq (codes "z") (codes "y") ≡ false
unfolding text_beq
foreign_test = refl

pull_hosted_changes-IsEdited_example : IsEdited test_files (codes "a.md") (codes "z") after_pull
unfolding report_recoveries
pull_hosted_changes-IsEdited_example =
    pull_hosted_changes-IsEdited test_store test_files test_options none (λ f k h s d. none)
      test_files-IsSeparate (codes "a.md") (codes "z") [] test_state tt before_pull.disk after_pull
      before_pull-IsEdited ((λ same. foreign_test), tt) pulled_test
