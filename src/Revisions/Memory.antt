-- ===== src/Revisions/Memory.antt =====
-- src/sync/memory-revision-store.ts: `MemoryRevisionStore`, with its state passed along. An operation that
-- throws returns its error beside the state that it left. Operations are not interleaved: each runs
-- from its call to its result. `now`, `today` and `uuid` are what the runtime gives the call for its
-- time, its date and a fresh id.
pub mod Writes
pub mod Proposals
pub mod Removals
pub mod Tests
pub mod Recursion
pub mod Steps
pub mod Names
pub mod Invariant
pub mod Outcome
pub mod History
pub mod Answers
pub mod Cas
pub mod Removed
pub mod Published
pub mod Renamed
pub mod Resolved
pub mod Conflicts
pub mod Pages
use brain_mcp_server.Prelude.{
  is_some, ℕ, ◌+◌, Bool, true, false, not, ◌&&◌, ◌||◌, Option, none, some, List, [], ◌∷◌, ◌++◌, map,
  Text, text_eq, option_eq, codes, ◌==◌, nat_eq, if◌then◌else◌, keep, find, contains,
}
use brain_mcp_server.Prelude.Numbers.{decimal}
use brain_mcp_server.Prelude.Maps.{Map, get, set, values}
use brain_mcp_server.Policy.{
  Runtime, Actor, Verification, Result, ok, err, Error, BrainWriteContext,
}
use brain_mcp_server.Revisions.{
  Origin, system, hosted_mcp, Revision, FileHead, ConflictInput, ConflictRecord, ConflictStatus,
  opened, ChangeRecord, head_of, local_agent, import,
}

-- TOMBSTONE_HASH
abbrev pub tombstone_hash : Text
tombstone_hash = codes "deleted"

-- `key`
unfoldable pub key : Text → Text → Text
key brain_id filename = brain_id ++ 0 ∷ filename

-- `rev_${n}` and `conflict_${n}`
unfoldable pub revision_name : ℕ → Text
revision_name n = codes "rev_" ++ decimal n

unfoldable pub conflict_name : ℕ → Text
conflict_name n = codes "conflict_" ++ decimal n

-- The maps `heads` and `revisions` share their objects, but for the heads whose revision id is in
-- `parsed`: those that a store of parsed JSON was built from.
pub record Store : Type 0 where
  pub heads : Map Text Revision
  pub revisions : Map Text Revision
  pub changes : List ChangeRecord
  pub conflicts : List ConflictRecord
  pub revision_seq : ℕ
  pub cursor_seq : ℕ
  pub conflict_seq : ℕ
  pub parsed : List Text

abbrev pub empty : Store
empty = record {
  heads = [];
  revisions = [];
  changes = [];
  conflicts = [];
  revision_seq = 0;
  cursor_seq = 0;
  conflict_seq = 0;
  parsed = [];
}

abbrev pub current_of : Store → Text → Text → Option Revision
current_of s brain_id filename = get (key brain_id filename) s.heads

unfoldable pub get_head : Store → Text → Text → Option FileHead
get_head s brain_id filename = elim (current_of s brain_id filename) [
  | none ↦ none
  | some head ↦ some (head_of head)
]

unfoldable pub read_file : Store → Text → Text → Result Revision
read_file s brain_id filename = elim (current_of s brain_id filename) [
  | none ↦ err (Error.file_not_found filename)
  | some head ↦ if head.deleted then err (Error.file_deleted filename) else ok head
]

-- `sort` with `localeCompare` of the filenames.
insert_head : Runtime → FileHead → List FileHead → List FileHead
insert_head rt h [] = h ∷ []
insert_head rt h (g ∷ gs) =
    if rt.locale_le h.filename g.filename then h ∷ g ∷ gs else g ∷ insert_head rt h gs

sort_heads : Runtime → List FileHead → List FileHead
sort_heads rt [] = []
sort_heads rt (h ∷ hs) = insert_head rt h (sort_heads rt hs)

unfoldable pub list_files : Runtime → Store → Text → Bool → List FileHead
unfolding sort_heads insert_head
list_files rt s brain_id include_deleted = sort_heads rt (
    map head_of (
      keep (λ (r : Revision). include_deleted || not r.deleted)
        (keep (λ (r : Revision). r.brain_id == brain_id) (values s.heads))))

unfoldable pub read_revision : Store → Text → Text → Option Revision
read_revision s brain_id revision_id = elim (get revision_id s.revisions) [
  | none ↦ none
  | some r ↦ if r.brain_id == brain_id then some r else none
]

abbrev is_truthy : Option Text → Bool
is_truthy (some (c ∷ s)) = true
is_truthy _ = false

abbrev has_operation : Text → Text → Revision → Bool
has_operation brain_id operation_id r = r.brain_id == brain_id && (elim r.write_context [
  | none ↦ false
  | some c ↦ c.operation_id == operation_id && is_truthy c.request_hash
])

unfoldable pub find_write_operation : Store → Text → Text → Option Revision
find_write_operation s brain_id operation_id =
    find (has_operation brain_id operation_id) (values s.revisions)

-- The mutation of one revision object, in the maps that hold it.
abbrev verified_context : Verification → Option BrainWriteContext → Option BrainWriteContext
verified_context state none = none
verified_context state (some c) = some (record c { verification = some state })

abbrev pub with_verification : Verification → Revision → Revision
with_verification state r = record r { write_context = verified_context state r.write_context }

unfoldable pub verify_heads :
    List Text → Text → Verification → Map Text Revision → Map Text Revision
verify_heads parsed revision_id state [] = []
verify_heads parsed revision_id state ((k, r) ∷ m) =
    (
      k,
      if r.revision_id == revision_id && not (contains revision_id parsed)
          then with_verification state r
          else r,
    )
    ∷ verify_heads parsed revision_id state m

abbrev pub verify_found : Text → Verification → Option Revision → Store → Result (Unit {0}) × Store
verify_found revision_id state none s = (err Error.change_record_not_found, s)
verify_found revision_id state (some r) s = (
  ok tt,
  record s {
    heads = verify_heads s.parsed revision_id state s.heads;
    revisions = set revision_id (with_verification state r) s.revisions;
  },
)

-- `revision?.writeContext` decides.
abbrev pub with_context : Option Revision → Option Revision
with_context none = none
with_context (some r) = if is_some r.write_context then some r else none

unfoldable pub set_write_verification :
    Store → Text → Text → Verification → Result (Unit {0}) × Store
set_write_verification s brain_id revision_id state =
    verify_found revision_id state (with_context (read_revision s brain_id revision_id)) s

abbrev origin_beq : Origin → Origin → Bool
origin_beq local_agent local_agent = true
origin_beq hosted_mcp hosted_mcp = true
origin_beq import import = true
origin_beq system system = true
origin_beq _ _ = false

abbrev option_origin_beq : Option Origin → Option Origin → Bool
option_origin_beq none none = true
option_origin_beq (some a) (some b) = origin_beq a b
option_origin_beq _ _ = false

-- Provider and id alone, `null` for an absent actor.
abbrev same_actor : Option Actor → Option Actor → Bool
same_actor none none = true
same_actor (some a) (some b) = a.provider == b.provider && a.id == b.id
same_actor _ _ = false

abbrev pub is_open : ConflictStatus → Bool
is_open opened = true
is_open _ = false

unfoldable pub is_same_conflict : ConflictInput → ConflictRecord → Bool
is_same_conflict input c =
    is_open c.status
    && c.brain_id == input.brain_id
    && c.filename == input.filename
    && c.local_base_revision_id == input.local_base_revision_id
    && c.remote_head_revision_id == input.remote_head_revision_id
    && c.local_content_hash == input.local_content_hash
    && c.remote_content_hash == input.remote_content_hash
    && origin_beq c.local_origin input.local_origin
    && option_origin_beq c.remote_origin input.remote_origin
    && same_actor c.local_actor input.local_actor
    && same_actor c.remote_actor input.remote_actor

-- An open conflict that is the same is returned, otherwise a new one recorded.
abbrev pub record_found :
    Text → ConflictInput → Option ConflictRecord → Store → ConflictRecord × Store
record_found now input (some existing) s = (existing, s)
record_found now input none s =
    let c : ConflictRecord = record {
      input = input;
      conflict_id = conflict_name (s.conflict_seq + 1);
      created_at = now;
      status = opened;
      resolution_revision_id = none;
      resolved_at = none;
    } in
    (c, record s { conflicts = s.conflicts ++ c ∷ []; conflict_seq = s.conflict_seq + 1 })

unfoldable pub record_conflict : Text → ConflictInput → Store → ConflictRecord × Store
record_conflict now input s = record_found now input (find (is_same_conflict input) s.conflicts) s

-- `text || null`
abbrev pub or_null : Option Text → Option Text
or_null (some []) = none
or_null o = o

abbrev pub id_of : Option Revision → Option Text
id_of none = none
id_of (some r) = some r.revision_id

abbrev pub hash_of : Option Revision → Option Text
hash_of none = none
hash_of (some r) = some r.content_hash

abbrev pub origin_of : Option Revision → Option Origin
origin_of none = none
origin_of (some r) = some r.origin

abbrev pub actor_of : Option Revision → Option Actor
actor_of none = none
actor_of (some r) = r.actor

abbrev pub content_of : Option Revision → Text
content_of none = []
content_of (some r) = r.content

abbrev pub is_deleted : Option Revision → Bool
is_deleted none = false
is_deleted (some r) = r.deleted

abbrev pub head_or_null : Option Revision → Option FileHead
head_or_null none = none
head_or_null (some r) = some (head_of r)

abbrev pub change_of : Revision → ChangeRecord
change_of r = record {
  cursor = r.cursor;
  brain_id = r.brain_id;
  filename = r.filename;
  revision_id = r.revision_id;
  content_hash = r.content_hash;
  updated_at = r.updated_at;
  origin = r.origin;
  actor = r.actor;
}

-- The three writes that make a revision the head of its file.
unfoldable pub publish : Revision → Store → Store
publish r s = record s {
  heads = set (key r.brain_id r.filename) r s.heads;
  revisions = set r.revision_id r s.revisions;
  changes = s.changes ++ change_of r ∷ [];
}

-- `++this.revisionSeq` and `++this.cursorSeq`
abbrev pub advance : Store → Store
advance s = record s { revision_seq = s.revision_seq + 1; cursor_seq = s.cursor_seq + 1 }
