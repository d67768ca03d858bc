-- ===== src/Revisions/File/Verified.antt =====
-- `setWriteVerification` of src/sync/file-revision-store.ts.
use brain_mcp_server.Prelude.{
  ◌≡◌, refl, ap, true, false, not, ◌&&◌, Bool, Option, none, some, List, [], ◌∷◌, Text, text_eq,
  ◌==◌, nat_eq, Bool-cases, inl, inr, contains, arith, if◌then◌else◌,
}
use brain_mcp_server.Prelude.Maps.{Map, keys, get}
use brain_mcp_server.Policy.{Verification, Result, ok, err}
use brain_mcp_server.Revisions.{Revision}
use brain_mcp_server.Revisions.Memory.{
  Store, set_write_verification, verify_heads, verify_found, with_verification, with_context,
  read_revision, empty,
}
use brain_mcp_server.Revisions.Memory.Invariant.{read_revision-get}
use brain_mcp_server.Revisions.File.{
  StoreFile, absent, unreadable, holds, reparsed, load, saved, with_store, verify_stored,
}

contains-keys :
    (k : Text) (v : Revision) (m : Map Text Revision)
    → get k m ≡ some v
    → contains k (keys m) ≡ true
unfolding get
contains-keys k v [] h = cc
contains-keys k v ((j, w) ∷ m) h = ground (arith, contains-keys k v m)

verify_heads-parsed :
    (parsed : List Text) (id : Text) (state : Verification) (m : Map Text Revision)
    → contains id parsed ≡ true
    → verify_heads parsed id state m ≡ m
unfolding verify_heads
verify_heads-parsed parsed id state [] h = refl
verify_heads-parsed parsed id state ((k, r) ∷ m) h =
    of (r.revision_id == id) (contains id parsed) h (verify_heads-parsed parsed id state m h)
  where
    of :
        (same known : Bool)
        → known ≡ true
        → verify_heads parsed id state m ≡ m
        → (k, if same && not known then with_verification state r else r)
            ∷ verify_heads parsed id state m
          ≡ (k, r) ∷ m
    of true true e i = ap (λ t. (k, r) ∷ t) i
    of false true e i = ap (λ t. (k, r) ∷ t) i
    of same false e i = absurd (cc)

verified-heads :
    (s : Store) (brain_id id : Text) (state : Verification)
    → (set_write_verification (reparsed s) brain_id id state).1.heads ≡ s.heads
unfolding set_write_verification
verified-heads s brain_id id state = of (with_context (read_revision (reparsed s) brain_id id)) refl
  where
    of :
        (f : Option Revision)
        → with_context (read_revision (reparsed s) brain_id id) ≡ f
        → (verify_found id state f (reparsed s)).1.heads ≡ s.heads
    of none h = refl
    of (some r) h =
        verify_heads-parsed (keys s.revisions) id state s.heads
          (contains-keys id r s.revisions (read_revision-get (reparsed s) brain_id id r h))

abbrev pub heads_of : StoreFile → Map Text Revision
heads_of absent = []
heads_of unreadable = []
heads_of (holds version s) = s.heads

saved-heads :
    (file : StoreFile) (w : Result (Unit {0}) × Store) (heads : Map Text Revision)
    → heads_of file ≡ heads
    → w.1.heads ≡ heads
    → heads_of (saved true file w).1 ≡ heads
saved-heads file (err e, s) heads f h = f
saved-heads file (ok a, s) heads f h = h

-- The file store's `setWriteVerification` never changes a head: what `readFile` returns keeps the
-- verification state that it had when it was written.
pub verify_stored-heads :
    (brain_id id : Text) (state : Verification) (file : StoreFile)
    → heads_of (verify_stored brain_id id state file).1 ≡ heads_of file
unfolding verify_stored with_store load
verify_stored-heads brain_id id state absent =
    saved-heads absent (set_write_verification empty brain_id id state) [] refl
      (verified-heads empty brain_id id state)
verify_stored-heads brain_id id state unreadable = refl
verify_stored-heads brain_id id state (holds version s) = elim (Bool-cases (version == 1)) [
  | inl current ↦ rw current (
      saved-heads (holds version s) (set_write_verification (reparsed s) brain_id id state) s.heads
        refl (verified-heads s brain_id id state))
  | inr other ↦ rw other refl
]
