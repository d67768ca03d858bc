-- ===== src/Revisions/Memory/History.antt =====
-- Revisions are immutable: what `MemoryRevisionStore` holds under an id stays, but for the state of
-- its verification.
use brain_mcp_server.Prelude.{◌≡◌, refl, ◌∙◌, Option, none, some, Text, text_eq}
use brain_mcp_server.Prelude.Maps.{get, All-get}
use brain_mcp_server.Policy.{Verification}
use brain_mcp_server.Revisions.{Revision, ConflictInput, ConflictRecord}
use brain_mcp_server.Revisions.Memory.{
  Store, record_conflict, record_found, set_write_verification, verify_found, with_context,
  read_revision,
}
use brain_mcp_server.Revisions.Memory.Steps.{
  Step, Steps, here, next, recording, publishing, verifying, resolving,
}
use brain_mcp_server.Revisions.Memory.Invariant.{
  bare, IsRevision, IsWellFormed, Steps-IsWellFormed, get-publish_earlier, get-verified,
  read_revision-get,
}

-- The revision is still there under its id.
pub record IsPreserved (t : Store) (id : Text) (r : Revision) : Type 0 where
  pub later : Revision
  pub found : get id t.revisions ≡ some later
  pub same : bare later ≡ bare r

module _ (id : Text) where
  record_found-IsPreserved :
      (s : Store) (now : Text) (input : ConflictInput) (f : Option ConflictRecord) (r : Revision)
      → get id s.revisions ≡ some r
      → IsPreserved (record_found now input f s).1 id r
  record_found-IsPreserved s now input none r h = record { later = r; found = h; same = refl }
  record_found-IsPreserved s now input (some c) r h = record { later = r; found = h; same = refl }

  verify_found-IsPreserved :
      (s : Store) (brain_id j : Text) (state : Verification) (f : Option Revision) (r : Revision)
      → with_context (read_revision s brain_id j) ≡ f
      → get id s.revisions ≡ some r
      → IsPreserved (verify_found j state f s).1 id r
  verify_found-IsPreserved s brain_id j state none r e h = record {
    later = r;
    found = h;
    same = refl;
  }
  verify_found-IsPreserved s brain_id j state (some q) r e h =
      let (r', found, same) =
        get-verified s j state q (read_revision-get s brain_id j q e) id r h in
      record { later = r'; found = found; same = same }

  Step-IsPreserved :
      {s t : Store} (r : Revision)
      → Step s t
      → IsWellFormed s
      → get id s.revisions ≡ some r
      → IsPreserved t id r
  unfolding record_conflict set_write_verification
  Step-IsPreserved {s} r (recording now input e) w h =
      rw e (record_found-IsPreserved s now input _ r h)
  Step-IsPreserved {s} r (publishing q n e) w h =
      let old = All-get (IsRevision s.revision_seq) id r s.revisions w.revisions_ok h in
      rw e (record { later = r; found = get-publish_earlier s q n id old.issued ∙ h; same = refl })
  Step-IsPreserved {s} r (verifying b j state e) w h =
      rw e (verify_found-IsPreserved s b j state _ r refl h)
  Step-IsPreserved r (resolving b c i now e) w h =
      rw e (record { later = r; found = h; same = refl })

  -- Along any sequence of operations from a well-formed store, a revision keeps its id, its file, its
  -- content, its parent and all else but its write context.
  pub Steps-IsPreserved :
      {s t : Store} (r : Revision)
      → Steps s t
      → IsWellFormed s
      → get id s.revisions ≡ some r
      → IsPreserved t id r
  Steps-IsPreserved r here w h = record { later = r; found = h; same = refl }
  Steps-IsPreserved r (next p st) w h =
      let i = Steps-IsPreserved r p w h in
      let j = Step-IsPreserved i.later st (Steps-IsWellFormed p w) i.found in
      record { later = j.later; found = j.found; same = j.same ∙ i.same }
