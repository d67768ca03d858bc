-- ===== src/Revisions/Memory/Invariant.antt =====
-- The invariant of `MemoryRevisionStore` and its preservation: every id and cursor in the store has
-- been generated, heads stand under their own key, and the revision of a head is kept.
use brain_mcp_server.Prelude.{
  true, false, none, some, if◌then◌else◌, not, ◌&&◌, contains, ℕ, ◌+◌, ◌≤◌, ◌<◌, ◌≡◌, refl, ◌∙◌,
  ap₂, List, [], ◌∷◌, ◌++◌, Text, text_eq, arith, All, All-impl, inl, inr, text_beq, Option, Bool,
  Bool-cases, ◌==◌, ap, some_inj, sym,
}
use brain_mcp_server.Prelude.Maps.{Map, get, set, get-set, All-set, get-set_self, All-get}
use brain_mcp_server.Revisions.{Revision, ConflictInput, ChangeRecord, ConflictRecord}
use brain_mcp_server.Revisions.Memory.{
  Store, empty, key, revision_name, publish, advance, record_conflict, Verification,
  with_verification, record_found, read_revision, verify_found, verify_heads, with_context,
  set_write_verification,
}
use brain_mcp_server.Revisions.Memory.Steps.{
  IsNext, Step, Steps, here, next, recording, publishing, verifying, resolving,
}
use brain_mcp_server.Revisions.Memory.Names.{revision_name-ne}

-- A revision without what `setWriteVerification` may change.
abbrev pub bare : Revision → Revision
bare r = record r { write_context = none }

-- The id has been generated.
pub record IsIssued (seq : ℕ) (id : Text) : Type 0 where
  pub number : ℕ
  pub named : id ≡ revision_name number
  pub bound : number ≤ seq

pub record IsHead (revisions : Map Text Revision) (revision_seq cursor_seq : ℕ)
    (entry : Text × Revision) : Type 0 where
  pub keyed : entry.0 ≡ key entry.1.brain_id entry.1.filename
  pub issued : IsIssued revision_seq entry.1.revision_id
  pub cursor : entry.1.cursor ≤ cursor_seq
  pub kept : Revision
  pub stored : get entry.1.revision_id revisions ≡ some kept
  pub same : bare kept ≡ bare entry.1

pub record IsRevision (seq : ℕ) (entry : Text × Revision) : Type 0 where
  pub keyed : entry.0 ≡ entry.1.revision_id
  pub issued : IsIssued seq entry.0

-- Cursors rise strictly, and none is above the last one given out.
abbrev pub Rising : ℕ → List ChangeRecord → ℕ → Type 0
Rising from [] to = from ≤ to
Rising from (c ∷ cs) to = (from < c.cursor) × Rising c.cursor cs to

pub record IsSound (heads revisions : Map Text Revision) (changes : List ChangeRecord)
    (revision_seq cursor_seq : ℕ) : Type 0 where
  pub heads_ok : All (IsHead revisions revision_seq cursor_seq) heads
  pub revisions_ok : All (IsRevision revision_seq) revisions
  pub changes_ok : Rising 0 changes cursor_seq

-- The invariant. Conflicts and their numbers have no part in it.
abbrev pub IsWellFormed : Store → Type 0
IsWellFormed s = IsSound s.heads s.revisions s.changes s.revision_seq s.cursor_seq

pub IsWellFormed-empty : IsWellFormed empty
IsWellFormed-empty = record { heads_ok = tt; revisions_ok = tt; changes_ok = omega arith }

Rising-append :
    (from : ℕ) (cs : List ChangeRecord) (to : ℕ) (c : ChangeRecord)
    → Rising from cs to
    → c.cursor ≡ to + 1
    → Rising from (cs ++ c ∷ []) (to + 1)
Rising-append from [] to c h e = (omega arith, omega arith)
Rising-append from (x ∷ cs) to c h e = (h.0, Rising-append x.cursor cs to c h.1 e)

IsIssued-suc : (seq : ℕ) (id : Text) → IsIssued seq id → IsIssued (seq + 1) id
IsIssued-suc seq id i = record { number = i.number; named = i.named; bound = omega arith }

module _ (s : Store) (r : Revision) (n : IsNext s r) where
  next-IsIssued : IsIssued (s.revision_seq + 1) r.revision_id
  next-IsIssued = record { number = s.revision_seq + 1; named = n.id; bound = omega arith }

  later-ne : (id : Text) → IsIssued s.revision_seq id → text_beq r.revision_id id ≡ false
  later-ne id i = ap₂ text_beq n.id i.named ∙ revision_name-ne i.number s.revision_seq i.bound

  -- The new id is not that of an earlier revision.
  pub get-publish_earlier :
      (id : Text)
      → IsIssued s.revision_seq id
      → get id (publish r (advance s)).revisions ≡ get id s.revisions
  unfolding publish
  get-publish_earlier id i = rw (get-set r.revision_id id r s.revisions) (rw (later-ne id i))

  publish-IsHead :
      (e : Text × Revision)
      → IsHead s.revisions s.revision_seq s.cursor_seq e
      → IsHead (publish r (advance s)).revisions (s.revision_seq + 1) (s.cursor_seq + 1) e
  publish-IsHead e h = record {
    keyed = h.keyed;
    issued = IsIssued-suc s.revision_seq e.1.revision_id h.issued;
    cursor = omega arith;
    kept = h.kept;
    stored = get-publish_earlier e.1.revision_id h.issued ∙ h.stored;
    same = h.same;
  }

  publish-IsWellFormed : IsWellFormed s → IsWellFormed (publish r (advance s))
  unfolding publish
  publish-IsWellFormed w = record {
    heads_ok =
        All-set (IsHead (set r.revision_id r s.revisions) (s.revision_seq + 1) (s.cursor_seq + 1))
          (key r.brain_id r.filename) r s.heads
          (record {
            keyed = refl;
            issued = next-IsIssued;
            cursor = omega arith;
            kept = r;
            stored = get-set_self r.revision_id r s.revisions;
            same = refl;
          })
          (All-impl publish-IsHead s.heads w.heads_ok);
    revisions_ok =
        All-set (IsRevision (s.revision_seq + 1)) r.revision_id r s.revisions
          (record { keyed = refl; issued = next-IsIssued })
          (All-impl
            (λ e h. record { keyed = h.keyed; issued = IsIssued-suc s.revision_seq e.0 h.issued })
            s.revisions w.revisions_ok);
    changes_ok = Rising-append 0 s.changes s.cursor_seq _ w.changes_ok n.cursor;
  }

-- Recording a conflict touches conflicts alone.
record_found-IsWellFormed :
    (s : Store) (now : Text) (input : ConflictInput) (found : Option ConflictRecord)
    → IsWellFormed s
    → IsWellFormed (record_found now input found s).1
record_found-IsWellFormed s now input none w = w
record_found-IsWellFormed s now input (some c) w = w

module _ (s : Store) (id : Text) (state : Verification) (r : Revision)
    (found : get id s.revisions ≡ some r) where
  -- After the mutation every id has the revision that it had, but for its context.
  pub get-verified :
      (j : Text) (q : Revision)
      → get j s.revisions ≡ some q
      → (q' : Revision) × (get j (set id (with_verification state r) s.revisions) ≡ some q')
        × (bare q' ≡ bare q)
  get-verified j q h = elim (Bool-cases (id == j)) [
    | inl same ↦ (
      with_verification state r,
      rw (get-set id j (with_verification state r) s.revisions) (rw same),
      ap bare
          (some_inj (sym found ∙ ap (λ k. get k s.revisions) ((text_eq.beq_iff id j).0 same) ∙ h)),
    )
    | inr other ↦ (q, rw (get-set id j (with_verification state r) s.revisions) (rw other h), refl)
  ]

  verified-IsHead :
      (b : Bool) (k : Text) (q : Revision)
      → IsHead s.revisions s.revision_seq s.cursor_seq (k, q)
      → IsHead
          (set id (with_verification state r) s.revisions)
          s.revision_seq
          s.cursor_seq
          (k, if b then with_verification state q else q)
  verified-IsHead true k q h =
      let (q', stored, same) = get-verified q.revision_id h.kept h.stored in
      record {
        keyed = h.keyed;
        issued = h.issued;
        cursor = h.cursor;
        kept = q';
        stored = stored;
        same = same ∙ h.same;
      }
  verified-IsHead false k q h =
      let (q', stored, same) = get-verified q.revision_id h.kept h.stored in
      record {
        keyed = h.keyed;
        issued = h.issued;
        cursor = h.cursor;
        kept = q';
        stored = stored;
        same = same ∙ h.same;
      }

  verify_heads-IsHead :
      (heads : Map Text Revision)
      → All (IsHead s.revisions s.revision_seq s.cursor_seq) heads
      → All
          (IsHead (set id (with_verification state r) s.revisions) s.revision_seq s.cursor_seq)
          (verify_heads s.parsed id state heads)
  unfolding verify_heads
  verify_heads-IsHead [] h = tt
  verify_heads-IsHead ((k, q) ∷ heads) h = (
    verified-IsHead (q.revision_id == id && not (contains id s.parsed)) k q h.0,
    verify_heads-IsHead heads h.1,
  )

  verified-IsWellFormed : IsWellFormed s → IsWellFormed (verify_found id state (some r) s).1
  verified-IsWellFormed w = record {
    heads_ok = verify_heads-IsHead s.heads w.heads_ok;
    revisions_ok =
        let old = All-get (IsRevision s.revision_seq) id r s.revisions w.revisions_ok found in
        All-set (IsRevision s.revision_seq) id (with_verification state r) s.revisions
          (record { keyed = old.keyed; issued = old.issued }) w.revisions_ok;
    changes_ok = w.changes_ok;
  }

pub read_revision-get :
    (s : Store) (brain_id id : Text) (r : Revision)
    → with_context (read_revision s brain_id id) ≡ some r
    → get id s.revisions ≡ some r
unfolding read_revision
read_revision-get s brain_id id r h = ground arith

pub Step-IsWellFormed : {s t : Store} → Step s t → IsWellFormed s → IsWellFormed t
unfolding set_write_verification
Step-IsWellFormed {s} (recording now input e) w =
    rw e (unfold record_conflict in record_found-IsWellFormed s now input _ w)
Step-IsWellFormed {s} (publishing r n e) w = rw e (publish-IsWellFormed s r n w)
Step-IsWellFormed {s} (verifying brain_id id state e) w =
    rw e (of (with_context (read_revision s brain_id id)) refl)
  where
    of :
        (f : Option Revision)
        → with_context (read_revision s brain_id id) ≡ f
        → IsWellFormed (verify_found id state f s).1
    of none h = w
    of (some r) h = verified-IsWellFormed s id state r (read_revision-get s brain_id id r h) w
Step-IsWellFormed (resolving brain_id conflict_id id now e) w = rw e w

-- The invariant holds in every store that a sequence of steps reaches from one where it holds.
pub Steps-IsWellFormed : {s t : Store} → Steps s t → IsWellFormed s → IsWellFormed t
Steps-IsWellFormed here w = w
Steps-IsWellFormed (next p st) w = Step-IsWellFormed st (Steps-IsWellFormed p w)
