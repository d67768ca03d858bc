-- ===== src/Revisions/Memory/Renamed.antt =====
-- What `proposeRename` of src/sync/memory-revision-store.ts does to the files.
use brain_mcp_server.Prelude.{
  refl, ◌≡◌, ◌∙◌, ap, true, false, Option, none, some, Text, text_eq, text_beq, option_eq,
  if◌then◌else◌, Bool-cases, inr, Bool, inl, subst, text_beq_refl, sym, text_beq_iff, arith,
}
use brain_mcp_server.Policy.{Runtime, ok, err, BrainWritePolicy, Result}
use brain_mcp_server.Policy.Queue.{assert_queue_policy}
use brain_mcp_server.Policy.Deployment.{Deployment, write_policy_for_brain}
use brain_mcp_server.Revisions.{Revision, RevisionRenameProposal, accepted, unchanged, conflict}
use brain_mcp_server.Revisions.Memory.{Store, key, current_of, publish, advance, content_of, get}
use brain_mcp_server.Revisions.Memory.Writes.{Call, Written, conflicted}
use brain_mcp_server.Revisions.Memory.Removals.{
  tombstone, rename_both, renamed, propose_rename, rename_from, rename_to, checked_rename,
  governed_rename, rename_live, is_live_base, deletion_conflict, target_conflict,
}
use brain_mcp_server.Revisions.Memory.Answers.{IsSameFiles, record_conflict-IsSameFiles}
use brain_mcp_server.Revisions.Memory.Published.{current_of-publish}

-- The new name is free: it has no head, or a deleted one.
abbrev pub IsFree : Option Revision → Type 0
IsFree none = Unit
IsFree (some to) = to.deleted ≡ true

-- A rename that was accepted.
pub record IsRenaming (rt : Runtime) (d : Deployment) (input : RevisionRenameProposal) (s t : Store)
    (r : Revision) : Type 0 where
  pub source : Revision
  pub was_head : current_of s input.brain_id input.from ≡ some source
  pub was_live : source.deleted ≡ false
  pub base : input.base_revision_id ≡ some source.revision_id
  pub free : IsFree (current_of s input.brain_id input.to)
  pub policy : Option BrainWritePolicy
  pub governed : write_policy_for_brain rt d input.brain_id ≡ ok policy
  pub allowed :
      assert_queue_policy rt input.brain_id policy input.to
        (content_of (current_of s input.brain_id input.to))
        source.content
      ≡ ok tt
  pub moved : current_of t input.brain_id input.to ≡ some r
  pub same_content : r.content ≡ source.content
  pub live : r.deleted ≡ false
  pub left : Revision
  pub left_behind : current_of t input.brain_id input.from ≡ some left
  pub gone : left.deleted ≡ true
  pub others :
      (brain_id filename : Text)
      → text_beq (key input.brain_id input.to) (key brain_id filename) ≡ false
      → text_beq (key input.brain_id input.from) (key brain_id filename) ≡ false
      → current_of t brain_id filename ≡ current_of s brain_id filename

abbrev pub RenameAnswer : Runtime → Deployment → RevisionRenameProposal → Store → Written → Type 0
RenameAnswer rt d input s (ok (accepted head r), t) = IsRenaming rt d input s t r
RenameAnswer rt d input s (ok (unchanged head r), t) = ⊥
RenameAnswer rt d input s (ok (conflict c head), t) = IsSameFiles s t
RenameAnswer rt d input s (err e, t) = t ≡ s

module _ (call : Call) (input : RevisionRenameProposal) (from : Revision) (to : Option Revision)
    (s : Store) where
  current_of-rename_both :
      (brain_id filename : Text)
      → current_of (rename_both call input from to s) brain_id filename ≡ (
          if text_beq (key input.brain_id input.from) (key brain_id filename)
          then some (
              tombstone call input.brain_id input.from input.origin input.actor from
                (some input.to)
                (publish (renamed call input from to s) (advance s)))
          else if text_beq (key input.brain_id input.to) (key brain_id filename)
          then some (renamed call input from to s)
          else current_of s brain_id filename)
  unfolding rename_both
  current_of-rename_both brain_id filename =
      let r = renamed call input from to s in
      let u = publish r (advance s) in
      let t =
        tombstone call input.brain_id input.from input.origin input.actor from (some input.to) u in
      let first = current_of-publish r s brain_id filename in
      let second = current_of-publish t u brain_id filename in
      second
      ∙ (unfold tombstone renamed in
          ap
            (λ x.
              if text_beq (key input.brain_id input.from) (key brain_id filename)
              then some t
              else x)
            first)

module _ (rt : Runtime) (d : Deployment) (call : Call) (input : RevisionRenameProposal) (s : Store)
    (source : Revision) (head : current_of s input.brain_id input.from ≡ some source)
    (live : source.deleted ≡ false) (base : input.base_revision_id ≡ some source.revision_id) where
  key-free_ne :
      IsFree (current_of s input.brain_id input.to)
      → text_beq (key input.brain_id input.from) (key input.brain_id input.to) ≡ false
  key-free_ne free =
      elim (Bool-cases (text_beq (key input.brain_id input.from) (key input.brain_id input.to))) [
        | inr other ↦ other
        | inl same ↦
            let e : key input.brain_id input.from ≡ key input.brain_id input.to =
              (text_beq_iff _ _).0 same in
            let h : current_of s input.brain_id input.to ≡ some source =
              ap (λ k. get k s.heads) (sym e) ∙ head in
            let gone : source.deleted ≡ true = subst IsFree h free in absurd (cc)
      ]

  checked_rename-RenameAnswer :
      (policy : Option BrainWritePolicy) (q : Result (Unit {0}))
      → write_policy_for_brain rt d input.brain_id ≡ ok policy
      → IsFree (current_of s input.brain_id input.to)
      → assert_queue_policy rt input.brain_id policy input.to
          (content_of (current_of s input.brain_id input.to))
          source.content
        ≡ q
      → RenameAnswer rt d input s
          (checked_rename call input source (current_of s input.brain_id input.to) q s)
  checked_rename-RenameAnswer policy (err e) g free a = refl
  checked_rename-RenameAnswer policy (ok _) g free a =
      let to = current_of s input.brain_id input.to in
      let ne = key-free_ne free in
      record {
        source = source;
        was_head = head;
        was_live = live;
        base = base;
        free = free;
        policy = policy;
        governed = g;
        allowed = a;
        moved =
            current_of-rename_both call input source to s input.brain_id input.to
            ∙ rw ne (rw (text_beq_refl (key input.brain_id input.to)) refl);
        same_content = unfold renamed in refl;
        live = unfold renamed in refl;
        left =
            tombstone call input.brain_id input.from input.origin input.actor source (some input.to)
              (publish (renamed call input source to s) (advance s));
        left_behind =
            current_of-rename_both call input source to s input.brain_id input.from
            ∙ rw (text_beq_refl (key input.brain_id input.from)) refl;
        gone = unfold tombstone in refl;
        others = λ b f o p. current_of-rename_both call input source to s b f ∙ rw p (rw o refl);
      }

  rename_live-RenameAnswer :
      (p : Result (Option BrainWritePolicy))
      → write_policy_for_brain rt d input.brain_id ≡ p
      → IsFree (current_of s input.brain_id input.to)
      → RenameAnswer rt d input s
          (governed_rename rt call input source (current_of s input.brain_id input.to) p s)
  rename_live-RenameAnswer (err e) g free = refl
  rename_live-RenameAnswer (ok policy) g free = checked_rename-RenameAnswer policy _ g free refl

  rename_to-RenameAnswer :
      (to : Option Revision)
      → current_of s input.brain_id input.to ≡ to
      → RenameAnswer rt d input s (rename_to rt d call input source to s)
  unfolding rename_to rename_live
  rename_to-RenameAnswer none h =
      subst
        (λ x.
          RenameAnswer rt d input s
            (governed_rename rt call input source x (write_policy_for_brain rt d input.brain_id) s))
        h (rename_live-RenameAnswer _ refl (subst IsFree (sym h) tt))
  rename_to-RenameAnswer (some to) h = of to.deleted refl
    where
      of :
          (gone : Bool)
          → to.deleted ≡ gone
          → RenameAnswer rt d input s (
              if gone
              then governed_rename rt call input source
                  (some to)
                  (write_policy_for_brain rt d input.brain_id)
                  s
              else conflicted call.now (target_conflict input source to) (some to) s)
      of true gone =
          subst
            (λ x. RenameAnswer rt d input s (
              governed_rename rt call input source x (write_policy_for_brain rt d input.brain_id)
                s))
            h (rename_live-RenameAnswer _ refl (subst IsFree (sym h) gone))
      of false gone = record_conflict-IsSameFiles call.now _ s

module _ (rt : Runtime) (d : Deployment) (call : Call) (input : RevisionRenameProposal)
    (s : Store) where
  rename_from-RenameAnswer :
      (from : Option Revision)
      → current_of s input.brain_id input.from ≡ from
      → RenameAnswer rt d input s (rename_from rt d call input from s)
  unfolding rename_from
  rename_from-RenameAnswer none h = record_conflict-IsSameFiles call.now _ s
  rename_from-RenameAnswer (some from) h = of (is_live_base input.base_revision_id (some from)) refl
    where
      of :
          (live : Bool)
          → is_live_base input.base_revision_id (some from) ≡ live
          → RenameAnswer rt d input s (
              if live
              then rename_to rt d call input from (current_of s input.brain_id input.to) s
              else conflicted call.now
                  (deletion_conflict input.brain_id input.from input.base_revision_id input.origin
                    input.actor
                    (some from))
                  (some from)
                  s)
      of true e =
          rename_to-RenameAnswer rt d call input s from h (unfold is_live_base in ground arith)
            ((option_eq.beq_iff input.base_revision_id (some from.revision_id)).0
              (unfold is_live_base in ground arith))
            _ refl
      of false e = record_conflict-IsSameFiles call.now _ s

  -- A rename is accepted only from the live head that it names, to a free name, and where the queue
  -- policy allows it; then the new name holds the content, the old one is a tombstone, and every other
  -- file has its head. Otherwise no file changes.
  pub propose_rename-RenameAnswer : RenameAnswer rt d input s (propose_rename rt d call input s)
  unfolding propose_rename
  propose_rename-RenameAnswer =
      rename_from-RenameAnswer (current_of s input.brain_id input.from) refl
