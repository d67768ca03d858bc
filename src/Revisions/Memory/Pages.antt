-- ===== src/Revisions/Memory/Pages.antt =====
-- `listChanges` of src/sync/memory-revision-store.ts, page after page.
use brain_mcp_server.Prelude.{
  ℕ, ◌≡◌, refl, ap, sym, ◌∙◌, ◌≤◌, Bool, true, false, ◌&&◌, Option, some, List, [], ◌∷◌, ◌++◌, Text,
  text_eq, ◌==◌, keep, ltb, arith, if◌then◌else◌, subst,
}
use brain_mcp_server.Revisions.{ChangeRecord}
use brain_mcp_server.Revisions.Memory.{Store}
use brain_mcp_server.Revisions.Memory.Conflicts.{since, last_cursor, list_changes}
use brain_mcp_server.Revisions.Memory.Invariant.{Rising}

module _ (brain_id : Text) where
  abbrev is_after : ℕ → ChangeRecord → Bool
  is_after n c = c.brain_id == brain_id && ltb n c.cursor

  abbrev page : ℕ → List ChangeRecord → List ChangeRecord
  page n cs = keep (is_after n) cs

  -- Later cursors are above any earlier bound.
  page-Rising :
      (n m to : ℕ) (cs : List ChangeRecord) → Rising m cs to → n ≤ m → page n cs ≡ page m cs
  page-Rising n m to [] r h = refl
  page-Rising n m to (c ∷ cs) r h =
      let i = page-Rising n c.cursor to cs r.1 (omega (arith, r.0, h)) in
      let j = page-Rising m c.cursor to cs r.1 (omega (arith, r.0)) in
      let a : ltb n c.cursor ≡ true = ground (arith, r.0, h) in
      let b : ltb m c.cursor ≡ true = ground (arith, r.0) in ground (arith, i, j)

  page-Rising_append :
      (n m to : ℕ) (cs more : List ChangeRecord)
      → Rising m (cs ++ more) to
      → n ≤ m
      → page n cs ≡ page m cs
  page-Rising_append n m to [] more r h = refl
  page-Rising_append n m to (c ∷ cs) more r h =
      let i = page-Rising_append n c.cursor to cs more r.1 (omega (arith, r.0, h)) in
      let j = page-Rising_append m c.cursor to cs more r.1 (omega (arith, r.0)) in
      let a : ltb n c.cursor ≡ true = ground (arith, r.0, h) in
      let b : ltb m c.cursor ≡ true = ground (arith, r.0) in ground (arith, i, j)

  since-last_cursor-ge :
      (n m : ℕ) (cs : List ChangeRecord) (o : Option ℕ)
      → n ≤ since o
      → n ≤ m
      → n ≤ since (last_cursor o (page m cs))
  since-last_cursor-ge n m [] o e h = e
  since-last_cursor-ge n m (c ∷ cs) o e h =
      of (is_after m c) refl (since-last_cursor-ge n m cs o e h)
        (since-last_cursor-ge n m cs (some c.cursor))
    where
      of :
          (hit : Bool)
          → is_after m c ≡ hit
          → n ≤ since (last_cursor o (page m cs))
          → (n ≤ c.cursor → n ≤ m → n ≤ since (last_cursor (some c.cursor) (page m cs)))
          → n ≤ since (last_cursor o (if hit then c ∷ page m cs else page m cs))
      of true t i j = j (ground arith) h
      of false t i j = i

  -- The rest of a page, from where the page ended.
  abbrev rest_of : ℕ → Option ℕ → List ChangeRecord → List ChangeRecord → List ChangeRecord
  rest_of n o cs all_changes = page (since (last_cursor o (page n cs))) all_changes

  pages-append :
      (k to : ℕ) (cs more : List ChangeRecord) (o : Option ℕ)
      → Rising k (cs ++ more) to
      → page (since o) cs ++ rest_of (since o) o cs (cs ++ more) ≡ page (since o) (cs ++ more)
  pages-append k to [] more o r = refl
  pages-append k to (c ∷ cs) more o r =
      of (is_after (since o) c) refl (pages-append c.cursor to cs more o r.1)
        (pages-append c.cursor to cs more (some c.cursor) r.1)
    where
      n : ℕ
      n = since o

      of :
          (hit : Bool)
          → is_after n c ≡ hit
          → page n cs ++ rest_of n o cs (cs ++ more) ≡ page n (cs ++ more)
          → page c.cursor cs ++ rest_of c.cursor (some c.cursor) cs (cs ++ more)
            ≡ page c.cursor (cs ++ more)
          → (if hit then c ∷ page n cs else page n cs)
              ++ page
                  (since (last_cursor o (if hit then c ∷ page n cs else page n cs)))
                  (c ∷ cs ++ more)
            ≡ (if hit then c ∷ page n (cs ++ more) else page n (cs ++ more))
      of true t i j =
          let le : since o ≤ c.cursor = ground arith in
          let low =
            since-last_cursor-ge c.cursor c.cursor cs (some c.cursor) (omega arith) (omega arith) in
          let done : is_after (since (last_cursor (some c.cursor) (page c.cursor cs))) c ≡ false =
            ground (arith, low) in
          let joined : page c.cursor cs
                ++ page (since (last_cursor (some c.cursor) (page c.cursor cs))) (c ∷ (cs ++ more))
              ≡ page c.cursor (cs ++ more) =
            rw done j in
          subst
            (λ x.
              (c ∷ x) ++ page (since (last_cursor (some c.cursor) x)) (c ∷ (cs ++ more))
              ≡ c ∷ page (since o) (cs ++ more))
            (sym (page-Rising_append (since o) c.cursor to cs more r.1 le))
            (ap (λ x. c ∷ x) (joined ∙ sym (page-Rising (since o) c.cursor to (cs ++ more) r.1 le)))
      of false t i j =
          let low = since-last_cursor-ge n n cs o (omega arith) (omega arith) in
          let done : is_after (since (last_cursor o (page n cs))) c ≡ false = ground (arith, low) in
          rw done i

-- A reader that continues from the cursor of a page misses no change and reads none twice: the page and
-- the page from its cursor in any later store, whose cursors rise, make up the page of that store from
-- the first cursor.
pub list_changes-resumes :
    (s t : Store) (brain_id : Text) (more : List ChangeRecord) (cursor : Option ℕ)
    → t.changes ≡ s.changes ++ more
    → Rising 0 t.changes t.cursor_seq
    → (list_changes s brain_id cursor).0
        ++ (list_changes t brain_id (list_changes s brain_id cursor).1).0
      ≡ (list_changes t brain_id cursor).0
unfolding list_changes
list_changes-resumes s t brain_id more cursor e r =
    subst
      (λ x.
        page brain_id (since cursor) s.changes
          ++ page brain_id (since (last_cursor cursor (page brain_id (since cursor) s.changes))) x
        ≡ page brain_id (since cursor) x)
      (sym e)
      (pages-append brain_id 0 t.cursor_seq s.changes more cursor
        (subst (λ x. Rising 0 x t.cursor_seq) e r))
