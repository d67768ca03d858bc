-- ===== src/Wikilinks/Rewritten.antt =====
-- What the rewriting of src/services/wikilinks.ts leaves of the links to a renamed file.
use brain_mcp_server.Prelude.{
  zero, suc, any, drop, reverse, ℕ, ◌≡◌, ◌≢◌, refl, sym, ◌∙◌, Bool, true, false, ◌||◌, List, [],
  ◌∷◌, map, Text, text_eq, nat_eq, ◌==◌, if◌then◌else◌, arith, All, All-impl, contains,
  text_beq_iff, subst,
}
use mathlib.Core.List.{Memᴰ, reverse_aux}
use brain_mcp_server.Wikilinks.{
  FileEntry, path_no_ext, base_no_ext, after_last_slash, split_inner, Segment, outside, link,
  segments, Renaming, Found, path_link, bare_link, colliding_link, other_link, found_in, rewritten,
  is_change, found_by, rewrite_inner, rewrite_segment, any_link, rewrite_content, rewrite_files,
  renaming_of, rewrite_inbound_links, resolves_to, has_inbound_link, basename_unique_in,
}
use brain_mcp_server.Wikilinks.Segments.{IsInner, segments-AreParsed, segments-render}
use brain_mcp_server.Wikilinks.Changed.{changed-AreParsed}
use brain_mcp_server.Wikilinks.Inbound.{found_in-resolves, changed-has_inbound_link}
use brain_mcp_server.Wikilinks.Names.{IsName, split_inner-name, name-IsInner}

-- The new path can stand in a link, with its directories and without.
pub record IsLinkable (to_path : Text) : Type 0 where
  pub path : IsName (path_no_ext to_path)
  pub base : IsName (base_no_ext to_path)

module _ (r : Renaming) (ok_name : IsLinkable r.to_path) where
  rewritten-IsInner : (inner : Text) (f : Found) → IsInner inner → IsInner (rewritten r inner f)
  rewritten-IsInner inner path_link h = name-IsInner (path_no_ext r.to_path) inner ok_name.path h
  rewritten-IsInner inner bare_link h = name-IsInner (base_no_ext r.to_path) inner ok_name.base h
  rewritten-IsInner inner colliding_link h = h
  rewritten-IsInner inner other_link h = h

  rewrite_inner-IsInner : (inner : Text) → IsInner inner → IsInner (rewrite_inner r inner)
  rewrite_inner-IsInner inner h = rewritten-IsInner inner (found_by r inner) h

  -- Where the new name is one that a link can hold (without brackets, bars, hashes and
  -- backslashes, not empty, no blanks at its ends, with its directories and without), the text
  -- that rewriteContent returns has the units and the links of the content, in their order, and
  -- each link rewritten by itself.
  pub segments-rewrite_content :
      (content : Text)
      → segments (rewrite_content r content).content ≡ map (rewrite_segment r) (segments content)
  unfolding rewrite_content
  segments-rewrite_content content = segments-render (map (rewrite_segment r) (segments content)) (
      changed-AreParsed (rewrite_inner r) rewrite_inner-IsInner (segments content)
        (segments-AreParsed content))

-- The new path is another link than the old one.
pub record IsOther (from_path to_path : Text) : Type 0 where
  pub linkable : IsLinkable to_path
  pub base : base_no_ext to_path ≢ base_no_ext from_path
  pub path : path_no_ext to_path ≢ path_no_ext from_path
  pub moved : path_no_ext to_path ≢ base_no_ext from_path

-- A base name has no slash.
any-reverse_aux : (p : ℕ → Bool) (s t : Text) → any p (reverse_aux s t) ≡ any p s || any p t
any-reverse_aux p [] t = refl
any-reverse_aux p (c ∷ s) t = ground (arith, any-reverse_aux p s (c ∷ t))

any-drop : (p : ℕ → Bool) (n : ℕ) (s : Text) → any p s ≡ false → any p (drop n s) ≡ false
any-drop p zero s h = h
any-drop p (suc n) [] h = h
any-drop p (suc n) (c ∷ s) h = any-drop p n s (ground (arith, h))

contains-path_no_ext : (s : Text) → contains b'/' s ≡ false → contains b'/' (path_no_ext s) ≡ false
unfolding path_no_ext
contains-path_no_ext s h = ground (
  arith,
  h,
  any-reverse_aux (λ c. c == b'/') (drop 3 (reverse s)) [],
  any-drop (λ c. c == b'/') 3 (reverse s),
  any-reverse_aux (λ c. c == b'/') s [],
)

contains-after_last_slash : (s : Text) → contains b'/' (after_last_slash s) ≡ false
unfolding after_last_slash
contains-after_last_slash [] = refl
contains-after_last_slash (c ∷ s) = ground (arith, contains-after_last_slash s)

contains-base_no_ext : (path : Text) → contains b'/' (base_no_ext path) ≡ false
unfolding base_no_ext
contains-base_no_ext path =
    contains-path_no_ext (after_last_slash path) (contains-after_last_slash path)

module _ (r : Renaming) (other : IsOther r.from_path r.to_path)
    (unique : r.basename_unique ≡ true) where
  abbrev resolves : Text → Bool
  resolves inner = resolves_to r.from_path true (split_inner inner).target

  resolves-path : resolves_to r.from_path true (path_no_ext r.to_path) ≡ false
  unfolding resolves_to
  resolves-path = ground (
    arith,
    other.path,
    other.moved,
    text_beq_iff (path_no_ext r.to_path) (path_no_ext r.from_path),
    text_beq_iff (path_no_ext r.to_path) (base_no_ext r.from_path),
  )

  resolves-base : resolves_to r.from_path true (base_no_ext r.to_path) ≡ false
  resolves-base =
      unfold resolves_to in
      ground (
        arith,
        contains-base_no_ext r.to_path,
        other.base,
        text_beq_iff (base_no_ext r.to_path) (base_no_ext r.from_path),
      )

  found_in-resolves_old :
      (target : Text) → resolves_to r.from_path true target ≡ is_change (found_in r target)
  found_in-resolves_old target =
      subst (λ (b : Bool). resolves_to r.from_path b target ≡ is_change (found_in r target)) unique
        (found_in-resolves r target)

  -- A rewritten link does not resolve to the old path.
  rewritten-resolves :
      (inner : Text) (f : Found)
      → resolves inner ≡ is_change f
      → resolves (rewritten r inner f) ≡ false
  rewritten-resolves inner path_link h =
      rw (split_inner-name (path_no_ext r.to_path) inner other.linkable.path) resolves-path
  rewritten-resolves inner bare_link h =
      rw (split_inner-name (base_no_ext r.to_path) inner other.linkable.base) resolves-base
  rewritten-resolves inner colliding_link h = h
  rewritten-resolves inner other_link h = h

  any_link-rewritten :
      (found : List Segment) → any_link resolves (map (rewrite_segment r) found) ≡ false
  any_link-rewritten [] = refl
  any_link-rewritten (outside c ∷ rest) = any_link-rewritten rest
  any_link-rewritten (link inner ∷ rest) = ground (
    arith,
    rewritten-resolves inner (found_by r inner) (found_in-resolves_old (split_inner inner).target),
    any_link-rewritten rest,
  )

  has_inbound_link-rewritten :
      (content : Text)
      → has_inbound_link r.from_path true (rewrite_content r content).content ≡ false
  unfolding has_inbound_link
  has_inbound_link-rewritten content =
      rw (segments-rewrite_content r other.linkable content) (any_link-rewritten (segments content))

  changed-old :
      (content : Text)
      → (rewrite_content r content).changed ≡ has_inbound_link r.from_path true content
  changed-old content =
      subst
        (λ (b : Bool). (rewrite_content r content).changed ≡ has_inbound_link r.from_path b content)
        unique (changed-has_inbound_link r content)

  -- What becomes of a file.
  pub data IsCleared (updates : List FileEntry) (file : FileEntry) : Type 0 where
    renamed : file.name ≡ r.from_path → IsCleared updates file
    kept : has_inbound_link r.from_path true file.content ≡ false → IsCleared updates file
    updated :
        (content : Text)
        → Memᴰ (record { name = file.name; content = content }) updates
        → has_inbound_link r.from_path true content ≡ false
        → IsCleared updates file

  tail-IsCleared :
      (e : FileEntry) (updates : List FileEntry) (file : FileEntry)
      → IsCleared updates file
      → IsCleared (e ∷ updates) file
  tail-IsCleared e updates file (renamed h) = renamed h
  tail-IsCleared e updates file (kept h) = kept h
  tail-IsCleared e updates file (updated content m h) = updated content (Memᴰ.tail m) h

  rewrite_files-IsCleared :
      (files : List FileEntry) → All (IsCleared (rewrite_files r files).0) files
  unfolding rewrite_files
  rewrite_files-IsCleared [] = tt
  rewrite_files-IsCleared (file ∷ files) =
      named (file.name == r.from_path) refl (rewrite_files-IsCleared files)
    where
      new : FileEntry
      new = record { name = file.name; content = (rewrite_content r file.content).content }

      of :
          (b : Bool)
          → (rewrite_content r file.content).changed ≡ b
          → All (IsCleared (rewrite_files r files).0) files
          → All
              (IsCleared (if b then new ∷ (rewrite_files r files).0 else (rewrite_files r files).0))
              (file ∷ files)
      of true q ih = (
        updated new.content (Memᴰ.head refl) (has_inbound_link-rewritten file.content),
        All-impl (tail-IsCleared new (rewrite_files r files).0) files ih,
      )
      of false q ih = (kept (sym (changed-old file.content) ∙ q), ih)

      named :
          (b : Bool)
          → (file.name == r.from_path) ≡ b
          → All (IsCleared (rewrite_files r files).0) files
          → All
              (IsCleared
                (if b then rewrite_files r files else (
                  if (rewrite_content r file.content).changed
                      then new ∷ (rewrite_files r files).0
                      else (rewrite_files r files).0,
                  (rewrite_content r file.content).ambiguous || (rewrite_files r files).1,
                )).0)
              (file ∷ files)
      named true e ih = (renamed ((text_beq_iff file.name r.from_path).0 e), ih)
      named false e ih = of (rewrite_content r file.content).changed refl ih

-- After a rename to another name that a link can hold (without brackets, bars, hashes and
-- backslashes, not empty, no blanks at its ends, with its directories and without), where the old
-- base name is unique, no link to the old path is left: every file but the renamed one has none,
-- or is among the updates with a content that has none.
pub rewrite_inbound_links-IsCleared :
    (files : List FileEntry) (from_path to_path : Text) (other : IsOther from_path to_path)
    (unique : basename_unique_in files (base_no_ext from_path) ≡ true)
    → All
        (IsCleared
          (renaming_of files from_path to_path)
          other
          unique
          (rewrite_inbound_links files from_path to_path).0)
        files
unfolding rewrite_inbound_links
rewrite_inbound_links-IsCleared files from_path to_path other unique =
    rewrite_files-IsCleared (renaming_of files from_path to_path) other unique files
