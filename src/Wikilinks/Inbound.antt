-- ===== src/Wikilinks/Inbound.antt =====
-- The two loops of src/services/wikilinks.ts over the files agree.
use brain_mcp_server.Prelude.{
  ◌≡◌, refl, sym, ap, Bool, true, false, ◌||◌, List, [], ◌∷◌, map, Text, text_eq, ◌==◌,
  if◌then◌else◌, arith,
}
use brain_mcp_server.Wikilinks.{
  FileEntry, split_inner, Segment, outside, link, segments, Renaming, found_in, is_change, found_by,
  any_link, rewrite_content, rewrite_files, rewrite_inbound_links, resolves_to, has_inbound_link,
  inbound_files, find_inbound_link_files, renaming_of,
}

module _ (r : Renaming) where
  pub found_in-resolves :
      (target : Text)
      → resolves_to r.from_path r.basename_unique target ≡ is_change (found_in r target)
  unfolding resolves_to found_in
  found_in-resolves target = ground arith

  any_link-changed :
      (found : List Segment)
      → any_link
          (λ inner. resolves_to r.from_path r.basename_unique (split_inner inner).target)
          found
        ≡ any_link (λ inner. is_change (found_by r inner)) found
  any_link-changed [] = refl
  any_link-changed (outside c ∷ rest) = any_link-changed rest
  any_link-changed (link inner ∷ rest) =
      ground (arith, found_in-resolves (split_inner inner).target, any_link-changed rest)

  -- A content changes exactly if it has a link to the old path.
  pub changed-has_inbound_link :
      (content : Text)
      → (rewrite_content r content).changed ≡ has_inbound_link r.from_path r.basename_unique content
  unfolding has_inbound_link rewrite_content
  changed-has_inbound_link content = sym (any_link-changed (segments content))

  inbound_files-rewrite_files :
      (files : List FileEntry)
      → inbound_files r.from_path r.basename_unique files
        ≡ map (λ (f : FileEntry). f.name) (rewrite_files r files).0
  unfolding inbound_files rewrite_files
  inbound_files-rewrite_files [] = refl
  inbound_files-rewrite_files (file ∷ files) =
      of (file.name == r.from_path) (rewrite_content r file.content).changed
        (changed-has_inbound_link file.content) (inbound_files-rewrite_files files)
    where
      of :
          (b changes : Bool)
          → changes ≡ has_inbound_link r.from_path r.basename_unique file.content
          → inbound_files r.from_path r.basename_unique files
            ≡ map (λ (f : FileEntry). f.name) (rewrite_files r files).0
          → (if b
              then inbound_files r.from_path r.basename_unique files
              else if has_inbound_link r.from_path r.basename_unique file.content
              then file.name ∷ inbound_files r.from_path r.basename_unique files
              else inbound_files r.from_path r.basename_unique files)
            ≡ map
                (λ (f : FileEntry). f.name)
                (if b then rewrite_files r files else (
                  if changes
                      then record {
                        name = file.name;
                        content = (rewrite_content r file.content).content;
                      }
                        ∷ (rewrite_files r files).0
                      else (rewrite_files r files).0,
                  (rewrite_content r file.content).ambiguous || (rewrite_files r files).1,
                )).0
      of true changes e ih = ih
      of false true e ih = rw (← e) (ap (λ names. file.name ∷ names) ih)
      of false false e ih = rw (← e) ih

-- findInboundLinkFiles lists exactly the files that rewriteInboundLinks updates, in their order, whatever the new
-- path is.
pub find_inbound_link_files-updates :
    (files : List FileEntry) (from_path to_path : Text)
    → find_inbound_link_files files from_path
      ≡ map (λ f. f.name) (rewrite_inbound_links files from_path to_path).0
unfolding find_inbound_link_files rewrite_inbound_links
find_inbound_link_files-updates files from_path to_path =
    inbound_files-rewrite_files (renaming_of files from_path to_path) files
