-- ===== src/Wikilinks/Changed.antt =====
-- Where only the insides of the links of src/services/wikilinks.ts change, no link begins or ends elsewhere.
use brain_mcp_server.Prelude.{
  ℕ, ◌≡◌, refl, sym, ◌∙◌, Bool, none, List, [], ◌∷◌, ◌++◌, map, Text, codes, nat_eq, starts_with,
}
use brain_mcp_server.Wikilinks.{
  is_bracket, until_close, link_at, Segment, outside, link, render, map_link,
}
use brain_mcp_server.Wikilinks.Segments.{AreParsed, IsInner, starts_with_nil, closing}

-- Where only the insides of links change, no link begins or ends elsewhere.
module _ (g : Text → Text) where
  abbrev changed : List Segment → List Segment
  changed = map (map_link g)

  starts-changed :
      (found : List Segment)
      → starts_with (render (changed found)) (codes "]") ≡ starts_with (render found) (codes "]")
  unfolding render starts_with
  starts-changed [] = refl
  starts-changed (outside c ∷ rest) =
      rw (starts_with_nil (render rest), starts_with_nil (render (changed rest))) refl
  starts-changed (link inner ∷ rest) = refl

  until_close-link : (s : Text) → until_close (b'[' ∷ s) ≡ none
  unfolding until_close starts_with
  until_close-link s = refl

  until_close-changed :
      (found : List Segment) → until_close (render (changed found)) ≡ until_close (render found)
  unfolding render
  until_close-changed [] = refl
  until_close-changed (link inner ∷ rest) = until_close-link _ ∙ sym (until_close-link _)
  until_close-changed (outside c ∷ rest) =
      of (is_bracket c) (until_close-changed rest) (starts-changed rest)
    where
      of :
          (b : Bool)
          → until_close (render (changed rest)) ≡ until_close (render rest)
          → starts_with (render (changed rest)) (codes "]") ≡ starts_with (render rest) (codes "]")
          → until_close (c ∷ render (changed rest)) ≡ until_close (c ∷ render rest)
      of b e f = unfold until_close starts_with in rw (e, f) refl

  link_at-changed :
      (c : ℕ) (found : List Segment)
      → link_at (c ∷ render (changed found)) ≡ link_at (c ∷ render found)
  unfolding render link_at
  link_at-changed c [] = refl
  link_at-changed c (outside d ∷ rest) = rw (until_close-changed rest) refl
  link_at-changed c (link inner ∷ rest) =
      rw
        (
          until_close-link (g inner ++ closing ++ render (changed rest)),
          until_close-link (inner ++ closing ++ render rest),
        )
        refl

  pub changed-AreParsed :
      ((inner : Text) → IsInner inner → IsInner (g inner))
      → (found : List Segment) → AreParsed found
      → AreParsed (changed found)
  changed-AreParsed keep [] h = tt
  changed-AreParsed keep (outside c ∷ rest) (e, hs) =
      (link_at-changed c rest ∙ e, changed-AreParsed keep rest hs)
  changed-AreParsed keep (link inner ∷ rest) (good, hs) =
      (keep inner good, changed-AreParsed keep rest hs)
