-- ===== src/Policy/Receipt.antt =====
-- `formatAutomaticChange` of src/services/write-policy.ts: the entry of the change log that an accepted
-- write leaves.
use brain_mcp_server.Prelude.{
  or_text, ℕ, ◌+◌, zero, suc, ◌≡◌, refl, ap, drop, ◌-◌, ◌≤◌, Option, none, some, List, [], ◌∷◌,
  ◌++◌, map, Text, codes, join, if◌then◌else◌, length, take, ltb, ◌==◌, nat_eq, arith,
  length-append, length-take-le, max,
}
use brain_mcp_server.Policy.{
  Runtime, Actor, BrainWritePolicy, BrainWriteContext, WriteEvidence, Kind, source_backed,
  user_directed, Method, hosted_source, connector_read, local_read, user_instruction, Observation,
  agent_observed, retrieved,
}
use brain_mcp_server.Policy.Lines.{added_lines}
use brain_mcp_server.Policy.Queue.{without_returns}
use brain_mcp_server.Policy.Knowledge.{receipt_limit}

-- `s.replace(/\n/g, " ↵ ")`
abbrev show_breaks : Text → Text
show_breaks [] = []
show_breaks (c ∷ s) = if c == 10 then 32 ∷ 0x21b5 ∷ 32 ∷ show_breaks s else c ∷ show_breaks s

-- `safe`
abbrev safe : Text → ℕ → Text
safe s n = take n (show_breaks (without_returns s))

-- `s || t`
abbrev or_else : Option Text → Text → Text
or_else none t = t
or_else (some s) t = or_text s t

abbrev method_name : Method → Text
method_name hosted_source = codes "hosted_source"
method_name connector_read = codes "connector_read"
method_name local_read = codes "local_read"
method_name user_instruction = codes "user_instruction"

abbrev observation_name : Observation → Text
observation_name agent_observed = codes "agent_observed"
observation_name retrieved = codes "retrieved"

-- `actor?.name || actor?.id || "unattributed"`
abbrev agent_name : Option Actor → Text
agent_name none = codes "unattributed"
agent_name (some a) = or_else a.name (or_text a.id (codes "unattributed"))

abbrev source_line : WriteEvidence → Text
source_line e =
    codes "Source: "
    ++ safe e.reference 100
    ++ codes "; observed "
    ++ e.observed_at
    ++ codes "; "
    ++ observation_name e.verification
    ++ codes " via "
    ++ method_name e.method
    ++ codes "; revision/hash "
    ++ safe (or_else e.revision (or_else e.sha256 (codes "direct instruction"))) 70

-- `s.replace(/\/$/, "")`
abbrev without_slash : Text → Text
without_slash [] = []
without_slash (c ∷ []) = if c == 47 then [] else c ∷ []
without_slash (c ∷ d ∷ s) = c ∷ without_slash (d ∷ s)

abbrev link_below : Runtime → Text → Text → Text → Text
link_below rt brain_id revision_id [] =
    codes "Read full change with brain_read_change (revision_id: " ++ revision_id ++ codes ")"
link_below rt brain_id revision_id (c ∷ s) =
    codes "[Full change and prior text]("
    ++ (c ∷ s)
    ++ codes "/monitor/changes/"
    ++ rt.encode_uri_component revision_id
    ++ codes "?brain_id="
    ++ rt.encode_uri_component brain_id
    ++ codes ")"

abbrev review_link : Runtime → Text → Text → Option Text → Text
review_link rt brain_id revision_id none = link_below rt brain_id revision_id []
review_link rt brain_id revision_id (some base) =
    link_below rt brain_id revision_id (without_slash base)

-- The lines above the last two, and the last two.
abbrev heading : Kind → Text
heading user_directed = codes "User-directed knowledge update " ++ 0x2014 ∷ 32 ∷ []
heading source_backed = codes "Automatic source-backed update " ++ 0x2014 ∷ 32 ∷ []

unfoldable pub receipt_lines :
    Text → Text → Text → Text → Text → BrainWriteContext → Option Actor → List Text
unfolding added_lines join
receipt_lines now brain_id filename before after context actor =
    (heading context.kind ++ now ++ codes "; " ++ brain_id)
    ∷ (codes "Agent: " ++ safe (agent_name actor) 80 ++ codes "; file: " ++ safe filename 150)
    ∷ (codes "Why: " ++ safe context.reason 180)
    ∷ (codes "Before: "
        ++ safe (or_text (join 10 (added_lines after before)) (codes "(no removed text)")) 220)
    ∷ (codes "After: "
        ++ safe (or_text (join 10 (added_lines before after)) (codes "(no added text)")) 220)
    ∷ (map source_line (take 2 context.evidence)
        ++ (if ltb 2 (length context.evidence)
            then codes "Additional sources in full change record." ∷ []
            else []))

unfoldable pub receipt_footer : Runtime → Text → Text → BrainWritePolicy → Text
receipt_footer rt brain_id revision_id policy =
    codes "Result: applied; read-back status in change record. Manual review is optional."
    ++ 10 ∷ review_link rt brain_id revision_id policy.review_base_url

unfoldable pub format_automatic_change :
    Runtime
    → Text
    → Text
    → Text
    → Text
    → Text
    → BrainWriteContext
    → Option Actor
    → Text
    → BrainWritePolicy
    → Text
format_automatic_change rt now brain_id filename before after context actor revision_id policy =
    let footer = receipt_footer rt brain_id revision_id policy in
    take (receipt_limit policy.max_receipt_chars - length footer - 1)
      (join 10 (receipt_lines now brain_id filename before after context actor))
    ++ 10 ∷ footer

take-drop : {A : Type 0} → (n : ℕ) (xs : List A) → take n xs ++ drop n xs ≡ xs
take-drop zero xs = refl
take-drop (suc n) [] = refl
take-drop (suc n) (x ∷ xs) = ap (λ ys. x ∷ ys) (take-drop n xs)

take-all : {A : Type 0} → (n : ℕ) (xs : List A) → length xs ≤ n → take n xs ≡ xs
take-all zero [] h = refl
take-all zero (x ∷ xs) h = absurd (omega (arith, h))
take-all (suc n) [] h = refl
take-all (suc n) (x ∷ xs) h = ap (λ ys. x ∷ ys) (take-all n xs (omega (arith, h)))

-- An entry of a body and a footer: the body, cut at its end where the two do not fit, and the footer.
pub record IsBounded (limit : ℕ) (footer body entry : Text) : Type 0 where
  pub shown : Text
  pub left : Text
  pub parts : entry ≡ shown ++ 10 ∷ footer
  pub begins : shown ++ left ≡ body
  pub whole : length body + 1 + length footer ≤ limit → shown ≡ body
  pub bound : length entry ≤ max limit (length footer + 1)

-- An automatic log entry is its body, cut at the end, and its whole footer, with the link to the
-- full change. The body is not cut where both fit, and the entry is no longer than the limit of
-- the policy, or, where the footer with its line break is itself longer, than that.
pub format_automatic_change-IsBounded :
    (rt : Runtime) (now brain_id filename before after : Text) (context : BrainWriteContext)
    (actor : Option Actor) (revision_id : Text) (policy : BrainWritePolicy)
    → IsBounded
        (receipt_limit policy.max_receipt_chars)
        (receipt_footer rt brain_id revision_id policy)
        (join 10 (receipt_lines now brain_id filename before after context actor))
        (format_automatic_change rt now brain_id filename before after context actor revision_id
          policy)
unfolding format_automatic_change
format_automatic_change-IsBounded rt now brain_id filename before after context actor revision_id
      policy =
    let footer = receipt_footer rt brain_id revision_id policy in
    let room = receipt_limit policy.max_receipt_chars - length footer - 1 in
    let body = join 10 (receipt_lines now brain_id filename before after context actor) in
    record {
      shown = take room body;
      left = drop room body;
      parts = refl;
      begins = take-drop room body;
      bound = omega (arith, length-append (take room body) (10 ∷ footer), length-take-le room body);
      whole = λ fits. take-all room body (omega arith);
    }
