-- ===== src/Policy.antt =====
-- src/services/write-policy.ts: the write policy of a Brain, the evidence that a write carries, and what
-- the program takes from its runtime. The rules are in the modules below.
pub mod Patterns
pub mod Lines
pub mod Queue
pub mod Knowledge
pub mod Values
pub mod Deployment
pub mod Receipt
pub mod Tests
use brain_mcp_server.Prelude.{◌≡◌, refl, ℕ, Bool, true, false, Option, none, some, List, Text}

-- `RevisionActor` of src/sync/types.ts.
pub record Actor : Type 0 where
  pub provider : Text
  pub id : Text
  pub name : Option Text
  pub email : Option Text

pub data Mode : Type 0 where
  observe enforce : Mode

pub data Intake : Type 0 where
  retired brain_scoped legacy : Intake

pub record BrainWritePolicy : Type 0 where
  pub version : ℕ
  pub mode : Mode
  pub intake : Intake
  pub capture_route : Text
  pub task_paths : Option (List Text)
  pub review_base_url : Option Text
  pub max_receipt_chars : Option ℕ

pub data Method : Type 0 where
  hosted_source connector_read local_read user_instruction : Method

pub data Observation : Type 0 where
  agent_observed retrieved : Observation

pub record WriteEvidence : Type 0 where
  pub brain_id : Text
  pub reference : Text
  pub observed_at : Text
  pub method : Method
  pub verification : Observation
  pub revision : Option Text
  pub sha256 : Option Text
  pub excerpt : Text

pub data Kind : Type 0 where
  source_backed user_directed : Kind

pub data MaintenanceKind : Type 0 where
  content_gap source_ingestion link_repair lint_finding : MaintenanceKind

pub record Maintenance : Type 0 where
  pub kind : MaintenanceKind
  pub brain_target : Text

pub data Verification : Type 0 where
  applied verified verification_failed : Verification

-- `internal` is the private symbol that `internalWriteContext` sets.
pub record BrainWriteContext : Type 0 where
  pub operation_id : Text
  pub kind : Kind
  pub reason : Text
  pub evidence : List WriteEvidence
  pub maintenance : Option Maintenance
  pub tool_request_hash : Option Text
  pub request_hash : Option Text
  pub verification : Option Verification
  pub policy_digest : Option Text
  pub policy_version : Option ℕ
  pub internal : Bool

unfoldable pub is_internal_write : Option BrainWriteContext → Bool
is_internal_write none = false
is_internal_write (some context) = context.internal

-- The codes of `WritePolicyError`.
pub data Code : Type 0 where
  general_intake_retired brain_scope_required receipt_tool_required : Code
  history_rewrite_requires_workflow transient_work_route source_evidence_required : Code
  source_domain_mismatch unsafe_evidence_reference receipt_requires_summary : Code
  operation_identity_conflict source_unavailable stale_write_context policy_unavailable : Code

-- What the operations throw. The sentence `next` of a policy error is left out.
pub data Error : Type 0 where
  policy_error : Code → Text → Error
  file_not_found file_deleted : Text → Error
  conflict_not_found conflict_not_open conflict_head_changed : Text → Error
  stale_reviewed_revision change_record_not_found invalid_url : Error
  -- a field of `undefined` is read
  type_error : Error
  unsafe_sync_path inconsistent_revision unknown_brain : Text → Error
  owner_roster_too_small store_unreadable unsupported_version : Error

pub data Result {ℓ} (A : Type ℓ) : Type ℓ where
  ok : A → Result A
  err : Error → Result A

infixl 5 ◌>>◌ ◌>>=◌
abbrev pub ◌>>=◌ {κ μ} : {S : Type κ} {T : Type μ} → Result S → (S → Result T) → Result T
err thrown >>= next = err thrown
ok value >>= next = next value

abbrev pub ◌>>◌ {ℓ} : {B : Type ℓ} → Result (Unit {0}) → Result B → Result B
m >> k = m >>= λ _. k

-- `if (refused) throw new WritePolicyError(code, brainId, …)`
abbrev pub refuse_if : Bool → Code → Text → Result (Unit {0})
refuse_if true code brain_id = err (policy_error code brain_id)
refuse_if false code brain_id = ok tt

pub ok_inj {ℓ} : {A : Type ℓ} {a b : A} → ok a ≡ ok b → a ≡ b
ok_inj h = cc

-- Inversion of a call that did not throw.
pub >>=-eq-ok {ℓ κ} :
    {A : Type ℓ} {B : Type κ} (m : Result A) (k : A → Result B) (b : B)
    → (m >>= k) ≡ ok b
    → (a : A) × (m ≡ ok a) × (k a ≡ ok b)
>>=-eq-ok (ok a) k b h = (a, refl, h)
>>=-eq-ok (err e) k b h = cc

pub >>-eq-ok {ℓ} :
    {B : Type ℓ} (m : Result (Unit {0})) (k : Result B) (b : B)
    → (m >> k) ≡ ok b
    → (m ≡ ok tt) × (k ≡ ok b)
>>-eq-ok (ok a) k b h = (refl, h)
>>-eq-ok (err e) k b h = cc

-- What `new URL(reference)` gives, as far as the program reads it.
pub record UrlParts : Type 0 where
  pub is_https : Bool
  pub has_username : Bool
  pub has_password : Bool
  pub has_search : Bool
  pub has_hash : Bool

-- What `operationHash` of src/services/write-admission.ts hashes: a request without what the server adds.
pub record EvidenceKey : Type 0 where
  pub brain_id : Text
  pub reference : Text
  pub observed_at : Text
  pub method : Method
  pub revision : Option Text
  pub sha256 : Option Text
  pub excerpt : Text

pub record ContextKey : Type 0 where
  pub operation_id : Text
  pub kind : Kind
  pub reason : Text
  pub maintenance : Option Maintenance
  pub evidence : List EvidenceKey

pub record OperationKey : Type 0 where
  pub brain : Text
  pub filename : Text
  pub base : Option Text
  pub content : Text
  pub actor : Option Actor
  pub context : Option ContextKey

-- The functions of the JavaScript runtime and of node:crypto that the program calls and whose
-- results depend on tables or algorithms outside this repository.
pub record Runtime : Type 0 where
  -- `createHash("sha256").update(text).digest("hex")`
  pub sha256 : Text → Text
  -- `s.normalize("NFKC")` and `s.toLowerCase()`
  pub nfkc : Text → Text
  pub to_lower_case : Text → Text
  -- `Number.isFinite(Date.parse(s))`
  pub is_date : Text → Bool
  -- `new URL(s)`, `none` where it throws
  pub url : Text → Option UrlParts
  -- `encodeURIComponent(s)`
  pub encode_uri_component : Text → Text
  -- `a.localeCompare(b) <= 0`
  pub locale_le : Text → Text → Bool
  -- `JSON.stringify`
  pub stringify_operation : OperationKey → Text
  pub stringify_policy : BrainWritePolicy → Text
