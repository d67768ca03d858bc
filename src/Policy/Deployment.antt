-- ===== src/Policy/Deployment.antt =====
-- src/services/write-policy-runtime.ts (`writePolicyForBrain`): which policy governs a Brain.
use brain_mcp_server.Prelude.{
  Bool, true, false, not, ◌&&◌, ◌||◌, Option, none, some, List, [], ◌∷◌, map, Text, text_eq, split,
  contains, ◌==◌, nat_eq, if◌then◌else◌, any, option_eq,
}
use brain_mcp_server.Policy.{
  Runtime, BrainWritePolicy, Result, ok, err, type_error, policy_error, policy_unavailable,
  refuse_if, ◌>>◌, ◌>>=◌,
}
use brain_mcp_server.Policy.Patterns.{trim}
use brain_mcp_server.Policy.Values.{PolicyValue, JsonValue, is_one, is_valid_policy, typed_policy}

-- An element of the array `brains`: null, whose fields cannot be read, or a value with its id, if that is a
-- text, and its policy.
pub data PolicyEntry : Type 0 where
  null_entry : PolicyEntry
  entry : (id : Option Text) (policy : Option PolicyValue) → PolicyEntry

-- The file that BRAIN_WRITE_POLICY_CONFIG names: unreadable, the value null, or any other value with its
-- version, where `brains` is an array or is not.
pub data PolicyFile : Type 0 where
  unreadable null_file : PolicyFile
  without_brains : (version : JsonValue) → PolicyFile
  config : (version : JsonValue) → List PolicyEntry → PolicyFile

-- The registry's Brains with their policies, and the two environment variables.
pub record Deployment : Type 0 where
  pub registry : List (Text × Option PolicyValue)
  pub policy_file : Option PolicyFile
  pub required : Text

-- `brains.find(b => b.id === brainId)?.write_policy`
abbrev policy_in : Text → List (Text × Option PolicyValue) → Option PolicyValue
policy_in brain_id [] = none
policy_in brain_id ((id, policy) ∷ brains) =
    if id == brain_id then policy else policy_in brain_id brains

abbrev is_null : PolicyEntry → Bool
is_null null_entry = true
is_null (entry id policy) = false

-- The policies of the entries with this id.
abbrev policies_of : Text → List PolicyEntry → List (Option PolicyValue)
policies_of brain_id [] = []
policies_of brain_id (null_entry ∷ brains) = policies_of brain_id brains
policies_of brain_id (entry id policy ∷ brains) =
    if id == some brain_id
    then policy ∷ policies_of brain_id brains
    else policies_of brain_id brains

-- Exactly one entry is needed.
abbrev only_policy : Text → List (Option PolicyValue) → Result (Option PolicyValue)
only_policy brain_id (policy ∷ []) = ok policy
only_policy brain_id _ = err (policy_error policy_unavailable brain_id)

-- The policy of a Brain in the deployment's file.
abbrev policy_in_file : Text → PolicyFile → Result (Option PolicyValue)
policy_in_file brain_id unreadable = err (policy_error policy_unavailable brain_id)
policy_in_file brain_id null_file = err type_error
policy_in_file brain_id (without_brains version) = err (policy_error policy_unavailable brain_id)
policy_in_file brain_id (config version brains) =
    if not (is_one version)
    then err (policy_error policy_unavailable brain_id)
    else if any is_null brains
    then err type_error
    else only_policy brain_id (policies_of brain_id brains)

-- The deployment's file replaces the registry's policy.
unfoldable pub configured_policy : Deployment → Text → Result (Option PolicyValue)
configured_policy d brain_id = elim d.policy_file [
  | none ↦ ok (policy_in brain_id d.registry)
  | some file ↦ policy_in_file brain_id file
]

abbrev is_given {ℓ} : {A : Type ℓ} → Option A → Bool
is_given none = false
is_given (some a) = true

-- `policyFile || required.includes(brainId)`
abbrev requires_policy : Deployment → Text → Bool
requires_policy d brain_id =
    is_given d.policy_file || contains brain_id (map trim (split 44 d.required))

abbrev valid_or_absent : Runtime → Option PolicyValue → Bool
valid_or_absent rt none = true
valid_or_absent rt (some policy) = is_valid_policy rt policy

unfoldable pub write_policy_for_brain :
    Runtime → Deployment → Text → Result (Option BrainWritePolicy)
write_policy_for_brain rt d brain_id = do
  policy ← configured_policy d brain_id
  refuse_if (not (valid_or_absent rt policy)) policy_unavailable brain_id
  refuse_if (requires_policy d brain_id && not (is_given policy)) policy_unavailable brain_id
  ok (typed_policy policy)
