-- ===== src/Registry.antt =====
-- src/services/registry.ts: the registry of Brains and principals, and what the module takes from its
-- process. A parsed registry has the declared fields with the declared types, apart from the texts, policies and
-- values that the code checks itself.
pub mod Shape
pub mod Loading
pub mod Access
pub mod Paths
pub mod Sound
pub mod Roles
pub mod Granted
pub mod Entries
pub mod Resolved
mod Tests
use brain_mcp_server.Prelude.{
  ℕ, zero, suc, Bool, true, false, not, ◌&&◌, ◌||◌, Option, none, some, List, [], ◌∷◌, Text, codes,
  nat_eq, text_eq, ◌==◌, if◌then◌else◌, all, contains, length, leb,
}
use brain_mcp_server.Prelude.Maps.{Map, get}
use brain_mcp_server.Policy.{Runtime}
use brain_mcp_server.Policy.Values.{PolicyValue}
use brain_mcp_server.Policy.Patterns.{trim, fold_text, is_lower, is_digit}
use brain_mcp_server.Graph.{UrlMapping}

-- A value of a parsed object, or one that an object inherits: a string or something else.
pub data JsValue : Type 0 where
  string : Text → JsValue
  other : JsValue

pub record BrainLintConfig : Type 0 where
  pub reachability_mode : Option JsValue
  pub graph_roots : Option (List Text)
  pub relative_parent_scope : Option Text
  pub sharepoint_url_mappings : Option (List UrlMapping)
  pub exempt_globs : Option (List Text)

pub record BrainStorageConfig : Type 0 where
  pub repo_path : Option Text
  pub brain_dir : Option Text
  pub sources_dir : Option Text
  pub inbox_dir : Option Text
  pub remote : Option Text
  pub github_repo : Option Text

-- Less `created_at` and `metadata`, which the module does not read.
pub record BrainDefinition : Type 0 where
  pub id : Text
  pub brain_type : Text
  pub template_used : Text
  pub integration_mode : Text
  pub storage_backend : Text
  pub storage_config : BrainStorageConfig
  pub vector_backend : Option Text
  pub vector_scope : Option (List Text)
  pub source_categories : Option (List Text)
  pub lint : Option BrainLintConfig
  pub write_policy : Option PolicyValue

pub record RegistryPrincipal : Type 0 where
  pub provider : Text
  pub provider_tenant_id : Option Text
  pub provider_user_id : Option Text
  pub login : Option Text
  pub email : Option Text
  pub name : Option Text
  pub roles : Map Text JsValue

-- Absent principals are an empty list.
pub record BrainRegistry : Type 0 where
  pub version : ℕ
  pub default_brain_id : Option Text
  pub brains : List BrainDefinition
  pub principals : List RegistryPrincipal

-- The variables of the environment.
pub record Environment : Type 0 where
  pub brain_id : Option Text
  pub transport : Option Text
  pub identity_providers : Option Text
  pub lint_mode_overrides : Option Text
  pub github_allowed_logins : Option Text
  pub github_allowed_emails : Option Text
  pub user : Option Text

-- The registry's file once it is read and parsed: absent, not readable, or a registry.
pub data RegistryFile : Type 0 where
  absent unreadable : RegistryFile
  parsed : BrainRegistry → RegistryFile

-- What `JSON.parse` gives for the overrides.
pub data Overrides : Type 0 where
  malformed not_an_object : Overrides
  overrides_of : Map Text JsValue → Overrides

-- The process: its variables, constants and files, and the functions of the runtime.
pub record Host : Type 0 where
  pub runtime : Runtime
  pub environment : Environment
  pub registry_file : RegistryFile
  pub parse_overrides : Text → Overrides
  -- `path.resolve(s, "..", t)`
  pub resolve_beside : Text → Text → Text
  -- `existsSync(path.join(BRAIN_DIR, ".git"))`
  pub has_git : Bool
  pub brain_dir : Text
  pub sources_root : Text
  pub github_repo : Text

-- What the module throws.
pub data RegistryError : Type 0 where
  unreadable_registry wrong_version : RegistryError
  invalid_brain_id duplicate_brain_id unsupported_backend : Text → RegistryError
  unsafe_source_categories duplicate_source_categories : Text → RegistryError
  invalid_write_policy : RegistryError
  unsupported_lint_mode unsupported_parent_scope insecure_mapping : Text → RegistryError
  unknown_default : Text → RegistryError
  incomplete_entra_principal malformed_entra_principal github_principal_refused : RegistryError
  duplicate_principal : Text → RegistryError
  role_of_unknown_brain unsupported_role : Text → RegistryError
  malformed_overrides : RegistryError
  override_of_unknown_brain unsupported_override : Text → RegistryError
  brain_id_unset : RegistryError
  not_accessible : Text → RegistryError
  brain_id_required : RegistryError
  not_on_filesystem missing_brain_dir : Text → RegistryError

pub data RegistryResult {ℓ} (A : Type ℓ) : Type ℓ where
  returned : A → RegistryResult A
  thrown : RegistryError → RegistryResult A

-- `if (!holds) throw error`, and what comes next.
unfoldable pub demand : Bool → RegistryError → Option RegistryError → Option RegistryError
demand true error next = next
demand false error next = some error

unfoldable pub or_error : Option RegistryError → Option RegistryError → Option RegistryError
or_error none next = next
or_error (some error) next = some error

-- `/^[a-z][a-z0-9-]{1,62}$/`
abbrev in_brain_id : ℕ → Bool
in_brain_id c = is_lower c || is_digit c || c == b'-'

unfoldable pub is_valid_brain_id : Text → Bool
is_valid_brain_id [] = false
is_valid_brain_id (c ∷ s) = is_lower c && all in_brain_id s && leb 1 (length s) && leb (length s) 62

-- `/^[a-z0-9][a-z0-9_-]*$/`
abbrev in_category : ℕ → Bool
in_category c = is_lower c || is_digit c || c == b'_' || c == b'-'

unfoldable pub is_source_category : Text → Bool
is_source_category [] = false
is_source_category (c ∷ s) = (is_lower c || is_digit c) && all in_category s

-- A text of as many units as there are classes, each unit of its class.
abbrev matches_classes : List (ℕ → Bool) → Text → Bool
matches_classes [] [] = true
matches_classes (p ∷ ps) (c ∷ s) = p c && matches_classes ps s
matches_classes _ _ = false

abbrev class_times : ℕ → (ℕ → Bool) → List (ℕ → Bool) → List (ℕ → Bool)
class_times zero p ps = ps
class_times (suc n) p ps = p ∷ class_times n p ps

abbrev is_hex : ℕ → Bool
is_hex c = is_digit c || leb b'a' c && leb c b'f'

abbrev is_dash : ℕ → Bool
is_dash c = c == b'-'

abbrev is_version : ℕ → Bool
is_version c = leb b'1' c && leb c b'5'

abbrev is_variant : ℕ → Bool
is_variant c = contains c (codes "89ab")

-- `GUID_RE`, with the flag `i`.
unfoldable pub is_guid : Text → Bool
is_guid s =
    matches_classes
      (class_times 8 is_hex (
        is_dash
        ∷ class_times 4 is_hex (
            is_dash
            ∷ is_version
            ∷ class_times 3 is_hex (
                is_dash ∷ is_variant ∷ class_times 3 is_hex (is_dash ∷ class_times 12 is_hex [])))))
      (fold_text s)

abbrev pub brain_roles : List Text
brain_roles = codes "owner" ∷ codes "admin" ∷ codes "member" ∷ codes "reader" ∷ []

unfoldable pub is_brain_role : JsValue → Bool
is_brain_role other = false
is_brain_role (string s) = contains s brain_roles

abbrev lint_modes : List Text
lint_modes = codes "legacy" ∷ codes "graph_shadow" ∷ codes "graph" ∷ []

unfoldable pub is_lint_mode : JsValue → Bool
is_lint_mode other = false
is_lint_mode (string s) = contains s lint_modes

-- `object[id]` for a valid id: the one such name that every object inherits is "constructor".
abbrev pub own_or_inherited : Text → Option JsValue → Option JsValue
own_or_inherited id (some value) = some value
own_or_inherited id none = if id == codes "constructor" then some other else none

unfoldable pub property_of : Map Text JsValue → Text → Option JsValue
unfolding get
property_of object id = own_or_inherited id (get id object)

-- `normalise(value)`; a blank text gives the empty text, which is falsy as well.
unfoldable pub normalise : Runtime → Option Text → Option Text
unfolding trim
normalise rt none = none
normalise rt (some []) = none
normalise rt (some (c ∷ s)) = some (rt.to_lower_case (trim (c ∷ s)))

abbrev pub ids_of : List BrainDefinition → List Text
ids_of [] = []
ids_of (brain ∷ brains) = brain.id ∷ ids_of brains
