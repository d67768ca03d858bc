-- ===== src/Registry/Shape.antt =====
-- assertRegistryShape of src/services/registry.ts.
use brain_mcp_server.Prelude.{
  Bool, true, false, not, ◌&&◌, ◌||◌, Option, none, some, List, [], ◌∷◌, Text, codes, nat_eq,
  text_eq, ◌==◌, if◌then◌else◌, all, contains, starts_with, split, keep, map, is_empty, or_text,
  or_empty, join,
}
use brain_mcp_server.Registry.{
  JsValue, BrainLintConfig, BrainDefinition, RegistryPrincipal, BrainRegistry, Host, RegistryError,
  invalid_brain_id, duplicate_brain_id, unsupported_backend, unsafe_source_categories,
  duplicate_source_categories, invalid_write_policy, unsupported_lint_mode,
  unsupported_parent_scope, insecure_mapping, unknown_default, incomplete_entra_principal,
  malformed_entra_principal, github_principal_refused, duplicate_principal, role_of_unknown_brain,
  unsupported_role, wrong_version, demand, or_error, is_valid_brain_id, is_source_category, is_guid,
  is_brain_role, is_lint_mode, normalise, ids_of,
}
use brain_mcp_server.Prelude.Maps.{Map}
use brain_mcp_server.Policy.{Runtime}
use brain_mcp_server.Policy.Patterns.{trim}
use brain_mcp_server.Policy.Values.{PolicyValue, is_valid_policy}
use brain_mcp_server.Graph.{UrlMapping}

-- Brains.
unfoldable pub are_categories : Option (List Text) → Bool
are_categories none = true
are_categories (some categories) = not (is_empty categories) && all is_source_category categories

unfoldable pub has_duplicates : List Text → Bool
has_duplicates [] = false
has_duplicates (x ∷ xs) = contains x xs || has_duplicates xs

abbrev are_distinct : Option (List Text) → Bool
are_distinct none = true
are_distinct (some categories) = not (has_duplicates categories)

abbrev is_accepted_policy : Runtime → Option PolicyValue → Bool
is_accepted_policy rt none = true
is_accepted_policy rt (some policy) = is_valid_policy rt policy

abbrev is_accepted_mode : Option JsValue → Bool
is_accepted_mode none = true
is_accepted_mode (some mode) = is_lint_mode mode

abbrev is_accepted_scope : Option Text → Bool
is_accepted_scope none = true
is_accepted_scope (some scope) = scope == codes "disabled" || scope == codes "within_brain"

abbrev is_secure : UrlMapping → Bool
is_secure mapping = starts_with mapping.url_prefix (codes "https://")

abbrev are_secure : Option (List UrlMapping) → Bool
are_secure none = true
are_secure (some mappings) = all is_secure mappings

unfoldable pub lint_error : Text → Option BrainLintConfig → Option RegistryError
unfolding is_lint_mode starts_with
lint_error id none = none
lint_error id (some lint) =
    demand (is_accepted_mode lint.reachability_mode) (unsupported_lint_mode id) (
      demand (is_accepted_scope lint.relative_parent_scope) (unsupported_parent_scope id)
        (demand (are_secure lint.sharepoint_url_mappings) (insecure_mapping id) none))

abbrev pub is_backend : Text → Bool
is_backend backend = backend == codes "filesystem" || backend == codes "postgres"

unfoldable pub brain_error : Runtime → List Text → BrainDefinition → Option RegistryError
unfolding is_valid_brain_id are_categories has_duplicates lint_error
brain_error rt seen brain = demand (is_valid_brain_id brain.id) (invalid_brain_id brain.id) (
    demand (not (contains brain.id seen)) (duplicate_brain_id brain.id) (
      demand (is_backend brain.storage_backend) (unsupported_backend brain.id) (
        demand (are_categories brain.source_categories) (unsafe_source_categories brain.id) (
          demand (are_distinct brain.source_categories) (duplicate_source_categories brain.id) (
            demand (is_accepted_policy rt brain.write_policy) invalid_write_policy
              (lint_error brain.id brain.lint))))))

-- `seen` has the ids of the Brains before.
unfoldable pub brains_error : Runtime → List Text → List BrainDefinition → Option RegistryError
unfolding brain_error
brains_error rt seen [] = none
brains_error rt seen (brain ∷ brains) =
    or_error (brain_error rt seen brain) (brains_error rt (brain.id ∷ seen) brains)

unfoldable pub default_error : List Text → Option Text → Option RegistryError
unfolding is_valid_brain_id
default_error ids none = none
default_error ids (some id) =
    if is_empty id
    then none
    else demand (is_valid_brain_id id) (invalid_brain_id id)
        (demand (contains id ids) (unknown_default id) none)

-- Principals.
abbrev pub listed : Runtime → Text → List Text
listed rt s =
    keep (λ value. not (is_empty value))
      (map (λ value. rt.to_lower_case (trim value)) (split b',' s))

unfoldable pub is_entra_only : Host → Bool
unfolding trim split
is_entra_only host =
    all (λ value. value == codes "entra")
      (listed host.runtime
        (or_text (or_empty host.environment.identity_providers) (codes "github")))

-- The identity of a principal that has a user id.
abbrev pub principal_key : Runtime → RegistryPrincipal → Text
principal_key rt principal = join b':' (
    principal.provider
    ∷ or_empty (normalise rt principal.provider_tenant_id)
    ∷ or_empty principal.provider_user_id
    ∷ [])

unfoldable pub roles_error : List Text → Map Text JsValue → Option RegistryError
unfolding is_brain_role
roles_error ids [] = none
roles_error ids ((id, role) ∷ roles) =
    demand (contains id ids) (role_of_unknown_brain id)
      (demand (is_brain_role role) (unsupported_role id) (roles_error ids roles))

abbrev pub is_entra : RegistryPrincipal → Bool
is_entra principal = principal.provider == codes "entra"

abbrev pub has_user : RegistryPrincipal → Bool
has_user principal = not (is_empty (or_empty principal.provider_user_id))

unfoldable pub principal_error :
    Host → (ids seen : List Text) → RegistryPrincipal → Option RegistryError
unfolding is_guid roles_error is_entra_only normalise join
principal_error host ids seen principal =
    demand
      (not (is_entra principal)
        || not (is_empty (or_empty principal.provider_tenant_id)) && has_user principal)
      incomplete_entra_principal
      (demand
        (not (is_entra principal)
          || is_guid (or_empty principal.provider_tenant_id)
            && is_guid (or_empty principal.provider_user_id))
        malformed_entra_principal
        (demand (not (is_entra_only host && principal.provider == codes "github"))
          github_principal_refused
          (demand (not (has_user principal && contains (principal_key host.runtime principal) seen))
            (duplicate_principal (principal_key host.runtime principal))
            (roles_error ids principal.roles))))

abbrev pub with_key : Runtime → RegistryPrincipal → List Text → List Text
with_key rt principal seen = if has_user principal then principal_key rt principal ∷ seen else seen

unfoldable pub principals_error :
    Host → (ids seen : List Text) → List RegistryPrincipal → Option RegistryError
unfolding principal_error normalise join
principals_error host ids seen [] = none
principals_error host ids seen (principal ∷ principals) =
    or_error (principal_error host ids seen principal)
      (principals_error host ids (with_key host.runtime principal seen) principals)

-- What `assertRegistryShape` throws, if anything.
unfoldable pub shape_error : Host → BrainRegistry → Option RegistryError
unfolding brains_error default_error principals_error
shape_error host registry = demand (registry.version == 1) wrong_version (
    or_error (brains_error host.runtime [] registry.brains) (
      or_error (default_error (ids_of registry.brains) registry.default_brain_id)
        (principals_error host (ids_of registry.brains) [] registry.principals)))
