-- ===== src/Registry/Access.antt =====
-- Access to the Brains of a registry: accessibleRoles, listAccessibleBrains, resolveBrain and
-- pathsForBrain of src/services/registry.ts.
use brain_mcp_server.Prelude.{
  Bool, true, false, not, ◌&&◌, ◌||◌, Option, none, some, List, [], ◌∷◌, Text, codes, text_eq,
  option_eq, ◌==◌, if◌then◌else◌, find, contains, split, is_empty, or_empty, or_text,
}
use brain_mcp_server.Prelude.Maps.{Map, get}
use brain_mcp_server.Policy.{Runtime}
use brain_mcp_server.Policy.Patterns.{trim}
use brain_mcp_server.Access.{BrainPrincipal}
use brain_mcp_server.Registry.{
  JsValue, string, other, BrainDefinition, RegistryPrincipal, BrainRegistry, Host, RegistryResult,
  returned, thrown, unsupported_role, invalid_brain_id, not_accessible, brain_id_required,
  is_valid_brain_id, is_brain_role, property_of, normalise,
}
use brain_mcp_server.Registry.Shape.{listed}
use brain_mcp_server.Registry.Loading.{load_registry}

-- `a && a === b`, for texts that may be absent.
abbrev is_given_same : Option Text → Option Text → Bool
is_given_same a b = not (is_empty (or_empty a)) && a == b

unfoldable pub principal_matches : Runtime → RegistryPrincipal → BrainPrincipal → Bool
unfolding normalise
principal_matches rt candidate principal =
    if not (candidate.provider == principal.provider)
    then false
    else if not (is_empty (or_empty candidate.provider_user_id))
    then (if is_empty principal.provider_user_id
          || not (candidate.provider_user_id == some principal.provider_user_id)
        then false
        else if not (is_empty (or_empty candidate.provider_tenant_id))
        then normalise rt candidate.provider_tenant_id == normalise rt principal.provider_tenant_id
        else true)
    else is_given_same (normalise rt candidate.login) (normalise rt principal.login)
      || is_given_same (normalise rt candidate.email) (normalise rt principal.email)

unfoldable pub stdio_principal : Host → BrainPrincipal
stdio_principal host =
    let user = or_text (or_empty host.environment.user) (codes "local") in
    record {
      provider = codes "stdio";
      provider_tenant_id = none;
      provider_user_id = user;
      login = some user;
      email = none;
      name = some user;
    }

abbrev string_of : Option JsValue → Option Text
string_of (some (string s)) = some s
string_of _ = none

abbrev or_else_text : Option Text → Text → Text
or_else_text none s = s
or_else_text (some t) s = t

abbrev or_else_option : Option Text → Option Text → Option Text
or_else_option none o = o
or_else_option (some t) o = some t

unfoldable pub principal_from_auth_info : Host → Map Text JsValue → BrainPrincipal
unfolding get
principal_from_auth_info host extra = record {
  provider = or_else_text (string_of (get (codes "provider") extra)) (codes "stdio");
  provider_tenant_id = string_of (get (codes "provider_tenant_id") extra);
  provider_user_id = or_else_text (string_of (get (codes "provider_user_id") extra)) (
      or_else_text (string_of (get (codes "sub") extra))
        (or_text (or_empty host.environment.user) (codes "local")));
  login =
      or_else_option (string_of (get (codes "github_login") extra))
        (string_of (get (codes "login") extra));
  email = string_of (get (codes "email") extra);
  name = string_of (get (codes "name") extra);
}

abbrev pub is_operator : BrainPrincipal → Bool
is_operator principal = principal.provider == codes "stdio" || principal.provider == codes "system"

abbrev pub owned : List BrainDefinition → Map Text JsValue
owned [] = []
owned (brain ∷ brains) = (brain.id, string (codes "owner")) ∷ owned brains

abbrev pub roles_checked : Map Text JsValue → Map Text JsValue → RegistryResult (Map Text JsValue)
roles_checked roles [] = returned roles
roles_checked roles ((id, role) ∷ rest) =
    if is_brain_role role then roles_checked roles rest else thrown (unsupported_role id)

-- `envList(name).has(value)` for a value that is there.
unfoldable pub is_listed : Runtime → Option Text → Option Text → Bool
unfolding normalise trim split
is_listed rt names value =
    not (is_empty (or_empty (normalise rt value)))
    && contains (or_empty (normalise rt value)) (listed rt (or_empty names))

abbrev pub is_allowed : Host → BrainRegistry → BrainPrincipal → Bool
is_allowed host registry principal =
    principal.provider == codes "github"
    && not (is_empty (or_empty registry.default_brain_id))
    && (is_listed host.runtime host.environment.github_allowed_logins principal.login
        || is_listed host.runtime host.environment.github_allowed_emails principal.email)

-- The roles of the first principal of the registry that matches.
abbrev pub recorded_roles :
    Host
    → BrainRegistry
    → BrainPrincipal
    → Option RegistryPrincipal
    → RegistryResult (Map Text JsValue)
recorded_roles host registry principal (some found) = roles_checked found.roles found.roles
recorded_roles host registry principal none =
    if is_allowed host registry principal
    then returned ((or_empty registry.default_brain_id, string (codes "owner")) ∷ [])
    else returned []

abbrev pub first_matching : Host → BrainRegistry → BrainPrincipal → Option RegistryPrincipal
first_matching host registry principal =
    find (λ candidate. principal_matches host.runtime candidate principal) registry.principals

unfoldable pub accessible_roles :
    Host → BrainRegistry → BrainPrincipal → RegistryResult (Map Text JsValue)
unfolding principal_matches is_brain_role is_listed
accessible_roles host registry principal =
    if is_operator principal
    then returned (owned registry.brains)
    else recorded_roles host registry principal (first_matching host registry principal)

-- `{ brain, role }`
pub record AccessibleBrain : Type 0 where
  pub brain : BrainDefinition
  pub role : JsValue

-- Whether a value is truthy; a value that is not a string is a function here.
abbrev pub is_truthy_value : JsValue → Bool
is_truthy_value (string s) = not (is_empty s)
is_truthy_value other = true

abbrev pub entry_of : BrainDefinition → Option JsValue → List AccessibleBrain → List AccessibleBrain
entry_of brain none rest = rest
entry_of brain (some role) rest =
    if is_truthy_value role then record { brain = brain; role = role } ∷ rest else rest

unfoldable pub brains_with_role : Map Text JsValue → List BrainDefinition → List AccessibleBrain
unfolding property_of
brains_with_role roles [] = []
brains_with_role roles (brain ∷ brains) =
    entry_of brain (property_of roles brain.id) (brains_with_role roles brains)

abbrev pub brains_of :
    BrainRegistry → RegistryResult (Map Text JsValue) → RegistryResult (List AccessibleBrain)
brains_of registry (thrown error) = thrown error
brains_of registry (returned roles) = returned (brains_with_role roles registry.brains)

unfoldable pub list_accessible_brains :
    Host → BrainRegistry → BrainPrincipal → RegistryResult (List AccessibleBrain)
unfolding accessible_roles brains_with_role
list_accessible_brains host registry principal =
    brains_of registry (accessible_roles host registry principal)

-- `{ registry, brain, role }`
pub record ResolvedBrain : Type 0 where
  pub registry : BrainRegistry
  pub brain : BrainDefinition
  pub role : JsValue

abbrev pub find_brain : Text → List AccessibleBrain → Option AccessibleBrain
find_brain id = find (λ entry. entry.brain.id == id)

abbrev pub resolved_or :
    BrainRegistry
    → RegistryResult ResolvedBrain
    → Option AccessibleBrain
    → RegistryResult ResolvedBrain
resolved_or registry otherwise none = otherwise
resolved_or registry otherwise (some entry) =
    returned (record { registry = registry; brain = entry.brain; role = entry.role })

abbrev pub only_entry : List AccessibleBrain → Option AccessibleBrain
only_entry (entry ∷ []) = some entry
only_entry _ = none

-- The choice of a Brain without an id: the only one, or the default of an operator.
abbrev pub default_entry :
    BrainRegistry → BrainPrincipal → List AccessibleBrain → Option AccessibleBrain
default_entry registry principal entries =
    if is_operator principal && not (is_empty (or_empty registry.default_brain_id))
    then find_brain (or_empty registry.default_brain_id) entries
    else none

unfoldable pub choose_brain :
    BrainRegistry → Text → BrainPrincipal → List AccessibleBrain → RegistryResult ResolvedBrain
unfolding is_valid_brain_id
choose_brain registry id principal entries =
    if not (is_empty id)
    then (if is_valid_brain_id id
        then resolved_or registry (thrown (not_accessible id)) (find_brain id entries)
        else thrown (invalid_brain_id id))
    else resolved_or registry
        (resolved_or registry (thrown brain_id_required) (default_entry registry principal entries))
        (only_entry entries)

abbrev pub resolved_in :
    BrainRegistry
    → Text
    → BrainPrincipal
    → RegistryResult (List AccessibleBrain)
    → RegistryResult ResolvedBrain
resolved_in registry id principal (thrown error) = thrown error
resolved_in registry id principal (returned entries) = choose_brain registry id principal entries

abbrev pub resolved_from :
    Host → Text → BrainPrincipal → RegistryResult BrainRegistry → RegistryResult ResolvedBrain
resolved_from host id principal (thrown error) = thrown error
resolved_from host id principal (returned registry) =
    resolved_in registry id principal (list_accessible_brains host registry principal)

-- An absent id is the empty text.
unfoldable pub resolve_brain : Host → Text → BrainPrincipal → RegistryResult ResolvedBrain
unfolding load_registry list_accessible_brains choose_brain
resolve_brain host id principal = resolved_from host id principal (load_registry host)
