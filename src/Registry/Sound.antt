-- ===== src/Registry/Sound.antt =====
-- What loadRegistry of src/services/registry.ts returns.
use brain_mcp_server.Prelude.{
  ◌⊎◌, text_eq, ◌≡◌, refl, inl, inr, Bool, true, false, not, ◌&&◌, Option, none, some, List, [],
  ◌∷◌, Text, arith, contains, is_empty, All, Option-cases, subst,
}
use brain_mcp_server.Prelude.Maps.{Map}
use brain_mcp_server.Policy.{Runtime}
use brain_mcp_server.Registry.{
  JsValue, BrainDefinition, RegistryPrincipal, BrainRegistry, Host, RegistryError, RegistryResult,
  returned, thrown, demand, or_error, is_valid_brain_id, is_brain_role, ids_of,
}
use brain_mcp_server.Registry.Shape.{
  brain_error, brains_error, default_error, roles_error, principal_error, principals_error,
  principal_key, has_user, with_key, shape_error,
}
use brain_mcp_server.Registry.Loading.{asserted, load_registry}

-- No id is among the earlier ones.
abbrev pub AreFresh : List Text → List Text → Type 0
AreFresh seen [] = Unit
AreFresh seen (id ∷ ids) = (contains id seen ≡ false) × AreFresh (id ∷ seen) ids

abbrev pub IsValidId : Text → Type 0
IsValidId id = is_valid_brain_id id ≡ true

-- A role is one of the four, and for a Brain of the registry.
abbrev pub IsRoleOf : List Text → Text × JsValue → Type 0
IsRoleOf ids entry = (contains entry.0 ids ≡ true) × (is_brain_role entry.1 ≡ true)

abbrev pub HasRolesOf : List Text → RegistryPrincipal → Type 0
HasRolesOf ids principal = All (IsRoleOf ids) principal.roles

-- No principal has the identity of an earlier one.
abbrev pub AreSeparate : Runtime → List Text → List RegistryPrincipal → Type 0
AreSeparate rt seen [] = Unit
AreSeparate rt seen (principal ∷ principals) =
    ((has_user principal ≡ false) ⊎ (contains (principal_key rt principal) seen ≡ false))
    × AreSeparate rt (with_key rt principal seen) principals

abbrev pub HasDefault : List Text → Option Text → Type 0
HasDefault ids none = Unit
HasDefault ids (some id) = (is_empty id ≡ true) ⊎ (contains id ids ≡ true)

pub record IsSound (host : Host) (registry : BrainRegistry) : Type 0 where
  pub fresh : AreFresh [] (ids_of registry.brains)
  pub valid : All IsValidId (ids_of registry.brains)
  pub default : HasDefault (ids_of registry.brains) registry.default_brain_id
  pub roles : All (HasRolesOf (ids_of registry.brains)) registry.principals
  pub separate : AreSeparate host.runtime [] registry.principals

demand-none :
    (holds : Bool) (error : RegistryError) (next : Option RegistryError)
    → demand holds error next ≡ none
    → (holds ≡ true) × (next ≡ none)
unfolding demand
demand-none true error next h = (refl, h)
demand-none false error next h = cc

demand-not-none :
    (b : Bool) (error : RegistryError) (next : Option RegistryError)
    → demand (not b) error next ≡ none
    → (b ≡ false) × (next ≡ none)
unfolding demand
demand-not-none true error next h = cc
demand-not-none false error next h = (refl, h)

or_error-none :
    (o next : Option RegistryError) → or_error o next ≡ none → (o ≡ none) × (next ≡ none)
unfolding or_error
or_error-none none next h = (refl, h)
or_error-none (some error) next h = cc

and_false : (a b : Bool) → a && b ≡ false → (a ≡ false) ⊎ (b ≡ false)
and_false true b h = inr h
and_false false b h = inl refl

brain_error-none :
    (rt : Runtime) (seen : List Text) (brain : BrainDefinition)
    → brain_error rt seen brain ≡ none
    → IsValidId brain.id × (contains brain.id seen ≡ false)
unfolding brain_error
brain_error-none rt seen brain h =
    let a = demand-none _ _ _ h in let b = demand-none _ _ _ a.1 in (a.0, ground (arith, b.0))

brains_error-none :
    (rt : Runtime) (seen : List Text) (brains : List BrainDefinition)
    → brains_error rt seen brains ≡ none
    → AreFresh seen (ids_of brains) × All IsValidId (ids_of brains)
unfolding brains_error
brains_error-none rt seen [] h = (tt, tt)
brains_error-none rt seen (brain ∷ brains) h =
    let a = or_error-none _ _ h in
    let b = brain_error-none rt seen brain a.0 in
    let c = brains_error-none rt (brain.id ∷ seen) brains a.1 in ((b.1, c.0), (b.0, c.1))

default_error-none :
    (ids : List Text) (o : Option Text) → default_error ids o ≡ none → HasDefault ids o
unfolding default_error
default_error-none ids none h = tt
default_error-none ids (some []) h = inl refl
default_error-none ids (some (c ∷ s)) h =
    let a = demand-none _ _ _ h in let b = demand-none _ _ _ a.1 in inr b.0

roles_error-none :
    (ids : List Text) (roles : Map Text JsValue)
    → roles_error ids roles ≡ none
    → All (IsRoleOf ids) roles
unfolding roles_error
roles_error-none ids [] h = tt
roles_error-none ids ((id, role) ∷ roles) h =
    let a = demand-none _ _ _ h in
    let b = demand-none _ _ _ a.1 in ((a.0, b.0), roles_error-none ids roles b.1)

principal_error-none :
    (host : Host) (ids seen : List Text) (principal : RegistryPrincipal)
    → principal_error host ids seen principal ≡ none
    → HasRolesOf ids principal
      × ((has_user principal ≡ false)
          ⊎ (contains (principal_key host.runtime principal) seen ≡ false))
unfolding principal_error
principal_error-none host ids seen principal h =
    let a = demand-none _ _ _ h in
    let b = demand-none _ _ _ a.1 in
    let c = demand-none _ _ _ b.1 in
    let d = demand-not-none _ _ _ c.1 in
    (roles_error-none ids principal.roles d.1, and_false _ _ d.0)

principals_error-none :
    (host : Host) (ids seen : List Text) (principals : List RegistryPrincipal)
    → principals_error host ids seen principals ≡ none
    → All (HasRolesOf ids) principals × AreSeparate host.runtime seen principals
unfolding principals_error
principals_error-none host ids seen [] h = (tt, tt)
principals_error-none host ids seen (principal ∷ principals) h =
    let a = or_error-none _ _ h in
    let b = principal_error-none host ids seen principal a.0 in
    let c = principals_error-none host ids (with_key host.runtime principal seen) principals a.1 in
    ((b.0, c.0), (b.1, c.1))

shape_error-none :
    (host : Host) (registry : BrainRegistry)
    → shape_error host registry ≡ none
    → IsSound host registry
unfolding shape_error
shape_error-none host registry h =
    let a = demand-none _ _ _ h in
    let b = or_error-none _ _ a.1 in
    let c = or_error-none _ _ b.1 in
    let ids = ids_of registry.brains in
    let brains = brains_error-none host.runtime [] registry.brains b.0 in
    let principals = principals_error-none host ids [] registry.principals c.1 in
    record {
      fresh = brains.0;
      valid = brains.1;
      default = default_error-none ids registry.default_brain_id c.0;
      roles = principals.0;
      separate = principals.1;
    }

asserted-IsSound :
    (host : Host) (r : RegistryResult BrainRegistry) (registry : BrainRegistry)
    → asserted host r ≡ returned registry
    → IsSound host registry
asserted-IsSound host (thrown error) registry h = cc
asserted-IsSound host (returned found) registry h = elim (Option-cases (shape_error host found)) [
  | inl e ↦
      subst (λ (x : BrainRegistry). IsSound host x) (returned_inj (rw e at h))
        (shape_error-none host found e)
  | inr (error, e) ↦ cc
]
  where
    returned_inj : {a b : BrainRegistry} → returned a ≡ returned b → a ≡ b
    returned_inj q = cc

pub load_registry-IsSound :
    (host : Host) (registry : BrainRegistry)
    → load_registry host ≡ returned registry
    → IsSound host registry
unfolding load_registry
load_registry-IsSound host registry h = asserted-IsSound host _ registry h
