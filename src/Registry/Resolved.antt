-- ===== src/Registry/Resolved.antt =====
-- What resolveBrain of src/services/registry.ts gives, on every branch.
use brain_mcp_server.Prelude.{
  ◌≡◌, ◌⊎◌, refl, sym, ap, subst, inl, inr, true, false, none, some, List, [], ◌∷◌, ◌∙◌, Text,
  codes, text_eq, text_beq_iff, contains, or_empty, All, All-find, Bool-cases, Option-cases, ◌==◌,
  find_sound,
}
use mathlib.Core.List.{Memᴰ}
use brain_mcp_server.Prelude.Maps.{Map}
use brain_mcp_server.Access.{BrainPrincipal}
use brain_mcp_server.Registry.{
  JsValue, string, BrainRegistry, Host, RegistryError, RegistryResult, returned, thrown,
  invalid_brain_id, not_accessible, brain_id_required, ids_of, is_valid_brain_id,
}
use brain_mcp_server.Registry.Loading.{load_registry}
use brain_mcp_server.Registry.Access.{
  is_operator, AccessibleBrain, brains_with_role, list_accessible_brains, ResolvedBrain, find_brain,
  only_entry, default_entry, choose_brain, resolve_brain, resolved_from,
}
use brain_mcp_server.Registry.Sound.{IsSound, load_registry-IsSound}
use brain_mcp_server.Registry.Entries.{
  IsEntry, brains_with_role-IsEntry, contains-Mem, find_brain-entry, only_entry-single,
  default-cases, known-default,
}
use brain_mcp_server.Registry.Roles.{IsGrant, operator}
use brain_mcp_server.Registry.Granted.{Grants, accessible_roles-Grants}

-- The registry has no such Brain, or the principal has no role for it.
abbrev pub IsClosed : Host → BrainRegistry → BrainPrincipal → Text → Type 0
IsClosed host registry principal id =
    (contains id (ids_of registry.brains) ≡ false)
    ⊎ ((role : JsValue) → ¬ IsGrant host registry principal id role)

-- Without an id, the Brain is the only accessible one, or the default of an operator.
abbrev pub IsDefault : Host → BrainPrincipal → ResolvedBrain → Type 0
IsDefault host principal r =
    (list_accessible_brains host r.registry principal
      ≡ returned (record { brain = r.brain; role = r.role } ∷ []))
    ⊎ ((is_operator principal ≡ true) × (r.registry.default_brain_id ≡ some r.brain.id))

abbrev pub IsRequested : Host → Text → BrainPrincipal → ResolvedBrain → Type 0
IsRequested host id principal r = (r.brain.id ≡ id) ⊎ ((id ≡ []) × IsDefault host principal r)

pub data IsResolution (host : Host) (id : Text) (principal : BrainPrincipal)
    : RegistryResult ResolvedBrain → Type 0 where
  not_loaded :
      (error : RegistryError)
      → load_registry host ≡ thrown error
      → IsResolution host id principal (thrown error)
  invalid :
      is_valid_brain_id id ≡ false → IsResolution host id principal (thrown (invalid_brain_id id))
  closed :
      (registry : BrainRegistry)
      → load_registry host ≡ returned registry
      → IsClosed host registry principal id
      → IsResolution host id principal (thrown (not_accessible id))
  undetermined :
      (registry : BrainRegistry)
      → load_registry host ≡ returned registry
      → id ≡ []
      → (entries : List AccessibleBrain)
      → list_accessible_brains host registry principal ≡ returned entries
      → only_entry entries ≡ none
      → (is_operator principal ≡ false) ⊎ (or_empty registry.default_brain_id ≡ [])
      → IsResolution host id principal (thrown brain_id_required)
  resolved :
      (r : ResolvedBrain)
      → load_registry host ≡ returned r.registry
      → IsSound host r.registry
      → Memᴰ r.brain r.registry.brains
      → IsGrant host r.registry principal r.brain.id r.role
      → IsRequested host id principal r
      → IsResolution host id principal (returned r)

-- The choice in a registry that is loaded, over the roles of the principal.
module _ (host : Host) (principal : BrainPrincipal) (registry : BrainRegistry)
    (load : load_registry host ≡ returned registry) (sound : IsSound host registry)
    (roles : Map Text JsValue)
    (accessible : list_accessible_brains host registry principal
      ≡ returned (brains_with_role roles registry.brains))
    (grants : (id : Text)
      → contains id (ids_of registry.brains) ≡ true
      → Grants host registry principal sound.roles id roles) where
  abbrev entries : List AccessibleBrain
  entries = brains_with_role roles registry.brains

  abbrev result : AccessibleBrain → ResolvedBrain
  result entry = record { registry = registry; brain = entry.brain; role = entry.role }

  entry-IsResolution :
      (id : Text) (entry : AccessibleBrain)
      → IsEntry roles registry.brains entry
      → IsRequested host id principal (result entry)
      → IsResolution host id principal (returned (result entry))
  entry-IsResolution id entry h requested =
      let known = contains-Mem entry.brain registry.brains h.1 in
      resolved (result entry) load sound h.1 ((grants entry.brain.id known).0 entry.role h.0)
        requested

  found-IsEntry :
      (id : Text) (entry : AccessibleBrain)
      → find_brain id entries ≡ some entry
      → IsEntry roles registry.brains entry × (entry.brain.id ≡ id)
  found-IsEntry id entry h = (
    All-find (IsEntry roles registry.brains) _ entries entry
        (brains_with_role-IsEntry roles registry.brains) h,
    (text_beq_iff entry.brain.id id).0 (find_sound (λ e. e.brain.id == id) entries entry h),
  )

  absent-IsClosed : (id : Text) → find_brain id entries ≡ none → IsClosed host registry principal id
  absent-IsClosed id h = elim (Bool-cases (contains id (ids_of registry.brains))) [
    | inr unknown ↦ inl unknown
    | inl known ↦ inr (λ role granted.
        let found =
          find_brain-entry roles id registry.brains known ((grants id known).1 role granted) in
        cc (found.1, h))
  ]

  chosen-IsResolution :
      (entry : AccessibleBrain)
      → default_entry registry principal entries ≡ some entry
      → IsResolution host [] principal (returned (result entry))
  chosen-IsResolution entry h = elim (Bool-cases (is_operator principal)) [
    | inr op ↦ let none_found = rw op at h in cc
    | inl op ↦ elim (default-cases registry.default_brain_id) [
      | inl e ↦ let none_found = rw (op, e) at h in cc
      | inr (c, s, e) ↦
          let found = found-IsEntry (c ∷ s) entry (rw (op, e) at h) in
          entry-IsResolution [] entry found.0
            (inr (refl, inr (op, e ∙ ap (λ (x : Text). some x) (sym found.1))))
    ]
  ]

  not_chosen-default :
      default_entry registry principal entries ≡ none
      → (is_operator principal ≡ false) ⊎ (or_empty registry.default_brain_id ≡ [])
  not_chosen-default h = elim (Bool-cases (is_operator principal)) [
    | inr op ↦ inl op
    | inl op ↦ elim (default-cases registry.default_brain_id) [
      | inl e ↦ inr e
      | inr (c, s, e) ↦
          let known =
            known-default (ids_of registry.brains) registry.default_brain_id c s sound.default e in
          let finds = (grants (c ∷ s) known).1 (string (codes "owner")) (operator op) in
          let found = find_brain-entry roles (c ∷ s) registry.brains known finds in
          let none_found = rw (op, e) at h in cc (found.1, none_found)
    ]
  ]

  choose_brain-IsResolution :
      (id : Text) → IsResolution host id principal (choose_brain registry id principal entries)
  unfolding choose_brain
  choose_brain-IsResolution (c ∷ s) = elim (Bool-cases (is_valid_brain_id (c ∷ s))) [
    | inr wrong ↦ rw wrong (invalid wrong)
    | inl right ↦ elim (Option-cases (find_brain (c ∷ s) entries)) [
      | inl none_found ↦
          rw (right, none_found) (closed registry load (absent-IsClosed (c ∷ s) none_found))
      | inr (entry, found) ↦
          let h = found-IsEntry (c ∷ s) entry found in
          rw (right, found) (entry-IsResolution (c ∷ s) entry h.0 (inl h.1))
    ]
  ]
  choose_brain-IsResolution [] = elim (Option-cases (only_entry entries)) [
    | inr (entry, only) ↦
        let single = only_entry-single entries entry only in
        let h =
          subst (λ (x : List AccessibleBrain). All (IsEntry roles registry.brains) x) single
            (brains_with_role-IsEntry roles registry.brains) in
        rw only (
          entry-IsResolution [] entry h.0
            (inr (refl, inl (accessible ∙ ap (λ x. returned x) single))))
    | inl several ↦ elim (Option-cases (default_entry registry principal entries)) [
      | inr (entry, chosen) ↦ rw (several, chosen) (chosen-IsResolution entry chosen)
      | inl not_chosen ↦
          rw (several, not_chosen)
            (undetermined registry load refl entries accessible several
              (not_chosen-default not_chosen))
    ]
  ]

loaded-IsResolution :
    (host : Host) (id : Text) (principal : BrainPrincipal) (registry : BrainRegistry)
    → load_registry host ≡ returned registry
    → IsResolution host id principal (resolved_from host id principal (returned registry))
unfolding list_accessible_brains
loaded-IsResolution host id principal registry load =
    let sound = load_registry-IsSound host registry load in
    let given = accessible_roles-Grants host registry principal sound.roles in
    rw given.1 (
      choose_brain-IsResolution host principal registry load sound given.0 (rw given.1 refl) given.2
        id)

-- resolveBrain fails if the registry cannot be loaded or the id is not valid. Otherwise the registry
-- is sound: ids are valid and unique, the default and every role name a Brain of it, roles are among
-- the four, and principals with a user id are separate. Then a Brain is resolved only if it is in the
-- registry, is the one of the id (or without an id the only accessible one or the default of an
-- operator), and the role is what the principal is granted: owner of all as an operator, what its
-- first matching record says, owner of the default if it is allowed by name, or, for the id
-- "constructor", an inherited property that is no role. A Brain is called not accessible only if it is
-- not in the registry or nothing is granted for it; and an id is called missing only where none is
-- given, and several Brains or none are accessible, and the principal is no operator or there is no
-- default.
pub resolve_brain-IsResolution :
    (host : Host) (id : Text) (principal : BrainPrincipal)
    → IsResolution host id principal (resolve_brain host id principal)
unfolding resolve_brain
resolve_brain-IsResolution host id principal = loaded (load_registry host) refl
  where
    loaded :
        (r : RegistryResult BrainRegistry)
        → load_registry host ≡ r
        → IsResolution host id principal (resolved_from host id principal r)
    loaded (thrown error) e = not_loaded error e
    loaded (returned registry) e = loaded-IsResolution host id principal registry e
