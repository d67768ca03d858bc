-- ===== src/Registry/Roles.antt =====
-- The objects of roles of src/services/registry.ts, and what is granted, told without them.
use brain_mcp_server.Prelude.{
  ◌≡◌, ◌⊎◌, refl, sym, inl, inr, true, false, Option, none, some, List, [], ◌∷◌, Text, codes, arith,
  text_eq, text_beq, text_beq_iff, contains, or_empty, All, Bool-cases, Option-cases, ◌==◌,
  some_inj,
}
use brain_mcp_server.Prelude.Maps.{Map, get, All-get}
use brain_mcp_server.Access.{BrainPrincipal}
use brain_mcp_server.Registry.{
  JsValue, string, other, BrainDefinition, RegistryPrincipal, BrainRegistry, Host, returned,
  is_brain_role, own_or_inherited, property_of, ids_of,
}
use brain_mcp_server.Registry.Access.{
  is_operator, first_matching, is_allowed, owned, roles_checked, is_truthy_value,
}
use brain_mcp_server.Registry.Sound.{IsRoleOf}

-- `role` is a role of the principal for the Brain `id`. The last case is a name that every object inherits.
pub data IsGrant (host : Host) (registry : BrainRegistry) (principal : BrainPrincipal) (id : Text)
    : JsValue → Type 0 where
  operator :
      is_operator principal ≡ true → IsGrant host registry principal id (string (codes "owner"))
  recorded :
      (found : RegistryPrincipal) (role : JsValue)
      → is_operator principal ≡ false
      → first_matching host registry principal ≡ some found
      → get id found.roles ≡ some role
      → is_brain_role role ≡ true
      → IsGrant host registry principal id role
  allowed :
      is_operator principal ≡ false
      → first_matching host registry principal ≡ none
      → is_allowed host registry principal ≡ true
      → or_empty registry.default_brain_id ≡ id
      → IsGrant host registry principal id (string (codes "owner"))
  inherited :
      is_operator principal ≡ false
      → id ≡ codes "constructor"
      → IsGrant host registry principal id other

pub own_or_inherited-cases :
    (id : Text) (own : Option JsValue) (value : JsValue)
    → own_or_inherited id own ≡ some value
    → (own ≡ some value) ⊎ ((id ≡ codes "constructor") × (value ≡ other))
own_or_inherited-cases id (some own) value h = inl h
own_or_inherited-cases id none value h = elim (Bool-cases (text_beq id (codes "constructor"))) [
  | inl t ↦ inr ((text_beq_iff id (codes "constructor")).0 t, sym (some_inj (rw t at h)))
  | inr t ↦ ground (arith, t, h)
]

pub get-owned :
    (id : Text) (brains : List BrainDefinition)
    → contains id (ids_of brains) ≡ true
    → get id (owned brains) ≡ some (string (codes "owner"))
unfolding get
get-owned id [] h = cc
get-owned id (brain ∷ brains) h = elim (Bool-cases (brain.id == id)) [
  | inl e ↦ rw e refl
  | inr e ↦ rw e (get-owned id brains (rw e at h))
]

pub roles_checked-returned :
    (ids : List Text) (roles rest : Map Text JsValue)
    → All (IsRoleOf ids) rest
    → roles_checked roles rest ≡ returned roles
roles_checked-returned ids roles [] h = refl
roles_checked-returned ids roles ((id, role) ∷ rest) h =
    rw h.0.1 (roles_checked-returned ids roles rest h.1)

pub is_truthy_value-role :
    (role : JsValue) → is_brain_role role ≡ true → is_truthy_value role ≡ true
unfolding is_brain_role text_beq
is_truthy_value-role other h = cc
is_truthy_value-role (string []) h = cc
is_truthy_value-role (string (c ∷ s)) h = refl

abbrev pub HasTruthy : Text × JsValue → Type 0
HasTruthy entry = is_truthy_value entry.1 ≡ true

abbrev pub Finds : Text → Map Text JsValue → Type 0
Finds id roles =
    (found : JsValue) × (property_of roles id ≡ some found) × (is_truthy_value found ≡ true)

pub Finds-own :
    (id : Text) (roles : Map Text JsValue) (role : JsValue)
    → get id roles ≡ some role
    → is_truthy_value role ≡ true
    → Finds id roles
unfolding property_of
Finds-own id roles role e t = (role, rw e refl, t)

pub Finds-inherited :
    (id : Text) (roles : Map Text JsValue)
    → All HasTruthy roles
    → id ≡ codes "constructor"
    → Finds id roles
Finds-inherited id roles h e = elim (Option-cases (get id roles)) [
  | inr (role, own) ↦ Finds-own id roles role own (All-get HasTruthy id role roles h own)
  | inl none_own ↦ (
    other,
    unfold property_of in rw none_own (rw ((text_beq_iff id (codes "constructor")).1 e) refl),
    refl,
  )
]
