-- ===== src/Registry/Granted.antt =====
-- What accessibleRoles of src/services/registry.ts grants, told without the object that it returns.
use brain_mcp_server.Prelude.{
  ◌≡◌, refl, sym, subst, inl, inr, true, false, none, some, [], ◌∷◌, Text, codes, text_eq, text_beq,
  text_beq_iff, contains, or_empty, All, Bool-cases, Option-cases, some_inj, ◌∙◌, All-impl,
  All-find,
}
use brain_mcp_server.Prelude.Maps.{Map, get, All-get}
use brain_mcp_server.Access.{BrainPrincipal}
use brain_mcp_server.Registry.{
  JsValue, string, RegistryPrincipal, BrainRegistry, Host, returned, is_brain_role, property_of,
  ids_of,
}
use brain_mcp_server.Registry.Access.{
  is_operator, first_matching, is_allowed, owned, recorded_roles, accessible_roles,
}
use brain_mcp_server.Registry.Sound.{IsRoleOf, HasRolesOf}
use brain_mcp_server.Registry.Roles.{
  IsGrant, operator, recorded, allowed, inherited, own_or_inherited-cases, get-owned,
  roles_checked-returned, is_truthy_value-role, HasTruthy, Finds, Finds-own, Finds-inherited,
}

-- What the roles that accessibleRoles returns say of the Brains of the registry.
module _ (host : Host) (registry : BrainRegistry) (principal : BrainPrincipal)
    (sound : All (HasRolesOf (ids_of registry.brains)) registry.principals) where
  abbrev pub Grants : Text → Map Text JsValue → Type 0
  Grants id roles =
      ((role : JsValue)
        → property_of roles id ≡ some role
        → IsGrant host registry principal id role)
      × ((role : JsValue) → IsGrant host registry principal id role → Finds id roles)

  owned-Grants :
      is_operator principal ≡ true
      → (id : Text) → contains id (ids_of registry.brains) ≡ true
      → Grants id (owned registry.brains)
  unfolding property_of
  owned-Grants op id known =
      let own = get-owned id registry.brains known in
      (
        (λ role h.
            subst (λ (x : JsValue). IsGrant host registry principal id x) (some_inj (rw own at h))
              (operator op)),
        (λ role g. Finds-own id (owned registry.brains) (string (codes "owner")) own refl),
      )

  recorded-Grants :
      (found : RegistryPrincipal)
      → is_operator principal ≡ false
      → first_matching host registry principal ≡ some found
      → All (IsRoleOf (ids_of registry.brains)) found.roles
      → (id : Text) → Grants id found.roles
  unfolding property_of
  recorded-Grants found op first roles id = (
    (λ role h. elim (own_or_inherited-cases id (get id found.roles) role h) [
      | inl own ↦ recorded found role op first own (valid role own)
      | inr (e, o) ↦
          subst (λ (x : JsValue). IsGrant host registry principal id x) (sym o) (inherited op e)
    ]),
    complete,
  )
    where
      valid : (role : JsValue) → get id found.roles ≡ some role → is_brain_role role ≡ true
      valid role own = (All-get (IsRoleOf (ids_of registry.brains)) id role found.roles roles own).1

      truthy : All HasTruthy found.roles
      truthy = All-impl (λ entry h. is_truthy_value-role entry.1 h.1) found.roles roles

      complete : (role : JsValue) → IsGrant host registry principal id role → Finds id found.roles
      complete role (operator o) = cc
      complete role (recorded other_found role' o f own v) =
          let same : other_found ≡ found = some_inj (sym f ∙ first) in
          Finds-own id found.roles role
            (subst (λ (x : RegistryPrincipal). get id x.roles ≡ some role) same own)
            (is_truthy_value-role role v)
      complete role (allowed o f a d) = cc
      complete role (inherited o e) = Finds-inherited id found.roles truthy e

  unrecorded-Grants :
      is_operator principal ≡ false
      → first_matching host registry principal ≡ none
      → is_allowed host registry principal ≡ false
      → (id : Text) → Grants id []
  unfolding property_of
  unrecorded-Grants op first refusal id = (
    (λ role h. elim (own_or_inherited-cases id (get id []) role h) [
      | inl own ↦ unfold get in cc
      | inr (e, o) ↦
          subst (λ (x : JsValue). IsGrant host registry principal id x) (sym o) (inherited op e)
    ]),
    complete,
  )
    where
      complete : (role : JsValue) → IsGrant host registry principal id role → Finds id []
      complete role (operator o) = cc
      complete role (recorded found role' o f own v) = cc
      complete role (allowed o f a d) = cc
      complete role (inherited o e) = Finds-inherited id [] tt e

  allowed-Grants :
      is_operator principal ≡ false
      → first_matching host registry principal ≡ none
      → is_allowed host registry principal ≡ true
      → (id : Text) → Grants id ((or_empty registry.default_brain_id, string (codes "owner")) ∷ [])
  unfolding property_of
  allowed-Grants op first permitted id = (
    (λ role h. elim (own_or_inherited-cases id (get id roles) role h) [
      | inl own ↦ of_own role own
      | inr (e, o) ↦
          subst (λ (x : JsValue). IsGrant host registry principal id x) (sym o) (inherited op e)
    ]),
    complete,
  )
    where
      roles : Map Text JsValue
      roles = (or_empty registry.default_brain_id, string (codes "owner")) ∷ []

      own_role :
          or_empty registry.default_brain_id ≡ id → get id roles ≡ some (string (codes "owner"))
      own_role e =
          unfold get in rw ((text_beq_iff (or_empty registry.default_brain_id) id).1 e) refl

      of_own : (role : JsValue) → get id roles ≡ some role → IsGrant host registry principal id role
      of_own role own = elim (Bool-cases (text_beq (or_empty registry.default_brain_id) id)) [
        | inl t ↦
            let e = (text_beq_iff (or_empty registry.default_brain_id) id).0 t in
            subst (λ (x : JsValue). IsGrant host registry principal id x)
              (some_inj (sym (own_role e) ∙ own)) (allowed op first permitted e)
        | inr t ↦ unfold get in cc
      ]

      complete : (role : JsValue) → IsGrant host registry principal id role → Finds id roles
      complete role (operator o) = cc
      complete role (recorded found role' o f own v) = cc
      complete role (allowed o f a d) =
          Finds-own id roles (string (codes "owner")) (own_role d) refl
      complete role (inherited o e) = Finds-inherited id roles (refl, tt) e

  recorded_roles-Grants :
      is_operator principal ≡ false
      → (roles : Map Text JsValue) × (recorded_roles host registry principal
            (first_matching host registry principal)
          ≡ returned roles)
        × ((id : Text) → Grants id roles)
  recorded_roles-Grants op = elim (Option-cases (first_matching host registry principal)) [
    | inr (found, first) ↦
        let valid =
          All-find (HasRolesOf (ids_of registry.brains)) _ registry.principals found sound first in
        (
          found.roles,
          rw first (roles_checked-returned (ids_of registry.brains) found.roles found.roles valid),
          recorded-Grants found op first valid,
        )
    | inl first ↦ elim (Bool-cases (is_allowed host registry principal)) [
      | inl permitted ↦ (
        (or_empty registry.default_brain_id, string (codes "owner")) ∷ [],
        rw (first, permitted) refl,
        allowed-Grants op first permitted,
      )
      | inr refusal ↦ ([], rw (first, refusal) refl, unrecorded-Grants op first refusal)
    ]
  ]

  pub accessible_roles-Grants :
      (roles : Map Text JsValue) × (accessible_roles host registry principal ≡ returned roles)
      × ((id : Text) → contains id (ids_of registry.brains) ≡ true → Grants id roles)
  unfolding accessible_roles
  accessible_roles-Grants = elim (Bool-cases (is_operator principal)) [
    | inl op ↦ (owned registry.brains, rw op refl, owned-Grants op)
    | inr op ↦
        let given = recorded_roles-Grants op in (given.0, rw op given.1, λ id known. given.2 id)
  ]
