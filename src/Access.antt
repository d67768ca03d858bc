-- ===== src/Access.antt =====
-- The data of src/services/access-grants.ts: the rows of the tables brain.brains, brain.principals,
-- brain.brain_roles and brain.access_audit_events, and a mutation of a grant.
pub mod Mutations
pub mod Owners
pub mod Effects
mod Tests
use brain_mcp_server.Prelude.{
  ℕ, ◌≡◌, ◌↔◌, refl, Bool, true, false, ◌&&◌, Option, none, some, List, Text, text_eq, Eq, ◌==◌,
  arith, codes, text_beq_refl,
}
use brain_mcp_server.Policy.{Runtime}
use brain_mcp_server.Policy.Patterns.{trim}

pub data BrainRole : Type 0 where
  owner admin member reader : BrainRole

pub data GrantStatus : Type 0 where
  active suspended revoked : GrantStatus

-- `BrainPrincipal` of src/services/registry.ts.
pub record BrainPrincipal : Type 0 where
  pub provider : Text
  pub provider_tenant_id : Option Text
  pub provider_user_id : Text
  pub login : Option Text
  pub email : Option Text
  pub name : Option Text

-- The unique key of brain.principals, which stands for the row's generated id.
pub record Identity : Type 0 where
  pub provider : Text
  pub tenant : Text
  pub user_id : Text

pub record PrincipalRow : Type 0 where
  pub identity : Identity
  pub login : Option Text
  pub email : Option Text
  pub name : Option Text

-- A row of brain.brain_roles, less its times.
pub record RoleRow : Type 0 where
  pub brain_id : Text
  pub principal : Identity
  pub role : BrainRole
  pub status : GrantStatus
  pub role_source : Text
  pub upstream_role : Option Text
  pub upstream_group_id : Option Text
  pub version : ℕ

pub data Action : Type 0 where
  grant change suspend reinstate revoke reconcile : Action

-- A row of brain.access_audit_events, less its id and its time.
pub record AuditEvent : Type 0 where
  pub brain_id : Text
  pub actor : Identity
  pub target : Identity
  pub action : Action
  pub old_role : Option BrainRole
  pub new_role : Option BrainRole
  pub old_status : Option GrantStatus
  pub new_status : Option GrantStatus
  pub reason : Option Text
  pub graph_outcome : Option Text
  pub graph_request_id : Option Text

pub record Database : Type 0 where
  pub brains : List Text
  pub principals : List PrincipalRow
  pub roles : List RoleRow
  pub events : List AuditEvent

pub record AccessGrantMutation : Type 0 where
  pub brain_id : Text
  pub target : BrainPrincipal
  pub role : BrainRole
  pub status : GrantStatus
  pub role_source : Text
  pub upstream_role : Option Text
  pub upstream_group_id : Option Text
  pub actor : BrainPrincipal
  pub reason : Option Text
  pub graph_outcome : Option Text
  pub graph_request_id : Option Text

-- `AccessGrant` as `applyMutation` returns it: login and times are not set.
pub record AccessGrant : Type 0 where
  pub brain_id : Text
  pub provider : Text
  pub provider_tenant_id : Option Text
  pub provider_user_id : Text
  pub name : Option Text
  pub email : Option Text
  pub role : BrainRole
  pub status : GrantStatus
  pub role_source : Text
  pub upstream_role : Option Text
  pub upstream_group_id : Option Text
  pub version : ℕ

-- `principal.providerTenantId?.trim().toLowerCase() || ""`
unfoldable pub normalized_tenant : Runtime → BrainPrincipal → Text
normalized_tenant rt principal = elim principal.provider_tenant_id [
  | none ↦ codes ""
  | some tenant ↦ rt.to_lower_case (trim tenant)
]

abbrev pub identity_of : Runtime → BrainPrincipal → Identity
identity_of rt principal = record {
  provider = principal.provider;
  tenant = normalized_tenant rt principal;
  user_id = principal.provider_user_id;
}

abbrev pub identity_beq : Identity → Identity → Bool
identity_beq i j = i.provider == j.provider && i.tenant == j.tenant && i.user_id == j.user_id

identity-eta :
    (i j : Identity) → i.provider ≡ j.provider → i.tenant ≡ j.tenant → i.user_id ≡ j.user_id → i ≡ j
identity-eta i j p t u = cc

pub identity_beq_iff : (i j : Identity) → (identity_beq i j ≡ true) ↔ (i ≡ j)
identity_beq_iff i j = (
  λ h.
      identity-eta i j (ground (arith, text_eq.beq_iff i.provider j.provider))
        (ground (arith, text_eq.beq_iff i.tenant j.tenant))
        (ground (arith, text_eq.beq_iff i.user_id j.user_id)),
  λ h.
      rw h
        (ground (arith, text_beq_refl j.provider, text_beq_refl j.tenant, text_beq_refl j.user_id)),
)

instance abbrev pub identity_eq : Eq Identity
identity_eq = record { beq = identity_beq; beq_iff = identity_beq_iff }

abbrev pub role_is_owner : BrainRole → Bool
role_is_owner owner = true
role_is_owner admin = false
role_is_owner member = false
role_is_owner reader = false

abbrev pub status_beq : GrantStatus → GrantStatus → Bool
status_beq active active = true
status_beq suspended suspended = true
status_beq revoked revoked = true
status_beq _ _ = false
