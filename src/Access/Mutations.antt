-- ===== src/Access/Mutations.antt =====
-- The operations of `PostgresAccessGrantStore` of src/services/access-grants.ts. A transaction that fails is
-- rolled back.
use brain_mcp_server.Prelude.{
  ℕ, ◌+◌, Bool, false, not, ◌&&◌, Option, none, some, List, [], ◌∷◌, ◌++◌, Text, text_eq, ◌==◌,
  keep, find, contains, length, take, leb, if◌then◌else◌, any, map, is_empty,
}
use brain_mcp_server.Policy.{Runtime, Result, ok, err, unknown_brain, owner_roster_too_small}
use brain_mcp_server.Access.{
  BrainRole, GrantStatus, active, suspended, revoked, BrainPrincipal, Identity, PrincipalRow,
  RoleRow, Action, grant, change, suspend, reinstate, revoke, reconcile, AuditEvent, Database,
  AccessGrantMutation, AccessGrant, identity_of, identity_eq, role_is_owner, status_beq,
  normalized_tenant, codes, trim,
}

abbrev pub min_active_owners : ℕ
min_active_owners = 2

abbrev pub is_active_owner : BrainRole → GrantStatus → Bool
is_active_owner role status = role_is_owner role && status_beq status active

abbrev pub in_roster : Text → Text → Text → RoleRow → Bool
in_roster brain_id provider tenant row =
    row.brain_id == brain_id
    && is_active_owner row.role row.status
    && row.principal.provider == provider
    && row.principal.tenant == tenant

-- `countActiveOwners`, for a tenant that has been normalised.
unfoldable pub count_active_owners : Text → Text → Text → List RoleRow → ℕ
count_active_owners brain_id provider tenant rows =
    length (keep (in_roster brain_id provider tenant) rows)

abbrev pub is_grant : Text → Identity → RoleRow → Bool
is_grant brain_id principal row = row.brain_id == brain_id && row.principal == principal

unfoldable pub find_grant : Text → Identity → List RoleRow → Option RoleRow
find_grant brain_id principal rows = find (is_grant brain_id principal) rows

-- `insert … on conflict (provider, provider_tenant_id, provider_user_id) do update`
unfoldable pub upsert_principal : PrincipalRow → List PrincipalRow → List PrincipalRow
upsert_principal row [] = row ∷ []
upsert_principal row (r ∷ rows) =
    let rest = upsert_principal row rows in
    if r.identity == row.identity then row ∷ rows else r ∷ rest

-- `text || null`
abbrev non_empty : Option Text → Option Text
non_empty none = none
non_empty (some []) = none
non_empty (some (c ∷ text)) = some (c ∷ text)

abbrev principal_row : Runtime → BrainPrincipal → PrincipalRow
principal_row rt principal = record {
  identity = identity_of rt principal;
  login = non_empty principal.login;
  email = non_empty principal.email;
  name = non_empty principal.name;
}

abbrev pub role_row : Runtime → AccessGrantMutation → ℕ → RoleRow
role_row rt input version = record {
  brain_id = input.brain_id;
  principal = identity_of rt input.target;
  role = input.role;
  status = input.status;
  role_source = input.role_source;
  upstream_role = non_empty input.upstream_role;
  upstream_group_id = non_empty input.upstream_group_id;
  version = version;
}

-- `insert … on conflict (brain_id, principal_id) do update`
unfoldable pub upsert_role : Runtime → AccessGrantMutation → List RoleRow → List RoleRow
upsert_role rt input [] = role_row rt input 1 ∷ []
upsert_role rt input (r ∷ rows) =
    let rest = upsert_role rt input rows in
    if is_grant input.brain_id (identity_of rt input.target) r
    then role_row rt input (r.version + 1) ∷ rows
    else r ∷ rest

abbrev pub version_after : Option RoleRow → ℕ
version_after none = 1
version_after (some old) = old.version + 1

abbrev pub action_of : GrantStatus → Option RoleRow → Action
action_of status none = grant
action_of status (some old) =
    if status_beq status suspended && not (status_beq old.status suspended)
    then suspend
    else if status_beq status revoked && not (status_beq old.status revoked)
    then revoke
    else if status_beq status active && not (status_beq old.status active)
    then reinstate
    else change

-- `text?.slice(0, n) || null`
abbrev clipped : ℕ → Option Text → Option Text
clipped n none = none
clipped n (some text) = elim (take n text) [ [] ↦ none | c ∷ s ↦ some (c ∷ s) ]

abbrev old_role_of : Option RoleRow → Option BrainRole
old_role_of none = none
old_role_of (some old) = some old.role

abbrev old_status_of : Option RoleRow → Option GrantStatus
old_status_of none = none
old_status_of (some old) = some old.status

abbrev pub audit_event : Runtime → AccessGrantMutation → Option RoleRow → AuditEvent
audit_event rt input old = record {
  brain_id = input.brain_id;
  actor = identity_of rt input.actor;
  target = identity_of rt input.target;
  action = action_of input.status old;
  old_role = old_role_of old;
  new_role = some input.role;
  old_status = old_status_of old;
  new_status = some input.status;
  reason = clipped 500 input.reason;
  graph_outcome = clipped 80 input.graph_outcome;
  graph_request_id = clipped 120 input.graph_request_id;
}

abbrev pub grant_of : AccessGrantMutation → ℕ → AccessGrant
grant_of input version = record {
  brain_id = input.brain_id;
  provider = input.target.provider;
  provider_tenant_id = input.target.provider_tenant_id;
  provider_user_id = input.target.provider_user_id;
  name = input.target.name;
  email = input.target.email;
  role = input.role;
  status = input.status;
  role_source = input.role_source;
  upstream_role = input.upstream_role;
  upstream_group_id = input.upstream_group_id;
  version = version;
}

abbrev pub was_active_owner : Option RoleRow → Bool
was_active_owner none = false
was_active_owner (some old) = is_active_owner old.role old.status

-- An active owner is to lose that.
abbrev pub demotes : AccessGrantMutation → Option RoleRow → Bool
demotes input old = was_active_owner old && not (is_active_owner input.role input.status)

abbrev pub written : Runtime → AccessGrantMutation → Option RoleRow → Database → Database
written rt input old db = record db {
  principals = upsert_principal (principal_row rt input.target) db.principals;
  roles = upsert_role rt input db.roles;
  events = db.events ++ audit_event rt input old ∷ [];
}

unfoldable pub apply_mutation :
    Runtime → AccessGrantMutation → Database → Result AccessGrant × Database
apply_mutation rt input db =
    let old = find_grant input.brain_id (identity_of rt input.target) db.roles in
    if not (contains input.brain_id db.brains)
    then (err (unknown_brain input.brain_id), db)
    else if demotes input old
        && leb
            (count_active_owners input.brain_id input.target.provider
              (normalized_tenant rt input.target) db.roles)
            min_active_owners
    then (err owner_roster_too_small, db)
    else (ok (grant_of input (version_after old)), written rt input old db)

-- `rolesForPrincipal`, in the order of the table: the result is used as an object.
unfoldable pub roles_for_principal : Runtime → BrainPrincipal → Database → List (Text × BrainRole)
roles_for_principal rt principal db =
    if is_empty principal.provider_user_id
    then []
    else map (λ r. (r.brain_id, r.role))
        (keep (λ r. r.principal == identity_of rt principal && status_beq r.status active) db.roles)

abbrev pub known_principal : Identity → List PrincipalRow → Bool
known_principal identity rows = any (λ r. r.identity == identity) rows

-- `recordReconciliation`: an event, where the principal is known.
unfoldable pub record_reconciliation :
    Runtime
    → Text
    → BrainPrincipal
    → BrainPrincipal
    → Text
    → Text
    → Option Text
    → Database
    → Database
record_reconciliation rt brain_id actor target reason graph_outcome graph_request_id db =
    if known_principal (identity_of rt target) db.principals
    then record db {
      events =
          db.events
          ++ (record {
            brain_id = brain_id;
            actor = identity_of rt actor;
            target = identity_of rt target;
            action = reconcile;
            old_role = none;
            new_role = none;
            old_status = none;
            new_status = none;
            reason = some (take 500 reason);
            graph_outcome = some (take 80 graph_outcome);
            graph_request_id = clipped 120 graph_request_id;
          })
            ∷ [];
    }
    else db

-- `assertSteadyStateOwnerRoster` throws exactly where this is false.
unfoldable pub is_steady_roster : Runtime → Text → Text → Database → Bool
is_steady_roster rt brain_id tenant db =
    leb min_active_owners
      (count_active_owners brain_id (codes "entra") (rt.to_lower_case (trim tenant)) db.roles)
