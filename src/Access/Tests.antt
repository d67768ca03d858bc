-- ===== src/Access/Tests.antt =====
-- Runs of src/services/access-grants.ts on concrete inputs.
use brain_mcp_server.Prelude.{◌≤◌, none, [], ◌∷◌, codes, Text, text_beq, arith}
use brain_mcp_server.Policy.Tests.{test_runtime}
use brain_mcp_server.Access.{
  owner, reader, active, BrainPrincipal, RoleRow, Database, AccessGrantMutation,
}
use brain_mcp_server.Access.Mutations.{count_active_owners, apply_mutation}
use brain_mcp_server.Access.Owners.{apply_mutation-owners}
use brain_mcp_server.Access.Effects.{Applied, apply_mutation-Applied}

abbrev principal : Text → BrainPrincipal
principal id = record {
  provider = codes "entra";
  provider_tenant_id = none;
  provider_user_id = id;
  login = none;
  email = none;
  name = none;
}

abbrev owner_row : Text → RoleRow
owner_row id = record {
  brain_id = codes "b";
  principal = record { provider = codes "entra"; tenant = []; user_id = id };
  role = owner;
  status = active;
  role_source = codes "admin";
  upstream_role = none;
  upstream_group_id = none;
  version = 1;
}

-- Two owners.
abbrev two_owners : Database
two_owners = record {
  brains = codes "b" ∷ [];
  principals = [];
  roles = owner_row (codes "u") ∷ owner_row (codes "v") ∷ [];
  events = [];
}

abbrev demotion : AccessGrantMutation
demotion = record {
  brain_id = codes "b";
  target = principal (codes "u");
  role = reader;
  status = active;
  role_source = codes "admin";
  upstream_role = none;
  upstream_group_id = none;
  actor = principal (codes "v");
  reason = none;
  graph_outcome = none;
  graph_request_id = none;
}

two_test : 2 ≤ count_active_owners (codes "b") (codes "entra") [] two_owners.roles
unfolding count_active_owners text_beq
two_test = omega arith

apply_mutation-owners_example :
    2
    ≤ count_active_owners
        (codes "b")
        (codes "entra")
        []
        (apply_mutation test_runtime demotion two_owners).1.roles
apply_mutation-owners_example =
    apply_mutation-owners test_runtime demotion (codes "b") (codes "entra") [] two_owners two_test

apply_mutation-Applied_example :
    Applied test_runtime demotion two_owners (apply_mutation test_runtime demotion two_owners)
apply_mutation-Applied_example = apply_mutation-Applied test_runtime demotion two_owners
