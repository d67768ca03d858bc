-- ===== src/Registry/Tests.antt =====
-- Runs of src/services/registry.ts on concrete inputs.
use brain_mcp_server.Prelude.{
  refl, ◌≡◌, none, some, [], ◌∷◌, Text, codes, text_beq, split, join, true,
}
use brain_mcp_server.Prelude.Maps.{get}
use brain_mcp_server.Policy.Tests.{test_runtime}
use brain_mcp_server.Policy.Patterns.{trim}
use brain_mcp_server.Access.{BrainPrincipal}
use brain_mcp_server.Registry.{
  demand, or_error, string, other, BrainDefinition, RegistryPrincipal, BrainRegistry, Host, parsed,
  malformed, RegistryFile, returned, thrown, not_accessible,
}
use brain_mcp_server.Registry.Loading.{load_registry}
use brain_mcp_server.Registry.Access.{resolve_brain}
use brain_mcp_server.Registry.Resolved.{IsResolution, resolve_brain-IsResolution}

abbrev brain : Text → BrainDefinition
brain id = record {
  id = id;
  brain_type = codes "shared";
  template_used = codes "team";
  integration_mode = codes "vertical";
  storage_backend = codes "postgres";
  storage_config = record {
    repo_path = none;
    brain_dir = none;
    sources_dir = none;
    inbox_dir = none;
    remote = none;
    github_repo = none;
  };
  vector_backend = none;
  vector_scope = none;
  source_categories = none;
  lint = none;
  write_policy = none;
}

abbrev member_of : Text → RegistryPrincipal
member_of id = record {
  provider = codes "github";
  provider_tenant_id = none;
  provider_user_id = some (codes "7");
  login = none;
  email = none;
  name = none;
  roles = (id, string (codes "member")) ∷ [];
}

abbrev registry : BrainRegistry
registry = record {
  version = 1;
  default_brain_id = some (codes "alpha");
  brains = brain (codes "alpha") ∷ brain (codes "constructor") ∷ [];
  principals = member_of (codes "alpha") ∷ [];
}

abbrev host_with : RegistryFile → Host
host_with file = record {
  runtime = test_runtime;
  environment = record {
    brain_id = none;
    transport = none;
    identity_providers = none;
    lint_mode_overrides = none;
    github_allowed_logins = none;
    github_allowed_emails = none;
    user = none;
  };
  registry_file = file;
  parse_overrides = λ s. malformed;
  resolve_beside = λ s t. t;
  has_git = true;
  brain_dir = codes "/b/brain";
  sources_root = codes "/b/sources";
  github_repo = codes "o/b";
}

abbrev host : Host
host = host_with (parsed registry)

abbrev principal : Text → BrainPrincipal
principal id = record {
  provider = codes "github";
  provider_tenant_id = none;
  provider_user_id = id;
  login = none;
  email = none;
  name = none;
}

loads : load_registry host ≡ returned registry
unfolding load_registry text_beq trim split join get demand or_error
loads = refl

resolves_member :
    resolve_brain host (codes "alpha") (principal (codes "7"))
    ≡ returned (record {
      registry = registry;
      brain = brain (codes "alpha");
      role = string (codes "member");
    })
unfolding resolve_brain text_beq trim split join get demand or_error
resolves_member = refl

-- A stranger has no role, but "constructor" is a name that his empty object of roles inherits.
refuses_stranger :
    resolve_brain host (codes "alpha") (principal (codes "8"))
    ≡ thrown (not_accessible (codes "alpha"))
unfolding resolve_brain text_beq trim split join get demand or_error
refuses_stranger = refl

resolves_stranger :
    resolve_brain host (codes "constructor") (principal (codes "8"))
    ≡ returned (record { registry = registry; brain = brain (codes "constructor"); role = other })
unfolding resolve_brain text_beq trim split join get demand or_error
resolves_stranger = refl

resolve_brain-IsResolution_example :
    IsResolution host
      (codes "alpha")
      (principal (codes "7"))
      (resolve_brain host (codes "alpha") (principal (codes "7")))
resolve_brain-IsResolution_example =
    resolve_brain-IsResolution host (codes "alpha") (principal (codes "7"))
