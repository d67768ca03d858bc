-- ===== src/Registry/Loading.antt =====
-- applyLintModeOverrides and loadRegistry of src/services/registry.ts, with runtimeBrainId of
-- src/services/runtime-env.ts.
use brain_mcp_server.Prelude.{
  Option, none, some, List, [], ◌∷◌, Text, codes, text_eq, option_eq, ◌==◌, if◌then◌else◌, contains,
  is_empty, or_empty, not,
}
use brain_mcp_server.Prelude.Maps.{Map}
use brain_mcp_server.Policy.Patterns.{trim}
use brain_mcp_server.Graph.Paths.{basename, dirname}
use brain_mcp_server.Registry.{
  JsValue, BrainLintConfig, BrainStorageConfig, BrainDefinition, BrainRegistry, Host, RegistryError,
  RegistryResult, returned, thrown, RegistryFile, absent, unreadable, parsed, Overrides, malformed,
  not_an_object, overrides_of, override_of_unknown_brain, unsupported_override, malformed_overrides,
  brain_id_unset, unreadable_registry, demand, is_lint_mode, property_of, ids_of,
}
use brain_mcp_server.Registry.Shape.{shape_error}

-- Overrides of the lint mode.
unfoldable pub overrides_error : List Text → Map Text JsValue → Option RegistryError
unfolding is_lint_mode
overrides_error ids [] = none
overrides_error ids ((id, mode) ∷ overrides) =
    demand (contains id ids) (override_of_unknown_brain id)
      (demand (is_lint_mode mode) (unsupported_override id) (overrides_error ids overrides))

-- `{ ...lint, reachability_mode: mode }`
abbrev with_mode : JsValue → Option BrainLintConfig → BrainLintConfig
with_mode mode none = record {
  reachability_mode = some mode;
  graph_roots = none;
  relative_parent_scope = none;
  sharepoint_url_mappings = none;
  exempt_globs = none;
}
with_mode mode (some lint) = record lint { reachability_mode = some mode }

abbrev pub mode_applied : Option JsValue → BrainDefinition → BrainDefinition
mode_applied none brain = brain
mode_applied (some mode) brain = record brain { lint = some (with_mode mode brain.lint) }

unfoldable pub overridden : Map Text JsValue → List BrainDefinition → List BrainDefinition
unfolding property_of
overridden overrides [] = []
overridden overrides (brain ∷ brains) =
    mode_applied (property_of overrides brain.id) brain ∷ overridden overrides brains

abbrev pub returned_unless : {A : Type 0} → Option RegistryError → A → RegistryResult A
returned_unless none a = returned a
returned_unless (some error) a = thrown error

abbrev overridden_by : Overrides → BrainRegistry → RegistryResult BrainRegistry
overridden_by malformed registry = thrown malformed_overrides
overridden_by not_an_object registry = thrown malformed_overrides
overridden_by (overrides_of overrides) registry =
    returned_unless (overrides_error (ids_of registry.brains) overrides)
      (record registry { brains = overridden overrides registry.brains })

unfoldable pub apply_lint_mode_overrides : Host → BrainRegistry → RegistryResult BrainRegistry
unfolding overrides_error overridden trim
apply_lint_mode_overrides host registry =
    let raw = trim (or_empty host.environment.lint_mode_overrides) in
    if is_empty raw then returned registry else overridden_by (host.parse_overrides raw) registry

-- `runtimeBrainId()`; `none` where it throws.
unfoldable pub runtime_brain_id : Host → Option Text
unfolding trim
runtime_brain_id host =
    let configured = trim (or_empty host.environment.brain_id) in
    if not (is_empty configured)
    then some configured
    else if host.environment.transport == some (codes "http")
    then none
    else some (codes "ai-brain-jem")

unfoldable pub default_repo_path : Host → Text
unfolding basename dirname
default_repo_path host =
    if host.has_git
    then host.brain_dir
    else if basename host.brain_dir == codes "brain"
    then dirname host.brain_dir
    else host.brain_dir

abbrev pub source_categories : List Text
source_categories =
    codes "bios"
    ∷ codes "cv"
    ∷ codes "career_history"
    ∷ codes "assessments"
    ∷ codes "writing_samples"
    ∷ codes "analysis"
    ∷ codes "meeting_notes"
    ∷ codes "correspondence"
    ∷ codes "personal"
    ∷ codes "research"
    ∷ codes "travel"
    ∷ codes "favourites"
    ∷ codes "photos"
    ∷ codes "other"
    ∷ []

abbrev synthesized_storage : Host → BrainStorageConfig
synthesized_storage host = record {
  repo_path = some (default_repo_path host);
  brain_dir = some host.brain_dir;
  sources_dir = some host.sources_root;
  inbox_dir = some (host.resolve_beside host.brain_dir (codes "inbox"));
  remote = none;
  github_repo = some host.github_repo;
}

abbrev synthesized_lint : BrainLintConfig
synthesized_lint = record {
  reachability_mode = none;
  graph_roots = some (codes "00_loader.md" ∷ codes "NOW.md" ∷ []);
  relative_parent_scope = some (codes "disabled");
  sharepoint_url_mappings = none;
  exempt_globs = some (codes "archive/JOURNAL-*.md" ∷ codes "archive/LOG-*.md" ∷ []);
}

abbrev synthesized_brain : Host → Text → BrainDefinition
synthesized_brain host id = record {
  id = id;
  brain_type = codes "personal";
  template_used = codes "personal";
  integration_mode = codes "vertical";
  storage_backend = codes "filesystem";
  storage_config = synthesized_storage host;
  vector_backend = none;
  vector_scope = some (codes "sources" ∷ []);
  source_categories = some source_categories;
  lint = some synthesized_lint;
  write_policy = none;
}

abbrev pub synthesized_registry : Host → Text → BrainRegistry
synthesized_registry host id = record {
  version = 1;
  default_brain_id = some id;
  brains = synthesized_brain host id ∷ [];
  principals = [];
}

abbrev synthesized : Host → Option Text → RegistryResult BrainRegistry
synthesized host none = thrown brain_id_unset
synthesized host (some id) = returned (synthesized_registry host id)

abbrev registry_read : Host → RegistryFile → RegistryResult BrainRegistry
registry_read host absent = synthesized host (runtime_brain_id host)
registry_read host unreadable = thrown unreadable_registry
registry_read host (parsed registry) = returned registry

-- `assertRegistryShape(registry)`
abbrev pub asserted : Host → RegistryResult BrainRegistry → RegistryResult BrainRegistry
asserted host (thrown error) = thrown error
asserted host (returned registry) = returned_unless (shape_error host registry) registry

abbrev pub lint_overridden : Host → RegistryResult BrainRegistry → RegistryResult BrainRegistry
lint_overridden host (thrown error) = thrown error
lint_overridden host (returned registry) = apply_lint_mode_overrides host registry

unfoldable pub load_registry : Host → RegistryResult BrainRegistry
unfolding runtime_brain_id default_repo_path shape_error apply_lint_mode_overrides
load_registry host =
    asserted host (lint_overridden host (asserted host (registry_read host host.registry_file)))
