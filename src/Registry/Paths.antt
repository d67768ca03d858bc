-- ===== src/Registry/Paths.antt =====
-- pathsForBrain and sourceCategoriesForBrain of src/services/registry.ts.
use brain_mcp_server.Prelude.{
  not, none, some, List, Text, codes, text_eq, ◌==◌, if◌then◌else◌, is_empty, or_empty, or_text, [],
  ◌∷◌,
}
use brain_mcp_server.Registry.{
  BrainDefinition, Host, RegistryResult, returned, thrown, not_on_filesystem, missing_brain_dir,
}
use brain_mcp_server.Registry.Access.{ResolvedBrain, stdio_principal, resolve_brain}
use brain_mcp_server.Registry.Loading.{source_categories}

pub record BrainPaths : Type 0 where
  pub brain_dir : Text
  pub sources_root : Text
  pub inbox_dir : Text
  pub repo_path : Text
  pub github_repo : Text

-- Of `path.resolve(brainDir, "..")` the model has the case of an empty last argument.
abbrev paths_in : Host → BrainDefinition → Text → BrainPaths
paths_in host brain dir = record {
  brain_dir = dir;
  sources_root =
      or_text (or_empty brain.storage_config.sources_dir)
        (host.resolve_beside dir (codes "sources"));
  inbox_dir =
      or_text (or_empty brain.storage_config.inbox_dir) (host.resolve_beside dir (codes "inbox"));
  repo_path = or_text (or_empty brain.storage_config.repo_path) (host.resolve_beside dir []);
  github_repo = or_text (or_empty brain.storage_config.github_repo) host.github_repo;
}

unfoldable pub paths_for_brain : Host → BrainDefinition → RegistryResult BrainPaths
paths_for_brain host brain =
    if not (brain.storage_backend == codes "filesystem")
    then thrown (not_on_filesystem brain.id)
    else if is_empty (or_empty brain.storage_config.brain_dir)
    then thrown (missing_brain_dir brain.id)
    else returned (paths_in host brain (or_empty brain.storage_config.brain_dir))

unfoldable pub source_categories_for_brain : BrainDefinition → List Text
source_categories_for_brain brain = elim brain.source_categories [
  | none ↦ source_categories
  | some List.[] ↦ source_categories
  | some (c ∷ cs) ↦ c ∷ cs
]

abbrev paths_resolved : Host → RegistryResult ResolvedBrain → RegistryResult BrainPaths
paths_resolved host (thrown error) = thrown error
paths_resolved host (returned r) = paths_for_brain host r.brain

unfoldable pub get_brain_paths : Host → Text → RegistryResult BrainPaths
unfolding paths_for_brain stdio_principal resolve_brain
get_brain_paths host id = paths_resolved host (resolve_brain host id (stdio_principal host))
