-- ===== src/Tests/Plugins.antt =====
-- Two plugins, one of which is registered twice.
use reinhardt_cloud.Base.{true, some, List, [], ◌∷◌, map, ◌≡◌}
use reinhardt_cloud.Base.Result.{ok}
use reinhardt_cloud.Core.Plugins.Defs
use reinhardt_cloud.Core.Plugins.Defs.{
  PluginService, PluginRegistry, register, plugins_for_hook, execute_hook,
}
use reinhardt_cloud.Core.Plugins.Registered.{listed, latest, register_all, register_all_lem}
use reinhardt_cloud.Core.Plugins.Executed.{Runs, execute_hook-Runs}

abbrev scanner : PluginService
scanner = record {
  name = "scanner";
  hook_types = Defs.pre_build ∷ Defs.pre_deploy ∷ [];
  run_function = λ function input context.
      ok (record { success = true; output = List.[]; conditions = List.[] });
  health_check = true;
}

abbrev linter : PluginService
linter = record scanner { name = "linter"; hook_types = Defs.pre_build ∷ [] }

abbrev registrations : List PluginService
registrations = scanner ∷ linter ∷ scanner ∷ []

register_all_lem_example :
    map (λ p. some p) (plugins_for_hook (register_all Defs.new registrations) Defs.pre_build)
    ≡ map (λ name. latest name registrations) (listed Defs.pre_build registrations)
register_all_lem_example = register_all_lem registrations Defs.pre_build

abbrev plugins : PluginRegistry
plugins = register_all Defs.new registrations

execute_hook-Runs_example :
    Runs Defs.pre_build [] []
      (plugins_for_hook plugins Defs.pre_build)
      (execute_hook plugins Defs.pre_build [] []).0
      (execute_hook plugins Defs.pre_build [] []).1
execute_hook-Runs_example = execute_hook-Runs Defs.pre_build [] [] plugins
