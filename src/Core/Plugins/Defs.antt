-- ===== src/Core/Plugins/Defs.antt =====
-- plugin/traits.rs and plugin/registry.rs. What a plugin does is the plugin's own: its answers are a
-- function of what it is called with.
use reinhardt_cloud.Base.{
  ℕ, String, Bool, true, false, Option, none, some, List, [], ◌∷◌, ◌++◌, map, any, length, ◌≡◌, ◌↔◌,
  arith, string_eq, Eq, if◌then◌else◌,
}
use reinhardt_cloud.Base.Map.{Map, get, insert}
use reinhardt_cloud.Base.Result.{Result, ok, err}
use reinhardt_cloud.Core.ApiError.{ApiError, internal}

pub data PluginHookType : Type 0 where
  pre_build post_build pre_deploy post_deploy : PluginHookType

-- the derived `PartialEq`
unfoldable pub hook_beq : PluginHookType → PluginHookType → Bool
hook_beq pre_build pre_build = true
hook_beq post_build post_build = true
hook_beq pre_deploy pre_deploy = true
hook_beq post_deploy post_deploy = true
hook_beq _ _ = false

pub hook_beq_iff : (g h : PluginHookType) → (hook_beq g h ≡ true) ↔ (g ≡ h)
unfolding hook_beq
hook_beq_iff g h = ground arith

instance abbrev pub hook_eq : Eq PluginHookType
hook_eq = record { beq = hook_beq; beq_iff = hook_beq_iff }

-- what `{hook_type:?}` writes
unfoldable pub show_hook : PluginHookType → String
show_hook pre_build = "PreBuild"
show_hook post_build = "PostBuild"
show_hook pre_deploy = "PreDeploy"
show_hook post_deploy = "PostDeploy"

pub data ConditionSeverity : Type 0 where
  info warning error : ConditionSeverity

unfoldable pub is_error : ConditionSeverity → Bool
is_error info = false
is_error warning = false
is_error error = true

pub record PluginCondition : Type 0 where
  pub condition_type : String
  pub message : String
  pub severity : ConditionSeverity

-- `output` is a list of bytes
pub record PluginResult : Type 0 where
  pub success : Bool
  pub output : List ℕ
  pub conditions : List PluginCondition

pub record PluginService : Type 0 where
  pub name : String
  pub hook_types : List PluginHookType
  -- function name, input, context
  pub run_function : String → List ℕ → Map String String → Result PluginResult ApiError
  pub health_check : Bool

pub record PluginRegistry : Type 0 where
  pub plugins : Map String PluginService
  pub hooks : Map PluginHookType (List String)

abbrev pub new : PluginRegistry
new = record { plugins = List.[]; hooks = List.[] }

-- `hooks.get(hook_type)`, and no names where there is no entry
abbrev pub names_of : Option (List String) → List String
names_of none = []
names_of (some names) = names

abbrev pub names_at : PluginHookType → Map PluginHookType (List String) → List String
names_at hook hooks = names_of (get hook hooks)

-- the loop over `plugin.hook_types()`: `entry(..).or_default().push(name)`
unfoldable pub add_name :
    String
    → List PluginHookType
    → Map PluginHookType (List String)
    → Map PluginHookType (List String)
add_name name [] hooks = hooks
add_name name (hook ∷ rest) hooks =
    add_name name rest (insert hook (names_at hook hooks ++ (name ∷ [])) hooks)

unfoldable pub register : PluginRegistry → PluginService → PluginRegistry
unfolding add_name
register r plugin = record {
  plugins = insert plugin.name plugin r.plugins;
  hooks = add_name plugin.name plugin.hook_types r.hooks;
}

-- `filter_map(|name| self.plugins.get(name).cloned())`
unfoldable pub services : Map String PluginService → List String → List PluginService
services plugins [] = []
services plugins (name ∷ names) =
    let rest = services plugins names in
    elim (get name plugins) [ none ↦ rest | some plugin ↦ plugin ∷ rest ]

unfoldable pub plugins_for_hook : PluginRegistry → PluginHookType → List PluginService
unfolding services
plugins_for_hook r hook = services r.plugins (names_at hook r.hooks)

-- a condition of severity "error"
unfoldable pub is_fatal : PluginResult → Bool
unfolding is_error
is_fatal result = any (λ c. is_error c.severity) result.conditions

-- `results.push(result)`, before what the later plugins give
abbrev pub with_result :
    PluginResult → Result (List PluginResult) ApiError → Result (List PluginResult) ApiError
with_result result (ok rest) = ok (result ∷ rest)
with_result result (err e) = err e

-- what is called, in order, and what is returned
abbrev pub Run : Type 0
Run = List PluginService × Result (List PluginResult) ApiError

-- the body of the loop of `execute_hook`, given what the rest of the loop would do
unfoldable pub after_run : PluginService → Run → Result PluginResult ApiError → Run
unfolding is_fatal
after_run plugin rest (err e) = (plugin ∷ [], err e)
after_run plugin rest (ok result) =
    if is_fatal result
    then (plugin ∷ [], err (internal "Plugin {} returned fatal error"))
    else (plugin ∷ rest.0, with_result result rest.1)

unfoldable pub execute_all : PluginHookType → List ℕ → Map String String → List PluginService → Run
unfolding after_run show_hook
execute_all hook input context [] = ([], ok [])
execute_all hook input context (plugin ∷ plugins) =
    after_run plugin (execute_all hook input context plugins)
      (plugin.run_function (show_hook hook) input context)

unfoldable pub execute_hook : PluginRegistry → PluginHookType → List ℕ → Map String String → Run
unfolding plugins_for_hook execute_all
execute_hook r hook input context = execute_all hook input context (plugins_for_hook r hook)

unfoldable pub count : PluginRegistry → ℕ
count r = length r.plugins

unfoldable pub list_plugins : PluginRegistry → List String
list_plugins r = map (λ entry. entry.0) r.plugins

unfoldable pub health_check_all : PluginRegistry → Map String Bool
health_check_all r = map (λ entry. (entry.0, entry.1.health_check)) r.plugins
