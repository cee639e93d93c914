-- ===== src/Core/Plugins/Executed.antt =====
-- What a run of the plugins of a hook calls and returns.
use reinhardt_cloud.Base.{
  ℕ, String, true, false, List, [], ◌∷◌, ◌++◌, ◌≡◌, ◌⊎◌, refl, ap, inl, inr, Bool-cases,
}
use reinhardt_cloud.Base.Map.{Map}
use reinhardt_cloud.Base.Result.{Result, ok, err}
use reinhardt_cloud.Core.ApiError.{ApiError, internal}
use reinhardt_cloud.Core.Plugins.Defs.{
  PluginHookType, PluginService, PluginResult, PluginRegistry, show_hook, is_fatal, Run,
  with_result, after_run, execute_all, execute_hook, plugins_for_hook,
}

module _ (hook : PluginHookType) (input : List ℕ) (context : Map String String) where
  -- the answer of a plugin at this hook
  abbrev pub answer : PluginService → Result PluginResult ApiError
  answer p = p.run_function (show_hook hook) input context

  -- each plugin answered, in order, and no answer is fatal
  abbrev pub Answers : List PluginService → List PluginResult → Type 0
  Answers [] [] = Unit
  Answers (p ∷ ps) (r ∷ rs) = (answer p ≡ ok r) × ((is_fatal r ≡ false) × Answers ps rs)
  Answers _ _ = ⊥

  -- the plugin refuses, or its answer is fatal
  abbrev pub Fails : PluginService → ApiError → Type 0
  Fails p e =
      (answer p ≡ err e)
      ⊎ ((r : PluginResult) × ((answer p ≡ ok r)
            × ((is_fatal r ≡ true) × (e ≡ internal "Plugin {} returned fatal error"))))

  -- what a run does
  abbrev pub Runs :
      List PluginService → List PluginService → Result (List PluginResult) ApiError → Type 0
  Runs plugins called (ok results) = (called ≡ plugins) × Answers plugins results
  Runs plugins called (err e) =
      (before : List PluginService) × ((results : List PluginResult) × ((p : PluginService)
          × ((after : List PluginService) × ((plugins ≡ before ++ p ∷ after)
                × ((called ≡ before ++ p ∷ []) × (Answers before results × Fails p e))))))

  -- what a run of the rest makes of a run of all
  with_result-Runs :
      (p : PluginService) (ps called : List PluginService) (r : PluginResult)
      (rest : Result (List PluginResult) ApiError)
      → answer p ≡ ok r
      → is_fatal r ≡ false
      → Runs ps called rest
      → Runs (p ∷ ps) (p ∷ called) (with_result r rest)
  with_result-Runs p ps called r (ok rs) a f (same, answers) =
      (ap (λ l. p ∷ l) same, (a, (f, answers)))
  with_result-Runs p ps called r (err e) a f
        (before, (results, (q, (after, (split, (calls, (answers, fails))))))) =
      (
        p ∷ before,
        (
          r ∷ results,
          (
            q,
            (after, (ap (λ l. p ∷ l) split, (ap (λ l. p ∷ l) calls, ((a, (f, answers)), fails)))),
          ),
        ),
      )

  after_run-Runs :
      (p : PluginService) (ps : List PluginService) (rest : Run) (a : Result PluginResult ApiError)
      → answer p ≡ a
      → Runs ps rest.0 rest.1
      → Runs (p ∷ ps) (after_run p rest a).0 (after_run p rest a).1
  unfolding after_run
  after_run-Runs p ps rest (err e) h k = ([], ([], (p, (ps, (refl, (refl, (tt, inl h)))))))
  after_run-Runs p ps rest (ok r) h k = elim (Bool-cases (is_fatal r)) [
    | inl fatal ↦
        rw (fatal, after_run)
          ([], ([], (p, (ps, (refl, (refl, (tt, inr (r, (h, (fatal, refl))))))))))
    | inr fine ↦ rw (fine, after_run) (with_result-Runs p ps rest.0 r rest.1 h fine k)
  ]

  execute_all-Runs :
      (plugins : List PluginService)
      → Runs plugins
          (execute_all hook input context plugins).0
          (execute_all hook input context plugins).1
  unfolding execute_all
  execute_all-Runs [] = (refl, tt)
  execute_all-Runs (p ∷ ps) =
      after_run-Runs p ps (execute_all hook input context ps) (answer p) refl (execute_all-Runs ps)

  -- A hook either calls all of its plugins in order, once each, and returns their answers, none of
  -- which is fatal, or it stops at the first plugin that refuses or answers with a condition of
  -- severity "error", calls none after it, and returns its error.
  pub execute_hook-Runs :
      (r : PluginRegistry)
      → Runs
          (plugins_for_hook r hook)
          (execute_hook r hook input context).0
          (execute_hook r hook input context).1
  unfolding execute_hook
  execute_hook-Runs r = execute_all-Runs (plugins_for_hook r hook)
