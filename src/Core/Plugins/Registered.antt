-- ===== src/Core/Plugins/Registered.antt =====
-- What a registration adds to the hooks.
use mathlib.Core.List.{append-nil, append_assoc}
use reinhardt_cloud.Base.{
  String, Option, none, some, List, [], ◌∷◌, ◌++◌, map, filter, All, All-append, ◌≡◌, refl, sym, ap,
  ◌∙◌, inl, inr, string_eq, ==_refl, All-imp, ◌==◌, if◌then◌else◌, Bool-cases,
}
use reinhardt_cloud.Base.Map.{Map, get, insert, get-insert}
use reinhardt_cloud.Core.Plugins.Defs.{
  PluginHookType, hook_eq, hook_beq_iff, PluginService, PluginRegistry, names_of, names_at,
  add_name, register, services, plugins_for_hook, new,
}

-- the name, once for each time that the hook is among the types
abbrev pub copies : String → PluginHookType → List PluginHookType → List String
copies name hook types = map (λ _. name) (filter (λ h. h == hook) types)

names_at-insert :
    (h hook : PluginHookType) (names : List String) (hooks : Map PluginHookType (List String))
    → names_at hook (insert h names hooks) ≡ (if h == hook then names else names_at hook hooks)
names_at-insert h hook names hooks =
    let found = ap names_of (get-insert h hook names hooks) in
    elim (Bool-cases (h == hook)) [
      | inl same ↦ rw same (rw same at found)
      | inr other ↦ rw other (rw other at found)
    ]

add_name_lem :
    (name : String) (types : List PluginHookType) (hooks : Map PluginHookType (List String))
    (hook : PluginHookType)
    → names_at hook (add_name name types hooks) ≡ names_at hook hooks ++ copies name hook types
unfolding add_name
add_name_lem name [] hooks hook = sym (append-nil (names_at hook hooks))
add_name_lem name (h ∷ types) hooks hook =
    let longer = insert h (names_at h hooks ++ (name ∷ [])) hooks in
    let inserted = names_at-insert h hook (names_at h hooks ++ (name ∷ [])) hooks in
    let later = add_name_lem name types longer hook in
    elim (Bool-cases (h == hook)) [
      | inl same ↦
          let e : h ≡ hook = (hook_beq_iff h hook).0 same in
          let now : names_at hook longer ≡ names_at hook hooks ++ (name ∷ []) =
            (rw same at inserted) ∙ ap (λ k. names_at k hooks ++ (name ∷ [])) e in
          rw same (
            later
            ∙ ap (λ l. l ++ copies name hook types) now
            ∙ append_assoc (names_at hook hooks) (name ∷ []) (copies name hook types))
      | inr other ↦
          let now : names_at hook longer ≡ names_at hook hooks = rw other at inserted in
          rw other (later ∙ ap (λ l. l ++ copies name hook types) now)
    ]

abbrev pub register_all : PluginRegistry → List PluginService → PluginRegistry
register_all r [] = r
register_all r (p ∷ ps) = register_all (register r p) ps

-- the names that registrations put at a hook
abbrev pub listed : PluginHookType → List PluginService → List String
listed hook [] = []
listed hook (p ∷ ps) = copies p.name hook p.hook_types ++ listed hook ps

-- the plugin that was registered last under a name, or what was there before
abbrev pub latest_after : Option PluginService → String → List PluginService → Option PluginService
latest_after o name [] = o
latest_after o name (p ∷ ps) = latest_after (if p.name == name then some p else o) name ps

abbrev pub latest : String → List PluginService → Option PluginService
latest name ps = latest_after none name ps

names_at-register_all :
    (r : PluginRegistry) (ps : List PluginService) (hook : PluginHookType)
    → names_at hook (register_all r ps).hooks ≡ names_at hook r.hooks ++ listed hook ps
unfolding register
names_at-register_all r [] hook = sym (append-nil (names_at hook r.hooks))
names_at-register_all r (p ∷ ps) hook =
    names_at-register_all (register r p) ps hook
    ∙ ap (λ l. l ++ listed hook ps) (add_name_lem p.name p.hook_types r.hooks hook)
    ∙ append_assoc (names_at hook r.hooks) (copies p.name hook p.hook_types) (listed hook ps)

get-register_all :
    (r : PluginRegistry) (ps : List PluginService) (name : String)
    → get name (register_all r ps).plugins ≡ latest_after (get name r.plugins) name ps
unfolding register
get-register_all r [] name = refl
get-register_all r (p ∷ ps) name =
    get-register_all (register r p) ps name
    ∙ ap (λ o. latest_after o name ps) (get-insert p.name name p r.plugins)

-- something is registered under the name
abbrev Present : List PluginService → Option PluginService → String → Type 0
Present ps o name = (p : PluginService) × (latest_after o name ps ≡ some p)

some-Present :
    (ps : List PluginService) (q : PluginService) (name : String) → Present ps (some q) name
some-Present [] q name = (q, refl)
some-Present (p ∷ ps) q name = elim (Bool-cases (p.name == name)) [
  | inl same ↦ rw same (some-Present ps p name)
  | inr other ↦ rw other (some-Present ps q name)
]

later-Present :
    (p : PluginService) (ps : List PluginService) (name : String)
    → Present ps none name
    → Present (p ∷ ps) none name
later-Present p ps name h = elim (Bool-cases (p.name == name)) [
  | inl same ↦ rw same (some-Present ps p name)
  | inr other ↦ rw other h
]

copies-All {ℓ} :
    (P : String → Type ℓ) (name : String)
    → P name
    → (xs : List PluginHookType) → All P (map (λ _. name) xs)
copies-All P name h [] = tt
copies-All P name h (x ∷ xs) = (h, copies-All P name h xs)

-- every name that is listed has a plugin
listed-Present :
    (hook : PluginHookType) (ps : List PluginService) → All (Present ps none) (listed hook ps)
listed-Present hook [] = tt
listed-Present hook (p ∷ ps) =
    let own : Present (p ∷ ps) none p.name = rw (==_refl p.name) (some-Present ps p p.name) in
    All-append (Present (p ∷ ps) none) (copies p.name hook p.hook_types) (listed hook ps)
      (copies-All (Present (p ∷ ps) none) p.name own (filter (λ h. h == hook) p.hook_types))
      (All-imp _ _ (listed hook ps) (λ n h. later-Present p ps n h) (listed-Present hook ps))

-- the plugins of names that all have one
services_lem :
    (plugins : Map String PluginService) (find : String → Option PluginService)
    → ((name : String) → get name plugins ≡ find name)
    → (names : List String) → All (λ n. (p : PluginService) × (find n ≡ some p)) names
    → map (λ p. some p) (services plugins names) ≡ map find names
unfolding services
services_lem plugins find same [] h = refl
services_lem plugins find same (name ∷ names) h =
    let (p, here) = h.0 in
    let found : get name plugins ≡ some p = same name ∙ here in
    rw (found, services)
      (ap (λ o. o ∷ map (λ q. some q) (services plugins names)) (sym here)
        ∙ ap (λ l. find name ∷ l) (services_lem plugins find same names h.1))

-- After any registrations the plugins of a hook are, in the order of the registrations and once for
-- each time that a registration lists the hook, the plugins that were registered last under the
-- names of those registrations: none is missing, and a plugin whose name is registered again is
-- replaced by the new one wherever its name stands.
pub register_all_lem :
    (ps : List PluginService) (hook : PluginHookType)
    → map (λ p. some p) (plugins_for_hook (register_all new ps) hook)
      ≡ map (λ name. latest name ps) (listed hook ps)
unfolding plugins_for_hook get
register_all_lem ps hook =
    let names : names_at hook (register_all new ps).hooks ≡ listed hook ps =
      names_at-register_all new ps hook in
    ap (λ ns. map (λ p. some p) (services (register_all new ps).plugins ns)) names
    ∙ services_lem (register_all new ps).plugins (λ name. latest name ps)
        (λ name. get-register_all new ps name) (listed hook ps) (listed-Present hook ps)
