-- ===== src/Component.antt =====
-- Components, src/libvalent/core/valent-component.c with valent-component-private.h and the plugin
-- state of valent-extension.c: the plugins of a component, the adapters that it exports, and the
-- choice of its primary adapter.
pub mod Preferred
pub mod Changes
pub mod Settled
pub mod Histories
use valent.Prelude.{
  ℕ, zero, suc, Bool, true, false, not, Option, none, some, List, [], ◌∷◌, ◌++◌, String,
  if◌then◌else◌, ◌==◌, length,
}
use valent.Prelude.Int.{ℤ, pos, ltb_ℤ}

-- ValentPluginState
pub data PluginState : Type 0 where
  active inactive error : PluginState

-- Which of the interfaces for failable initialisation an extension has.
pub data Initable : Type 0 where
  async_initable initable not_initable : Initable

-- A PeasPluginInfo. `provides` and `creates` are what the plugin engine answers for the extension
-- type of the component.
pub record Info : Type 0 where
  pub name : ℕ
  pub priority : Option String
  pub provides : Bool
  pub creates : Bool
  pub kind : Initable

-- What the component reads of a ValentExtension; `id` is the object.
pub record Extension : Type 0 where
  pub id : ℕ
  pub plugin_state : PluginState

-- ValentPlugin; `enabled` is the setting.
pub record Plugin : Type 0 where
  pub info : Info
  pub enabled : Bool
  pub extension : Option Extension

-- What the component calls: the methods of its class, the signals, and an initialisation.
pub data Call : Type 0 where
  bind_extension unbind_extension : ℕ → Call
  bind_preferred : Option ℕ → Call
  notify_primary_adapter : Call
  items_changed : ℕ → ℕ → ℕ → Call
  init : ℕ → Call

-- ValentComponentPrivate. The plugins stand in the order of the hash table; `fresh` is above the
-- objects that exist.
pub record Component : Type 0 where
  pub plugins : List Plugin
  pub primary_adapter : Option ℕ
  pub items : List ℕ
  pub fresh : ℕ
  pub calls : List Call

abbrev pub is_active : PluginState → Bool
is_active active = true
is_active inactive = false
is_active error = false

abbrev pub is_inactive : PluginState → Bool
is_inactive active = false
is_inactive inactive = true
is_inactive error = false

abbrev pub same_object : Option ℕ → Option ℕ → Bool
same_object none none = true
same_object none (some y) = false
same_object (some x) none = false
same_object (some x) (some y) = x == y

abbrev pub called : Call → Component → Component
called call c = record c { calls = c.calls ++ call ∷ [] }

abbrev pub find_index : ℕ → List ℕ → Option ℕ
find_index id [] = none
find_index id (x ∷ xs) =
    let rest = find_index id xs in
    if x == id then some 0 else elim rest [ none ↦ none | some i ↦ some (suc i) ]

-- g_ptr_array_remove_index()
abbrev pub remove_nth : ℕ → List ℕ → List ℕ
remove_nth n [] = []
remove_nth zero (x ∷ xs) = xs
remove_nth (suc n) (x ∷ xs) = x ∷ remove_nth n xs

-- valent_component_export_adapter(), with the place where the adapter is found.
abbrev pub export_at : Option ℕ → ℕ → Component → Component
export_at (some position) id c = c
export_at none id c =
    called (items_changed (length c.items) 0 1)
      (record (called (bind_extension id) c) { items = c.items ++ id ∷ [] })

unfoldable pub export_adapter : ℕ → Component → Component
export_adapter id c = export_at (find_index id c.items) id c

-- valent_component_unexport_adapter()
abbrev pub unexport_at : Option ℕ → ℕ → Component → Component
unexport_at none id c = c
unexport_at (some position) id c =
    called (items_changed position 1 0)
      (record (called (unbind_extension id) c) { items = remove_nth position c.items })

unfoldable pub unexport_adapter : ℕ → Component → Component
unexport_adapter id c = unexport_at (find_index id c.items) id c

abbrev pub better : Option (ℕ × ℤ) → Option (ℕ × ℤ) → Option (ℕ × ℤ)
better best none = best
better none (some x) = some x
better (some b) (some x) = if ltb_ℤ x.1 b.1 then some x else some b

abbrev pub object_of : Option (ℕ × ℤ) → Option ℕ
object_of none = none
object_of (some (id, priority)) = some id

abbrev pub set_preferred : Option ℕ → Component → Component
set_preferred extension c =
    if same_object c.primary_adapter extension
    then c
    else called notify_primary_adapter
        (called (bind_preferred extension) (record c { primary_adapter = extension }))

-- The state of a new extension: valent_extension_constructed().
abbrev pub first_state : Initable → PluginState
first_state async_initable = inactive
first_state initable = inactive
first_state not_initable = active

-- peas_engine_create_extension()
abbrev pub new_extension : ℕ → Initable → Extension
new_extension id kind = record { id = id; plugin_state = first_state kind }

abbrev pub new_plugin : Info → Bool → Plugin
new_plugin info enabled = record { info = info; enabled = enabled; extension = none }

-- A component before its plugins are loaded: valent_component_init() and the first part of
-- valent_component_constructed(), whose loop loads the plugins that the engine has loaded.
abbrev pub constructed : Component
constructed = record { plugins = []; primary_adapter = none; items = []; fresh = 0; calls = [] }

-- A change to the plugin of a module.
abbrev pub change_plugin : ℕ → (Plugin → Plugin) → List Plugin → List Plugin
change_plugin name f [] = []
change_plugin name f (p ∷ ps) =
    let rest = change_plugin name f ps in if p.info.name == name then f p ∷ ps else p ∷ rest

abbrev pub set_extension : Option Extension → Plugin → Plugin
set_extension e p = record p { extension = e }

abbrev pub find_plugin : ℕ → List Plugin → Option Plugin
find_plugin name [] = none
find_plugin name (p ∷ ps) =
    let rest = find_plugin name ps in if p.info.name == name then some p else rest

abbrev pub remove_plugin : ℕ → List Plugin → List Plugin
remove_plugin name [] = []
remove_plugin name (p ∷ ps) =
    let rest = remove_plugin name ps in if p.info.name == name then ps else p ∷ rest

abbrev pub same_state : PluginState → PluginState → Bool
same_state active s = is_active s
same_state inactive s = is_inactive s
same_state error s = false

abbrev pub set_state : ℕ → PluginState → Option Extension → Option Extension
set_state id s none = none
set_state id s (some e) = if e.id == id then some (record e { plugin_state = s }) else some e

abbrev pub change_state : ℕ → PluginState → List Plugin → List Plugin
change_state id s [] = []
change_state id s (p ∷ ps) =
    record p { extension = set_state id s p.extension } ∷ change_state id s ps

abbrev pub owns : ℕ → Option Extension → Bool
owns id none = false
owns id (some e) = e.id == id

abbrev pub state_of : ℕ → List Plugin → Option PluginState
state_of id [] = none
state_of id (p ∷ ps) =
    let rest = state_of id ps in
    if owns id p.extension
    then elim p.extension [ none ↦ none | some e ↦ some e.plugin_state ]
    else rest

-- `strtoll` is g_ascii_strtoll() in base 10.
module _ (strtoll : String → ℤ) where
  -- _peas_plugin_info_get_priority()
  unfoldable pub get_priority : Info → ℤ
  get_priority info = elim info.priority [ none ↦ pos 0 | some text ↦ strtoll text ]

  -- An extension that is active, with its priority.
  abbrev pub candidate_of : Info → Option Extension → Option (ℕ × ℤ)
  candidate_of info none = none
  candidate_of info (some e) =
      if is_active e.plugin_state then some (e.id, get_priority info) else none

  abbrev pub candidate : Plugin → Option (ℕ × ℤ)
  candidate p = candidate_of p.info p.extension

  -- The loop of valent_component_update_preferred().
  unfoldable pub prefer : List Plugin → Option (ℕ × ℤ) → Option (ℕ × ℤ)
  prefer [] best = best
  prefer (p ∷ ps) best = prefer ps (better best (candidate p))

  unfoldable pub update_preferred : Component → Component
  update_preferred c = set_preferred (object_of (prefer c.plugins none)) c

  -- valent_extension_destroy() of an extension that no plugin has any more: the signal first
  -- unexports it, and a state that was not inactive is announced.
  unfoldable pub destroy_extension : Extension → Component → Component
  destroy_extension e c =
      let c' = unexport_adapter e.id c in
      if is_inactive e.plugin_state then c' else update_preferred c'

  unfoldable pub set_primary_adapter : Option ℕ → Component → Component
  set_primary_adapter extension c =
      if same_object c.primary_adapter extension then c else elim extension [
        | none ↦ update_preferred (record c { primary_adapter = none })
        | some id ↦ called notify_primary_adapter (record c { primary_adapter = some id })
      ]

  -- The initialisation is a call; what the extension does in it are later changes of its state.
  abbrev pub start_init : Initable → ℕ → Component → Component
  start_init async_initable id c = called (init id) c
  start_init initable id c = called (init id) c
  start_init not_initable id c = update_preferred c

  unfoldable pub enable_plugin : Info → Component → Component
  enable_plugin info c =
      if not info.creates
      then record c { plugins = change_plugin info.name (set_extension none) c.plugins }
      else start_init info.kind c.fresh (
          export_adapter c.fresh (record c {
            plugins =
                change_plugin info.name (set_extension (some (new_extension c.fresh info.kind)))
                  c.plugins;
            fresh = suc c.fresh;
          }))

  abbrev pub reset_preferred : Extension → Component → Component
  reset_preferred e c = if same_object c.primary_adapter (some e.id) then update_preferred c else c

  abbrev pub disable_taken : Info → Option Extension → Component → Component
  disable_taken info none c = c
  disable_taken info (some e) c = destroy_extension e (
      reset_preferred e
        (record c { plugins = change_plugin info.name (set_extension none) c.plugins }))

  unfoldable pub disable_plugin : Plugin → Component → Component
  disable_plugin p c = disable_taken p.info p.extension c

  -- on_plugin_enabled_changed(), after the setting of a plugin has got a new value.
  abbrev pub toggle : Bool → Option Plugin → Component → Component
  toggle enabled none c = c
  toggle enabled (some p) c =
      let c' = record c {
        plugins = change_plugin p.info.name (λ q. record q { enabled = enabled }) c.plugins;
      } in
      if enabled then enable_plugin p.info c' else disable_plugin p c'

  unfoldable pub on_plugin_enabled_changed : ℕ → Bool → Component → Component
  on_plugin_enabled_changed name enabled c = toggle enabled (find_plugin name c.plugins) c

  -- on_load_plugin(), with the setting of the plugin. The engine loads no plugin twice.
  unfoldable pub on_load_plugin : Info → Bool → Component → Component
  on_load_plugin info enabled c =
      if not info.provides
      then c
      else let c' = record c { plugins = c.plugins ++ new_plugin info enabled ∷ [] } in
        if enabled then enable_plugin info c' else c'

  -- valent_plugin_free() of a plugin that is out of the table.
  abbrev pub plugin_free : Option Extension → Component → Component
  plugin_free none c = c
  plugin_free (some e) c = destroy_extension e c

  abbrev pub unload : Option Plugin → Component → Component
  unload none c = c
  unload (some p) c =
      plugin_free p.extension (record c { plugins = remove_plugin p.info.name c.plugins })

  unfoldable pub on_unload_plugin : Info → Component → Component
  on_unload_plugin info c =
      if not info.provides then c else unload (find_plugin info.name c.plugins) c

  unfoldable pub free_each : List Plugin → Component → Component
  free_each [] c = c
  free_each (p ∷ ps) c = free_each ps (plugin_free p.extension c)

  -- valent_component_destroy(): the hash table is empty when its plugins are freed.
  unfoldable pub destroy : Component → Component
  destroy c = free_each c.plugins (record c { plugins = [] })

  -- valent_extension_plugin_state_changed() with its signal to on_plugin_state_changed(): an error
  -- is announced even when it is not the first.
  abbrev pub announce_state : ℕ → PluginState → Option PluginState → Component → Component
  announce_state id s none c = c
  announce_state id s (some old) c =
      if same_state s old
      then c
      else update_preferred (record c { plugins = change_state id s c.plugins })

  unfoldable pub plugin_state_changed : ℕ → PluginState → Component → Component
  plugin_state_changed id s c = announce_state id s (state_of id c.plugins) c
