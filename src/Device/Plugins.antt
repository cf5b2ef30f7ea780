-- ===== src/Device/Plugins.antt =====
-- The plugins of a device and their packet handlers in src/libvalent/device/valent-device.c.
use text.Mathlib.Text.{◌==◌}
pub mod Handlers
use valent.Prelude.{
  ℕ, suc, Bool, true, false, not, ◌&&◌, ◌||◌, Option, none, some, List, [], ◌∷◌, ◌++◌, String,
  if◌then◌else◌, ◌==◌ as nat_eq,
}
use valent.Device.State.{PluginInfo, Plugin, Device, Env, emit, get_state, state_updated, is_some}

-- g_strv_contains()
unfoldable pub contains : List String → String → Bool
contains [] s = false
contains (x ∷ xs) s = x == s || contains xs s

-- Whether one of the plugin's capabilities is one of the device's.
unfoldable pub any_in : List String → List String → Bool
unfolding contains
any_in device [] = false
any_in device (c ∷ cs) = contains device c || any_in device cs

abbrev in_some : List String → Option (List String) → Bool
in_some device none = false
in_some device (some cs) = any_in device cs

abbrev matches : Option (List String) → Option (List String) → PluginInfo → Bool
matches none outgoing info = false
matches (some incoming) none info = false
matches (some incoming) (some outgoing) info =
    in_some incoming info.outgoing || in_some outgoing info.incoming

unfoldable pub supports_plugin : Device → PluginInfo → Bool
unfolding any_in
supports_plugin d info =
    if not info.provides_device_plugin
    then false
    else if not (is_some info.incoming) && not (is_some info.outgoing)
    then true
    else matches d.incoming_capabilities d.outgoing_capabilities info

abbrev pub held : Option (List ℕ) → List ℕ
held none = []
held (some l) = l

abbrev pub Handlers : Type 0
Handlers = String → Option (List ℕ)

-- The array of a type, made if there is none, with the extension at its end.
unfoldable pub add_handler : ℕ → String → Handlers → Handlers
add_handler e type h k = if type == k then some (held (h type) ++ e ∷ []) else h k

-- g_ptr_array_remove() takes the first occurrence.
unfoldable pub erase : ℕ → List ℕ → List ℕ
erase e [] = []
erase e (x ∷ xs) = if nat_eq x e then xs else x ∷ erase e xs

abbrev pub keep_nonempty : List ℕ → Option (List ℕ)
keep_nonempty [] = none
keep_nonempty (x ∷ xs) = some (x ∷ xs)

-- An array that is empty then is removed from the table.
unfoldable pub remove_handler : ℕ → String → Handlers → Handlers
unfolding erase
remove_handler e type h k = elim (h type) [
  | none ↦ h k
  | some l ↦ if type == k then keep_nonempty (erase e l) else h k
]

unfoldable pub add_handlers : ℕ → List String → Handlers → Handlers
unfolding add_handler
add_handlers e [] h = h
add_handlers e (c ∷ cs) h = add_handlers e cs (add_handler e c h)

unfoldable pub remove_handlers : ℕ → List String → Handlers → Handlers
unfolding remove_handler
remove_handlers e [] h = h
remove_handlers e (c ∷ cs) h = remove_handlers e cs (remove_handler e c h)

abbrev pub capabilities : Option (List String) → List String
capabilities none = []
capabilities (some cs) = cs

-- The plugin of that name gets, or loses, its extension.
unfoldable pub set_extension : String → Option ℕ → List Plugin → List Plugin
set_extension n e [] = []
set_extension n e (p ∷ ps) =
    if p.info.module_name == n then record p { extension = e } ∷ ps else p ∷ set_extension n e ps

unfoldable pub enable_plugin : Device → PluginInfo → Device
enable_plugin d info =
    let e = d.registry.fresh in
    let d' = record d {
      registry = record {
        plugins = set_extension info.module_name (some e) d.registry.plugins;
        handlers = add_handlers e (capabilities info.incoming) d.registry.handlers;
        fresh = suc e;
      };
    } in
    emit (state_updated e (get_state d')) d'

-- `e` is the extension of the plugin.
unfoldable pub disable_plugin : Device → PluginInfo → ℕ → Device
disable_plugin d info e = record d {
  registry = record {
    plugins = set_extension info.module_name none d.registry.plugins;
    handlers = remove_handlers e (capabilities info.incoming) d.registry.handlers;
    fresh = d.registry.fresh;
  };
}

unfoldable pub find_plugin : String → List Plugin → Option Plugin
find_plugin n [] = none
find_plugin n (p ∷ ps) = if p.info.module_name == n then some p else find_plugin n ps

unfoldable pub remove_plugin : String → List Plugin → List Plugin
remove_plugin n [] = []
remove_plugin n (p ∷ ps) = if p.info.module_name == n then ps else p ∷ remove_plugin n ps

abbrev pub with_plugins : Device → List Plugin → Device
with_plugins d ps = record d {
  registry = record { plugins = ps; handlers = d.registry.handlers; fresh = d.registry.fresh };
}

abbrev pub add_plugin : Device → PluginInfo → Device
add_plugin d info = with_plugins d (record { info = info; extension = none } ∷ d.registry.plugins)

-- on_load_plugin()
unfoldable pub load_plugin : Env → Device → PluginInfo → Device
load_plugin env d info =
    if not (supports_plugin d info)
    then d
    else if env.enabled info.module_name
    then enable_plugin (add_plugin d info) info
    else add_plugin d info

-- on_unload_plugin(): the table frees the plugin, and with it the extension.
unfoldable pub unload_plugin : Device → PluginInfo → Device
unload_plugin d info = with_plugins d (remove_plugin info.module_name d.registry.plugins)

unfoldable pub reload_one : Env → Device → PluginInfo → Device
reload_one env d info =
    if not (is_some (find_plugin info.module_name d.registry.plugins))
    then load_plugin env d info
    else if not (supports_plugin d info)
    then unload_plugin d info
    else d

unfoldable pub reload_each : Env → List PluginInfo → Device → Device
reload_each env [] d = d
reload_each env (info ∷ rest) d = reload_each env rest (reload_one env d info)

-- valent_device_reload_plugins()
unfoldable pub reload_plugins : Env → Device → Device
reload_plugins env d = reload_each env env.engine d
