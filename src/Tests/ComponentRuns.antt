-- ===== src/Tests/ComponentRuns.antt =====
-- Components at concrete inputs.
use valent.Prelude.{ℕ, ◌≡◌, ◌⊎◌, refl, true, none, some, String, str_eq, if◌then◌else◌}
use valent.Prelude.Int.{ℤ, pos}
use valent.Component.{
  active, initable, not_initable, Info, Component, constructed, on_load_plugin,
  plugin_state_changed, destroy, export_adapter, update_preferred, prefer, get_priority,
  enable_plugin, set_primary_adapter,
}
use valent.Component.Preferred.{IsPreferred}
use valent.Component.Changes.{IsGiven}
use valent.Component.Histories.{start, step, choose, load, change, History, History-IsPreferred}

abbrev strtoll : String → ℤ
strtoll text = if str_eq text "10" then pos 10 else pos 20

abbrev gtk : Info
gtk = record {
  name = 1;
  priority = some "20";
  provides = true;
  creates = true;
  kind = not_initable;
}

abbrev pipewire : Info
pipewire = record {
  name = 2;
  priority = some "10";
  provides = true;
  creates = true;
  kind = initable;
}

abbrev loaded : Component
loaded = on_load_plugin strtoll pipewire true (on_load_plugin strtoll gtk true constructed)

abbrev ready : Component
ready = plugin_state_changed strtoll 1 active loaded

loaded_primary : loaded.primary_adapter ≡ some 0
unfolding on_load_plugin enable_plugin export_adapter update_preferred prefer get_priority
loaded_primary = refl

ready_primary : ready.primary_adapter ≡ some 1
unfolding plugin_state_changed on_load_plugin enable_plugin export_adapter update_preferred prefer
    get_priority
ready_primary = refl

-- A caller chooses the first adapter, and then leaves the choice to the component.
abbrev chosen : Component
chosen = set_primary_adapter strtoll (some 0) ready

abbrev released : Component
released = set_primary_adapter strtoll none chosen

released-History : History strtoll constructed none released
unfolding on_load_plugin enable_plugin export_adapter update_preferred prefer get_priority
released-History = choose none (
    choose (some 0)
      (step (step (step start (load gtk true refl)) (load pipewire true refl)) (change 1 active)))

history-IsPreferred_example :
    (IsPreferred strtoll released ⊎ IsGiven none released.primary_adapter)
    × (((destroy strtoll released).primary_adapter ≡ none) ⊎ ((id : ℕ) × (none ≡ some id)))
history-IsPreferred_example = History-IsPreferred strtoll none released released-History
