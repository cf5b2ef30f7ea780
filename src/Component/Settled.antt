-- ===== src/Component/Settled.antt =====
-- What each operation of src/libvalent/core/valent-component.c leaves of a component whose primary
-- adapter is settled.
use mathlib.Core.Option.{some_inj}
use valent.Prelude.{
  ℕ, ◌≡◌, inl, inr, refl, sym, ap, ◌∙◌, Bool, true, false, not, Option, none, some, [], ◌∷◌, ◌++◌,
  String, All, Bool-cases, if◌then◌else◌,
}
use valent.Prelude.Int.{ℤ}
use valent.Component.{
  PluginState, Info, Extension, Plugin, Component, candidate, candidate_of, change_plugin,
  set_extension, find_plugin, remove_plugin, enable_plugin, disable_taken, new_plugin,
  set_extension, disable_plugin, toggle, on_load_plugin, plugin_free, unload, on_unload_plugin,
  announce_state, change_state, same_state,
}
use valent.Component.Preferred.{candidates, update_preferred-plugins}
use valent.Component.Changes.{
  IsIdle, All-change, All-remove, All-append, All-find, All-change_state, find-append,
  change-change, candidates-change, candidates-remove, candidates-append, IsKept, IsKept-keeps,
  update_preferred-IsKept, destroy_extension-plugins, destroy_extension-IsKept,
  enable_plugin-plugins, enable_plugin-IsKept, disable_taken-plugins, disable_taken-IsKept,
  find-change, find_name, not_active,
}

either_way :
    (P : Component → Type 0) (b : Bool) (c d : Component) → P c → P d → P (if b then c else d)
either_way P true c d h h' = h
either_way P false c d h h' = h'

module _ (strtoll : String → ℤ) where
  -- What holds of a component at any time.
  abbrev pub IsSettled : Option ℕ → Component → Type 0
  IsSettled given c = IsKept strtoll given c × All IsIdle c.plugins

  pub IsSettled-keeps :
      (given : Option ℕ) (c c' : Component)
      → (c'.plugins ≡ c.plugins) × (c'.primary_adapter ≡ c.primary_adapter)
      → IsSettled given c
      → IsSettled given c'
  IsSettled-keeps given c c' (hp, ha) (best, idle) =
      (IsKept-keeps strtoll given c c' ha (ap (candidates strtoll) hp) best, rw hp idle)

  pub plugin_state_changed-IsSettled :
      (given : Option ℕ) (id : ℕ) (s : PluginState) (o : Option PluginState) (c : Component)
      → IsSettled given c
      → IsSettled given (announce_state strtoll id s o c)
  plugin_state_changed-IsSettled given id s none c settled = settled
  plugin_state_changed-IsSettled given id s (some old) c settled =
      let c1 = record c { plugins = change_state id s c.plugins } in
      elim (Bool-cases (same_state s old)) [
        | inl h ↦ rw h settled
        | inr h ↦ rw h (
          update_preferred-IsKept strtoll given c1,
          rw (update_preferred-plugins strtoll c1) (All-change_state id s c.plugins settled.1),
        )
      ]

  -- A plugin leaves the table and loses its extension.
  pub plugin_free-IsSettled :
      (given : Option ℕ) (o : Option Extension) (c c1 : Component)
      → c1.primary_adapter ≡ c.primary_adapter
      → (((info : Info) → candidate_of strtoll info o ≡ none)
          → candidates strtoll c1.plugins ≡ candidates strtoll c.plugins)
      → IsSettled given c
      → All IsIdle c1.plugins
      → IsSettled given (plugin_free strtoll o c1)
  plugin_free-IsSettled given none c c1 hp hc settled idle =
      (IsKept-keeps strtoll given c c1 hp (hc (λ info. refl)) settled.0, idle)
  plugin_free-IsSettled given (some e) c c1 hp hc settled idle = (
    destroy_extension-IsKept strtoll given e c1 (λ quiet.
        IsKept-keeps strtoll given c c1 hp (hc (λ info. not_active strtoll info e quiet))
          settled.0),
    rw (destroy_extension-plugins strtoll e c1) idle,
  )

  pub unload-IsSettled :
      (given : Option ℕ) (name : ℕ) (o : Option Plugin) (c : Component)
      → find_plugin name c.plugins ≡ o
      → IsSettled given c
      → IsSettled given (unload strtoll o c)
  unload-IsSettled given name none c found settled = settled
  unload-IsSettled given name (some p) c found settled = rw (find_name name c.plugins p found) (
      plugin_free-IsSettled given p.extension c
        (record c { plugins = remove_plugin name c.plugins }) refl
        (λ quiet.
          candidates-remove strtoll name c.plugins
            (λ q h. ap (candidate strtoll) (some_inj.0 (sym h ∙ found)) ∙ quiet p.info))
        settled (All-remove name c.plugins settled.1))

  pub on_unload_plugin-IsSettled :
      (given : Option ℕ) (info : Info) (c : Component)
      → IsSettled given c
      → IsSettled given (on_unload_plugin strtoll info c)
  unfolding on_unload_plugin
  on_unload_plugin-IsSettled given info c settled = elim (Bool-cases info.provides) [
    | inl h ↦
        rw h (unload-IsSettled given info.name (find_plugin info.name c.plugins) c refl settled)
    | inr h ↦ rw h settled
  ]

  -- A plugin whose setting is on, without an extension so far, is enabled.
  pub enable_plugin-IsSettled :
      (given : Option ℕ) (info : Info) (c : Component) (p : Plugin)
      → find_plugin info.name c.plugins ≡ some p
      → p.extension ≡ none
      → p.enabled ≡ true
      → IsSettled given c
      → IsSettled given (enable_plugin strtoll info c)
  enable_plugin-IsSettled given info c p found h on settled =
      let (e, same) = enable_plugin-plugins strtoll info c in
      (
        enable_plugin-IsKept strtoll given info c
            (λ q other. ap (λ r. r.extension) (some_inj.0 (sym other ∙ found)) ∙ h) settled.0,
        rw same (
            All-change info.name (set_extension e) c.plugins
              (λ q other off.
                let bad = sym on ∙ ap (λ r. r.enabled) (some_inj.0 (sym found ∙ other)) ∙ off in cc)
              settled.1),
      )

  pub start_loaded :
      (given : Option ℕ) (enabled : Bool) (info : Info) (c : Component)
      → find_plugin info.name c.plugins ≡ some (new_plugin info enabled)
      → IsSettled given c
      → IsSettled given (if enabled then enable_plugin strtoll info c else c)
  start_loaded given true info c found settled =
      enable_plugin-IsSettled given info c (new_plugin info true) found refl refl settled
  start_loaded given false info c found settled = settled

  pub on_load_plugin-IsSettled :
      (given : Option ℕ) (info : Info) (enabled : Bool) (c : Component)
      → find_plugin info.name c.plugins ≡ none
      → IsSettled given c
      → IsSettled given (on_load_plugin strtoll info enabled c)
  unfolding on_load_plugin
  on_load_plugin-IsSettled given info enabled c h settled =
      let p = new_plugin info enabled in
      let c1 = record c { plugins = c.plugins ++ p ∷ [] } in
      let settled1 : IsSettled given c1 = (
        IsKept-keeps strtoll given c c1 refl (candidates-append strtoll c.plugins p refl) settled.0,
        All-append c.plugins p settled.1 (λ off. refl),
      ) in
      either_way (IsSettled given) (not info.provides) c
        (if enabled then enable_plugin strtoll info c1 else c1) settled
        (start_loaded given enabled info c1 (find-append info.name c.plugins p h refl) settled1)

  -- The setting of a plugin, before the extension follows.
  abbrev set_enabled : Bool → Plugin → Plugin
  set_enabled enabled p = record p { enabled = enabled }

  abbrev switched : ℕ → Bool → Component → Component
  switched name enabled c = record c {
    plugins = change_plugin name (set_enabled enabled) c.plugins;
  }

  pub switched-IsKept :
      (given : Option ℕ) (name : ℕ) (enabled : Bool) (c : Component)
      → IsKept strtoll given c
      → IsKept strtoll given (switched name enabled c)
  switched-IsKept given name enabled c =
      IsKept-keeps strtoll given c (switched name enabled c) refl
        (candidates-change strtoll name (set_enabled enabled) c.plugins (λ p found. refl))

  pub enable-IsSettled :
      (given : Option ℕ) (p : Plugin) (c : Component)
      → find_plugin p.info.name c.plugins ≡ some p
      → p.enabled ≡ false
      → IsSettled given c
      → IsSettled given (enable_plugin strtoll p.info (switched p.info.name true c))
  enable-IsSettled given p c found off settled =
      enable_plugin-IsSettled given p.info (switched p.info.name true c) (set_enabled true p)
        (find-change p.info.name (set_enabled true) c.plugins p found (λ q. refl))
        (All-find p.info.name c.plugins p found settled.1 off) refl
        (
          switched-IsKept given p.info.name true c settled.0,
          All-change p.info.name (set_enabled true) c.plugins (λ q other bad. cc) settled.1,
        )

  pub disable-IsSettled :
      (given : Option ℕ) (p : Plugin) (o : Option Extension) (c : Component)
      → find_plugin p.info.name c.plugins ≡ some p
      → p.extension ≡ o
      → IsSettled given c
      → IsSettled given (disable_taken strtoll p.info o (switched p.info.name false c))
  disable-IsSettled given p none c found h settled = (
    switched-IsKept given p.info.name false c settled.0,
    All-change p.info.name (set_enabled false) c.plugins
        (λ q other off. ap (λ r. r.extension) (some_inj.0 (sym other ∙ found)) ∙ h) settled.1,
  )
  disable-IsSettled given p (some e) c found h settled = (
    disable_taken-IsKept strtoll given p.info e (switched p.info.name false c)
        (λ q other.
          ap (λ r. r.extension)
            (some_inj.0 (
              sym other
              ∙ find-change p.info.name (set_enabled false) c.plugins p found (λ r. refl)))
          ∙ h)
        (switched-IsKept given p.info.name false c settled.0),
    rw
        (
          disable_taken-plugins strtoll p.info (some e) (switched p.info.name false c),
          change-change p.info.name (set_enabled false) (set_extension none) c.plugins (λ q. refl),
        )
        (All-change p.info.name (λ q. set_extension none (set_enabled false q)) c.plugins
          (λ q other off. refl) settled.1),
  )

  pub toggle-IsSettled :
      (given : Option ℕ) (p : Plugin) (enabled : Bool) (c : Component)
      → find_plugin p.info.name c.plugins ≡ some p
      → p.enabled ≡ not enabled
      → IsSettled given c
      → IsSettled given (toggle strtoll enabled (some p) c)
  unfolding disable_plugin
  toggle-IsSettled given p true c found h settled = enable-IsSettled given p c found h settled
  toggle-IsSettled given p false c found h settled =
      disable-IsSettled given p p.extension c found refl settled
