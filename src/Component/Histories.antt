-- ===== src/Component/Histories.antt =====
-- The histories of a component: its plugins are loaded, unloaded, switched, and
-- change their state, and a caller sets its primary adapter.
use valent.Prelude.{
  ℕ, ◌≡◌, ◌⊎◌, inl, inr, refl, sym, ap, subst, ◌∙◌, Bool, not, Option, none, some, List, [], ◌∷◌,
  String, Bool-cases,
}
use valent.Prelude.Int.{ℤ}
use valent.Component.{
  PluginState, Info, Extension, Plugin, Component, candidate_of, export_adapter, unexport_adapter,
  find_plugin, on_plugin_enabled_changed, on_load_plugin, plugin_free, on_unload_plugin, free_each,
  destroy, plugin_state_changed, state_of, object_of, constructed, destroy_extension,
  set_primary_adapter, same_object,
}
use valent.Component.Preferred.{
  candidates, IsBest, IsPreferred, update_preferred-plugins, same_object_lem,
}
use valent.Component.Changes.{
  IsKept, IsGiven, update_preferred-IsKept, destroy_extension-plugins, destroy_extension-IsKept,
  find_name, not_active, without_extension, export_adapter-keeps, unexport_adapter-keeps,
}
use valent.Component.Settled.{
  IsSettled, IsSettled-keeps, plugin_state_changed-IsSettled, on_unload_plugin-IsSettled,
  on_load_plugin-IsSettled, toggle-IsSettled,
}

module _ (strtoll : String → ℤ) where
  -- What happens to a component: a plugin is loaded that is not there yet, a plugin is unloaded,
  -- a setting gets another value, an extension changes its state, or an adapter is exported.
  pub data Step (c : Component) : Component → Type 0 where
    load :
        (info : Info) (enabled : Bool)
        → find_plugin info.name c.plugins ≡ none
        → Step c (on_load_plugin strtoll info enabled c)
    unload_plugin : (info : Info) → Step c (on_unload_plugin strtoll info c)
    switch :
        (name : ℕ) (p : Plugin) (enabled : Bool)
        → find_plugin name c.plugins ≡ some p
        → p.enabled ≡ not enabled
        → Step c (on_plugin_enabled_changed strtoll name enabled c)
    change : (id : ℕ) (s : PluginState) → Step c (plugin_state_changed strtoll id s c)
    export : (id : ℕ) → Step c (export_adapter id c)
    unexport : (id : ℕ) → Step c (unexport_adapter id c)

  -- With the adapter that the last call of the setter has given, if there was one.
  pub data History (c : Component) : Option ℕ → Component → Type 0 where
    start : History c none c
    step : {given : Option ℕ} {d e : Component} → History c given d → Step d e → History c given e
    choose :
        {given : Option ℕ} {d : Component} (extension : Option ℕ)
        → History c given d
        → History c extension (set_primary_adapter strtoll extension d)

  Step-IsSettled :
      (given : Option ℕ) {c d : Component}
      → Step c d
      → IsSettled strtoll given c
      → IsSettled strtoll given d
  unfolding on_plugin_enabled_changed plugin_state_changed
  Step-IsSettled given {c} (load info enabled h) settled =
      on_load_plugin-IsSettled strtoll given info enabled c h settled
  Step-IsSettled given {c} (unload_plugin info) settled =
      on_unload_plugin-IsSettled strtoll given info c settled
  Step-IsSettled given {c} (switch name p enabled found h) settled = rw found (
      toggle-IsSettled strtoll given p enabled c
        (subst (λ n. find_plugin n c.plugins ≡ some p) (sym (find_name name c.plugins p found))
          found)
        h settled)
  Step-IsSettled given {c} (change id s) settled =
      plugin_state_changed-IsSettled strtoll given id s (state_of id c.plugins) c settled
  Step-IsSettled given {c} (export id) settled =
      IsSettled-keeps strtoll given c (export_adapter id c) (export_adapter-keeps id c) settled
  Step-IsSettled given {c} (unexport id) settled =
      IsSettled-keeps strtoll given c (unexport_adapter id c) (unexport_adapter-keeps id c) settled

  -- Where there is no primary adapter, none was given.
  not_given :
      (given : Option ℕ) (c : Component)
      → c.primary_adapter ≡ none
      → IsKept strtoll given c
      → IsKept strtoll none c
  not_given given c h (inl best) = inl best
  not_given none c h (inr bad) = inr bad
  not_given (some id) c h (inr e) = let bad : none ≡ some id = sym h ∙ e in cc

  -- After a call of the setter.
  set_primary_adapter-IsSettled :
      (given extension : Option ℕ) (c : Component)
      → IsSettled strtoll given c
      → IsSettled strtoll extension (set_primary_adapter strtoll extension c)
  unfolding set_primary_adapter
  set_primary_adapter-IsSettled given (some id) c (kept, idle) =
      elim (Bool-cases (same_object c.primary_adapter (some id))) [
        | inl h ↦ rw h (inr (same_object_lem c.primary_adapter (some id) h), idle)
        | inr h ↦ rw h (inr refl, idle)
      ]
  set_primary_adapter-IsSettled given none c (kept, idle) =
      elim (Bool-cases (same_object c.primary_adapter none)) [
        | inl h ↦ rw h (not_given given c (same_object_lem c.primary_adapter none h) kept, idle)
        | inr h ↦ rw h (
          update_preferred-IsKept strtoll none (record c { primary_adapter = none }),
          rw (update_preferred-plugins strtoll (record c { primary_adapter = none })) idle,
        )
      ]

  History-IsSettled :
      {c : Component} {given : Option ℕ} {d : Component}
      → History c given d
      → IsSettled strtoll none c
      → IsSettled strtoll given d
  History-IsSettled start settled = settled
  History-IsSettled {given} (step history last) settled =
      Step-IsSettled given last (History-IsSettled history settled)
  History-IsSettled (choose {given} {d} extension history) settled =
      set_primary_adapter-IsSettled given extension d (History-IsSettled history settled)

  preferred_of_none : (r : Option (ℕ × ℤ)) (o : Option ℕ) → o ≡ object_of r → IsBest r [] → o ≡ none
  preferred_of_none none o e best = e
  preferred_of_none (some b) o e (all, found) = elim found [ ]

  preferred_empty :
      (c : Component) → c.plugins ≡ [] → IsPreferred strtoll c → c.primary_adapter ≡ none
  preferred_empty c empty (r, e, best) =
      preferred_of_none r c.primary_adapter e
        (subst (λ ps. IsBest r (candidates strtoll ps)) empty best)

  IsPreferred-without :
      (c : Component) → c.plugins ≡ [] → c.primary_adapter ≡ none → IsPreferred strtoll c
  IsPreferred-without c empty h = (none, h, ap (candidates strtoll) empty)

  -- Where nothing was given.
  best_of : (c : Component) → IsKept strtoll none c → IsPreferred strtoll c
  best_of c (inl best) = best
  best_of c (inr bad) = elim bad [ ]

  plugin_free_lem :
      (p : Plugin) (o : Option Extension) (ps : List Plugin) (c : Component)
      → p.extension ≡ o
      → c.plugins ≡ []
      → (candidates strtoll (p ∷ ps) ≡ [] → c.primary_adapter ≡ none)
      → ((plugin_free strtoll o c).plugins ≡ [])
        × (candidates strtoll ps ≡ [] → (plugin_free strtoll o c).primary_adapter ≡ none)
  plugin_free_lem p none ps c e empty h =
      (empty, λ none_left. h (rw (without_extension strtoll p e) none_left))
  plugin_free_lem p (some e) ps c has empty h =
      let freed = destroy_extension-plugins strtoll e c ∙ empty in
      (
        freed,
        λ none_left. preferred_empty (destroy_extension strtoll e c) freed (
            best_of (destroy_extension strtoll e c) (
              destroy_extension-IsKept strtoll none e c (λ quiet. inl (
                IsPreferred-without c empty (
                  h (
                    rw (ap (candidate_of strtoll p.info) has ∙ not_active strtoll p.info e quiet)
                      none_left)))))),
      )

  free_each_lem :
      (ps : List Plugin) (c : Component)
      → c.plugins ≡ []
      → (candidates strtoll ps ≡ [] → c.primary_adapter ≡ none)
      → (free_each strtoll ps c).primary_adapter ≡ none
  unfolding free_each
  free_each_lem [] c empty h = h refl
  free_each_lem (p ∷ ps) c empty h =
      let freed = plugin_free_lem p p.extension ps c refl empty h in
      free_each_lem ps (plugin_free strtoll p.extension c) freed.0 freed.1

  destroy-none :
      (c : Component) → IsPreferred strtoll c → (destroy strtoll c).primary_adapter ≡ none
  unfolding destroy
  destroy-none c (r, e, best) =
      free_each_lem c.plugins (record c { plugins = [] }) refl
        (λ none_left. preferred_of_none r c.primary_adapter e (subst (IsBest r) none_left best))

  destroyed :
      (given : Option ℕ) (c : Component)
      → IsKept strtoll given c
      → ((destroy strtoll c).primary_adapter ≡ none) ⊎ ((id : ℕ) × (given ≡ some id))
  destroyed none c kept = inl (destroy-none c (best_of c kept))
  destroyed (some id) c kept = inr (id, refl)

  -- In every history of a new component, its primary adapter is the object of an active extension
  -- of its plugins whose priority no other active extension undercuts, or there is none if no
  -- extension is active; or the last call of the setter has given an adapter, and it still is the
  -- primary one. Once the component is destroyed it has no primary adapter, unless that call has given
  -- one.
  pub History-IsPreferred :
      (given : Option ℕ) (c : Component)
      → History constructed given c
      → (IsPreferred strtoll c ⊎ IsGiven given c.primary_adapter)
        × (((destroy strtoll c).primary_adapter ≡ none) ⊎ ((id : ℕ) × (given ≡ some id)))
  History-IsPreferred given c history =
      let settled = History-IsSettled history (inl (none, refl, refl), tt) in
      (settled.0, destroyed given c settled.0)
