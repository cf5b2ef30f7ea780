-- ===== src/Component/Changes.antt =====
-- What the operations of a component do to its plugins and to its choice among them.
use mathlib.Core.Option.{some_inj}
use valent.Prelude.{
  ℕ, suc, ◌≡◌, ◌⊎◌, inl, inr, refl, sym, ap, subst, ◌∙◌, arith, true, false, Option, none, some,
  List, [], ◌∷◌, ◌++◌, String, All, Bool-cases, ==_iff, ◌==◌,
}
use valent.Prelude.Int.{ℤ}
use valent.Component.{
  PluginState, active, inactive, error, Initable, async_initable, initable, not_initable, Info,
  Extension, Plugin, Component, candidate_of, candidate, same_object, unexport_at, unexport_adapter,
  export_at, export_adapter, destroy_extension, find_index, is_active, is_inactive, change_plugin,
  set_extension, find_plugin, remove_plugin, new_extension, first_state, start_init, enable_plugin,
  reset_preferred, disable_taken, change_state, update_preferred,
}
use valent.Component.Preferred.{
  candidates, IsPreferred, update_preferred-plugins, update_preferred-IsPreferred,
}

-- The adapter that a caller has chosen.
abbrev pub IsGiven : Option ℕ → Option ℕ → Type 0
IsGiven none primary = ⊥
IsGiven (some id) primary = primary ≡ some id

-- An extension stands only in a plugin whose setting is on.
abbrev pub IsIdle : Plugin → Type 0
IsIdle p = p.enabled ≡ false → p.extension ≡ none

pub All-change :
    (name : ℕ) (f : Plugin → Plugin) (ps : List Plugin)
    → ((p : Plugin) → find_plugin name ps ≡ some p → IsIdle (f p))
    → All IsIdle ps
    → All IsIdle (change_plugin name f ps)
All-change name f [] h a = tt
All-change name f (p ∷ ps) h (a, all) = elim (Bool-cases (p.info.name == name)) [
  | inl e ↦ rw e (h p (rw e refl), all)
  | inr e ↦ rw e (a, All-change name f ps (λ q found. h q (rw e found)) all)
]

pub All-remove : (name : ℕ) (ps : List Plugin) → All IsIdle ps → All IsIdle (remove_plugin name ps)
All-remove name [] all = tt
All-remove name (p ∷ ps) (a, all) = elim (Bool-cases (p.info.name == name)) [
  | inl e ↦ rw e all
  | inr e ↦ rw e (a, All-remove name ps all)
]

pub All-append :
    (ps : List Plugin) (p : Plugin) → All IsIdle ps → IsIdle p → All IsIdle (ps ++ p ∷ [])
All-append [] p all h = (h, tt)
All-append (q ∷ ps) p (a, all) h = (a, All-append ps p all h)

pub find_here :
    (name : ℕ) (p : Plugin) (ps : List Plugin)
    → (p.info.name == name) ≡ true
    → find_plugin name (p ∷ ps) ≡ some p
find_here name p ps h = rw h refl

pub find_later :
    (name : ℕ) (p : Plugin) (ps : List Plugin)
    → (p.info.name == name) ≡ false
    → find_plugin name (p ∷ ps) ≡ find_plugin name ps
find_later name p ps h = rw h refl

pub All-find :
    (name : ℕ) (ps : List Plugin) (p : Plugin)
    → find_plugin name ps ≡ some p
    → All IsIdle ps
    → IsIdle p
All-find name [] p e all = cc
All-find name (q ∷ ps) p e (a, all) = elim (Bool-cases (q.info.name == name)) [
  | inl h ↦ subst IsIdle (some_inj.0 (sym (find_here name q ps h) ∙ e)) a
  | inr h ↦ All-find name ps p (sym (find_later name q ps h) ∙ e) all
]

pub All-change_state :
    (id : ℕ) (s : PluginState) (ps : List Plugin)
    → All IsIdle ps
    → All IsIdle (change_state id s ps)
All-change_state id s [] all = tt
All-change_state id s (p ∷ ps) (a, all) = (λ off. rw (a off) refl, All-change_state id s ps all)

pub find-append :
    (name : ℕ) (ps : List Plugin) (p : Plugin)
    → find_plugin name ps ≡ none
    → p.info.name ≡ name
    → find_plugin name (ps ++ p ∷ []) ≡ some p
find-append name [] p h e = ground (arith, e)
find-append name (q ∷ ps) p h e = elim (Bool-cases (q.info.name == name)) [
  | inl t ↦ let here = find_here name q ps t in cc
  | inr t ↦ rw t (find-append name ps p (sym (find_later name q ps t) ∙ h) e)
]

pub find-change :
    (name : ℕ) (f : Plugin → Plugin) (ps : List Plugin) (p : Plugin)
    → find_plugin name ps ≡ some p
    → ((q : Plugin) → (f q).info ≡ q.info)
    → find_plugin name (change_plugin name f ps) ≡ some (f p)
find-change name f [] p e h = cc
find-change name f (q ∷ ps) p e h = elim (Bool-cases (q.info.name == name)) [
  | inl t ↦ rw t (
      find_here name (f q) ps (ap (λ i. i.name == name) (h q) ∙ t)
      ∙ ap (λ r. some (f r)) (some_inj.0 (sym (find_here name q ps t) ∙ e)))
  | inr t ↦ rw t (
      find_later name q (change_plugin name f ps) t
      ∙ find-change name f ps p (sym (find_later name q ps t) ∙ e) h)
]

pub find_name :
    (name : ℕ) (ps : List Plugin) (p : Plugin) → find_plugin name ps ≡ some p → p.info.name ≡ name
find_name name [] p e = cc
find_name name (q ∷ ps) p e = elim (Bool-cases (q.info.name == name)) [
  | inl t ↦
      ap (λ r. r.info.name) (sym (some_inj.0 (sym (find_here name q ps t) ∙ e)))
      ∙ (==_iff q.info.name name).0 t
  | inr t ↦ find_name name ps p (sym (find_later name q ps t) ∙ e)
]

pub change-change :
    (name : ℕ) (f g : Plugin → Plugin) (ps : List Plugin)
    → ((p : Plugin) → (f p).info ≡ p.info)
    → change_plugin name g (change_plugin name f ps) ≡ change_plugin name (λ p. g (f p)) ps
change-change name f g [] h = refl
change-change name f g (p ∷ ps) h = elim (Bool-cases (p.info.name == name)) [
  | inl e ↦ rw (e, h p, e) refl
  | inr e ↦ rw (e, e, change-change name f g ps h) refl
]

export_at-keeps :
    (o : Option ℕ) (id : ℕ) (c : Component)
    → ((export_at o id c).plugins ≡ c.plugins)
      × ((export_at o id c).primary_adapter ≡ c.primary_adapter)
export_at-keeps none id c = (refl, refl)
export_at-keeps (some i) id c = (refl, refl)

pub export_adapter-keeps :
    (id : ℕ) (c : Component)
    → ((export_adapter id c).plugins ≡ c.plugins)
      × ((export_adapter id c).primary_adapter ≡ c.primary_adapter)
unfolding export_adapter
export_adapter-keeps id c = export_at-keeps (find_index id c.items) id c

unexport_at-keeps :
    (o : Option ℕ) (id : ℕ) (c : Component)
    → ((unexport_at o id c).plugins ≡ c.plugins)
      × ((unexport_at o id c).primary_adapter ≡ c.primary_adapter)
unexport_at-keeps none id c = (refl, refl)
unexport_at-keeps (some i) id c = (refl, refl)

pub unexport_adapter-keeps :
    (id : ℕ) (c : Component)
    → ((unexport_adapter id c).plugins ≡ c.plugins)
      × ((unexport_adapter id c).primary_adapter ≡ c.primary_adapter)
unfolding unexport_adapter
unexport_adapter-keeps id c = unexport_at-keeps (find_index id c.items) id c

module _ (strtoll : String → ℤ) where
  pub candidates-change :
      (name : ℕ) (f : Plugin → Plugin) (ps : List Plugin)
      → ((p : Plugin)
          → find_plugin name ps ≡ some p
          → candidate strtoll (f p) ≡ candidate strtoll p)
      → candidates strtoll (change_plugin name f ps) ≡ candidates strtoll ps
  candidates-change name f [] h = refl
  candidates-change name f (p ∷ ps) h = elim (Bool-cases (p.info.name == name)) [
    | inl e ↦ rw (e, h p (rw e refl)) refl
    | inr e ↦ rw (e, candidates-change name f ps (λ q found. h q (rw e found))) refl
  ]

  pub candidates-remove :
      (name : ℕ) (ps : List Plugin)
      → ((p : Plugin) → find_plugin name ps ≡ some p → candidate strtoll p ≡ none)
      → candidates strtoll (remove_plugin name ps) ≡ candidates strtoll ps
  candidates-remove name [] h = refl
  candidates-remove name (p ∷ ps) h = elim (Bool-cases (p.info.name == name)) [
    | inl e ↦ rw (e, h p (rw e refl)) refl
    | inr e ↦ rw (e, candidates-remove name ps (λ q found. h q (rw e found))) refl
  ]

  pub candidates-append :
      (ps : List Plugin) (p : Plugin)
      → candidate strtoll p ≡ none
      → candidates strtoll (ps ++ p ∷ []) ≡ candidates strtoll ps
  candidates-append [] p h = rw h refl
  candidates-append (q ∷ ps) p h = rw (candidates-append ps p h) refl

  -- The choice is a matter of the primary adapter and the candidates.
  pub IsPreferred-keeps :
      (c c' : Component)
      → c'.primary_adapter ≡ c.primary_adapter
      → candidates strtoll c'.plugins ≡ candidates strtoll c.plugins
      → IsPreferred strtoll c
      → IsPreferred strtoll c'
  IsPreferred-keeps c c' hp hc (r, e, best) = (r, hp ∙ e, rw hc best)

  -- The primary adapter is the best, or the one that a caller has given.
  abbrev pub IsKept : Option ℕ → Component → Type 0
  IsKept given c = IsPreferred strtoll c ⊎ IsGiven given c.primary_adapter

  pub update_preferred-IsKept :
      (given : Option ℕ) (c : Component) → IsKept given (update_preferred strtoll c)
  update_preferred-IsKept given c = inl (update_preferred-IsPreferred strtoll c)

  pub IsKept-keeps :
      (given : Option ℕ) (c c' : Component)
      → c'.primary_adapter ≡ c.primary_adapter
      → candidates strtoll c'.plugins ≡ candidates strtoll c.plugins
      → IsKept given c
      → IsKept given c'
  IsKept-keeps given c c' hp hc (inl best) = inl (IsPreferred-keeps c c' hp hc best)
  IsKept-keeps none c c' hp hc (inr h) = elim h [ ]
  IsKept-keeps (some id) c c' hp hc (inr h) = inr (hp ∙ h)

  inactive_not_active : (s : PluginState) → is_inactive s ≡ true → is_active s ≡ false
  inactive_not_active active h = cc
  inactive_not_active inactive h = refl
  inactive_not_active error h = cc

  pub destroy_extension-plugins :
      (e : Extension) (c : Component) → (destroy_extension strtoll e c).plugins ≡ c.plugins
  unfolding destroy_extension
  destroy_extension-plugins e c =
      let kept = unexport_adapter-keeps e.id c in
      elim (Bool-cases (is_inactive e.plugin_state)) [
        | inl h ↦ rw h kept.0
        | inr h ↦ rw h (update_preferred-plugins strtoll (unexport_adapter e.id c) ∙ kept.0)
      ]

  pub destroy_extension-IsKept :
      (given : Option ℕ) (e : Extension) (c : Component)
      → (is_active e.plugin_state ≡ false → IsKept given c)
      → IsKept given (destroy_extension strtoll e c)
  unfolding destroy_extension
  destroy_extension-IsKept given e c before =
      let kept = unexport_adapter-keeps e.id c in
      elim (Bool-cases (is_inactive e.plugin_state)) [
        | inl h ↦ rw h (
            IsKept-keeps given c (unexport_adapter e.id c) kept.1 (ap (candidates strtoll) kept.0)
              (before (inactive_not_active e.plugin_state h)))
        | inr h ↦ rw h (update_preferred-IsKept given (unexport_adapter e.id c))
      ]

  start_init-plugins :
      (k : Initable) (id : ℕ) (c : Component) → (start_init strtoll k id c).plugins ≡ c.plugins
  start_init-plugins async_initable id c = refl
  start_init-plugins initable id c = refl
  start_init-plugins not_initable id c = update_preferred-plugins strtoll c

  start_init-IsKept :
      (given : Option ℕ) (k : Initable) (id : ℕ) (c : Component)
      → (first_state k ≡ inactive → IsKept given c)
      → IsKept given (start_init strtoll k id c)
  start_init-IsKept given async_initable id c h = h refl
  start_init-IsKept given initable id c h = h refl
  start_init-IsKept given not_initable id c h = update_preferred-IsKept given c

  candidate_of_inactive :
      (info : Info) (id : ℕ) (k : Initable)
      → first_state k ≡ inactive
      → candidate_of strtoll info (some (new_extension id k)) ≡ none
  candidate_of_inactive info id k h = rw h refl

  -- A component whose plugin has got a new extension.
  abbrev with_new_extension : Info → Component → Component
  with_new_extension info c = record c {
    plugins =
        change_plugin info.name (set_extension (some (new_extension c.fresh info.kind))) c.plugins;
    fresh = suc c.fresh;
  }

  pub without_extension : (p : Plugin) → p.extension ≡ none → candidate strtoll p ≡ none
  without_extension p h = rw h refl

  -- The extension that a plugin gets when it is enabled is not active where it has to be
  -- initialised, so that the choice may wait.
  pub enable_plugin-IsKept :
      (given : Option ℕ) (info : Info) (c : Component)
      → ((p : Plugin) → find_plugin info.name c.plugins ≡ some p → p.extension ≡ none)
      → IsKept given c
      → IsKept given (enable_plugin strtoll info c)
  unfolding enable_plugin
  enable_plugin-IsKept given info c found before =
      let c1 = with_new_extension info c in
      let kept = export_adapter-keeps c.fresh c1 in
      elim (Bool-cases info.creates) [
        | inl h ↦ rw h (
            start_init-IsKept given info.kind c.fresh (export_adapter c.fresh c1) (λ waits.
              IsKept-keeps given c (export_adapter c.fresh c1) kept.1
                (ap (candidates strtoll) kept.0
                  ∙ candidates-change info.name
                      (set_extension (some (new_extension c.fresh info.kind))) c.plugins
                      (λ p e.
                        candidate_of_inactive p.info c.fresh info.kind waits
                        ∙ sym (without_extension p (found p e))))
                before))
        | inr h ↦ rw h (
            IsKept-keeps given c
              (record c { plugins = change_plugin info.name (set_extension none) c.plugins }) refl
              (candidates-change info.name (set_extension none) c.plugins
                (λ p e. sym (without_extension p (found p e))))
              before)
      ]

  pub enable_plugin-plugins :
      (info : Info) (c : Component)
      → (e : Option Extension) × ((enable_plugin strtoll info c).plugins
          ≡ change_plugin info.name (set_extension e) c.plugins)
  unfolding enable_plugin
  enable_plugin-plugins info c =
      let c1 = with_new_extension info c in
      elim (Bool-cases info.creates) [
        | inl h ↦ rw h (
          some (new_extension c.fresh info.kind),
          start_init-plugins info.kind c.fresh (export_adapter c.fresh c1)
              ∙ (export_adapter-keeps c.fresh c1).0,
        )
        | inr h ↦ rw h (none, refl)
      ]

  reset_preferred-plugins :
      (e : Extension) (c : Component) → (reset_preferred strtoll e c).plugins ≡ c.plugins
  reset_preferred-plugins e c = elim (Bool-cases (same_object c.primary_adapter (some e.id))) [
    | inl h ↦ rw h (update_preferred-plugins strtoll c)
    | inr h ↦ rw h refl
  ]

  reset_preferred-IsKept :
      (given : Option ℕ) (e : Extension) (c : Component)
      → IsKept given c
      → IsKept given (reset_preferred strtoll e c)
  reset_preferred-IsKept given e c before =
      elim (Bool-cases (same_object c.primary_adapter (some e.id))) [
        | inl h ↦ rw h (update_preferred-IsKept given c)
        | inr h ↦ rw h before
      ]

  pub not_active :
      (info : Info) (e : Extension)
      → is_active e.plugin_state ≡ false
      → candidate_of strtoll info (some e) ≡ none
  not_active info e h = rw h refl

  pub disable_taken-IsKept :
      (given : Option ℕ) (info : Info) (e : Extension) (c : Component)
      → ((p : Plugin) → find_plugin info.name c.plugins ≡ some p → p.extension ≡ some e)
      → IsKept given c
      → IsKept given (disable_taken strtoll info (some e) c)
  disable_taken-IsKept given info e c found before =
      let c1 = record c { plugins = change_plugin info.name (set_extension none) c.plugins } in
      destroy_extension-IsKept given e (reset_preferred strtoll e c1) (λ quiet.
        reset_preferred-IsKept given e c1 (
          IsKept-keeps given c c1 refl
            (candidates-change info.name (set_extension none) c.plugins (λ p h.
              sym (ap (candidate_of strtoll p.info) (found p h) ∙ not_active p.info e quiet)))
            before))

  pub disable_taken-plugins :
      (info : Info) (o : Option Extension) (c : Component)
      → (disable_taken strtoll info o c).plugins ≡ elim o [
        | none ↦ c.plugins
        | some e ↦ change_plugin info.name (set_extension none) c.plugins
      ]
  disable_taken-plugins info none c = refl
  disable_taken-plugins info (some e) c =
      let c1 = record c { plugins = change_plugin info.name (set_extension none) c.plugins } in
      destroy_extension-plugins e (reset_preferred strtoll e c1) ∙ reset_preferred-plugins e c1
