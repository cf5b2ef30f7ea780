-- ===== src/Device/Plugins/Handlers.antt =====
-- The packet handlers of a plugin that comes and goes, in src/libvalent/device/valent-device.c.
use mathlib.Core.List.{append_assoc, append-nil}
use valent.Prelude.{
  ℕ, zero, suc, ◌≡◌, ◌≢◌, refl, sym, ap, ◌∙◌, inl, inr, true, false, Option, none, some, List, [],
  ◌∷◌, ◌++◌, arith, String, str_eq, eq_iff, if◌then◌else◌, All, Bool-cases, Option-cases,
}
use valent.Device.State.{PluginInfo, Device}
use valent.Device.Plugins.{
  held, Handlers, add_handler, remove_handler, erase, keep_nonempty, add_handlers, remove_handlers,
  enable_plugin, disable_plugin, unload_plugin, capabilities,
}

-- How often a type is named.
abbrev pub times : String → List String → ℕ
times k [] = 0
times k (c ∷ cs) = if str_eq c k then suc (times k cs) else times k cs

abbrev bump : ℕ → ℕ → Option (List ℕ) → Option (List ℕ)
bump e zero o = o
bump e (suc n) o = bump e n (some (held o ++ e ∷ []))

abbrev drop_one : ℕ → Option (List ℕ) → Option (List ℕ)
drop_one e none = none
drop_one e (some l) = keep_nonempty (erase e l)

abbrev drop_some : ℕ → ℕ → Option (List ℕ) → Option (List ℕ)
drop_some e zero o = o
drop_some e (suc n) o = drop_some e n (drop_one e o)

abbrev pub repeat : ℕ → ℕ → List ℕ
repeat zero e = []
repeat (suc n) e = e ∷ repeat n e

add_handler-same :
    (e : ℕ) (c k : String) (h : Handlers)
    → str_eq c k ≡ true
    → add_handler e c h k ≡ some (held (h k) ++ e ∷ [])
unfolding add_handler
add_handler-same e c k h y =
    let same : c ≡ k = (eq_iff c k).0 y in
    rw y (ap (λ (x : String). some (held (h x) ++ e ∷ [])) same)

add_handler-other :
    (e : ℕ) (c k : String) (h : Handlers) → str_eq c k ≡ false → add_handler e c h k ≡ h k
unfolding add_handler
add_handler-other e c k h n = rw n refl

remove_handler-same :
    (e : ℕ) (c k : String) (h : Handlers)
    → str_eq c k ≡ true
    → remove_handler e c h k ≡ drop_one e (h k)
unfolding remove_handler
remove_handler-same e c k h y =
    let same : h c ≡ h k = ap h ((eq_iff c k).0 y) in
    elim (Option-cases (h c)) [
      | inl f ↦ rw (remove_handler, f, sym same ∙ f) refl
      | inr (l, f) ↦ rw (remove_handler, f, y, sym same ∙ f) refl
    ]

remove_handler-other :
    (e : ℕ) (c k : String) (h : Handlers) → str_eq c k ≡ false → remove_handler e c h k ≡ h k
unfolding remove_handler
remove_handler-other e c k h n = elim (Option-cases (h c)) [
  | inl f ↦ rw (remove_handler, f) refl
  | inr (l, f) ↦ rw (remove_handler, f, n) refl
]

add_handlers-bump :
    (e : ℕ) (cs : List String) (h : Handlers) (k : String)
    → add_handlers e cs h k ≡ bump e (times k cs) (h k)
unfolding add_handlers
add_handlers-bump e [] h k = refl
add_handlers-bump e (c ∷ cs) h k = elim (Bool-cases (str_eq c k)) [
  | inl y ↦
      add_handlers-bump e cs (add_handler e c h) k
      ∙ ap (bump e (times k cs)) (add_handler-same e c k h y)
      ∙ rw y refl
  | inr n ↦
      add_handlers-bump e cs (add_handler e c h) k
      ∙ ap (bump e (times k cs)) (add_handler-other e c k h n)
      ∙ rw n refl
]

remove_handlers-drop_some :
    (e : ℕ) (cs : List String) (h : Handlers) (k : String)
    → remove_handlers e cs h k ≡ drop_some e (times k cs) (h k)
unfolding remove_handlers
remove_handlers-drop_some e [] h k = refl
remove_handlers-drop_some e (c ∷ cs) h k = elim (Bool-cases (str_eq c k)) [
  | inl y ↦
      remove_handlers-drop_some e cs (remove_handler e c h) k
      ∙ ap (drop_some e (times k cs)) (remove_handler-same e c k h y)
      ∙ rw y refl
  | inr n ↦
      remove_handlers-drop_some e cs (remove_handler e c h) k
      ∙ ap (drop_some e (times k cs)) (remove_handler-other e c k h n)
      ∙ rw n refl
]

bump-repeat : (e n : ℕ) (o : Option (List ℕ)) → bump e (suc n) o ≡ some (held o ++ repeat (suc n) e)
bump-repeat e zero o = refl
bump-repeat e (suc n) o =
    bump-repeat e n (some (held o ++ e ∷ []))
    ∙ ap (λ (l : List ℕ). some l) (append_assoc (held o) (e ∷ []) (repeat (suc n) e))

erase_first : (e : ℕ) (l rest : List ℕ) → All (λ x. x ≢ e) l → erase e (l ++ e ∷ rest) ≡ l ++ rest
unfolding erase
erase_first e [] rest a = ground arith
erase_first e (x ∷ l) rest (n, a) = ground (arith, erase_first e l rest a)

keep_nonempty-some :
    (l : List ℕ) (x : ℕ) (m : List ℕ) → keep_nonempty (l ++ x ∷ m) ≡ some (l ++ x ∷ m)
keep_nonempty-some [] x m = refl
keep_nonempty-some (y ∷ l) x m = refl

drop_some-repeat :
    (e n : ℕ) (l : List ℕ)
    → All (λ x. x ≢ e) l
    → drop_some e (suc n) (some (l ++ repeat (suc n) e)) ≡ keep_nonempty l
drop_some-repeat e zero l a = ap keep_nonempty (erase_first e l [] a ∙ append-nil l)
drop_some-repeat e (suc n) l a =
    ap (λ (o : Option (List ℕ)). drop_some e (suc n) o)
      (ap keep_nonempty (erase_first e l (repeat (suc n) e) a)
        ∙ keep_nonempty-some l e (repeat n e))
    ∙ drop_some-repeat e n l a

keep_nonempty-held : (o : Option (List ℕ)) → o ≢ some [] → keep_nonempty (held o) ≡ o
keep_nonempty-held none n = refl
keep_nonempty-held (some []) n = absurd (n refl)
keep_nonempty-held (some (x ∷ l)) n = refl

drop_some-bump :
    (e n : ℕ) (o : Option (List ℕ))
    → All (λ x. x ≢ e) (held o)
    → o ≢ some []
    → drop_some e n (bump e n o) ≡ o
drop_some-bump e zero o a m = refl
drop_some-bump e (suc n) o a m =
    ap (drop_some e (suc n)) (bump-repeat e n o)
    ∙ drop_some-repeat e n (held o) a
    ∙ keep_nonempty-held o m

-- Handlers that are registered for an extension and then unregistered leave the table as it was,
-- with types that are named more than once too: provided that the extension was not registered
-- before, and that the table holds no empty array.
pub remove_handlers-add_handlers :
    (e : ℕ) (cs : List String) (h : Handlers) (k : String)
    → All (λ x. x ≢ e) (held (h k))
    → h k ≢ some []
    → remove_handlers e cs (add_handlers e cs h) k ≡ h k
remove_handlers-add_handlers e cs h k a m =
    remove_handlers-drop_some e cs (add_handlers e cs h) k
    ∙ ap (drop_some e (times k cs)) (add_handlers-bump e cs h k)
    ∙ drop_some-bump e (times k cs) (h k) a m

-- A plugin that is enabled and then disabled, as its extension was made, leaves every packet type
-- with the handlers that it had, provided that the extension is new to the type and that the table
-- holds no empty array.
pub disable_plugin-enable_plugin :
    (d : Device) (info : PluginInfo) (k : String)
    → All (λ x. x ≢ d.registry.fresh) (held (d.registry.handlers k))
    → d.registry.handlers k ≢ some []
    → (disable_plugin (enable_plugin d info) info d.registry.fresh).registry.handlers k
      ≡ d.registry.handlers k
unfolding disable_plugin enable_plugin
disable_plugin-enable_plugin d info k a m =
    remove_handlers-add_handlers d.registry.fresh (capabilities info.incoming) d.registry.handlers k
      a m

-- A plugin that is enabled and then unloaded stays registered: the types that it named `n + 1`
-- times still have its extension at the end of their handlers, as often.
pub unload_plugin-enable_plugin :
    (d : Device) (info : PluginInfo) (k : String) (n : ℕ)
    → times k (capabilities info.incoming) ≡ suc n
    → (unload_plugin (enable_plugin d info) info).registry.handlers k
      ≡ some (held (d.registry.handlers k) ++ repeat (suc n) d.registry.fresh)
unfolding unload_plugin enable_plugin
unload_plugin-enable_plugin d info k n e =
    add_handlers-bump d.registry.fresh (capabilities info.incoming) d.registry.handlers k
    ∙ ap (λ (m : ℕ). bump d.registry.fresh m (d.registry.handlers k)) e
    ∙ bump-repeat d.registry.fresh n (d.registry.handlers k)
