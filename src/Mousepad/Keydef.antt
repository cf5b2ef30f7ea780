-- ===== src/Mousepad/Keydef.antt =====
-- The special keys and the modifiers of src/plugins/mousepad/valent-mousepad-keydef.c. Its tables
-- between keysyms and Unicode are those of GTK.
use valent.Prelude.{
  ℕ, zero, suc, Bool, true, false, ◌||◌, Option, none, some, List, [], ◌∷◌, if◌then◌else◌, ◌==◌,
  get_elem?, ◌&&◌, ltb, refl, ◌≡◌, ◌≢◌, ◌<◌, arith, Bool-cases, ==_iff, ap, subst, ltb→lt, ◌∙◌, ◌≤◌,
  length, inl, inr,
}
use valent.Mousepad.Keysym.{
  keysym_iso_level3_shift, keysym_iso_level3_latch, keysym_iso_level5_shift,
  keysym_iso_level5_latch, keysym_iso_enter, keysym_overlay1_enable, keysym_overlay2_enable,
  keysym_back_space, keysym_tab, keysym_linefeed, keysym_return, keysym_scroll_lock, keysym_sys_req,
  keysym_escape, keysym_home, keysym_left, keysym_up, keysym_right, keysym_down, keysym_page_up,
  keysym_page_down, keysym_end, keysym_mode_switch, keysym_kp_tab, keysym_kp_enter, keysym_kp_home,
  keysym_kp_left, keysym_kp_up, keysym_kp_right, keysym_kp_down, keysym_kp_page_up,
  keysym_kp_page_down, keysym_kp_end, keysym_kp_delete, keysym_f1, keysym_f2, keysym_f3, keysym_f4,
  keysym_f5, keysym_f6, keysym_f7, keysym_f8, keysym_f9, keysym_f10, keysym_f11, keysym_f12,
  keysym_shift_l, keysym_shift_r, keysym_control_l, keysym_control_r, keysym_caps_lock,
  keysym_shift_lock, keysym_meta_l, keysym_meta_r, keysym_alt_l, keysym_alt_r, keysym_super_l,
  keysym_super_r, keysym_hyper_l, keysym_hyper_r, keysym_delete,
}

-- The table of valent_mousepad_keycode_to_keysym().
abbrev pub keymap : List ℕ
keymap =
    0 ∷ keysym_back_space ∷ keysym_tab ∷ keysym_linefeed ∷ keysym_left ∷ keysym_up ∷ keysym_right
    ∷ keysym_down ∷ keysym_page_up ∷ keysym_page_down ∷ keysym_home ∷ keysym_end ∷ keysym_return
    ∷ keysym_delete ∷ keysym_escape ∷ keysym_sys_req ∷ keysym_scroll_lock ∷ 0 ∷ 0 ∷ 0 ∷ 0
    ∷ keysym_f1 ∷ keysym_f2 ∷ keysym_f3 ∷ keysym_f4 ∷ keysym_f5 ∷ keysym_f6 ∷ keysym_f7 ∷ keysym_f8
    ∷ keysym_f9 ∷ keysym_f10 ∷ keysym_f11 ∷ keysym_f12 ∷ []

abbrev pub or_zero : Option ℕ → ℕ
or_zero none = 0
or_zero (some n) = n

unfoldable pub keycode_to_keysym : ℕ → ℕ
keycode_to_keysym keycode = or_zero (get_elem? keymap keycode)

-- The labels of the switch in valent_mousepad_keysym_to_keycode(), each with the value returned.
abbrev pub labels : List (ℕ × ℕ)
labels =
    (keysym_back_space, 1)
    ∷ (keysym_tab, 2)
    ∷ (keysym_kp_tab, 2)
    ∷ (keysym_linefeed, 3)
    ∷ (keysym_left, 4)
    ∷ (keysym_kp_left, 4)
    ∷ (keysym_up, 5)
    ∷ (keysym_kp_up, 5)
    ∷ (keysym_right, 6)
    ∷ (keysym_kp_right, 6)
    ∷ (keysym_down, 7)
    ∷ (keysym_kp_down, 7)
    ∷ (keysym_page_up, 8)
    ∷ (keysym_kp_page_up, 8)
    ∷ (keysym_page_down, 9)
    ∷ (keysym_kp_page_down, 9)
    ∷ (keysym_home, 10)
    ∷ (keysym_kp_home, 10)
    ∷ (keysym_end, 11)
    ∷ (keysym_kp_end, 11)
    ∷ (keysym_return, 12)
    ∷ (keysym_kp_enter, 12)
    ∷ (keysym_iso_enter, 12)
    ∷ (keysym_delete, 13)
    ∷ (keysym_kp_delete, 13)
    ∷ (keysym_escape, 14)
    ∷ (keysym_sys_req, 15)
    ∷ (keysym_scroll_lock, 16)
    ∷ (keysym_f1, 21)
    ∷ (keysym_f2, 22)
    ∷ (keysym_f3, 23)
    ∷ (keysym_f4, 24)
    ∷ (keysym_f5, 25)
    ∷ (keysym_f6, 26)
    ∷ (keysym_f7, 27)
    ∷ (keysym_f8, 28)
    ∷ (keysym_f9, 29)
    ∷ (keysym_f10, 30)
    ∷ (keysym_f11, 31)
    ∷ (keysym_f12, 32)
    ∷ []

abbrev pub find_label : ℕ → List (ℕ × ℕ) → ℕ
find_label keysym [] = 0
find_label keysym ((label, keycode) ∷ rest) =
    let other = find_label keysym rest in if keysym == label then keycode else other

unfoldable pub keysym_to_keycode : ℕ → ℕ
keysym_to_keycode keysym = find_label keysym labels

-- KeyModifierType, by its flags.
pub record KeyModifierType : Type 0 where
  pub shift : Bool
  pub control : Bool
  pub lock : Bool
  pub meta : Bool
  pub alt : Bool
  pub super : Bool
  pub hyper : Bool

-- KEYMOD_NONE_MASK
abbrev pub none_mask : KeyModifierType
none_mask = record {
  shift = false;
  control = false;
  lock = false;
  meta = false;
  alt = false;
  super = false;
  hyper = false;
}

-- The test against KEYMOD_ANY_MASK.
abbrev pub any_set : KeyModifierType → Bool
any_set m = m.shift || m.control || m.lock || m.meta || m.alt || m.super || m.hyper

-- valent_input_keysym_to_modifier(): the modifiers after a key that is one, or nothing.
unfoldable pub keysym_to_modifier : ℕ → Bool → KeyModifierType → Option KeyModifierType
keysym_to_modifier keysym state m =
    if keysym == keysym_alt_l || keysym == keysym_alt_r
    then some (record m { alt = state })
    else if keysym == keysym_control_l || keysym == keysym_control_r
    then some (record m { control = state })
    else if keysym == keysym_shift_l || keysym == keysym_shift_r
    then some (record m { shift = state })
    else if keysym == keysym_super_l || keysym == keysym_super_r
    then some (record m { super = state })
    else if keysym == keysym_caps_lock || keysym == keysym_shift_lock
    then some (record m { lock = state })
    else if keysym == keysym_meta_l || keysym == keysym_meta_r
    then some (record m { meta = state })
    else if keysym == keysym_hyper_l || keysym == keysym_hyper_r
    then some (record m { hyper = state })
    else if keysym == keysym_overlay1_enable
        || keysym == keysym_overlay2_enable
        || keysym == keysym_mode_switch
        || keysym == keysym_iso_level3_shift
        || keysym == keysym_iso_level3_latch
        || keysym == keysym_iso_level5_shift
        || keysym == keysym_iso_level5_latch
    then some m
    else none

-- A code of a special key that stands for a keysym comes back from it.
abbrev comes_back : ℕ → Bool
comes_back keycode =
    keycode_to_keysym keycode == 0 || keysym_to_keycode (keycode_to_keysym keycode) == keycode

abbrev all_below : ℕ → (ℕ → Bool) → Bool
all_below zero test = true
all_below (suc n) test = all_below n test && test n

all_below_lem : (n : ℕ) (test : ℕ → Bool) (k : ℕ) → all_below n test ≡ true → k < n → test k ≡ true
all_below_lem zero test k h less = ground (arith, less)
all_below_lem (suc n) test k h less = elim (Bool-cases (k == n)) [
  | inl e ↦ ap test ((==_iff k n).0 e) ∙ ground (arith, h)
  | inr e ↦ all_below_lem n test k (ground (arith, h)) (ground (arith, e, less))
]

table_comes_back : all_below 33 comes_back ≡ true
unfolding keycode_to_keysym keysym_to_keycode
table_comes_back = refl

get_elem?-none : (l : List ℕ) (i : ℕ) → length l ≤ i → get_elem? l i ≡ none
get_elem?-none [] i h = refl
get_elem?-none (x ∷ l) zero h = ground (arith, h)
get_elem?-none (x ∷ l) (suc i) h = get_elem?-none l i (omega (arith, h))

reserved : (keycode : ℕ) → 33 ≤ keycode → keycode_to_keysym keycode ≡ 0
unfolding keycode_to_keysym
reserved keycode h = ap or_zero (get_elem?-none keymap keycode h)

-- A key that stands for a special key is one that the other table has.
abbrev is_known : ℕ → Bool
is_known keycode = ltb 0 (keycode_to_keysym keycode)

abbrev all_labels : (ℕ → Bool) → List (ℕ × ℕ) → Bool
all_labels test [] = true
all_labels test ((label, keycode) ∷ rest) = test keycode && all_labels test rest

later_label :
    (keysym label keycode : ℕ) (rest : List (ℕ × ℕ))
    → (keysym == label) ≡ false
    → find_label keysym ((label, keycode) ∷ rest) ≡ find_label keysym rest
later_label keysym label keycode rest e = rw e refl

find_label_lem :
    (test : ℕ → Bool) (keysym : ℕ) (l : List (ℕ × ℕ))
    → all_labels test l ≡ true
    → find_label keysym l ≢ 0
    → test (find_label keysym l) ≡ true
find_label_lem test keysym [] h found = absurd (found refl)
find_label_lem test keysym ((label, keycode) ∷ rest) h found = elim (Bool-cases (keysym == label)) [
  | inl e ↦ rw e (ground (arith, h))
  | inr e ↦ rw e (
      find_label_lem test keysym rest (ground (arith, h))
        (subst (λ n. n ≢ 0) (later_label keysym label keycode rest e) found))
]

labels_known : all_labels is_known labels ≡ true
unfolding keycode_to_keysym
labels_known = refl

comes_back_lem :
    (keycode : ℕ)
    → keycode_to_keysym keycode ≢ 0
    → keysym_to_keycode (keycode_to_keysym keycode) ≡ keycode
comes_back_lem keycode h = elim (Bool-cases (ltb keycode 33)) [
  | inl less ↦
      let b = all_below_lem 33 comes_back keycode table_comes_back (ltb→lt keycode 33 less) in
      ground (arith, h, b)
  | inr more ↦ absurd (h (reserved keycode (ground (arith, more))))
]

pub known_lem :
    (keysym : ℕ) → keysym_to_keycode keysym ≢ 0 → keycode_to_keysym (keysym_to_keycode keysym) ≢ 0
unfolding keysym_to_keycode
known_lem keysym h =
    let known = find_label_lem is_known keysym labels labels_known h in ground (arith, known)

no_keycode : keysym_to_keycode (keycode_to_keysym 0) ≡ 0
unfolding keysym_to_keycode keycode_to_keysym
no_keycode = refl

settles :
    (keysym n : ℕ)
    → keysym_to_keycode keysym ≡ n
    → keysym_to_keycode (keycode_to_keysym (keysym_to_keycode keysym)) ≡ keysym_to_keycode keysym
settles keysym zero h = rw (h) no_keycode
settles keysym (suc n) h =
    comes_back_lem (keysym_to_keycode keysym) (known_lem keysym (ground (arith, h)))

-- Every code of a special key that stands for a keysym is the code of that keysym; and a keysym has
-- the code of the keysym that its code stands for, also where that is another one.
keysym_to_keycode-keycode_to_keysym :
    (keycode keysym : ℕ)
    → keycode_to_keysym keycode ≢ 0
    → (keysym_to_keycode (keycode_to_keysym keycode) ≡ keycode)
      × (keysym_to_keycode (keycode_to_keysym (keysym_to_keycode keysym))
          ≡ keysym_to_keycode keysym)
keysym_to_keycode-keycode_to_keysym keycode keysym h =
    (comes_back_lem keycode h, settles keysym (keysym_to_keycode keysym) refl)

labels_small : all_labels (λ keycode. ltb keycode 33) labels ≡ true
labels_small = refl

pub keysym_to_keycode_small :
    (keysym : ℕ) → keysym_to_keycode keysym ≢ 0 → keysym_to_keycode keysym < 33
unfolding keysym_to_keycode
keysym_to_keycode_small keysym h =
    ltb→lt (find_label keysym labels) 33
      (find_label_lem (λ keycode. ltb keycode 33) keysym labels labels_small h)
