-- ===== src/Component/Preferred.antt =====
-- The primary adapter of a component: the choice among the plugins, and the histories in which it
-- stays the right one.
use valent.Prelude.{
  ℕ, ◌≡◌, ◌⊎◌, inl, inr, refl, sym, ◌∙◌, arith, true, false, Option, none, some, List, [], ◌∷◌,
  String, All, Bool-cases,
}
use valent.Prelude.Int.{ℤ, ◌≤ℤ◌, ltb_ℤ}
use valent.Component.{
  Plugin, Component, candidate, better, prefer, object_of, set_preferred, update_preferred,
  same_object,
}

abbrev pub Holds : {A : Type 0} → (A → Type 0) → List A → Type 0
Holds P [] = ⊥
Holds P (x ∷ xs) = P x ⊎ Holds P xs

-- A candidate that no other one has to give way to: one of the list whose priority is the lowest
-- number, or none of an empty list.
abbrev pub IsBest : Option (ℕ × ℤ) → List (ℕ × ℤ) → Type 0
IsBest none l = l ≡ []
IsBest (some b) l = All (λ x. b.1 ≤ℤ x.1) l × Holds (λ x. x ≡ b) l

abbrev pub with_candidate : Option (ℕ × ℤ) → List (ℕ × ℤ) → List (ℕ × ℤ)
with_candidate none l = l
with_candidate (some x) l = x ∷ l

abbrev pick : List (ℕ × ℤ) → Option (ℕ × ℤ) → Option (ℕ × ℤ)
pick [] b = b
pick (x ∷ l) b = pick l (better b (some x))

with_candidate_lem :
    (o : Option (ℕ × ℤ)) (l : List (ℕ × ℤ)) (b : Option (ℕ × ℤ))
    → pick (with_candidate o l) b ≡ pick l (better b o)
with_candidate_lem none l b = refl
with_candidate_lem (some x) l b = refl

-- `o` is the best of `b` and a list.
abbrev Picked : Option (ℕ × ℤ) → ℕ × ℤ → List (ℕ × ℤ) → Type 0
Picked o b l =
    (y : ℕ × ℤ) × (o ≡ some y)
    × (y.1 ≤ℤ b.1)
    × All (λ x. y.1 ≤ℤ x.1) l
    × ((b ≡ y) ⊎ Holds (λ x. x ≡ y) l)

lower :
    (o : Option (ℕ × ℤ)) (x b : ℕ × ℤ) (l : List (ℕ × ℤ))
    → ltb_ℤ x.1 b.1 ≡ true
    → Picked o x l
    → Picked o b (x ∷ l)
lower o x b l h (y, e, below, all, found) =
    (y, e, ground (arith, h, below), (below, all), inr found)

stay :
    (o : Option (ℕ × ℤ)) (x b : ℕ × ℤ) (l : List (ℕ × ℤ))
    → ltb_ℤ x.1 b.1 ≡ false
    → Picked o b l
    → Picked o b (x ∷ l)
stay o x b l h (y, e, below, all, inl found) =
    (y, e, below, (ground (arith, h, below), all), inl found)
stay o x b l h (y, e, below, all, inr found) =
    (y, e, below, (ground (arith, h, below), all), inr (inr found))

pick_lem : (l : List (ℕ × ℤ)) (b : ℕ × ℤ) → Picked (pick l (some b)) b l
pick_lem [] b = (b, refl, omega arith, tt, inl refl)
pick_lem (x ∷ l) b = elim (Bool-cases (ltb_ℤ x.1 b.1)) [
  | inl h ↦ rw h (lower (pick l (some x)) x b l h (pick_lem l x))
  | inr h ↦ rw h (stay (pick l (some b)) x b l h (pick_lem l b))
]

Picked-IsBest :
    (o : Option (ℕ × ℤ)) (b : ℕ × ℤ) (l : List (ℕ × ℤ)) → Picked o b l → IsBest o (b ∷ l)
Picked-IsBest o b l (y, e, below, all, found) = rw e ((below, all), found)

pick-IsBest : (l : List (ℕ × ℤ)) → IsBest (pick l none) l
pick-IsBest [] = refl
pick-IsBest (x ∷ l) = Picked-IsBest (pick l (some x)) x l (pick_lem l x)

pub same_object_lem : (a b : Option ℕ) → same_object a b ≡ true → a ≡ b
same_object_lem none none h = refl
same_object_lem none (some y) h = cc
same_object_lem (some x) none h = cc
same_object_lem (some x) (some y) h = ground (arith, h)

set_preferred_lem :
    (o : Option ℕ) (c : Component)
    → ((set_preferred o c).primary_adapter ≡ o) × ((set_preferred o c).plugins ≡ c.plugins)
set_preferred_lem o c = elim (Bool-cases (same_object c.primary_adapter o)) [
  | inl h ↦ rw h (same_object_lem c.primary_adapter o h, refl)
  | inr h ↦ rw h (refl, refl)
]

module _ (strtoll : String → ℤ) where
  -- The extensions that are active, with their priorities.
  abbrev pub candidates : List Plugin → List (ℕ × ℤ)
  candidates [] = []
  candidates (p ∷ ps) = with_candidate (candidate strtoll p) (candidates ps)

  prefer_lem :
      (ps : List Plugin) (b : Option (ℕ × ℤ)) → prefer strtoll ps b ≡ pick (candidates ps) b
  unfolding prefer
  prefer_lem [] b = refl
  prefer_lem (p ∷ ps) b =
      prefer_lem ps (better b (candidate strtoll p))
      ∙ sym (with_candidate_lem (candidate strtoll p) (candidates ps) b)

  -- The primary adapter is the object of a best candidate.
  abbrev pub IsChosen : Option ℕ → List Plugin → Type 0
  IsChosen primary ps = (r : Option (ℕ × ℤ)) × (primary ≡ object_of r) × IsBest r (candidates ps)

  abbrev pub IsPreferred : Component → Type 0
  IsPreferred c = IsChosen c.primary_adapter c.plugins

  pub update_preferred-plugins : (c : Component) → (update_preferred strtoll c).plugins ≡ c.plugins
  unfolding update_preferred
  update_preferred-plugins c = (set_preferred_lem (object_of (prefer strtoll c.plugins none)) c).1

  -- Whatever a component had before, its choice among its plugins is the best.
  pub update_preferred-IsPreferred : (c : Component) → IsPreferred (update_preferred strtoll c)
  unfolding update_preferred
  update_preferred-IsPreferred c =
      let found = prefer strtoll c.plugins none in
      let kept = set_preferred_lem (object_of found) c in
      (found, kept.0, rw (kept.1, prefer_lem c.plugins none) (pick-IsBest (candidates c.plugins)))
