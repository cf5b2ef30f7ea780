-- ===== src/Telephony/Players.antt =====
-- The players that src/plugins/telephony/valent-telephony-plugin.c lets go on.
use valent.Prelude.{
  ℕ, zero, suc, ◌≤◌, ◌≡◌, ◌≢◌, refl, sym, ap, subst, ◌∙◌, true, false, List, [], ◌∷◌, ◌++◌, All,
  length, get_elem?, arith, ◌==◌, none, some,
}
use mathlib.Core.List.{append-nil, append_assoc}
use valent.Telephony.{
  Media, remove_player, on_player_changed, player_play, play_each, restore_players,
}

-- Every second element, from the first on.
abbrev pub every_second : List ℕ → List ℕ
every_second [] = []
every_second (x ∷ []) = x ∷ []
every_second (x ∷ y ∷ rest) = x ∷ every_second rest

-- No element of the second list is in the first, nor twice in the second.
abbrev pub IsDistinct : List ℕ → Type 0
IsDistinct [] = Unit
IsDistinct (x ∷ xs) = All (λ y. y ≢ x) xs × IsDistinct xs

eq_refl : (x : ℕ) → (x == x) ≡ true
eq_refl x = ground arith

eq_other : (k x : ℕ) → k ≢ x → (k == x) ≡ false
eq_other k x h = ground (arith, h)

play_deferred :
    (id : ℕ) (media : Media)
    → media.deferred id ≡ true
    → player_play id media ≡ record media { plays = media.plays ++ id ∷ [] }
unfolding player_play
play_deferred id media h = rw h refl

get_elem?-append :
    (kept : List ℕ) (x : ℕ) (rest : List ℕ) → get_elem? (kept ++ x ∷ rest) (length kept) ≡ some x
get_elem?-append [] x rest = refl
get_elem?-append (k ∷ kept) x rest = get_elem?-append kept x rest

remove-append :
    (kept : List ℕ) (x : ℕ) (rest : List ℕ)
    → All (λ y. y ≢ x) kept
    → remove_player x (kept ++ x ∷ rest) ≡ kept ++ rest
remove-append [] x rest all = rw (eq_refl x) refl
remove-append (k ∷ kept) x rest (h, all) = rw (eq_other k x h, remove-append kept x rest all) refl

-- A player that does not defer what it is told to do is told to play, and is tracked no more.
play_now :
    (x : ℕ) (kept rest : List ℕ) (media : Media)
    → media.deferred x ≡ false
    → media.tracked ≡ kept ++ x ∷ rest
    → All (λ y. y ≢ x) kept
    → ((player_play x media).tracked ≡ kept ++ rest)
      × ((player_play x media).plays ≡ media.plays ++ x ∷ [])
      × ((player_play x media).deferred ≡ media.deferred)
unfolding player_play on_player_changed
play_now x kept rest media h t all = (
  rw (h, eq_refl x, t) (remove-append kept x rest all),
  rw (h, eq_refl x) refl,
  rw (h, eq_refl x) refl,
)

get_elem?-length : (kept : List ℕ) → get_elem? kept (length kept) ≡ none
get_elem?-length [] = refl
get_elem?-length (k ∷ kept) = get_elem?-length kept

play_each-end :
    (n : ℕ) (kept : List ℕ) (media : Media)
    → media.tracked ≡ kept
    → play_each n (length kept) media ≡ media
unfolding play_each
play_each-end zero kept media t = refl
play_each-end (suc n) kept media t =
    let over = ap (λ l. get_elem? l (length kept)) t ∙ get_elem?-length kept in
    rw (play_each, over) refl

play_each-step :
    (n : ℕ) (kept : List ℕ) (x : ℕ) (rest : List ℕ) (media : Media)
    → media.tracked ≡ kept ++ x ∷ rest
    → play_each (suc n) (length kept) media ≡ play_each n (suc (length kept)) (player_play x media)
unfolding play_each
play_each-step n kept x rest media t =
    let found = ap (λ l. get_elem? l (length kept)) t ∙ get_elem?-append kept x rest in
    rw (play_each, found) refl

length-snoc : (kept : List ℕ) (y : ℕ) → length (kept ++ y ∷ []) ≡ suc (length kept)
length-snoc [] y = refl
length-snoc (k ∷ kept) y = ap suc (length-snoc kept y)

get_elem?-past : (kept : List ℕ) → get_elem? kept (suc (length kept)) ≡ none
get_elem?-past [] = refl
get_elem?-past (k ∷ kept) = get_elem?-past kept

play_each_past :
    (n : ℕ) (kept : List ℕ) (media : Media)
    → media.tracked ≡ kept
    → play_each n (suc (length kept)) media ≡ media
unfolding play_each
play_each_past zero kept media t = refl
play_each_past (suc n) kept media t =
    let over = ap (λ l. get_elem? l (suc (length kept))) t ∙ get_elem?-past kept in
    rw (play_each, over) refl

All-snoc :
    (kept : List ℕ) (y x : ℕ) → All (λ z. z ≢ x) kept → y ≢ x → All (λ z. z ≢ x) (kept ++ y ∷ [])
All-snoc [] y x all h = (h, tt)
All-snoc (k ∷ kept) y x (a, all) h = (a, All-snoc kept y x all h)

apart_snoc :
    (kept : List ℕ) (y : ℕ) (rest : List ℕ)
    → All (λ x. All (λ z. z ≢ x) kept) rest
    → All (λ z. z ≢ y) rest
    → All (λ x. All (λ z. z ≢ x) (kept ++ y ∷ [])) rest
apart_snoc kept y [] aparts all = tt
apart_snoc kept y (x ∷ rest) (apart, aparts) (h, all) =
    (All-snoc kept y x apart (λ e. h (sym e)), apart_snoc kept y rest aparts all)

-- All players answer at once: after each the next one is skipped.
play_each_now :
    (n : ℕ) (kept rest : List ℕ) (media : Media)
    → length rest ≤ n
    → media.tracked ≡ kept ++ rest
    → All (λ x. media.deferred x ≡ false) rest
    → IsDistinct rest
    → All (λ x. All (λ y. y ≢ x) kept) rest
    → (play_each n (length kept) media).plays ≡ media.plays ++ every_second rest
play_each_now n kept [] media fuel t now distinct apart =
    ap (λ m. m.plays) (play_each-end n kept media (t ∙ append-nil kept))
    ∙ sym (append-nil media.plays)
play_each_now zero kept (x ∷ rest) media fuel t now distinct apart = ground (arith, fuel)
play_each_now (suc n) kept (x ∷ []) media fuel t (now, _) distinct (apart, _) =
    let (tracked, plays, deferred) = play_now x kept [] media now t apart in
    ap (λ m. m.plays) (play_each-step n kept x [] media t)
    ∙ ap (λ m. m.plays) (play_each_past n kept (player_play x media) (tracked ∙ append-nil kept))
    ∙ plays
play_each_now (suc n) kept (x ∷ y ∷ rest) media fuel t (now, (now_y, nows)) ((dy, ds), (dys, d))
      (apart, (apart_y, aparts)) =
    let (tracked, plays, deferred) = play_now x kept (y ∷ rest) media now t apart in
    let next = player_play x media in
    ap (λ m. m.plays) (play_each-step n kept x (y ∷ rest) media t)
    ∙ ap (λ i. (play_each n i next).plays) (sym (length-snoc kept y))
    ∙ play_each_now n (kept ++ y ∷ []) rest next (omega (arith, fuel))
        (tracked ∙ sym (append_assoc kept (y ∷ []) rest))
        (subst (λ f. All (λ z. f z ≡ false) rest) (sym deferred) nows) d
        (apart_snoc kept y rest aparts dys)
    ∙ ap (λ l. l ++ every_second rest) plays
    ∙ append_assoc media.plays (x ∷ []) (every_second rest)

-- All players defer what they are told: none is skipped.
play_each_later :
    (n : ℕ) (kept rest : List ℕ) (media : Media)
    → length rest ≤ n
    → media.tracked ≡ kept ++ rest
    → All (λ x. media.deferred x ≡ true) rest
    → (play_each n (length kept) media).plays ≡ media.plays ++ rest
play_each_later n kept [] media fuel t later =
    ap (λ m. m.plays) (play_each-end n kept media (t ∙ append-nil kept))
    ∙ sym (append-nil media.plays)
play_each_later zero kept (x ∷ rest) media fuel t later = ground (arith, fuel)
play_each_later (suc n) kept (x ∷ rest) media fuel t (h, later) =
    let next = record media { plays = media.plays ++ x ∷ [] } in
    ap (λ m. m.plays) (play_each-step n kept x rest media t)
    ∙ ap (λ m. (play_each n (suc (length kept)) m).plays) (play_deferred x media h)
    ∙ ap (λ i. (play_each n i next).plays) (sym (length-snoc kept x))
    ∙ play_each_later n (kept ++ x ∷ []) rest next (omega (arith, fuel))
        (t ∙ sym (append_assoc kept (x ∷ []) rest)) later
    ∙ append_assoc media.plays (x ∷ []) rest

All-apart : (rest : List ℕ) → All (λ x. All (λ z. z ≢ x) []) rest
All-apart [] = tt
All-apart (x ∷ rest) = (tt, All-apart rest)

-- If the players that are tracked all defer what they are told to do, each of them is told to play,
-- in the order in which they were paused.
pub restore_players_later :
    (media : Media)
    → All (λ x. media.deferred x ≡ true) media.tracked
    → (restore_players media).plays ≡ media.plays ++ media.tracked
unfolding restore_players
restore_players_later media later =
    play_each_later (length media.tracked) [] media.tracked media (omega arith) refl later

-- If the players that are tracked are distinct and all do at once what they are told to do, only
-- every second of them is told to play: the first, the third, and so on.
pub restore_players_now :
    (media : Media)
    → All (λ x. media.deferred x ≡ false) media.tracked
    → IsDistinct media.tracked
    → (restore_players media).plays ≡ media.plays ++ every_second media.tracked
unfolding restore_players
restore_players_now media now distinct =
    play_each_now (length media.tracked) [] media.tracked media (omega arith) refl now distinct
      (All-apart media.tracked)
