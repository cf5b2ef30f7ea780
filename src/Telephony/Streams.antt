-- ===== src/Telephony/Streams.antt =====
-- The streams that src/plugins/telephony/valent-telephony-plugin.c turns down and restores.
use valent.Prelude.{
  ℕ, zero, suc, ◌≡◌, ◌≢◌, refl, sym, ap, subst, ◌∙◌, Bool, true, false, Option, none, some, String,
  str_eq, arith, ◌==◌, ==_iff, Bool-cases, inl, inr, if◌then◌else◌,
}
use valent.Prelude.Int.{ℤ, pos, negsuc}
use valent.Telephony.{
  Streams, StreamState, same_bool, stream_state_new, restore_level, restore_muted,
  stream_state_restore, stream_state_update, update_at,
}
use valent.Telephony.Plugin.{
  MediaState, media_state_new, World, Settings, update_stream, media_state_update, restore_stream,
  restore_at, prepare, state_or_new, update_media_state,
}

eq_refl : (x : ℕ) → (x == x) ≡ true
eq_refl x = ground arith

eq_other : (x id : ℕ) → x ≢ id → (x == id) ≡ false
eq_other x id h = ground (arith, h)

differ : (x y : ℕ) → (x == y) ≡ false → x ≢ y
differ x y h = ground (arith, h)

same_refl : (b : Bool) → same_bool b b ≡ true
same_refl true = refl
same_refl false = refl

-- A stream other than one.
abbrev Keeps : ℕ → Streams → Streams → Type 0
Keeps id streams streams' = (x : ℕ) → x ≢ id → streams' x ≡ streams x

-- What is known of a stream, whose state before was that in `before`: nothing is done to it, or its
-- StreamState tells its state now and before.
abbrev Held : ℕ → Streams → Streams → StreamState → Type 0
Held id before now state =
    (state.stream ≡ some id)
    × (now id ≡ record { level = state.current_level; muted = state.current_muted })
    × (before id ≡ record { level = state.original_level; muted = state.original_muted })

abbrev Slot : ℕ → Streams → Streams → Option StreamState → Type 0
Slot id before now none = now id ≡ before id
Slot id before now (some state) = Held id before now state

new-Held :
    (id : ℕ) (before now : Streams)
    → now id ≡ before id
    → Held id before now (stream_state_new id now)
unfolding stream_state_new
new-Held id before now h = (refl, refl, sym h)

update_at-Held :
    (id n : ℕ) (before now : Streams) (state : StreamState)
    → Held id before now state
    → Held id before
        (update_at (some id) (pos n) state now).1
        (update_at (some id) (pos n) state now).0
      × Keeps id now (update_at (some id) (pos n) state now).1
update_at-Held id zero before now state (s, e, o) =
    ((s, rw (eq_refl id, e) refl, o), λ x h. rw (eq_other x id h) refl)
update_at-Held id (suc n) before now state (s, e, o) =
    ((s, rw (eq_refl id, e) refl, o), λ x h. rw (eq_other x id h) refl)

update-Held :
    (id n : ℕ) (before now : Streams) (state : StreamState)
    → Held id before now state
    → Held id before
        (stream_state_update (pos n) state now).1
        (stream_state_update (pos n) state now).0
      × Keeps id now (stream_state_update (pos n) state now).1
unfolding stream_state_update
update-Held id n before now state held =
    subst
      (λ o.
        Held id before (update_at o (pos n) state now).1 (update_at o (pos n) state now).0
        × Keeps id now (update_at o (pos n) state now).1)
      (sym held.0) (update_at-Held id n before now state held)

level_lem :
    (id : ℕ) (now : Streams) (state : StreamState)
    → (now id).level ≡ state.current_level
    → (restore_level id state now id
        ≡ record { level = state.original_level; muted = (now id).muted })
      × Keeps id now (restore_level id state now)
level_lem id now state e =
    let same = ap (λ n. n == state.current_level) e ∙ eq_refl state.current_level in
    (rw (same, eq_refl id) refl, λ x h. rw (same, eq_other x id h) refl)

muted_lem :
    (id : ℕ) (now : Streams) (state : StreamState)
    → (now id).muted ≡ state.current_muted
    → (restore_muted id state now id
        ≡ record { level = (now id).level; muted = state.original_muted })
      × Keeps id now (restore_muted id state now)
muted_lem id now state e =
    let same = ap (λ b. same_bool b state.current_muted) e ∙ same_refl state.current_muted in
    (rw (same, eq_refl id) refl, λ x h. rw (same, eq_other x id h) refl)

restore-Held :
    (id : ℕ) (before now : Streams) (state : StreamState)
    → Held id before now state
    → (stream_state_restore state now id ≡ before id)
      × Keeps id now (stream_state_restore state now)
unfolding stream_state_restore
restore-Held id before now state (s, e, o) =
    let (level, kept) = level_lem id now state (ap (λ t. t.level) e) in
    let next = restore_level id state now in
    let (muted, kept') = muted_lem id next state (ap (λ t. t.muted) level ∙ ap (λ t. t.muted) e) in
    (
      rw s (
          muted ∙ ap (λ t. record { level = t.level; muted = state.original_muted }) level ∙ sym o),
      λ x h. rw s (kept' x h ∙ kept x h),
    )

update-Slot :
    (id : ℕ) (level : ℤ) (before now : Streams) (state : Option StreamState)
    → Slot id before now state
    → Slot id before
        (update_stream (some id) level state now).1
        (update_stream (some id) level state now).0
      × Keeps id now (update_stream (some id) level state now).1
update-Slot id (negsuc n) before now state h = (h, λ x other. refl)
update-Slot id (pos n) before now none h =
    update-Held id n before now (stream_state_new id now) (new-Held id before now h)
update-Slot id (pos n) before now (some state) h = update-Held id n before now state h

restore-Slot :
    (id : ℕ) (before now : Streams) (state : Option StreamState)
    → Slot id before now state
    → (restore_stream state now id ≡ before id) × Keeps id now (restore_stream state now)
restore-Slot id before now none h = (h, λ x other. refl)
restore-Slot id before now (some state) h = restore-Held id before now state h

Slot-keeps :
    (id : ℕ) (before now now' : Streams) (state : Option StreamState)
    → now' id ≡ now id
    → Slot id before now state
    → Slot id before now' state
Slot-keeps id before now now' none e h = e ∙ h
Slot-keeps id before now now' (some state) e (s, h, o) = (s, e ∙ h, o)

module _ (a b : ℕ) (apart : a ≢ b) (before : Streams) where
  -- The streams are as before but for the default ones, of which the state of the plugin tells how
  -- they were before.
  abbrev pub Turned : MediaState → Streams → Type 0
  Turned state now =
      Slot a before now state.speakers
      × Slot b before now state.microphone
      × ((x : ℕ) → x ≢ a → x ≢ b → now x ≡ before x)

  abbrev pub IsTurned : World → Type 0
  IsTurned w =
      (w.default_output ≡ some a)
      × (w.default_input ≡ some b)
      × Turned (state_or_new w.media_state) w.streams

  media_state_update-IsTurned :
      (output_level input_level : ℤ) (pause : Bool) (state : MediaState) (w : World)
      → w.default_output ≡ some a
      → w.default_input ≡ some b
      → Turned state w.streams
      → IsTurned (media_state_update output_level input_level pause state w)
  unfolding media_state_update
  media_state_update-IsTurned output_level input_level pause state w ha hb (sa, sb, others) =
      let output = update_stream (some a) output_level state.speakers w.streams in
      let input = update_stream (some b) input_level state.microphone output.1 in
      let (sa', keeps) = update-Slot a output_level before w.streams state.speakers sa in
      let (sb', keeps') = update-Slot b input_level before output.1 state.microphone (
        Slot-keeps b before w.streams output.1 state.microphone (keeps b (λ e. apart (sym e)))
          sb) in
      (
        ha,
        hb,
        rw (ha, hb)
            (
              Slot-keeps a before output.1 input.1 output.0 (keeps' a apart) sa',
              sb',
              λ x xa xb. keeps' x xb ∙ keeps x xa ∙ others x xa xb,
            ),
      )

  prepared-IsTurned :
      (output_level input_level : ℤ) (pause : Bool) (o : Option MediaState) (w : World)
      → w.default_output ≡ some a
      → w.default_input ≡ some b
      → Turned (state_or_new o) w.streams
      → IsTurned (media_state_update output_level input_level pause (state_or_new o) (prepare o w))
  prepared-IsTurned output_level input_level pause none w ha hb turned =
      media_state_update-IsTurned output_level input_level pause media_state_new (prepare none w) ha
        hb turned
  prepared-IsTurned output_level input_level pause (some state) w ha hb turned =
      media_state_update-IsTurned output_level input_level pause state w ha hb turned

  choose-IsTurned :
      (c d : Bool) (u v w : World)
      → IsTurned u
      → IsTurned v
      → IsTurned w
      → IsTurned (if c then u else if d then v else w)
  choose-IsTurned true d u v w hu hv hw = hu
  choose-IsTurned false true u v w hu hv hw = hv
  choose-IsTurned false false u v w hu hv hw = hw

  pub update_media_state-IsTurned :
      (settings : Settings) (event : String) (w : World)
      → IsTurned w
      → IsTurned (update_media_state settings event w)
  unfolding update_media_state
  update_media_state-IsTurned settings event w (ha, hb, turned) =
      choose-IsTurned (str_eq event "ringing") (str_eq event "talking") _ _ w
        (prepared-IsTurned settings.ringing_volume settings.ringing_microphone
          settings.ringing_pause w.media_state w ha hb turned)
        (prepared-IsTurned settings.talking_volume settings.talking_microphone
          settings.talking_pause w.media_state w ha hb turned)
        (ha, hb, turned)

  -- What is restored is as before.
  pub restore_all :
      (o : Option MediaState) (w : World)
      → Turned (state_or_new o) w.streams
      → (x : ℕ) → (restore_at o w).streams x ≡ before x
  restore_all none w (sa, sb, others) x = elim (Bool-cases (x == a)) [
    | inl e ↦ subst (λ y. w.streams y ≡ before y) (sym ((==_iff x a).0 e)) sa
    | inr n ↦ elim (Bool-cases (x == b)) [
      | inl e ↦ subst (λ y. w.streams y ≡ before y) (sym ((==_iff x b).0 e)) sb
      | inr m ↦ others x (differ x a n) (differ x b m)
    ]
  ]
  restore_all (some state) w (sa, sb, others) x =
      let middle = restore_stream state.speakers w.streams in
      let now = restore_stream state.microphone middle in
      let (back, keeps) = restore-Slot a before w.streams state.speakers sa in
      let (back', keeps') =
        restore-Slot b before middle state.microphone (
          Slot-keeps b before w.streams middle state.microphone (keeps b (λ e. apart (sym e)))
            sb) in
      elim (Bool-cases (x == b)) [
        | inl e ↦ subst (λ y. now y ≡ before y) (sym ((==_iff x b).0 e)) back'
        | inr m ↦ keeps' x (differ x b m) ∙ elim (Bool-cases (x == a)) [
          | inl e ↦ subst (λ y. middle y ≡ before y) (sym ((==_iff x a).0 e)) back
          | inr n ↦ keeps x (differ x a n) ∙ others x (differ x a n) (differ x b m)
        ]
      ]
