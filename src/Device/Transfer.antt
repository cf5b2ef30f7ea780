-- ===== src/Device/Transfer.antt =====
-- The connection of a transfer in src/libvalent/device/valent-device-transfer.c: the channels of a
-- device are tried until one connects.
use valent.Prelude.{
  ℕ, zero, suc, ◌≡◌, ◌≢◌, refl, sym, false, not, Option, none, some, List, [], ◌∷◌, ◌==◌, ==_iff,
  if◌then◌else◌, arith,
}
use valent.Device.State.{Channel}

-- _valent_device_next_channel(): the first that is not the one that failed.
unfoldable pub next_channel : List Channel → ℕ → Option Channel
next_channel [] serial = none
next_channel (c ∷ cs) serial =
    let rest = next_channel cs serial in if not (c.serial == serial) then some c else rest

-- What an attempt at a channel gives.
pub data Attempt : Type 0 where
  made cancelled refused : Attempt

-- A connection, an error, or no end within the attempts that are counted.
pub data Connected : Type 0 where
  by : ℕ → Connected
  error unfinished : Connected

-- valent_channel_download_cb(), and valent_channel_upload_cb() likewise, for `n` attempts at most:
-- `attempts` is what each channel gives, by its number.
unfoldable pub connect : ℕ → (ℕ → Attempt) → List Channel → ℕ → Connected
connect zero attempts channels serial = unfinished
connect (suc n) attempts channels serial = elim (attempts serial) [
  | made ↦ by serial
  | cancelled ↦ error
  | refused ↦ elim (next_channel channels serial) [
    | none ↦ error
    | some c ↦ connect n attempts channels c.serial
  ]
]

abbrev pub begin_with : ℕ → (ℕ → Attempt) → List Channel → Option Channel → Connected
begin_with n attempts channels none = error
begin_with n attempts channels (some c) = connect n attempts channels c.serial

abbrev first_of : List Channel → Option Channel
first_of [] = none
first_of (c ∷ cs) = some c

-- The transfer begins with the first channel.
unfoldable pub begin : ℕ → (ℕ → Attempt) → List Channel → Connected
begin n attempts channels = begin_with n attempts channels (first_of channels)

different : (m n : ℕ) → m ≢ n → (m == n) ≡ false
different m n h = ground arith

next_first :
    (a : Channel) (cs : List Channel) (serial : ℕ)
    → a.serial ≢ serial
    → next_channel (a ∷ cs) serial ≡ some a
unfolding next_channel
next_first a cs serial h = rw (different a.serial serial h) refl

next_second :
    (a b : Channel) (cs : List Channel)
    → b.serial ≢ a.serial
    → next_channel (a ∷ b ∷ cs) a.serial ≡ some b
unfolding next_channel
next_second a b cs h = rw ((==_iff a.serial a.serial).1 refl, different b.serial a.serial h) refl

module _ (attempts : ℕ → Attempt) (a b : Channel) (cs : List Channel) where
  alternates :
      (n : ℕ)
      → attempts a.serial ≡ refused
      → attempts b.serial ≡ refused
      → b.serial ≢ a.serial
      → (connect n attempts (a ∷ b ∷ cs) a.serial ≡ unfinished)
        × (connect n attempts (a ∷ b ∷ cs) b.serial ≡ unfinished)
  unfolding connect
  alternates zero p q h = (refl, refl)
  alternates (suc n) p q h =
      let (from_a, from_b) = alternates n p q h in
      (
        rw (connect, p, next_second a b cs h) from_b,
        rw (connect, q, next_first a (b ∷ cs) b.serial (λ e. h (sym e))) from_a,
      )

  -- If the first two channels of a device refuse, a transfer tries the two in turn and does not
  -- end, however many attempts it is given, and whatever other channels the device has.
  pub begin_unfinished :
      (n : ℕ)
      → attempts a.serial ≡ refused
      → attempts b.serial ≡ refused
      → b.serial ≢ a.serial
      → begin n attempts (a ∷ b ∷ cs) ≡ unfinished
  unfolding begin
  begin_unfinished n p q h = (alternates n p q h).0
