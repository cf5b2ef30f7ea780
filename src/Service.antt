-- ===== src/Service.antt =====
-- The channel service, src/libvalent/device/valent-channel-service.c: which connections are passed
-- on as channels of a device.
pub mod Verify
pub mod Certificates
use valent.Prelude.{
  ℕ, ◌≡◌, Bool, true, false, not, ◌&&◌, Option, none, some, List, [], ◌∷◌, String, str_eq,
  if◌then◌else◌, codes,
}
use valent.Packet.Json.{JsonGlib}
use valent.Packet.Fields.{get_string_field}
use valent.Device.Name.{validate_id}

-- What GnuTLS and GIO tell about certificates: valent_certificate_get_common_name() reads the name
-- with GnuTLS, is_same is g_tls_certificate_is_same(), and verify is whether
-- g_tls_certificate_verify() of a certificate finds no error with a trusted one.
pub record Tls : Type 1 where
  pub Certificate : Type 0
  pub common_name : Certificate → Option String
  pub is_same : Certificate → Certificate → Bool
  pub verify : Certificate → Certificate → Bool

-- Certificates that are the same are so in either order and in a row.
pub record TlsLaws (t : Tls) : Type 0 where
  pub is_same_refl : (a : t.Certificate) → t.is_same a a ≡ true
  pub is_same_trans :
      (a b c : t.Certificate) → t.is_same a b ≡ true → t.is_same b c ≡ true → t.is_same a c ≡ true

-- A ValentChannel, as far as the service looks at it.
pub record Connection (j : JsonGlib) (t : Tls) : Type 0 where
  pub serial : ℕ
  pub peer_identity : j.Node
  pub peer_certificate : t.Certificate

-- `local_id` is the common name of the certificate that every channel of the service has for its
-- own end. `announced` are the channels that the signal was emitted for, and `destroyed` those
-- that the service has destroyed, the last one first.
pub record Service (j : JsonGlib) (t : Tls) : Type 0 where
  pub local_id : String
  pub channels : List (String × Connection j t)
  pub announced : List (Connection j t)
  pub destroyed : List ℕ

abbrev pub is_named : String → Option String → Bool
is_named id none = false
is_named id (some cn) = str_eq id cn

-- What happens to a service: a connection is made, or a channel that it tracks is lost.
pub data Event (j : JsonGlib) (t : Tls) : Type 0 where
  made : Connection j t → Event j t
  lost : Event j t

module _ {j : JsonGlib} {t : Tls} where
  unfoldable pub lookup : String → List (String × Connection j t) → Option (Connection j t)
  lookup id [] = none
  lookup id ((k, c) ∷ rest) = let found = lookup id rest in if str_eq k id then some c else found

  unfoldable pub remove : String → List (String × Connection j t) → List (String × Connection j t)
  remove id [] = []
  remove id ((k, c) ∷ rest) =
      let others = remove id rest in if str_eq k id then others else (k, c) ∷ others

  -- The table destroys the channel of an entry that it drops.
  abbrev dropped : Option (Connection j t) → List ℕ → List ℕ
  dropped none destroyed = destroyed
  dropped (some c) destroyed = c.serial ∷ destroyed

  -- on_channel_destroyed(): the name is taken from the channel's own certificate.
  unfoldable pub on_channel_destroyed : Service j t → Service j t
  on_channel_destroyed s = record s {
    channels = remove s.local_id s.channels;
    destroyed = dropped (lookup s.local_id s.channels) s.destroyed;
  }

  -- g_hash_table_replace(): the channel that was there is destroyed, once the new one is in.
  abbrev pub track : Service j t → String → Connection j t → Option (Connection j t) → Service j t
  track s id c none = record s { channels = (id, c) ∷ remove id s.channels }
  track s id c (some current) = on_channel_destroyed (record s {
    channels = (id, c) ∷ remove id s.channels;
    destroyed = current.serial ∷ s.destroyed;
  })

  abbrev pub agrees : Option (Connection j t) → Connection j t → Bool
  agrees none c = true
  agrees (some current) c = t.is_same current.peer_certificate c.peer_certificate

  -- A name that is not valid is only warned of.
  abbrev pub check_name : Service j t → Connection j t → String → Option String → Bool × Service j t
  check_name s c id none = (false, s)
  check_name s c id (some name) =
      if not (is_named id (t.common_name c.peer_certificate))
      then (false, s)
      else if not (agrees (lookup id s.channels) c)
      then (false, s)
      else (true, track s id c (lookup id s.channels))

  abbrev pub check_id : Service j t → Connection j t → Option String → Bool × Service j t
  check_id s c none = (false, s)
  check_id s c (some id) =
      if not (validate_id (codes id))
      then (false, s)
      else check_name s c id (get_string_field j c.peer_identity "deviceName")

  -- valent_channel_service_verify_channel()
  unfoldable pub verify_channel : Service j t → Connection j t → Bool × Service j t
  verify_channel s c = check_id s c (get_string_field j c.peer_identity "deviceId")

  abbrev pub finish : Connection j t → Bool × Service j t → Service j t
  finish c (true, s) = record s { announced = c ∷ s.announced }
  finish c (false, s) = record s { destroyed = c.serial ∷ s.destroyed }

  -- valent_channel_service_channel() of a channel that is not being destroyed.
  unfoldable pub channel : Service j t → Connection j t → Service j t
  channel s c = finish c (verify_channel s c)

  unfoldable pub step : Service j t → Event j t → Service j t
  step s (made c) = channel s c
  step s lost = on_channel_destroyed s

  unfoldable pub run : List (Event j t) → Service j t → Service j t
  run [] s = s
  run (e ∷ es) s = run es (step s e)
