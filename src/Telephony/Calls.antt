-- ===== src/Telephony/Calls.antt =====
-- Calls: the packets that src/plugins/telephony/valent-telephony-plugin.c handles one after the
-- other.
use valent.Prelude.{
  ℕ, ◌≡◌, ◌≢◌, refl, sym, ap, subst, ◌∙◌, Bool, true, false, not, ◌||◌, Option, none, some, List,
  [], ◌∷◌, String, str_eq, if◌then◌else◌,
}
use valent.Packet.Json.{JsonGlib}
use valent.Packet.Fields.{get_string_field, check_field}
use valent.Telephony.{Streams}
use valent.Telephony.Plugin.{
  MediaState, World, Settings, Notice, state_or_new, restore_at, media_state_restore, handle_event,
  handle_telephony,
}
use valent.Telephony.Streams.{Turned, IsTurned, restore_all, update_media_state-IsTurned}

module _ (j : JsonGlib) where
  -- Packets that are handled one after the other, each with the settings at that time.
  unfoldable pub handle_each : List (Settings × j.Node) → World → World
  handle_each [] w = w
  handle_each ((settings, packet) ∷ rest) w =
      handle_each rest (handle_telephony j settings packet w).1

  module _ (a b : ℕ) (apart : a ≢ b) (before : Streams) where
    restored-IsTurned :
        (o : Option MediaState) (w : World)
        → w.media_state ≡ o
        → IsTurned a b apart before w
        → IsTurned a b apart before (restore_at o w)
    restored-IsTurned none w e turned = turned
    restored-IsTurned (some state) w e (ha, hb, turned) =
        let back =
          restore_all a b apart before (some state) w
            (subst (λ o. Turned a b apart before (state_or_new o) w.streams) e turned) in
        (ha, hb, (back a, back b, λ x xa xb. back x))

    media_state_restore-IsTurned :
        (w : World)
        → IsTurned a b apart before w
        → IsTurned a b apart before (media_state_restore w)
    unfolding media_state_restore
    media_state_restore-IsTurned w turned = restored-IsTurned w.media_state w refl turned

    choose-IsTurned :
        (c d : Bool) (u v w : List Notice × World)
        → IsTurned a b apart before u.1
        → IsTurned a b apart before v.1
        → IsTurned a b apart before w.1
        → IsTurned a b apart before (if c then u else if d then v else w).1
    choose-IsTurned true d u v w hu hv hw = hu
    choose-IsTurned false true u v w hu hv hw = hv
    choose-IsTurned false false u v w hu hv hw = hw

    handle_event-IsTurned :
        (settings : Settings) (packet : j.Node) (event : Option String) (w : World)
        → IsTurned a b apart before w
        → IsTurned a b apart before (handle_event j settings packet event w).1
    handle_event-IsTurned settings packet none w turned = turned
    handle_event-IsTurned settings packet (some event) w turned =
        choose-IsTurned (not (str_eq event "ringing" || str_eq event "talking"))
          (check_field j packet "isCancel") _ _ _ turned (media_state_restore-IsTurned w turned)
          (update_media_state-IsTurned a b apart before settings event w turned)

    handle_each-IsTurned :
        (calls : List (Settings × j.Node)) (w : World)
        → IsTurned a b apart before w
        → IsTurned a b apart before (handle_each calls w)
    unfolding handle_each handle_telephony
    handle_each-IsTurned [] w turned = turned
    handle_each-IsTurned ((settings, packet) ∷ rest) w turned =
        handle_each-IsTurned rest (handle_telephony j settings packet w).1
          (handle_event-IsTurned settings packet (get_string_field j packet "event") w turned)

  -- Nothing is turned down while the plugin keeps no state.
  still_lem :
      (w : World)
      → w.media_state ≡ none
      → (a b : ℕ) (apart : a ≢ b)
      → Turned a b apart w.streams (state_or_new w.media_state) w.streams
  still_lem w fresh a b apart =
      subst (λ o. Turned a b apart w.streams (state_or_new o) w.streams) (sym fresh)
        (refl, refl, λ x xa xb. refl)

  media_state_restore_lem :
      (a b : ℕ) (apart : a ≢ b) (before : Streams) (w : World)
      → IsTurned a b apart before w
      → (x : ℕ) → (media_state_restore w).streams x ≡ before x
  unfolding media_state_restore
  media_state_restore_lem a b apart before w (ha, hb, turned) =
      restore_all a b apart before w.media_state w turned

  cancel_lem :
      (settings : Settings) (packet : j.Node) (event : String) (w : World)
      → get_string_field j packet "event" ≡ some event
      → (str_eq event "ringing" || str_eq event "talking") ≡ true
      → check_field j packet "isCancel" ≡ true
      → (handle_telephony j settings packet w).1 ≡ media_state_restore w
  unfolding handle_telephony
  cancel_lem settings packet event w named known cancelled = rw (named, known, cancelled) refl

  -- Whatever packets are handled from a time when nothing is turned down, with whatever settings: as
  -- soon as a call is cancelled, every stream has the level and is muted as at that time, if the
  -- default output and the default input are two streams and stay the same, and only the plugin
  -- changes them.
  pub handle_telephony-handle_each :
      (a b : ℕ) (calls : List (Settings × j.Node)) (settings : Settings) (packet : j.Node)
      (event : String) (w : World) (x : ℕ)
      → a ≢ b
      → w.default_output ≡ some a
      → w.default_input ≡ some b
      → w.media_state ≡ none
      → get_string_field j packet "event" ≡ some event
      → (str_eq event "ringing" || str_eq event "talking") ≡ true
      → check_field j packet "isCancel" ≡ true
      → (handle_telephony j settings packet (handle_each calls w)).1.streams x ≡ w.streams x
  handle_telephony-handle_each a b calls settings packet event w x apart ha hb fresh named known
        cancelled =
      let v = handle_each calls w in
      let turned =
        handle_each-IsTurned a b apart w.streams calls w (ha, hb, still_lem w fresh a b apart) in
      ap (λ u. u.streams x) (cancel_lem settings packet event v named known cancelled)
      ∙ media_state_restore_lem a b apart w.streams v turned x
