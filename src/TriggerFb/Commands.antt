-- ===== src/TriggerFb/Commands.antt =====
-- `fb_instant_cmd`: the commands that a state carries out at once.
use hdrt.Prelude.{
  ℕ, ◌+◌, ◌/◌, ◌%◌, ◌^◌, false, not, Option, none, some, ◌==◌, if◌then◌else◌, bit_and,
}
use hdrt.TriggerVector.Events.{
  EventType, event_fire_trigger, event_fire_pulse, event_fire_rj45_trigger, event_set_sample_rate,
  event_set_sample_state, event_set_clock_freq, event_set_clock_state, event_reset,
  event_set_enc_pins, event_enc_z_pulse, event_pcnt_clear, event_biss_crc_error, event_biss_timeout,
}
use hdrt.TriggerVector.Fields.{error_none, error_invalid_enc_pins, Vector}
use hdrt.SyncIo.Hardware.{Hardware}
use hdrt.SyncIo.Clock.{stop_clock}
use hdrt.BissNodeIo.Position.{next_word, count_crc_error}
use hdrt.TriggerFb.Settings.{io_setting, enc_setting, biss_setting}
use hdrt.TriggerFb.World.{
  Result, is_fb_ok, World, clocking, with_clocking, with_error, start_sync_clock, reset_all,
  enc_pins_valid, fb_ok, fb_ignored, fb_error,
}

-- The counters that an event raises or clears.
unfoldable pub counted : EventType → Vector → Option Vector
counted event_enc_z_pulse v = some (record v {
  enc_counts = record v.enc_counts { enc_rev_count = next_word v.enc_counts.enc_rev_count };
})
counted event_pcnt_clear v = some (record v {
  enc_counts = record v.enc_counts {
    enc_total = (v.enc_counts.enc_total + v.enc_counts.enc_count) % 2 ^ 32;
    enc_count = 0;
  };
})
counted event_biss_crc_error v = some (count_crc_error v)
counted event_biss_timeout v =
    some
      (record v { run = record v.run { biss_timeout_count = next_word v.run.biss_timeout_count } })
counted _ v = none

-- the first of two that is there
unfoldable pub first_of {ℓ} : {A : Type ℓ} → Option A → Option A → Option A
first_of (some a) other = some a
first_of none other = other

unfoldable pub map_setting {ℓ} : {A : Type ℓ} → (A → Vector) → Option A → Option Vector
map_setting put (some a) = some (put a)
map_setting put none = none

-- The settings and the counters, which only the vector has.
unfoldable pub plain_cmd : EventType → ℕ → Vector → Option Vector
plain_cmd kind value v =
    first_of (map_setting (λ io. record v { io = io }) (io_setting kind value v.io)) (
      first_of (map_setting (λ enc. record v { enc = enc }) (enc_setting kind value v.enc)) (
        first_of (map_setting (λ biss. record v { biss = biss }) (biss_setting kind value v.biss))
          (counted kind v)))

module _ {σ : Type 0} where
  unfoldable pub set_enc_pins : ℕ → World σ → World σ × Result
  set_enc_pins value w =
      let a = bit_and value 0xff in
      let b = bit_and (value / 2 ^ 8) 0xff in
      let z = bit_and (value / 2 ^ 16) 0xff in
      if not (enc_pins_valid a b z) then (with_error error_invalid_enc_pins w, fb_error) else (
        record w {
          vector = record w.vector {
            enc = record w.vector.enc { enc_a_pin = a; enc_b_pin = b; enc_z_pin = z };
          };
        },
        fb_ok,
      )

  unfoldable pub with_plain : World σ → Option Vector → World σ × Result
  with_plain w (some vector) = (record w { vector = vector }, fb_ok)
  with_plain w none = (w, fb_ignored)

module _ {σ : Type 0} (h : Hardware σ) where
  -- A new frequency is tried at once if the clock is on. If it fails and the old clock still runs,
  -- the vector keeps the old frequency.
  unfoldable pub set_clock_freq : ℕ → World σ → World σ × Result
  set_clock_freq value w =
      let previous_hz = w.vector.sync_clock_hz in
      let w1 = record w { vector = record w.vector { sync_clock_hz = value } } in
      if w1.vector.sync_clock_enabled
      then (let (w2, result) = start_sync_clock h w1 in
          if is_fb_ok result then (w2, fb_ok) else (
            if w2.vector.sync_clock_enabled
                then record w2 { vector = record w2.vector { sync_clock_hz = previous_hz } }
                else w2,
            fb_error,
          ))
      else (w1, fb_ok)

  unfoldable pub set_clock_state : ℕ → World σ → World σ × Result
  set_clock_state value w =
      if not (value == 0)
      then (let (w2, result) = start_sync_clock h w in
          if is_fb_ok result then (w2, fb_ok) else (w2, fb_error))
      else (let w1 = with_clocking w (stop_clock h (clocking w)) in
          (
            record w1 {
              vector = record w1.vector { sync_clock_enabled = false; error_code = error_none };
            },
            fb_ok,
          ))

  unfoldable pub on_hardware : (σ → σ) → World σ → World σ × Result
  on_hardware f w = (record w { hardware = f w.hardware }, fb_ok)

  unfoldable pub set_sample_rate : ℕ → World σ → World σ × Result
  set_sample_rate value w = on_hardware (h.start_capture value) (record w {
    vector = record w.vector { io = record w.vector.io { capture_sample_hz = value } };
  })

  unfoldable pub instant_cmd : EventType → ℕ → World σ → World σ × Result
  instant_cmd event_fire_trigger value w =
      on_hardware (h.fire_pulse_us w.vector.io.trigger_width_us) w
  instant_cmd event_fire_pulse value w =
      on_hardware (h.fire_pulse_out_us w.vector.io.pulse_width_us) w
  instant_cmd event_fire_rj45_trigger value w =
      on_hardware (h.fire_rj45_trigger_us w.vector.io.rj45_trigger_width_us) w
  instant_cmd event_set_sample_rate value w = set_sample_rate value w
  instant_cmd event_set_sample_state value w =
      on_hardware
        (if not (value == 0) then h.start_capture w.vector.io.capture_sample_hz else h.stop_capture)
        w
  instant_cmd event_set_clock_freq value w = set_clock_freq value w
  instant_cmd event_set_clock_state value w = set_clock_state value w
  instant_cmd event_set_enc_pins value w = set_enc_pins value w
  instant_cmd event_reset value w = reset_all h w
  instant_cmd kind value w = with_plain w (plain_cmd kind value w.vector)
