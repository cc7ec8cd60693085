-- ===== src/TriggerFb/Mild.antt =====
-- The commands that a state carries out at once neither change the state of the trigger nor touch
-- what its owners hold, RESET apart.
use mathlib.Core.Path.{subst}
use hdrt.Prelude.{
  ℕ, ◌/◌, ◌^◌, ◌≡◌, ◌≢◌, refl, sym, Bool, ◌||◌, not, Option, none, some, ◌==◌, bit_and, if_both,
}
use hdrt.ResourceArbiter.{Context, ensure, acquire_owned, get_snapshot}
use hdrt.ResourceArbiter.Invariant.{IsSound}
use hdrt.ResourceArbiter.Sharing.{Keeps-same, Keeps-then}
use hdrt.TriggerVector.Events.{
  EventType, event_fire_trigger, event_fire_pulse, event_fire_rj45_trigger, event_set_sample_rate,
  event_set_sample_state, event_set_clock_freq, event_set_clock_state, event_reset,
  event_set_enc_pins, event_enc_z_pulse, event_pcnt_clear, event_biss_crc_error, event_biss_timeout,
}
use hdrt.BissNodeIo.Position.{count_crc_error}
use hdrt.TriggerVector.Fields.{Vector}
use hdrt.SyncIo.Hardware.{Hardware}
use hdrt.SyncIo.Clock.{clock_owner, clock_resources, Clocking, begin_clock, start_clock, stop_clock}
use hdrt.TriggerFb.World.{
  Result, is_fb_ok, World, owner_seq_step, owner_enc_count, owner_biss_tap, clocking, with_clocking,
  with_error, clock_failed, start_sync_clock, enc_pins_valid,
}
use hdrt.TriggerFb.Commands.{
  counted, first_of, map_setting, plain_cmd, set_enc_pins, with_plain, set_clock_freq,
  set_clock_state, on_hardware, set_sample_rate, instant_cmd,
}
use hdrt.TriggerFb.Shares.{OwnedIn, KeepsAll, OwnedIn-KeepsAll}
use hdrt.TriggerFb.Arbitration.{ensure-KeepsAll, clock_acquire-KeepsAll, clock_release-KeepsAll}

pub KeepsAll-same : (s : Context) → IsSound s → KeepsAll s s
KeepsAll-same s v = record {
  seq = Keeps-same owner_seq_step s v;
  enc = Keeps-same owner_enc_count s v;
  biss = Keeps-same owner_biss_tap s v;
}

KeepsAll-then : (s t u : Context) → KeepsAll s t → KeepsAll t u → KeepsAll s u
KeepsAll-then s t u a b = record {
  seq = Keeps-then owner_seq_step s t u a.seq b.seq;
  enc = Keeps-then owner_enc_count s t u a.enc b.enc;
  biss = Keeps-then owner_biss_tap s t u a.biss b.biss;
}

-- A property of what a command makes, if it makes anything.
abbrev pub Each : (Vector → Type 0) → Option Vector → Type 0
Each P (some u) = P u
Each P none = Unit {0}

Each-first_of :
    (P : Vector → Type 0) (a b : Option Vector) → Each P a → Each P b → Each P (first_of a b)
unfolding first_of
Each-first_of P (some a) b p q = p
Each-first_of P none b p q = q

Each-map {ℓ} :
    {A : Type ℓ} (P : Vector → Type 0) (put : A → Vector) (o : Option A)
    → ((a : A) → P (put a))
    → Each P (map_setting put o)
unfolding map_setting
Each-map P put (some a) p = p a
Each-map P put none p = tt

counted-state : (kind : EventType) (v : Vector) → Each (λ u. u.state ≡ v.state) (counted kind v)
unfolding counted count_crc_error
counted-state event_enc_z_pulse v = refl
counted-state event_pcnt_clear v = refl
counted-state event_biss_crc_error v = refl
counted-state event_biss_timeout v = refl
counted-state _ v = tt

plain_cmd-state :
    (kind : EventType) (value : ℕ) (v : Vector)
    → Each (λ u. u.state ≡ v.state) (plain_cmd kind value v)
unfolding plain_cmd
plain_cmd-state kind value v =
    let P = λ (u : Vector). u.state ≡ v.state in
    Each-first_of P _ _ (Each-map P _ _ (λ a. refl)) (
      Each-first_of P _ _ (Each-map P _ _ (λ a. refl))
        (Each-first_of P _ _ (Each-map P _ _ (λ a. refl)) (counted-state kind v)))

module _ {σ : Type 0} where
  pub record Mild (w x : World σ) : Type 0 where
    pub keeps : KeepsAll w.arbiter x.arbiter
    pub state : x.vector.state ≡ w.vector.state

  abbrev pub OwnedBy : World σ → Type 0
  OwnedBy w = OwnedIn w.vector.state w.arbiter

  pub OwnedBy-Mild : (w x : World σ) → Mild w x → OwnedBy w → OwnedBy x
  OwnedBy-Mild w x m o =
      subst (λ state. OwnedIn state x.arbiter) (sym m.state)
        (OwnedIn-KeepsAll w.vector.state w.arbiter x.arbiter m.keeps o)

module _ {σ : Type 0} (h : Hardware σ) where
  start_clock-KeepsAll :
      (hz : ℕ) (c : Clocking σ)
      → IsSound c.arbiter
      → KeepsAll c.arbiter (start_clock h hz c).0.arbiter
  unfolding start_clock begin_clock
  start_clock-KeepsAll hz c v =
      if_both (λ (r : Clocking σ × Bool). KeepsAll c.arbiter r.0.arbiter)
        (not c.clock.initialized || hz == 0) (KeepsAll-same c.arbiter v)
        (if_both (λ (r : Clocking σ × Bool). KeepsAll c.arbiter r.0.arbiter) c.clock.clock_running
          (KeepsAll-same c.arbiter v)
          (if_both (λ (r : Clocking σ × Bool). KeepsAll c.arbiter r.0.arbiter)
            (acquire_owned clock_resources (some clock_owner) c.arbiter).1
            (clock_acquire-KeepsAll c.arbiter v) (clock_acquire-KeepsAll c.arbiter v)))

  pub stop_clock-KeepsAll :
      (c : Clocking σ) → IsSound c.arbiter → KeepsAll c.arbiter (stop_clock h c).arbiter
  unfolding stop_clock
  stop_clock-KeepsAll c v =
      if_both (λ (d : Clocking σ). KeepsAll c.arbiter d.arbiter) (not c.clock.initialized)
        (KeepsAll-same c.arbiter v)
        (if_both (λ (d : Clocking σ). KeepsAll c.arbiter d.arbiter) (not c.clock.clock_running)
          (KeepsAll-same c.arbiter v) (clock_release-KeepsAll c.arbiter v))

  start_sync_clock-Mild : (w : World σ) → IsSound w.arbiter → Mild w (start_sync_clock h w).0
  unfolding start_sync_clock clock_failed clocking with_clocking get_snapshot
  start_sync_clock-Mild w v =
      if_both (λ (r : World σ × Result). Mild w r.0) (w.vector.sync_clock_hz == 0)
        (record { keeps = KeepsAll-same w.arbiter v; state = refl })
        (if_both (λ (r : World σ × Result). Mild w r.0) started (record { keeps = k; state = refl })
          (record {
            keeps =
                KeepsAll-then w.arbiter after (ensure after) k (ensure-KeepsAll after k.seq.sound);
            state = refl;
          }))
    where
      call : Clocking σ × Bool
      call = start_clock h w.vector.sync_clock_hz (clocking w)

      started : Bool
      started = call.1

      after : Context
      after = call.0.arbiter

      k : KeepsAll w.arbiter after
      k = start_clock-KeepsAll w.vector.sync_clock_hz (clocking w) v

  set_clock_freq-Mild :
      (value : ℕ) (w : World σ) → IsSound w.arbiter → Mild w (set_clock_freq h value w).0
  unfolding set_clock_freq
  set_clock_freq-Mild value w v =
      let w1 = record w { vector = record w.vector { sync_clock_hz = value } } in
      let m = start_sync_clock-Mild w1 v in
      if_both (λ (r : World σ × Result). Mild w r.0) w.vector.sync_clock_enabled
        (if_both (λ (r : World σ × Result). Mild w r.0) (is_fb_ok (start_sync_clock h w1).1)
          (record { keeps = m.keeps; state = m.state })
          (if_both (λ (x : World σ). Mild w x) (start_sync_clock h w1).0.vector.sync_clock_enabled
            (record { keeps = m.keeps; state = m.state })
            (record { keeps = m.keeps; state = m.state })))
        (record { keeps = KeepsAll-same w.arbiter v; state = refl })

  set_clock_state-Mild :
      (value : ℕ) (w : World σ) → IsSound w.arbiter → Mild w (set_clock_state h value w).0
  unfolding set_clock_state clocking with_clocking
  set_clock_state-Mild value w v =
      if_both (λ (r : World σ × Result). Mild w r.0) (not (value == 0))
        (if_both (λ (r : World σ × Result). Mild w r.0) (is_fb_ok (start_sync_clock h w).1)
          (start_sync_clock-Mild w v) (start_sync_clock-Mild w v))
        (record { keeps = stop_clock-KeepsAll (clocking w) v; state = refl })

  set_enc_pins-Mild :
      (value : ℕ) (w : World σ) → IsSound w.arbiter → Mild w (set_enc_pins value w).0
  unfolding set_enc_pins with_error
  set_enc_pins-Mild value w v =
      if_both (λ (r : World σ × Result). Mild w r.0)
        (not (
          enc_pins_valid (bit_and value 0xff) (bit_and (value / 2 ^ 8) 0xff)
            (bit_and (value / 2 ^ 16) 0xff)))
        (record { keeps = KeepsAll-same w.arbiter v; state = refl })
        (record { keeps = KeepsAll-same w.arbiter v; state = refl })

  with_plain-Mild :
      (w : World σ) (o : Option Vector)
      → IsSound w.arbiter
      → Each (λ u. u.state ≡ w.vector.state) o
      → Mild w (with_plain w o).0
  unfolding with_plain
  with_plain-Mild w (some u) v e = record { keeps = KeepsAll-same w.arbiter v; state = e }
  with_plain-Mild w none v e = record { keeps = KeepsAll-same w.arbiter v; state = refl }

  pub instant_cmd-Mild :
      (kind : EventType) (value : ℕ) (w : World σ)
      → kind ≢ event_reset
      → IsSound w.arbiter
      → Mild w (instant_cmd h kind value w).0
  unfolding instant_cmd on_hardware set_sample_rate
  instant_cmd-Mild event_fire_trigger value w ne v = record {
    keeps = KeepsAll-same w.arbiter v;
    state = refl;
  }
  instant_cmd-Mild event_fire_pulse value w ne v = record {
    keeps = KeepsAll-same w.arbiter v;
    state = refl;
  }
  instant_cmd-Mild event_fire_rj45_trigger value w ne v = record {
    keeps = KeepsAll-same w.arbiter v;
    state = refl;
  }
  instant_cmd-Mild event_set_sample_rate value w ne v = record {
    keeps = KeepsAll-same w.arbiter v;
    state = refl;
  }
  instant_cmd-Mild event_set_sample_state value w ne v = record {
    keeps = KeepsAll-same w.arbiter v;
    state = refl;
  }
  instant_cmd-Mild event_set_clock_freq value w ne v = set_clock_freq-Mild value w v
  instant_cmd-Mild event_set_clock_state value w ne v = set_clock_state-Mild value w v
  instant_cmd-Mild event_set_enc_pins value w ne v = set_enc_pins-Mild value w v
  instant_cmd-Mild event_reset value w ne v = absurd (ne refl)
  instant_cmd-Mild kind value w ne v =
      with_plain-Mild w (plain_cmd kind value w.vector) v (plain_cmd-state kind value w.vector)
