-- ===== src/TriggerFb/Ownership.antt =====
-- The configuration, the commands, the reset and the faults of trigger_fb.c leave the resources with
-- their right owners.
use mathlib.Core.Path.{subst}
use hdrt.Prelude.{
  ℕ, ◌≡◌, ◌∙◌, refl, sym, ap, true, ◌||◌, not, Option, none, some, ltb, ◌==◌, arith, if_both,
  length,
}
use hdrt.TriggerFb.Configure.{
  seq_configured, configure_table, idle_configure_seq, seq_configured_reconfigure,
  idle_configure_biss, idle_configure_enc,
}
use hdrt.TriggerVector.Events.{EventType, event_code, event_configure_seq, event_reset}
use hdrt.TriggerVector.Fields.{
  State, mode_idle, seq_table_max, seq_width_max, Event, state_idle, state_seq_configured,
  state_enc_configured, state_biss_configured,
}
use hdrt.SyncIo.Hardware.{Hardware}
use hdrt.SyncIo.Clock.{stop_clock}
use hdrt.TriggerFb.World.{
  Result, World, owner_seq_step, owner_enc_count, owner_biss_tap, seq_resources, enc_resources,
  biss_resources, clocking, with_clocking, with_desk, with_state, with_error, release_from,
  release_seq_step, release_enc_count, release_biss_tap, release_running_io, reset_all,
  valid_biss_config, enc_pins_valid,
}
use hdrt.TriggerFb.Commands.{instant_cmd}
use hdrt.TriggerFb.Handlers.{seq_armed_service, force_fault, enc_armed_service, fault_clear}
use hdrt.TriggerFb.Shares.{
  OwnedIn, OwnedIn-KeepsAll, is_calm, AllAbsent, calm-AllAbsent, AllAbsent-OwnedIn, OwnedIn-fault,
}
use hdrt.TriggerFb.Arbitration.{seq_released, enc_released, biss_released, release_all-AllAbsent}
use hdrt.TriggerFb.Mild.{OwnedBy, OwnedBy-Mild, stop_clock-KeepsAll, instant_cmd-Mild}

module _ {σ : Type 0} (h : Hardware σ) where
  pub calmly :
      (w : World σ) (state : State)
      → is_calm w.vector.state ≡ true
      → is_calm state ≡ true
      → OwnedBy w
      → OwnedIn state w.arbiter
  calmly w state e f o =
      AllAbsent-OwnedIn state w.arbiter f (calm-AllAbsent w.vector.state w.arbiter e o)

  release_seq_step-arbiter : (w : World σ) → (release_seq_step h w).arbiter ≡ seq_released w.arbiter
  unfolding release_seq_step release_from
  release_seq_step-arbiter w =
      if_both
        (λ (x : World σ).
          (release_from seq_resources owner_seq_step x).arbiter ≡ seq_released w.arbiter)
        (h.seq_step_is_running w.hardware) refl refl

  release_enc_count-arbiter :
      (w : World σ) → (release_enc_count h w).arbiter ≡ enc_released w.arbiter
  unfolding release_enc_count release_from
  release_enc_count-arbiter w =
      if_both
        (λ (x : World σ).
          (release_from enc_resources owner_enc_count x).arbiter ≡ enc_released w.arbiter)
        (h.enc_count_is_running w.hardware) refl refl

  release_biss_tap-arbiter :
      (w : World σ) → (release_biss_tap h w).arbiter ≡ biss_released w.arbiter
  unfolding release_biss_tap release_from with_desk
  release_biss_tap-arbiter w =
      if_both
        (λ (x : World σ).
          (release_from biss_resources owner_biss_tap x).arbiter ≡ biss_released w.arbiter)
        (w.node.running || h.biss_tap_is_running w.hardware) refl refl

  release_running_io-arbiter :
      (w : World σ)
      → (release_running_io h w).arbiter ≡ biss_released (enc_released (seq_released w.arbiter))
  unfolding release_running_io
  release_running_io-arbiter w =
      release_biss_tap-arbiter (release_enc_count h (release_seq_step h w))
      ∙ ap (λ s. biss_released s)
          (release_enc_count-arbiter (release_seq_step h w)
            ∙ ap (λ s. enc_released s) (release_seq_step-arbiter w))

  -- After the release of the running drivers none of the three owners holds anything.
  release_running_io-AllAbsent :
      (w : World σ) → OwnedBy w → AllAbsent (release_running_io h w).arbiter
  release_running_io-AllAbsent w o =
      subst AllAbsent (sym (release_running_io-arbiter w))
        (release_all-AllAbsent w.vector.state w.arbiter o)

  pub reset_all-OwnedBy : (w : World σ) → OwnedBy w → OwnedBy (reset_all h w).0
  unfolding reset_all clocking with_clocking is_calm
  reset_all-OwnedBy w o =
      let c = stop_clock h (clocking w) in
      let w1 = record (with_clocking w c) { hardware = h.stop_capture c.hardware } in
      AllAbsent-OwnedIn state_idle _ refl (
        release_running_io-AllAbsent w1 (
          OwnedIn-KeepsAll w.vector.state w.arbiter c.arbiter
            (stop_clock-KeepsAll h (clocking w) o.sound) o))

  pub fault_clear-OwnedBy : (w : World σ) → OwnedBy w → OwnedBy (fault_clear h w).0
  unfolding fault_clear is_calm
  fault_clear-OwnedBy w o = AllAbsent-OwnedIn state_idle _ refl (release_running_io-AllAbsent w o)

  pub force_fault-OwnedBy :
      (event : Event) (w : World σ) → OwnedBy w → OwnedBy (force_fault h event w).0
  unfolding force_fault is_calm
  force_fault-OwnedBy event w o =
      OwnedIn-fault state_idle _
        (AllAbsent-OwnedIn state_idle _ refl (release_running_io-AllAbsent w o))

  pub instant_cmd-OwnedBy :
      (kind : EventType) (value : ℕ) (w : World σ)
      → OwnedBy w
      → OwnedBy (instant_cmd h kind value w).0
  unfolding instant_cmd event_code
  instant_cmd-OwnedBy event_reset value w o = reset_all-OwnedBy w o
  instant_cmd-OwnedBy kind value w o =
      OwnedBy-Mild w (instant_cmd h kind value w).0
        (instant_cmd-Mild h kind value w (λ e. omega (arith, ap event_code e)) o.sound) o

  pub configure_seq-OwnedBy :
      (table : Option (ℕ → ℕ)) (length width : ℕ) (w : World σ)
      → is_calm w.vector.state ≡ true
      → OwnedBy w
      → OwnedBy (configure_table table length width w).0
  unfolding configure_table with_error seq_configured is_calm
  configure_seq-OwnedBy none length width w calm o = o
  configure_seq-OwnedBy (some table) length width w calm o =
      if_both (λ (r : World σ × Result). OwnedBy r.0)
        (length == 0 || ltb seq_table_max length || width == 0 || ltb seq_width_max width) o
        (calmly w state_seq_configured calm refl o)

  pub reconfigure-OwnedBy :
      (event : Event) (w : World σ)
      → is_calm w.vector.state ≡ true
      → OwnedBy w
      → OwnedBy (seq_configured_reconfigure event w).0
  unfolding seq_configured_reconfigure idle_configure_seq is_calm
  reconfigure-OwnedBy event w calm o =
      if_both (λ (r : World σ × Result). OwnedBy r.0)
        (not (event_code event.kind == event_code event_configure_seq)) o
        (configure_seq-OwnedBy event.seq_config.table event.seq_config.length event.seq_config.width
          (record w { vector = record w.vector { active_mode = mode_idle; state = state_idle } })
          refl (calmly w state_idle calm refl o))

  pub configure_biss-OwnedBy :
      (w : World σ) → is_calm w.vector.state ≡ true → OwnedBy w → OwnedBy (idle_configure_biss w).0
  unfolding idle_configure_biss with_error is_calm
  configure_biss-OwnedBy w calm o =
      if_both (λ (r : World σ × Result). OwnedBy r.0) (not (valid_biss_config w.vector)) o
        (calmly w state_biss_configured calm refl o)

  pub configure_enc-OwnedBy :
      (w : World σ) → is_calm w.vector.state ≡ true → OwnedBy w → OwnedBy (idle_configure_enc w).0
  unfolding idle_configure_enc with_error is_calm
  configure_enc-OwnedBy w calm o =
      if_both (λ (r : World σ × Result). OwnedBy r.0) (w.vector.enc.enc_target == 0) o
        (if_both (λ (r : World σ × Result). OwnedBy r.0)
          (not
            (enc_pins_valid w.vector.enc.enc_a_pin w.vector.enc.enc_b_pin w.vector.enc.enc_z_pin))
          o (calmly w state_enc_configured calm refl o))

  pub seq_service-OwnedBy : (w : World σ) → OwnedBy w → OwnedBy (seq_armed_service h w).0
  unfolding seq_armed_service
  seq_service-OwnedBy w o =
      if_both (λ (r : World σ × Result). OwnedBy r.0) (not (h.seq_step_is_running w.hardware))
        (OwnedIn-fault w.vector.state w.arbiter o) o

  pub enc_service-OwnedBy : (w : World σ) → OwnedBy w → OwnedBy (enc_armed_service h w).0
  unfolding enc_armed_service with_state
  enc_service-OwnedBy w o =
      if_both (λ (r : World σ × Result). OwnedBy r.0) (not (h.enc_count_is_running w.hardware))
        (OwnedIn-fault w.vector.state w.arbiter o) o
