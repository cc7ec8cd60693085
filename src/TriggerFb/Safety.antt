-- ===== src/TriggerFb/Safety.antt =====
-- The trigger and the arbiter, under any sequence of events.
use hdrt.Prelude.{ℕ, ◌≡◌, refl, Bool, true, false, List, [], ◌∷◌, arith}
use hdrt.TriggerFb.Configure.{idle_configure_seq, seq_armed_reject, biss_armed_pulse_in}
use hdrt.ResourceArbiter.{Owner, Context, acquire_owned}
use hdrt.ResourceArbiter.Ownership.{acquire_taken}
use hdrt.TriggerVector.Events.{EventType}
use hdrt.TriggerVector.Fields.{State, Event, state_seq_armed, state_enc_armed, state_biss_armed}
use hdrt.SyncIo.Hardware.{Hardware}
use hdrt.SyncIo.Modes.{for_state}
use hdrt.TriggerFb.Edges.{is_armed}
use hdrt.TriggerFb.World.{
  World, owner_seq_step, owner_enc_count, owner_biss_tap, seq_resources, enc_resources,
  biss_resources,
}
use hdrt.Bits.{test_bit}
use hdrt.TriggerFb.Rows.{
  Handler, idle_rows, seq_configured_rows, seq_armed_rows, fault_rows, biss_configured_rows,
  biss_armed_rows, enc_configured_rows, enc_armed_rows, fb_idle_configure_seq,
  fb_idle_configure_enc, fb_idle_configure_biss, fb_instant_cmd, fb_reset_all, fb_force_fault,
  fb_seq_configured_arm, fb_seq_armed_disarm, fb_seq_configured_reconfigure, fb_seq_armed_service,
  fb_runtime_sample, fb_seq_armed_reject, fb_fault_clear, fb_biss_configured_arm,
  fb_biss_armed_disarm, fb_biss_armed_pulse_in, fb_biss_armed_frame_rx, fb_enc_configured_arm,
  fb_enc_armed_disarm, fb_enc_armed_service,
}
use hdrt.TriggerFb.Table.{ecc_table, run_handler, execute}
use hdrt.TriggerFb.Dispatch.{every, execute_by}
use hdrt.TriggerFb.Shares.{
  seq_share, enc_share, biss_share, OwnedIn, is_calm, AllAbsent, AllAbsent-OwnedIn,
}
use hdrt.TriggerFb.Mild.{OwnedBy}
use hdrt.TriggerFb.Ownership.{
  reset_all-OwnedBy, fault_clear-OwnedBy, force_fault-OwnedBy, instant_cmd-OwnedBy,
  configure_seq-OwnedBy, reconfigure-OwnedBy, configure_biss-OwnedBy, configure_enc-OwnedBy,
  seq_service-OwnedBy, enc_service-OwnedBy,
}
use hdrt.TriggerFb.Arming.{
  is_seq, is_enc, is_biss, seq_configured_arm-OwnedBy, seq_armed_disarm-OwnedBy,
  enc_configured_arm-OwnedBy, enc_armed_disarm-OwnedBy, biss_configured_arm-OwnedBy,
  biss_armed_disarm-OwnedBy, frame_rx-OwnedBy, runtime_sample-OwnedBy,
}

-- The states in which the table runs a handler that arms, configures or disarms.
unfoldable placed : State → EventType → Handler → Bool
placed state kind fb_idle_configure_seq = is_calm state
placed state kind fb_idle_configure_enc = is_calm state
placed state kind fb_idle_configure_biss = is_calm state
placed state kind fb_seq_configured_reconfigure = is_calm state
placed state kind fb_seq_configured_arm = is_calm state
placed state kind fb_biss_configured_arm = is_calm state
placed state kind fb_enc_configured_arm = is_calm state
placed state kind fb_seq_armed_disarm = is_seq state
placed state kind fb_biss_armed_disarm = is_biss state
placed state kind fb_enc_armed_disarm = is_enc state
placed state kind _ = true

every-placed : every placed ecc_table ≡ true
unfolding every placed ecc_table idle_rows seq_configured_rows seq_armed_rows fault_rows
    biss_configured_rows biss_armed_rows enc_configured_rows enc_armed_rows is_calm is_seq is_enc
    is_biss
every-placed = refl

-- An armed mode holds the resources of its state, so nobody else gets one.
armed-taken :
    (state : State) (s : Context) (resources : ℕ) (by : Owner) (j : ℕ)
    → is_armed state ≡ true
    → test_bit (for_state state) j ≡ true
    → test_bit resources j ≡ true
    → OwnedIn state s
    → (acquire_owned resources by s).1 ≡ false
unfolding is_armed for_state seq_share enc_share biss_share seq_resources enc_resources
    biss_resources
armed-taken state_seq_armed s resources by j armed inside asks o =
    acquire_taken j owner_seq_step resources by s (o.seq.1 j inside) asks
armed-taken state_enc_armed s resources by j armed inside asks o =
    acquire_taken j owner_enc_count resources by s (o.enc.1 j inside) asks
armed-taken state_biss_armed s resources by j armed inside asks o =
    acquire_taken j owner_biss_tap resources by s (o.biss.1 j inside) asks
armed-taken _ s resources by j armed inside asks o = ground arith

module _ {σ : Type 0} (h : Hardware σ) where
  run_handler-OwnedBy :
      (hd : Handler) (event : Event) (w : World σ)
      → placed w.vector.state event.kind hd ≡ true
      → OwnedBy w
      → OwnedBy (run_handler h hd event w).0
  unfolding run_handler placed idle_configure_seq seq_armed_reject biss_armed_pulse_in
  run_handler-OwnedBy fb_idle_configure_seq event w e o =
      configure_seq-OwnedBy h event.seq_config.table event.seq_config.length event.seq_config.width
        w e o
  run_handler-OwnedBy fb_idle_configure_enc event w e o = configure_enc-OwnedBy h w e o
  run_handler-OwnedBy fb_idle_configure_biss event w e o = configure_biss-OwnedBy h w e o
  run_handler-OwnedBy fb_instant_cmd event w e o = instant_cmd-OwnedBy h event.kind event.value w o
  run_handler-OwnedBy fb_reset_all event w e o = reset_all-OwnedBy h w o
  run_handler-OwnedBy fb_force_fault event w e o = force_fault-OwnedBy h event w o
  run_handler-OwnedBy fb_seq_configured_arm event w e o = seq_configured_arm-OwnedBy h w e o
  run_handler-OwnedBy fb_seq_armed_disarm event w e o = seq_armed_disarm-OwnedBy h w e o
  run_handler-OwnedBy fb_seq_configured_reconfigure event w e o = reconfigure-OwnedBy h event w e o
  run_handler-OwnedBy fb_seq_armed_service event w e o = seq_service-OwnedBy h w o
  run_handler-OwnedBy fb_runtime_sample event w e o = runtime_sample-OwnedBy h w o
  run_handler-OwnedBy fb_seq_armed_reject event w e o = o
  run_handler-OwnedBy fb_fault_clear event w e o = fault_clear-OwnedBy h w o
  run_handler-OwnedBy fb_biss_configured_arm event w e o = biss_configured_arm-OwnedBy h w e o
  run_handler-OwnedBy fb_biss_armed_disarm event w e o = biss_armed_disarm-OwnedBy h w e o
  run_handler-OwnedBy fb_biss_armed_pulse_in event w e o = o
  run_handler-OwnedBy fb_biss_armed_frame_rx event w e o = frame_rx-OwnedBy h event w o
  run_handler-OwnedBy fb_enc_configured_arm event w e o = enc_configured_arm-OwnedBy h w e o
  run_handler-OwnedBy fb_enc_armed_disarm event w e o = enc_armed_disarm-OwnedBy h w e o
  run_handler-OwnedBy fb_enc_armed_service event w e o = enc_service-OwnedBy h w o

  execute-OwnedBy : (event : Event) (w : World σ) → OwnedBy w → OwnedBy (execute h event w)
  execute-OwnedBy event w o =
      execute_by h placed OwnedBy event w every-placed o
        (λ hd e. run_handler-OwnedBy hd event w e o)

  unfoldable pub execute_all : List Event → World σ → World σ
  execute_all [] w = w
  execute_all (event ∷ events) w = execute_all events (execute h event w)

  -- A world in which what each mode holds of the arbiter fits the state of the trigger stays one,
  -- whatever events arrive and whatever the hardware does: an armed mode holds all its resources and
  -- no others; a mode that is not armed holds none, outside FAULT; in FAULT no mode holds a resource
  -- of another; and the arbiter is sound.
  pub execute_all-OwnedBy :
      (events : List Event) (w : World σ) → OwnedBy w → OwnedBy (execute_all events w)
  unfolding execute_all
  execute_all-OwnedBy [] w o = o
  execute_all-OwnedBy (event ∷ events) w o =
      execute_all-OwnedBy events (execute h event w) (execute-OwnedBy event w o)

  from_calm :
      (events : List Event) (w : World σ)
      → is_calm w.vector.state ≡ true
      → AllAbsent w.arbiter
      → OwnedBy (execute_all events w)
  from_calm events w calm absent =
      execute_all-OwnedBy events w (AllAbsent-OwnedIn w.vector.state w.arbiter calm absent)

  -- Mutual exclusion. After any events from a calm state in which the three owners hold nothing,
  -- while a mode is armed every call of the arbiter that asks for one of the resources that
  -- `trigger_resource_map_for_state` gives for the state fails, whoever makes it.
  pub armed_exclusive :
      (events : List Event) (w : World σ) (resources : ℕ) (by : Owner) (j : ℕ)
      → is_calm w.vector.state ≡ true
      → AllAbsent w.arbiter
      → is_armed (execute_all events w).vector.state ≡ true
      → test_bit (for_state (execute_all events w).vector.state) j ≡ true
      → test_bit resources j ≡ true
      → (acquire_owned resources by (execute_all events w).arbiter).1 ≡ false
  armed_exclusive events w resources by j calm absent armed inside asks =
      armed-taken (execute_all events w).vector.state (execute_all events w).arbiter resources by j
        armed inside asks (from_calm events w calm absent)
