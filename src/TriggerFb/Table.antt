-- ===== src/TriggerFb/Table.antt =====
-- The table of trigger_fb.c and its interpreter: `trigger_fb_execute` runs the handler of the first
-- row for the state and the event; where there is none it does nothing.
use hdrt.Prelude.{Bool, ◌&&◌, Option, none, some, List, [], ◌∷◌, ◌++◌, ◌==◌, if◌then◌else◌}
use hdrt.TriggerVector.Events.{EventType, event_code}
use hdrt.TriggerVector.Fields.{State, state_code, Event}
use hdrt.SyncIo.Hardware.{Hardware}
use hdrt.TriggerFb.World.{Result, World, reset_all}
use hdrt.TriggerFb.Commands.{instant_cmd}
use hdrt.TriggerFb.Configure.{
  idle_configure_seq, seq_configured_reconfigure, seq_armed_reject, idle_configure_biss,
  idle_configure_enc, biss_armed_pulse_in,
}
use hdrt.TriggerFb.Handlers.{
  seq_configured_arm, seq_armed_service, seq_armed_disarm, force_fault, biss_configured_arm,
  biss_armed_disarm, biss_armed_frame_rx, enc_configured_arm, enc_armed_service, enc_armed_disarm,
  runtime_sample, fault_clear,
}
use hdrt.TriggerFb.Rows.{
  Handler, Row, idle_rows, seq_configured_rows, seq_armed_rows, fault_rows, biss_configured_rows,
  biss_armed_rows, enc_configured_rows, enc_armed_rows, fb_idle_configure_seq,
  fb_idle_configure_enc, fb_idle_configure_biss, fb_instant_cmd, fb_reset_all, fb_force_fault,
  fb_seq_configured_arm, fb_seq_armed_disarm, fb_seq_configured_reconfigure, fb_seq_armed_service,
  fb_runtime_sample, fb_seq_armed_reject, fb_fault_clear, fb_biss_configured_arm,
  fb_biss_armed_disarm, fb_biss_armed_pulse_in, fb_biss_armed_frame_rx, fb_enc_configured_arm,
  fb_enc_armed_disarm, fb_enc_armed_service, row,
}

-- `s_ecc_table`
unfoldable pub ecc_table : List Row
ecc_table =
    idle_rows ++ seq_configured_rows ++ seq_armed_rows ++ fault_rows ++ biss_configured_rows
    ++ biss_armed_rows ++ enc_configured_rows ++ enc_armed_rows

unfoldable pub row_matches : State → EventType → Row → Bool
row_matches state kind (row state' kind' handler) =
    state_code state' == state_code state && event_code kind' == event_code kind

unfoldable pub row_handler : Row → Handler
row_handler (row state kind handler) = handler

unfoldable pub find_handler : State → EventType → List Row → Option Handler
find_handler state kind [] = none
find_handler state kind (r ∷ rows) =
    if row_matches state kind r then some (row_handler r) else find_handler state kind rows

module _ {σ : Type 0} (h : Hardware σ) where
  unfoldable pub run_handler : Handler → Event → World σ → World σ × Result
  run_handler fb_idle_configure_seq event w = idle_configure_seq event w
  run_handler fb_idle_configure_enc event w = idle_configure_enc w
  run_handler fb_idle_configure_biss event w = idle_configure_biss w
  run_handler fb_instant_cmd event w = instant_cmd h event.kind event.value w
  run_handler fb_reset_all event w = reset_all h w
  run_handler fb_force_fault event w = force_fault h event w
  run_handler fb_seq_configured_arm event w = seq_configured_arm h w
  run_handler fb_seq_armed_disarm event w = seq_armed_disarm h w
  run_handler fb_seq_configured_reconfigure event w = seq_configured_reconfigure event w
  run_handler fb_seq_armed_service event w = seq_armed_service h w
  run_handler fb_runtime_sample event w = runtime_sample h w
  run_handler fb_seq_armed_reject event w = seq_armed_reject w
  run_handler fb_fault_clear event w = fault_clear h w
  run_handler fb_biss_configured_arm event w = biss_configured_arm h w
  run_handler fb_biss_armed_disarm event w = biss_armed_disarm h w
  run_handler fb_biss_armed_pulse_in event w = biss_armed_pulse_in event w
  run_handler fb_biss_armed_frame_rx event w = biss_armed_frame_rx h event w
  run_handler fb_enc_configured_arm event w = enc_configured_arm h w
  run_handler fb_enc_armed_disarm event w = enc_armed_disarm h w
  run_handler fb_enc_armed_service event w = enc_armed_service h w

  -- The result of a handler is not used.
  unfoldable pub dispatch : Option Handler → Event → World σ → World σ
  dispatch (some handler) event w = (run_handler handler event w).0
  dispatch none event w = w

  unfoldable pub execute : Event → World σ → World σ
  execute event w = dispatch (find_handler w.vector.state event.kind ecc_table) event w
