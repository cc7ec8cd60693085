-- ===== src/TriggerFb/Tests.antt =====
-- The theorems about trigger_fb.c on a hardware that does what it is asked.
use mathlib.Core.Option.{none-ne-some}
use hdrt.Prelude.{
  ℕ, ◌+◌, ◌-◌, ◌/◌, ◌%◌, ◌^◌, ◌≡◌, refl, ap, true, false, none, some, List, [], ◌∷◌, arith,
}
use hdrt.BissNodeIo.Words.{received, receive_frame}
use hdrt.BissNodeIo.Receive.{ingest_words}
use hdrt.TriggerFb.Configure.{seq_configured, configure_table, idle_configure_seq}
use hdrt.TriggerFb.Frozen.{Unset, armed_settings-Unset}
use hdrt.BissNodeIo.Position.{process_frame}
use hdrt.BissNodeIo.Hits.{Outcome, process_frame-Outcome}
use hdrt.TriggerFb.Handlers.{seq_configured_arm, seq_armed_disarm}
use hdrt.TriggerFb.Rows.{idle_rows, seq_configured_rows, seq_armed_rows}
use hdrt.Bits.{test_bit}
use hdrt.ResourceArbiter.{zeroed, reset, ensure, acquire_owned}
use hdrt.ResourceArbiter.Invariant.{reset-IsValid, IsValid-IsSound}
use hdrt.TriggerVector.Events.{
  EventType, event_code, event_configure_seq, event_arm, event_disarm, event_set_biss_clock,
}
use hdrt.TriggerVector.Fields.{state_code, Event, state_idle, state_seq_armed}
use hdrt.SyncIo.Modes.{get_ops, add_if, from_mode_resources, from_mode_hw, for_mode, for_state}
use hdrt.SyncIo.Hardware.{Hardware}
use hdrt.BissNodeIo.State.{Desk, zero_node, started_node}
use hdrt.TriggerFb.World.{
  World, owner_seq_step, owner_enc_count, owner_biss_tap, seq_resources, with_state, with_error,
  release_from,
}
use hdrt.TriggerFb.Table.{
  ecc_table, row_matches, row_handler, find_handler, run_handler, dispatch, execute,
}
use hdrt.TriggerFb.Shares.{is_calm, AllAbsent, AllAbsent-OwnedIn}
use hdrt.TriggerFb.Mild.{OwnedBy}
use hdrt.TriggerFb.Init.{initial}
use hdrt.TriggerFb.Edges.{is_armed, Edge}
use hdrt.TriggerFb.Machine.{execute-Edge}
use hdrt.TriggerFb.Safety.{execute_all, execute_all-OwnedBy, armed_exclusive}

-- Its state counts the pulses; every driver arms and runs.
abbrev bench : Hardware ℕ
bench = record {
  fire_pulse_us = λ us n. n + 1;
  fire_pulse_out_us = λ us n. n + 1;
  fire_rj45_trigger_us = λ us n. n + 1;
  start_capture = λ hz n. n;
  stop_capture = λ n. n;
  run_clock = λ hz n. n;
  halt_clock = λ n. n;
  seq_step_arm = λ config n. (n, true);
  seq_step_disarm = λ n. n;
  seq_step_is_running = λ n. true;
  seq_step_get_index = λ n. 3;
  seq_step_get_rollover_count = λ n. 2;
  enc_count_arm = λ config n. (n, true);
  enc_count_disarm = λ n. n;
  enc_count_is_running = λ n. true;
  enc_count_get_count = λ n. 7;
  biss_tap_arm = λ config n. (n, true);
  biss_tap_disarm = λ n. n;
  biss_tap_is_running = λ n. true;
  biss_tap_rx_fifo_full = λ n. false;
  biss_tap_frame_words = λ n. [];
  biss_tap_read_frame_word = λ n. n;
  uptime_ms = λ n. 100;
}

unfoldable booted : World ℕ
unfolding initial zero_node reset zeroed
booted = record {
  vector = initial;
  arbiter = reset;
  clock = record { initialized = true; clock_running = false; sync_clock_hz = 1000000 };
  node = zero_node;
  hardware = 0;
}

abbrev plain_event : EventType → ℕ → Event
plain_event kind value = record {
  kind = kind;
  seq_config = record { table = none; length = 0; width = 0 };
  value = value;
}

abbrev configure_event : Event
configure_event = record {
  kind = event_configure_seq;
  seq_config = record { table = some (λ i. i); length = 4; width = 2 };
  value = 0;
}

booted-AllAbsent : AllAbsent booted.arbiter
unfolding booted ensure
booted-AllAbsent = record {
  sound = IsValid-IsSound reset reset-IsValid;
  seq = λ j e. none-ne-some owner_seq_step e;
  enc = λ j e. none-ne-some owner_enc_count e;
  biss = λ j e. none-ne-some owner_biss_tap e;
}

booted_calm : is_calm booted.vector.state ≡ true
unfolding booted is_calm
booted_calm = refl

abbrev arming : List Event
arming = configure_event ∷ plain_event event_arm 0 ∷ []

armed_state : (execute_all bench arming booted).vector.state ≡ state_seq_armed
unfolding execute_all execute dispatch find_handler ecc_table idle_rows seq_configured_rows
    seq_armed_rows row_matches row_handler state_code event_code booted run_handler
    idle_configure_seq configure_table seq_configured seq_configured_arm seq_armed_disarm
    seq_resources for_mode get_ops from_mode_resources from_mode_hw add_if acquire_owned ensure
    reset zeroed with_state with_error release_from initial
armed_state = refl

armed_exclusive_example :
    (acquire_owned 64 (some "storage") (execute_all bench arming booted).arbiter).1 ≡ false
unfolding is_armed for_state for_mode get_ops from_mode_resources from_mode_hw add_if test_bit
armed_exclusive_example =
    armed_exclusive bench arming booted 64 (some "storage") 6 booted_calm booted-AllAbsent
      (ap is_armed armed_state) (ap (λ s. test_bit (for_state s) 6) armed_state) refl

disarming :
    (execute_all bench
      (configure_event ∷ plain_event event_arm 0 ∷ plain_event event_disarm 0 ∷ [])
      booted).vector.state
    ≡ state_idle
unfolding execute_all execute dispatch find_handler ecc_table idle_rows seq_configured_rows
    seq_armed_rows row_matches row_handler state_code event_code booted run_handler
    idle_configure_seq configure_table seq_configured seq_configured_arm seq_armed_disarm
    seq_resources for_mode get_ops from_mode_resources from_mode_hw add_if acquire_owned ensure
    reset zeroed with_state with_error release_from initial
disarming = refl

execute_all-OwnedBy_example : OwnedBy (execute_all bench arming booted)
execute_all-OwnedBy_example =
    execute_all-OwnedBy bench arming booted
      (AllAbsent-OwnedIn booted.vector.state booted.arbiter booted_calm booted-AllAbsent)

execute-Edge_example :
    Edge booted.vector.state event_configure_seq (execute bench configure_event booted).vector.state
execute-Edge_example = execute-Edge bench configure_event booted booted-AllAbsent.sound

armed_settings-Unset_example :
    Unset
      (execute_all bench arming booted).vector
      (execute bench (plain_event event_set_biss_clock 7) (execute_all bench arming booted)).vector
unfolding is_armed event_code
armed_settings-Unset_example =
    armed_settings-Unset bench (plain_event event_set_biss_clock 7)
      (execute_all bench arming booted) (ap is_armed armed_state)
      (λ e. omega (arith, ap event_code e))

abbrev listening : Desk ℕ
listening = record { vector = initial; node = started_node initial 0; hardware = 0 }

process_frame-Outcome_example :
    Outcome bench 0x8123456789ab listening (process_frame bench 0x8123456789ab listening).0
unfolding started_node
process_frame-Outcome_example = process_frame-Outcome bench 0x8123456789ab listening refl

receive_frame_example :
    let rest = initial.biss.biss_frame_bits - 32 in
    ingest_words bench
      (0x8123456789ab / 2 ^ rest ∷ 0x8123456789ab % 2 ^ rest ∷ [])
      (record { vector = initial; node = started_node initial 0; hardware = 0 })
    ≡ (process_frame bench 0x8123456789ab (received bench (started_node initial 0) initial 0)).0
unfolding initial
receive_frame_example =
    receive_frame bench initial initial 0 0x8123456789ab 0 (omega arith) (omega arith) (omega arith)
