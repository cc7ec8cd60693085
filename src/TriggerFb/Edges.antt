-- ===== src/TriggerFb/Edges.antt =====
-- The state machine of the trigger: which event takes it from which state to which.
use mathlib.Core.Path.{subst}
use hdrt.Prelude.{◌≡◌, ◌≢◌, ◌⊎◌, refl, sym, ap, Bool, true, false, ◌&&◌, ◌||◌, not, ◌==◌, arith}
use hdrt.TriggerVector.Events.{
  EventType, event_code, event_configure_seq, event_arm, event_disarm, event_dma_rollover,
  event_fault, event_clear_fault, event_reset, event_configure_enc, event_configure_biss,
  event_runtime_sample,
}
use hdrt.TriggerVector.Fields.{
  State, state_code, state_idle, state_seq_configured, state_seq_armed, state_enc_configured,
  state_enc_armed, state_fault, state_biss_configured, state_biss_armed,
}
use hdrt.TriggerVector.Codes.{event_code_injective, state_code_injective}
use hdrt.TriggerFb.Rows.{
  Handler, idle_rows, seq_configured_rows, seq_armed_rows, fault_rows, biss_configured_rows,
  biss_armed_rows, enc_configured_rows, enc_armed_rows, fb_idle_configure_seq,
  fb_idle_configure_enc, fb_idle_configure_biss, fb_instant_cmd, fb_reset_all, fb_force_fault,
  fb_seq_configured_arm, fb_seq_armed_disarm, fb_seq_configured_reconfigure, fb_seq_armed_service,
  fb_runtime_sample, fb_seq_armed_reject, fb_fault_clear, fb_biss_configured_arm,
  fb_biss_armed_disarm, fb_biss_armed_pulse_in, fb_biss_armed_frame_rx, fb_enc_configured_arm,
  fb_enc_armed_disarm, fb_enc_armed_service,
}
use hdrt.TriggerFb.Table.{ecc_table}
use hdrt.TriggerFb.Dispatch.{every}

unfoldable pub is_armed : State → Bool
is_armed state_seq_armed = true
is_armed state_enc_armed = true
is_armed state_biss_armed = true
is_armed _ = false

-- The state machine that the comments of trigger_fb.c describe.
pub data Edge : State → EventType → State → Type 0 where
  stays : (s : State) (k : EventType) → Edge s k s
  resets : (s : State) → Edge s event_reset state_idle
  faults : (s : State) → Edge s event_fault state_fault
  clears : Edge state_fault event_clear_fault state_idle
  disarms : (s : State) → Edge s event_disarm state_idle
  configures_seq : Edge state_idle event_configure_seq state_seq_configured
  configures_enc : Edge state_idle event_configure_enc state_enc_configured
  configures_biss : Edge state_idle event_configure_biss state_biss_configured
  refused : Edge state_seq_configured event_configure_seq state_idle
  arms_seq : Edge state_seq_configured event_arm state_seq_armed
  arms_enc : Edge state_enc_configured event_arm state_enc_armed
  arms_biss : Edge state_biss_configured event_arm state_biss_armed
  lost_rollover : (s : State) → is_armed s ≡ true → Edge s event_dma_rollover state_fault
  lost_sample : (s : State) → is_armed s ≡ true → Edge s event_runtime_sample state_fault

unfoldable pub is_state : State → State → Bool
is_state s t = state_code s == state_code t

unfoldable pub is_kind : EventType → EventType → Bool
is_kind j k = event_code j == event_code k

-- The state and the event with which each handler stands in the table.
unfoldable pub meant : State → EventType → Handler → Bool
unfolding is_state is_kind
meant s k fb_idle_configure_seq = is_state s state_idle && is_kind k event_configure_seq
meant s k fb_idle_configure_enc =
    (is_state s state_idle || is_state s state_enc_configured) && is_kind k event_configure_enc
meant s k fb_idle_configure_biss =
    (is_state s state_idle || is_state s state_biss_configured) && is_kind k event_configure_biss
meant s k fb_instant_cmd = not (is_kind k event_reset)
meant s k fb_reset_all = is_kind k event_reset
meant s k fb_force_fault = is_kind k event_fault
meant s k fb_seq_configured_arm = is_state s state_seq_configured && is_kind k event_arm
meant s k fb_seq_armed_disarm = is_kind k event_disarm
meant s k fb_seq_configured_reconfigure =
    is_state s state_seq_configured && is_kind k event_configure_seq
meant s k fb_seq_armed_service = is_armed s && is_kind k event_dma_rollover
meant s k fb_runtime_sample = is_armed s && is_kind k event_runtime_sample
meant s k fb_seq_armed_reject = true
meant s k fb_fault_clear =
    is_state s state_fault && (is_kind k event_clear_fault || is_kind k event_disarm)
meant s k fb_biss_configured_arm = is_state s state_biss_configured && is_kind k event_arm
meant s k fb_biss_armed_disarm = is_kind k event_disarm
meant s k fb_biss_armed_pulse_in = true
meant s k fb_biss_armed_frame_rx = true
meant s k fb_enc_configured_arm = is_state s state_enc_configured && is_kind k event_arm
meant s k fb_enc_armed_disarm = is_kind k event_disarm
meant s k fb_enc_armed_service = is_armed s && is_kind k event_dma_rollover

pub every-meant : every meant ecc_table ≡ true
unfolding every meant ecc_table idle_rows seq_configured_rows seq_armed_rows fault_rows
    biss_configured_rows biss_armed_rows enc_configured_rows enc_armed_rows is_armed state_code
    event_code
every-meant = refl

pub is_state_lem : (s t : State) → is_state s t ≡ true → s ≡ t
unfolding is_state
is_state_lem s t e = state_code_injective s t (ground (arith, e))

pub is_kind_lem : (j k : EventType) → is_kind j k ≡ true → j ≡ k
unfolding is_kind
is_kind_lem j k e = event_code_injective j k (ground (arith, e))

pub not_reset : (k : EventType) → not (is_kind k event_reset) ≡ true → k ≢ event_reset
unfolding is_kind
not_reset k e p = ground (arith, e, ap event_code p)

-- An edge for any state and event that equal those of a given edge.
pub moved : (s t : State) (j k : EventType) (r : State) → s ≡ t → j ≡ k → Edge t k r → Edge s j r
moved s t j k r p q e = subst (λ x. Edge x j r) (sym p) (subst (λ x. Edge t x r) (sym q) e)

pub ends : (s r : State) (k : EventType) → r ≡ s → Edge s k r
ends s r k e = subst (λ x. Edge s k x) (sym e) (stays s k)

pub both : (a b : Bool) → (a && b) ≡ true → (a ≡ true) × (b ≡ true)
both a b e = ground arith

pub either : (a b : Bool) → (a || b) ≡ true → (a ≡ true) ⊎ (b ≡ true)
either a b e = ground arith
