-- ===== src/TriggerFb/Machine.antt =====
-- Every event takes the trigger along an edge of its state machine.
use mathlib.Core.Path.{subst}
use hdrt.Prelude.{◌≡◌, inl, inr, refl, sym, true, ◌&&◌, ◌||◌, not, ◌==◌, if_both}
use hdrt.TriggerFb.Configure.{seq_configured_reconfigure, seq_armed_reject, biss_armed_pulse_in}
use hdrt.ResourceArbiter.Invariant.{IsSound}
use hdrt.TriggerVector.Events.{
  EventType, event_code, event_configure_seq, event_arm, event_disarm, event_dma_rollover,
  event_fault, event_clear_fault, event_reset, event_configure_enc, event_configure_biss,
  event_runtime_sample,
}
use hdrt.TriggerVector.Fields.{
  State, mode_idle, Event, state_idle, state_seq_configured, state_seq_armed, state_enc_configured,
  state_enc_armed, state_fault, state_biss_configured, state_biss_armed,
}
use hdrt.SyncIo.Hardware.{Hardware}
use hdrt.BissNodeIo.Quiet.{process_position-Quiet}
use hdrt.TriggerFb.World.{Result, World, desk, with_desk, with_state, reset_all}
use hdrt.TriggerFb.Handlers.{
  seq_armed_disarm, force_fault, biss_armed_disarm, biss_armed_frame_rx, enc_armed_disarm,
  runtime_sample, fault_clear,
}
use hdrt.TriggerFb.Rows.{
  Handler, fb_idle_configure_seq, fb_idle_configure_enc, fb_idle_configure_biss, fb_instant_cmd,
  fb_reset_all, fb_force_fault, fb_seq_configured_arm, fb_seq_armed_disarm,
  fb_seq_configured_reconfigure, fb_seq_armed_service, fb_runtime_sample, fb_seq_armed_reject,
  fb_fault_clear, fb_biss_configured_arm, fb_biss_armed_disarm, fb_biss_armed_pulse_in,
  fb_biss_armed_frame_rx, fb_enc_configured_arm, fb_enc_armed_disarm, fb_enc_armed_service,
}
use hdrt.TriggerFb.Table.{run_handler, execute}
use hdrt.TriggerFb.Dispatch.{execute_by}
use hdrt.TriggerFb.Mild.{instant_cmd-Mild}
use hdrt.TriggerFb.Edges.{
  is_armed, Edge, is_state, is_kind, meant, every-meant, is_state_lem, is_kind_lem, not_reset,
  moved, ends, both, either, stays, resets, faults, clears, disarms, configures_seq, configures_enc,
  configures_biss, refused, arms_seq, arms_enc, arms_biss, lost_rollover, lost_sample,
}
use hdrt.TriggerFb.Landing.{
  Lands, configure_seq-Lands, configure_enc-Lands, configure_biss-Lands, seq_arm-Lands,
  enc_arm-Lands, biss_arm-Lands, seq_service-Lands, enc_service-Lands, sample_in-Lands,
}

module _ {σ : Type 0} (h : Hardware σ) where
  -- The edge of a handler that lands in `t`, given the edge of the machine that ends there.
  landed :
      (k : EventType) (t : State) (w x : World σ)
      → Lands h t w x
      → Edge w.vector.state k t
      → Edge w.vector.state k x.vector.state
  landed k t w x (inl e) edge = ends w.vector.state x.vector.state k e
  landed k t w x (inr e) edge = subst (λ r. Edge w.vector.state k r) (sym e) edge

  -- The edge that starts in the state `s` for the event `j`.
  from :
      (w : World σ) (s : State) (k j : EventType) (t : State)
      → (is_state w.vector.state s && is_kind k j) ≡ true
      → Edge s j t
      → Edge w.vector.state k t
  from w s k j t e edge =
      let p = both (is_state w.vector.state s) (is_kind k j) e in
      moved w.vector.state s k j t (is_state_lem w.vector.state s p.0) (is_kind_lem k j p.1) edge

  on :
      (w : World σ) (k j : EventType) (t : State)
      → is_kind k j ≡ true
      → Edge w.vector.state j t
      → Edge w.vector.state k t
  on w k j t e edge = moved w.vector.state w.vector.state k j t refl (is_kind_lem k j e) edge

  -- A configuration again, from the state that it leads to, changes no state.
  again :
      (w : World σ) (s t : State) (k j : EventType)
      → ((is_state w.vector.state s || is_state w.vector.state t) && is_kind k j) ≡ true
      → Edge s j t
      → Edge w.vector.state k t
  again w s t k j e edge =
      let p = both (is_state w.vector.state s || is_state w.vector.state t) (is_kind k j) e in
      elim (either (is_state w.vector.state s) (is_state w.vector.state t) p.0) [
        | inl a ↦
            moved w.vector.state s k j t (is_state_lem w.vector.state s a) (is_kind_lem k j p.1)
              edge
        | inr a ↦ ends w.vector.state t k (sym (is_state_lem w.vector.state t a))
      ]

  lost :
      (w : World σ) (k j : EventType)
      → (is_armed w.vector.state && is_kind k j) ≡ true
      → (is_armed w.vector.state ≡ true → Edge w.vector.state j state_fault)
      → Edge w.vector.state k state_fault
  lost w k j e edge =
      let p = both (is_armed w.vector.state) (is_kind k j) e in on w k j state_fault p.1 (edge p.0)

  cleared :
      (w : World σ) (k : EventType)
      → (is_state w.vector.state state_fault
          && (is_kind k event_clear_fault || is_kind k event_disarm))
        ≡ true
      → Edge w.vector.state k state_idle
  cleared w k e =
      let p =
        both (is_state w.vector.state state_fault)
          (is_kind k event_clear_fault || is_kind k event_disarm) e in
      elim (either (is_kind k event_clear_fault) (is_kind k event_disarm) p.1) [
        | inl a ↦
            moved w.vector.state state_fault k event_clear_fault state_idle
              (is_state_lem w.vector.state state_fault p.0) (is_kind_lem k event_clear_fault a)
              clears
        | inr a ↦ on w k event_disarm state_idle a (disarms w.vector.state)
      ]

  reconfigured :
      (event : Event) (w : World σ)
      → (is_state w.vector.state state_seq_configured && is_kind event.kind event_configure_seq)
        ≡ true
      → Edge w.vector.state event.kind (seq_configured_reconfigure event w).0.vector.state
  unfolding seq_configured_reconfigure
  reconfigured event w e =
      if_both (λ (r : World σ × Result). Edge w.vector.state event.kind r.0.vector.state)
        (not (event_code event.kind == event_code event_configure_seq))
        (stays w.vector.state event.kind)
        (elim (configure_seq-Lands h event
          (record w { vector = record w.vector { active_mode = mode_idle; state = state_idle } })) [
            | inl a ↦
                subst (λ r. Edge w.vector.state event.kind r) (sym a)
                  (from w state_seq_configured event.kind event_configure_seq state_idle e refused)
            | inr a ↦
                subst (λ r. Edge w.vector.state event.kind r) (sym a)
                  (from w state_seq_configured event.kind event_configure_seq state_seq_configured e
                    (stays state_seq_configured event_configure_seq))
          ])

  run_handler-Edge :
      (hd : Handler) (event : Event) (w : World σ)
      → meant w.vector.state event.kind hd ≡ true
      → IsSound w.arbiter
      → Edge w.vector.state event.kind (run_handler h hd event w).0.vector.state
  unfolding run_handler meant reset_all force_fault fault_clear seq_armed_disarm biss_armed_disarm
      enc_armed_disarm with_state seq_armed_reject biss_armed_pulse_in biss_armed_frame_rx with_desk
      desk runtime_sample
  run_handler-Edge fb_idle_configure_seq event w e v =
      landed event.kind state_seq_configured w (run_handler h fb_idle_configure_seq event w).0
        (configure_seq-Lands h event w)
        (from w state_idle event.kind event_configure_seq state_seq_configured e configures_seq)
  run_handler-Edge fb_idle_configure_enc event w e v =
      landed event.kind state_enc_configured w (run_handler h fb_idle_configure_enc event w).0
        (configure_enc-Lands h w)
        (again w state_idle state_enc_configured event.kind event_configure_enc e configures_enc)
  run_handler-Edge fb_idle_configure_biss event w e v =
      landed event.kind state_biss_configured w (run_handler h fb_idle_configure_biss event w).0
        (configure_biss-Lands h w)
        (again w state_idle state_biss_configured event.kind event_configure_biss e configures_biss)
  run_handler-Edge fb_instant_cmd event w e v =
      ends w.vector.state _ event.kind
        (instant_cmd-Mild h event.kind event.value w (not_reset event.kind e) v).state
  run_handler-Edge fb_reset_all event w e v =
      on w event.kind event_reset state_idle e (resets w.vector.state)
  run_handler-Edge fb_force_fault event w e v =
      on w event.kind event_fault state_fault e (faults w.vector.state)
  run_handler-Edge fb_seq_configured_arm event w e v =
      landed event.kind state_seq_armed w (run_handler h fb_seq_configured_arm event w).0
        (seq_arm-Lands h w)
        (from w state_seq_configured event.kind event_arm state_seq_armed e arms_seq)
  run_handler-Edge fb_seq_armed_disarm event w e v =
      on w event.kind event_disarm state_idle e (disarms w.vector.state)
  run_handler-Edge fb_seq_configured_reconfigure event w e v = reconfigured event w e
  run_handler-Edge fb_seq_armed_service event w e v =
      landed event.kind state_fault w (run_handler h fb_seq_armed_service event w).0
        (seq_service-Lands h w)
        (lost w event.kind event_dma_rollover e (lost_rollover w.vector.state))
  run_handler-Edge fb_runtime_sample event w e v =
      landed event.kind state_fault w (run_handler h fb_runtime_sample event w).0
        (sample_in-Lands h w.vector.state w)
        (lost w event.kind event_runtime_sample e (lost_sample w.vector.state))
  run_handler-Edge fb_seq_armed_reject event w e v = stays w.vector.state event.kind
  run_handler-Edge fb_fault_clear event w e v = cleared w event.kind e
  run_handler-Edge fb_biss_configured_arm event w e v =
      landed event.kind state_biss_armed w (run_handler h fb_biss_configured_arm event w).0
        (biss_arm-Lands h w)
        (from w state_biss_configured event.kind event_arm state_biss_armed e arms_biss)
  run_handler-Edge fb_biss_armed_disarm event w e v =
      on w event.kind event_disarm state_idle e (disarms w.vector.state)
  run_handler-Edge fb_biss_armed_pulse_in event w e v = stays w.vector.state event.kind
  run_handler-Edge fb_biss_armed_frame_rx event w e v =
      ends w.vector.state _ event.kind (process_position-Quiet h event.value (desk w)).state
  run_handler-Edge fb_enc_configured_arm event w e v =
      landed event.kind state_enc_armed w (run_handler h fb_enc_configured_arm event w).0
        (enc_arm-Lands h w)
        (from w state_enc_configured event.kind event_arm state_enc_armed e arms_enc)
  run_handler-Edge fb_enc_armed_disarm event w e v =
      on w event.kind event_disarm state_idle e (disarms w.vector.state)
  run_handler-Edge fb_enc_armed_service event w e v =
      landed event.kind state_fault w (run_handler h fb_enc_armed_service event w).0
        (enc_service-Lands h w)
        (lost w event.kind event_dma_rollover e (lost_rollover w.vector.state))

  -- Every event, in every state, takes the trigger along an edge of the state machine (or leaves it
  -- in its state), whatever the hardware does, given a sound arbiter. So a mode is armed only from
  -- its configured state and by ARM, and FAULT is left only by CLEAR_FAULT, DISARM or RESET.
  pub execute-Edge :
      (event : Event) (w : World σ)
      → IsSound w.arbiter
      → Edge w.vector.state event.kind (execute h event w).vector.state
  execute-Edge event w v =
      execute_by h meant (λ x. Edge w.vector.state event.kind x.vector.state) event w every-meant
        (stays w.vector.state event.kind) (λ hd e. run_handler-Edge hd event w e v)
