-- ===== src/TriggerFb/Frozen.antt =====
-- The settings of the trigger while a mode is armed.
use hdrt.Prelude.{ℕ, ◌≡◌, ◌≢◌, ◌∙◌, refl, ap, Bool, true, false, ◌||◌, not, arith, if_both}
use hdrt.TriggerFb.Configure.{seq_armed_reject, biss_armed_pulse_in}
use hdrt.TriggerVector.Events.{
  EventType, event_code, event_set_enc_target, event_enc_z_pulse, event_pcnt_clear,
  event_biss_crc_error, event_biss_timeout,
}
use hdrt.TriggerVector.Fields.{
  State, state_code, Vector, Event, state_seq_armed, state_enc_armed, state_biss_armed,
}
use hdrt.SyncIo.Hardware.{Hardware}
use hdrt.SyncIo.Clock.{stop_clock}
use hdrt.BissNodeIo.State.{node_disarm, get_tap_config}
use hdrt.BissNodeIo.Position.{count_crc_error}
use hdrt.BissNodeIo.Receive.{
  PollResult, poll_runtime, poll_ok, poll_io_lost, poll_scan_step, poll_rearm_failed,
}
use hdrt.BissNodeIo.Quiet.{Quiet, process_position-Quiet, poll_runtime-Quiet}
use hdrt.TriggerFb.Settings.{io_setting, enc_setting, biss_setting}
use hdrt.TriggerFb.World.{
  Result, World, clocking, with_clocking, desk, with_desk, with_state, release_from,
  release_seq_step, release_enc_count, release_biss_tap, release_running_io, reset_all,
}
use hdrt.TriggerFb.Commands.{counted, first_of, map_setting, plain_cmd, with_plain, instant_cmd}
use hdrt.TriggerFb.Handlers.{
  seq_armed_service, seq_armed_disarm, force_fault, biss_armed_disarm, biss_armed_frame_rx,
  enc_armed_service, enc_armed_disarm, apply_sample_scan_step, after_poll, biss_armed_sample,
  runtime_sample_in, runtime_sample,
}
use hdrt.TriggerFb.Rows.{
  Handler, idle_rows, seq_configured_rows, seq_armed_rows, fault_rows, biss_configured_rows,
  biss_armed_rows, enc_configured_rows, enc_armed_rows, fb_instant_cmd, fb_reset_all,
  fb_force_fault, fb_seq_armed_disarm, fb_seq_armed_service, fb_runtime_sample, fb_seq_armed_reject,
  fb_biss_armed_disarm, fb_biss_armed_pulse_in, fb_biss_armed_frame_rx, fb_enc_armed_disarm,
  fb_enc_armed_service,
}
use hdrt.TriggerFb.Table.{ecc_table, run_handler, execute}
use hdrt.TriggerFb.Dispatch.{every, execute_by}
use hdrt.TriggerFb.Edges.{is_armed, is_kind}
use hdrt.TriggerFb.Landing.{rearm-Quiet}

-- Two vectors with the same settings.
pub record Unset (v u : Vector) : Type 0 where
  pub io : u.io ≡ v.io
  pub seq : u.seq ≡ v.seq
  pub enc : u.enc ≡ v.enc
  pub biss : u.biss ≡ v.biss

Unset-same : (v : Vector) → Unset v v
Unset-same v = record { io = refl; seq = refl; enc = refl; biss = refl }

Quiet-Unset : (v u : Vector) → Quiet v u → Unset v u
Quiet-Unset v u q = record { io = q.io; seq = q.seq; enc = q.enc; biss = q.biss }

-- The commands that the table has in an armed state.
unfoldable is_live_cmd : EventType → Bool
unfolding is_kind
is_live_cmd k =
    is_kind k event_biss_crc_error
    || is_kind k event_biss_timeout
    || is_kind k event_enc_z_pulse
    || is_kind k event_pcnt_clear
    || is_kind k event_set_enc_target

-- The handlers that the table has in an armed state.
unfoldable is_live_handler : EventType → Handler → Bool
is_live_handler k fb_instant_cmd = is_live_cmd k
is_live_handler k fb_reset_all = true
is_live_handler k fb_force_fault = true
is_live_handler k fb_seq_armed_disarm = true
is_live_handler k fb_seq_armed_service = true
is_live_handler k fb_runtime_sample = true
is_live_handler k fb_seq_armed_reject = true
is_live_handler k fb_biss_armed_disarm = true
is_live_handler k fb_biss_armed_pulse_in = true
is_live_handler k fb_biss_armed_frame_rx = true
is_live_handler k fb_enc_armed_disarm = true
is_live_handler k fb_enc_armed_service = true
is_live_handler k _ = false

unfoldable frozen : State → EventType → Handler → Bool
frozen s k hd = not (is_armed s) || is_live_handler k hd

every-frozen : every frozen ecc_table ≡ true
unfolding every frozen is_live_handler is_live_cmd ecc_table idle_rows seq_configured_rows
    seq_armed_rows fault_rows biss_configured_rows biss_armed_rows enc_configured_rows
    enc_armed_rows is_armed state_code event_code is_kind
every-frozen = refl

module _ {σ : Type 0} (h : Hardware σ) where
  release_running_io-vector : (w : World σ) → (release_running_io h w).vector ≡ w.vector
  unfolding release_running_io release_seq_step release_enc_count release_biss_tap release_from
      with_desk node_disarm desk
  release_running_io-vector w =
      if_both (λ (x : World σ). x.vector ≡ w2.vector)
        (w2.node.running || h.biss_tap_is_running w2.hardware) refl refl
      ∙ if_both (λ (x : World σ). x.vector ≡ w1.vector) (h.enc_count_is_running w1.hardware) refl
          refl
      ∙ if_both (λ (x : World σ). x.vector ≡ w.vector) (h.seq_step_is_running w.hardware) refl refl
    where
      w1 : World σ
      w1 = release_seq_step h w

      w2 : World σ
      w2 = release_enc_count h w1

  -- A vector that differs from a released one in no setting.
  released-Unset : (w x : World σ) → x.vector ≡ w.vector → Unset w.vector x.vector
  released-Unset w x e = record {
    io = ap (λ (v : Vector). v.io) e;
    seq = ap (λ (v : Vector). v.seq) e;
    enc = ap (λ (v : Vector). v.enc) e;
    biss = ap (λ (v : Vector). v.biss) e;
  }

  reset_all-Unset : (w : World σ) → Unset w.vector (reset_all h w).0.vector
  unfolding reset_all with_clocking
  reset_all-Unset w =
      let c = stop_clock h (clocking w) in
      let quiet = record (with_clocking w c) { hardware = h.stop_capture c.hardware } in
      let u = released-Unset w (release_running_io h quiet) (release_running_io-vector quiet) in
      record { io = u.io; seq = u.seq; enc = u.enc; biss = u.biss }

  force_fault-Unset :
      (event : Event) (w : World σ) → Unset w.vector (force_fault h event w).0.vector
  unfolding force_fault
  force_fault-Unset event w =
      let u = released-Unset w (release_running_io h w) (release_running_io-vector w) in
      record { io = u.io; seq = u.seq; enc = u.enc; biss = u.biss }

  seq_service-Unset : (w : World σ) → Unset w.vector (seq_armed_service h w).0.vector
  unfolding seq_armed_service
  seq_service-Unset w =
      if_both (λ (r : World σ × Result). Unset w.vector r.0.vector)
        (not (h.seq_step_is_running w.hardware))
        (record { io = refl; seq = refl; enc = refl; biss = refl })
        (record { io = refl; seq = refl; enc = refl; biss = refl })

  enc_service-Unset : (w : World σ) → Unset w.vector (enc_armed_service h w).0.vector
  unfolding enc_armed_service with_state
  enc_service-Unset w =
      if_both (λ (r : World σ × Result). Unset w.vector r.0.vector)
        (not (h.enc_count_is_running w.hardware))
        (record { io = refl; seq = refl; enc = refl; biss = refl })
        (record { io = refl; seq = refl; enc = refl; biss = refl })

  after_poll-Unset :
      (result : PollResult) (v : Vector) (x : World σ)
      → Unset v x.vector
      → Unset v (after_poll h result x).0.vector
  unfolding after_poll with_state apply_sample_scan_step
  after_poll-Unset poll_scan_step v x u =
      let q = rearm-Quiet h (get_tap_config x.node) x in
      if_both (λ (r : World σ × Result). Unset v r.0.vector) (not (apply_sample_scan_step h x).1)
        (record {
          io = q.io ∙ u.io;
          seq = q.seq ∙ u.seq;
          enc = q.enc ∙ u.enc;
          biss = q.biss ∙ u.biss;
        })
        (record {
          io = q.io ∙ u.io;
          seq = q.seq ∙ u.seq;
          enc = q.enc ∙ u.enc;
          biss = q.biss ∙ u.biss;
        })
  after_poll-Unset poll_rearm_failed v x u = record {
    io = u.io;
    seq = u.seq;
    enc = u.enc;
    biss = u.biss;
  }
  after_poll-Unset poll_io_lost v x u = record {
    io = u.io;
    seq = u.seq;
    enc = u.enc;
    biss = u.biss;
  }
  after_poll-Unset poll_ok v x u = u

  sample_in-Unset :
      (state : State) (w : World σ) → Unset w.vector (runtime_sample_in h state w).0.vector
  unfolding runtime_sample_in biss_armed_sample desk with_desk
  sample_in-Unset state_seq_armed w = seq_service-Unset w
  sample_in-Unset state_enc_armed w = enc_service-Unset w
  sample_in-Unset state_biss_armed w =
      after_poll-Unset (poll_runtime h (desk w)).1 w.vector
        (with_desk w (poll_runtime h (desk w)).0)
        (Quiet-Unset w.vector _ (poll_runtime-Quiet h (desk w)))
  sample_in-Unset _ w = Unset-same w.vector

  instant_cmd-Unset :
      (kind : EventType) (value : ℕ) (w : World σ)
      → is_live_cmd kind ≡ true
      → kind ≢ event_set_enc_target
      → Unset w.vector (instant_cmd h kind value w).0.vector
  unfolding instant_cmd with_plain plain_cmd first_of map_setting io_setting enc_setting
      biss_setting counted count_crc_error is_live_cmd is_kind event_code
  instant_cmd-Unset event_biss_crc_error value w live ne = record {
    io = refl;
    seq = refl;
    enc = refl;
    biss = refl;
  }
  instant_cmd-Unset event_biss_timeout value w live ne = record {
    io = refl;
    seq = refl;
    enc = refl;
    biss = refl;
  }
  instant_cmd-Unset event_enc_z_pulse value w live ne = record {
    io = refl;
    seq = refl;
    enc = refl;
    biss = refl;
  }
  instant_cmd-Unset event_pcnt_clear value w live ne = record {
    io = refl;
    seq = refl;
    enc = refl;
    biss = refl;
  }
  instant_cmd-Unset event_set_enc_target value w live ne = absurd (ne refl)
  instant_cmd-Unset _ value w live ne = ground arith

  run_handler-Unset :
      (hd : Handler) (event : Event) (w : World σ)
      → is_live_handler event.kind hd ≡ true
      → event.kind ≢ event_set_enc_target
      → Unset w.vector (run_handler h hd event w).0.vector
  unfolding run_handler is_live_handler seq_armed_disarm biss_armed_disarm enc_armed_disarm
      with_state release_from with_desk node_disarm desk seq_armed_reject biss_armed_pulse_in
      biss_armed_frame_rx runtime_sample
  run_handler-Unset fb_instant_cmd event w live ne =
      instant_cmd-Unset event.kind event.value w live ne
  run_handler-Unset fb_reset_all event w live ne = reset_all-Unset w
  run_handler-Unset fb_force_fault event w live ne = force_fault-Unset event w
  run_handler-Unset fb_seq_armed_disarm event w live ne = record {
    io = refl;
    seq = refl;
    enc = refl;
    biss = refl;
  }
  run_handler-Unset fb_seq_armed_service event w live ne = seq_service-Unset w
  run_handler-Unset fb_runtime_sample event w live ne = sample_in-Unset w.vector.state w
  run_handler-Unset fb_seq_armed_reject event w live ne = Unset-same w.vector
  run_handler-Unset fb_biss_armed_disarm event w live ne = record {
    io = refl;
    seq = refl;
    enc = refl;
    biss = refl;
  }
  run_handler-Unset fb_biss_armed_pulse_in event w live ne = record {
    io = refl;
    seq = refl;
    enc = refl;
    biss = refl;
  }
  run_handler-Unset fb_biss_armed_frame_rx event w live ne =
      Quiet-Unset w.vector _ (process_position-Quiet h event.value (desk w))
  run_handler-Unset fb_enc_armed_disarm event w live ne = record {
    io = refl;
    seq = refl;
    enc = refl;
    biss = refl;
  }
  run_handler-Unset fb_enc_armed_service event w live ne = enc_service-Unset w
  run_handler-Unset _ event w live ne = ground arith

  -- While a mode is armed no event but SET_ENC_TARGET changes a setting: the settings of the trigger
  -- input and output, the table of the sequence, the encoder and the BiSS profile stay as they were.
  pub armed_settings-Unset :
      (event : Event) (w : World σ)
      → is_armed w.vector.state ≡ true
      → event.kind ≢ event_set_enc_target
      → Unset w.vector (execute h event w).vector
  unfolding frozen
  armed_settings-Unset event w armed ne =
      execute_by h frozen (λ x. Unset w.vector x.vector) event w every-frozen (Unset-same w.vector)
        (λ hd e. run_handler-Unset hd event w (ground (arith, e, armed)) ne)
