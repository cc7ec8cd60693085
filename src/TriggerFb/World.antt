-- ===== src/TriggerFb/World.antt =====
-- What the handlers of trigger_fb.c read and write: the trigger vector, the arbiter, the sync clock,
-- the BiSS node and the hardware; and the services that the handlers share. `trigger_fb_execute`
-- stops at a NULL vector, so the handlers' own guards against NULL are left out. The three modes
-- that the handlers use have an entry with an `arm` function in the mode table, so the guards
-- `ops == NULL || ops->arm == NULL` never hold.
use Prim.Native.String.{String}
use hdrt.Prelude.{
  ℕ, Bool, true, false, ◌&&◌, ◌||◌, not, some, ltb, leb, ◌==◌, if◌then◌else◌, bit_and,
}
use hdrt.ResourceArbiter.{Context, release_owned, get_snapshot}
use hdrt.TriggerVector.Fields.{
  State, mode_idle, error_none, error_resource_conflict, error_io_arm_failed, protocol_biss_c,
  role_tap_monitor, Vector, state_idle,
}
use hdrt.SyncIo.Modes.{for_mode, mode_id_seq_step, mode_id_enc_count, mode_id_biss_tap}
use hdrt.SyncIo.Hardware.{Hardware}
use hdrt.SyncIo.Clock.{clock_resources, Clock, Clocking, start_clock, stop_clock}
use hdrt.BissProtocol.Types.{profile_validate}
use hdrt.BissNodeIo.State.{Node, Desk, make_profile, is_ok, node_disarm}

-- `fb_result_t`
pub data Result : Type 0 where
  fb_ok fb_ignored fb_error : Result

unfoldable pub is_fb_ok : Result → Bool
is_fb_ok fb_ok = true
is_fb_ok _ = false

pub record World (σ : Type 0) : Type 0 where
  pub vector : Vector
  pub arbiter : Context
  pub clock : Clock
  pub node : Node
  pub hardware : σ

abbrev pub owner_seq_step : String
owner_seq_step = "sync.seq_step"

abbrev pub owner_enc_count : String
owner_enc_count = "sync.enc_count"

abbrev pub owner_biss_tap : String
owner_biss_tap = "sync.biss_tap"

unfoldable pub seq_resources : ℕ
seq_resources = for_mode mode_id_seq_step

unfoldable pub enc_resources : ℕ
enc_resources = for_mode mode_id_enc_count

unfoldable pub biss_resources : ℕ
biss_resources = for_mode mode_id_biss_tap

-- the error code of a clock that did not start: the arbiter's record of a conflict decides
unfoldable pub sync_clock_error_code : Context → ℕ
sync_clock_error_code snapshot =
    if not (bit_and snapshot.last_conflict_resources clock_resources == 0)
    then error_resource_conflict
    else error_io_arm_failed

module _ {σ : Type 0} where
  -- the parts of a world that the clock and the node work on
  unfoldable pub clocking : World σ → Clocking σ
  clocking w = record { arbiter = w.arbiter; clock = w.clock; hardware = w.hardware }

  unfoldable pub with_clocking : World σ → Clocking σ → World σ
  with_clocking w c = record w { arbiter = c.arbiter; clock = c.clock; hardware = c.hardware }

  unfoldable pub desk : World σ → Desk σ
  desk w = record { vector = w.vector; node = w.node; hardware = w.hardware }

  unfoldable pub with_desk : World σ → Desk σ → World σ
  with_desk w d = record w { vector = d.vector; node = d.node; hardware = d.hardware }

  unfoldable pub with_state : State → ℕ → World σ → World σ
  with_state state error_code w = record w {
    vector = record w.vector { state = state; error_code = error_code };
  }

  unfoldable pub with_error : ℕ → World σ → World σ
  with_error error_code w = record w { vector = record w.vector { error_code = error_code } }

  unfoldable pub release_from : ℕ → String → World σ → World σ
  release_from resources owner w = record w {
    arbiter = release_owned resources (some owner) w.arbiter;
  }

  -- the vector after a failed start: what the driver reports, and the error
  unfoldable pub clock_failed : ℕ → World σ → World σ
  clock_failed error_code w = record w {
    vector = record w.vector {
      sync_clock_enabled = w.clock.clock_running;
      sync_clock_hz = w.clock.sync_clock_hz;
      error_code = error_code;
    };
  }

module _ {σ : Type 0} (h : Hardware σ) where
  unfoldable pub start_sync_clock : World σ → World σ × Result
  start_sync_clock w =
      if w.vector.sync_clock_hz == 0
      then (clock_failed error_io_arm_failed w, fb_error)
      else (let (c, started) = start_clock h w.vector.sync_clock_hz (clocking w) in
          let w1 = with_clocking w c in
          if started
          then (
            record w1 {
              vector = record w1.vector { sync_clock_enabled = true; error_code = error_none };
            },
            fb_ok,
          )
          else (let seen = (get_snapshot true w1.arbiter).0 in
              (clock_failed (sync_clock_error_code seen) (record w1 { arbiter = seen }), fb_error)))

  unfoldable pub release_seq_step : World σ → World σ
  release_seq_step w = release_from seq_resources owner_seq_step (
      if h.seq_step_is_running w.hardware
      then record w { hardware = h.seq_step_disarm w.hardware }
      else w)

  unfoldable pub release_enc_count : World σ → World σ
  release_enc_count w = release_from enc_resources owner_enc_count (
      if h.enc_count_is_running w.hardware
      then record w { hardware = h.enc_count_disarm w.hardware }
      else w)

  unfoldable pub release_biss_tap : World σ → World σ
  release_biss_tap w = release_from biss_resources owner_biss_tap (
      if w.node.running || h.biss_tap_is_running w.hardware
      then with_desk w (node_disarm h (desk w))
      else w)

  unfoldable pub release_running_io : World σ → World σ
  release_running_io w = release_biss_tap (release_enc_count (release_seq_step w))

  unfoldable pub reset_all : World σ → World σ × Result
  reset_all w =
      let stopped = with_clocking w (stop_clock h (clocking w)) in
      let quiet = record stopped { hardware = h.stop_capture stopped.hardware } in
      let free = release_running_io quiet in
      (
        record free {
          vector = record free.vector {
            state = state_idle;
            active_mode = mode_idle;
            error_code = error_none;
            sync_clock_enabled = false;
          };
        },
        fb_ok,
      )

-- The profile is valid, and the range of the sample scan where it is enabled.
unfoldable pub valid_biss_config : Vector → Bool
valid_biss_config v =
    let profile = make_profile v in
    if not (v.biss.protocol == protocol_biss_c)
      || not (v.biss.biss_role == role_tap_monitor)
      || v.biss.biss_clock_hz == 0
    then false
    else if not (is_ok (profile_validate (some profile)))
    then false
    else if not (v.biss.biss_sample_scan_enabled == 0)
        && (ltb v.biss.biss_sample_scan_end_cycles v.biss.biss_sample_scan_start_cycles
            || v.biss.biss_sample_scan_step_cycles == 0
            || leb profile.pio_cycles_per_bit v.biss.biss_sample_scan_end_cycles)
    then false
    else true

-- `sync_io_hw_enc_pins_valid` of components/sync_io/inc/sync_io_hw_profile.h
unfoldable pub enc_pins_valid : ℕ → ℕ → ℕ → Bool
enc_pins_valid a_pin b_pin z_pin = a_pin == 16 && b_pin == 17 && z_pin == 18
