-- ===== src/BissNodeIo/Position.antt =====
-- What the node does with a position and with a frame.
use hdrt.Prelude.{ℕ, ◌+◌, ◌%◌, ◌^◌, Bool, true, false, ◌&&◌, ◌||◌, not, some, ◌==◌, if◌then◌else◌}
use hdrt.TriggerVector.Fields.{Vector}
use hdrt.BissProtocol.Types.{status_ignore, crc_block_trigger, Profile}
use hdrt.BissProtocol.Fields.{
  anchor_matches, extract_position, extract_status, status_gate_allows, crossed_position,
}
use hdrt.BissProtocol.Crc.{crc_matches}
use hdrt.SyncIo.Hardware.{Hardware}
use hdrt.BissNodeIo.State.{Desk}

-- `x++` on a `uint32_t`
unfoldable pub next_word : ℕ → ℕ
next_word x = (x + 1) % 2 ^ 32

-- The counters of a received frame.
unfoldable pub count_rx_frame : Vector → Vector
count_rx_frame v =
    let frames = next_word v.run.biss_rx_frame_count in
    record v { run = record v.run { biss_rx_frame_count = frames }; trigger_count = frames }

unfoldable pub count_frame_error : Vector → Vector
count_frame_error v = record v {
  run = record v.run { biss_frame_error_count = next_word v.run.biss_frame_error_count };
}

unfoldable pub count_crc_error : Vector → Vector
count_crc_error v = record v {
  run = record v.run { biss_crc_error_count = next_word v.run.biss_crc_error_count };
}

unfoldable pub count_status_block : Vector → Vector
count_status_block v = record v {
  run = record v.run { biss_status_block_count = next_word v.run.biss_status_block_count };
}

unfoldable pub set_last_position : ℕ → Vector → Vector
set_last_position position v = record v { run = record v.run { biss_last_position = position } }

-- The counters of a pulse.
unfoldable pub count_pulse : Vector → Vector
count_pulse v =
    let pulses = next_word v.run.biss_pulse_out_count in
    record v {
      run = record v.run {
        biss_pulse_out_count = pulses;
        biss_trigger_count = next_word v.run.biss_trigger_count;
      };
      output_count = pulses;
    }

-- Whether a new position crosses the target.
unfoldable pub triggers : Vector → ℕ → Bool
triggers v position =
    not (v.biss.biss_target == 0)
    && crossed_position v.run.biss_last_position position v.biss.biss_target
        v.biss.biss_position_modulo

-- The three checks of a frame: its anchor, its CRC (where the profile lets it block) and its status.
unfoldable pub frame_ok : ℕ → Profile → Bool
frame_ok frame profile =
    anchor_matches frame (some profile)
    && (crc_matches frame (some profile) || not (profile.crc_gate_policy == crc_block_trigger))

unfoldable pub status_blocks : ℕ → Profile → Bool
status_blocks frame profile =
    let status = extract_status frame (some profile) in
    (status.error_active || status.warning_active)
    && not (profile.status_gate_policy == status_ignore)

-- The counters that `biss_node_io_process_frame` raises before it looks at the position.
unfoldable pub count_frame : ℕ → Profile → Vector → Vector
count_frame frame profile v =
    let v1 = count_rx_frame v in
    let v2 = if anchor_matches frame (some profile) then v1 else count_frame_error v1 in
    let v3 = if crc_matches frame (some profile) then v2 else count_crc_error v2 in
    if status_blocks frame profile then count_status_block v3 else v3

module _ {σ : Type 0} (h : Hardware σ) where
  unfoldable pub commit_position : ℕ → Bool → Desk σ → Desk σ
  commit_position position counted d =
      let v =
        if counted
        then count_rx_frame d.vector
        else record d.vector { trigger_count = d.vector.run.biss_rx_frame_count } in
      if triggers d.vector position
      then record d {
        vector = set_last_position position (count_pulse v);
        hardware = h.fire_rj45_trigger_us v.io.trigger_width_us d.hardware;
      }
      else record d { vector = set_last_position position v }

  unfoldable pub process_position : ℕ → Desk σ → Desk σ × Bool
  process_position position d =
      if not d.node.running then (d, false) else (commit_position position true d, true)

  unfoldable pub process_frame : ℕ → Desk σ → Desk σ × Bool
  process_frame frame d =
      if not d.node.running
      then (d, false)
      else (let profile = d.node.profile in
          let e = record d { vector = count_frame frame profile d.vector } in
          let status = extract_status frame (some profile) in
          let position = extract_position frame (some profile) in
          if not (frame_ok frame profile)
          then (e, true)
          else if status_gate_allows status profile.status_gate_policy
          then (commit_position position false e, true)
          else (record e { vector = set_last_position position e.vector }, true))
