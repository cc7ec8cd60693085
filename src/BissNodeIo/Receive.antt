-- ===== src/BissNodeIo/Receive.antt =====
-- How the node puts frames together from words, and how it notices that none come.
use hdrt.Prelude.{
  ℕ, ◌+◌, ◌-◌, ◌*◌, ◌%◌, ◌^◌, Bool, true, false, ◌&&◌, ◌||◌, not, List, [], ◌∷◌, ltb, leb, ◌==◌,
  if◌then◌else◌, bit_and, bit_or,
}
use hdrt.TriggerVector.Fields.{Vector}
use hdrt.SyncIo.Hardware.{Hardware}
use hdrt.BissNodeIo.State.{Node, Desk}
use hdrt.BissNodeIo.Position.{next_word, count_frame_error, process_frame}

-- `biss_node_io_poll_result_t`
pub data PollResult : Type 0 where
  poll_ok poll_io_lost poll_scan_step poll_rearm_failed : PollResult

unfoldable pub reset_frame_assembler : Node → Node
reset_frame_assembler node = record node { frame_accum = 0; frame_words_seen = 0 }

-- The bits of the next word that belong to the frame.
unfoldable pub chunk_bits : Node → ℕ
chunk_bits node =
    if (node.frame_words_seen + 1) % 2 ^ 32 == node.frame_words_expected
    then node.final_word_bits
    else 32

-- `(accum << bits) | (word & mask)`
unfoldable pub push_chunk : ℕ → ℕ → ℕ → ℕ
push_chunk accum bits word =
    bit_or (accum * 2 ^ bits % 2 ^ 64)
      (bit_and word (if bits == 32 then 2 ^ 32 - 1 else 2 ^ bits - 1))

unfoldable pub assemble : ℕ → Node → Node
assemble word node = record node {
  frame_accum = push_chunk node.frame_accum (chunk_bits node) word;
  frame_words_seen = next_word node.frame_words_seen;
}

module _ {σ : Type 0} (h : Hardware σ) where
  unfoldable pub ingest_word : ℕ → Desk σ → Desk σ × Bool
  ingest_word word d =
      if d.node.frame_words_expected == 0 || ltb 2 d.node.frame_words_expected
      then (
        record d { vector = count_frame_error d.vector; node = reset_frame_assembler d.node },
        false,
      )
      else (let node = assemble word d.node in
          if ltb node.frame_words_seen node.frame_words_expected
          then (record d { node = node }, true)
          else process_frame h node.frame_accum (record d {
            node = record (reset_frame_assembler node) {
              last_frame_ms = h.uptime_ms d.hardware;
              timeout_latched = false;
            };
          }))

  -- the loop of `biss_node_io_poll_runtime` over the words that the FIFO gives
  unfoldable pub ingest_words : List ℕ → Desk σ → Desk σ
  ingest_words [] d = d
  ingest_words (word ∷ words) d =
      ingest_words words
        (ingest_word word (record d { hardware = h.biss_tap_read_frame_word d.hardware })).0

  -- the step of the sample scan
  unfoldable pub next_delay : Vector → ℕ
  next_delay v =
      (v.run.biss_active_sample_delay_cycles
        + (if not (v.biss.biss_sample_scan_step_cycles == 0)
            then v.biss.biss_sample_scan_step_cycles
            else 1))
      % 2 ^ 32

  unfoldable pub scan_wraps : Vector → Bool
  scan_wraps v =
      leb v.biss.biss_sample_scan_start_cycles v.biss.biss_sample_scan_end_cycles
      && (ltb v.biss.biss_sample_scan_end_cycles (next_delay v)
          || ltb (next_delay v) v.biss.biss_sample_scan_start_cycles)

  unfoldable pub scan_step : Desk σ → Desk σ
  scan_step d =
      let v = d.vector in
      let wraps = scan_wraps v in
      let next = if wraps then v.biss.biss_sample_scan_start_cycles else next_delay v in
      record d {
        vector = record v {
          run = record v.run {
            biss_sample_scan_wrap_count =
                if wraps
                then next_word v.run.biss_sample_scan_wrap_count
                else v.run.biss_sample_scan_wrap_count;
            biss_active_sample_delay_cycles = next;
            biss_sample_scan_index = next_word v.run.biss_sample_scan_index;
          };
        };
        node = record d.node {
          profile = record d.node.profile { sample_delay_cycles = next };
          tap_config = record d.node.tap_config { sample_delay_cycles = next };
        };
      }

  -- `now - last` on `uint32_t`
  unfoldable pub elapsed : ℕ → ℕ → ℕ
  elapsed now last = (now + 2 ^ 32 - last) % 2 ^ 32

  unfoldable pub time_out : Desk σ → Desk σ
  time_out d = record d {
    vector = record d.vector {
      run = record d.vector.run { biss_timeout_count = next_word d.vector.run.biss_timeout_count };
    };
    node = record (reset_frame_assembler d.node) {
      timeout_latched = true;
      last_frame_ms = h.uptime_ms d.hardware;
    };
  }

  unfoldable pub check_timeout : Desk σ → Desk σ × PollResult
  check_timeout d =
      if d.node.timeout_latched
      then (d, poll_ok)
      else if leb d.node.timeout_ms (elapsed (h.uptime_ms d.hardware) d.node.last_frame_ms)
      then (let e = time_out d in
          if not (e.vector.biss.biss_sample_scan_enabled == 0)
          then (scan_step e, poll_scan_step)
          else (e, poll_ok))
      else (d, poll_ok)

  unfoldable pub after_timeout : Desk σ × PollResult → Desk σ × PollResult
  after_timeout (d, poll_ok) =
      (record d { node = record d.node { rx_irq_pending = false } }, poll_ok)
  after_timeout (d, result) = (d, result)

  unfoldable pub drop_overflow : Desk σ → Desk σ
  drop_overflow d =
      if h.biss_tap_rx_fifo_full d.hardware
      then record d {
        vector = record d.vector {
          run = record d.vector.run {
            biss_fifo_overflow_count = next_word d.vector.run.biss_fifo_overflow_count;
          };
        };
        node = reset_frame_assembler d.node;
      }
      else d

  unfoldable pub poll_runtime : Desk σ → Desk σ × PollResult
  poll_runtime d =
      if not d.node.running
      then (d, poll_io_lost)
      else if not (h.biss_tap_is_running d.hardware)
      then (d, poll_io_lost)
      else (let e = drop_overflow d in
          after_timeout (check_timeout (ingest_words (h.biss_tap_frame_words e.hardware) e)))
