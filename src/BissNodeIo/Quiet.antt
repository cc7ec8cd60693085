-- ===== src/BissNodeIo/Quiet.antt =====
-- The node changes neither the state of the trigger nor any setting.
use hdrt.Prelude.{
  ℕ, ◌≡◌, ◌∙◌, refl, Bool, true, false, ◌||◌, not, some, List, [], ◌∷◌, ltb, leb, ◌==◌,
  if◌then◌else◌, if_both,
}
use hdrt.TriggerVector.Fields.{Vector}
use hdrt.BissProtocol.Types.{Profile}
use hdrt.BissProtocol.Fields.{anchor_matches, extract_status, status_gate_allows}
use hdrt.BissProtocol.Crc.{crc_matches}
use hdrt.SyncIo.Hardware.{Hardware}
use hdrt.BissNodeIo.State.{Desk}
use hdrt.BissNodeIo.Position.{
  count_rx_frame, count_frame_error, count_crc_error, count_status_block, set_last_position,
  count_pulse, triggers, frame_ok, status_blocks, count_frame, commit_position, process_position,
  process_frame,
}
use hdrt.BissNodeIo.Receive.{
  PollResult, assemble, ingest_word, ingest_words, scan_step, elapsed, time_out, check_timeout,
  after_timeout, drop_overflow, poll_runtime, poll_ok,
}

-- Two vectors with the same state and settings.
pub record Quiet (v u : Vector) : Type 0 where
  pub state : u.state ≡ v.state
  pub io : u.io ≡ v.io
  pub seq : u.seq ≡ v.seq
  pub enc : u.enc ≡ v.enc
  pub biss : u.biss ≡ v.biss

pub Quiet-same : (v : Vector) → Quiet v v
Quiet-same v = record { state = refl; io = refl; seq = refl; enc = refl; biss = refl }

pub Quiet-then : (v u t : Vector) → Quiet v u → Quiet u t → Quiet v t
Quiet-then v u t a b = record {
  state = b.state ∙ a.state;
  io = b.io ∙ a.io;
  seq = b.seq ∙ a.seq;
  enc = b.enc ∙ a.enc;
  biss = b.biss ∙ a.biss;
}

counted-Quiet : (v : Vector) → Quiet v (count_rx_frame v)
unfolding count_rx_frame
counted-Quiet v = record { state = refl; io = refl; seq = refl; enc = refl; biss = refl }

frame_error-Quiet : (v : Vector) → Quiet v (count_frame_error v)
unfolding count_frame_error
frame_error-Quiet v = record { state = refl; io = refl; seq = refl; enc = refl; biss = refl }

crc_error-Quiet : (v : Vector) → Quiet v (count_crc_error v)
unfolding count_crc_error
crc_error-Quiet v = record { state = refl; io = refl; seq = refl; enc = refl; biss = refl }

status_block-Quiet : (v : Vector) → Quiet v (count_status_block v)
unfolding count_status_block
status_block-Quiet v = record { state = refl; io = refl; seq = refl; enc = refl; biss = refl }

position-Quiet : (position : ℕ) (v : Vector) → Quiet v (set_last_position position v)
unfolding set_last_position
position-Quiet position v = record { state = refl; io = refl; seq = refl; enc = refl; biss = refl }

count_frame-Quiet :
    (frame : ℕ) (profile : Profile) (v : Vector) → Quiet v (count_frame frame profile v)
unfolding count_frame
count_frame-Quiet frame profile v =
    let v1 = count_rx_frame v in
    let v2 = if anchor_matches frame (some profile) then v1 else count_frame_error v1 in
    let v3 = if crc_matches frame (some profile) then v2 else count_crc_error v2 in
    let q1 = counted-Quiet v in
    let q2 =
      if_both (Quiet v) (anchor_matches frame (some profile)) q1
        (Quiet-then v v1 _ q1 (frame_error-Quiet v1)) in
    let q3 =
      if_both (Quiet v) (crc_matches frame (some profile)) q2
        (Quiet-then v v2 _ q2 (crc_error-Quiet v2)) in
    if_both (Quiet v) (status_blocks frame profile) (Quiet-then v v3 _ q3 (status_block-Quiet v3))
      q3

module _ {σ : Type 0} (h : Hardware σ) where
  commit-Quiet :
      (position : ℕ) (counted : Bool) (d : Desk σ)
      → Quiet d.vector (commit_position h position counted d).vector
  unfolding commit_position set_last_position count_pulse count_rx_frame
  commit-Quiet position true d =
      if_both (λ (e : Desk σ). Quiet d.vector e.vector) (triggers d.vector position)
        (record { state = refl; io = refl; seq = refl; enc = refl; biss = refl })
        (record { state = refl; io = refl; seq = refl; enc = refl; biss = refl })
  commit-Quiet position false d =
      if_both (λ (e : Desk σ). Quiet d.vector e.vector) (triggers d.vector position)
        (record { state = refl; io = refl; seq = refl; enc = refl; biss = refl })
        (record { state = refl; io = refl; seq = refl; enc = refl; biss = refl })

  pub process_position-Quiet :
      (position : ℕ) (d : Desk σ) → Quiet d.vector (process_position h position d).0.vector
  unfolding process_position
  process_position-Quiet position d =
      if_both (λ (r : Desk σ × Bool). Quiet d.vector r.0.vector) (not d.node.running)
        (Quiet-same d.vector) (commit-Quiet position true d)

  process_frame-Quiet : (frame : ℕ) (d : Desk σ) → Quiet d.vector (process_frame h frame d).0.vector
  unfolding process_frame
  process_frame-Quiet frame d =
      let v = count_frame frame d.node.profile d.vector in
      let q = count_frame-Quiet frame d.node.profile d.vector in
      if_both (λ (r : Desk σ × Bool). Quiet d.vector r.0.vector) (not d.node.running)
        (Quiet-same d.vector)
        (if_both (λ (r : Desk σ × Bool). Quiet d.vector r.0.vector)
          (not (frame_ok frame d.node.profile)) q
          (if_both (λ (r : Desk σ × Bool). Quiet d.vector r.0.vector)
            (status_gate_allows (extract_status frame (some d.node.profile))
              d.node.profile.status_gate_policy)
            (Quiet-then d.vector v _ q (commit-Quiet _ false (record d { vector = v })))
            (Quiet-then d.vector v _ q (position-Quiet _ v))))

  ingest_word-Quiet : (word : ℕ) (d : Desk σ) → Quiet d.vector (ingest_word h word d).0.vector
  unfolding ingest_word
  ingest_word-Quiet word d =
      if_both (λ (r : Desk σ × Bool). Quiet d.vector r.0.vector)
        (d.node.frame_words_expected == 0 || ltb 2 d.node.frame_words_expected)
        (frame_error-Quiet d.vector)
        (if_both (λ (r : Desk σ × Bool). Quiet d.vector r.0.vector)
          (ltb (assemble word d.node).frame_words_seen (assemble word d.node).frame_words_expected)
          (Quiet-same d.vector) (process_frame-Quiet _ _))

  ingest_words-Quiet :
      (words : List ℕ) (d : Desk σ) → Quiet d.vector (ingest_words h words d).vector
  unfolding ingest_words
  ingest_words-Quiet [] d = Quiet-same d.vector
  ingest_words-Quiet (word ∷ words) d =
      let e = record d { hardware = h.biss_tap_read_frame_word d.hardware } in
      Quiet-then d.vector (ingest_word h word e).0.vector _ (ingest_word-Quiet word e)
        (ingest_words-Quiet words (ingest_word h word e).0)

  check_timeout-Quiet : (d : Desk σ) → Quiet d.vector (check_timeout h d).0.vector
  unfolding check_timeout time_out scan_step
  check_timeout-Quiet d =
      if_both (λ (r : Desk σ × PollResult). Quiet d.vector r.0.vector) d.node.timeout_latched
        (Quiet-same d.vector)
        (if_both (λ (r : Desk σ × PollResult). Quiet d.vector r.0.vector)
          (leb d.node.timeout_ms (elapsed h (h.uptime_ms d.hardware) d.node.last_frame_ms))
          (if_both (λ (r : Desk σ × PollResult). Quiet d.vector r.0.vector)
            (not (d.vector.biss.biss_sample_scan_enabled == 0))
            (record { state = refl; io = refl; seq = refl; enc = refl; biss = refl })
            (record { state = refl; io = refl; seq = refl; enc = refl; biss = refl }))
          (Quiet-same d.vector))

  after_timeout-Quiet : (r : Desk σ × PollResult) → Quiet r.0.vector (after_timeout h r).0.vector
  unfolding after_timeout
  after_timeout-Quiet (d, poll_ok) = Quiet-same d.vector
  after_timeout-Quiet (d, _) = Quiet-same d.vector

  drop_overflow-Quiet : (d : Desk σ) → Quiet d.vector (drop_overflow h d).vector
  unfolding drop_overflow
  drop_overflow-Quiet d =
      if_both (λ (e : Desk σ). Quiet d.vector e.vector) (h.biss_tap_rx_fifo_full d.hardware)
        (record { state = refl; io = refl; seq = refl; enc = refl; biss = refl })
        (Quiet-same d.vector)

  received-Quiet :
      (e : Desk σ)
      → Quiet e.vector
          (after_timeout h
            (check_timeout h (ingest_words h (h.biss_tap_frame_words e.hardware) e))).0.vector
  received-Quiet e =
      let r = ingest_words h (h.biss_tap_frame_words e.hardware) e in
      Quiet-then e.vector r.vector _ (ingest_words-Quiet _ e) (
        Quiet-then r.vector (check_timeout h r).0.vector _ (check_timeout-Quiet r)
          (after_timeout-Quiet (check_timeout h r)))

  pub poll_runtime-Quiet : (d : Desk σ) → Quiet d.vector (poll_runtime h d).0.vector
  unfolding poll_runtime
  poll_runtime-Quiet d =
      if_both (λ (r : Desk σ × PollResult). Quiet d.vector r.0.vector) (not d.node.running)
        (Quiet-same d.vector)
        (if_both (λ (r : Desk σ × PollResult). Quiet d.vector r.0.vector)
          (not (h.biss_tap_is_running d.hardware)) (Quiet-same d.vector)
          (Quiet-then d.vector (drop_overflow h d).vector _ (drop_overflow-Quiet d)
            (received-Quiet (drop_overflow h d))))
