-- ===== src/BissNodeIo/Hits.antt =====
-- biss_node_io_process_frame: which frames fire a pulse.
use hdrt.Prelude.{
  ℕ, ◌+◌, ◌-◌, ◌%◌, ◌^◌, ◌≤◌, ◌<◌, ◌≡◌, ◌≢◌, ◌↔◌, ◌⊎◌, ◌∙◌, inl, inr, refl, true, some, arith,
  bit_and, Bool-cases,
}
use hdrt.TriggerVector.Fields.{Vector}
use hdrt.SyncIo.Hardware.{Hardware}
use hdrt.BissProtocol.Types.{disabled_offset, status_block_trigger, crc_block_trigger, Profile}
use hdrt.BissProtocol.Fields.{
  extract_bits_msb, anchor_matches, extract_position, status_bit, extract_status,
  status_gate_allows, crossed_position,
}
use hdrt.BissProtocol.Crc.{crc_compute_frame, crc_matches}
use hdrt.BissProtocol.Crossing.{crossed_position_iff, not_crossed}
use hdrt.BissNodeIo.State.{Desk}
use hdrt.BissNodeIo.Position.{next_word, triggers, frame_ok, process_frame}
use hdrt.BissNodeIo.Fires.{fires, process_frame_tests}

-- The frame holds the anchor of the profile, if it has one.
abbrev pub IsAnchored : ℕ → Profile → Type 0
IsAnchored frame p =
    (p.anchor_bits ≡ 0)
    ⊎ (bit_and (extract_bits_msb frame p.frame_bits p.anchor_offset p.anchor_bits) p.anchor_mask
        ≡ bit_and p.anchor_value p.anchor_mask)

-- The CRC field of the frame is its CRC, or the profile has none, or it does not block.
abbrev pub IsPassedByCrc : ℕ → Profile → Type 0
IsPassedByCrc frame p =
    (p.crc_bits ≡ 0)
    ⊎ (crc_compute_frame frame (some p)
        ≡ extract_bits_msb frame p.frame_bits p.crc_offset p.crc_bits % 2 ^ 32)
    ⊎ (p.crc_gate_policy ≢ crc_block_trigger)

-- A status bit that the profile has is low.
abbrev pub IsActive : ℕ → Profile → ℕ → Type 0
IsActive frame p offset =
    (offset ≢ disabled_offset) × (extract_bits_msb frame p.frame_bits offset 1 ≡ 0)

-- On a ring of `modulo` positions, a walk forward from `last` to `current` comes to `target`.
pub record Walks (last current target modulo : ℕ) : Type 0 where
  pub last_on : last < modulo
  pub current_on : current < modulo
  pub target_on : target < modulo
  pub comes :
      (k : ℕ) × (1 ≤ k) × (k ≤ (current + modulo - last) % modulo) × ((last + k) % modulo ≡ target)

-- A frame whose position counts.
pub record IsGood (frame : ℕ) (p : Profile) : Type 0 where
  pub anchored : IsAnchored frame p
  pub checked : IsPassedByCrc frame p

-- A frame that fires.
pub record IsHit (frame : ℕ) (p : Profile) (v : Vector) : Type 0 where
  pub good : IsGood frame p
  pub ungated :
      (p.status_gate_policy ≢ status_block_trigger)
      ⊎ ((¬ IsActive frame p p.error_bit_offset) × ¬ IsActive frame p p.warning_bit_offset)
  pub target_set : v.biss.biss_target ≢ 0
  pub walks :
      Walks v.run.biss_last_position
        (extract_position frame (some p))
        v.biss.biss_target
        v.biss.biss_position_modulo

frame_ok-IsGood : (frame : ℕ) (p : Profile) → frame_ok frame p ≡ true → IsGood frame p
unfolding frame_ok anchor_matches crc_matches
frame_ok-IsGood frame p e = record { anchored = ground arith; checked = ground arith }

IsGood-frame_ok : (frame : ℕ) (p : Profile) → IsGood frame p → frame_ok frame p ≡ true
unfolding frame_ok anchor_matches crc_matches
IsGood-frame_ok frame p g = ground (arith, g.anchored, g.checked)

crossed-Walks :
    (last current target modulo : ℕ)
    → crossed_position last current target modulo ≡ true
    → Walks last current target modulo
crossed-Walks last current target modulo e =
    let n = not_crossed last current target modulo e in
    record {
      last_on = n.1;
      current_on = n.2;
      target_on = n.0;
      comes = (crossed_position_iff last current target modulo (n.1) (n.2) (n.0)).0 e;
    }

Walks-crossed :
    (last current target modulo : ℕ)
    → Walks last current target modulo
    → crossed_position last current target modulo ≡ true
Walks-crossed last current target modulo w =
    (crossed_position_iff last current target modulo w.last_on w.current_on w.target_on).1 w.comes

gate-ungated :
    (frame : ℕ) (p : Profile)
    → (status_gate_allows (extract_status frame (some p)) p.status_gate_policy ≡ true) ↔ (
        (p.status_gate_policy ≢ status_block_trigger)
        ⊎ ((¬ IsActive frame p p.error_bit_offset) × ¬ IsActive frame p p.warning_bit_offset))
unfolding status_gate_allows extract_status status_bit
gate-ungated frame p = (λ e. ground arith, λ u. ground arith)

fires-IsHit : (frame : ℕ) (p : Profile) (v : Vector) → fires frame p v ≡ true → IsHit frame p v
unfolding triggers
fires-IsHit frame p v e = record {
  good = frame_ok-IsGood frame p (ground arith);
  ungated = (gate-ungated frame p).0 (ground arith);
  target_set = ground arith;
  walks = crossed-Walks _ _ _ _ (ground arith);
}

IsHit-fires : (frame : ℕ) (p : Profile) (v : Vector) → IsHit frame p v → fires frame p v ≡ true
unfolding triggers
IsHit-fires frame p v h =
    let crossed = Walks-crossed _ _ _ _ h.walks in
    ground (
      arith,
      IsGood-frame_ok frame p h.good,
      (gate-ungated frame p).1 h.ungated,
      h.target_set,
      crossed,
    )

module _ {σ : Type 0} (h : Hardware σ) where
  -- What a frame does to the pulses, their count and the last position.
  pub data Outcome (frame : ℕ) (d e : Desk σ) : Type 0 where
    fired :
        IsHit frame d.node.profile d.vector
        → e.hardware ≡ h.fire_rj45_trigger_us d.vector.io.trigger_width_us d.hardware
        → e.vector.run.biss_pulse_out_count ≡ (d.vector.run.biss_pulse_out_count + 1) % 2 ^ 32
        → e.vector.run.biss_last_position ≡ extract_position frame (some d.node.profile)
        → Outcome frame d e
    passed :
        IsGood frame d.node.profile
        → ¬ IsHit frame d.node.profile d.vector
        → e.hardware ≡ d.hardware
        → e.vector.run.biss_pulse_out_count ≡ d.vector.run.biss_pulse_out_count
        → e.vector.run.biss_last_position ≡ extract_position frame (some d.node.profile)
        → Outcome frame d e
    dropped :
        ¬ IsGood frame d.node.profile
        → e.hardware ≡ d.hardware
        → e.vector.run.biss_pulse_out_count ≡ d.vector.run.biss_pulse_out_count
        → e.vector.run.biss_last_position ≡ d.vector.run.biss_last_position
        → Outcome frame d e

  -- A frame that a running node gets fires one pulse of the set width, and counts it, exactly when
  -- all of this holds: it has the anchor of the profile, if there is one; its CRC field is its CRC,
  -- or the profile has no CRC or does not let it block; its status bits are not active, or the
  -- profile does not let them block; the target is not 0; and the positions and the target lie on
  -- the ring, and a walk forward from the last position to the one of the frame comes to the target.
  -- Its position becomes the last one exactly when the first two of these hold.
  pub process_frame-Outcome :
      (frame : ℕ) (d : Desk σ) → d.node.running ≡ true → Outcome frame d (process_frame h frame d).0
  unfolding next_word
  process_frame-Outcome frame d runs =
      let p = d.node.profile in
      let t = process_frame_tests h frame d runs in
      elim (Bool-cases (fires frame p d.vector)) [
        | inl hit ↦
            let hits = fires-IsHit frame p d.vector hit in
            fired hits (t.pulse ∙ rw hit refl) (t.count ∙ rw hit refl)
              (t.last ∙ rw (IsGood-frame_ok frame p hits.good) refl)
        | inr miss ↦ elim (Bool-cases (frame_ok frame p)) [
          | inl good ↦
              passed (frame_ok-IsGood frame p good)
                (λ hits. ground (arith, miss, IsHit-fires frame p d.vector hits))
                (t.pulse ∙ rw miss refl) (t.count ∙ rw miss refl) (t.last ∙ rw good refl)
          | inr bad ↦
              dropped (λ g. ground (arith, bad, IsGood-frame_ok frame p g)) (t.pulse ∙ rw miss refl)
                (t.count ∙ rw miss refl) (t.last ∙ rw bad refl)
        ]
      ]
