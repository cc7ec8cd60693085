-- ===== src/BissNodeIo/Fires.antt =====
-- What a frame does, by the tests of the code.
use hdrt.Prelude.{
  ℕ, ◌≡◌, ◌∙◌, inl, inr, refl, ap, Bool, true, false, ◌&&◌, not, some, if◌then◌else◌, arith,
  Bool-cases, if_both, if_each,
}
use hdrt.TriggerVector.Fields.{IoSettings, Vector}
use hdrt.SyncIo.Hardware.{Hardware}
use hdrt.BissProtocol.Types.{Profile}
use hdrt.BissProtocol.Fields.{anchor_matches, extract_position, extract_status, status_gate_allows}
use hdrt.BissProtocol.Crc.{crc_matches}
use hdrt.BissNodeIo.State.{Desk}
use hdrt.BissNodeIo.Position.{
  next_word, count_rx_frame, count_frame_error, count_crc_error, count_status_block,
  set_last_position, count_pulse, triggers, frame_ok, status_blocks, count_frame, commit_position,
  process_frame,
}

-- Two vectors that agree on what a pulse depends on.
record Alike (v u : Vector) : Type 0 where
  io : u.io ≡ v.io
  biss : u.biss ≡ v.biss
  position : u.run.biss_last_position ≡ v.run.biss_last_position
  pulses : u.run.biss_pulse_out_count ≡ v.run.biss_pulse_out_count

Alike-then : (v u t : Vector) → Alike v u → Alike u t → Alike v t
Alike-then v u t a b = record {
  io = b.io ∙ a.io;
  biss = b.biss ∙ a.biss;
  position = b.position ∙ a.position;
  pulses = b.pulses ∙ a.pulses;
}

count_frame-Alike :
    (frame : ℕ) (profile : Profile) (v : Vector) → Alike v (count_frame frame profile v)
unfolding count_frame count_rx_frame count_frame_error count_crc_error count_status_block
count_frame-Alike frame profile v =
    let v1 = count_rx_frame v in
    let v2 = if anchor_matches frame (some profile) then v1 else count_frame_error v1 in
    let v3 = if crc_matches frame (some profile) then v2 else count_crc_error v2 in
    let q2 =
      if_both (Alike v) (anchor_matches frame (some profile)) {x = v1} {y = count_frame_error v1}
        (record { io = refl; biss = refl; position = refl; pulses = refl })
        (record { io = refl; biss = refl; position = refl; pulses = refl }) in
    let q3 =
      if_both (Alike v) (crc_matches frame (some profile)) {x = v2} {y = count_crc_error v2} q2 (
        Alike-then v v2 (count_crc_error v2) q2
          (record { io = refl; biss = refl; position = refl; pulses = refl })) in
    if_both (Alike v) (status_blocks frame profile)
      (Alike-then v v3 (count_status_block v3) q3
        (record { io = refl; biss = refl; position = refl; pulses = refl }))
      q3

triggers-Alike :
    (v u : Vector) (position : ℕ) → Alike v u → triggers u position ≡ triggers v position
unfolding triggers
triggers-Alike v u position a = rw (a.biss, a.position) refl

-- The tests under which a frame fires a pulse.
abbrev pub fires : ℕ → Profile → Vector → Bool
fires frame profile v =
    frame_ok frame profile
    && status_gate_allows (extract_status frame (some profile)) profile.status_gate_policy
    && triggers v (extract_position frame (some profile))

module _ {σ : Type 0} (h : Hardware σ) where
  -- One pulse of the set width is fired and counted, or not; and a position becomes the last one, or
  -- not.
  pub record Tested (good fired : Bool) (position : ℕ) (d e : Desk σ) : Type 0 where
    pub pulse : e.hardware ≡ (
        if fired
        then h.fire_rj45_trigger_us d.vector.io.trigger_width_us d.hardware
        else d.hardware)
    pub count : e.vector.run.biss_pulse_out_count ≡ (
        if fired
        then next_word d.vector.run.biss_pulse_out_count
        else d.vector.run.biss_pulse_out_count)
    pub last :
        e.vector.run.biss_last_position
        ≡ (if good then position else d.vector.run.biss_last_position)

  commit-Tested :
      (position : ℕ) (d : Desk σ) (u : Vector)
      → Alike d.vector u
      → Tested true
          (triggers d.vector position)
          position
          d
          (commit_position h position false (record d { vector = u }))
  unfolding commit_position set_last_position count_pulse
  commit-Tested position d u a = elim (Bool-cases (triggers d.vector position)) [
    | inl hit ↦
        rw (triggers-Alike d.vector u position a, hit)
          (record {
            pulse =
                ap (λ (io : IoSettings). h.fire_rj45_trigger_us io.trigger_width_us d.hardware)
                  a.io;
            count = ap next_word a.pulses;
            last = refl;
          })
    | inr quiet ↦
        rw (triggers-Alike d.vector u position a, quiet)
          (record { pulse = refl; count = a.pulses; last = refl })
  ]

  pub process_frame_tests :
      (frame : ℕ) (d : Desk σ)
      → d.node.running ≡ true
      → Tested
          (frame_ok frame d.node.profile)
          (fires frame d.node.profile d.vector)
          (extract_position frame (some d.node.profile))
          d
          (process_frame h frame d).0
  unfolding process_frame set_last_position
  process_frame_tests frame d runs =
      if_each
        (λ (r : Desk σ × Bool).
          Tested (frame_ok frame d.node.profile) (fires frame d.node.profile d.vector)
            (extract_position frame (some d.node.profile)) d r.0)
        (not d.node.running) (λ e. ground (arith, e, runs))
        (λ e. elim (Bool-cases (frame_ok frame d.node.profile)) [
          | inl good ↦ elim (Bool-cases gate) [
            | inl open_gate ↦ rw (good, open_gate) (commit-Tested position d _ a)
            | inr shut ↦ rw (good, shut) (record { pulse = refl; count = a.pulses; last = refl })
          ]
          | inr bad ↦ rw bad (record { pulse = refl; count = a.pulses; last = a.position })
        ])
    where
      gate : Bool
      gate =
          status_gate_allows (extract_status frame (some d.node.profile))
            d.node.profile.status_gate_policy

      position : ℕ
      position = extract_position frame (some d.node.profile)

      a : Alike d.vector (count_frame frame d.node.profile d.vector)
      a = count_frame-Alike frame d.node.profile d.vector
