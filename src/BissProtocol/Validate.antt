-- ===== src/BissProtocol/Validate.antt =====
-- Which profiles `biss_profile_validate` accepts, and what a valid profile guarantees.
use native.Mathlib.Nat.{mod-eq_of_lt, le_trans, pow-le-pow_right}
use hdrt.Bits.{test_bit}
use hdrt.Prelude.{ℕ, ◌+◌, ◌-◌, ◌^◌, ◌≤◌, ◌<◌, ◌≡◌, ◌↔◌, ◌⊎◌, true, arith, some}
use hdrt.BissProtocol.Types.{
  Profile, ProfileStatus, ok, range_fits, optional_bit_valid, profile_validate, disabled_offset,
  check_position, check_anchor, check_crc, check_sampling,
}
use hdrt.BissProtocol.Fields.{extract_bits_msb, extract_position}
use hdrt.BissProtocol.Extract.{InFrame, extract_field}

-- A field of at least one bit that lies in the frame.
abbrev pub Inside : ℕ → ℕ → ℕ → Type 0
Inside offset bits frame_bits = (1 ≤ bits) × (offset + bits ≤ frame_bits)

-- The wire format that a profile may describe.
pub record IsUsable (p : Profile) : Type 0 where
  pub frame : (1 ≤ p.frame_bits) × (p.frame_bits ≤ 64)
  pub position : (p.position_bits ≤ 32) × Inside p.position_offset p.position_bits p.frame_bits
  pub modulo : 1 ≤ p.modulo
  pub anchor : (p.anchor_bits ≡ 0) ⊎ Inside p.anchor_offset p.anchor_bits p.frame_bits
  pub error_bit : (p.error_bit_offset ≡ disabled_offset) ⊎ (p.error_bit_offset < p.frame_bits)
  pub warning_bit : (p.warning_bit_offset ≡ disabled_offset) ⊎ (p.warning_bit_offset < p.frame_bits)
  pub crc :
      ((p.crc_bits ≡ 0) × (p.crc_cover_bits ≡ 0))
      ⊎ ((p.crc_bits ≤ 16) × Inside p.crc_offset p.crc_bits p.frame_bits)
  pub cover : (p.crc_cover_bits ≡ 0) ⊎ Inside p.crc_cover_offset p.crc_cover_bits p.frame_bits
  pub edge : p.sample_edge ≤ 1
  pub delay : p.sample_delay_cycles < p.pio_cycles_per_bit
  pub timeout : 1 ≤ p.timeout_us
  pub policies : (p.status_gate_policy ≤ 2) × (p.crc_gate_policy ≤ 1)

range_fits_iff :
    (offset bits frame_bits : ℕ)
    → (range_fits offset bits frame_bits ≡ true) ↔ Inside offset bits frame_bits
unfolding range_fits
range_fits_iff offset bits frame_bits = ground arith

module _ (p : Profile) (next : ProfileStatus) where
  position_ok : (check_position p next ≡ ok) ↔ (
      ((1 ≤ p.frame_bits) × (p.frame_bits ≤ 64))
      × ((p.position_bits ≤ 32) × Inside p.position_offset p.position_bits p.frame_bits)
      × (1 ≤ p.modulo)
      × (next ≡ ok))
  unfolding check_position
  position_ok = ground (arith, range_fits_iff p.position_offset p.position_bits p.frame_bits)

  anchor_ok :
      p.frame_bits ≤ 64
      → (check_anchor p next ≡ ok) ↔ (
          ((p.anchor_bits ≡ 0) ⊎ Inside p.anchor_offset p.anchor_bits p.frame_bits)
          × ((p.error_bit_offset ≡ disabled_offset) ⊎ (p.error_bit_offset < p.frame_bits))
          × ((p.warning_bit_offset ≡ disabled_offset) ⊎ (p.warning_bit_offset < p.frame_bits))
          × (next ≡ ok))
  unfolding check_anchor optional_bit_valid
  anchor_ok narrow = ground (arith, range_fits_iff p.anchor_offset p.anchor_bits p.frame_bits)

  crc_ok : (check_crc p next ≡ ok) ↔ (
      (((p.crc_bits ≡ 0) × (p.crc_cover_bits ≡ 0))
        ⊎ ((p.crc_bits ≤ 16) × Inside p.crc_offset p.crc_bits p.frame_bits))
      × ((p.crc_cover_bits ≡ 0) ⊎ Inside p.crc_cover_offset p.crc_cover_bits p.frame_bits)
      × (next ≡ ok))
  unfolding check_crc
  crc_ok = ground (
    arith,
    range_fits_iff p.crc_offset p.crc_bits p.frame_bits,
    range_fits_iff p.crc_cover_offset p.crc_cover_bits p.frame_bits,
  )

sampling_ok :
    (p : Profile)
    → (check_sampling p ≡ ok) ↔ (
        (p.sample_edge ≤ 1)
        × (p.sample_delay_cycles < p.pio_cycles_per_bit)
        × (1 ≤ p.timeout_us)
        × ((p.status_gate_policy ≤ 2) × (p.crc_gate_policy ≤ 1)))
unfolding check_sampling
sampling_ok p = ground arith

after_crc : Profile → ProfileStatus
after_crc p = check_crc p (check_sampling p)

after_anchor : Profile → ProfileStatus
after_anchor p = check_anchor p (check_crc p (check_sampling p))

accepted-IsUsable : (p : Profile) → profile_validate (some p) ≡ ok → IsUsable p
unfolding profile_validate after_crc after_anchor
accepted-IsUsable p e =
    let a = (position_ok p (after_anchor p)).0 e in
    let b = (anchor_ok p (after_crc p) a.0.1).0 a.3 in
    let c = (crc_ok p (check_sampling p)).0 b.3 in
    let d = (sampling_ok p).0 c.2 in
    record {
      frame = a.0;
      position = a.1;
      modulo = a.2;
      anchor = b.0;
      error_bit = b.1;
      warning_bit = b.2;
      crc = c.0;
      cover = c.1;
      edge = d.0;
      delay = d.1;
      timeout = d.2;
      policies = d.3;
    }

usable_accepted : (p : Profile) → IsUsable p → profile_validate (some p) ≡ ok
unfolding profile_validate after_crc after_anchor
usable_accepted p u =
    let d = (sampling_ok p).1 (u.edge, u.delay, u.timeout, u.policies) in
    let c = (crc_ok p (check_sampling p)).1 (u.crc, u.cover, d) in
    let b = (anchor_ok p (after_crc p) u.frame.1).1 (u.anchor, u.error_bit, u.warning_bit, c) in
    (position_ok p (after_anchor p)).1 (u.frame, u.position, u.modulo, b)

-- A profile is accepted exactly when it is usable.
pub profile_validate_iff : (p : Profile) → (profile_validate (some p) ≡ ok) ↔ IsUsable p
profile_validate_iff p = (accepted-IsUsable p, usable_accepted p)

uncut :
    (p : Profile) (frame : ℕ)
    → InFrame frame p.frame_bits p.position_offset p.position_bits
    → p.position_bits ≤ 32
    → extract_position frame (some p)
      ≡ extract_bits_msb frame p.frame_bits p.position_offset p.position_bits
unfolding extract_position
uncut p frame h small = mod-eq_of_lt (
    le_trans (extract_field frame p.frame_bits p.position_offset p.position_bits h).0
      (pow-le-pow_right {n = 2} (omega arith) {i = p.position_bits} {j = 32} small))

position_field :
    (p : Profile) (frame : ℕ)
    → profile_validate (some p) ≡ ok
    → frame < 2 ^ 64
    → (extract_position frame (some p) < 2 ^ p.position_bits)
      × ((k : ℕ)
          → k < p.position_bits
          → test_bit (extract_position frame (some p)) (p.position_bits - 1 - k)
            ≡ test_bit frame (p.frame_bits - 1 - (p.position_offset + k)))
position_field p frame e word =
    rw (uncut p frame in_frame (u.position.0))
      (extract_field frame p.frame_bits p.position_offset p.position_bits in_frame)
  where
    u : IsUsable p
    u = accepted-IsUsable p e

    in_frame : InFrame frame p.frame_bits p.position_offset p.position_bits
    in_frame = record {
      word = word;
      some_bits = u.position.1.0;
      inside = u.position.1.1;
      narrow = u.frame.1;
    }

-- With an accepted profile the position of a frame keeps all its bits: the cast to `uint32_t` drops
-- none, and bit `k` of the position, from its most significant bit, is bit `position_offset + k` of
-- the frame, from the frame's.
pub extract_position_field :
    (p : Profile) (frame k : ℕ)
    → profile_validate (some p) ≡ ok
    → frame < 2 ^ 64
    → k < p.position_bits
    → (extract_position frame (some p) < 2 ^ p.position_bits)
      × (test_bit (extract_position frame (some p)) (p.position_bits - 1 - k)
          ≡ test_bit frame (p.frame_bits - 1 - (p.position_offset + k)))
extract_position_field p frame k e word lt =
    let r = position_field p frame e word in (r.0, r.1 k lt)
