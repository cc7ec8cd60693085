-- ===== src/ResourceArbiter.antt =====
-- components/resource_arbiter/src/resource_arbiter.c: who may use which shared hardware resource.
-- The static `s_resource_arbiter` is a `Context` that each operation takes and returns; the critical
-- sections make every operation one step. A `uint32_t` of resources is a number, its bits the
-- resources. An owner is the text that its `const char *` points to, `none` for NULL.
pub mod Loops
pub mod Invariant
pub mod Calls
pub mod Ownership
pub mod Cycle
pub mod Sharing
mod Tests
use Prim.Native.String.{String}
use text.Mathlib.Text.{◌==◌ as str_eq}
use hdrt.Prelude.{
  ℕ, zero, suc, ◌+◌, ◌^◌, Bool, true, false, ◌&&◌, not, Option, none, some, bit_and, bit_or, ◌==◌,
  if◌then◌else◌, update,
}
use hdrt.Bits.{complement}

pub data Mode : Type 0 where
  boot run ota fault : Mode

abbrev pub is_mode_fault : Mode → Bool
is_mode_fault fault = true
is_mode_fault _ = false

abbrev pub is_mode_ota : Mode → Bool
is_mode_ota ota = true
is_mode_ota _ = false

-- `resource_arbiter_resource_t`
abbrev pub flash : ℕ
flash = 2 ^ 0

abbrev pub pio0 : ℕ
pio0 = 2 ^ 3

abbrev pub pio1 : ℕ
pio1 = 2 ^ 4

abbrev pub pio2 : ℕ
pio2 = 2 ^ 5

abbrev pub dma : ℕ
dma = 2 ^ 6

abbrev pub aux : ℕ
aux = 2 ^ 9

abbrev pub Owner : Type 0
Owner = Option String

-- `resource_arbiter_context_t` and the snapshot in it. `resource_owners` has 32 entries; no index
-- from 32 on is read or written.
pub record Context : Type 0 where
  pub initialized : Bool
  pub mode : Mode
  pub active_resources : ℕ
  pub last_conflict_resources : ℕ
  pub last_conflict_owner : Owner
  pub last_conflict_holder : Owner
  pub resource_owners : ℕ → Owner
  pub trigger_capture_running : Bool
  pub trigger_clock_running : Bool

-- `(x & (1u << bit)) != 0u`
unfoldable pub has_bit : ℕ → ℕ → Bool
has_bit x bit = not (bit_and x (2 ^ bit) == 0)

unfoldable pub owner_matches : Owner → Owner → Bool
owner_matches none actual = true
owner_matches (some expected) none = false
owner_matches (some expected) (some actual) = str_eq expected actual

-- the loop of `resource_arbiter_first_owner_locked`, with `left` rounds to go from `bit`
unfoldable pub first_owner_from : (ℕ → Owner) → ℕ → ℕ → ℕ → Owner
first_owner_from owners resources zero bit = none
first_owner_from owners resources (suc left) bit =
    let rest = first_owner_from owners resources left (bit + 1) in
    if has_bit resources bit
    then elim (owners bit) [ some owner ↦ some owner | none ↦ rest ]
    else rest

unfoldable pub first_owner : Context → ℕ → Owner
unfolding first_owner_from has_bit
first_owner s resources = first_owner_from s.resource_owners resources 32 0

-- static storage before the first call
unfoldable pub zeroed : Context
zeroed = record {
  initialized = false;
  mode = boot;
  active_resources = 0;
  last_conflict_resources = 0;
  last_conflict_owner = none;
  last_conflict_holder = none;
  resource_owners = λ bit. none;
  trigger_capture_running = false;
  trigger_clock_running = false;
}

unfoldable pub reset : Context
unfolding zeroed
reset = record zeroed { initialized = true; mode = run }

-- `if (!initialized) reset_locked();`
unfoldable pub ensure : Context → Context
ensure s = if s.initialized then s else reset

unfoldable pub init : Context → Context × Bool
init s = (reset, true)

unfoldable pub publish_trigger_activity : Bool → Bool → Context → Context
publish_trigger_activity capture clock s = record (ensure s) {
  trigger_capture_running = capture;
  trigger_clock_running = clock;
}

unfoldable pub can_begin_ota : Context → Context × Bool
can_begin_ota s =
    let t = ensure s in
    (
      t,
      not t.trigger_capture_running
          && not t.trigger_clock_running
          && (bit_and t.active_resources flash == 0)
          && not (is_mode_fault t.mode),
    )

-- the loop of `acquire_owned`: it writes the owner of each resource asked for
unfoldable pub claim_from : ℕ → Owner → ℕ → ℕ → (ℕ → Owner) → (ℕ → Owner)
claim_from resources owner zero bit owners = owners
claim_from resources owner (suc left) bit owners =
    claim_from resources owner left (bit + 1)
      (if has_bit resources bit then update owners bit owner else owners)

unfoldable pub grant : ℕ → Owner → Context → Context
grant resources owner s = record s {
  active_resources = bit_or s.active_resources resources;
  resource_owners = claim_from resources owner 32 0 s.resource_owners;
  mode = if not (bit_and resources flash == 0) then ota else s.mode;
}

unfoldable pub refuse : ℕ → Owner → Context → Context
refuse conflicts owner s = record s {
  last_conflict_resources = conflicts;
  last_conflict_owner = owner;
  last_conflict_holder = first_owner s conflicts;
}

unfoldable pub acquire_owned : ℕ → Owner → Context → Context × Bool
acquire_owned resources owner s =
    if resources == 0
    then (s, false)
    else (let t = ensure s in
        let conflicts = bit_and t.active_resources resources in
        if conflicts == 0
        then (grant resources owner t, true)
        else (refuse conflicts owner t, false))

unfoldable pub acquire : ℕ → Context → Context × Bool
acquire resources s = acquire_owned resources none s

-- What the loop of `release_owned` changes: the active resources and the owners.
pub record Holding : Type 0 where
  pub active : ℕ
  pub owners : ℕ → Owner

unfoldable pub drop_bit : ℕ → Holding → Holding
drop_bit bit h = record {
  active = bit_and h.active (complement 32 (2 ^ bit));
  owners = update h.owners bit none;
}

unfoldable pub drop_from : ℕ → Owner → ℕ → ℕ → Holding → Holding
drop_from resources owner zero bit h = h
drop_from resources owner (suc left) bit h =
    drop_from resources owner left (bit + 1)
      (if has_bit resources bit && owner_matches owner (h.owners bit) then drop_bit bit h else h)

abbrev pub holding : Context → Holding
holding s = record { active = s.active_resources; owners = s.resource_owners }

unfoldable pub relinquish : ℕ → Owner → Context → Context
relinquish resources owner s =
    let h = drop_from resources owner 32 0 (holding s) in
    record s {
      active_resources = h.active;
      resource_owners = h.owners;
      mode = if (bit_and h.active flash == 0) && is_mode_ota s.mode then run else s.mode;
    }

unfoldable pub release_owned : ℕ → Owner → Context → Context
release_owned resources owner s =
    if resources == 0 then s else relinquish resources owner (ensure s)

unfoldable pub release : ℕ → Context → Context
release resources s = release_owned resources none s

-- `given` is false for a NULL out-pointer. What the caller gets is the state, less `initialized`.
unfoldable pub get_snapshot : Bool → Context → Context × Option Context
get_snapshot given s = if given then (ensure s, some (ensure s)) else (s, none)
