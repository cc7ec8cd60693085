-- ===== src/SyncIo/Clock.antt =====
-- The sync clock of components/sync_io/src/sync_io.c. It takes its resources from the arbiter under
-- a name of its own. The trace calls, which the state does not depend on, are left out.
use Prim.Native.String.{String}
use hdrt.Prelude.{ℕ, ◌||◌, Bool, true, false, not, some, bit_or, ◌==◌, if◌then◌else◌}
use hdrt.ResourceArbiter.{Context, acquire_owned, release_owned, pio2, aux}
use hdrt.SyncIo.Hardware.{Hardware}

abbrev pub clock_owner : String
clock_owner = "sync.clock"

abbrev pub clock_resources : ℕ
clock_resources = bit_or pio2 aux

-- The part of `s_sync_io` that the clock uses.
pub record Clock : Type 0 where
  pub initialized : Bool
  pub clock_running : Bool
  pub sync_clock_hz : ℕ

-- What a call of the clock changes.
pub record Clocking (σ : Type 0) : Type 0 where
  pub arbiter : Context
  pub clock : Clock
  pub hardware : σ

module _ {σ : Type 0} (h : Hardware σ) where
  unfoldable pub begin_clock : ℕ → Clocking σ → Clocking σ
  begin_clock frequency_hz c = record c {
    clock = record c.clock { clock_running = true; sync_clock_hz = frequency_hz };
    hardware = h.run_clock frequency_hz c.hardware;
  }

  unfoldable pub start_clock : ℕ → Clocking σ → Clocking σ × Bool
  start_clock frequency_hz c =
      if not c.clock.initialized || frequency_hz == 0
      then (c, false)
      else if c.clock.clock_running
      then (begin_clock frequency_hz c, true)
      else (let (arbiter, acquired) = acquire_owned clock_resources (some clock_owner) c.arbiter in
          let d = record c { arbiter = arbiter } in
          if acquired then (begin_clock frequency_hz d, true) else (d, false))

  unfoldable pub stop_clock : Clocking σ → Clocking σ
  stop_clock c =
      if not c.clock.initialized then c else if not c.clock.clock_running then c else record {
        arbiter = release_owned clock_resources (some clock_owner) c.arbiter;
        clock = record c.clock { clock_running = false };
        hardware = h.halt_clock c.hardware;
      }
