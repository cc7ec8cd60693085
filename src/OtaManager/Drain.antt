-- ===== src/OtaManager/Drain.antt =====
-- components/ota_manager/src/ota_ao.c: the events that are posted are all handled, in order.
use hdrt.Prelude.{ℕ, ◌-◌, ◌≤◌, ◌≡◌, ◌∙◌, refl, ap, Option, none, some, List, [], ◌∷◌, arith, length}
use hdrt.EventBus.Fifo.{Delivery, delivery, receive}
use hdrt.OtaManager.Fb.{OtaWorld, with_vector, vector_of, ota_fb_execute}
use hdrt.Flash.{Port}
use hdrt.Bootloader.Images.{Library}
use hdrt.EventBus.{OtaEvent, Bus, try_recv_ota_event}
use hdrt.EventBus.Invariant.{IsValid, recv-IsValid}
use hdrt.EventBus.Refine.{contents, contents_empty, handed_over, recv_refines}
use hdrt.OtaManager.Port.{Session}
use hdrt.OtaManager.Ao.{Ao, serve_received, ao_service}

-- The state that a handler starts from at the time `now`.
abbrev pub timed : {σ : Type 0} → ℕ → Ao σ → OtaWorld σ
timed now a = with_vector (record (vector_of a.world) { timestamp_ms = now }) a.world

module _ {σ : Type 0} (L : Library) (P : Port) (S : Session σ) where
  -- one service at each of the times
  unfoldable pub serve_times : List ℕ → Ao σ → Ao σ
  serve_times [] a = a
  serve_times (now ∷ times) a = serve_times times (ao_service L P S now a)

  -- No handler touches the bus.
  bus-serve_received :
      (w : OtaWorld σ) (a : Ao σ) (r : Bus × Option OtaEvent)
      → (serve_received L P S w a r).bus ≡ r.0
  unfolding serve_received
  bus-serve_received w a (b, some e) = refl
  bus-serve_received w a (b, none) = refl

  bus-ao_service :
      (now : ℕ) (a : Ao σ) → (ao_service L P S now a).bus ≡ (try_recv_ota_event a.bus).0
  unfolding ao_service
  bus-ao_service now a = bus-serve_received _ a (try_recv_ota_event a.bus)

  count-recv : (b : Bus) → (try_recv_ota_event b).0.count ≡ b.count - 1
  unfolding try_recv_ota_event
  count-recv b = ground arith

  -- As many services as there are events in a valid bus empty it, whatever the events do.
  pub serve_times_drains :
      (times : List ℕ) (a : Ao σ)
      → IsValid a.bus
      → a.bus.count ≤ length times
      → contents (serve_times times a).bus ≡ []
  unfolding serve_times
  serve_times_drains [] a v h = contents_empty a.bus (omega (arith, h))
  serve_times_drains (now ∷ times) a v h =
      serve_times_drains times (ao_service L P S now a)
        (rw (bus-ao_service now a) (recv-IsValid a.bus v))
        (rw (bus-ao_service now a, count-recv a.bus) (omega (arith, h)))

  served :
      (now : ℕ) (a : Ao σ) (d : Delivery) (q : List Delivery) (r : Bus × Option OtaEvent)
      → handed_over r ≡ (q, some d)
      → (e : OtaEvent) × (delivery r.0 e ≡ d)
        × (contents r.0 ≡ q)
        × ((serve_received L P S (timed now a) a r).world
            ≡ ota_fb_execute L P S r.0 e (timed now a))
  unfolding serve_received
  served now a d q (b, some e) h =
      let same : some (delivery b e) ≡ some d = ap (λ p. p.1) h in (e, (cc), ap (λ p. p.0) h, refl)
  served now a d q (b, none) h = let same : none ≡ some d = ap (λ p. p.1) h in absurd (cc)

  -- With `d` the oldest event in a valid bus, a service runs the handler on an event that reads as
  -- `d` in the bus as it then is, and leaves the events behind `d` in it, in their order.
  pub ao_service_oldest :
      (now : ℕ) (a : Ao σ) (d : Delivery) (q : List Delivery)
      → IsValid a.bus
      → contents a.bus ≡ d ∷ q
      → let after = ao_service L P S now a in
        (e : OtaEvent) × (delivery after.bus e ≡ d)
        × (contents after.bus ≡ q)
        × (after.world ≡ ota_fb_execute L P S after.bus e (timed now a))
  unfolding receive ao_service serve_received
  ao_service_oldest now a d q v h =
      rw (bus-ao_service now a)
        (served now a d q (try_recv_ota_event a.bus) (recv_refines a.bus v ∙ ap receive h))
