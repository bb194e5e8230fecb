-- ===== src/Powercycle/Sound.antt =====
-- The validity of the neighbor queues through the events around powercycle of tsch.c.
use mathlib.Core.Path.{subst}
use mathlib.Core.Option.{some-injective}
use tsch_minimum.Prelude.{
  branch, ℕ, ◌<◌, ◌≡◌, Bool, true, ◌&&◌, ◌||◌, Option, none, some, List, [], ◌∷◌, arith,
  Option-cases, inl, inr, ltb,
}
use tsch_minimum.Prelude.Words.{to_bool}
use tsch_minimum.Contiki.{Contiki, Addr}
use tsch_minimum.Neighbors.Inv.{IsSound, add_packet_to_queue-IsSound}
use tsch_minimum.Powercycle.{Cycle, Readings, arm}
use tsch_minimum.Powercycle.Round.{
  tsch_resume_powercycle, Event, fires, interrupts, adds, ask_ack, step, run,
}
use tsch_minimum.Powercycle.Kept.{Held, Keeps, Kept, fire-Kept}
use tsch_minimum.Outcome.Inv.{finish_tx-IsSound}
use tsch_minimum.Decide.Inv.{Decided, decide_cell-Decided}

module _ (os : Contiki) (payload : ℕ → List ℕ) where
  -- What random_rand() returns is a 16-bit number.
  abbrev pub small_random : Event → Bool
  small_random (fires r) = ltb r.random 65536
  small_random e = true

  abbrev pub small_randoms : List Event → Bool
  small_randoms [] = true
  small_randoms (e ∷ es) = small_random e && small_randoms es

  interrupts-IsSound :
      (ack : Option (ℕ × ℕ × ℕ)) (need_ack_irq : ℕ) (rf : Option Addr) (r : Readings) (s : Cycle os)
      → IsSound os s.net
      → IsSound os (tsch_resume_powercycle os need_ack_irq rf r (ask_ack os ack s)).net
  unfolding tsch_resume_powercycle ask_ack arm
  interrupts-IsSound none need_ack_irq rf r s h =
      branch (λ (t : Cycle os). IsSound os t.net)
        (s.waiting_for_radio_interrupt || to_bool r.rx_end_time) h h
  interrupts-IsSound (some a) need_ack_irq rf r s h =
      branch (λ (t : Cycle os). IsSound os t.net)
        (s.waiting_for_radio_interrupt || to_bool r.rx_end_time) h h

  -- The queues are valid, before a call and after.
  abbrev IsSoundNet : Held os
  IsSoundNet net f t a = IsSound os net

  sound-Keeps : (r : Readings) → r.random < 65536 → Keeps os r IsSoundNet IsSoundNet
  sound-Keeps r small = record {
    rests = λ s f t a h. h;
    settles = λ x n p cell bc s f t a h. finish_tx-IsSound os x s n p cell bc r.random small h;
    decides =
        λ last d cell c s f t a e h. subst (Decided os) e (decide_cell-Decided os s last d cell h);
    ends = λ s f c h. h;
  }

  step-IsSound :
      (e : Event) (s s' : Cycle os)
      → small_random e ≡ true
      → IsSound os s.net
      → step os payload e s ≡ some s'
      → IsSound os s'.net
  unfolding step
  step-IsSound (fires r) s s' small h e =
      let k = sound-Keeps r (ground (arith, small)) in
      subst (Kept os payload r IsSoundNet IsSoundNet k) e
        (fire-Kept os payload r IsSoundNet IsSoundNet k s.timer s h)
  step-IsSound (interrupts ack need_ack_irq rf r) s s' small h e =
      subst (λ t. IsSound os t.net) (some-injective _ _ e)
        (interrupts-IsSound ack need_ack_irq rf r s h)
  step-IsSound (adds pkt sent ptr a) s s' small h e =
      subst (λ t. IsSound os t.net) (some-injective _ _ e)
        (add_packet_to_queue-IsSound os s.net pkt sent ptr a h)

  -- Whatever happens, in whatever order, with 16-bit random numbers, the neighbor queues stay
  -- valid: their indices in the buffers, every neighbor's backoff exponent between macMinBE and
  -- macMaxBE and its counter below 16.
  pub run-IsSound :
      (es : List Event) (s s' : Cycle os)
      → small_randoms es ≡ true
      → IsSound os s.net
      → run os payload es s ≡ some s'
      → IsSound os s'.net
  unfolding run
  run-IsSound [] s s' small h e = subst (λ t. IsSound os t.net) (some-injective _ _ e) h
  run-IsSound (x ∷ es) s s' small h e = elim (Option-cases (step os payload x s)) [
    | inl f ↦ absurd (ground (arith, e))
    | inr (t, f) ↦
        run-IsSound es t s' (ground (arith, small)) (step-IsSound x s t (ground (arith, small)) h f)
          (rw (f, run) at e)
  ]
