-- ===== src/Powercycle/Graph/Runs.antt =====
-- What powercycle of tsch.c asks of the radio and its timer, through any order of the events around
-- it.
use mathlib.Core.Path.{subst}
use mathlib.Core.Option.{some-injective}
use tsch_minimum.Prelude.{
  branch, ℕ, ◌≡◌, Bool, true, ◌&&◌, ◌||◌, Option, none, some, List, [], ◌∷◌, arith, Option-cases,
  inl, inr,
}
use tsch_minimum.Prelude.Words.{to_bool}
use tsch_minimum.Contiki.{Contiki, Addr}
use tsch_minimum.Powercycle.{Cycle, Readings, arm}
use tsch_minimum.Powercycle.Round.{
  tsch_resume_powercycle, Event, fires, interrupts, adds, ask_ack, fire, step, run,
}
use tsch_minimum.Powercycle.Graph.{IsPowered, is_ended, is_some}
use tsch_minimum.Powercycle.Graph.Slots.{resume-Yields}

module _ (os : Contiki) (payload : ℕ → List ℕ) where
  interrupts-IsPowered :
      (ack : Option (ℕ × ℕ × ℕ)) (need_ack_irq : ℕ) (rf : Option Addr) (r : Readings) (s : Cycle os)
      → IsPowered os s
      → IsPowered os (tsch_resume_powercycle os need_ack_irq rf r (ask_ack os ack s))
  unfolding tsch_resume_powercycle ask_ack arm
  interrupts-IsPowered none need_ack_irq rf r s h =
      branch (IsPowered os) (s.waiting_for_radio_interrupt || to_bool r.rx_end_time)
        (record { powered = h.powered; only_acks = λ x. cc; short = h.short })
        (record { powered = h.powered; only_acks = h.only_acks; short = h.short })
  interrupts-IsPowered (some a) need_ack_irq rf r s h =
      branch (IsPowered os) (s.waiting_for_radio_interrupt || to_bool r.rx_end_time)
        (record { powered = h.powered; only_acks = λ x. cc; short = h.short })
        (record { powered = h.powered; only_acks = h.only_acks; short = h.short })

  fire-IsPowered :
      (r : Readings) (t : Option ℕ) (s s' : Cycle os)
      → IsPowered os s
      → fire os payload r t s ≡ some s'
      → IsPowered os s'
  unfolding fire
  fire-IsPowered r none s s' h e = subst (IsPowered os) (some-injective _ _ e) h
  fire-IsPowered r (some t) s s' h e = (resume-Yields os payload r s s' h e).is_powered

  step-IsPowered :
      (e : Event) (s s' : Cycle os)
      → IsPowered os s
      → step os payload e s ≡ some s'
      → IsPowered os s'
  unfolding step
  step-IsPowered (fires r) s s' h e = fire-IsPowered r s.timer s s' h e
  step-IsPowered (interrupts ack need_ack_irq rf r) s s' h e =
      subst (IsPowered os) (some-injective _ _ e) (interrupts-IsPowered ack need_ack_irq rf r s h)
  step-IsPowered (adds pkt sent ptr a) s s' h e =
      subst (IsPowered os) (some-injective _ _ e)
        (record { powered = h.powered; only_acks = h.only_acks; short = h.short })

  -- Through timer calls, interrupts and calls of add_packet_to_queue in any order, what powercycle
  -- asked of the radio last is on exactly where it listens for an acknowledgment or a frame, or is to
  -- keep the radio on (whether the driver has turned it off by itself since is not said); only in the
  -- waits for an acknowledgment does it wait for the radio interrupt; and `tx_time` is limited.
  pub run-IsPowered :
      (es : List (Event)) (s s' : Cycle os)
      → IsPowered os s
      → run os payload es s ≡ some s'
      → IsPowered os s'
  unfolding run
  run-IsPowered [] s s' h e = subst (IsPowered os) (some-injective _ _ e) h
  run-IsPowered (x ∷ es) s s' h e = elim (Option-cases (step os payload x s)) [
    | inl f ↦ absurd (ground (arith, e))
    | inr (t, f) ↦ run-IsPowered es t s' (step-IsPowered x s t h f) (rw (f, run) at e)
  ]

  -- rtimer_set succeeds in what happens.
  abbrev pub sets_timer : Event → Bool
  sets_timer (fires r) = r.set_ok
  sets_timer (interrupts ack need_ack_irq rf r) = r.set_ok
  sets_timer (adds pkt sent ptr a) = true

  abbrev pub set_timers : List Event → Bool
  set_timers [] = true
  set_timers (e ∷ es) = sets_timer e && set_timers es

  -- The timer is set, or the loop has ended.
  abbrev pub is_armed : Cycle os → Bool
  is_armed s = is_ended s.point || is_some s.timer

  interrupts-armed :
      (ack : Option (ℕ × ℕ × ℕ)) (need_ack_irq : ℕ) (rf : Option Addr) (r : Readings) (s : Cycle os)
      → r.set_ok ≡ true
      → is_armed s ≡ true
      → is_armed (tsch_resume_powercycle os need_ack_irq rf r (ask_ack os ack s)) ≡ true
  unfolding tsch_resume_powercycle ask_ack arm
  interrupts-armed none need_ack_irq rf r s set h = ground (arith, set, h)
  interrupts-armed (some a) need_ack_irq rf r s set h = ground (arith, set, h)

  fire-armed :
      (r : Readings) (t : Option ℕ) (s s' : Cycle os)
      → r.set_ok ≡ true
      → IsPowered os s
      → is_armed s ≡ true
      → fire os payload r t s ≡ some s'
      → is_armed s' ≡ true
  unfolding fire
  fire-armed r none s s' set p h e = subst (λ t. is_armed t ≡ true) (some-injective _ _ e) h
  fire-armed r (some t) s s' set p h e = (resume-Yields os payload r s s' p e).armed set

  step-armed :
      (e : Event) (s s' : Cycle os)
      → sets_timer e ≡ true
      → IsPowered os s
      → is_armed s ≡ true
      → step os payload e s ≡ some s'
      → is_armed s' ≡ true
  unfolding step
  step-armed (fires r) s s' set p h e = fire-armed r s.timer s s' set p h e
  step-armed (interrupts ack need_ack_irq rf r) s s' set p h e =
      subst (λ t. is_armed t ≡ true) (some-injective _ _ e)
        (interrupts-armed ack need_ack_irq rf r s set h)
  step-armed (adds pkt sent ptr a) s s' set p h e =
      subst (λ t. is_armed t ≡ true) (some-injective _ _ e) h

  -- As long as rtimer_set succeeds, through timer calls, interrupts and calls of
  -- add_packet_to_queue in any order, the protothread never waits without the timer set: its timer
  -- is set or its loop has ended, if that was so before.
  pub run-armed :
      (es : List Event) (s s' : Cycle os)
      → set_timers es ≡ true
      → IsPowered os s
      → is_armed s ≡ true
      → run os payload es s ≡ some s'
      → is_armed s' ≡ true
  unfolding run
  run-armed [] s s' set p h e = subst (λ t. is_armed t ≡ true) (some-injective _ _ e) h
  run-armed (x ∷ es) s s' set p h e = elim (Option-cases (step os payload x s)) [
    | inl f ↦ absurd (ground (arith, e))
    | inr (t, f) ↦
        run-armed es t s' (ground (arith, set)) (step-IsPowered x s t p f)
          (step-armed x s t (ground (arith, set)) p h f) (rw (f, run) at e)
  ]
