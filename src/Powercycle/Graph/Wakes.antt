-- ===== src/Powercycle/Graph/Wakes.antt =====
-- The times that powercycle of tsch.c sets its timer for in a slot.
use mathlib.Core.Option.{some-injective}
use tsch_minimum.Prelude.Words.{u16, sub16}
use tsch_minimum.Prelude.{
  ◌+◌, ◌⊎◌, ltb, ltb→lt, Bool-cases, inl, inr, ℕ, ◌≤◌, ◌<◌, ◌≡◌, refl, ◌∙◌, true, some, List, arith,
}
use tsch_minimum.Contiki.{Contiki}
use tsch_minimum.Params.{ts_slot_duration, wd_data_duration}
use tsch_minimum.Time.{schedule_fixed}
use tsch_minimum.Powercycle.{Point, Cycle, Readings}
use tsch_minimum.Powercycle.Round.{resume}
use tsch_minimum.Powercycle.Graph.{leads, due, IsPowered}
use tsch_minimum.Powercycle.Graph.Slots.{resume-Yields}

-- The waits of a slot are over before the next one starts.
due-lt : (p : Point) (t d : ℕ) → t ≤ wd_data_duration → due p t ≡ some d → d < ts_slot_duration
due-lt Point.start_up t d h e = absurd (ground (arith, e))
due-lt Point.asleep t d h e = absurd (ground (arith, e))
due-lt Point.ended t d h e = absurd (ground (arith, e))
due-lt Point.before_send_ack t d h e = absurd (ground (arith, e))
due-lt p t d h e = omega (arith, some-injective _ _ e)

-- One wait in a slot ends after the one before it.
due-order :
    (q p : Point) (t d d' : ℕ) → leads q p ≡ true → due q t ≡ some d → due p t ≡ some d' → d < d'
due-order Point.before_tx Point.before_ack t d d' l e e' = ground (arith, e, e')
due-order Point.before_ack Point.ack_guard t d d' l e e' = ground (arith, e, e')
due-order Point.before_ack Point.ack_watchdog t d d' l e e' = ground (arith, e, e')
due-order Point.ack_guard Point.ack_watchdog t d d' l e e' = ground (arith, e, e')
due-order Point.before_rx Point.rx_guard t d d' l e e' = ground (arith, e, e')
due-order q p t d d' l e e' = absurd (ground (arith, l, e, e'))

-- schedule_fixed sets the timer to the time that it is asked for, or, where that has passed, to the
-- fifth tick from then.
schedule_fixed-sets :
    (now₁ now₂ start d : ℕ)
    → let t = (schedule_fixed now₁ now₂ true start d).0 in
      (t ≡ u16 (start + d))
      ⊎ ((d < sub16 (u16 (start + d)) (u16 (now₁ + 1))) × (t ≡ u16 (now₂ + 5)))
unfolding schedule_fixed
schedule_fixed-sets now₁ now₂ start d =
    elim (Bool-cases (ltb d (sub16 (u16 (start + d)) (u16 (now₁ + 1))))) [
      | inl missed ↦
          inr (ltb→lt d (sub16 (u16 (start + d)) (u16 (now₁ + 1))) missed, rw missed refl)
      | inr met ↦ inl (rw met refl)
    ]

module _ (os : Contiki) (payload : ℕ → List ℕ) (r : Readings) where
  -- A call of the protothread that ends in a wait timed from the start of the slot asks for a
  -- duration, if rtimer_set succeeds: longer than that of the wait before, if there was one in the
  -- slot (with the `tx_time` that the packet has), and shorter than a slot. The timer is set to that
  -- time after the start of the slot, or, where it is missed, to five ticks after the reading of the
  -- timer.
  pub resume-wakes :
      (s s' : Cycle os) (d : ℕ)
      → IsPowered os s
      → resume os payload r s ≡ some s'
      → r.set_ok ≡ true
      → due s'.point s'.tx_time ≡ some d
      → (t : ℕ) × (s'.timer ≡ some t)
        × ((t ≡ u16 (s'.clock.start + d))
            ⊎ ((d < sub16 (u16 (s'.clock.start + d)) (u16 (r.now_1 + 1)))
                × (t ≡ u16 (r.now_2 + 5))))
        × (d < ts_slot_duration)
        × ((earlier : ℕ) → due s.point s'.tx_time ≡ some earlier → earlier < d)
  resume-wakes s s' d h e set e' =
      let y = resume-Yields os payload r s s' h e in
      (
        _,
        y.on_time set (rw e' refl) ∙ rw (set, e') refl,
        schedule_fixed-sets r.now_1 r.now_2 s'.clock.start d,
        due-lt s'.point s'.tx_time d y.is_powered.short e',
        λ earlier x. due-order s.point s'.point s'.tx_time earlier d y.follows x e',
      )
