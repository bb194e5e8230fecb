-- ===== src/Powercycle/Live/Untraced.antt =====
-- A drift without its frame, in powercycle of tsch.c.
use tsch_minimum.Prelude.{
  branch, ℕ, List, [], ◌∷◌, ◌≡◌, refl, true, false, ap, ◌∙◌, ◌||◌, Option, none, some, arith,
}
use tsch_minimum.Prelude.Words.{to_bool}
use tsch_minimum.Contiki.{Contiki}
use tsch_minimum.Powercycle.{Point, Cycle, Readings, mac_off, arm}
use tsch_minimum.Powercycle.Receive.{
  is_zero, record_drift, end_rx, after_rx, received, in_air, guard_over,
}
use tsch_minimum.Powercycle.Graph.{is_some}
use tsch_minimum.Powercycle.Round.{
  powercycle, resume, ask_ack, tsch_resume_powercycle, fires, interrupts, fire, step, run,
}

module _ (os : Contiki) (payload : ℕ → List ℕ) where
  guard_over-none :
      (r : Readings) (s : Cycle os)
      → in_air r ≡ true
      → s.need_ack ≡ 0
      → is_zero s.last_drift ≡ false
      → s.last_rf ≡ none
      → guard_over os r s ≡ none
  unfolding guard_over received after_rx end_rx record_drift mac_off
  guard_over-none r s heard quiet drifts no_frame = ground (arith, heard, quiet, drifts, no_frame)

  -- The last callback of the interrupt gave no frame and asks for no acknowledgment.
  record IsUntraced (t : Cycle os) : Type 0 where
    at_guard : t.point ≡ Point.rx_guard
    quiet : t.need_ack ≡ 0
    drifts : is_zero t.last_drift ≡ false
    no_frame : t.last_rf ≡ none

  fire-none :
      (r : Readings) (o : Option ℕ) (t : Cycle os)
      → is_some o ≡ true
      → in_air r ≡ true
      → IsUntraced t
      → fire os payload r o t ≡ none
  unfolding fire resume powercycle
  fire-none r none t o heard h = absurd (ground (arith, o))
  fire-none r (some time) t o heard h =
      ap (λ q. powercycle os payload q r (record t { timer = none })) h.at_guard
      ∙ guard_over-none r (record t { timer = none }) heard h.quiet h.drifts h.no_frame

  exit-IsUntraced :
      (r : Readings) (s : Cycle os)
      → s.point ≡ Point.rx_guard
      → is_zero s.last_drift ≡ false
      → IsUntraced (tsch_resume_powercycle os 0 none r s)
  unfolding tsch_resume_powercycle arm
  exit-IsUntraced r s at_guard drifts =
      branch IsUntraced (s.waiting_for_radio_interrupt || to_bool r.rx_end_time)
        (record { at_guard = at_guard; quiet = refl; drifts = drifts; no_frame = refl })
        (record { at_guard = at_guard; quiet = refl; drifts = drifts; no_frame = refl })

  exit-timer :
      (r : Readings) (s : Cycle os)
      → to_bool r.rx_end_time ≡ true
      → r.set_ok ≡ true
      → is_some (tsch_resume_powercycle os 0 none r s).timer ≡ true
  unfolding tsch_resume_powercycle arm
  exit-timer r s ended set = ground (arith, ended, set)

  ask_ack-point : (ack : ℕ × ℕ × ℕ) (s : Cycle os) → (ask_ack os (some ack) s).point ≡ s.point
  unfolding ask_ack
  ask_ack-point ack s = refl

  -- While a slot listens for a frame, the interrupt asks for the acknowledgment of one that came
  -- with a drift and then drops the frame, so that its callback is called with need_ack 0 and no
  -- frame. If rtimer_set succeeds, the call of the protothread by the timer then reads through
  -- NULL.
  pub untraced_drift :
      (ack : ℕ × ℕ × ℕ) (r r' : Readings) (s : Cycle os)
      → s.point ≡ Point.rx_guard
      → is_zero (ask_ack os (some ack) s).last_drift ≡ false
      → to_bool r'.rx_end_time ≡ true
      → r'.set_ok ≡ true
      → in_air r ≡ true
      → run os payload (interrupts (some ack) 0 none r' ∷ fires r ∷ []) s ≡ none
  unfolding run step
  untraced_drift ack r r' s at_guard drifts ended set heard =
      let s' = ask_ack os (some ack) s in
      let t = tsch_resume_powercycle os 0 none r' s' in
      rw
        (
          fire-none r t.timer t (exit-timer r' s' ended set) heard
              (exit-IsUntraced r' s' (ask_ack-point ack s ∙ at_guard) drifts),
          run,
        )
        refl
