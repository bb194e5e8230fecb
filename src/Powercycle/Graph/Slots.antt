-- ===== src/Powercycle/Graph/Slots.antt =====
-- Every yield of powercycle of tsch.c, whichever yield it follows.
use mathlib.Core.Path.{subst}
use tsch_minimum.Prelude.{
  branch, ℕ, ◌≤◌, ◌≡◌, refl, true, false, ◌&&◌, not, Option, none, some, List, arith, if◌then◌else◌,
  ◌==◌,
}
use tsch_minimum.Prelude.Words.{to_bool}
use tsch_minimum.Contiki.{Contiki}
use tsch_minimum.Params.{Cell, CellDecision, tsch_off, wd_data_duration}
use tsch_minimum.Time.{get_cell}
use tsch_minimum.Decide.{Choice, decide_cell}
use tsch_minimum.Powercycle.{Point, RadioCall, Cycle, Readings, call, mac_off}
use tsch_minimum.Powercycle.Round.{
  off_slot, act, decided, open_slot, begin_slot, loop, start, powercycle, resume,
}
use tsch_minimum.Powercycle.Graph.{
  leads, opens, listens, waits_for_ack, IsPowered, Yields, Gives, IsQuiet, end_round-Yields,
  last_asked,
}
use tsch_minimum.Powercycle.Graph.Transmits.{
  off-IsQuiet, read_ack-Gives, listen_for_ack-Gives, listen_again-Gives, send_now-Gives,
  begin_tx-Gives,
}
use tsch_minimum.Powercycle.Graph.Receives.{
  begin_rx-Yields, listen-Yields, guard_over-Gives, acknowledge-Gives,
}

module _ (os : Contiki) (payload : ℕ → List ℕ) (r : Readings) where
  off_slot-Yields :
      (q : Point) (s : Cycle os)
      → leads q Point.asleep ≡ true
      → IsQuiet os s
      → Yields os q r (off_slot os r s)
  unfolding off_slot
  off_slot-Yields q s f h =
      end_round-Yields os q r (mac_off os s.keep_radio_on s) f
        (off-IsQuiet os s h.not_waiting h.short)

  act-Gives :
      (d : CellDecision) (q : Point) (s : Cycle os)
      → ((p : Point) → leads q p ≡ opens p)
      → IsQuiet os s
      → Gives os q r (act os payload d r s)
  unfolding act
  act-Gives CellDecision.tx q s f h = begin_tx-Gives os r payload q s (f Point.before_tx) h
  act-Gives CellDecision.rx q s f h = begin_rx-Yields os r q s (f Point.before_rx) h
  act-Gives CellDecision.off q s f h = off_slot-Yields q s (f Point.asleep) h
  act-Gives CellDecision.tx_idle q s f h = off_slot-Yields q s (f Point.asleep) h
  act-Gives CellDecision.tx_backoff q s f h = off_slot-Yields q s (f Point.asleep) h

  decided-Gives :
      (o : Option (Choice os)) (q : Point) (s : Cycle os)
      → ((p : Point) → leads q p ≡ opens p)
      → IsQuiet os s
      → Gives os q r (decided os payload r s o)
  unfolding decided
  decided-Gives none q s f h = tt
  decided-Gives (some c) q s f h =
      act-Gives c.decision q
        (record s {
          net = c.net;
          last = c.pick.last;
          n = c.pick.n;
          p = c.pick.p;
          decision = c.decision;
        })
        f (record { off_or_kept = h.off_or_kept; not_waiting = h.not_waiting; short = h.short })

  begin_slot-Gives :
      (cell : Option Cell) (q : Point) (s : Cycle os)
      → ((p : Point) → leads q p ≡ opens p)
      → IsQuiet os s
      → Gives os q r (begin_slot os payload cell r s)
  unfolding begin_slot open_slot
  begin_slot-Gives none q s f h =
      off_slot-Yields q (record s { decision = CellDecision.off }) (f Point.asleep)
        (record { off_or_kept = h.off_or_kept; not_waiting = h.not_waiting; short = h.short })
  begin_slot-Gives (some cell) q s f h =
      branch (Gives os q r) (to_bool s.net.working_on_queue)
        (off_slot-Yields q (record s { decision = CellDecision.off }) (f Point.asleep)
          (record { off_or_kept = h.off_or_kept; not_waiting = h.not_waiting; short = h.short }))
        (decided-Gives (decide_cell os s.net s.last s.decision cell) q (open_slot os cell s) f
          (record { off_or_kept = h.off_or_kept; not_waiting = refl; short = h.short }))

  loop-Gives :
      (q : Point) (s : Cycle os)
      → ((p : Point) → leads q p ≡ opens p)
      → IsQuiet os s
      → Gives os q r (loop os payload r s)
  unfolding loop
  loop-Gives q s f h =
      branch (Gives os q r) (to_bool s.is_sync && not (s.state == tsch_off))
        (begin_slot-Gives (get_cell s.slotframe s.clock.timeslot) q
          (record (call os (RadioCall.sfd_sync 1 1) s) {
            cell = get_cell s.slotframe s.clock.timeslot;
          })
          f (record { off_or_kept = h.off_or_kept; not_waiting = h.not_waiting; short = h.short }))
        (record {
          follows = f Point.ended;
          is_powered = record {
            powered = h.off_or_kept;
            only_acks = λ x. ground (arith, h.not_waiting);
            short = h.short;
          };
          armed = λ x. refl;
          on_time = λ x y. cc;
        })

  start-Gives :
      (q : Point) (s : Cycle os)
      → ((p : Point) → leads q p ≡ opens p)
      → IsQuiet os s
      → Gives os q r (start os payload r s)
  unfolding start
  start-Gives q s f h =
      loop-Gives q (record s { clock = record s.clock { start = r.started } }) f
        (record { off_or_kept = h.off_or_kept; not_waiting = h.not_waiting; short = h.short })

  quiet :
      (s : Cycle os)
      → last_asked s.calls ≡ s.keep_radio_on
      → (s.waiting_for_radio_interrupt ≡ true → false ≡ true)
      → s.tx_time ≤ wd_data_duration
      → IsQuiet os s
  quiet s e w short = record { off_or_kept = e; not_waiting = ground (arith, w); short = short }

  powercycle-Gives :
      (q : Point) (s : Cycle os)
      → last_asked s.calls ≡ (if listens q then true else s.keep_radio_on)
      → (s.waiting_for_radio_interrupt ≡ true → waits_for_ack q ≡ true)
      → s.tx_time ≤ wd_data_duration
      → Gives os q r (powercycle os payload q r s)
  unfolding powercycle
  powercycle-Gives Point.start_up s e w short =
      start-Gives Point.start_up s (λ p. refl) (quiet s e w short)
  powercycle-Gives Point.asleep s e w short =
      loop-Gives Point.asleep s (λ p. refl) (quiet s e w short)
  powercycle-Gives Point.ended s e w short =
      start-Gives Point.ended s (λ p. refl) (quiet s e w short)
  powercycle-Gives Point.before_tx s e w short =
      send_now-Gives os r s (quiet s e w short).not_waiting
  powercycle-Gives Point.before_ack s e w short = listen_for_ack-Gives os r s short
  powercycle-Gives Point.ack_guard s e w short = listen_again-Gives os r s e short
  powercycle-Gives Point.ack_watchdog s e w short =
      read_ack-Gives os Point.ack_watchdog r s refl short
  powercycle-Gives Point.before_rx s e w short = listen-Yields os r s (quiet s e w short)
  powercycle-Gives Point.rx_guard s e w short = guard_over-Gives os r s (ground (arith, w)) short
  powercycle-Gives Point.before_send_ack s e w short = acknowledge-Gives os r s (quiet s e w short)

  resume-Gives : (s : Cycle os) → IsPowered os s → Gives os s.point r (resume os payload r s)
  unfolding resume
  resume-Gives s h =
      powercycle-Gives s.point (record s { timer = none }) h.powered h.only_acks h.short

  -- The same of what the protothread gives.
  pub resume-Yields :
      (s s' : Cycle os) → IsPowered os s → resume os payload r s ≡ some s' → Yields os s.point r s'
  resume-Yields s s' h e = subst (Gives os s.point r) e (resume-Gives s h)
