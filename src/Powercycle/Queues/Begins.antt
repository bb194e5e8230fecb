-- ===== src/Powercycle/Queues/Begins.antt =====
-- The calls of the protothread of tsch.c that begin a slot, or that receive: the queues hold what
-- they held.
use tsch_minimum.Prelude.{
  ℕ, ◌≡◌, refl, sym, ◌∙◌, true, false, ◌&&◌, not, Option, none, some, List, arith, branch, ◌==◌,
}
use mathlib.Core.Path.{subst}
use tsch_minimum.Prelude.Words.{to_bool}
use tsch_minimum.Contiki.{Contiki, IsContiki, Addr}
use tsch_minimum.Params.{Cell, CellDecision, tsch_off}
use tsch_minimum.Neighbors.{Net, PacketRef, deref, neighbor_queue_from_addr}
use tsch_minimum.Neighbors.Same.{view-SameNet, SameNet, read_from-SameNet}
use tsch_minimum.Neighbors.Addressed.{Addressed}
use tsch_minimum.Neighbors.Fifos.{Fifos}
use tsch_minimum.Neighbors.Refine.{view}
use tsch_minimum.Time.{get_cell}
use tsch_minimum.Decide.{Choice, decide_cell, is_none}
use tsch_minimum.Decide.Inv.{Decided, decide_cell-Decided}
use tsch_minimum.SharedTx.Finds.{IsFirst}
use tsch_minimum.Decide.Picks.{IsChosen, decide_cell-IsChosen}
use tsch_minimum.Powercycle.{
  Point, RadioCall, Cycle, Readings, call, mac_on, mac_off, arm, wait_until, end_round,
}
use tsch_minimum.Powercycle.Transmit.{begin_tx_at, begin_tx}
use tsch_minimum.Powercycle.Receive.{
  is_zero, begin_rx, listen, from_time_source, record_drift, end_rx, after_rx, received, in_air,
  guard_over, acknowledge,
}
use tsch_minimum.Powercycle.Round.{
  off_slot, act, decided, open_slot, begin_slot, loop, start, powercycle,
}
use tsch_minimum.Powercycle.Live.{sends}
use tsch_minimum.Powercycle.Queues.{IsReady, SendsFirst, InTable-table}

module _ (os : Contiki) (laws : IsContiki os) (payload : ℕ → List ℕ) (r : Readings)
    (m : Fifos) where
  -- What a call gives, if it gives something: the queues are still those of `m`.
  abbrev pub Turns : Option (Cycle os) → Type 0
  Turns none = Unit
  Turns (some s) =
      IsReady os laws s.net s.last
      × (view os s.net ≡ m)
      × (sends s.point ≡ true → SendsFirst os laws s)

  -- A state of a slot that receives, or between slots.
  rests :
      (s : Cycle os)
      → IsReady os laws s.net s.last
      → view os s.net ≡ m
      → sends s.point ≡ false
      → Turns (some s)
  rests s h e off = (h, e, λ x. absurd (ground (arith, x, off)))

  end_round-Turns :
      (s : Cycle os)
      → IsReady os laws s.net s.last
      → view os s.net ≡ m
      → Turns (some (end_round os r s))
  unfolding end_round arm
  end_round-Turns s h e = rests (end_round os r s) h e refl

  drift-Turns :
      (o : Option ℕ) (s : Cycle os)
      → IsReady os laws s.net s.last
      → view os s.net ≡ m
      → Turns (some (end_round os r (from_time_source os o s)))
  drift-Turns none s h e = end_round-Turns (from_time_source os none s) h e
  drift-Turns (some i) s h e = end_round-Turns (from_time_source os (some i) s) h e

  record_drift-Turns :
      (a : Option Addr) (s : Cycle os)
      → IsReady os laws s.net s.last
      → view os s.net ≡ m
      → Turns (end_rx os r (record_drift os a s))
  unfolding end_rx record_drift
  record_drift-Turns none s h e = tt
  record_drift-Turns (some a) s h e = drift-Turns (neighbor_queue_from_addr os s.net a) s h e

  after_rx-Turns :
      (s : Cycle os) → IsReady os laws s.net s.last → view os s.net ≡ m → Turns (after_rx os r s)
  unfolding after_rx end_rx
  after_rx-Turns s h e =
      branch (λ o. Turns (end_rx os r o)) (is_zero s.last_drift) (end_round-Turns s h e)
        (record_drift-Turns s.last_rf s h e)

  received-Turns :
      (s : Cycle os) → IsReady os laws s.net s.last → view os s.net ≡ m → Turns (received os r s)
  unfolding received arm
  received-Turns s h e = branch Turns (to_bool s.need_ack) (h, e, λ x. cc) (after_rx-Turns s h e)

  guard_over-Turns :
      (s : Cycle os) → IsReady os laws s.net s.last → view os s.net ≡ m → Turns (guard_over os r s)
  unfolding guard_over mac_off
  guard_over-Turns s h e =
      let s' = mac_off os s.keep_radio_on s in
      branch Turns (in_air r) (received-Turns s' h e) (end_round-Turns s' h e)

  acknowledge-Turns :
      (s : Cycle os) → IsReady os laws s.net s.last → view os s.net ≡ m → Turns (acknowledge os r s)
  unfolding acknowledge
  acknowledge-Turns s h e = after_rx-Turns (call os RadioCall.send_ack s) h e

  off_slot-Turns :
      (s : Cycle os)
      → IsReady os laws s.net s.last
      → view os s.net ≡ m
      → Turns (some (off_slot os r s))
  unfolding off_slot mac_off
  off_slot-Turns s h e = end_round-Turns (mac_off os s.keep_radio_on s) h e

  begin_tx_at-Turns :
      (p : Option PacketRef) (s : Cycle os)
      → IsReady os laws s.net s.last
      → view os s.net ≡ m
      → (is_none p ≡ false → SendsFirst os laws s)
      → Turns (begin_tx_at os payload r p s)
  unfolding begin_tx_at wait_until arm
  begin_tx_at-Turns none s h e k = tt
  begin_tx_at-Turns (some p) s h e k =
      let (n, q, cell, a, f) = k refl in
      branch Turns ((deref os s.net p).pkt == 0) tt (
        h,
        e,
        λ x. (
          n,
          q,
          cell,
          a,
          record {
            neighbor = f.neighbor;
            packet = f.packet;
            its_cell = f.its_cell;
            first = f.first;
          },
        ),
      )

  act-Turns :
      (d : CellDecision) (s : Cycle os)
      → IsReady os laws s.net s.last
      → view os s.net ≡ m
      → (is_none s.p ≡ false → SendsFirst os laws s)
      → Turns (act os payload d r s)
  unfolding act begin_tx begin_rx wait_until arm
  act-Turns CellDecision.tx s h e k = begin_tx_at-Turns s.p s h e k
  act-Turns CellDecision.rx s h e k = (h, e, λ x. cc)
  act-Turns CellDecision.off s h e k = off_slot-Turns s h e
  act-Turns CellDecision.tx_idle s h e k = off_slot-Turns s h e
  act-Turns CellDecision.tx_backoff s h e k = off_slot-Turns s h e

  -- The packet of a decision that the slot then sends.
  chosen-SendsFirst :
      (net : Net os) (n : Option ℕ) (p : Option PacketRef) (cell : Cell) (t : Cycle os)
      → SameNet os t.net net
      → IsFirst os laws net p
      → (is_none p ≡ false → is_none n ≡ false)
      → t.n ≡ n
      → t.p ≡ p
      → t.cell ≡ some cell
      → is_none p ≡ false
      → SendsFirst os laws t
  chosen-SendsFirst net n none cell t same f k en ep ec x = absurd (ground (arith, x))
  chosen-SendsFirst net none (some p) cell t same f k en ep ec x = absurd (ground (arith, k x))
  chosen-SendsFirst net (some n) (some p) cell t same (a, e) k en ep ec x = (
    n,
    p,
    cell,
    a,
    record {
      neighbor = en;
      packet = ep;
      its_cell = ec;
      first = read_from-SameNet os t.net net a same ∙ e;
    },
  )

  decided-Turns :
      (s : Cycle os) (cell : Cell) (o : Option (Choice os))
      → s.cell ≡ some cell
      → IsChosen os laws s.net o
      → Decided os o
      → IsReady os laws s.net s.last
      → view os s.net ≡ m
      → Turns (decided os payload r s o)
  unfolding decided
  decided-Turns s cell none ec k sound h e = tt
  decided-Turns s cell (some c) ec k sound h e =
      let same : view os c.net ≡ view os s.net = view-SameNet os k.0 in
      let t = record s {
        net = c.net;
        last = c.pick.last;
        n = c.pick.n;
        p = c.pick.p;
        decision = c.decision;
      } in
      act-Turns c.decision t
        (record {
          sound = sound;
          addressed = subst (Addressed os) (sym same) h.addressed;
          cursor = InTable-table os laws s.net c.net c.pick.last k.0.same_table k.3;
        })
        (same ∙ e) (chosen-SendsFirst s.net c.pick.n c.pick.p cell t k.0 k.1 k.2 refl refl ec)

  begin_slot-Turns :
      (cell : Option Cell) (s : Cycle os)
      → s.cell ≡ cell
      → IsReady os laws s.net s.last
      → view os s.net ≡ m
      → Turns (begin_slot os payload cell r s)
  unfolding begin_slot open_slot
  begin_slot-Turns none s ec h e = off_slot-Turns (record s { decision = CellDecision.off }) h e
  begin_slot-Turns (some cell) s ec h e =
      branch Turns (to_bool s.net.working_on_queue)
        (off_slot-Turns (record s { decision = CellDecision.off }) h e)
        (decided-Turns (open_slot os cell s) cell (decide_cell os s.net s.last s.decision cell) ec
          (decide_cell-IsChosen os laws s.net s.last s.decision cell h.cursor)
          (decide_cell-Decided os s.net s.last s.decision cell h.sound) h e)

  loop-Turns :
      (s : Cycle os)
      → IsReady os laws s.net s.last
      → view os s.net ≡ m
      → Turns (loop os payload r s)
  unfolding loop
  loop-Turns s h e =
      branch Turns (to_bool s.is_sync && not (s.state == tsch_off))
        (begin_slot-Turns (get_cell s.slotframe s.clock.timeslot)
          (record (call os (RadioCall.sfd_sync 1 1) s) {
            cell = get_cell s.slotframe s.clock.timeslot;
          })
          refl h e)
        (h, e, λ x. cc)

  -- A call where nothing is being sent.
  pub idle-Turns :
      (q : Point) (s : Cycle os)
      → sends q ≡ false
      → IsReady os laws s.net s.last
      → view os s.net ≡ m
      → Turns (powercycle os payload q r s)
  unfolding powercycle start listen mac_on wait_until arm
  idle-Turns Point.start_up s off h e =
      loop-Turns (record s { clock = record s.clock { start = r.started } }) h e
  idle-Turns Point.asleep s off h e = loop-Turns s h e
  idle-Turns Point.ended s off h e =
      loop-Turns (record s { clock = record s.clock { start = r.started } }) h e
  idle-Turns Point.before_rx s off h e = (h, e, λ x. cc)
  idle-Turns Point.rx_guard s off h e = guard_over-Turns s h e
  idle-Turns Point.before_send_ack s off h e = acknowledge-Turns s h e
  idle-Turns q s off h e = absurd (ground (arith, off))
