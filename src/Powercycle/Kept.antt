-- ===== src/Powercycle/Kept.antt =====
-- A call of the protothread powercycle of tsch.c, for a predicate on the queues, the slotframe, the
-- slot number and the ASN: what the outcome of a transmission, the decision and the end of a slot
-- do to these.
use tsch_minimum.Prelude.{
  branch, ℕ, ◌≡◌, Bool, refl, true, false, ◌&&◌, ◌||◌, not, Option, none, some, List, ◌==◌,
}
use tsch_minimum.Prelude.Words.{to_bool}
use tsch_minimum.Contiki.{Contiki, Addr}
use tsch_minimum.Params.{Cell, Slotframe, CellDecision, tsch_off}
use tsch_minimum.Neighbors.{Net, PacketRef, deref, neighbor_queue_from_addr}
use tsch_minimum.Time.{Clock, get_cell, end_of_slot}
use tsch_minimum.Sync.{is_ack_of, ack_drift}
use tsch_minimum.Outcome.{RadioTx, finish_tx}
use tsch_minimum.Prelude.Int.{ℤ}
use tsch_minimum.SharedTx.{Cursor}
use tsch_minimum.Decide.{Choice, decide_cell}
use tsch_minimum.Powercycle.{
  Point, Cycle, Readings, call, mac_on, mac_off, arm, wait_until, end_round, RadioCall,
}
use tsch_minimum.Powercycle.Transmit.{
  add_drift, time_source_of, conclude_at, conclude, sent_off, ack_done, ack_bytes, with_ack,
  read_ack, ack_detected, hears, listen_for_ack, listen_again, is_ok, transmitted, was_sent,
  settled, send_now, begin_tx_at, begin_tx,
}
use tsch_minimum.Powercycle.Receive.{
  is_zero, begin_rx, listen, from_time_source, record_drift, end_rx, after_rx, received, in_air,
  guard_over, acknowledge,
}
use tsch_minimum.Powercycle.Round.{
  off_slot, act, decided, open_slot, begin_slot, loop, start, powercycle, resume, fire,
}

-- Predicates on the net, the slotframe, the slot number and the ASN.
abbrev pub Held : Contiki → Type 1
Held os = Net os → Slotframe → ℕ → ℕ → Type 0

-- What `P` says before a call, `Q` says after it.
pub record Keeps (os : Contiki) (r : Readings) (P Q : Held os) : Type 0 where
  pub rests : (s : Net os) (f : Slotframe) (t a : ℕ) → P s f t a → Q s f t a
  pub settles :
      (x : RadioTx) (n : ℕ) (p : PacketRef) (cell : Cell) (bc : Bool) (s : Net os) (f : Slotframe)
      (t a : ℕ)
      → P s f t a
      → P (finish_tx os x s n p cell bc r.random) f t a
  pub decides :
      (last : Cursor) (d : CellDecision) (cell : Cell) (c : Choice os) (s : Net os) (f : Slotframe)
      (t a : ℕ)
      → decide_cell os s last d cell ≡ some c
      → P s f t a
      → P c.net f t a
  pub ends :
      (s : Net os) (f : Slotframe) (c : Clock)
      → P s f c.timeslot c.asn
      → Q s f (end_of_slot f r.deadline c).0.timeslot (end_of_slot f r.deadline c).0.asn

module _ (os : Contiki) (payload : ℕ → List ℕ) (r : Readings) (P Q : Held os)
    (k : Keeps os r P Q) where
  abbrev Holds : Cycle os → Type 0
  Holds s = P s.net s.slotframe s.clock.timeslot s.clock.asn

  -- What the protothread gives, where it gives something.
  abbrev pub Kept : Option (Cycle os) → Type 0
  Kept none = Unit
  Kept (some s) = Q s.net s.slotframe s.clock.timeslot s.clock.asn

  rests-Kept : (s : Cycle os) → Holds s → Kept (some s)
  rests-Kept s h = k.rests s.net s.slotframe s.clock.timeslot s.clock.asn h

  end_round-Kept : (s : Cycle os) → Holds s → Kept (some (end_round os r s))
  unfolding end_round arm
  end_round-Kept s h = k.ends s.net s.slotframe s.clock h

  conclude_at-Kept :
      (x : RadioTx) (n : Option ℕ) (p : Option PacketRef) (cell : Option Cell) (s : Cycle os)
      → Holds s
      → Kept (conclude_at os x r n p cell s)
  unfolding conclude_at
  conclude_at-Kept x (some n) (some p) (some cell) s h =
      end_round-Kept (settled os x r n p cell s)
        (k.settles x n p cell s.is_broadcast s.net s.slotframe s.clock.timeslot s.clock.asn h)
  conclude_at-Kept x none p cell s h = tt
  conclude_at-Kept x (some n) none cell s h = tt
  conclude_at-Kept x (some n) (some p) none s h = tt

  conclude-Kept : (x : RadioTx) (s : Cycle os) → Holds s → Kept (conclude os x r s)
  unfolding conclude
  conclude-Kept x s h = conclude_at-Kept x s.n s.p s.cell s h

  sent_off-Kept : (x : RadioTx) (s : Cycle os) → Holds s → Kept (sent_off os x r s)
  unfolding sent_off mac_off
  sent_off-Kept x s h =
      conclude-Kept x (mac_off os s.keep_radio_on (record s { we_are_sending = false })) h

  ack_done-Kept : (x : RadioTx) (s : Cycle os) → Holds s → Kept (ack_done os x r s)
  unfolding ack_done
  ack_done-Kept x s h = sent_off-Kept x (record s { waiting_for_radio_interrupt = false }) h

  drift-Holds :
      (o : Option ℤ) (s : Cycle os) → Holds s → Holds (record s { clock = add_drift o s.clock })
  drift-Holds none s h = h
  drift-Holds (some d) s h = h

  read_ack-Kept : (s : Cycle os) → Holds s → Kept (read_ack os r s)
  unfolding read_ack
  read_ack-Kept s h =
      let (buf, len) = ack_bytes r s.len in
      branch Kept (is_ack_of buf len s.seqno)
        (ack_done-Kept RadioTx.ok (with_ack os buf len s)
          (drift-Holds (ack_drift buf len (time_source_of os s s.n)) s h))
        (ack_done-Kept RadioTx.noack (record s { len = len }) h)

  ack_detected-Kept : (s : Cycle os) → Holds s → Kept (ack_detected os r s)
  unfolding ack_detected wait_until arm
  ack_detected-Kept s h = branch Kept r.pending_later (read_ack-Kept s h) (rests-Kept s h)

  listen_for_ack-Kept : (s : Cycle os) → Holds s → Kept (listen_for_ack os r s)
  unfolding listen_for_ack mac_on wait_until arm
  listen_for_ack-Kept s h =
      branch Kept (hears r)
        (ack_detected-Kept (mac_on os (record s { waiting_for_radio_interrupt = true })) h)
        (rests-Kept s h)

  listen_again-Kept : (s : Cycle os) → Holds s → Kept (listen_again os r s)
  unfolding listen_again
  listen_again-Kept s h =
      branch Kept (r.stack_cca || hears r) (ack_detected-Kept s h) (ack_done-Kept RadioTx.noack s h)

  was_sent-Kept : (s : Cycle os) → Holds s → Kept (was_sent os r s)
  unfolding was_sent wait_until arm
  was_sent-Kept s h = branch Kept s.is_broadcast (sent_off-Kept RadioTx.ok s h) (rests-Kept s h)

  send_now-Kept : (s : Cycle os) → Holds s → Kept (send_now os r s)
  unfolding send_now mac_off
  send_now-Kept s h =
      let s' = mac_off os s.keep_radio_on (transmitted os r s) in
      branch Kept (is_ok r.sent) (was_sent-Kept s' h) (conclude-Kept r.sent s' h)

  source-Holds : (o : Option ℕ) (s : Cycle os) → Holds s → Holds (from_time_source os o s)
  source-Holds none s h = h
  source-Holds (some i) s h =
      branch (λ (c : Clock). P s.net s.slotframe c.timeslot c.asn)
        (to_bool (s.net.queue_of i).time_source) h h

  record_drift-Kept :
      (a : Option Addr) (s : Cycle os) → Holds s → Kept (end_rx os r (record_drift os a s))
  unfolding end_rx record_drift
  record_drift-Kept none s h = tt
  record_drift-Kept (some a) s h =
      let o = neighbor_queue_from_addr os s.net a in
      end_round-Kept (from_time_source os o s) (source-Holds o s h)

  after_rx-Kept : (s : Cycle os) → Holds s → Kept (after_rx os r s)
  unfolding after_rx end_rx
  after_rx-Kept s h =
      branch (λ o. Kept (end_rx os r o)) (is_zero s.last_drift) (end_round-Kept s h)
        (record_drift-Kept s.last_rf s h)

  received-Kept : (s : Cycle os) → Holds s → Kept (received os r s)
  unfolding received arm
  received-Kept s h = branch Kept (to_bool s.need_ack) (rests-Kept s h) (after_rx-Kept s h)

  guard_over-Kept : (s : Cycle os) → Holds s → Kept (guard_over os r s)
  unfolding guard_over mac_off
  guard_over-Kept s h =
      branch Kept (in_air r) (received-Kept (mac_off os s.keep_radio_on s) h)
        (end_round-Kept (mac_off os s.keep_radio_on s) h)

  acknowledge-Kept : (s : Cycle os) → Holds s → Kept (acknowledge os r s)
  unfolding acknowledge
  acknowledge-Kept s h = after_rx-Kept (call os RadioCall.send_ack s) h

  begin_tx_at-Kept :
      (p : Option PacketRef) (s : Cycle os) → Holds s → Kept (begin_tx_at os payload r p s)
  unfolding begin_tx_at wait_until arm
  begin_tx_at-Kept none s h = tt
  begin_tx_at-Kept (some p) s h = branch Kept ((deref os s.net p).pkt == 0) tt (rests-Kept s h)

  off_slot-Kept : (s : Cycle os) → Holds s → Kept (some (off_slot os r s))
  unfolding off_slot mac_off
  off_slot-Kept s h = end_round-Kept (mac_off os s.keep_radio_on s) h

  act-Kept : (d : CellDecision) (s : Cycle os) → Holds s → Kept (act os payload d r s)
  unfolding act begin_tx begin_rx off_slot wait_until arm
  act-Kept CellDecision.tx s h = begin_tx_at-Kept s.p s h
  act-Kept CellDecision.rx s h = rests-Kept s h
  act-Kept CellDecision.off s h = off_slot-Kept s h
  act-Kept CellDecision.tx_idle s h = off_slot-Kept s h
  act-Kept CellDecision.tx_backoff s h = off_slot-Kept s h

  decided-Kept :
      (s : Cycle os) (o : Option (Choice os))
      → ((c : Choice os) → o ≡ some c → P c.net s.slotframe s.clock.timeslot s.clock.asn)
      → Kept (decided os payload r s o)
  unfolding decided
  decided-Kept s none h = tt
  decided-Kept s (some c) h =
      act-Kept c.decision
        (record s {
          net = c.net;
          last = c.pick.last;
          n = c.pick.n;
          p = c.pick.p;
          decision = c.decision;
        })
        (h c refl)

  begin_slot-Kept :
      (cell : Option Cell) (s : Cycle os) → Holds s → Kept (begin_slot os payload cell r s)
  unfolding begin_slot open_slot
  begin_slot-Kept none s h = off_slot-Kept (record s { decision = CellDecision.off }) h
  begin_slot-Kept (some cell) s h =
      branch Kept (to_bool s.net.working_on_queue)
        (off_slot-Kept (record s { decision = CellDecision.off }) h)
        (decided-Kept (open_slot os cell s) (decide_cell os s.net s.last s.decision cell) (λ c e.
          k.decides s.last s.decision cell c s.net s.slotframe s.clock.timeslot s.clock.asn e h))

  loop-Kept : (s : Cycle os) → Holds s → Kept (loop os payload r s)
  unfolding loop
  loop-Kept s h =
      branch Kept (to_bool s.is_sync && not (s.state == tsch_off))
        (begin_slot-Kept (get_cell s.slotframe s.clock.timeslot)
          (record (call os (RadioCall.sfd_sync 1 1) s) {
            cell = get_cell s.slotframe s.clock.timeslot;
          })
          h)
        (rests-Kept s h)

  powercycle-Kept : (q : Point) (s : Cycle os) → Holds s → Kept (powercycle os payload q r s)
  unfolding powercycle start listen mac_on wait_until arm
  powercycle-Kept Point.start_up s h =
      loop-Kept (record s { clock = record s.clock { start = r.started } }) h
  powercycle-Kept Point.before_tx s h = send_now-Kept s h
  powercycle-Kept Point.before_ack s h = listen_for_ack-Kept s h
  powercycle-Kept Point.ack_guard s h = listen_again-Kept s h
  powercycle-Kept Point.ack_watchdog s h = read_ack-Kept s h
  powercycle-Kept Point.before_rx s h = rests-Kept s h
  powercycle-Kept Point.rx_guard s h = guard_over-Kept s h
  powercycle-Kept Point.before_send_ack s h = acknowledge-Kept s h
  powercycle-Kept Point.asleep s h = loop-Kept s h
  powercycle-Kept Point.ended s h =
      loop-Kept (record s { clock = record s.clock { start = r.started } }) h

  pub fire-Kept : (t : Option ℕ) (s : Cycle os) → Holds s → Kept (fire os payload r t s)
  unfolding fire resume
  fire-Kept none s h = rests-Kept s h
  fire-Kept (some t) s h = powercycle-Kept s.point (record s { timer = none }) h
