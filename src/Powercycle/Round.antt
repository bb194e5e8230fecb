-- ===== src/Powercycle/Round.antt =====
-- A round of powercycle of tsch.c: what the protothread does from where it goes on to its next
-- yield, and what the interrupt and the processes do while it waits.
use tsch_minimum.Prelude.{
  ℕ, false, ◌&&◌, ◌||◌, not, Option, none, some, List, [], ◌∷◌, if◌then◌else◌, ◌==◌,
}
use tsch_minimum.Prelude.Int.{pos}
use tsch_minimum.Prelude.Words.{to_bool}
use tsch_minimum.Contiki.{Contiki, Addr}
use tsch_minimum.Params.{Cell, CellDecision, tsch_off}
use tsch_minimum.Neighbors.{add_packet_to_queue}
use tsch_minimum.Time.{get_cell, hop_channel}
use tsch_minimum.Decide.{Choice, decide_cell}
use tsch_minimum.Sync.{make_sync_ack}
use tsch_minimum.Powercycle.{Point, RadioCall, Cycle, Readings, call, mac_off, arm, end_round}
use tsch_minimum.Powercycle.Transmit.{begin_tx, send_now, listen_for_ack, listen_again, read_ack}
use tsch_minimum.Powercycle.Receive.{begin_rx, listen, guard_over, acknowledge}

-- What happens to the variables: the timer fires; the radio interrupt ends, which may have asked
-- for an acknowledgment with a sequence number, a timestamp and a NACK flag; or a process calls
-- add_packet_to_queue. Processes that add or remove a neighbor (add_queue, remove_queue) are not
-- among these events.
pub data Event : Type 0 where
  fires : Readings → Event
  interrupts : Option (ℕ × ℕ × ℕ) → ℕ → Option Addr → Readings → Event
  adds : ℕ → ℕ → ℕ → Addr → Event

module _ (os : Contiki) where
  unfoldable pub off_slot : Readings → Cycle os → Cycle os
  unfolding mac_off end_round
  off_slot r s = end_round os r (mac_off os s.keep_radio_on s)

  -- The variables that a slot which is on starts with, on the channel of its cell.
  unfoldable pub open_slot : Cell → Cycle os → Cycle os
  open_slot cell s =
      call os (RadioCall.set_channel (hop_channel cell.channel_offset s.clock.asn)) (record s {
        n = none;
        p = none;
        last_drift = pos 0;
        last_rf = none;
        need_ack = 0;
        waiting_for_radio_interrupt = false;
      })

  -- The end of a radio interrupt: the driver's callback `tsch_resume_powercycle`, with the source
  -- address of the frame that `last_rf_irq` points to.
  unfoldable pub tsch_resume_powercycle : ℕ → Option Addr → Readings → Cycle os → Cycle os
  unfolding arm
  tsch_resume_powercycle need_ack_irq last_rf_irq r s =
      let s' = record s { need_ack = need_ack_irq; last_rf = last_rf_irq } in
      if s.waiting_for_radio_interrupt || to_bool r.rx_end_time
      then arm os r r.deadline 5 (record s' { waiting_for_radio_interrupt = false })
      else s'

  -- What the interrupt leaves in `last_drift` when it asks `tsch_make_sync_ack` for an
  -- acknowledgment.
  unfoldable pub ask_ack : Option (ℕ × ℕ × ℕ) → Cycle os → Cycle os
  ask_ack none s = s
  ask_ack (some (seqno, timestamp, nack)) s = record s {
    last_drift = (make_sync_ack s.clock.start seqno timestamp nack).1;
  }

-- `payload` gives a queuebuf's bytes (`queuebuf_dataptr`, `queuebuf_datalen`).
module _ (os : Contiki) (payload : ℕ → List ℕ) where
  -- What the slot does after the decision.
  unfoldable pub act : CellDecision → Readings → Cycle os → Option (Cycle os)
  unfolding off_slot begin_tx begin_rx
  act CellDecision.tx r s = begin_tx os payload r s
  act CellDecision.rx r s = some (begin_rx os r s)
  act CellDecision.off r s = some (off_slot os r s)
  act CellDecision.tx_idle r s = some (off_slot os r s)
  act CellDecision.tx_backoff r s = some (off_slot os r s)

  -- The variables after the decision; `none` is an access through NULL, or a scan of the queues that
  -- does not end.
  unfoldable pub decided : Readings → Cycle os → Option (Choice os) → Option (Cycle os)
  unfolding act
  decided r s none = none
  decided r s (some c) = act c.decision r (record s {
    net = c.net;
    last = c.pick.last;
    n = c.pick.n;
    p = c.pick.p;
    decision = c.decision;
  })

  unfoldable pub begin_slot : Option Cell → Readings → Cycle os → Option (Cycle os)
  unfolding decided open_slot off_slot
  begin_slot none r s = some (off_slot os r (record s { decision = CellDecision.off }))
  begin_slot (some cell) r s =
      let on = decided r (open_slot os cell s) (decide_cell os s.net s.last s.decision cell) in
      if to_bool s.net.working_on_queue
      then some (off_slot os r (record s { decision = CellDecision.off }))
      else on

  -- The head of the loop, and the start of a round.
  unfoldable pub loop : Readings → Cycle os → Option (Cycle os)
  unfolding begin_slot
  loop r s =
      let cell = get_cell s.slotframe s.clock.timeslot in
      let round = begin_slot cell r (record (call os (RadioCall.sfd_sync 1 1) s) { cell = cell }) in
      if to_bool s.is_sync && not (s.state == tsch_off)
      then round
      else some (record s { point = Point.ended })

  unfoldable pub start : Readings → Cycle os → Option (Cycle os)
  unfolding loop
  start r s = loop r (record s { clock = record s.clock { start = r.started } })

  -- One call of the protothread by the timer.
  unfoldable pub powercycle : Point → Readings → Cycle os → Option (Cycle os)
  unfolding start loop send_now listen_for_ack listen_again read_ack listen guard_over acknowledge
  powercycle Point.start_up r s = start r s
  powercycle Point.before_tx r s = send_now os r s
  powercycle Point.before_ack r s = listen_for_ack os r s
  powercycle Point.ack_guard r s = listen_again os r s
  powercycle Point.ack_watchdog r s = read_ack os r s
  powercycle Point.before_rx r s = some (listen os r s)
  powercycle Point.rx_guard r s = guard_over os r s
  powercycle Point.before_send_ack r s = acknowledge os r s
  powercycle Point.asleep r s = loop r s
  powercycle Point.ended r s = start r s

  unfoldable pub resume : Readings → Cycle os → Option (Cycle os)
  unfolding powercycle
  resume r s = powercycle s.point r (record s { timer = none })

  -- A timer that is not set does not fire.
  unfoldable pub fire : Readings → Option ℕ → Cycle os → Option (Cycle os)
  unfolding resume
  fire r none s = some s
  fire r (some time) s = resume r s

  unfoldable pub step : Event → Cycle os → Option (Cycle os)
  unfolding fire ask_ack tsch_resume_powercycle
  step (fires r) s = fire r s.timer s
  step (interrupts ack need_ack_irq last_rf_irq r) s =
      some (tsch_resume_powercycle os need_ack_irq last_rf_irq r (ask_ack os ack s))
  step (adds pkt sent ptr addr) s =
      some (record s { net = (add_packet_to_queue os s.net pkt sent ptr addr).0 })

  unfoldable pub run : List Event → Cycle os → Option (Cycle os)
  unfolding step
  run [] s = some s
  run (e ∷ es) s = elim (step e s) [ none ↦ none | some s' ↦ run es s' ]
