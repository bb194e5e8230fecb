-- ===== src/Powercycle/Transmit.antt =====
-- A slot in which powercycle of tsch.c sends: the packet, and the wait for its acknowledgment.
use tsch_minimum.Prelude.{
  ℕ, ◌+◌, ◌-◌, Bool, true, false, ◌||◌, not, Option, none, some, List, ◌∷◌, min, if◌then◌else◌,
  ◌==◌, get_or,
}
use tsch_minimum.Prelude.Int.{ℤ, ◌+ℤ◌, int32}
use tsch_minimum.Prelude.Words.{u8, u16, sub16}
use tsch_minimum.Contiki.{Contiki}
use tsch_minimum.Params.{
  Cell, ts_tx_offset, ts_tx_ack_delay, ts_short_gt, delay_tx, delay_rx, wd_data_duration,
  wd_ack_duration,
}
use tsch_minimum.Neighbors.{PacketRef, deref}
use tsch_minimum.Time.{Clock}
use tsch_minimum.Sync.{is_ack_of, ack_drift}
use tsch_minimum.Outcome.{RadioTx, finish_tx}
use tsch_minimum.Powercycle.{
  Point, RadioCall, Cycle, Readings, call, mac_on, mac_off, wait_until, end_round,
}

-- The durations from the start of the slot that the timer is set for: to send, to listen for the
-- acknowledgment, to the end of its guard time, and of its reception.
abbrev pub tx_wait : ℕ
tx_wait = ts_tx_offset - delay_tx

abbrev pub ack_wait : ℕ → ℕ
ack_wait tx_time = ts_tx_offset + tx_time + ts_tx_ack_delay - ts_short_gt - delay_rx

abbrev pub ack_guard_wait : ℕ → ℕ
ack_guard_wait tx_time = ts_tx_offset + tx_time + ts_tx_ack_delay + ts_short_gt

abbrev pub ack_watchdog_wait : ℕ → ℕ
ack_watchdog_wait tx_time = ack_guard_wait tx_time + wd_ack_duration

-- An average of the drifts is taken at the end of the slotframe: their sum, and how many they are.
abbrev pub add_drift : Option ℤ → Clock → Clock
add_drift none c = c
add_drift (some d) c = record c {
  drift = int32 (c.drift +ℤ d);
  drift_counter = u16 (c.drift_counter + 1);
}

-- The bytes of the acknowledgment: a frame that the interrupt received, or what is in the radio's
-- FIFO, or nothing at all, which leaves `ackbuf` and `len` as they are.
abbrev pub ack_bytes : Readings → ℕ → List ℕ × ℕ
ack_bytes r len =
    if r.pending_at_read
    then (r.frame.0, u8 r.frame.1)
    else if r.pending_irq
    then (r.fifo.0, u8 r.fifo.1)
    else (r.stack_ackbuf, len)

-- The radio hears something, or has received it.
abbrev pub hears : Readings → Bool
hears r = r.receiving || r.pending || not r.clear

abbrev pub is_ok : RadioTx → Bool
is_ok RadioTx.ok = true
is_ok _ = false

module _ (os : Contiki) where
  open os use {rimeaddr_cmp, rimeaddr_null, queuebuf_addr}

  -- The outcome of the transmission of `p`, a packet of the neighbor `n`.
  abbrev pub settled : RadioTx → Readings → ℕ → PacketRef → Cell → Cycle os → Cycle os
  settled success r n p cell s = record s {
    net = finish_tx os success s.net n p cell s.is_broadcast r.random;
    posted = p ∷ s.posted;
  }

  -- The outcome of the transmission, with the packet posted to tsch_tx_callback_process, and the end
  -- of the round; `none` is an access through NULL.
  unfoldable pub conclude_at :
      RadioTx → Readings → Option ℕ → Option PacketRef → Option Cell → Cycle os → Option (Cycle os)
  unfolding end_round
  conclude_at success r (some n) (some p) (some cell) s =
      some (end_round os r (settled success r n p cell s))
  conclude_at success r n p cell s = none

  unfoldable pub conclude : RadioTx → Readings → Cycle os → Option (Cycle os)
  unfolding conclude_at
  conclude success r s = conclude_at success r s.n s.p s.cell s

  -- The end of a transmission that the radio made.
  unfoldable pub sent_off : RadioTx → Readings → Cycle os → Option (Cycle os)
  unfolding conclude mac_off
  sent_off success r s =
      conclude success r (mac_off os s.keep_radio_on (record s { we_are_sending = false }))

  -- The same where the sender waited for an acknowledgment.
  unfoldable pub ack_done : RadioTx → Readings → Cycle os → Option (Cycle os)
  unfolding sent_off
  ack_done success r s = sent_off success r (record s { waiting_for_radio_interrupt = false })

  abbrev pub time_source_of : Cycle os → Option ℕ → ℕ
  time_source_of s none = 0
  time_source_of s (some i) = (s.net.queue_of i).time_source

  -- The acknowledgment is the one of the packet; a correction in it is noted.
  abbrev pub with_ack : List ℕ → ℕ → Cycle os → Cycle os
  with_ack buf len s = record s {
    len = len;
    clock = add_drift (ack_drift buf len (time_source_of s s.n)) s.clock;
  }

  unfoldable pub read_ack : Readings → Cycle os → Option (Cycle os)
  unfolding ack_done
  read_ack r s =
      let (buf, len) = ack_bytes r s.len in
      if is_ack_of buf len s.seqno
      then ack_done RadioTx.ok r (with_ack buf len s)
      else ack_done RadioTx.noack r (record s { len = len })

  -- Something was heard: if it is still being received, the sender waits for its end.
  unfoldable pub ack_detected : Readings → Cycle os → Option (Cycle os)
  unfolding read_ack wait_until
  ack_detected r s =
      if r.pending_later
      then read_ack r s
      else some (wait_until os r (ack_watchdog_wait s.tx_time) Point.ack_watchdog s)

  unfoldable pub listen_for_ack : Readings → Cycle os → Option (Cycle os)
  unfolding ack_detected wait_until mac_on
  listen_for_ack r s =
      let s' = mac_on os (record s { waiting_for_radio_interrupt = true }) in
      if hears r
      then ack_detected r s'
      else some (wait_until os r (ack_guard_wait s.tx_time) Point.ack_guard s')

  -- `cca_status` is read after a yield that it does not survive.
  unfoldable pub listen_again : Readings → Cycle os → Option (Cycle os)
  unfolding ack_detected ack_done
  listen_again r s = if r.stack_cca || hears r then ack_detected r s else ack_done RadioTx.noack r s

  -- The radio answered that the packet was sent.
  abbrev pub transmitted : Readings → Cycle os → Cycle os
  transmitted r s =
      call os RadioCall.transmit
        (record s { tx_time = min (sub16 r.sfd_time r.tx_start) wd_data_duration })

  unfoldable pub was_sent : Readings → Cycle os → Option (Cycle os)
  unfolding sent_off wait_until
  was_sent r s =
      if s.is_broadcast
      then sent_off RadioTx.ok r s
      else some (
          call os (RadioCall.sfd_sync 0 0)
            (wait_until os r (ack_wait s.tx_time) Point.before_ack s))

  -- Where the radio did not send it, `we_are_sending` stays set.
  unfoldable pub send_now : Readings → Cycle os → Option (Cycle os)
  unfolding was_sent conclude mac_off
  send_now r s =
      let s' = mac_off os s.keep_radio_on (transmitted r s) in
      if is_ok r.sent then was_sent r s' else conclude r.sent r s'

  -- The variables and the calls of the radio before a packet is sent, whose queuebuf `pkt` holds
  -- `bytes` (`queuebuf_dataptr`, `queuebuf_datalen`).
  abbrev pub prepared : ℕ → List ℕ → Cycle os → Cycle os
  prepared pkt bytes s = call os (RadioCall.sfd_sync 0 1) (
      call os (RadioCall.prepare bytes) (record s {
        is_broadcast = rimeaddr_cmp (queuebuf_addr pkt) rimeaddr_null;
        we_are_sending = true;
        seqno = get_or bytes 2 0;
      }))

  -- A queuebuf that is NULL is read all the same.
  unfoldable pub begin_tx_at :
      (ℕ → List ℕ) → Readings → Option PacketRef → Cycle os → Option (Cycle os)
  unfolding wait_until
  begin_tx_at payload r none s = none
  begin_tx_at payload r (some p) s =
      let pkt = (deref os s.net p).pkt in
      let sending = some (wait_until os r tx_wait Point.before_tx (prepared pkt (payload pkt) s)) in
      if pkt == 0 then none else sending

  unfoldable pub begin_tx : (ℕ → List ℕ) → Readings → Cycle os → Option (Cycle os)
  unfolding begin_tx_at
  begin_tx payload r s = begin_tx_at payload r s.p s
