-- ===== src/Powercycle/Live.antt =====
-- What powercycle of tsch.c needs so that it reads nothing through NULL in a slot: in a slot that
-- sends, the packet; in one that receives, the frame whose drift it records.
mod Slots
pub mod Rounds
pub mod Untraced
use tsch_minimum.Prelude.{branch, ℕ, ◌≡◌, Bool, true, false, ◌&&◌, ◌||◌, Option, none, some, arith}
use tsch_minimum.Contiki.{Contiki}
use tsch_minimum.Params.{Cell}
use tsch_minimum.Neighbors.{PacketRef}
use tsch_minimum.Sync.{is_ack_of}
use tsch_minimum.Outcome.{RadioTx}
use tsch_minimum.Powercycle.{
  Point, RadioCall, Cycle, Readings, call, mac_on, mac_off, arm, wait_until, end_round,
}
use tsch_minimum.Powercycle.Transmit.{
  ack_wait, ack_guard_wait, ack_watchdog_wait, settled, conclude_at, conclude, sent_off, ack_done,
  ack_bytes, with_ack, read_ack, ack_detected, hears, listen_for_ack, listen_again, is_ok,
  transmitted, was_sent, send_now,
}
use tsch_minimum.Powercycle.Receive.{is_zero}
use tsch_minimum.Powercycle.Graph.{is_some, in_slot}

-- The yields of a slot that sends.
abbrev pub sends : Point → Bool
sends Point.before_tx = true
sends Point.before_ack = true
sends Point.ack_guard = true
sends Point.ack_watchdog = true
sends p = false

module _ (os : Contiki) where
  -- The pointers to the packet, its neighbor and its cell are not NULL.
  abbrev pub has_packet : Cycle os → Bool
  has_packet s = is_some s.n && is_some s.p && is_some s.cell

  -- Where there is a drift, there is the frame that it came with.
  abbrev pub is_traced : Cycle os → Bool
  is_traced s = is_zero s.last_drift || is_some s.last_rf

  pub record IsLive (s : Cycle os) : Type 0 where
    pub packet : sends s.point ≡ true → has_packet s ≡ true
    pub traced : in_slot s.point ≡ true → is_traced s ≡ true

  -- A part of the round that reads nothing through NULL.
  abbrev pub Goes : Option (Cycle os) → Type 0
  Goes none = ⊥
  Goes (some s) = IsLive s

  pub end_round-IsLive : (r : Readings) (s : Cycle os) → IsLive (end_round os r s)
  unfolding end_round arm
  end_round-IsLive r s = record { packet = λ x. cc; traced = λ x. cc }

  pub wait-IsLive :
      (r : Readings) (d : ℕ) (p : Point) (s : Cycle os)
      → has_packet s ≡ true
      → is_traced s ≡ true
      → IsLive (wait_until os r d p s)
  unfolding wait_until arm
  wait-IsLive r d p s h t = record { packet = λ x. h; traced = λ x. t }

  conclude_at-Goes :
      (success : RadioTx) (r : Readings) (n : Option ℕ) (p : Option PacketRef) (cell : Option Cell)
      (s : Cycle os)
      → is_some n && is_some p && is_some cell ≡ true
      → Goes (conclude_at os success r n p cell s)
  unfolding conclude_at
  conclude_at-Goes success r (some n) (some p) (some cell) s h =
      end_round-IsLive r (settled os success r n p cell s)
  conclude_at-Goes success r none p cell s h = absurd (ground (arith, h))
  conclude_at-Goes success r (some n) none cell s h = absurd (ground (arith, h))
  conclude_at-Goes success r (some n) (some p) none s h = absurd (ground (arith, h))

  conclude-Goes :
      (success : RadioTx) (r : Readings) (s : Cycle os)
      → has_packet s ≡ true
      → Goes (conclude os success r s)
  unfolding conclude
  conclude-Goes success r s h = conclude_at-Goes success r s.n s.p s.cell s h

  sent_off-Goes :
      (success : RadioTx) (r : Readings) (s : Cycle os)
      → has_packet s ≡ true
      → Goes (sent_off os success r s)
  unfolding sent_off mac_off
  sent_off-Goes success r s h =
      conclude-Goes success r (mac_off os s.keep_radio_on (record s { we_are_sending = false })) h

  ack_done-Goes :
      (success : RadioTx) (r : Readings) (s : Cycle os)
      → has_packet s ≡ true
      → Goes (ack_done os success r s)
  unfolding ack_done
  ack_done-Goes success r s h =
      sent_off-Goes success r (record s { waiting_for_radio_interrupt = false }) h

  pub read_ack-Goes : (r : Readings) (s : Cycle os) → has_packet s ≡ true → Goes (read_ack os r s)
  unfolding read_ack
  read_ack-Goes r s h =
      let (buf, len) = ack_bytes r s.len in
      branch Goes (is_ack_of buf len s.seqno) (ack_done-Goes RadioTx.ok r (with_ack os buf len s) h)
        (ack_done-Goes RadioTx.noack r (record s { len = len }) h)

  ack_detected-Goes :
      (r : Readings) (s : Cycle os)
      → has_packet s ≡ true
      → is_traced s ≡ true
      → Goes (ack_detected os r s)
  unfolding ack_detected
  ack_detected-Goes r s h t =
      branch Goes r.pending_later (read_ack-Goes r s h)
        (wait-IsLive r (ack_watchdog_wait s.tx_time) Point.ack_watchdog s h t)

  pub listen_for_ack-Goes :
      (r : Readings) (s : Cycle os)
      → has_packet s ≡ true
      → is_traced s ≡ true
      → Goes (listen_for_ack os r s)
  unfolding listen_for_ack mac_on
  listen_for_ack-Goes r s h t =
      let s' = mac_on os (record s { waiting_for_radio_interrupt = true }) in
      branch Goes (hears r) (ack_detected-Goes r s' h t)
        (wait-IsLive r (ack_guard_wait s.tx_time) Point.ack_guard s' h t)

  pub listen_again-Goes :
      (r : Readings) (s : Cycle os)
      → has_packet s ≡ true
      → is_traced s ≡ true
      → Goes (listen_again os r s)
  unfolding listen_again
  listen_again-Goes r s h t =
      branch Goes (r.stack_cca || hears r) (ack_detected-Goes r s h t)
        (ack_done-Goes RadioTx.noack r s h)

  was_sent-Goes :
      (r : Readings) (s : Cycle os)
      → has_packet s ≡ true
      → is_traced s ≡ true
      → Goes (was_sent os r s)
  unfolding was_sent wait_until arm
  was_sent-Goes r s h t =
      branch Goes s.is_broadcast (sent_off-Goes RadioTx.ok r s h) (
        wait-IsLive r (ack_wait s.tx_time) Point.before_ack (call os (RadioCall.sfd_sync 0 0) s) h
          t)

  pub send_now-Goes :
      (r : Readings) (s : Cycle os)
      → has_packet s ≡ true
      → is_traced s ≡ true
      → Goes (send_now os r s)
  unfolding send_now mac_off
  send_now-Goes r s h t =
      let s' = mac_off os s.keep_radio_on (transmitted os r s) in
      branch Goes (is_ok r.sent) (was_sent-Goes r s' h t) (conclude-Goes r.sent r s' h)
