-- ===== src/Powercycle/Graph/Transmits.antt =====
-- The yields of a slot in which powercycle of tsch.c sends.
use tsch_minimum.Prelude.{
  branch, List, ℕ, ◌≤◌, ◌≡◌, refl, Bool, true, false, ◌||◌, ◌==◌, Option, none, some, arith,
}
use tsch_minimum.Contiki.{Contiki}
use tsch_minimum.Params.{Cell, wd_data_duration}
use tsch_minimum.Neighbors.{PacketRef, deref}
use tsch_minimum.Sync.{is_ack_of}
use tsch_minimum.Outcome.{RadioTx}
use tsch_minimum.Powercycle.{
  Point, RadioCall, Cycle, Readings, call, mac_on, mac_off, arm, wait_until,
}
use tsch_minimum.Powercycle.Transmit.{
  tx_wait, ack_wait, ack_guard_wait, ack_watchdog_wait, settled, transmitted, with_ack, conclude_at,
  conclude, sent_off, ack_done, ack_bytes, read_ack, ack_detected, hears, listen_for_ack,
  listen_again, is_ok, was_sent, send_now, begin_tx_at, begin_tx, prepared,
}
use tsch_minimum.Powercycle.Graph.{leads, Gives, IsQuiet, end_round-Yields, wait-Yields, last_asked}

module _ (os : Contiki) where
  pub off-last_asked : (keep : Bool) (s : Cycle os) → last_asked (mac_off os keep s).calls ≡ keep
  unfolding mac_off
  off-last_asked true s = refl
  off-last_asked false s = refl

  pub off-IsQuiet :
      (s : Cycle os)
      → s.waiting_for_radio_interrupt ≡ false
      → s.tx_time ≤ wd_data_duration
      → IsQuiet os (mac_off os s.keep_radio_on s)
  unfolding mac_off
  off-IsQuiet s w short = record {
    off_or_kept = off-last_asked s.keep_radio_on s;
    not_waiting = w;
    short = short;
  }

module _ (os : Contiki) (q : Point) (r : Readings) where
  conclude_at-Gives :
      (success : RadioTx) (n : Option ℕ) (p : Option PacketRef) (cell : Option Cell) (s : Cycle os)
      → leads q Point.asleep ≡ true
      → IsQuiet os s
      → Gives os q r (conclude_at os success r n p cell s)
  unfolding conclude_at
  conclude_at-Gives success (some n) (some p) (some cell) s f h =
      end_round-Yields os q r (settled os success r n p cell s) f
        (record { off_or_kept = h.off_or_kept; not_waiting = h.not_waiting; short = h.short })
  conclude_at-Gives success none p cell s f h = tt
  conclude_at-Gives success (some n) none cell s f h = tt
  conclude_at-Gives success (some n) (some p) none s f h = tt

  conclude-Gives :
      (success : RadioTx) (s : Cycle os)
      → leads q Point.asleep ≡ true
      → IsQuiet os s
      → Gives os q r (conclude os success r s)
  unfolding conclude
  conclude-Gives success s f h = conclude_at-Gives success s.n s.p s.cell s f h

  sent_off-Gives :
      (success : RadioTx) (s : Cycle os)
      → leads q Point.asleep ≡ true
      → s.waiting_for_radio_interrupt ≡ false
      → s.tx_time ≤ wd_data_duration
      → Gives os q r (sent_off os success r s)
  unfolding sent_off mac_off
  sent_off-Gives success s f w short =
      conclude-Gives success (mac_off os s.keep_radio_on (record s { we_are_sending = false })) f
        (record {
          off_or_kept = off-last_asked os s.keep_radio_on s;
          not_waiting = w;
          short = short;
        })

  ack_done-Gives :
      (success : RadioTx) (s : Cycle os)
      → leads q Point.asleep ≡ true
      → s.tx_time ≤ wd_data_duration
      → Gives os q r (ack_done os success r s)
  unfolding ack_done
  ack_done-Gives success s f short =
      sent_off-Gives success (record s { waiting_for_radio_interrupt = false }) f refl short

  pub read_ack-Gives :
      (s : Cycle os)
      → leads q Point.asleep ≡ true
      → s.tx_time ≤ wd_data_duration
      → Gives os q r (read_ack os r s)
  unfolding read_ack
  read_ack-Gives s f short =
      let (buf, len) = ack_bytes r s.len in
      branch (Gives os q r) (is_ack_of buf len s.seqno)
        (ack_done-Gives RadioTx.ok (with_ack os buf len s) f short)
        (ack_done-Gives RadioTx.noack (record s { len = len }) f short)

  pub ack_detected-Gives :
      (s : Cycle os)
      → leads q Point.asleep ≡ true
      → leads q Point.ack_watchdog ≡ true
      → last_asked s.calls ≡ true
      → s.tx_time ≤ wd_data_duration
      → Gives os q r (ack_detected os r s)
  unfolding ack_detected
  ack_detected-Gives s f g on short =
      branch (Gives os q r) r.pending_later (read_ack-Gives s f short) (
        wait-Yields os q r (ack_watchdog_wait s.tx_time) Point.ack_watchdog s g refl on (λ x. refl)
          short)

module _ (os : Contiki) (r : Readings) where
  pub listen_for_ack-Gives :
      (s : Cycle os)
      → s.tx_time ≤ wd_data_duration
      → Gives os Point.before_ack r (listen_for_ack os r s)
  unfolding listen_for_ack mac_on
  listen_for_ack-Gives s short =
      let s' = mac_on os (record s { waiting_for_radio_interrupt = true }) in
      branch (Gives os Point.before_ack r) (hears r)
        (ack_detected-Gives os Point.before_ack r s' refl refl refl short)
        (wait-Yields os Point.before_ack r (ack_guard_wait s.tx_time) Point.ack_guard s' refl refl
          refl (λ x. refl) short)

  pub listen_again-Gives :
      (s : Cycle os)
      → last_asked s.calls ≡ true
      → s.tx_time ≤ wd_data_duration
      → Gives os Point.ack_guard r (listen_again os r s)
  unfolding listen_again
  listen_again-Gives s on short =
      branch (Gives os Point.ack_guard r) (r.stack_cca || hears r)
        (ack_detected-Gives os Point.ack_guard r s refl refl on short)
        (ack_done-Gives os Point.ack_guard r RadioTx.noack s refl short)

  was_sent-Gives : (s : Cycle os) → IsQuiet os s → Gives os Point.before_tx r (was_sent os r s)
  unfolding was_sent wait_until arm
  was_sent-Gives s h =
      branch (Gives os Point.before_tx r) s.is_broadcast
        (sent_off-Gives os Point.before_tx r RadioTx.ok s refl h.not_waiting h.short)
        (wait-Yields os Point.before_tx r (ack_wait s.tx_time) Point.before_ack
          (call os (RadioCall.sfd_sync 0 0) s) refl refl h.off_or_kept
          (λ x. ground (arith, h.not_waiting)) h.short)

  pub send_now-Gives :
      (s : Cycle os)
      → s.waiting_for_radio_interrupt ≡ false
      → Gives os Point.before_tx r (send_now os r s)
  unfolding send_now mac_off
  send_now-Gives s w =
      let s' = mac_off os s.keep_radio_on (transmitted os r s) in
      let quiet : IsQuiet os s' = record {
        off_or_kept = off-last_asked os s.keep_radio_on (transmitted os r s);
        not_waiting = w;
        short = omega arith;
      } in
      branch (Gives os Point.before_tx r) (is_ok r.sent) (was_sent-Gives s' quiet)
        (conclude-Gives os Point.before_tx r r.sent s' refl quiet)

  begin_tx_at-Gives :
      (payload : ℕ → List ℕ) (q : Point) (p : Option PacketRef) (s : Cycle os)
      → leads q Point.before_tx ≡ true
      → IsQuiet os s
      → Gives os q r (begin_tx_at os payload r p s)
  unfolding begin_tx_at
  begin_tx_at-Gives payload q none s f h = tt
  begin_tx_at-Gives payload q (some p) s f h =
      let pkt = (deref os s.net p).pkt in
      branch (Gives os q r) (pkt == 0) tt (
        wait-Yields os q r tx_wait Point.before_tx (prepared os pkt (payload pkt) s) f refl
          h.off_or_kept (λ x. ground (arith, h.not_waiting)) h.short)

  pub begin_tx-Gives :
      (payload : ℕ → List ℕ) (q : Point) (s : Cycle os)
      → leads q Point.before_tx ≡ true
      → IsQuiet os s
      → Gives os q r (begin_tx os payload r s)
  unfolding begin_tx
  begin_tx-Gives payload q s f h = begin_tx_at-Gives payload q s.p s f h
