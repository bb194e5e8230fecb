-- ===== src/Powercycle/Graph/Receives.antt =====
-- The yields of a slot in which powercycle of tsch.c receives.
use tsch_minimum.Prelude.{branch, ℕ, ◌≤◌, ◌≡◌, refl, true, false, Option, none, some, arith}
use tsch_minimum.Prelude.Words.{to_bool}
use tsch_minimum.Contiki.{Contiki, Addr}
use tsch_minimum.Params.{wd_data_duration}
use tsch_minimum.Neighbors.{neighbor_queue_from_addr}
use tsch_minimum.Powercycle.{Point, RadioCall, Cycle, Readings, call, mac_on, mac_off, arm}
use tsch_minimum.Powercycle.Receive.{
  rx_wait, rx_guard_wait, is_zero, begin_rx, listen, from_time_source, record_drift, end_rx,
  after_rx, received, in_air, guard_over, acknowledge,
}
use tsch_minimum.Powercycle.Graph.{leads, Yields, Gives, IsQuiet, end_round-Yields, wait-Yields}
use tsch_minimum.Powercycle.Graph.Transmits.{off-IsQuiet}

module _ (os : Contiki) (r : Readings) where
  pub begin_rx-Yields :
      (q : Point) (s : Cycle os)
      → leads q Point.before_rx ≡ true
      → IsQuiet os s
      → Yields os q r (begin_rx os r s)
  unfolding begin_rx
  begin_rx-Yields q s f h =
      wait-Yields os q r rx_wait Point.before_rx s f refl h.off_or_kept
        (λ x. ground (arith, h.not_waiting)) h.short

  pub listen-Yields : (s : Cycle os) → IsQuiet os s → Yields os Point.before_rx r (listen os r s)
  unfolding listen mac_on
  listen-Yields s h =
      wait-Yields os Point.before_rx r rx_guard_wait Point.rx_guard (mac_on os s) refl refl refl
        (λ x. ground (arith, h.not_waiting)) h.short

  end_rx-Gives :
      (q : Point) (s : Cycle os)
      → leads q Point.asleep ≡ true
      → IsQuiet os s
      → Gives os q r (end_rx os r (some s))
  unfolding end_rx
  end_rx-Gives q s f h = end_round-Yields os q r s f h

  source-IsQuiet :
      (n : Option ℕ) (s : Cycle os) → IsQuiet os s → IsQuiet os (from_time_source os n s)
  source-IsQuiet none s h = record {
    off_or_kept = h.off_or_kept;
    not_waiting = h.not_waiting;
    short = h.short;
  }
  source-IsQuiet (some i) s h = record {
    off_or_kept = h.off_or_kept;
    not_waiting = h.not_waiting;
    short = h.short;
  }

  drift-Gives :
      (q : Point) (sender : Option Addr) (s : Cycle os)
      → leads q Point.asleep ≡ true
      → IsQuiet os s
      → Gives os q r (end_rx os r (record_drift os sender s))
  unfolding record_drift end_rx
  drift-Gives q none s f h = tt
  drift-Gives q (some a) s f h =
      let n = neighbor_queue_from_addr os s.net a in
      end_round-Yields os q r (from_time_source os n s) f (source-IsQuiet n s h)

  after_rx-Gives :
      (q : Point) (s : Cycle os)
      → leads q Point.asleep ≡ true
      → IsQuiet os s
      → Gives os q r (after_rx os r s)
  unfolding after_rx
  after_rx-Gives q s f h =
      branch (λ o. Gives os q r (end_rx os r o)) (is_zero s.last_drift) (end_rx-Gives q s f h)
        (drift-Gives q s.last_rf s f h)

  received-Gives : (s : Cycle os) → IsQuiet os s → Gives os Point.rx_guard r (received os r s)
  unfolding received arm
  received-Gives s h =
      branch (Gives os Point.rx_guard r) (to_bool s.need_ack)
        (record {
          follows = refl;
          is_powered = record {
            powered = h.off_or_kept;
            only_acks = λ x. ground (arith, h.not_waiting);
            short = h.short;
          };
          armed = λ x. rw x refl;
          on_time = λ x y. cc;
        })
        (after_rx-Gives Point.rx_guard s refl h)

  pub guard_over-Gives :
      (s : Cycle os)
      → s.waiting_for_radio_interrupt ≡ false
      → s.tx_time ≤ wd_data_duration
      → Gives os Point.rx_guard r (guard_over os r s)
  unfolding guard_over
  guard_over-Gives s w short =
      let s' = mac_off os s.keep_radio_on s in
      let quiet = off-IsQuiet os s w short in
      branch (Gives os Point.rx_guard r) (in_air r) (received-Gives s' quiet)
        (end_round-Yields os Point.rx_guard r s' refl quiet)

  pub acknowledge-Gives :
      (s : Cycle os) → IsQuiet os s → Gives os Point.before_send_ack r (acknowledge os r s)
  unfolding acknowledge
  acknowledge-Gives s h =
      after_rx-Gives Point.before_send_ack (call os RadioCall.send_ack s) refl
        (record { off_or_kept = h.off_or_kept; not_waiting = h.not_waiting; short = h.short })
