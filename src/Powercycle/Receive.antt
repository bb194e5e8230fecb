-- ===== src/Powercycle/Receive.antt =====
-- A slot in which powercycle of tsch.c receives: the guard time, the acknowledgment that the
-- interrupt prepared, and the drift that it found. The block's own variables are not read.
use tsch_minimum.Prelude.{
  ℕ, ◌+◌, ◌-◌, Bool, false, ◌||◌, not, Option, none, some, if◌then◌else◌, ◌==◌,
}
use tsch_minimum.Prelude.Int.{ℤ, pos, negsuc, ◌-ℤ◌, int32}
use tsch_minimum.Prelude.Words.{u16, to_bool}
use tsch_minimum.Contiki.{Contiki, Addr}
use tsch_minimum.Params.{ts_tx_offset, ts_tx_ack_delay, ts_long_gt, delay_tx}
use tsch_minimum.Neighbors.{neighbor_queue_from_addr}
use tsch_minimum.Time.{Clock}
use tsch_minimum.Powercycle.{
  Point, RadioCall, Cycle, Readings, call, mac_on, mac_off, arm, wait_until, end_round,
}

-- The durations from the start of the slot to both ends of the guard time, and from the end of the
-- frame to its acknowledgment.
abbrev pub rx_wait : ℕ
rx_wait = ts_tx_offset - ts_long_gt

abbrev pub rx_guard_wait : ℕ
rx_guard_wait = ts_tx_offset + ts_long_gt

abbrev pub send_ack_wait : ℕ
send_ack_wait = ts_tx_ack_delay - delay_tx

abbrev pub is_zero : ℤ → Bool
is_zero (pos n) = n == 0
is_zero (negsuc n) = false

-- The drift that the interrupt found, of a frame from a time source.
abbrev pub subtract_drift : ℤ → Clock → Clock
subtract_drift d c = record c {
  drift_correction = int32 (c.drift_correction -ℤ d);
  drift_counter = u16 (c.drift_counter + 1);
}

-- The radio received a frame, or hears something. `cca_status` is read after a yield that it does
-- not survive.
abbrev pub in_air : Readings → Bool
in_air r = to_bool r.rx_end_time || r.stack_cca || r.pending || not r.clear || r.receiving

module _ (os : Contiki) where
  unfoldable pub begin_rx : Readings → Cycle os → Cycle os
  unfolding wait_until
  begin_rx r s = wait_until os r rx_wait Point.before_rx s

  -- What the radio hears here is in `cca_status`, which does not survive the yield.
  unfoldable pub listen : Readings → Cycle os → Cycle os
  unfolding mac_on wait_until
  listen r s = wait_until os r rx_guard_wait Point.rx_guard (mac_on os s)

  abbrev pub from_time_source : Option ℕ → Cycle os → Cycle os
  from_time_source none s = record s { n = none }
  from_time_source (some i) s = record s {
    n = some i;
    clock =
        if to_bool (s.net.queue_of i).time_source
        then subtract_drift s.last_drift s.clock
        else s.clock;
  }

  -- `none` is an access through NULL.
  unfoldable pub record_drift : Option Addr → Cycle os → Option (Cycle os)
  record_drift none s = none
  record_drift (some sender) s =
      some (from_time_source (neighbor_queue_from_addr os s.net sender) s)

  unfoldable pub end_rx : Readings → Option (Cycle os) → Option (Cycle os)
  unfolding end_round
  end_rx r none = none
  end_rx r (some s) = some (end_round os r s)

  unfoldable pub after_rx : Readings → Cycle os → Option (Cycle os)
  unfolding end_rx record_drift
  after_rx r s = end_rx r (if is_zero s.last_drift then some s else record_drift s.last_rf s)

  unfoldable pub received : Readings → Cycle os → Option (Cycle os)
  unfolding after_rx arm
  received r s =
      let rest = after_rx r s in
      if to_bool s.need_ack
      then some (record (arm os r r.rx_end_time send_ack_wait s) { point = Point.before_send_ack })
      else rest

  unfoldable pub guard_over : Readings → Cycle os → Option (Cycle os)
  unfolding received mac_off end_round
  guard_over r s =
      let s' = mac_off os s.keep_radio_on s in
      let rest = received r s' in if in_air r then rest else some (end_round os r s')

  unfoldable pub acknowledge : Readings → Cycle os → Option (Cycle os)
  unfolding after_rx
  acknowledge r s = after_rx r (call os RadioCall.send_ack s)
