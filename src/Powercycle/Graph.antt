-- ===== src/Powercycle/Graph.antt =====
-- What holds at each yield of powercycle of tsch.c: which yield it may follow, what it
-- asked of the radio last, and the time that the timer is set for.
mod Transmits
mod Receives
pub mod Slots
pub mod Runs
pub mod Wakes
use tsch_minimum.Prelude.{
  ℕ, ◌≤◌, ◌≡◌, refl, Bool, true, false, ◌||◌, Option, none, some, List, [], ◌∷◌, arith,
  if◌then◌else◌,
}
use tsch_minimum.Contiki.{Contiki}
use tsch_minimum.Params.{wd_data_duration}
use tsch_minimum.Time.{schedule_fixed}
use tsch_minimum.Powercycle.{Point, RadioCall, Cycle, Readings, wait_until, end_round, arm}
use tsch_minimum.Powercycle.Transmit.{tx_wait, ack_wait, ack_guard_wait, ack_watchdog_wait}
use tsch_minimum.Powercycle.Receive.{rx_wait, rx_guard_wait}

-- What powercycle asked of the radio last: on() or off(). The driver's own off(), after a
-- transmission and in its interrupt, is not among these calls.
abbrev pub last_asked : List RadioCall → Bool
last_asked [] = false
last_asked (RadioCall.on ∷ cs) = true
last_asked (RadioCall.off ∷ cs) = false
last_asked (RadioCall.sfd_sync a b ∷ cs) = last_asked cs
last_asked (RadioCall.set_channel c ∷ cs) = last_asked cs
last_asked (RadioCall.prepare bs ∷ cs) = last_asked cs
last_asked (RadioCall.transmit ∷ cs) = last_asked cs
last_asked (RadioCall.send_ack ∷ cs) = last_asked cs

-- The waits for an acknowledgment, and all waits in which the radio listens.
abbrev pub waits_for_ack : Point → Bool
waits_for_ack Point.ack_guard = true
waits_for_ack Point.ack_watchdog = true
waits_for_ack p = false

abbrev pub listens : Point → Bool
listens Point.rx_guard = true
listens p = waits_for_ack p

abbrev pub is_ended : Point → Bool
is_ended Point.ended = true
is_ended p = false

-- The yields in the middle of a slot.
abbrev pub in_slot : Point → Bool
in_slot Point.start_up = false
in_slot Point.asleep = false
in_slot Point.ended = false
in_slot p = true

-- The diagram of the protothread: the yields that may follow one. Outside a slot it is at the head
-- of its loop.
abbrev pub opens : Point → Bool
opens Point.before_tx = true
opens Point.before_rx = true
opens Point.asleep = true
opens Point.ended = true
opens p = false

abbrev pub leads : Point → Point → Bool
leads Point.start_up p = opens p
leads Point.asleep p = opens p
leads Point.ended p = opens p
leads Point.before_tx Point.before_ack = true
leads Point.before_ack Point.ack_guard = true
leads Point.before_ack Point.ack_watchdog = true
leads Point.ack_guard Point.ack_watchdog = true
leads Point.before_rx Point.rx_guard = true
leads Point.rx_guard Point.before_send_ack = true
leads Point.before_rx Point.asleep = false
leads q Point.asleep = true
leads q p = false

-- The time from the start of the slot that the timer is set for at a yield in the slot, but for the
-- one before an acknowledgment is sent, which is timed from the end of the frame.
abbrev pub due : Point → ℕ → Option ℕ
due Point.before_tx tx_time = some tx_wait
due Point.before_ack tx_time = some (ack_wait tx_time)
due Point.ack_guard tx_time = some (ack_guard_wait tx_time)
due Point.ack_watchdog tx_time = some (ack_watchdog_wait tx_time)
due Point.before_rx tx_time = some rx_wait
due Point.rx_guard tx_time = some rx_guard_wait
due p tx_time = none

abbrev pub is_some {ℓ} : {A : Type ℓ} → Option A → Bool
is_some none = false
is_some (some a) = true

-- What schedule_fixed sets the timer to.
abbrev pub timer_for : Readings → ℕ → Option ℕ → Option ℕ
timer_for r start none = none
timer_for r start (some d) = some (schedule_fixed r.now_1 r.now_2 r.set_ok start d).0

module _ (os : Contiki) where
  pub record IsPowered (s : Cycle os) : Type 0 where
    pub powered : last_asked s.calls ≡ (if listens s.point then true else s.keep_radio_on)
    pub only_acks : s.waiting_for_radio_interrupt ≡ true → waits_for_ack s.point ≡ true
    pub short : s.tx_time ≤ wd_data_duration

  -- A yield at `s`, after one at `q`.
  pub record Yields (q : Point) (r : Readings) (s : Cycle os) : Type 0 where
    pub follows : leads q s.point ≡ true
    pub is_powered : IsPowered s
    pub armed : r.set_ok ≡ true → is_ended s.point || is_some s.timer ≡ true
    pub on_time :
        r.set_ok ≡ true
        → is_some (due s.point s.tx_time) ≡ true
        → s.timer ≡ timer_for r s.clock.start (due s.point s.tx_time)

  -- What a part of the round gives, where it reads nothing through NULL.
  abbrev pub Gives : Point → Readings → Option (Cycle os) → Type 0
  Gives q r none = Unit
  Gives q r (some s) = Yields q r s

  -- The radio is not needed.
  pub record IsQuiet (s : Cycle os) : Type 0 where
    pub off_or_kept : last_asked s.calls ≡ s.keep_radio_on
    pub not_waiting : s.waiting_for_radio_interrupt ≡ false
    pub short : s.tx_time ≤ wd_data_duration

  pub end_round-Yields :
      (q : Point) (r : Readings) (s : Cycle os)
      → leads q Point.asleep ≡ true
      → IsQuiet s
      → Yields q r (end_round os r s)
  unfolding end_round arm
  end_round-Yields q r s f h = record {
    follows = f;
    is_powered = record { powered = h.off_or_kept; only_acks = λ x. cc; short = h.short };
    armed = λ x. rw x refl;
    on_time = λ x y. cc;
  }

  -- A wait that is timed from the start of the slot.
  pub wait-Yields :
      (q : Point) (r : Readings) (d : ℕ) (p : Point) (s : Cycle os)
      → leads q p ≡ true
      → due p s.tx_time ≡ some d
      → last_asked s.calls ≡ (if listens p then true else s.keep_radio_on)
      → (s.waiting_for_radio_interrupt ≡ true → waits_for_ack p ≡ true)
      → s.tx_time ≤ wd_data_duration
      → Yields q r (wait_until os r d p s)
  unfolding wait_until arm
  wait-Yields q r d p s f e power_is w short = record {
    follows = f;
    is_powered = record { powered = power_is; only_acks = w; short = short };
    armed = λ x. rw x (ground arith);
    on_time = λ x y. rw (x, e) refl;
  }
