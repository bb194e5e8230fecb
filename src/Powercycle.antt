-- ===== src/Powercycle.antt =====
-- The slot state machine of tsch.c: the protothread `powercycle` between its yields, and what runs
-- while it waits. This file has its state and the calls that every part makes; the children have the
-- parts of a round.
pub mod Transmit
pub mod Receive
pub mod Round
pub mod Graph
pub mod Live
pub mod Settles
pub mod Start
pub mod Queues
pub mod Reach
pub mod Kept
pub mod Paced
pub mod Progress
pub mod Sound
pub mod Tests
use tsch_minimum.Prelude.{
  ℕ, ◌+◌, Bool, true, false, Option, none, some, List, [], ◌∷◌, if◌then◌else◌,
}
use tsch_minimum.Prelude.Int.{ℤ}
use tsch_minimum.Contiki.{Contiki, Addr}
use tsch_minimum.Params.{Cell, CellDecision, Slotframe}
use tsch_minimum.Neighbors.{Net, PacketRef}
use tsch_minimum.SharedTx.{Cursor}
use tsch_minimum.Time.{Clock, schedule_fixed, end_of_slot}
use tsch_minimum.Outcome.{RadioTx}

-- Where the protothread goes on when it is called next: at its start, after one of its `PT_YIELD`s in
-- the order of the code, or at its start again, since its loop has ended.
pub data Point : Type 0 where
  start_up before_tx before_ack ack_guard ack_watchdog before_rx rx_guard before_send_ack : Point
  asleep ended : Point

-- The calls of the radio driver.
pub data RadioCall : Type 0 where
  sfd_sync : ℕ → ℕ → RadioCall
  set_channel : ℕ → RadioCall
  prepare : List ℕ → RadioCall
  transmit on off send_ack : RadioCall

-- The variables that powercycle works on. `slotframe` is what `current_slotframe` points to,
-- `is_sync` and `state` are those of `ieee154e_vars`, `n` and `p` are the neighbor and the packet,
-- `last_rf` the source address of the frame that the interrupt gave, `timer` when the real-time
-- timer is set to fire, `calls` the calls of the radio, and `posted` the packets that were posted
-- to tsch_tx_callback_process, both with the latest first.
pub record Cycle (os : Contiki) : Type 0 where
  pub net : Net os
  pub slotframe : Slotframe
  pub last : Cursor
  pub clock : Clock
  pub decision : CellDecision
  pub cell : Option Cell
  pub n : Option ℕ
  pub p : Option PacketRef
  pub is_broadcast : Bool
  pub seqno : ℕ
  pub len : ℕ
  pub tx_time : ℕ
  pub waiting_for_radio_interrupt : Bool
  pub need_ack : ℕ
  pub last_rf : Option Addr
  pub last_drift : ℤ
  pub keep_radio_on : Bool
  pub we_are_sending : Bool
  pub is_sync : ℕ
  pub state : ℕ
  pub point : Point
  pub timer : Option ℕ
  pub calls : List RadioCall
  pub posted : List PacketRef

-- What one run of the protothread, from where it goes on to its next yield, finds outside: the timer
-- at each reading (at the start, in schedule_fixed, for the deadline and before the transmission),
-- whether rtimer_set succeeds, the radio's answers, and random_rand(). The variables
-- `cca_status` and `ackbuf` are not static: where the protothread yields before it reads them, it
-- reads what it finds on the stack.
pub record Readings : Type 0 where
  pub started : ℕ
  pub now_1 : ℕ
  pub now_2 : ℕ
  pub set_ok : Bool
  pub deadline : ℕ
  pub tx_start : ℕ
  pub sfd_time : ℕ
  pub sent : RadioTx
  pub clear : Bool
  pub receiving : Bool
  pub pending : Bool
  pub pending_later : Bool
  pub pending_at_read : Bool
  pub pending_irq : Bool
  pub frame : List ℕ × ℕ
  pub fifo : List ℕ × ℕ
  pub rx_end_time : ℕ
  pub random : ℕ
  pub stack_cca : Bool
  pub stack_ackbuf : List ℕ

module _ (os : Contiki) where
  abbrev pub call : RadioCall → Cycle os → Cycle os
  call c s = record s { calls = c ∷ s.calls }

  -- `on()` and `off(keep_radio_on)` of tsch.c.
  unfoldable pub mac_on : Cycle os → Cycle os
  mac_on s = call RadioCall.on s

  unfoldable pub mac_off : Bool → Cycle os → Cycle os
  mac_off keep s =
      call (if keep then RadioCall.on else RadioCall.off) (record s { keep_radio_on = keep })

  -- `schedule_fixed` on the timer of powercycle; where rtimer_set fails, the timer is left as it was.
  unfoldable pub arm : Readings → ℕ → ℕ → Cycle os → Cycle os
  arm r ref duration s =
      let (time, ret) = schedule_fixed r.now_1 r.now_2 r.set_ok ref duration in
      record s { timer = if r.set_ok then some time else s.timer }

  -- The end of a round, up to its yield: the clock moves on to the next slot, whose start the timer
  -- is set for.
  unfoldable pub end_round : Readings → Cycle os → Cycle os
  unfolding arm
  end_round r s =
      let (clock, ref, duration) = end_of_slot s.slotframe r.deadline s.clock in
      record (arm r ref duration (record s { clock = clock })) { point = Point.asleep }

  -- `schedule_fixed(t, start, duration); PT_YIELD(&mpt);`
  unfoldable pub wait_until : Readings → ℕ → Point → Cycle os → Cycle os
  unfolding arm
  wait_until r duration point s = record (arm r s.clock.start duration s) { point = point }
