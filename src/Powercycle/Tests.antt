-- ===== src/Powercycle/Tests.antt =====
-- The theorems on powercycle of tsch.c at inputs where their hypotheses hold: one neighbor with a
-- packet, in slots that send and receive.
use mathlib.Core.Path.{subst}
use mathlib.Core.Option.{some-injective}
use tsch_minimum.Prelude.{
  ℕ, ◌+◌, ◌⊎◌, ◌≡◌, ◌<◌, refl, true, false, ◌≢◌, Bool-cases, inl, inr, not, Option, none, some,
  List, [], ◌∷◌, arith,
}
use tsch_minimum.Prelude.Int.{pos}
use tsch_minimum.Prelude.Words.{u16, sub16}
use tsch_minimum.Contiki.Example.{os, os-IsContiki}
use tsch_minimum.Params.{Cell, CellDecision, is_tx, minimum_slotframe, ts_slot_duration}
use tsch_minimum.Neighbors.Refine.{view}
use tsch_minimum.Outcome.{RadioTx}
use tsch_minimum.Sync.{make_sync_ack, time_difference}
use tsch_minimum.Time.{get_cell}
use tsch_minimum.Tests.{net, net-IsSound, found, shared_cell}
use tsch_minimum.Neighbors.{
  deref, neighbor_queue_from_addr, read_packet_from_queue, read_packet_from_neighbor_queue,
}
use tsch_minimum.Neighbors.Addressed.{HeadsBuffered}
use tsch_minimum.Queue.{read_packet}
use tsch_minimum.Powercycle.{Point, Cycle, Readings, mac_on, arm, wait_until}
use tsch_minimum.Powercycle.Transmit.{ack_guard_wait, listen_for_ack}
use tsch_minimum.Powercycle.Round.{
  Event, fires, interrupts, adds, fire, step, run, resume, powercycle, ask_ack,
}
use tsch_minimum.Powercycle.Graph.{IsPowered, due, in_slot, is_some}
use tsch_minimum.Powercycle.Graph.Runs.{run-IsPowered, is_armed, run-armed}
use tsch_minimum.Powercycle.Graph.Wakes.{resume-wakes}
use tsch_minimum.Powercycle.Live.Rounds.{finish_slot, round_ends}
use tsch_minimum.Powercycle.Live.Untraced.{untraced_drift}
use tsch_minimum.Powercycle.Settles.{result}
use tsch_minimum.Powercycle.Settles.Calls.{settled_view}
use tsch_minimum.Powercycle.Settles.Slot.{outlasts, added, slot_settles}
use tsch_minimum.Neighbors.Inv.{IsSound}
use tsch_minimum.Powercycle.Start.{init, IsLoaded, IsStarted, init_starts}
use tsch_minimum.Powercycle.Reach.{init_runs}

abbrev pub payload : ℕ → List ℕ
payload pkt = 65 ∷ 0 ∷ 7 ∷ pkt ∷ []

-- Nothing is heard.
abbrev pub silence : Readings
silence = record {
  started = 1000;
  now_1 = 1300;
  now_2 = 1301;
  set_ok = true;
  deadline = 1302;
  tx_start = 1120;
  sfd_time = 1180;
  sent = RadioTx.ok;
  clear = true;
  receiving = false;
  pending = false;
  pending_later = false;
  pending_at_read = false;
  pending_irq = false;
  frame = ([], 0);
  fifo = ([], 0);
  rx_end_time = 0;
  random = 4660;
  stack_cca = false;
  stack_ackbuf = [];
}

-- The acknowledgment is received within the guard time.
abbrev pub acknowledged : Readings
acknowledged = record silence {
  pending = true;
  pending_later = true;
  pending_at_read = true;
  frame = (2 ∷ 0 ∷ 7 ∷ [], 3);
}

abbrev frame_ended : Readings
frame_ended = record silence { rx_end_time = 1200 }

-- The packet was sent, and its acknowledgment is to be waited for.
abbrev pub cycle : Cycle os
cycle = record {
  net = net;
  slotframe = minimum_slotframe;
  last = none;
  clock = record {
    timeslot = 1;
    asn = 102;
    start = 1000;
    drift_correction = pos 0;
    drift = pos 0;
    drift_counter = 0;
  };
  decision = CellDecision.tx;
  cell = some shared_cell;
  n = some 0;
  p = some (0, 0);
  is_broadcast = false;
  seqno = 7;
  len = 0;
  tx_time = 60;
  waiting_for_radio_interrupt = false;
  need_ack = 0;
  last_rf = none;
  last_drift = pos 0;
  keep_radio_on = false;
  we_are_sending = true;
  is_sync = 1;
  state = 1;
  point = Point.before_ack;
  timer = some 1297;
  calls = [];
  posted = [];
}

cycle-IsPowered : IsPowered os cycle
cycle-IsPowered = record { powered = refl; only_acks = λ x. cc; short = omega arith }

-- Between two slots, before a slot of the shared cell.
abbrev sleeping : Cycle os
sleeping = record cycle { point = Point.asleep }

sleeping-IsPowered : IsPowered os sleeping
sleeping-IsPowered = record { powered = refl; only_acks = λ x. cc; short = omega arith }

shared_sends : (c : Cell) → get_cell minimum_slotframe 1 ≡ some c → is_tx c ≡ true
unfolding get_cell
shared_sends c e = subst (λ x. is_tx x ≡ true) (some-injective _ _ e) refl

-- The packet of the neighbor with the address 1 is the only one that is read.
net-HeadsBuffered : HeadsBuffered os os-IsContiki net
unfolding read_packet_from_queue read_packet_from_neighbor_queue neighbor_queue_from_addr
    read_packet
net-HeadsBuffered a p e = elim (Bool-cases (os.rimeaddr_cmp (1 ∷ []) a)) [
  | inl same ↦
      subst (λ q. (deref os net q).pkt ≢ 0) (some-injective _ _ (rw same at e))
        (λ x. omega (arith, x))
  | inr other ↦ absurd (ground (arith, other, e))
]

round_ends_example :
    (t : Cycle os) × (s : Cycle os) × (resume os payload silence sleeping ≡ some t)
    × (finish_slot os payload (silence ∷ silence ∷ frame_ended ∷ silence ∷ []) t ≡ some s)
    × (in_slot s.point ≡ false)
round_ends_example =
    round_ends os os-IsContiki payload silence silence silence frame_ended silence sleeping
      sleeping-IsPowered refl shared_sends tt net-HeadsBuffered

-- The radio listens for the acknowledgment, after a process added a packet.
abbrev pub events : List Event
events = adds 9 7 0 (1 ∷ []) ∷ fires silence ∷ []

pub outlasted : outlasts os payload events cycle ≡ true
unfolding step fire resume powercycle listen_for_ack wait_until arm
outlasted = refl

slot_settles_example :
    (t : Cycle os) × (s : Cycle os) × (run os payload events cycle ≡ some t)
    × (resume os payload acknowledged t ≡ some s)
    × let x = result t.point acknowledged t.is_broadcast t.len t.seqno in
      (in_slot s.point ≡ not (is_some x))
      × (view os s.net ≡ settled_view os (added os payload events (view os net)) (1 ∷ []) x)
slot_settles_example =
    slot_settles os os-IsContiki payload acknowledged 0 (0, 0) shared_cell events cycle (1 ∷ [])
      refl refl refl refl net-IsSound found refl outlasted

abbrev pub value : Option (Cycle os) → Cycle os
value none = cycle
value (some s) = s

pub listening : Cycle os
unfolding run step
listening = value (run os payload events cycle)

pub ran : run os payload events cycle ≡ some listening
unfolding run step fire resume powercycle listen_for_ack mac_on wait_until arm listening
ran = refl

pub then_fires :
    run os payload (fires acknowledged ∷ []) listening
    ≡ elim (resume os payload acknowledged listening) [ none ↦ none | some s ↦ some s ]
unfolding run step fire listening resume powercycle listen_for_ack mac_on wait_until arm
then_fires = refl

run-IsPowered_example : IsPowered os listening
run-IsPowered_example = run-IsPowered os payload events cycle listening cycle-IsPowered ran

run-armed_example : is_armed os payload listening ≡ true
run-armed_example = run-armed os payload events cycle listening refl cycle-IsPowered refl ran

waiting : Cycle os
waiting = value (resume os payload silence cycle)

woken : resume os payload silence cycle ≡ some waiting
unfolding resume powercycle listen_for_ack mac_on wait_until arm waiting
woken = refl

waiting_due : due waiting.point waiting.tx_time ≡ some (ack_guard_wait 60)
unfolding resume powercycle listen_for_ack mac_on wait_until arm waiting
waiting_due = refl

resume-wakes_example :
    (t : ℕ) × (waiting.timer ≡ some t)
    × ((t ≡ u16 (waiting.clock.start + ack_guard_wait 60))
        ⊎ ((ack_guard_wait 60
              < sub16 (u16 (waiting.clock.start + ack_guard_wait 60)) (u16 (1300 + 1)))
            × (t ≡ u16 (1301 + 5))))
    × (ack_guard_wait 60 < ts_slot_duration)
    × ((earlier : ℕ)
        → due Point.before_ack waiting.tx_time ≡ some earlier
        → earlier < ack_guard_wait 60)
resume-wakes_example =
    resume-wakes os payload silence cycle waiting (ack_guard_wait 60) cycle-IsPowered woken refl
      waiting_due

-- A frame came ten ticks late and was then dropped.
untraced_drift_example :
    run os payload
      (interrupts (some (7, 1141, 0)) 0 none frame_ended ∷ fires frame_ended ∷ [])
      (record cycle { point = Point.rx_guard })
    ≡ none
unfolding ask_ack make_sync_ack time_difference
untraced_drift_example =
    untraced_drift os payload (7, 1141, 0) frame_ended frame_ended
      (record cycle { point = Point.rx_guard }) refl refl refl refl refl

abbrev pub loaded : Cycle os
loaded = record cycle {
  clock = record cycle.clock { timeslot = 0 };
  point = Point.start_up;
  tx_time = 0;
}

pub loaded-IsLoaded : IsLoaded os loaded
loaded-IsLoaded = record {
  not_called = refl;
  not_kept = refl;
  at_start = refl;
  no_time = refl;
  first_slot = refl;
  sound = net-IsSound;
}

init_starts_example : IsStarted os (init os silence loaded)
init_starts_example = init_starts os os-IsContiki silence loaded refl loaded-IsLoaded

-- The interrupt ends and a packet is added before the first slot.
abbrev pub early_events : List Event
early_events = interrupts none 0 none frame_ended ∷ adds 9 7 0 (1 ∷ []) ∷ []

pub early : Cycle os
unfolding run step
early = value (run os payload early_events (init os silence loaded))

pub came_early : run os payload early_events (init os silence loaded) ≡ some early
unfolding run step early
came_early = refl

init_runs_example : IsPowered os early × (is_armed os payload early ≡ true) × IsSound os early.net
init_runs_example =
    init_runs os os-IsContiki payload silence early_events loaded early refl loaded-IsLoaded refl
      refl came_early
