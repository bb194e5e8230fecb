-- ===== src/Tests.antt =====
-- The theorems on the code at inputs where their hypotheses hold: one neighbor, or two, of a small
-- table, with a packet to send.
use tsch_minimum.Prelude.{
  ℕ, ◌+◌, ◌%◌, ◌≡◌, ◌≢◌, ◌≤◌, refl, true, false, Option, none, some, List, [], ◌∷◌, ◌++◌, arith,
  map, length, drop, replicate,
}
use tsch_minimum.Prelude.Int.{pos, negsuc, pos_part, neg_part, div_ℤ, ◌*ℤ◌}
use tsch_minimum.Prelude.Words.{u16}
use tsch_minimum.Contiki.{Addr, first}
use tsch_minimum.Contiki.Example.{os, os-IsContiki, items_one}
use tsch_minimum.Params.{Cell, CellDecision, generic_shared_cell, ts_tx_offset}
use tsch_minimum.Queue.{
  new_packet, add_packet, NeighborQueue, TschPacket, MacTx, no_packet, read_packet,
}
use tsch_minimum.Queue.Inv.{IsValid}
use tsch_minimum.Neighbors.{
  add_packet_to_queue, Net, neighbor_queue_from_addr, read_packet_from_queue,
  read_packet_from_neighbor_queue, remove_queue, remove_packet_from_queue,
}
use tsch_minimum.Neighbors.Inv.{IsSound}
use tsch_minimum.Neighbors.Fifos
use tsch_minimum.Neighbors.Fifos.{Call}
use tsch_minimum.Neighbors.Refine.{view, run, run_refines}
use tsch_minimum.Neighbors.Frees.{times_freed, freed_twice}
use tsch_minimum.SharedTx.{turns, pending, turns_fair}
use tsch_minimum.Time.{Clock, correction}
use tsch_minimum.Sync.{
  ack_len, extra_ack_len, make_sync_ack, is_ack_of, ack_drift, time_difference, microseconds,
}
use tsch_minimum.Sync.RoundTrip.{ack_round_trip, ticks_recovered, wrapped_difference}
use tsch_minimum.Outcome.{RadioTx, finish_tx}
use tsch_minimum.Outcome.Settle.{settle_at}
use tsch_minimum.Outcome.Retry.{finish_tx_refines}
use tsch_minimum.Callback.{Adds, add_all, tsch_tx_callback_process}
use tsch_minimum.Callback.Reports.{finish_tx_reported}
use tsch_minimum.Decide.{Choice, decide_cell}
use tsch_minimum.Decide.Total.{MaySend, decide_cell_total, stale_tx}
use tsch_minimum.Decide.Countdown.{slots_until_tx, slots_until_tx_lem}
use tsch_minimum.Send.{Buffers, Mac, send_one_packet}
use tsch_minimum.Send.Seqno.{seqno_after, seqno_distinct}
use tsch_minimum.Send.Effect.{WasQueued, queuebuf_new, send_one_packet-queues}
use tsch_minimum.Queue.Fifo.{Fifo}
use tsch_minimum.Input.{Packet, max_seqnos, received_seqnos}
use tsch_minimum.Input.History.{null_packet, delivered, let_through, delivered_lem}
use tsch_minimum.Radio.{
  Radio, Request, get_lock, release_lock, cc2420_rssi, cc2420_cca, cc2420_set_channel,
  cc2420_transmit, cc2420_set_txpower, cc2420_get_txpower, cc2420_set_cca_threshold,
}
use tsch_minimum.Radio.Balance.{calls-IsIdle}
use tsch_minimum.Radio.Lock.{IsIdle, requests, deferred, rssi_leaves_on, cca_when_off}
use tsch_minimum.Radio.Frame.{extract_sender_address}
use tsch_minimum.Radio.Frame.Header.{Header, long, encode, sender_read_back}

abbrev packet : TschPacket
packet = record { pkt = 5; transmissions = 0; sent = 7; ptr = 0; ret = MacTx.deferred }

-- One packet waits, and the backoff counter is 2.
abbrev queue : NeighborQueue
queue = record {
  time_source = 0;
  be_value = 1;
  bw_value = 2;
  buffer = packet ∷ no_packet ∷ no_packet ∷ no_packet ∷ [];
  put_ptr = 1;
  get_ptr = 0;
}

-- The neighbor with the address 1 has the entry 0.
abbrev pub net : Net os
net = record {
  table = record { entry_0 = some (1 ∷ []); entry_1 = none };
  queue_of = λ i. queue;
  working_on_queue = 0;
  frees = [];
}

-- A shared cell of that neighbor, and one of a neighbor that it only receives from.
abbrev pub shared_cell : Cell
shared_cell = record {
  link_handle = 1;
  channel_offset = 0;
  link_options = 7;
  link_type = 0;
  node_address = 1 ∷ [];
}

abbrev receiving_cell : Cell
receiving_cell = record shared_cell { link_options = 2 }

queue-IsValid : IsValid queue
queue-IsValid = record {
  slots = refl;
  put_in = omega arith;
  get_in = omega arith;
  be_low = omega arith;
  be_high = omega arith;
  bw_high = omega arith;
}

pub net-IsSound : IsSound os net
net-IsSound = record { shaped = λ i. refl; valid = λ a i e. queue-IsValid }

abbrev calls : List Call
calls =
    Call.add 9 7 0 (1 ∷ []) ∷ Call.read (1 ∷ []) ∷ Call.remove (1 ∷ []) ∷ Call.remove (2 ∷ []) ∷ []

run_refines_example : run os net calls ≡ Fifos.run os.rimeaddr_cmp (view os net) calls
run_refines_example = run_refines os os-IsContiki calls net net-IsSound

pub found : read_packet_from_queue os net (1 ∷ []) ≡ some (0, 0)
unfolding read_packet_from_queue read_packet_from_neighbor_queue neighbor_queue_from_addr
    read_packet
found = refl

finish_tx_refines_example :
    view os (finish_tx os RadioTx.noack net 1 (0, 0) shared_cell false 4660)
    ≡ Fifos.at os.rimeaddr_cmp
        (view os net)
        (1 ∷ [])
        (settle_at RadioTx.noack (view os net (1 ∷ [])))
finish_tx_refines_example =
    finish_tx_refines os os-IsContiki RadioTx.noack net 1 (0, 0) shared_cell false 4660 (1 ∷ [])
      net-IsSound found refl

-- The last slot that is on of the third slotframe, with a drift of one acknowledgement.
abbrev clock : Clock
clock = record {
  timeslot = 5;
  asn = 207;
  start = 65000;
  drift_correction = pos 0;
  drift = pos 152;
  drift_counter = 1;
}

-- A frame that came 29 ticks early.
ack_round_trip_example :
    let ack = drop 1 (make_sync_ack 1000 7 1102 0).0 in
    let len = ack_len + extra_ack_len in
    (is_ack_of ack len 7 ≡ true)
    × (ack_drift ack len 1 ≡ some (div_ℤ (time_difference 1000 1102 *ℤ 3051) 100))
unfolding time_difference
ack_round_trip_example = ack_round_trip 1000 7 1102 0 (omega arith, omega arith)

abbrev drifted : Clock
drifted = record clock { drift = microseconds (pos 5) }

ticks_recovered_example :
    let back = correction drifted in
    (pos_part back ≤ 5) × (5 ≤ pos_part back + 1) × (neg_part back ≤ 0) × (0 ≤ neg_part back + 1)
ticks_recovered_example = ticks_recovered (pos 5) drifted (omega arith) (omega arith) refl refl refl

wrapped_difference_example :
    ack_drift
      (drop 1 (make_sync_ack 65500 7 (u16 (65500 + ts_tx_offset)) 0).0)
      (ack_len + extra_ack_len)
      1
    ≡ some (negsuc 1392)
wrapped_difference_example = wrapped_difference 65500 7 0 (omega arith) (omega arith)

turns_fair_example :
    turns os net (length (pending os net (0 ∷ []))) (first (0 ∷ []))
    ≡ map some (pending os net (0 ∷ []))
turns_fair_example = turns_fair os os-IsContiki net [] (0 ∷ []) (items_one (1 ∷ []))

decide_cell_total_example :
    (c : Choice os) × (decide_cell os net none CellDecision.off generic_shared_cell ≡ some c)
    × MaySend os os-IsContiki net generic_shared_cell c
decide_cell_total_example =
    decide_cell_total os os-IsContiki net none CellDecision.off generic_shared_cell refl tt

stale_tx_example :
    (c : Choice os) × (decide_cell os net none CellDecision.tx receiving_cell ≡ some c)
    × (c.decision ≡ CellDecision.tx)
    × (c.pick.p ≡ none)
stale_tx_example = stale_tx os net none receiving_cell refl

entry_0 : neighbor_queue_from_addr os net (1 ∷ []) ≡ some 0
unfolding neighbor_queue_from_addr
entry_0 = refl

head_0 : read_packet_from_neighbor_queue os net (some 0) ≡ some (0, 0)
unfolding read_packet_from_neighbor_queue read_packet
head_0 = refl

slots_until_tx_lem_example : slots_until_tx os none CellDecision.off shared_cell 3 net ≡ some 2
slots_until_tx_lem_example =
    slots_until_tx_lem os none CellDecision.off shared_cell 2 net 0 (0, 0)
      (record { sends = refl; shared = refl; normal = refl; entry = entry_0; own = head_0 }) refl

freed_twice_example :
    times_freed 5 [] + 2
    ≤ times_freed 5 (remove_queue os (remove_packet_from_queue os net (1 ∷ [])).0 (1 ∷ [])).0.frees
freed_twice_example = freed_twice os net (1 ∷ []) 0 net-IsSound entry_0 (omega arith)

-- Packet buffers that are their receiver and sequence number, with a pool that counts.
abbrev bufs : Buffers
bufs = record {
  Packetbuf = Addr × ℕ;
  Pool = ℕ;
  receiver = λ b. b.0;
  set_mac_ack = λ b. b;
  set_mac_seqno = λ n b. (b.0, n);
  create = λ b. (b, true);
  queuebuf_new_from_packetbuf = λ n b. (n + 4, n);
  queuebuf_to_packetbuf = λ q. (q % 4 ∷ [], 0);
}

abbrev mac : Mac os bufs
mac = record { net = net; packetbuf = ([], 0); pool = 8; dsn = 255 }

seqno_distinct_example : (seqno_after 251 0 ≢ 0) × (seqno_after 251 0 ≢ seqno_after 261 0)
seqno_distinct_example = seqno_distinct 250 10 (omega arith) (omega arith)

abbrev inputs : List (Option Packet)
inputs =
    some (record { sender_addr = 1 ∷ []; packet_id = 3 })
    ∷ none
    ∷ some (record { sender_addr = 1 ∷ []; packet_id = 3 })
    ∷ []

delivered_lem_example :
    delivered os inputs received_seqnos ≡ let_through os inputs (replicate max_seqnos null_packet)
delivered_lem_example = delivered_lem os inputs (omega arith, (omega arith, omega arith))

abbrev radio : Radio
radio = record {
  receive_on = false;
  locked = 0;
  lock_on = false;
  lock_off = false;
  channel = 26;
  need_flush = false;
  regs = λ k. 0;
  sent = [];
}

radio-IsIdle : IsIdle radio
radio-IsIdle = record { unlocked = refl; no_on = refl; no_off = refl }

abbrev wishes : List Request
wishes = Request.turn_on ∷ Request.turn_off ∷ []

deferred_example :
    let t = release_lock (requests wishes (get_lock radio)) in
    IsIdle t × ((requests wishes (get_lock radio)).receive_on ≡ false) × (t.receive_on ≡ true)
deferred_example = deferred radio wishes radio-IsIdle

rssi_leaves_on_example : (cc2420_rssi 200 radio).0.receive_on ≡ true
rssi_leaves_on_example = rssi_leaves_on 200 radio radio-IsIdle refl

cca_when_off_example : ((cc2420_cca 0 radio).1 ≡ 1) × ((cc2420_cca 0 radio).0.receive_on ≡ false)
cca_when_off_example = cca_when_off 0 radio radio-IsIdle refl

-- A data frame between long addresses, with a compressed PAN.
abbrev header : Header
header = record {
  frame_type = 1;
  security = false;
  pending = false;
  ack_required = true;
  compressed = true;
  version = 1;
  seqno = 7;
  dest_lo = 205;
  dest_hi = 171;
  dest = long 0 18 116 1 0 1 1 1;
  src_lo = 0;
  src_hi = 0;
  src = long 0 18 116 2 0 2 2 2;
}

sender_read_back_example :
    (extract_sender_address
      (0 ∷ 0 ∷ [])
      (record { buf = encode header ++ (9 ∷ []); len = 22; source_address = [] })).source_address
    ≡ 0 ∷ 18 ∷ 116 ∷ 2 ∷ 0 ∷ 2 ∷ 2 ∷ 2 ∷ []
sender_read_back_example =
    sender_read_back (0 ∷ 0 ∷ []) header (9 ∷ []) 22 [] (omega arith, omega arith) (omega arith)

calls-IsIdle_example :
    IsIdle (cc2420_set_channel 26 radio).0
    × IsIdle (cc2420_transmit (false ∷ true ∷ []) radio).0
    × IsIdle (cc2420_set_txpower 31 radio)
    × IsIdle (cc2420_get_txpower radio).0
    × IsIdle (cc2420_set_cca_threshold 210 radio)
    × IsIdle (cc2420_rssi 200 radio).0
    × IsIdle (cc2420_cca 0 radio).0
calls-IsIdle_example = calls-IsIdle radio 26 31 210 200 0 (false ∷ true ∷ []) radio-IsIdle

abbrev mac_to_1 : Mac os bufs
mac_to_1 = record mac { packetbuf = (1 ∷ [], 0) }

accepts : (send_one_packet os bufs 7 0 mac_to_1).1 ≡ 1
unfolding send_one_packet add_packet_to_queue neighbor_queue_from_addr add_packet
accepts = refl

send_one_packet-queues_example :
    let pkt = (queuebuf_new os os-IsContiki bufs mac_to_1).1 in
    (old : Fifo) × (view os (send_one_packet os bufs 7 0 mac_to_1).0.net (1 ∷ [])
      ≡ some (old ++ (new_packet pkt 7 0 ∷ [])))
    × WasQueued os os-IsContiki net (1 ∷ []) old
send_one_packet-queues_example =
    send_one_packet-queues os os-IsContiki bufs 7 0 mac_to_1 net-IsSound accepts

-- Three packets for the same neighbor are added before the process runs.
abbrev three_adds : Adds
three_adds = (9, 7, 0, 1 ∷ []) ∷ (10, 7, 0, 1 ∷ []) ∷ (11, 7, 0, 1 ∷ []) ∷ []

finish_tx_reported_example :
    tsch_tx_callback_process os
      (add_all os three_adds (finish_tx os RadioTx.noack net 0 (0, 0) shared_cell false 4660))
      (some (0, 0))
    ≡ some (record { sent = 7; ptr = 0; ret = MacTx.noack; transmissions = 1 })
finish_tx_reported_example =
    finish_tx_reported os RadioTx.noack net 0 (0, 0) shared_cell false 4660 (1 ∷ []) three_adds
      (omega arith) net-IsSound found
