-- ===== src/Queue.antt =====
-- One neighbor's packet queue: `struct TSCH_packet`, `struct neighbor_queue` and what the queue
-- functions of tsch.c do to the circular buffer of one neighbor. Neighbors.antt finds the neighbor
-- and calls these.
pub mod Inv
pub mod Fifo
pub mod Refine
use tsch_minimum.Prelude.{
  ℕ, zero, suc, ◌+◌, ◌%◌, Bool, Option, none, some, List, [], ◌∷◌, ◌==◌, ltb, if◌then◌else◌, get_or,
  set,
}
use tsch_minimum.Prelude.Words.{u8, u16, sub16, to_bool}

-- QUEUEBUF_CONF_NUM is 4 in project-conf.h, a power of two, so NBR_BUFFER_SIZE is 4.
abbrev pub nbr_buffer_size : ℕ
nbr_buffer_size = 4

abbrev pub mac_min_be : ℕ
mac_min_be = 1

abbrev pub mac_max_frame_retries : ℕ
mac_max_frame_retries = 4

abbrev pub mac_max_be : ℕ
mac_max_be = 4

-- `mac_tx_status` codes of Contiki that the code stores in `ret`.
pub data MacTx : Type 0 where
  ok collision noack deferred err : MacTx

-- `struct TSCH_packet`. Pointers are numbers, and 0 is NULL.
pub record TschPacket : Type 0 where
  pub pkt : ℕ
  pub transmissions : ℕ
  pub sent : ℕ
  pub ptr : ℕ
  pub ret : MacTx

-- `struct neighbor_queue`.
pub record NeighborQueue : Type 0 where
  pub time_source : ℕ
  pub be_value : ℕ
  pub bw_value : ℕ
  pub buffer : List TschPacket
  pub put_ptr : ℕ
  pub get_ptr : ℕ

-- What an array of packets holds beyond its end; no valid queue reads it.
abbrev pub no_packet : TschPacket
no_packet = record { pkt = 0; transmissions = 0; sent = 0; ptr = 0; ret = MacTx.ok }

abbrev pub slot : NeighborQueue → ℕ → TschPacket
slot q i = get_or q.buffer i no_packet

abbrev pub set_slot : NeighborQueue → ℕ → TschPacket → NeighborQueue
set_slot q i p = record q { buffer = set q.buffer i p }

-- `(n->put_ptr - n->get_ptr) & (NBR_BUFFER_SIZE - 1)`
abbrev pub count : NeighborQueue → ℕ
count q = sub16 q.put_ptr q.get_ptr % nbr_buffer_size

-- `(i + 1) & (NBR_BUFFER_SIZE - 1)`
abbrev pub next_index : ℕ → ℕ
next_index i = (i + 1) % nbr_buffer_size

abbrev pub is_full : NeighborQueue → Bool
is_full q = count q == 3

-- The `for` loop of `add_queue`: `pkt` and `transmissions` of each slot are reset, and no more.
abbrev pub clear_slots : List TschPacket → List TschPacket
clear_slots [] = []
clear_slots (p ∷ ps) = record p { pkt = 0; transmissions = 0 } ∷ clear_slots ps

-- `add_queue` on the entry that it found or allocated.
pub renew : NeighborQueue → NeighborQueue
renew q = record {
  time_source = 0;
  be_value = mac_min_be;
  bw_value = 0;
  buffer = clear_slots q.buffer;
  put_ptr = 0;
  get_ptr = 0;
}

-- The fields that `add_packet_to_queue` writes, `pkt` being what `queuebuf_new_from_packetbuf` gave.
abbrev pub new_packet : ℕ → ℕ → ℕ → TschPacket
new_packet pkt sent ptr = record {
  pkt = pkt;
  transmissions = 0;
  sent = sent;
  ptr = ptr;
  ret = MacTx.deferred;
}

-- `add_packet_to_queue` on the queue: the queue, and the value that is returned.
unfoldable pub add_packet : ℕ → ℕ → ℕ → NeighborQueue → NeighborQueue × ℕ
add_packet pkt sent ptr q = if is_full q then (q, 0) else (
  record (set_slot q q.put_ptr (new_packet pkt sent ptr)) { put_ptr = next_index q.put_ptr },
  1,
)

-- `remove_packet_from_queue` on the queue: the queue, and the packet that `queuebuf_free` is
-- called with, if one is removed. The slot keeps its pointer.
pub remove_packet : NeighborQueue → NeighborQueue × Option ℕ
remove_packet q =
    if ltb 0 (count q)
    then (record q { get_ptr = next_index q.get_ptr }, some (slot q q.get_ptr).pkt)
    else (q, none)

-- `read_packet_from_neighbor_queue`: the index of the slot whose address is returned.
unfoldable pub read_packet : NeighborQueue → Option ℕ
read_packet q = if ltb 0 (count q) then some q.get_ptr else none
