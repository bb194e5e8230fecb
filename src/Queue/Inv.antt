-- ===== src/Queue/Inv.antt =====
-- The representation invariant of `struct neighbor_queue`, and that each queue operation of tsch.c
-- keeps it.
use tsch_minimum.Prelude.{
  ℕ, ◌≤◌, ◌<◌, ◌≡◌, refl, ap, List, [], ◌∷◌, arith, length, length-set, suc, some,
}
use tsch_minimum.Queue.{
  TschPacket, NeighborQueue, nbr_buffer_size, mac_min_be, mac_max_be, new_packet, set_slot, slot,
  clear_slots, renew, add_packet, remove_packet, read_packet, count, next_index,
}

-- The indices lie in the buffer, and the backoff counters in the ranges of macMinBE and macMaxBE.
pub record IsValid (q : NeighborQueue) : Type 0 where
  pub slots : length q.buffer ≡ nbr_buffer_size
  pub put_in : q.put_ptr < nbr_buffer_size
  pub get_in : q.get_ptr < nbr_buffer_size
  pub be_low : mac_min_be ≤ q.be_value
  pub be_high : q.be_value ≤ mac_max_be
  pub bw_high : q.bw_value < 16

pub length-clear_slots : (ps : List TschPacket) → length (clear_slots ps) ≡ length ps
length-clear_slots [] = refl
length-clear_slots (p ∷ ps) = ap suc (length-clear_slots ps)

pub renew-IsValid : (q : NeighborQueue) → length q.buffer ≡ nbr_buffer_size → IsValid (renew q)
unfolding renew
renew-IsValid q h = omega (arith, length-clear_slots q.buffer)

pub set_slot-IsValid :
    {q : NeighborQueue} (i : ℕ) (p : TschPacket) → IsValid q → IsValid (set_slot q i p)
set_slot-IsValid {q} i p v = omega (arith, v, length-set q.buffer i p)

pub add_packet-IsValid :
    {q : NeighborQueue} (pkt sent ptr : ℕ) → IsValid q → IsValid (add_packet pkt sent ptr q).0
unfolding add_packet
add_packet-IsValid {q} pkt sent ptr v =
    ground (arith, length-set q.buffer q.put_ptr (new_packet pkt sent ptr))

pub remove_packet-IsValid : {q : NeighborQueue} → IsValid q → IsValid (remove_packet q).0
unfolding remove_packet
remove_packet-IsValid v = ground arith

-- The slot that is read lies in the buffer.
pub read_packet_in :
    {q : NeighborQueue} {i : ℕ} → IsValid q → read_packet q ≡ some i → i < nbr_buffer_size
unfolding read_packet
read_packet_in v h = ground arith

pub read_packet_head :
    (q : NeighborQueue) (i : ℕ) → read_packet q ≡ some i → (i ≡ q.get_ptr) × (0 < count q)
unfolding read_packet
read_packet_head q i h = ground arith

-- What is read depends on the indices alone.
pub read_packet_eq :
    (q r : NeighborQueue)
    → q.put_ptr ≡ r.put_ptr
    → q.get_ptr ≡ r.get_ptr
    → read_packet q ≡ read_packet r
unfolding read_packet
read_packet_eq q r e f = rw (e, f)

-- The pointer that is freed stays in the buffer.
pub remove_packet_head :
    (q : NeighborQueue)
    → 0 < count q
    → ((remove_packet q).1 ≡ some (slot q q.get_ptr).pkt) × ((remove_packet q).0.buffer ≡ q.buffer)
unfolding remove_packet
remove_packet_head q h = (ground arith, ground arith)

-- A removal from a queue that is not empty moves the head on, and does nothing else.
pub remove_packet_of_pos :
    (q : NeighborQueue)
    → 0 < count q
    → (remove_packet q).0 ≡ record q { get_ptr = next_index q.get_ptr }
unfolding remove_packet
remove_packet_of_pos q h = ground (arith, h)
