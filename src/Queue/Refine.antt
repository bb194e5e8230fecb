-- ===== src/Queue/Refine.antt =====
-- A neighbor's circular buffer of tsch.c behaves as a bounded FIFO of packets. One slot of the
-- buffer stays free, so the FIFO holds NBR_BUFFER_SIZE - 1 packets.
use tsch_minimum.Prelude.{
  ℕ, zero, suc, ◌+◌, ◌-◌, ◌%◌, ◌<◌, ◌≤◌, ◌≡◌, refl, ap, none, some, List, [], ◌∷◌, ◌++◌, arith,
  length, get_or, set, ◌==◌, if◌then◌else◌,
}
use tsch_minimum.Queue.{
  TschPacket, NeighborQueue, set_slot, nbr_buffer_size, no_packet, new_packet, slot, count,
  next_index, add_packet, remove_packet, read_packet, renew,
}
use tsch_minimum.Queue.Inv.{IsValid}
use tsch_minimum.Queue.Fifo
use tsch_minimum.Queue.Fifo.{Fifo}

-- The `n` packets from index `g` on, going round.
abbrev pub window : List TschPacket → ℕ → ℕ → Fifo
window b g zero = []
window b g (suc n) = get_or b g no_packet ∷ window b (next_index g) n

abbrev pub contents : NeighborQueue → Fifo
contents q = window q.buffer q.get_ptr (count q)

pub length-window : (b : List TschPacket) (g n : ℕ) → length (window b g n) ≡ n
length-window b g zero = refl
length-window b g (suc n) = ap suc (length-window b (next_index g) n)

pub get_or-set :
    (b : List TschPacket) (i j : ℕ) (x d : TschPacket)
    → i < length b
    → get_or (set b i x) j d ≡ (if i == j then x else get_or b j d)
get_or-set [] i j x d h = absurd (omega arith)
get_or-set (y ∷ b) zero zero x d h = refl
get_or-set (y ∷ b) zero (suc j) x d h = ground arith
get_or-set (y ∷ b) (suc i) zero x d h = ground arith
get_or-set (y ∷ b) (suc i) (suc j) x d h = ground (arith, get_or-set b i j x d)

-- Writing just past a window of at most three packets extends it by the packet written.
window-set :
    (b : List TschPacket) (x : TschPacket) (n g i : ℕ)
    → length b ≡ nbr_buffer_size
    → g < nbr_buffer_size
    → n < nbr_buffer_size
    → i ≡ (g + n) % nbr_buffer_size
    → window (set b i x) g (suc n) ≡ window b g n ++ (x ∷ [])
window-set b x zero g i hb hg hn e = ground (arith, get_or-set b i g x no_packet)
window-set b x (suc n) g i hb hg hn e =
    ground (arith, get_or-set b i g x no_packet, window-set b x n (next_index g) i)

window_of_pos :
    (b : List TschPacket) (g n : ℕ)
    → 0 < n
    → window b g n ≡ get_or b g no_packet ∷ window b (next_index g) (n - 1)
window_of_pos b g zero h = elim h [ ]
window_of_pos b g (suc n) h = ap (λ k. window b g (suc k)) (omega arith)

-- `add_packet_to_queue` on a valid queue is `add` of the FIFO that it holds.
pub add_packet_refines :
    {q : NeighborQueue} (pkt sent ptr : ℕ)
    → IsValid q
    → let (q', r) = add_packet pkt sent ptr q in
      (contents q', r) ≡ Fifo.add (new_packet pkt sent ptr) (contents q)
unfolding add_packet Fifo.add
add_packet_refines {q} pkt sent ptr v = ground (
  arith,
  length-window q.buffer q.get_ptr (count q),
  window-set q.buffer (new_packet pkt sent ptr) (count q) q.get_ptr q.put_ptr,
)

-- `remove_packet_from_queue` on a valid queue is `remove`.
pub remove_packet_refines :
    {q : NeighborQueue}
    → IsValid q
    → let (q', r) = remove_packet q in (contents q', r) ≡ Fifo.remove (contents q)
unfolding remove_packet Fifo.remove
remove_packet_refines {q} v = ground (arith, window_of_pos q.buffer q.get_ptr (count q))

-- `read_packet_from_neighbor_queue` on a valid queue points to the packet at the head.
pub read_packet_refines :
    {q : NeighborQueue}
    → IsValid q
    → (elim (read_packet q) [ none ↦ none | some i ↦ some (slot q i) ]) ≡ Fifo.head (contents q)
unfolding read_packet Fifo.head
read_packet_refines {q} v = ground (arith, window_of_pos q.buffer q.get_ptr (count q))

-- A write outside of a window leaves it alone.
window-set_out :
    (b : List TschPacket) (x : TschPacket) (n g i : ℕ)
    → length b ≡ nbr_buffer_size
    → g < nbr_buffer_size
    → i < nbr_buffer_size
    → n ≤ (i + nbr_buffer_size - g) % nbr_buffer_size
    → window (set b i x) g n ≡ window b g n
window-set_out b x zero g i hb hg hi out = refl
window-set_out b x (suc n) g i hb hg hi out =
    ground (arith, get_or-set b i g x no_packet, window-set_out b x n (next_index g) i)

-- A write to the slot at the head changes the oldest packet.
pub contents-set_head :
    {q : NeighborQueue} (x : TschPacket)
    → IsValid q
    → 0 < count q
    → contents (set_slot q q.get_ptr x) ≡ x ∷ contents (remove_packet q).0
unfolding remove_packet
contents-set_head {q} x v h = ground (
  arith,
  window_of_pos (set q.buffer q.get_ptr x) q.get_ptr (count q),
  get_or-set q.buffer q.get_ptr q.get_ptr x no_packet,
  window-set_out q.buffer x (count q - 1) (next_index q.get_ptr) q.get_ptr,
)

-- The slot of a packet that was removed is not part of the queue.
pub contents-set_removed :
    {q : NeighborQueue} (x : TschPacket)
    → IsValid q
    → 0 < count q
    → contents (set_slot (remove_packet q).0 q.get_ptr x) ≡ contents (remove_packet q).0
unfolding remove_packet
contents-set_removed {q} x v h =
    ground (arith, window-set_out q.buffer x (count q - 1) (next_index q.get_ptr) q.get_ptr)

pub contents-remove-set_slot :
    {q : NeighborQueue} (x : TschPacket)
    → IsValid q
    → 0 < count q
    → contents (remove_packet (set_slot q q.get_ptr x)).0 ≡ contents (remove_packet q).0
unfolding remove_packet
contents-remove-set_slot {q} x v h =
    ground (arith, window-set_out q.buffer x (count q - 1) (next_index q.get_ptr) q.get_ptr)

-- The packets of a queue that is not empty: the one at its head, and the rest.
pub contents_of_pos :
    {q : NeighborQueue}
    → IsValid q
    → 0 < count q
    → contents q ≡ slot q q.get_ptr ∷ contents (remove_packet q).0
unfolding remove_packet
contents_of_pos {q} v h = ground (arith, window_of_pos q.buffer q.get_ptr (count q))

pub slot-set_slot :
    {q : NeighborQueue} (x : TschPacket) → IsValid q → slot (set_slot q q.get_ptr x) q.get_ptr ≡ x
slot-set_slot {q} x v = ground (arith, get_or-set q.buffer q.get_ptr q.get_ptr x no_packet)

pub contents-renew : (q : NeighborQueue) → contents (renew q) ≡ []
unfolding renew
contents-renew q = refl
