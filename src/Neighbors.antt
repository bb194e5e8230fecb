-- ===== src/Neighbors.antt =====
-- The neighbor queues of tsch.c: the functions that find a neighbor by its address and work on its
-- queue. Queue.antt has what they do to the queue itself.

pub mod Inv
pub mod Fifos
pub mod Refine
pub mod Same
pub mod Frees
pub mod Head
pub mod Addressed
pub mod Receivers
use tsch_minimum.Prelude.{ℕ, Option, none, some, List, [], ◌∷◌, ◌==◌, if◌then◌else◌}
use tsch_minimum.Contiki.{Contiki, Addr}
use tsch_minimum.Queue.{
  TschPacket, NeighborQueue, slot, renew, add_packet, remove_packet, read_packet,
}

-- The table, the memory of its entries by their pointers, the flag that guards them, and the
-- pointers that `queuebuf_free` was called with, the latest first.
pub record Net (os : Contiki) : Type 0 where
  pub table : os.Table
  pub queue_of : ℕ → NeighborQueue
  pub working_on_queue : ℕ
  pub frees : List ℕ

-- A pointer to a packet: the entry and the index of the slot.
abbrev pub PacketRef : Type 0
PacketRef = ℕ × ℕ

abbrev pub update {ℓ} : {A : Type ℓ} → (ℕ → A) → ℕ → A → ℕ → A
update f i a j = if i == j then a else f j

abbrev pub push_free : Option ℕ → List ℕ → List ℕ
push_free none fs = fs
push_free (some p) fs = p ∷ fs

-- The loop of `remove_queue`: `queuebuf_free` on each slot's pointer, in order.
abbrev pub free_slots : List TschPacket → List ℕ → List ℕ
free_slots [] fs = fs
free_slots (p ∷ ps) fs = free_slots ps (p.pkt ∷ fs)

module _ (os : Contiki) where
  open os use {nbr_table_get_from_lladdr, nbr_table_add_lladdr, nbr_table_remove}

  abbrev pub set_queue : Net os → ℕ → NeighborQueue → Net os
  set_queue s i q = record s { queue_of = update s.queue_of i q }

  abbrev pub set_working : ℕ → Net os → Net os
  set_working w s = record s { working_on_queue = w }

  unfoldable pub neighbor_queue_from_addr : Net os → Addr → Option ℕ
  neighbor_queue_from_addr s addr = nbr_table_get_from_lladdr s.table addr

  -- The entry that is renewed: the one found, or else the one that the table allocates.
  find_or_add : Net os → Addr → Option ℕ → Net os × Option ℕ
  find_or_add s addr (some i) = (s, some i)
  find_or_add s addr none =
      let (t, r) = nbr_table_add_lladdr s.table addr in (record s { table = t }, r)

  init_entry : Net os → Option ℕ → Net os × Option ℕ
  init_entry s none = (s, none)
  init_entry s (some i) = (set_queue s i (renew (s.queue_of i)), some i)

  pub add_queue : Net os → Addr → Net os × Option ℕ
  unfolding find_or_add init_entry neighbor_queue_from_addr
  add_queue s₀ addr =
      let s = set_working 1 s₀ in
      let (s₁, r) = find_or_add s addr (neighbor_queue_from_addr s addr) in
      let (s₂, r') = init_entry s₁ r in (set_working 0 s₂, r')

  remove_entry : Net os → Option ℕ → Net os × ℕ
  remove_entry s none = (s, 0)
  remove_entry s (some i) = (
    record s {
      table = nbr_table_remove s.table i;
      frees = free_slots (s.queue_of i).buffer s.frees;
    },
    1,
  )

  pub remove_queue : Net os → Addr → Net os × ℕ
  unfolding remove_entry neighbor_queue_from_addr
  remove_queue s₀ addr =
      let s = set_working 1 s₀ in
      let (s₁, r) = remove_entry s (neighbor_queue_from_addr s addr) in (set_working 0 s₁, r)

  add_packet_at : Net os → ℕ → ℕ → ℕ → Option ℕ → Net os × ℕ
  add_packet_at s pkt sent ptr none = (s, 0)
  add_packet_at s pkt sent ptr (some i) =
      let (q, r) = add_packet pkt sent ptr (s.queue_of i) in (set_queue s i q, r)

  -- `pkt` is what `queuebuf_new_from_packetbuf` returns if it is called.
  unfoldable pub add_packet_to_queue : Net os → ℕ → ℕ → ℕ → Addr → Net os × ℕ
  unfolding add_packet_at neighbor_queue_from_addr
  add_packet_to_queue s pkt sent ptr addr =
      add_packet_at s pkt sent ptr (neighbor_queue_from_addr s addr)

  freed : Option ℕ → ℕ
  freed none = 0
  freed (some p) = 1

  remove_packet_at : Net os → Option ℕ → Net os × ℕ
  unfolding freed
  remove_packet_at s none = (s, 0)
  remove_packet_at s (some i) =
      let (q, f) = remove_packet (s.queue_of i) in
      (record (set_queue s i q) { frees = push_free f s.frees }, freed f)

  pub remove_packet_from_queue : Net os → Addr → Net os × ℕ
  unfolding remove_packet_at neighbor_queue_from_addr
  remove_packet_from_queue s addr = remove_packet_at s (neighbor_queue_from_addr s addr)

  unfoldable pub read_packet_from_neighbor_queue : Net os → Option ℕ → Option PacketRef
  read_packet_from_neighbor_queue s none = none
  read_packet_from_neighbor_queue s (some i) = elim (read_packet (s.queue_of i)) [
    | none ↦ none
    | some k ↦ some (i, k)
  ]

  unfoldable pub read_packet_from_queue : Net os → Addr → Option PacketRef
  unfolding read_packet_from_neighbor_queue neighbor_queue_from_addr
  read_packet_from_queue s addr =
      read_packet_from_neighbor_queue s (neighbor_queue_from_addr s addr)

  -- `*p` and an assignment through `p`.
  abbrev pub deref : Net os → PacketRef → TschPacket
  deref s (i, k) = slot (s.queue_of i) k
