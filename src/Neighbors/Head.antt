-- ===== src/Neighbors/Head.antt =====
-- The packet at the head of a neighbor's queue of tsch.c while packets are added, to this queue or
-- to another one.
use mathlib.Core.Path.{subst}
use mathlib.Core.Option.{some-injective}
use tsch_minimum.Prelude.{
  ℕ, ◌≡◌, refl, ap, ◌∙◌, Option, none, some, inl, inr, arith, ◌==◌, ==_iff, Option-cases,
  Bool-cases,
}
use tsch_minimum.Contiki.{Contiki, Addr}
use tsch_minimum.Queue.{NeighborQueue, slot, no_packet, new_packet, add_packet, read_packet}
use tsch_minimum.Queue.Inv.{IsValid}
use tsch_minimum.Queue.Refine.{get_or-set}
use tsch_minimum.Neighbors.{
  Net, PacketRef, set_queue, deref, neighbor_queue_from_addr, add_packet_at, add_packet_to_queue,
  read_packet_from_queue, read_packet_from_neighbor_queue,
}
use tsch_minimum.Neighbors.Inv.{IsSound}

head-add :
    {q : NeighborQueue} (pkt sent ptr k : ℕ)
    → IsValid q
    → read_packet q ≡ some k
    → (read_packet (add_packet pkt sent ptr q).0 ≡ some k)
      × (slot (add_packet pkt sent ptr q).0 k ≡ slot q k)
unfolding add_packet read_packet
head-add {q} pkt sent ptr k v h = (
  ground (arith, h),
  ground (arith, h, get_or-set q.buffer q.put_ptr k (new_packet pkt sent ptr) no_packet),
)

module _ (os : Contiki) where
  -- The entry `j` still has the packet `p` at the head of its queue.
  abbrev Keeps : Net os → Net os → ℕ → PacketRef → Type 0
  Keeps s s' j p =
      (read_packet_from_neighbor_queue os s' (some j) ≡ some p) × (deref os s' p ≡ deref os s p)

  head_at_index :
      (s : Net os) (pkt sent ptr b j k : ℕ)
      → IsValid (s.queue_of b)
      → read_packet (s.queue_of j) ≡ some k
      → Keeps s (set_queue os s b (add_packet pkt sent ptr (s.queue_of b)).0) j (j, k)
  unfolding read_packet_from_neighbor_queue
  head_at_index s pkt sent ptr b j k valid found = elim (Bool-cases (b == j)) [
    | inl same ↦
        let h = head-add pkt sent ptr k valid (rw ((==_iff b j).0 same) found) in
        rw (read_packet_from_neighbor_queue, same, h.0)
          (refl, h.1 ∙ ap (λ i. slot (s.queue_of i) k) ((==_iff b j).0 same))
    | inr other ↦ rw (read_packet_from_neighbor_queue, other, found) (refl, refl)
  ]

  head_at :
      (s : Net os) (p : PacketRef) (pkt sent ptr b j : ℕ)
      → IsValid (s.queue_of b)
      → read_packet_from_neighbor_queue os s (some j) ≡ some p
      → Keeps s (set_queue os s b (add_packet pkt sent ptr (s.queue_of b)).0) j p
  unfolding read_packet_from_neighbor_queue
  head_at s p pkt sent ptr b j valid e = elim (Option-cases (read_packet (s.queue_of j))) [
    | inl nothing ↦ absurd (ground (arith, nothing, e))
    | inr (k, found) ↦
        let at_p : (j, k) ≡ p =
          some-injective _ _ (rw (read_packet_from_neighbor_queue, found) at e) in
        subst (Keeps s (set_queue os s b (add_packet pkt sent ptr (s.queue_of b)).0) j) at_p
          (head_at_index s pkt sent ptr b j k valid found)
  ]

  head_at_or_none :
      (s : Net os) (a : Addr) (p : PacketRef) (pkt sent ptr : ℕ) (o : Option ℕ)
      → ((b : ℕ) → o ≡ some b → IsValid (s.queue_of b))
      → read_packet_from_queue os s a ≡ some p
      → let s' = (add_packet_at os s pkt sent ptr o).0 in
        (read_packet_from_queue os s' a ≡ some p) × (deref os s' p ≡ deref os s p)
  unfolding add_packet_at read_packet_from_queue neighbor_queue_from_addr
      read_packet_from_neighbor_queue
  head_at_or_none s a p pkt sent ptr none valid e = (e, refl)
  head_at_or_none s a p pkt sent ptr (some b) valid e =
      elim (Option-cases (neighbor_queue_from_addr os s a)) [
        | inl missing ↦ absurd (ground (arith, missing, e))
        | inr (j, found) ↦ rw found (head_at s p pkt sent ptr b j (valid b refl) (rw found at e))
      ]

  added_at-table :
      (s : Net os) (pkt sent ptr : ℕ) (o : Option ℕ)
      → (add_packet_at os s pkt sent ptr o).0.table ≡ s.table
  unfolding add_packet_at
  added_at-table s pkt sent ptr none = refl
  added_at-table s pkt sent ptr (some i) = refl

  -- Adding a packet to any queue leaves the packet at the head of a queue there.
  pub add-head :
      (s : Net os) (a : Addr) (p : PacketRef) (pkt sent ptr : ℕ) (b : Addr)
      → IsSound os s
      → read_packet_from_queue os s a ≡ some p
      → let s' = (add_packet_to_queue os s pkt sent ptr b).0 in
        (read_packet_from_queue os s' a ≡ some p) × (deref os s' p ≡ deref os s p)
  unfolding add_packet_to_queue
  add-head s a p pkt sent ptr b h e = head_at_or_none s a p pkt sent ptr _ (h.valid b) e

  pub add-table :
      (s : Net os) (pkt sent ptr : ℕ) (a : Addr)
      → (add_packet_to_queue os s pkt sent ptr a).0.table ≡ s.table
  unfolding add_packet_to_queue
  add-table s pkt sent ptr a = added_at-table s pkt sent ptr (neighbor_queue_from_addr os s a)
