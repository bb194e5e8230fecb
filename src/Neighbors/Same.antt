-- ===== src/Neighbors/Same.antt =====
-- States of the neighbor queues of tsch.c that hold the same packets: the backoff fields may differ.
use mathlib.Core.Path.{fun_ext}
use tsch_minimum.Prelude.{
  ℕ, ◌<◌, ◌≡◌, refl, ap, ◌∙◌, Option, none, some, inl, inr, arith, ◌==◌, ==_iff, Option-cases,
  Bool-cases,
}
use tsch_minimum.Contiki.{Contiki, Addr}
use tsch_minimum.Queue.{TschPacket, NeighborQueue, set_slot, count, remove_packet, read_packet}
use tsch_minimum.Queue.Inv.{read_packet_head, read_packet_eq}
use tsch_minimum.Queue.Refine.{contents}
use tsch_minimum.Neighbors.{
  Net, PacketRef, set_queue, update, neighbor_queue_from_addr, remove_packet_from_queue,
  remove_packet_at, read_packet_from_queue, read_packet_from_neighbor_queue,
}
use tsch_minimum.Neighbors.Refine.{view}

pub record SameRing (q r : NeighborQueue) : Type 0 where
  pub same_buffer : q.buffer ≡ r.buffer
  pub same_put : q.put_ptr ≡ r.put_ptr
  pub same_get : q.get_ptr ≡ r.get_ptr

pub SameRing-contents : {q r : NeighborQueue} → SameRing q r → contents q ≡ contents r
SameRing-contents h = rw (h.same_buffer, h.same_put, h.same_get)

pub SameRing-set_slot :
    {q r : NeighborQueue} (k : ℕ) (x : TschPacket)
    → SameRing q r
    → SameRing (set_slot q k x) (set_slot r k x)
SameRing-set_slot k x h = record {
  same_buffer = rw h.same_buffer;
  same_put = h.same_put;
  same_get = h.same_get;
}

pub SameRing-refl : (q : NeighborQueue) → SameRing q q
SameRing-refl q = record { same_buffer = refl; same_put = refl; same_get = refl }

pub SameRing-trans : {q r t : NeighborQueue} → SameRing q r → SameRing r t → SameRing q t
SameRing-trans h k = record {
  same_buffer = h.same_buffer ∙ k.same_buffer;
  same_put = h.same_put ∙ k.same_put;
  same_get = h.same_get ∙ k.same_get;
}

pub record SameNet (os : Contiki) (s t : Net os) : Type 0 where
  pub same_table : s.table ≡ t.table
  pub same_rings : (j : ℕ) → SameRing (s.queue_of j) (t.queue_of j)

module _ (os : Contiki) where
  pub SameNet-refl : (s : Net os) → SameNet os s s
  SameNet-refl s = record { same_table = refl; same_rings = λ j. SameRing-refl (s.queue_of j) }

  pub SameNet-trans : {s t u : Net os} → SameNet os s t → SameNet os t u → SameNet os s u
  SameNet-trans h k = record {
    same_table = h.same_table ∙ k.same_table;
    same_rings = λ j. SameRing-trans (h.same_rings j) (k.same_rings j);
  }

  pub SameNet-set_queue :
      (s : Net os) (n : ℕ) (q : NeighborQueue)
      → SameRing q (s.queue_of n)
      → SameNet os (set_queue os s n q) s
  SameNet-set_queue s n q h = record {
    same_table = refl;
    same_rings = λ j. elim (Bool-cases (n == j)) [
      | inl eq ↦ rw (eq, ← (==_iff n j).0 eq) h
      | inr ne ↦ rw ne (SameRing-refl (s.queue_of j))
    ];
  }

  -- The queues may be told apart by their contents alone.
  pub view_eq :
      (s t : Net os)
      → s.table ≡ t.table
      → ((j : ℕ) → contents (s.queue_of j) ≡ contents (t.queue_of j))
      → view os s ≡ view os t
  unfolding neighbor_queue_from_addr
  view_eq s t e h = fun_ext λ a. elim (Option-cases (os.nbr_table_get_from_lladdr t.table a)) [
    | inl missing ↦ rw (e, missing)
    | inr (j, found) ↦ rw (e, found) (ap some (h j))
  ]

  pub view-SameNet : {s t : Net os} → SameNet os s t → view os s ≡ view os t
  view-SameNet h = view_eq _ _ h.same_table (λ j. SameRing-contents (h.same_rings j))

  -- What `remove_packet_from_queue` does to the memory, for an address that has an entry.
  pub remove_at :
      (s : Net os) (a : Addr) (i : ℕ)
      → neighbor_queue_from_addr os s a ≡ some i
      → ((remove_packet_from_queue os s a).0.table ≡ s.table)
        × ((remove_packet_from_queue os s a).0.queue_of
            ≡ update s.queue_of i (remove_packet (s.queue_of i)).0)
  unfolding remove_packet_from_queue
  remove_at s a i e = rw (e, remove_packet_at) (refl, refl)

  pub remove_missing :
      (s : Net os) (a : Addr)
      → neighbor_queue_from_addr os s a ≡ none
      → (remove_packet_from_queue os s a).0 ≡ s
  unfolding remove_packet_from_queue
  remove_missing s a e = rw (e, remove_packet_at) refl

  pub remove-table : (s : Net os) (a : Addr) → (remove_packet_from_queue os s a).0.table ≡ s.table
  unfolding remove_packet_from_queue
  remove-table s a = elim (Option-cases (neighbor_queue_from_addr os s a)) [
    | inl e ↦ rw (e, remove_packet_at) refl
    | inr (i, e) ↦ (remove_at s a i e).0
  ]

  pub entry-set_queue :
      (s : Net os) (a : Addr) (i : ℕ) (q : NeighborQueue)
      → neighbor_queue_from_addr os (set_queue os s i q) a ≡ neighbor_queue_from_addr os s a
  unfolding neighbor_queue_from_addr
  entry-set_queue s a i q = refl

  -- What stands at the head of an entry's queue, if something does.
  abbrev IsHead : Net os → Option ℕ → PacketRef → Type 0
  IsHead s o p = (o ≡ some p.0) × (p.1 ≡ (s.queue_of p.0).get_ptr) × (0 < count (s.queue_of p.0))

  read_entry :
      (s : Net os) (o : Option ℕ) (p : PacketRef)
      → read_packet_from_neighbor_queue os s o ≡ some p
      → IsHead s o p
  unfolding read_packet_from_neighbor_queue
  read_entry s none p h = cc
  read_entry s (some i) p h = elim (Option-cases (read_packet (s.queue_of i))) [
    | inl e ↦ absurd (ground arith)
    | inr (k, e) ↦ ground (arith, read_packet_head (s.queue_of i) k e)
  ]

  -- The packet that `read_packet_from_queue` finds is at the head of a queue that is not empty.
  pub read_at :
      (s : Net os) (a : Addr) (p : PacketRef)
      → read_packet_from_queue os s a ≡ some p
      → (neighbor_queue_from_addr os s a ≡ some p.0)
        × (p.1 ≡ (s.queue_of p.0).get_ptr)
        × (0 < count (s.queue_of p.0))
  unfolding read_packet_from_queue
  read_at s a p h = read_entry s (neighbor_queue_from_addr os s a) p h

  pub read-SameNet :
      (s t : Net os) (i : ℕ)
      → SameNet os s t
      → read_packet_from_neighbor_queue os s (some i)
        ≡ read_packet_from_neighbor_queue os t (some i)
  unfolding read_packet_from_neighbor_queue
  read-SameNet s t i h = rw (
    read_packet_from_neighbor_queue,
    read_packet_eq (s.queue_of i) (t.queue_of i) (h.same_rings i).same_put
        (h.same_rings i).same_get,
  )

  pub read_from-SameNet :
      (s t : Net os) (a : Addr)
      → SameNet os s t
      → read_packet_from_queue os s a ≡ read_packet_from_queue os t a
  unfolding read_packet_from_queue read_packet_from_neighbor_queue neighbor_queue_from_addr
  read_from-SameNet s t a h = elim (Option-cases (os.nbr_table_get_from_lladdr t.table a)) [
    | inl missing ↦ rw (h.same_table, missing) refl
    | inr (i, found) ↦ rw (h.same_table, found) (read-SameNet s t i h)
  ]
