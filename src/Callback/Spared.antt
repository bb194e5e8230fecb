-- ===== src/Callback/Spared.antt =====
-- The slot of a packet that was posted to `tsch_tx_callback_process` of tsch.c: where it lies in the
-- ring of its neighbor, and that packets which are added do not get it.
use mathlib.Core.Path.{subst}
use tsch_minimum.Prelude.{
  ℕ, ◌+◌, ◌-◌, ◌%◌, ◌<◌, ◌≡◌, ◌⊎◌, sym, ap, ◌∙◌, [], ◌∷◌, inl, inr, arith, ◌==◌, ==_iff, Bool-cases,
  Option-cases, length,
}
use tsch_minimum.Contiki.{Contiki, Addr}
use tsch_minimum.Queue.{
  NeighborQueue, TschPacket, nbr_buffer_size, no_packet, new_packet, slot, count, add_packet,
}
use tsch_minimum.Queue.Inv.{IsValid, add_packet-IsValid}
use tsch_minimum.Queue.Refine.{get_or-set}
use tsch_minimum.Neighbors.{
  Net, PacketRef, deref, set_queue, neighbor_queue_from_addr, add_packet_to_queue,
}
use tsch_minimum.Neighbors.Inv.{IsSound, add_packet_to_queue-IsSound}
use tsch_minimum.Callback.{Adds, add_all}

-- How far the slot `k` lies from the head of the ring.
abbrev pub place : NeighborQueue → ℕ → ℕ
place q k = (k + nbr_buffer_size - q.get_ptr) % nbr_buffer_size

-- The slot holds a packet that waits, or it is the one just before the head, which was the head
-- before.
abbrev pub IsSpared : NeighborQueue → ℕ → Type 0
IsSpared q k = (k < nbr_buffer_size) × ((place q k ≡ 3) ⊎ (place q k < count q))

pub add-IsSpared :
    {q : NeighborQueue} (pkt sent ptr k : ℕ)
    → IsValid q
    → IsSpared q k
    → IsSpared (add_packet pkt sent ptr q).0 k × (slot (add_packet pkt sent ptr q).0 k ≡ slot q k)
unfolding add_packet
add-IsSpared {q} pkt sent ptr k v (low, inl before) = (
  ground (arith, before),
  ground (arith, before, get_or-set q.buffer q.put_ptr k (new_packet pkt sent ptr) no_packet),
)
add-IsSpared {q} pkt sent ptr k v (low, inr inside) = (
  ground (arith, inside),
  ground (arith, inside, get_or-set q.buffer q.put_ptr k (new_packet pkt sent ptr) no_packet),
)

module _ (os : Contiki) where
  -- The slot `p` is such a one, and `t` is what it holds.
  pub record IsSafe (s : Net os) (p : PacketRef) (t : TschPacket) : Type 0 where
    pub sized : length (s.queue_of p.0).buffer ≡ nbr_buffer_size
    pub spared : IsSpared (s.queue_of p.0) p.1
    pub holds : deref os s p ≡ t

  added-IsSafe :
      (s : Net os) (i k : ℕ) (t : TschPacket) (pkt sent ptr j : ℕ)
      → IsValid (s.queue_of j)
      → IsSafe s (i, k) t
      → IsSafe (set_queue os s j (add_packet pkt sent ptr (s.queue_of j)).0) (i, k) t
  added-IsSafe s i k t pkt sent ptr j v h = elim (Bool-cases (j == i)) [
    | inl same ↦
        let here = subst (λ q. IsSpared q k) (ap s.queue_of (sym ((==_iff j i).0 same))) h.spared in
        let l = add-IsSpared pkt sent ptr k v here in
        record {
          sized = rw same (add_packet-IsValid pkt sent ptr v).slots;
          spared = rw same l.0;
          holds = rw same (l.1 ∙ ap (λ i. slot (s.queue_of i) k) ((==_iff j i).0 same) ∙ h.holds);
        }
    | inr other ↦ record {
      sized = rw other h.sized;
      spared = rw other h.spared;
      holds = rw other h.holds;
    }
  ]

  add-IsSafe :
      (s : Net os) (p : PacketRef) (t : TschPacket) (pkt sent ptr : ℕ) (b : Addr)
      → IsSound os s
      → IsSafe s p t
      → IsSafe (add_packet_to_queue os s pkt sent ptr b).0 p t
  unfolding add_packet_to_queue
  add-IsSafe s (i, k) t pkt sent ptr b sound h =
      elim (Option-cases (neighbor_queue_from_addr os s b)) [
        | inl missing ↦ rw missing h
        | inr (j, found) ↦ rw found (added-IsSafe s i k t pkt sent ptr j (sound.valid b j found) h)
      ]

  pub add_all-IsSafe :
      (ps : Adds) (s : Net os) (p : PacketRef) (t : TschPacket)
      → IsSound os s
      → IsSafe s p t
      → IsSafe (add_all os ps s) p t
  unfolding add_all
  add_all-IsSafe [] s p t sound h = h
  add_all-IsSafe ((pkt, sent, ptr, b) ∷ ps) s p t sound h =
      add_all-IsSafe ps (add_packet_to_queue os s pkt sent ptr b).0 p t
        (add_packet_to_queue-IsSound os s pkt sent ptr b sound)
        (add-IsSafe s p t pkt sent ptr b sound h)
