-- ===== src/Neighbors/Frees.antt =====
-- Which queuebufs the queue functions of tsch.c free.
use tsch_minimum.Prelude.{
  ℕ, zero, suc, ◌+◌, ◌≡◌, ◌<◌, ◌≤◌, refl, some, List, [], ◌∷◌, ◌==◌, ==_iff, if◌then◌else◌, arith,
  length, get_or,
}
use tsch_minimum.Contiki.{Contiki, Addr}
use tsch_minimum.Queue.{TschPacket, slot, no_packet, count}
use tsch_minimum.Queue.Inv.{remove_packet_head}
use tsch_minimum.Neighbors.{
  Net, free_slots, neighbor_queue_from_addr, remove_packet_from_queue, remove_packet_at,
  remove_queue, remove_entry,
}
use tsch_minimum.Neighbors.Inv.{IsSound}

-- How often a pointer was freed.
abbrev pub times_freed : ℕ → List ℕ → ℕ
times_freed p [] = 0
times_freed p (q ∷ qs) = if q == p then times_freed p qs + 1 else times_freed p qs

free_slots_more :
    (ps : List TschPacket) (fs : List ℕ) (p : ℕ)
    → times_freed p fs ≤ times_freed p (free_slots ps fs)
free_slots_more [] fs p = omega arith
free_slots_more (x ∷ xs) fs p = ground (arith, free_slots_more xs (x.pkt ∷ fs) p)

free_slots_once :
    (ps : List TschPacket) (fs : List ℕ) (i : ℕ)
    → i < length ps
    → times_freed (get_or ps i no_packet).pkt fs + 1
      ≤ times_freed (get_or ps i no_packet).pkt (free_slots ps fs)
free_slots_once [] fs i h = absurd (omega arith)
free_slots_once (x ∷ xs) fs zero h = ground (arith, free_slots_more xs (x.pkt ∷ fs) x.pkt)
free_slots_once (x ∷ xs) fs (suc i) h =
    ground (arith, free_slots_once xs (x.pkt ∷ fs) i (omega arith))

module _ (os : Contiki) where
  freed_log :
      (s : Net os) (a : Addr) (i : ℕ)
      → neighbor_queue_from_addr os s a ≡ some i
      → 0 < count (s.queue_of i)
      → (remove_queue os (remove_packet_from_queue os s a).0 a).0.frees
        ≡ free_slots
            (s.queue_of i).buffer
            ((slot (s.queue_of i) (s.queue_of i).get_ptr).pkt ∷ s.frees)
  unfolding remove_queue remove_entry remove_packet_from_queue remove_packet_at
      neighbor_queue_from_addr
  freed_log s a i e pos =
      ground (arith, e, remove_packet_head (s.queue_of i) pos, (==_iff i i).1 refl)

  -- Removing the packet at the head of a queue of sound queues and then the queue frees the
  -- packet's queuebuf twice: the slot keeps the pointer that was freed.
  pub freed_twice :
      (s : Net os) (a : Addr) (i : ℕ)
      → IsSound os s
      → neighbor_queue_from_addr os s a ≡ some i
      → 0 < count (s.queue_of i)
      → let p = (slot (s.queue_of i) (s.queue_of i).get_ptr).pkt in
        times_freed p s.frees + 2
        ≤ times_freed p (remove_queue os (remove_packet_from_queue os s a).0 a).0.frees
  freed_twice s a i h e pos =
      let q = s.queue_of i in
      let v = h.valid a i e in
      rw (freed_log s a i e pos) (
        ground (
          arith,
          free_slots_once q.buffer ((slot q q.get_ptr).pkt ∷ s.frees) q.get_ptr (omega (arith, v)),
        ))
