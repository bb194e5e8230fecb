-- ===== src/Outcome/Safe.antt =====
-- The slot of the packet that powercycle of tsch.c has sent, through what it does with the result.
use mathlib.Core.Path.{subst}
use tsch_minimum.Prelude.{
  ℕ, ◌<◌, ◌≡◌, refl, sym, ap, ◌∙◌, Bool, true, ◌&&◌, not, inl, inr, arith, ◌==◌, ==_iff, Bool-cases,
  Option-cases, length, length-set, branch, get_or,
}
use tsch_minimum.Contiki.{Contiki, Addr}
use tsch_minimum.Params.{Cell, is_shared}
use tsch_minimum.Queue.{
  NeighborQueue, TschPacket, MacTx, nbr_buffer_size, mac_max_frame_retries, no_packet, slot,
  set_slot, count, next_index, remove_packet,
}
use tsch_minimum.Queue.Inv.{IsValid, set_slot-IsValid, remove_packet_of_pos}
use tsch_minimum.Queue.Refine.{get_or-set}
use tsch_minimum.Neighbors.{
  Net, PacketRef, deref, update, neighbor_queue_from_addr, remove_packet_from_queue,
  read_packet_from_queue,
}
use tsch_minimum.Neighbors.Same.{SameRing, remove_at, remove_missing}
use tsch_minimum.Outcome.{
  RadioTx, reset_backoff, clear_backoff, back_off, count_transmission, change_queue, change_packet,
  set_ret, remove_sent, give_up, failed, succeeded, handle, finish_tx,
}
use tsch_minimum.Outcome.Views.{clear_backoff-SameRing, back_off-SameRing, reset_backoff-SameRing}
use tsch_minimum.Outcome.Settle.{tried}
use tsch_minimum.Callback.Spared.{IsSpared, IsSafe}

-- The packet as it is reported: one more transmission after a failure, and the status.
abbrev pub reported : RadioTx → TschPacket → TschPacket
reported RadioTx.ok = set_ret MacTx.ok
reported RadioTx.other = set_ret MacTx.ok
reported RadioTx.noack = tried MacTx.noack
reported RadioTx.collision = tried MacTx.collision
reported RadioTx.err = tried MacTx.err

-- The head of a ring, before it is removed and after.
head-IsSpared : {q : NeighborQueue} (k : ℕ) → IsValid q → k ≡ q.get_ptr → 0 < count q → IsSpared q k
head-IsSpared k v e h = (omega (arith, v), inr (ground (arith, e, h)))

removed-IsSpared :
    {q : NeighborQueue} (k : ℕ)
    → IsValid q
    → k ≡ q.get_ptr
    → 0 < count q
    → IsSpared (remove_packet q).0 k
removed-IsSpared {q} k v e h =
    let after : IsSpared (record q { get_ptr = next_index q.get_ptr }) k =
      (omega (arith, v), inl (ground (arith, v, e))) in
    subst (λ r. IsSpared r k) (sym (remove_packet_of_pos q h)) after

-- Where a spared slot lies does not depend on the backoff fields.
ring-IsSpared : {q r : NeighborQueue} (k : ℕ) → SameRing q r → IsSpared r k → IsSpared q k
ring-IsSpared k e h = rw (e.same_get, e.same_put) h

module _ (os : Contiki) where
  -- `p` is at the head of its ring and holds `t`.
  pub record IsHead (s : Net os) (p : PacketRef) (t : TschPacket) : Type 0 where
    pub valid : IsValid (s.queue_of p.0)
    pub at_head : p.1 ≡ (s.queue_of p.0).get_ptr
    pub some_wait : 0 < count (s.queue_of p.0)
    pub holds : deref os s p ≡ t

  IsHead-IsSafe : {s : Net os} {p : PacketRef} {t : TschPacket} → IsHead s p t → IsSafe os s p t
  IsHead-IsSafe {s} {p} h = record {
    sized = h.valid.slots;
    spared = head-IsSpared p.1 h.valid h.at_head h.some_wait;
    holds = h.holds;
  }

  counted-IsHead :
      (s : Net os) (i k : ℕ) (t : TschPacket)
      → IsHead s (i, k) t
      → IsHead (change_packet os s (i, k) count_transmission) (i, k) (count_transmission t)
  counted-IsHead s i k t h =
      let x = count_transmission (deref os s (i, k)) in
      let written : slot (set_slot (s.queue_of i) k x) k ≡ x =
        ground (arith, get_or-set (s.queue_of i).buffer k k x no_packet, h.valid, h.at_head) in
      let self : (i == i) ≡ true = (==_iff i i).1 refl in
      record {
        valid = rw self (set_slot-IsValid k x h.valid);
        at_head = rw self h.at_head;
        some_wait = rw self h.some_wait;
        holds = rw self (written ∙ ap count_transmission h.holds);
      }

  -- Any slot of a safe packet may be written to.
  written-IsSafe :
      (s : Net os) (i k : ℕ) (t : TschPacket) (ret : MacTx)
      → IsSafe os s (i, k) t
      → IsSafe os (change_packet os s (i, k) (set_ret ret)) (i, k) (set_ret ret t)
  written-IsSafe s i k t ret h =
      let x = set_ret ret (deref os s (i, k)) in
      let self : (i == i) ≡ true = (==_iff i i).1 refl in
      let low : k < length (s.queue_of i).buffer = omega (arith, h.spared.0, h.sized) in
      let written : slot (set_slot (s.queue_of i) k x) k ≡ x =
        ground (arith, get_or-set (s.queue_of i).buffer k k x no_packet, low) in
      record {
        sized = rw self (length-set (s.queue_of i).buffer k x ∙ h.sized);
        spared = rw self h.spared;
        holds = rw self (written ∙ ap (set_ret ret) h.holds);
      }

  -- Backoff fields may change.
  backoff-IsSafe :
      (s : Net os) (p : PacketRef) (t : TschPacket) (n : ℕ) (f : NeighborQueue → NeighborQueue)
      → SameRing (f (s.queue_of n)) (s.queue_of n)
      → IsSafe os s p t
      → IsSafe os (change_queue os s n f) p t
  backoff-IsSafe s (i, k) t n f same h = elim (Bool-cases (n == i)) [
    | inl eq ↦
        let ring =
          subst (λ j. SameRing (f (s.queue_of n)) (s.queue_of j)) ((==_iff n i).0 eq) same in
        record {
          sized = rw eq (ap length ring.same_buffer ∙ h.sized);
          spared = rw eq (ring-IsSpared k ring h.spared);
          holds = rw eq (ap (λ b. get_or b k no_packet) ring.same_buffer ∙ h.holds);
        }
    | inr ne ↦ record { sized = rw ne h.sized; spared = rw ne h.spared; holds = rw ne h.holds }
  ]

  -- What holds of the queues as a function.
  by_queues :
      (s s' : Net os) (p : PacketRef) (t : TschPacket) (f : ℕ → NeighborQueue)
      → s'.queue_of ≡ f
      → IsSafe os (record s { queue_of = f }) p t
      → IsSafe os s' p t
  by_queues s s' p t f e h = record {
    sized = subst (λ g. length (g p.0).buffer ≡ nbr_buffer_size) (sym e) h.sized;
    spared = subst (λ g. IsSpared (g p.0) p.1) (sym e) h.spared;
    holds = ap (λ g. slot (g p.0) p.1) e ∙ h.holds;
  }

  removed_here :
      (s : Net os) (i k : ℕ) (t : TschPacket) (j : ℕ)
      → IsHead s (i, k) t
      → IsSafe os
          (record s { queue_of = update s.queue_of j (remove_packet (s.queue_of j)).0 })
          (i, k)
          t
  removed_here s i k t j h = elim (Bool-cases (j == i)) [
    | inl eq ↦
        let moved = remove_packet_of_pos (s.queue_of i) h.some_wait in
        let here : (remove_packet (s.queue_of j)).0
            ≡ record (s.queue_of i) { get_ptr = next_index (s.queue_of i).get_ptr } =
          ap (λ j. (remove_packet (s.queue_of j)).0) ((==_iff j i).0 eq) ∙ moved in
        record {
          sized = rw eq (ap (λ q. length q.buffer) here ∙ h.valid.slots);
          spared = rw eq (
              subst (λ j. IsSpared (remove_packet (s.queue_of j)).0 k) (sym ((==_iff j i).0 eq))
                (removed-IsSpared k h.valid h.at_head h.some_wait));
          holds = rw eq (ap (λ q. slot q k) here ∙ h.holds);
        }
    | inr ne ↦
        let safe = IsHead-IsSafe h in
        record { sized = rw ne safe.sized; spared = rw ne safe.spared; holds = rw ne safe.holds }
  ]

  removed-IsSafe :
      (s : Net os) (p : PacketRef) (t : TschPacket) (a : Addr)
      → IsHead s p t
      → IsSafe os (remove_packet_from_queue os s a).0 p t
  removed-IsSafe s (i, k) t a h = elim (Option-cases (neighbor_queue_from_addr os s a)) [
    | inl missing ↦
        subst (λ u. IsSafe os u (i, k) t) (sym (remove_missing os s a missing)) (IsHead-IsSafe h)
    | inr (j, found) ↦
        by_queues s (remove_packet_from_queue os s a).0 (i, k) t _ (remove_at os s a j found).1
          (removed_here s i k t j h)
  ]

  succeeded-IsSafe :
      (s : Net os) (n : ℕ) (p : PacketRef) (cell : Cell) (t : TschPacket)
      → IsHead s p t
      → IsSafe os (succeeded os s n p cell) p t
  unfolding succeeded
  succeeded-IsSafe s n p cell t h =
      let u = remove_sent os s p in
      backoff-IsSafe u p t n (clear_backoff os (read_packet_from_queue os u cell.node_address))
        (clear_backoff-SameRing os (read_packet_from_queue os u cell.node_address) (u.queue_of n))
        (removed-IsSafe s p t (os.queuebuf_addr (deref os s p).pkt) h)

  given_up-IsSafe :
      (s : Net os) (n : ℕ) (p : PacketRef) (t : TschPacket)
      → IsHead s p t
      → IsSafe os (give_up os s n p) p t
  unfolding give_up
  given_up-IsSafe s n p t h =
      let u = remove_sent os s p in
      branch (λ (v : Net os). IsSafe os v p t)
        ((deref os s p).transmissions == mac_max_frame_retries)
        (backoff-IsSafe u p t n reset_backoff (reset_backoff-SameRing (u.queue_of n))
          (removed-IsSafe s p t (os.queuebuf_addr (deref os s p).pkt) h))
        (IsHead-IsSafe h)

  failed-IsSafe :
      (s : Net os) (n : ℕ) (p : PacketRef) (cell : Cell) (bc : Bool) (random : ℕ) (t : TschPacket)
      → IsHead s p t
      → IsSafe os (failed os s n p cell bc random) p (count_transmission t)
  unfolding failed
  failed-IsSafe s n (i, k) cell bc random t h =
      let u = give_up os (change_packet os s (i, k) count_transmission) n (i, k) in
      let safe =
        given_up-IsSafe (change_packet os s (i, k) count_transmission) n (i, k)
          (count_transmission t) (counted-IsHead s i k t h) in
      branch (λ (v : Net os). IsSafe os v (i, k) (count_transmission t)) (is_shared cell && not bc)
        (backoff-IsSafe u (i, k) (count_transmission t) n (back_off random)
          (back_off-SameRing random (u.queue_of n)) safe)
        safe

  pub finish_tx-IsSafe :
      (x : RadioTx) (s : Net os) (n : ℕ) (p : PacketRef) (cell : Cell) (bc : Bool) (random : ℕ)
      (t : TschPacket)
      → IsHead s p t
      → IsSafe os (finish_tx os x s n p cell bc random) p (reported x t)
  unfolding finish_tx handle count_transmission
  finish_tx-IsSafe RadioTx.ok s n (i, k) cell bc random t h =
      written-IsSafe _ i k t MacTx.ok (succeeded-IsSafe s n (i, k) cell t h)
  finish_tx-IsSafe RadioTx.other s n (i, k) cell bc random t h =
      written-IsSafe _ i k t MacTx.ok (succeeded-IsSafe s n (i, k) cell t h)
  finish_tx-IsSafe RadioTx.noack s n (i, k) cell bc random t h =
      written-IsSafe _ i k (count_transmission t) MacTx.noack
        (failed-IsSafe s n (i, k) cell bc random t h)
  finish_tx-IsSafe RadioTx.collision s n (i, k) cell bc random t h =
      written-IsSafe _ i k (count_transmission t) MacTx.collision
        (failed-IsSafe s n (i, k) cell bc random t h)
  finish_tx-IsSafe RadioTx.err s n (i, k) cell bc random t h =
      written-IsSafe _ i k (count_transmission t) MacTx.err
        (failed-IsSafe s n (i, k) cell bc random t h)
