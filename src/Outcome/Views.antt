-- ===== src/Outcome/Views.antt =====
-- The packets of the neighbor queues of tsch.c after writes to the slot of the packet that was sent.
use mathlib.Core.Path.{fun_ext, subst}
use tsch_minimum.Prelude.{
  ℕ, ◌<◌, ◌≡◌, refl, ap, ◌∙◌, Option, none, some, ◌∷◌, inl, inr, arith, ◌==◌, ==_iff, Bool-cases,
}
use tsch_minimum.Contiki.{Contiki, IsContiki, Addr}
use tsch_minimum.Queue.{TschPacket, NeighborQueue, set_slot, count, remove_packet}
use tsch_minimum.Queue.Inv.{IsValid}
use tsch_minimum.Queue.Fifo.{Fifo}
use tsch_minimum.Queue.Refine.{contents, contents-set_head, contents-set_removed}
use tsch_minimum.Neighbors.{
  Net, PacketRef, set_queue, update, neighbor_queue_from_addr, remove_packet_from_queue,
}
use tsch_minimum.Neighbors.Fifos.{Fifos, at}
use tsch_minimum.Neighbors.Refine.{view, view-set_queue}
use tsch_minimum.Neighbors.Same.{
  SameRing, SameRing-contents, SameRing-set_slot, SameNet, view_eq, remove_at,
}
use tsch_minimum.Outcome.{reset_backoff, back_off, clear_backoff}

pub clear_backoff-SameRing :
    (os : Contiki) (o : Option PacketRef) (q : NeighborQueue) → SameRing (clear_backoff os o q) q
unfolding clear_backoff
clear_backoff-SameRing os none q = record { same_buffer = refl; same_put = refl; same_get = refl }
clear_backoff-SameRing os (some p) q = record {
  same_buffer = refl;
  same_put = refl;
  same_get = refl;
}

pub back_off-SameRing : (random : ℕ) (q : NeighborQueue) → SameRing (back_off random q) q
unfolding back_off
back_off-SameRing random q = record { same_buffer = refl; same_put = refl; same_get = refl }

pub reset_backoff-SameRing : (q : NeighborQueue) → SameRing (reset_backoff q) q
unfolding reset_backoff
reset_backoff-SameRing q = record { same_buffer = refl; same_put = refl; same_get = refl }

module _ (os : Contiki) (laws : IsContiki os) where
  open os use {rimeaddr_cmp}

  -- The rings after the packet at the head of an entry's queue was removed.
  pub removed_ring :
      (t u : Net os) (a : Addr) (i : ℕ)
      → neighbor_queue_from_addr os t a ≡ some i
      → SameNet os u (remove_packet_from_queue os t a).0
      → (j : ℕ) → SameRing (u.queue_of j) (update t.queue_of i (remove_packet (t.queue_of i)).0 j)
  removed_ring t u a i e same j =
      subst (λ f. SameRing (u.queue_of j) (f j)) (remove_at os t a i e).1 (same.same_rings j)

  pub ring_here :
      (t u : Net os) (i : ℕ) (q : NeighborQueue)
      → ((j : ℕ) → SameRing (u.queue_of j) (update t.queue_of i q j))
      → SameRing (u.queue_of i) q
  ring_here t u i q ring = rw ((==_iff i i).1 refl) at (ring i)

  -- With the packet at the head of an entry's queue removed and backoff fields changed, the slot of
  -- that packet may be written.
  pub view-removed :
      (t u : Net os) (a : Addr) (i : ℕ) (y : TschPacket)
      → neighbor_queue_from_addr os t a ≡ some i
      → IsValid (t.queue_of i)
      → 0 < count (t.queue_of i)
      → SameNet os u (remove_packet_from_queue os t a).0
      → view os (set_queue os u i (set_slot (u.queue_of i) (t.queue_of i).get_ptr y))
        ≡ at rimeaddr_cmp (view os t) a (some (contents (remove_packet (t.queue_of i)).0))
  view-removed t u a i y e v h same =
      let q = (remove_packet (t.queue_of i)).0 in
      let ring = removed_ring t u a i e same in
      let here = ring_here t u i q ring in
      view_eq os _ (set_queue os t i q) (same.same_table ∙ (remove_at os t a i e).0) (λ j.
        elim (Bool-cases (i == j)) [
          | inl eq ↦
              rw eq (SameRing-contents (SameRing-set_slot _ y here) ∙ contents-set_removed y v h)
          | inr ne ↦ rw ne (SameRing-contents (rw ne at (ring j)))
        ])
      ∙ view-set_queue os laws t a i q e

  -- With backoff fields changed, the slot at the head may be written.
  pub view-kept :
      (t u : Net os) (a : Addr) (i : ℕ) (y : TschPacket)
      → neighbor_queue_from_addr os t a ≡ some i
      → IsValid (t.queue_of i)
      → 0 < count (t.queue_of i)
      → SameNet os u t
      → view os (set_queue os u i (set_slot (u.queue_of i) (t.queue_of i).get_ptr y))
        ≡ at rimeaddr_cmp (view os t) a (some (y ∷ contents (remove_packet (t.queue_of i)).0))
  view-kept t u a i y e v h same =
      let q = set_slot (t.queue_of i) (t.queue_of i).get_ptr y in
      view_eq os _ (set_queue os t i q) same.same_table (λ j. elim (Bool-cases (i == j)) [
        | inl eq ↦ rw eq (SameRing-contents (SameRing-set_slot _ y (same.same_rings i)))
        | inr ne ↦ rw ne (SameRing-contents (same.same_rings j))
      ])
      ∙ view-set_queue os laws t a i q e
      ∙ ap (λ f. at rimeaddr_cmp (view os t) a (some f)) (contents-set_head y v h)

  pub at-at :
      (m : Fifos) (a : Addr) (f g : Option Fifo)
      → at rimeaddr_cmp (at rimeaddr_cmp m a f) a g ≡ at rimeaddr_cmp m a g
  at-at m a f g = fun_ext λ b. ground arith
