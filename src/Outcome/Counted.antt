-- ===== src/Outcome/Counted.antt =====
-- A transmission in powercycle of tsch.c: the packet at the head of its receiver's queue, and the
-- state in which a try of it was counted.
use mathlib.Core.Path.{subst}
use tsch_minimum.Prelude.{ℕ, ◌<◌, ◌≡◌, refl, ap, sym, ◌∙◌, Option, some, ◌∷◌, ==_iff}
use tsch_minimum.Contiki.{Contiki, IsContiki, Addr}
use tsch_minimum.Params.{Cell}
use tsch_minimum.Queue.{TschPacket, MacTx, slot, set_slot, count, remove_packet}
use tsch_minimum.Queue.Inv.{IsValid, set_slot-IsValid}
use tsch_minimum.Queue.Fifo.{Fifo}
use tsch_minimum.Queue.Refine.{contents, contents-remove-set_slot, slot-set_slot}
use tsch_minimum.Neighbors.{
  Net, PacketRef, deref, set_queue, neighbor_queue_from_addr, remove_packet_from_queue,
  read_packet_from_queue,
}
use tsch_minimum.Neighbors.Fifos.{at}
use tsch_minimum.Neighbors.Refine.{view, view-set_queue}
use tsch_minimum.Neighbors.Same.{
  SameRing, SameRing-refl, SameNet, SameNet-set_queue, entry-set_queue,
}
use tsch_minimum.Outcome.{count_transmission, change_packet, set_ret, succeeded, remove_sent}
use tsch_minimum.Outcome.Views.{clear_backoff-SameRing, view-removed, view-kept, at-at}

module _ (os : Contiki) (laws : IsContiki os) where
  open os use {rimeaddr_cmp}

  -- The packet at `(i, k)` is at the head of the queue of its receiver `a`.
  pub record Sending (s : Net os) (i : ℕ) (a : Addr) : Type 0 where
    pub entry : neighbor_queue_from_addr os s a ≡ some i
    pub valid : IsValid (s.queue_of i)
    pub pending : 0 < count (s.queue_of i)
    pub receiver : os.queuebuf_addr (slot (s.queue_of i) (s.queue_of i).get_ptr).pkt ≡ a

  abbrev pub head_ref : Net os → ℕ → PacketRef
  head_ref s i = (i, (s.queue_of i).get_ptr)

  pub view-succeeded :
      (s : Net os) (i : ℕ) (a : Addr) (n : ℕ) (cell : Cell) (ret : MacTx)
      → Sending s i a
      → let p = head_ref s i in
        view os (change_packet os (succeeded os s n p cell) p (set_ret ret))
        ≡ at rimeaddr_cmp (view os s) a (some (contents (remove_packet (s.queue_of i)).0))
  unfolding succeeded
  view-succeeded s i a n cell ret h =
      let p = head_ref s i in
      let u = succeeded os s n p cell in
      view-removed os laws s u a i (set_ret ret (deref os u p)) h.entry h.valid h.pending (
        subst (λ b. SameNet os u (remove_packet_from_queue os s b).0) h.receiver
          (SameNet-set_queue os (remove_sent os s p) n _ (
            clear_backoff-SameRing os
              (read_packet_from_queue os (remove_sent os s p) cell.node_address) _)))

  -- The state in which a transmission that failed was counted.
  abbrev pub counted : Net os → ℕ → Net os
  counted s i = change_packet os s (head_ref s i) count_transmission

  pub head-counted :
      (s : Net os) (i : ℕ)
      → IsValid (s.queue_of i)
      → (counted s i).queue_of i
        ≡ set_slot
            (s.queue_of i)
            (s.queue_of i).get_ptr
            (count_transmission (slot (s.queue_of i) (s.queue_of i).get_ptr))
  head-counted s i v = rw ((==_iff i i).1 refl)

  pub Sending-counted : (s : Net os) (i : ℕ) (a : Addr) → Sending s i a → Sending (counted s i) i a
  unfolding count_transmission
  Sending-counted s i a h =
      let e = sym (head-counted s i h.valid) in
      let q = s.queue_of i in
      let x = count_transmission (slot q q.get_ptr) in
      record {
        entry = entry-set_queue os s a i (set_slot q q.get_ptr x) ∙ h.entry;
        valid = subst IsValid e (set_slot-IsValid q.get_ptr x h.valid);
        pending = subst (λ r. 0 < count r) e h.pending;
        receiver =
            subst (λ r. os.queuebuf_addr (slot r r.get_ptr).pkt ≡ a) e
              (ap (λ y. os.queuebuf_addr y.pkt) (slot-set_slot x h.valid) ∙ h.receiver);
      }

  pub view-counted :
      (s : Net os) (i : ℕ) (a : Addr) (g : Option Fifo)
      → Sending s i a
      → at rimeaddr_cmp (view os (counted s i)) a g ≡ at rimeaddr_cmp (view os s) a g
  view-counted s i a g h =
      ap (λ m. at rimeaddr_cmp m a g) (view-set_queue os laws s a i _ h.entry)
      ∙ at-at os laws (view os s) a _ g

  pub ring-counted :
      (s : Net os) (i : ℕ)
      → IsValid (s.queue_of i)
      → SameRing ((counted s i).queue_of i) (
          set_slot
            (s.queue_of i)
            (s.queue_of i).get_ptr
            (count_transmission (slot (s.queue_of i) (s.queue_of i).get_ptr)))
  ring-counted s i v =
      subst (λ r. SameRing ((counted s i).queue_of i) r) (head-counted s i v) (SameRing-refl _)

  -- A failure of the last try, whatever else it does to the backoff.
  pub view-last :
      (s u : Net os) (i : ℕ) (a : Addr) (y : TschPacket)
      → Sending s i a
      → SameNet os u (remove_packet_from_queue os (counted s i) a).0
      → view os (set_queue os u i (set_slot (u.queue_of i) (s.queue_of i).get_ptr y))
        ≡ at rimeaddr_cmp (view os s) a (some (contents (remove_packet (s.queue_of i)).0))
  view-last s u i a y h same =
      let t = counted s i in
      let h' = Sending-counted s i a h in
      let e = head-counted s i h.valid in
      subst
        (λ k.
          view os (set_queue os u i (set_slot (u.queue_of i) k y))
          ≡ at rimeaddr_cmp (view os t) a (some (contents (remove_packet (t.queue_of i)).0)))
        (ap (λ r. r.get_ptr) e) (view-removed os laws t u a i y h'.entry h'.valid h'.pending same)
      ∙ ap (λ f. at rimeaddr_cmp (view os t) a (some f))
          (ap (λ r. contents (remove_packet r).0) e ∙ contents-remove-set_slot _ h.valid h.pending)
      ∙ view-counted s i a _ h

  -- A failure after which the packet is tried again.
  pub view-more :
      (s u : Net os) (i : ℕ) (a : Addr) (y : TschPacket)
      → Sending s i a
      → SameNet os u (counted s i)
      → view os (set_queue os u i (set_slot (u.queue_of i) (s.queue_of i).get_ptr y))
        ≡ at rimeaddr_cmp (view os s) a (some (y ∷ contents (remove_packet (s.queue_of i)).0))
  view-more s u i a y h same =
      let t = counted s i in
      let h' = Sending-counted s i a h in
      let e = head-counted s i h.valid in
      subst
        (λ k.
          view os (set_queue os u i (set_slot (u.queue_of i) k y))
          ≡ at rimeaddr_cmp (view os t) a (some (y ∷ contents (remove_packet (t.queue_of i)).0)))
        (ap (λ r. r.get_ptr) e) (view-kept os laws t u a i y h'.entry h'.valid h'.pending same)
      ∙ ap (λ f. at rimeaddr_cmp (view os t) a (some (y ∷ f)))
          (ap (λ r. contents (remove_packet r).0) e ∙ contents-remove-set_slot _ h.valid h.pending)
      ∙ view-counted s i a _ h
