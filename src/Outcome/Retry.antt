-- ===== src/Outcome/Retry.antt =====
-- What the result of a transmission means for the packets that wait, in powercycle of tsch.c.
use mathlib.Core.Path.{subst}
use tsch_minimum.Prelude.{
  ℕ, ◌+◌, ◌≡◌, ap, sym, ◌∙◌, Bool, true, false, some, ◌∷◌, inl, inr, ◌==◌, if◌then◌else◌,
  Bool-cases, ◌&&◌, not, get_or,
}
use tsch_minimum.Prelude.Words.{u8}
use tsch_minimum.Contiki.{Contiki, IsContiki, Addr}
use tsch_minimum.Params.{Cell, is_shared}
use tsch_minimum.Queue.{TschPacket, MacTx, slot, remove_packet, mac_max_frame_retries, no_packet}
use tsch_minimum.Queue.Inv.{IsValid}
use tsch_minimum.Queue.Fifo.{Fifo}
use tsch_minimum.Queue.Refine.{contents, contents_of_pos, slot-set_slot}
use tsch_minimum.Neighbors.{Net, PacketRef, deref, remove_packet_from_queue, read_packet_from_queue}
use tsch_minimum.Neighbors.Inv.{IsSound}
use tsch_minimum.Neighbors.Fifos.{at}
use tsch_minimum.Neighbors.Refine.{view}
use tsch_minimum.Neighbors.Same.{SameNet, SameNet-refl, SameNet-trans, SameNet-set_queue, read_at}
use tsch_minimum.Outcome.{
  RadioTx, reset_backoff, back_off, count_transmission, change_packet, set_ret, give_up, failed,
  handle, finish_tx, change_queue, remove_sent,
}
use tsch_minimum.Outcome.Settle.{retry, settle, settle_at}
use tsch_minimum.Outcome.Views.{back_off-SameRing, reset_backoff-SameRing}
use tsch_minimum.Outcome.Counted.{
  Sending, head_ref, view-succeeded, counted, head-counted, view-last, view-more,
}

module _ (os : Contiki) (laws : IsContiki os) where
  open os use {rimeaddr_cmp}

  abbrev oldest : Net os → ℕ → TschPacket
  oldest s i = slot (s.queue_of i) (s.queue_of i).get_ptr

  deref-counted :
      (s : Net os) (i : ℕ)
      → IsValid (s.queue_of i)
      → deref os (counted os laws s i) (head_ref os laws s i) ≡ count_transmission (oldest s i)
  deref-counted s i v =
      ap (λ r. slot r (s.queue_of i).get_ptr) (head-counted os laws s i v) ∙ slot-set_slot _ v

  abbrev is_last : Net os → ℕ → Bool
  is_last s i = u8 ((oldest s i).transmissions + 1) == mac_max_frame_retries

  give_up-test :
      (s : Net os) (i : ℕ)
      → IsValid (s.queue_of i)
      → ((deref os (counted os laws s i) (head_ref os laws s i)).transmissions
          == mac_max_frame_retries)
        ≡ is_last s i
  unfolding count_transmission
  give_up-test s i v = ap (λ x. x.transmissions == mac_max_frame_retries) (deref-counted s i v)

  -- Backing off does not touch the packets.
  maybe_back_off :
      (b : Bool) (s : Net os) (n random : ℕ)
      → SameNet os (if b then change_queue os s n (back_off random) else s) s
  maybe_back_off true s n random = SameNet-set_queue os s n _ (back_off-SameRing random _)
  maybe_back_off false s n random = SameNet-refl os s

  give_up-last :
      (s : Net os) (i : ℕ) (a : Addr) (n : ℕ)
      → Sending os laws s i a
      → is_last s i ≡ true
      → SameNet os
          (give_up os (counted os laws s i) n (head_ref os laws s i))
          (remove_packet_from_queue os (counted os laws s i) a).0
  unfolding give_up count_transmission
  give_up-last s i a n h last = rw (give_up-test s i h.valid ∙ last) (
      subst
        (λ b.
          SameNet os
            (change_queue os (remove_sent os (counted os laws s i) (head_ref os laws s i)) n
              reset_backoff)
            (remove_packet_from_queue os (counted os laws s i) b).0)
        (ap (λ x. os.queuebuf_addr x.pkt) (deref-counted s i h.valid) ∙ h.receiver)
        (SameNet-set_queue os _ n _ (reset_backoff-SameRing _)))

  give_up-more :
      (s : Net os) (i n : ℕ)
      → IsValid (s.queue_of i)
      → is_last s i ≡ false
      → give_up os (counted os laws s i) n (head_ref os laws s i) ≡ counted os laws s i
  unfolding give_up count_transmission
  give_up-more s i n v more = rw (give_up-test s i v ∙ more)

  -- What the failure leaves of the queue whose packet `x` was sent, with `f` behind it.
  abbrev left : MacTx → TschPacket → Fifo → Fifo
  left ret x f = retry ret (x ∷ f)

  view-failed :
      (s : Net os) (i : ℕ) (a : Addr) (n : ℕ) (cell : Cell) (bc : Bool) (random : ℕ) (ret : MacTx)
      → Sending os laws s i a
      → let p = head_ref os laws s i in
        view os (change_packet os (failed os s n p cell bc random) p (set_ret ret))
        ≡ at rimeaddr_cmp
            (view os s)
            a
            (some (left ret (oldest s i) (contents (remove_packet (s.queue_of i)).0)))
  unfolding failed count_transmission
  view-failed s i a n cell bc random ret h = elim (Bool-cases (is_last s i)) [
    | inl last ↦ rw last (
        view-last os laws s u i a _ h
          (SameNet-trans os (maybe_back_off b _ n random) (give_up-last s i a n h last)))
    | inr more ↦ rw more (
        view-more os laws s u i a _ h (still more)
        ∙ ap
            (λ y.
              at rimeaddr_cmp (view os s) a
                (some (set_ret ret y ∷ contents (remove_packet (s.queue_of i)).0)))
            (same_packet more))
  ]
    where
      b : Bool
      b = is_shared cell && not bc

      u : Net os
      u = failed os s n (head_ref os laws s i) cell bc random

      not_given_up :
          is_last s i ≡ false
          → give_up os (counted os laws s i) n (head_ref os laws s i) ≡ counted os laws s i
      not_given_up more = give_up-more s i n h.valid more

      still : is_last s i ≡ false → SameNet os u (counted os laws s i)
      still more = subst (λ t. SameNet os u t) (not_given_up more) (maybe_back_off b _ n random)

      same_packet :
          is_last s i ≡ false → deref os u (head_ref os laws s i) ≡ count_transmission (oldest s i)
      same_packet more =
          ap (λ r. get_or r (s.queue_of i).get_ptr no_packet)
            ((still more).same_rings i).same_buffer
          ∙ deref-counted s i h.valid

  settle-contents :
      (success : RadioTx) (s : Net os) (i : ℕ) (a : Addr)
      → Sending os laws s i a
      → settle_at success (view os s a)
        ≡ some (settle success (oldest s i ∷ contents (remove_packet (s.queue_of i)).0))
  settle-contents success s i a h =
      rw h.entry (ap (λ f. some (settle success f)) (contents_of_pos h.valid h.pending))

  view-handled :
      (success : RadioTx) (s : Net os) (i : ℕ) (a : Addr) (n : ℕ) (cell : Cell) (bc : Bool)
      (random : ℕ)
      → Sending os laws s i a
      → view os (finish_tx os success s n (head_ref os laws s i) cell bc random)
        ≡ at rimeaddr_cmp
            (view os s)
            a
            (some (settle success (oldest s i ∷ contents (remove_packet (s.queue_of i)).0)))
  unfolding finish_tx handle
  view-handled RadioTx.ok s i a n cell bc random h = view-succeeded os laws s i a n cell MacTx.ok h
  view-handled RadioTx.other s i a n cell bc random h =
      view-succeeded os laws s i a n cell MacTx.ok h
  view-handled RadioTx.err s i a n cell bc random h = view-failed s i a n cell bc random MacTx.err h
  view-handled RadioTx.collision s i a n cell bc random h =
      view-failed s i a n cell bc random MacTx.collision h
  view-handled RadioTx.noack s i a n cell bc random h =
      view-failed s i a n cell bc random MacTx.noack h

  -- With sound queues, after a transmission of the packet that `read_packet_from_queue` gives for
  -- its receiver `a`: a success removes it from the queue of `a`; a failure keeps it at the head
  -- with its transmissions counted and its status set, unless it was the try numbered
  -- macMaxFrameRetries, which removes it. The packets of all other neighbors stay as they are,
  -- whichever neighbor `n` the cell belongs to.
  pub finish_tx_refines :
      (success : RadioTx) (s : Net os) (n : ℕ) (p : PacketRef) (cell : Cell) (bc : Bool)
      (random : ℕ) (a : Addr)
      → IsSound os s
      → read_packet_from_queue os s a ≡ some p
      → os.queuebuf_addr (deref os s p).pkt ≡ a
      → view os (finish_tx os success s n p cell bc random)
        ≡ at rimeaddr_cmp (view os s) a (settle_at success (view os s a))
  finish_tx_refines success s n (i, k) cell bc random a sound found receiver =
      let r = read_at os s a (i, k) found in
      let h : Sending os laws s i a = record {
        entry = r.0;
        valid = sound.valid a i r.0;
        pending = r.2;
        receiver = subst (λ j. os.queuebuf_addr (deref os s (i, j)).pkt ≡ a) r.1 receiver;
      } in
      subst
        (λ j.
          view os (finish_tx os success s n (i, j) cell bc random)
          ≡ at rimeaddr_cmp (view os s) a
              (some (settle success (oldest s i ∷ contents (remove_packet (s.queue_of i)).0))))
        (sym r.1) (view-handled success s i a n cell bc random h)
      ∙ ap (at rimeaddr_cmp (view os s) a) (sym (settle-contents success s i a h))
