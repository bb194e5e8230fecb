-- ===== src/Neighbors/Addressed.antt =====
-- The receivers of the packets in the neighbor queues of tsch.c: each waits in the queue of its own.
use tsch_minimum.Prelude.{
  ℕ, ◌+◌, ◌≡◌, ◌≢◌, refl, sym, ◌∙◌, Option, none, some, [], ◌∷◌, ◌++◌, arith, Bool-cases, inl, inr,
  length, ◌==◌, branch,
}
use mathlib.Core.Option.{some-injective}
use tsch_minimum.Contiki.{Contiki, IsContiki, Addr}
use tsch_minimum.Queue.{TschPacket, MacTx, new_packet, mac_max_frame_retries}
use tsch_minimum.Queue.Fifo
use tsch_minimum.Queue.Fifo.{Fifo, capacity}
use tsch_minimum.Neighbors.{Net, PacketRef, deref, read_packet_from_queue, neighbor_queue_from_addr}
use tsch_minimum.Neighbors.Inv.{IsSound}
use tsch_minimum.Neighbors.Fifos
use tsch_minimum.Neighbors.Fifos.{Fifos, add, add_to, at, head_of}
use tsch_minimum.Neighbors.Refine.{view, read_refines}
use tsch_minimum.Outcome.{RadioTx}
use tsch_minimum.Outcome.Settle.{retry, settle_at, sent}
use tsch_minimum.Prelude.Words.{u8}

-- What `P` says of an address and of the queuebuf of each packet in its queue.
module _ (P : Addr → ℕ → Type 0) where
  abbrev pub AllFor : Addr → Fifo → Type 0
  AllFor a [] = Unit
  AllFor a (p ∷ f) = P a p.pkt × AllFor a f

  abbrev pub AllForAt : Addr → Option Fifo → Type 0
  AllForAt a none = Unit
  AllForAt a (some f) = AllFor a f

  abbrev pub Everywhere : Fifos → Type 0
  Everywhere m = (a : Addr) → AllForAt a (m a)

  AllFor-append :
      (a : Addr) (f : Fifo) (p : TschPacket) → AllFor a f → P a p.pkt → AllFor a (f ++ (p ∷ []))
  AllFor-append a [] p h e = (e, tt)
  AllFor-append a (q ∷ f) p h e = (h.0, AllFor-append a f p h.1 e)

  add-AllFor :
      (a : Addr) (f : Option Fifo) (p : TschPacket)
      → AllForAt a f
      → P a p.pkt
      → AllForAt a (add_to p f).0
  unfolding add_to Fifo.add
  add-AllFor a none p h e = tt
  add-AllFor a (some f) p h e = elim (Bool-cases (length f == capacity)) [
    | inl full ↦ rw full h
    | inr room ↦ rw room (AllFor-append a f p h e)
  ]

  sent-AllFor : (a : Addr) (f : Fifo) → AllFor a f → AllFor a (sent f)
  sent-AllFor a [] h = tt
  sent-AllFor a (p ∷ f) h = h.1

  retry-AllFor : (a : Addr) (ret : MacTx) (f : Fifo) → AllFor a f → AllFor a (retry ret f)
  retry-AllFor a ret [] h = tt
  retry-AllFor a ret (p ∷ f) h =
      branch (AllFor a) (u8 (p.transmissions + 1) == mac_max_frame_retries) h.1 h

  settle-AllFor :
      (a : Addr) (x : RadioTx) (f : Option Fifo) → AllForAt a f → AllForAt a (settle_at x f)
  settle-AllFor a x none h = tt
  settle-AllFor a RadioTx.ok (some f) h = sent-AllFor a f h
  settle-AllFor a RadioTx.other (some f) h = sent-AllFor a f h
  settle-AllFor a RadioTx.noack (some f) h = retry-AllFor a MacTx.noack f h
  settle-AllFor a RadioTx.collision (some f) h = retry-AllFor a MacTx.collision f h
  settle-AllFor a RadioTx.err (some f) h = retry-AllFor a MacTx.err f h

-- Each packet waits in the queue of its receiver.
abbrev pub IsFor : Contiki → Addr → ℕ → Type 0
IsFor os a pkt = os.queuebuf_addr pkt ≡ a

abbrev pub Addressed : Contiki → Fifos → Type 0
Addressed os = Everywhere (IsFor os)

-- Each packet has a queuebuf: its pointer is not NULL.
abbrev pub HasQueuebuf : Addr → ℕ → Type 0
HasQueuebuf a pkt = pkt ≢ 0

abbrev pub Buffered : Fifos → Type 0
Buffered = Everywhere HasQueuebuf

module _ (os : Contiki) (laws : IsContiki os) (P : Addr → ℕ → Type 0) where
  at-Everywhere :
      (m : Fifos) (a : Addr) (f : Option Fifo)
      → Everywhere P m
      → AllForAt P a f
      → Everywhere P (at os.rimeaddr_cmp m a f)
  at-Everywhere m a f h k b = elim (Bool-cases (os.rimeaddr_cmp a b)) [
    | inl same ↦ rw (same, ← (laws.cmp_iff a b).0 same) k
    | inr other ↦ rw other (h b)
  ]

  -- A packet for `a` may be added to the queue of `a`, and any transmission may be settled.
  pub add-Everywhere :
      (m : Fifos) (pkt sent ptr : ℕ) (a : Addr)
      → Everywhere P m
      → P a pkt
      → Everywhere P (Fifos.step os.rimeaddr_cmp m (add pkt sent ptr a)).0
  unfolding Fifos.step
  add-Everywhere m pkt sent ptr a h e =
      at-Everywhere m a _ h (add-AllFor P a (m a) (new_packet pkt sent ptr) (h a) e)

  pub settle-Everywhere :
      (m : Fifos) (a : Addr) (x : RadioTx)
      → Everywhere P m
      → Everywhere P (at os.rimeaddr_cmp m a (settle_at x (m a)))
  settle-Everywhere m a x h = at-Everywhere m a _ h (settle-AllFor P a x (m a) (h a))

  pub head-AllFor :
      (a : Addr) (f : Option Fifo) (p : TschPacket)
      → AllForAt P a f
      → head_of f ≡ some p
      → P a p.pkt
  unfolding head_of Fifo.head
  head-AllFor a none p h e = absurd (ground (arith, e))
  head-AllFor a (some []) p h e = absurd (ground (arith, e))
  head-AllFor a (some (q ∷ f)) p h e = rw (← some-injective _ _ e) h.0

module _ (os : Contiki) (laws : IsContiki os) where
  -- The packet that is read for `a` is at the head of its FIFO, and is for `a`.
  pub read-head :
      (s : Net os) (a : Addr) (p : PacketRef)
      → IsSound os s
      → read_packet_from_queue os s a ≡ some p
      → head_of (view os s a) ≡ some (deref os s p)
  unfolding read_packet_from_queue
  read-head s a p h e =
      sym (read_refines os laws s a (neighbor_queue_from_addr os s a) refl h) ∙ rw e refl

  pub read-receiver :
      (s : Net os) (a : Addr) (p : PacketRef)
      → IsSound os s
      → Addressed os (view os s)
      → read_packet_from_queue os s a ≡ some p
      → os.queuebuf_addr (deref os s p).pkt ≡ a
  read-receiver s a p sound h e =
      head-AllFor os laws (IsFor os) a (view os s a) (deref os s p) (h a) (read-head s a p sound e)

  -- No packet that is read has a NULL queuebuf.
  abbrev pub HeadsBuffered : Net os → Type 0
  HeadsBuffered s =
      (a : Addr) (p : PacketRef) → read_packet_from_queue os s a ≡ some p → (deref os s p).pkt ≢ 0

  pub Buffered-heads : (s : Net os) → IsSound os s → Buffered (view os s) → HeadsBuffered s
  Buffered-heads s sound h a p e =
      head-AllFor os laws HasQueuebuf a (view os s a) (deref os s p) (h a) (read-head s a p sound e)
