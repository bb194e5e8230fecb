-- ===== src/Send/Effect.antt =====
-- What a packet that `send_one_packet` of tsch.c accepted does to its receiver's queue.
use mathlib.Core.Path.{subst}
use tsch_minimum.Prelude.{
  if◌then◌else◌, ℕ, ◌≡◌, ◌≢◌, ◌⊎◌, refl, ap, ◌∙◌, Bool, true, false, Option, none, some, [], ◌∷◌,
  ◌++◌, arith, Option-cases, Bool-cases, inl, inr,
}
use tsch_minimum.Contiki.{Contiki, IsContiki, Addr}
use tsch_minimum.Queue.{new_packet}
use tsch_minimum.Queue.Fifo.{Fifo, add}
use tsch_minimum.Queue.Refine.{contents}
use tsch_minimum.Neighbors.{Net, neighbor_queue_from_addr, add_queue, add_packet_to_queue}
use tsch_minimum.Neighbors.Inv.{IsSound, add_queue-IsSound}
use tsch_minimum.Neighbors.Fifos.{add_to}
use tsch_minimum.Neighbors.Refine.{view, add_view, add_queue-view}
use tsch_minimum.Send.{
  next_seqno, Buffers, Mac, make_frame, enqueue, with_queue, queue_frame, send_one_packet,
}

module _ (os : Contiki) (laws : IsContiki os) where
  -- A packet that a queue takes stands at its end.
  taken :
      (s : Net os) (pkt sent ptr : ℕ) (a : Addr) (old : Fifo)
      → IsSound os s
      → view os s a ≡ some old
      → (add_packet_to_queue os s pkt sent ptr a).1 ≡ 1
      → view os (add_packet_to_queue os s pkt sent ptr a).0 a
        ≡ some (old ++ (new_packet pkt sent ptr ∷ []))
  unfolding add_to add
  taken s pkt sent ptr a old h e r =
      let (v, answer) = add_view os laws s pkt sent ptr a h in
      ap (λ m. m a) v ∙ ground (arith, e, r, answer, (laws.cmp_iff a a).1 refl)

  -- The receiver's packets before: its queue's, or none where there was no queue.
  abbrev pub WasQueued : Net os → Addr → Fifo → Type 0
  WasQueued s a old = (view os s a ≡ some old) ⊎ ((view os s a ≡ none) × (old ≡ []))

  module _ (bufs : Buffers) where
    -- The queuebuf that Contiki makes of the frame: the packet's receiver asks for an acknowledgment
    -- unless it is the broadcast address, and the frame has the next sequence number.
    abbrev pub queuebuf_new : Mac os bufs → bufs.Pool × ℕ
    queuebuf_new s =
        let b =
          if os.rimeaddr_cmp (bufs.receiver s.packetbuf) os.rimeaddr_null
          then s.packetbuf
          else bufs.set_mac_ack s.packetbuf in
        bufs.queuebuf_new_from_packetbuf s.pool
          (bufs.create (bufs.set_mac_seqno (next_seqno s.dsn) b)).0

    abbrev pool_of : Mac os bufs → bufs.Pool × ℕ
    pool_of s = bufs.queuebuf_new_from_packetbuf s.pool s.packetbuf

    -- Adding a queue changes neither the pool nor the packet buffer.
    ready-pool :
        (a : Addr) (s : Mac os bufs) (o : Option ℕ)
        → pool_of (with_queue os bufs a s o).0 ≡ pool_of s
    unfolding with_queue
    ready-pool a s none = refl
    ready-pool a s (some i) = refl

    -- The receiver's queue, found or added.
    ready :
        (a : Addr) (s : Mac os bufs) (o : Option ℕ)
        → neighbor_queue_from_addr os s.net a ≡ o
        → (with_queue os bufs a s o).1 ≡ true
        → (old : Fifo) × (view os (with_queue os bufs a s o).0.net a ≡ some old)
          × WasQueued s.net a old
    unfolding with_queue
    ready a s (some i) e there =
        let here : view os s.net a ≡ some (contents (s.net.queue_of i)) = rw e refl in
        (contents (s.net.queue_of i), here, inl here)
    ready a s none e there = elim (Option-cases (add_queue os s.net a).1) [
      | inl full ↦ absurd (ground (arith, there, full))
      | inr (i, new) ↦ ([], add_queue-view os laws s.net a i e new, inr (rw e refl, refl))
    ]

    ready-IsSound :
        (a : Addr) (s : Mac os bufs) (o : Option ℕ)
        → IsSound os s.net
        → IsSound os (with_queue os bufs a s o).0.net
    unfolding with_queue
    ready-IsSound a s none h = add_queue-IsSound os laws s.net a h
    ready-IsSound a s (some i) h = h

    enqueued :
        (sent ptr : ℕ) (a : Addr) (s : Mac os bufs) (old : Fifo)
        → IsSound os s.net
        → view os s.net a ≡ some old
        → (enqueue os bufs sent ptr a s).1 ≡ 1
        → view os (enqueue os bufs sent ptr a s).0.net a
          ≡ some (old ++ (new_packet (pool_of s).1 sent ptr ∷ []))
    unfolding enqueue
    enqueued sent ptr a s old h e r = taken s.net _ sent ptr a old h e r

    queue_frame-there :
        (sent ptr : ℕ) (a : Addr) (s : Mac os bufs)
        → (with_queue os bufs a s (neighbor_queue_from_addr os s.net a)).1 ≡ true
        → queue_frame os bufs sent ptr a (s, true)
          ≡ enqueue os bufs sent ptr a
              (with_queue os bufs a s (neighbor_queue_from_addr os s.net a)).0
    unfolding queue_frame
    queue_frame-there sent ptr a s there = rw there refl

    queue_frame-full :
        (sent ptr : ℕ) (a : Addr) (s : Mac os bufs)
        → (with_queue os bufs a s (neighbor_queue_from_addr os s.net a)).1 ≡ false
        → (queue_frame os bufs sent ptr a (s, true)).1 ≡ 0
    unfolding queue_frame
    queue_frame-full sent ptr a s full = rw full refl

    abbrev Queued : Mac os bufs → ℕ → ℕ → Addr → Mac os bufs → Type 0
    Queued s sent ptr a t =
        (old : Fifo) × (view os t.net a ≡ some (old ++ (new_packet (pool_of s).1 sent ptr ∷ [])))
        × WasQueued s.net a old

    not_made :
        (sent ptr : ℕ) (a : Addr) (s : Mac os bufs)
        → (queue_frame os bufs sent ptr a (s, false)).1 ≢ 1
    unfolding queue_frame
    not_made sent ptr a s e = omega (arith, e)

    queued :
        (sent ptr : ℕ) (a : Addr) (s : Mac os bufs) (made : Bool)
        → IsSound os s.net
        → (queue_frame os bufs sent ptr a (s, made)).1 ≡ 1
        → Queued s sent ptr a (queue_frame os bufs sent ptr a (s, made)).0
    queued sent ptr a s false h r = absurd (not_made sent ptr a s r)
    queued sent ptr a s true h r =
        let o = neighbor_queue_from_addr os s.net a in
        elim (Bool-cases (with_queue os bufs a s o).1) [
          | inl there ↦
              let same = queue_frame-there sent ptr a s there in
              let (old, here, was) = ready a s o refl there in
              let last =
                enqueued sent ptr a (with_queue os bufs a s o).0 old (ready-IsSound a s o h) here
                  (rw⁻¹ same r) in
              let at_end =
                subst
                  (λ (q : bufs.Pool × ℕ).
                    view os (enqueue os bufs sent ptr a (with_queue os bufs a s o).0).0.net a
                    ≡ some (old ++ (new_packet q.1 sent ptr ∷ [])))
                  (ready-pool a s o) last in
              (old, rw same at_end, was)
          | inr full ↦ absurd (ground (arith, r, queue_frame-full sent ptr a s full))
        ]

    -- With sound queues, a packet that is accepted is the last one of its receiver's queue, behind
    -- the packets that it held, or alone in a queue that is new. Its queuebuf is the one that Contiki
    -- makes of the frame, which is NULL where none is left.
    pub send_one_packet-queues :
        (sent ptr : ℕ) (s : Mac os bufs)
        → IsSound os s.net
        → (send_one_packet os bufs sent ptr s).1 ≡ 1
        → let a = bufs.receiver s.packetbuf in
          let pkt = (queuebuf_new s).1 in
          (old : Fifo) × (view os (send_one_packet os bufs sent ptr s).0.net a
            ≡ some (old ++ (new_packet pkt sent ptr ∷ [])))
          × WasQueued s.net a old
    unfolding send_one_packet make_frame
    send_one_packet-queues sent ptr s h r =
        queued sent ptr (bufs.receiver s.packetbuf) (make_frame os bufs s).0
          (make_frame os bufs s).1 h r
