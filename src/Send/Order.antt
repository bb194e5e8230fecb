-- ===== src/Send/Order.antt =====
-- What sending in tsch.c does to the queues: whatever is sent, they stay valid.
use tsch_minimum.Prelude.{
  ℕ, ◌≡◌, refl, Bool, true, false, Option, none, some, List, [], ◌∷◌, Bool-cases, inl, inr,
}
use tsch_minimum.Prelude.Words.{to_bool}
use tsch_minimum.Contiki.{Contiki, IsContiki, Addr}
use tsch_minimum.Neighbors.{neighbor_queue_from_addr}
use tsch_minimum.Neighbors.Inv.{IsSound, add_queue-IsSound, add_packet_to_queue-IsSound}
use tsch_minimum.Send.{
  Buffers, Mac, make_frame, enqueue, with_queue, queue_frame, send_one_packet, send_list,
}

module _ (os : Contiki) (laws : IsContiki os) (bufs : Buffers) where
  make_frame-net : (s : Mac os bufs) → (make_frame os bufs s).0.net ≡ s.net
  unfolding make_frame
  make_frame-net s = refl

  with_queue-IsSound :
      (addr : Addr) (s : Mac os bufs) (o : Option ℕ)
      → IsSound os s.net
      → IsSound os (with_queue os bufs addr s o).0.net
  unfolding with_queue
  with_queue-IsSound addr s none h = add_queue-IsSound os laws s.net addr h
  with_queue-IsSound addr s (some i) h = h

  queue_frame-IsSound :
      (sent ptr : ℕ) (addr : Addr) (s : Mac os bufs) (made : Bool)
      → IsSound os s.net
      → IsSound os (queue_frame os bufs sent ptr addr (s, made)).0.net
  unfolding queue_frame enqueue
  queue_frame-IsSound sent ptr addr s false h = h
  queue_frame-IsSound sent ptr addr s true h =
      let o = neighbor_queue_from_addr os s.net addr in
      elim (Bool-cases (with_queue os bufs addr s o).1) [
        | inl there ↦
            rw there
              (add_packet_to_queue-IsSound os _ _ sent ptr addr (with_queue-IsSound addr s o h))
        | inr no_room ↦ rw no_room (with_queue-IsSound addr s o h)
      ]

  send_one_packet-IsSound :
      (sent ptr : ℕ) (s : Mac os bufs)
      → IsSound os s.net
      → IsSound os (send_one_packet os bufs sent ptr s).0.net
  unfolding send_one_packet
  send_one_packet-IsSound sent ptr s h =
      queue_frame-IsSound sent ptr _ (make_frame os bufs s).0 (make_frame os bufs s).1
        (rw (make_frame-net s) h)

  -- Sending a list of packets keeps every queue valid, wherever it stops.
  pub send_list-IsSound :
      (sent ptr : ℕ) (packets : List ℕ) (s : Mac os bufs)
      → IsSound os s.net
      → IsSound os (send_list os bufs sent ptr packets s).net
  unfolding send_list
  send_list-IsSound sent ptr [] s h = h
  send_list-IsSound sent ptr (b ∷ bs) s h =
      let next =
        send_one_packet-IsSound sent ptr (record s { packetbuf = bufs.queuebuf_to_packetbuf b })
          h in
      elim (Bool-cases (
        to_bool
          (send_one_packet os bufs sent ptr
            (record s { packetbuf = bufs.queuebuf_to_packetbuf b })).1)) [
              | inl ok ↦ rw ok (send_list-IsSound sent ptr bs _ next)
              | inr failed ↦ rw failed next
            ]
