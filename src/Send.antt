-- ===== src/Send.antt =====
-- Sending a packet through the MAC layer of tsch.c: `send_one_packet` and `send_list` put packets
-- into the neighbor queues.
pub mod Seqno
pub mod Order
pub mod Effect
use tsch_minimum.Prelude.{
  ℕ, ◌+◌, ◌%◌, Bool, true, false, Option, none, some, List, [], ◌∷◌, ◌==◌, if◌then◌else◌, not,
}
use tsch_minimum.Prelude.Words.{u8, to_bool}
use tsch_minimum.Contiki.{Contiki, Addr}
use tsch_minimum.Neighbors.{Net, neighbor_queue_from_addr, add_queue, add_packet_to_queue}

-- The packet buffer of Contiki (net/packetbuf.h), the framer that is configured, and the pool of
-- queuebufs, as far as `send_one_packet` uses them.
pub record Buffers : Type 1 where
  pub Packetbuf : Type 0
  pub Pool : Type 0
  -- `packetbuf_addr(PACKETBUF_ADDR_RECEIVER)`
  pub receiver : Packetbuf → Addr
  -- `packetbuf_set_attr` of PACKETBUF_ATTR_MAC_ACK to 1, and of PACKETBUF_ATTR_MAC_SEQNO.
  pub set_mac_ack : Packetbuf → Packetbuf
  pub set_mac_seqno : ℕ → Packetbuf → Packetbuf
  -- `NETSTACK_FRAMER.create`, and whether it succeeds.
  pub create : Packetbuf → Packetbuf × Bool
  pub queuebuf_new_from_packetbuf : Pool → Packetbuf → Pool × ℕ
  pub queuebuf_to_packetbuf : ℕ → Packetbuf

-- The state that sending works on: the queues, the packet buffer and the pool, and
-- `ieee154e_vars.dsn`.
pub record Mac (os : Contiki) (bufs : Buffers) : Type 0 where
  pub net : Net os
  pub packetbuf : bufs.Packetbuf
  pub pool : bufs.Pool
  pub dsn : ℕ

-- `++dsn ? dsn : ++dsn` on a `uint8_t`.
pub next_seqno : ℕ → ℕ
next_seqno dsn = let d = u8 (dsn + 1) in if d == 0 then u8 (d + 1) else d

module _ (os : Contiki) (bufs : Buffers) where
  open os use {rimeaddr_cmp, rimeaddr_null}
  open bufs use {
    receiver, set_mac_ack, set_mac_seqno, create, queuebuf_new_from_packetbuf,
    queuebuf_to_packetbuf,
  }

  -- The frame that is built, with the next sequence number.
  make_frame : Mac os bufs → Mac os bufs × Bool
  unfolding next_seqno
  make_frame s =
      let asked =
        if rimeaddr_cmp (receiver s.packetbuf) rimeaddr_null
        then s.packetbuf
        else set_mac_ack s.packetbuf in
      let seqno = next_seqno s.dsn in
      let (b, made) = create (set_mac_seqno seqno asked) in
      (record s { packetbuf = b; dsn = seqno }, made)

  -- The queue buffer is taken from the pool if the queue has room.
  enqueue : ℕ → ℕ → Addr → Mac os bufs → Mac os bufs × ℕ
  enqueue sent ptr addr s =
      let (pool, pkt) = queuebuf_new_from_packetbuf s.pool s.packetbuf in
      let (net, r) = add_packet_to_queue os s.net pkt sent ptr addr in
      (record s { net = net; pool = if r == 1 then pool else s.pool }, r)

  -- A queue is added for a neighbor that has none.
  with_queue : Addr → Mac os bufs → Option ℕ → Mac os bufs × Bool
  with_queue addr s (some i) = (s, true)
  with_queue addr s none =
      let (net, added) = add_queue os s.net addr in
      (record s { net = net }, elim added [ none ↦ false | some i ↦ true ])

  queue_frame : ℕ → ℕ → Addr → Mac os bufs × Bool → Mac os bufs × ℕ
  unfolding enqueue with_queue
  queue_frame sent ptr addr (s, false) = (s, 0)
  queue_frame sent ptr addr (s, true) =
      let (s', there) = with_queue addr s (neighbor_queue_from_addr os s.net addr) in
      let queued = enqueue sent ptr addr s' in if there then queued else (s', 0)

  unfoldable pub send_one_packet : ℕ → ℕ → Mac os bufs → Mac os bufs × ℕ
  unfolding make_frame queue_frame
  send_one_packet sent ptr s = queue_frame sent ptr (receiver s.packetbuf) (make_frame s)

  pub send_packet : ℕ → ℕ → Mac os bufs → Mac os bufs
  unfolding send_one_packet
  send_packet sent ptr s = (send_one_packet sent ptr s).0

  -- The list of `struct rdc_buf_list` as the queuebufs in it.
  pub send_list : ℕ → ℕ → List ℕ → Mac os bufs → Mac os bufs
  unfolding send_one_packet
  send_list sent ptr [] s = s
  send_list sent ptr (buf ∷ rest) s =
      let (s', ok) =
        send_one_packet sent ptr (record s { packetbuf = queuebuf_to_packetbuf buf }) in
      let last = send_list sent ptr rest s' in if to_bool ok then last else s'
