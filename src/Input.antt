-- ===== src/Input.antt =====
-- What the MAC layer of tsch.c does with a received packet: `packet_input` drops a link-layer
-- duplicate.
pub mod History
use tsch_minimum.Prelude.{
  ℕ, Bool, true, false, ◌&&◌, ◌||◌, Option, none, some, List, [], ◌∷◌, ◌==◌, if◌then◌else◌, take,
  replicate,
}
use tsch_minimum.Prelude.Words.{u8}
use tsch_minimum.Contiki.{Contiki, Addr}

-- MAX_SEQNOS: project-conf.h sets no other history.
abbrev pub max_seqnos : ℕ
max_seqnos = 8

-- `struct seqno`.
pub record Seqno : Type 0 where
  pub sender : Addr
  pub seqno : ℕ

-- The history when the program is loaded: eight entries of zero bytes.
abbrev pub received_seqnos : List Seqno
received_seqnos = replicate max_seqnos (record { sender = replicate 8 0; seqno = 0 })

-- What a packet is known by: PACKETBUF_ADDR_SENDER and PACKETBUF_ATTR_PACKET_ID.
pub record Packet : Type 0 where
  pub sender_addr : Addr
  pub packet_id : ℕ

module _ (os : Contiki) where
  open os use {rimeaddr_cmp}

  abbrev pub matches : Packet → Seqno → Bool
  matches p s = (p.packet_id == s.seqno) && rimeaddr_cmp p.sender_addr s.sender

  -- The `for` loop over `received_seqnos`.
  pub is_duplicate : Packet → List Seqno → Bool
  is_duplicate p [] = false
  is_duplicate p (s ∷ ss) = matches p s || is_duplicate p ss

  -- The entries are moved up by one, and the last one is lost.
  pub remember : Packet → List Seqno → List Seqno
  remember p ss = take max_seqnos (record { sender = p.sender_addr; seqno = u8 p.packet_id } ∷ ss)

  -- `packet_input` on the packet that the framer parsed, or `none` where it could not: the history,
  -- and whether `NETSTACK_MAC.input` is called.
  pub packet_input : Option Packet → List Seqno → List Seqno × Bool
  unfolding is_duplicate remember
  packet_input none ss = (ss, false)
  packet_input (some p) ss = if is_duplicate p ss then (ss, false) else (remember p ss, true)
