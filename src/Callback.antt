-- ===== src/Callback.antt =====
-- The process of tsch.c that calls the MAC layer back: `tsch_tx_callback_process`.
pub mod Spared
pub mod Reports
use tsch_minimum.Prelude.{ℕ, Option, none, some, List, [], ◌∷◌}
use tsch_minimum.Contiki.{Contiki, Addr}
use tsch_minimum.Queue.{MacTx}
use tsch_minimum.Neighbors.{Net, PacketRef, deref, add_packet_to_queue}

-- The arguments of `mac_call_sent_callback`.
pub record Report : Type 0 where
  pub sent : ℕ
  pub ptr : ℕ
  pub ret : MacTx
  pub transmissions : ℕ

module _ (os : Contiki) where
  -- A poll with the pointer that was posted, which is read when the process runs.
  pub tsch_tx_callback_process : Net os → Option PacketRef → Option Report
  tsch_tx_callback_process s none = none
  tsch_tx_callback_process s (some p) =
      let t = deref os s p in
      some (record { sent = t.sent; ptr = t.ptr; ret = t.ret; transmissions = t.transmissions })

-- The packets that processes add before: each a queuebuf, the callback, its pointer, and the
-- receiver.
abbrev pub Adds : Type 0
Adds = List (ℕ × ℕ × ℕ × Addr)

module _ (os : Contiki) where
  unfoldable pub add_all : Adds → Net os → Net os
  add_all [] s = s
  add_all ((pkt, sent, ptr, a) ∷ ps) s = add_all ps (add_packet_to_queue os s pkt sent ptr a).0
