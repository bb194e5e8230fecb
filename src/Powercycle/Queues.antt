-- ===== src/Powercycle/Queues.antt =====
-- The neighbor queues through the whole of powercycle of tsch.c, slot after slot, against their
-- specification. This file has what is kept between the calls of the protothread.
mod Begins
pub mod Spec
pub mod Calls
pub mod Runs
pub mod Order
pub mod Tests
use tsch_minimum.Prelude.{ℕ, ◌≡◌, ap, ◌∙◌, true, none, some}
use tsch_minimum.Contiki.{Contiki, IsContiki, Addr}
use tsch_minimum.Params.{Cell}
use tsch_minimum.Neighbors.{Net, PacketRef, read_packet_from_queue}
use tsch_minimum.Neighbors.Inv.{IsSound}
use tsch_minimum.Neighbors.Addressed.{Addressed}
use tsch_minimum.Neighbors.Refine.{view}
use tsch_minimum.SharedTx.{Cursor, InTable}
use tsch_minimum.Powercycle.{Cycle}
use tsch_minimum.Powercycle.Live.{sends}

module _ (os : Contiki) (laws : IsContiki os) where
  pub InTable-table :
      (s t : Net os) (last : Cursor)
      → t.table ≡ s.table
      → InTable os laws s last
      → InTable os laws t last
  InTable-table s t none e h = tt
  InTable-table s t (some i) e (xs, ys, f) = (xs, ys, ap laws.items e ∙ f)

  -- The queues are valid, each packet waits in the queue of its receiver, and the cursor is NULL or
  -- points into the table.
  pub record IsReady (net : Net os) (last : Cursor) : Type 0 where
    pub sound : IsSound os net
    pub addressed : Addressed os (view os net)
    pub cursor : InTable os laws net last

  -- The packet that is sent, with its neighbor and its cell, is the first of the queue of an address.
  pub record IsSendingFirst (s : Cycle os) (n : ℕ) (p : PacketRef) (cell : Cell) (a : Addr)
      : Type 0 where
    pub neighbor : s.n ≡ some n
    pub packet : s.p ≡ some p
    pub its_cell : s.cell ≡ some cell
    pub first : read_packet_from_queue os s.net a ≡ some p

  abbrev pub SendsFirst : Cycle os → Type 0
  SendsFirst s =
      (n : ℕ) × (p : PacketRef) × (cell : Cell) × (a : Addr) × IsSendingFirst s n p cell a

  -- What holds at each yield.
  pub record IsServed (s : Cycle os) : Type 0 where
    pub ready : IsReady s.net s.last
    pub sending : sends s.point ≡ true → SendsFirst s
