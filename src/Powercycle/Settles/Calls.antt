-- ===== src/Powercycle/Settles/Calls.antt =====
-- A call of the protothread in a slot of powercycle of tsch.c that sends, as the neighbor queues see
-- it.
use tsch_minimum.Prelude.{ℕ, List, ◌≡◌, refl, ap, ◌∙◌, Bool, true, not, Option, none, some}
use tsch_minimum.Contiki.{Contiki, IsContiki, Addr}
use tsch_minimum.Params.{Cell}
use tsch_minimum.Neighbors.{Net, PacketRef, deref, read_packet_from_queue}
use tsch_minimum.Neighbors.Inv.{IsSound}
use tsch_minimum.Neighbors.Fifos.{Fifos, at}
use tsch_minimum.Neighbors.Refine.{view}
use tsch_minimum.Outcome.{RadioTx}
use tsch_minimum.Outcome.Settle.{settle_at}
use tsch_minimum.Outcome.Retry.{finish_tx_refines}
use tsch_minimum.Powercycle.{Cycle, Readings}
use tsch_minimum.Powercycle.Round.{resume}
use tsch_minimum.Powercycle.Graph.{in_slot, is_some}
use tsch_minimum.Powercycle.Live.{sends}
use tsch_minimum.Powercycle.Settles.{result, net_after, call_leaves}

-- What a result means for the queues, where the packet is one for `a`.
module _ (os : Contiki) where
  abbrev pub settled_view : Fifos → Addr → Option RadioTx → Fifos
  settled_view m a none = m
  settled_view m a (some x) = at os.rimeaddr_cmp m a (settle_at x (m a))

module _ (os : Contiki) (laws : IsContiki os) (payload : ℕ → List ℕ) where
  view-net_after :
      (r : Readings) (n : ℕ) (p : PacketRef) (cell : Cell) (net : Net os) (bc : Bool)
      (x : Option RadioTx) (a : Addr)
      → IsSound os net
      → read_packet_from_queue os net a ≡ some p
      → os.queuebuf_addr (deref os net p).pkt ≡ a
      → view os (net_after os r n p cell net bc x) ≡ settled_view os (view os net) a x
  view-net_after r n p cell net bc none a sound found receiver = refl
  view-net_after r n p cell net bc (some x) a sound found receiver =
      finish_tx_refines os laws x net n p cell bc r.random a sound found receiver

  -- A call of the protothread in the middle of a slot that sends the packet `p` to its receiver
  -- `a`, of whose queue it is the first: if the radio's answers come to no result yet, the slot
  -- goes on and all queues stay as they are; if they come to a result, the slot is over, a success
  -- (a broadcast that was sent, or an acknowledgment with the packet's number) has taken the packet
  -- off the queue of `a`, a failure has kept it there for another try or dropped it after the last,
  -- and the other queues are as they were.
  pub call_settles :
      (r : Readings) (n : ℕ) (p : PacketRef) (cell : Cell) (s : Cycle os) (a : Addr)
      → sends s.point ≡ true
      → s.n ≡ some n
      → s.p ≡ some p
      → s.cell ≡ some cell
      → IsSound os s.net
      → read_packet_from_queue os s.net a ≡ some p
      → os.queuebuf_addr (deref os s.net p).pkt ≡ a
      → let x = result s.point r s.is_broadcast s.len s.seqno in
        (s' : Cycle os) × (resume os payload r s ≡ some s')
        × (in_slot s'.point ≡ not (is_some x))
        × (view os s'.net ≡ settled_view os (view os s.net) a x)
  call_settles r n p cell s a e en ep ec sound found receiver =
      let x = result s.point r s.is_broadcast s.len s.seqno in
      let (s', f, net, over, sends_on, sending, last) =
        call_leaves os r n p cell payload s e
          (record { neighbor = en; packet = ep; its_cell = ec }) in
      (
        s',
        f,
        over,
        ap (view os) net ∙ view-net_after r n p cell s.net s.is_broadcast x a sound found receiver,
      )
