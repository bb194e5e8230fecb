-- ===== src/Powercycle/Queues/Calls.antt =====
-- Each event around powercycle of tsch.c, against the specification of the neighbor queues.
use mathlib.Core.Path.{subst}
use mathlib.Core.Option.{some-injective}
use tsch_minimum.Prelude.{
  ℕ, ◌<◌, ◌≡◌, refl, sym, ap, ◌∙◌, false, not, Option, none, some, List, arith, inl, inr,
  Bool-cases,
}
use tsch_minimum.Contiki.{Contiki, IsContiki, Addr}
use tsch_minimum.Params.{Cell}
use tsch_minimum.Neighbors.{PacketRef, deref, read_packet_from_queue}
use tsch_minimum.Neighbors.Inv.{IsSound}
use tsch_minimum.Neighbors.Addressed.{Addressed, IsFor, settle-Everywhere, read-head, read-receiver}
use tsch_minimum.Neighbors.Fifos.{Fifos}
use tsch_minimum.Neighbors.Refine.{view}
use tsch_minimum.SharedTx.{InTable}
use tsch_minimum.Outcome.{RadioTx}
use tsch_minimum.Outcome.Inv.{finish_tx-IsSound}
use tsch_minimum.Outcome.Table.{finish_tx-table}
use tsch_minimum.Outcome.Retry.{finish_tx_refines}
use tsch_minimum.Powercycle.{Cycle, Readings}
use tsch_minimum.Powercycle.Round.{resume, Event, fires}
use tsch_minimum.Powercycle.Graph.{is_some}
use tsch_minimum.Powercycle.Live.{sends}
use tsch_minimum.Powercycle.Settles.{result, net_after, call_leaves, IsSending}
use tsch_minimum.Powercycle.Queues.{InTable-table, IsReady, IsServed}
use tsch_minimum.Powercycle.Queues.Begins.{Turns, idle-Turns}
use tsch_minimum.Powercycle.Queues.Spec.{Moves}

module _ (os : Contiki) (laws : IsContiki os) (payload : ℕ → List ℕ) where
  -- An event is served: its effect on the queues is one that the specification has.
  abbrev pub Serves : Event → Fifos → Cycle os → Type 0
  Serves e m s = IsServed os laws s × Moves os m e (view os s.net)

  -- The transmission of a packet that is over.
  settled-Serves :
      (r : Readings) (s s' : Cycle os) (x : RadioTx) (n : ℕ) (p : PacketRef) (cell : Cell)
      (a : Addr)
      → r.random < 65536
      → IsReady os laws s.net s.last
      → read_packet_from_queue os s.net a ≡ some p
      → s'.net ≡ net_after os r n p cell s.net s.is_broadcast (some x)
      → s'.last ≡ s.last
      → sends s'.point ≡ false
      → Serves (fires r) (view os s.net) s'
  settled-Serves r s s' x n p cell a small h found net last off =
      let receiver = read-receiver os laws s.net a p h.sound h.addressed found in
      let after =
        ap (view os) net
        ∙ finish_tx_refines os laws x s.net n p cell s.is_broadcast r.random a h.sound found
            receiver in
      (
        record {
          ready = record {
            sound =
                subst (IsSound os) (sym net)
                  (finish_tx-IsSound os x s.net n p cell s.is_broadcast r.random small h.sound);
            addressed =
                subst (Addressed os) (sym after)
                  (settle-Everywhere os laws (IsFor os) (view os s.net) a x h.addressed);
            cursor =
                InTable-table os laws s.net s'.net s'.last
                  (ap (λ t. t.table) net
                    ∙ finish_tx-table os x s.net n p cell s.is_broadcast r.random)
                  (subst (λ c. InTable os laws s.net c) (sym last) h.cursor);
          };
          sending = λ on. absurd (ground (arith, on, off));
        },
        inr (
          a,
          x,
          deref os s.net p,
          record { was_head = read-head os laws s.net a p h.sound found; settled = after },
        ),
      )

  -- The transmission goes on.
  waits-Serves :
      (r : Readings) (s s' : Cycle os) (n : ℕ) (p : PacketRef) (cell : Cell) (a : Addr)
      → IsReady os laws s.net s.last
      → read_packet_from_queue os s.net a ≡ some p
      → s'.net ≡ s.net
      → s'.last ≡ s.last
      → IsSending os r n p cell s'
      → Serves (fires r) (view os s.net) s'
  waits-Serves r s s' n p cell a h found net last sending = (
    record {
      ready =
          subst (λ c. IsReady os laws s'.net c) (sym last)
            (subst (λ t. IsReady os laws t s.last) (sym net) h);
      sending = λ on. (
        n,
        p,
        cell,
        a,
        record {
          neighbor = sending.neighbor;
          packet = sending.packet;
          its_cell = sending.its_cell;
          first = ap (λ t. read_packet_from_queue os t a) net ∙ found;
        },
      );
    },
    inl (ap (view os) net),
  )

  left-Serves :
      (r : Readings) (s s' : Cycle os) (x : Option RadioTx) (n : ℕ) (p : PacketRef) (cell : Cell)
      (a : Addr)
      → r.random < 65536
      → IsReady os laws s.net s.last
      → read_packet_from_queue os s.net a ≡ some p
      → s'.net ≡ net_after os r n p cell s.net s.is_broadcast x
      → s'.last ≡ s.last
      → sends s'.point ≡ not (is_some x)
      → IsSending os r n p cell s'
      → Serves (fires r) (view os s.net) s'
  left-Serves r s s' none n p cell a small h found net last on sending =
      waits-Serves r s s' n p cell a h found net last sending
  left-Serves r s s' (some x) n p cell a small h found net last on sending =
      settled-Serves r s s' x n p cell a small h found net last on

  Turns-Serves :
      (r : Readings) (m : Fifos) (o : Option (Cycle os)) (s' : Cycle os)
      → Turns os laws payload r m o
      → o ≡ some s'
      → Serves (fires r) m s'
  Turns-Serves r m none s' h e = absurd (ground (arith, e))
  Turns-Serves r m (some s) s' h e =
      subst (Serves (fires r) m) (some-injective _ _ e)
        (record { ready = h.0; sending = h.2 }, inl h.1)

  pub resume-Serves :
      (r : Readings) (s s' : Cycle os)
      → r.random < 65536
      → IsServed os laws s
      → resume os payload r s ≡ some s'
      → Serves (fires r) (view os s.net) s'
  unfolding resume
  resume-Serves r s s' small h e = elim (Bool-cases (sends s.point)) [
    | inl on ↦
        let x = result s.point r s.is_broadcast s.len s.seqno in
        let (n, p, cell, a, f) = h.sending on in
        let (t, g, net, over, off, sending, last) =
          call_leaves os r n p cell payload s on
            (record { neighbor = f.neighbor; packet = f.packet; its_cell = f.its_cell }) in
        subst (Serves (fires r) (view os s.net)) (some-injective _ _ (sym g ∙ e))
          (left-Serves r s t x n p cell a small h.ready f.first net last off sending)
    | inr off ↦
        Turns-Serves r (view os s.net) (resume os payload r s) s'
          (idle-Turns os laws payload r (view os s.net) s.point (record s { timer = none }) off
            h.ready refl)
          e
  ]
