-- ===== src/Powercycle/Settles/Slot.antt =====
-- A slot of powercycle of tsch.c that sends, to its end, while interrupts come and processes add
-- packets.
use mathlib.Core.Path.{subst}
use mathlib.Core.Option.{some-injective}
use tsch_minimum.Prelude.{
  branch, ℕ, ◌≡◌, refl, sym, ap, ◌∙◌, Bool, true, false, not, ◌&&◌, ◌||◌, Option, none, some, List,
  [], ◌∷◌, arith, Option-cases, inl, inr,
}
use tsch_minimum.Contiki.{Contiki, IsContiki, Addr}
use tsch_minimum.Params.{Cell}
use tsch_minimum.Outcome.{RadioTx}
use tsch_minimum.Prelude.Words.{to_bool}
use tsch_minimum.Neighbors.{Net, PacketRef, deref, add_packet_to_queue, read_packet_from_queue}
use tsch_minimum.Neighbors.Inv.{IsSound, add_packet_to_queue-IsSound}
use tsch_minimum.Neighbors.Fifos
use tsch_minimum.Neighbors.Fifos.{Fifos, add}
use tsch_minimum.Neighbors.Refine.{view, add_view}
use tsch_minimum.Neighbors.Head.{add-head}
use tsch_minimum.Powercycle.{Cycle, Readings, arm}
use tsch_minimum.Powercycle.Round.{
  resume, tsch_resume_powercycle, Event, fires, interrupts, adds, ask_ack, fire, step, run,
}
use tsch_minimum.Powercycle.Graph.{in_slot, is_some}
use tsch_minimum.Powercycle.Live.{sends}
use tsch_minimum.Powercycle.Settles.{result, net_after, call_leaves}
use tsch_minimum.Powercycle.Settles.Calls.{settled_view, call_settles}

module _ (os : Contiki) (payload : ℕ → List ℕ) where
  -- The slot goes on, sending, after each of the events.
  abbrev pub outlasts : List Event → Cycle os → Bool
  outlasts [] s = true
  outlasts (e ∷ es) s = elim (step os payload e s) [
    | none ↦ false
    | some s' ↦ sends s'.point && outlasts es s'
  ]

  -- What the processes add to the queues.
  abbrev pub added_by : Event → Fifos → Fifos
  added_by (fires r) m = m
  added_by (interrupts ack need_ack_irq rf r) m = m
  added_by (adds pkt sent ptr b) m = (Fifos.step os.rimeaddr_cmp m (add pkt sent ptr b)).0

  abbrev pub added : List Event → Fifos → Fifos
  added [] m = m
  added (e ∷ es) m = added es (added_by e m)

module _ (os : Contiki) (laws : IsContiki os) (payload : ℕ → List ℕ) where
  module _ (n : ℕ) (p : PacketRef) (cell : Cell) (a : Addr) where
    -- The slot sends `p`, the head of the queue of its receiver `a`; the queues are those of `m`.
    record Holds (m : Fifos) (s : Cycle os) : Type 0 where
      sends_on : sends s.point ≡ true
      sending : s.n ≡ some n
      packet : s.p ≡ some p
      its_cell : s.cell ≡ some cell
      sound : IsSound os s.net
      found : read_packet_from_queue os s.net a ≡ some p
      receiver : os.queuebuf_addr (deref os s.net p).pkt ≡ a
      queues : view os s.net ≡ m

    -- What leaves the queues and the packet that is sent alone.
    kept :
        (m : Fifos) (s s' : Cycle os)
        → Holds m s
        → s'.net ≡ s.net
        → sends s'.point ≡ true
        → s'.n ≡ some n
        → s'.p ≡ some p
        → s'.cell ≡ some cell
        → Holds m s'
    kept m s s' h net on en ep ec = record {
      sends_on = on;
      sending = en;
      packet = ep;
      its_cell = ec;
      sound = subst (IsSound os) (sym net) h.sound;
      found = ap (λ x. read_packet_from_queue os x a) net ∙ h.found;
      receiver = ap (λ x. os.queuebuf_addr (deref os x p).pkt) net ∙ h.receiver;
      queues = ap (view os) net ∙ h.queues;
    }

    resumed-Holds :
        (m : Fifos) (need_ack_irq : ℕ) (rf : Option Addr) (r : Readings) (s : Cycle os)
        → Holds m s
        → Holds m (tsch_resume_powercycle os need_ack_irq rf r s)
    unfolding tsch_resume_powercycle arm
    resumed-Holds m need_ack_irq rf r s h =
        branch (Holds m) (s.waiting_for_radio_interrupt || to_bool r.rx_end_time)
          (kept m s _ h refl h.sends_on h.sending h.packet h.its_cell)
          (kept m s _ h refl h.sends_on h.sending h.packet h.its_cell)

    asked-Holds :
        (m : Fifos) (ack : Option (ℕ × ℕ × ℕ)) (s : Cycle os)
        → Holds m s
        → Holds m (ask_ack os ack s)
    unfolding ask_ack
    asked-Holds m none s h = h
    asked-Holds m (some (seqno, timestamp, nack)) s h =
        kept m s _ h refl h.sends_on h.sending h.packet h.its_cell

    adds-Holds :
        (m : Fifos) (pkt sent ptr : ℕ) (b : Addr) (s : Cycle os)
        → Holds m s
        → Holds
            (added_by os payload (adds pkt sent ptr b) m)
            (record s { net = (add_packet_to_queue os s.net pkt sent ptr b).0 })
    unfolding Fifos.step
    adds-Holds m pkt sent ptr b s h =
        let l = add-head os s.net a p pkt sent ptr b h.sound h.found in
        record {
          sends_on = h.sends_on;
          sending = h.sending;
          packet = h.packet;
          its_cell = h.its_cell;
          sound = add_packet_to_queue-IsSound os s.net pkt sent ptr b h.sound;
          found = l.0;
          receiver = ap (λ x. os.queuebuf_addr x.pkt) l.1 ∙ h.receiver;
          queues =
              (add_view os laws s.net pkt sent ptr b h.sound).0
              ∙ ap (added_by os payload (adds pkt sent ptr b)) h.queues;
        }

    net_after-none :
        (r : Readings) (net : Net os) (bc : Bool) (x : Option RadioTx)
        → not (is_some x) ≡ true
        → net_after os r n p cell net bc x ≡ net
    net_after-none r net bc none e = refl
    net_after-none r net bc (some x) e = absurd (ground (arith, e))

    resume-Holds :
        (m : Fifos) (r : Readings) (s s' : Cycle os)
        → Holds m s
        → resume os payload r s ≡ some s'
        → sends s'.point ≡ true
        → Holds m s'
    resume-Holds m r s s' h e goes =
        let x = result s.point r s.is_broadcast s.len s.seqno in
        let (t, f, net, over, on, sending, last) =
          call_leaves os r n p cell payload s h.sends_on
            (record { neighbor = h.sending; packet = h.packet; its_cell = h.its_cell }) in
        let same : t ≡ s' = some-injective _ _ (sym f ∙ e) in
        let goes_t : sends t.point ≡ true = ap (λ t. sends t.point) same ∙ goes in
        subst (Holds m) same (
          kept m s t h (net ∙ net_after-none r s.net s.is_broadcast x (sym on ∙ goes_t)) goes_t
            sending.neighbor sending.packet sending.its_cell)

    fire-Holds :
        (m : Fifos) (r : Readings) (timer : Option ℕ) (s s' : Cycle os)
        → Holds m s
        → fire os payload r timer s ≡ some s'
        → sends s'.point ≡ true
        → Holds m s'
    unfolding fire
    fire-Holds m r none s s' h e goes = subst (Holds m) (some-injective _ _ e) h
    fire-Holds m r (some time) s s' h e goes = resume-Holds m r s s' h e goes

    step-Holds :
        (m : Fifos) (e : Event) (s s' : Cycle os)
        → Holds m s
        → step os payload e s ≡ some s'
        → sends s'.point ≡ true
        → Holds (added_by os payload e m) s'
    unfolding step
    step-Holds m (fires r) s s' h f goes = fire-Holds m r s.timer s s' h f goes
    step-Holds m (interrupts ack need_ack_irq rf r) s s' h f goes =
        subst (Holds m) (some-injective _ _ f)
          (resumed-Holds m need_ack_irq rf r (ask_ack os ack s) (asked-Holds m ack s h))
    step-Holds m (adds pkt sent ptr b) s s' h f goes =
        subst (Holds (added_by os payload (adds pkt sent ptr b) m)) (some-injective _ _ f)
          (adds-Holds m pkt sent ptr b s h)

    run-Holds :
        (m : Fifos) (es : List Event) (s : Cycle os)
        → Holds m s
        → outlasts os payload es s ≡ true
        → (t : Cycle os) × (run os payload es s ≡ some t) × Holds (added os payload es m) t
    unfolding run
    run-Holds m [] s h lasts = (s, refl, h)
    run-Holds m (e ∷ es) s h lasts = elim (Option-cases (step os payload e s)) [
      | inl f ↦ absurd (ground (arith, f, lasts))
      | inr (s', f) ↦
          let l : sends s'.point && outlasts os payload es s' ≡ true = rw (outlasts, f) at lasts in
          rw (f, run)
            (run-Holds (added_by os payload e m) es s' (step-Holds m e s s' h f (ground (arith, l)))
              (ground (arith, l)))
    ]

  -- A slot that sends the packet `p` to its receiver `a`, of whose queue it is the first, after any
  -- timers, interrupts and additions of packets that leave the slot sending: the protothread has
  -- read nothing through NULL, and at its next call, if the radio's answers come to no result, the
  -- slot goes on and the queues are those from before with the packets added; if they come to a
  -- result, the slot is over, and the queues are these where a success has taken the first packet
  -- off the queue of `a`, a failure has kept it there for another try or dropped it after the last,
  -- and all else is kept.
  pub slot_settles :
      (r : Readings) (n : ℕ) (p : PacketRef) (cell : Cell) (es : List Event) (s : Cycle os)
      (a : Addr)
      → sends s.point ≡ true
      → s.n ≡ some n
      → s.p ≡ some p
      → s.cell ≡ some cell
      → IsSound os s.net
      → read_packet_from_queue os s.net a ≡ some p
      → os.queuebuf_addr (deref os s.net p).pkt ≡ a
      → outlasts os payload es s ≡ true
      → (t : Cycle os) × (s' : Cycle os) × (run os payload es s ≡ some t)
        × (resume os payload r t ≡ some s')
        × let x = result t.point r t.is_broadcast t.len t.seqno in
          (in_slot s'.point ≡ not (is_some x))
          × (view os s'.net ≡ settled_view os (added os payload es (view os s.net)) a x)
  slot_settles r n p cell es s a e en ep ec sound found receiver lasts =
      let (t, f, h) =
        run-Holds n p cell a (view os s.net) es s
          (record {
            sends_on = e;
            sending = en;
            packet = ep;
            its_cell = ec;
            sound = sound;
            found = found;
            receiver = receiver;
            queues = refl;
          })
          lasts in
      let (s', g, over, queues) =
        call_settles os laws payload r n p cell t a h.sends_on h.sending h.packet h.its_cell h.sound
          h.found h.receiver in
      let x = result t.point r t.is_broadcast t.len t.seqno in
      (t, s', f, g, (over, queues ∙ ap (λ m. settled_view os m a x) h.queues))
