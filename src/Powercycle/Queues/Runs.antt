-- ===== src/Powercycle/Queues/Runs.antt =====
-- Any order of events around powercycle of tsch.c, against the specification of the neighbor queues.
use mathlib.Core.Path.{subst}
use mathlib.Core.Option.{some-injective}
use tsch_minimum.Prelude.{
  ℕ, ◌<◌, ◌≡◌, refl, sym, ap, ◌∙◌, true, ◌||◌, Option, none, some, List, [], ◌∷◌, arith, branch,
  inl, inr, Option-cases, ltb→lt,
}
use tsch_minimum.Prelude.Words.{to_bool}
use tsch_minimum.Contiki.{Contiki, IsContiki, Addr}
use tsch_minimum.Neighbors.{add_packet_to_queue}
use tsch_minimum.Neighbors.Inv.{add_packet_to_queue-IsSound}
use tsch_minimum.Neighbors.Head.{add-head, add-table}
use tsch_minimum.Neighbors.Addressed.{Addressed, IsFor, add-Everywhere}
use tsch_minimum.Neighbors.Fifos
use tsch_minimum.Neighbors.Fifos.{Fifos}
use tsch_minimum.Neighbors.Refine.{view, add_view}
use tsch_minimum.Powercycle.{Cycle, Readings, arm}
use tsch_minimum.Powercycle.Round.{
  tsch_resume_powercycle, Event, fires, interrupts, adds, ask_ack, fire, step, run,
}
use tsch_minimum.Powercycle.Queues.{InTable-table, SendsFirst, IsServed}
use tsch_minimum.Powercycle.Queues.Calls.{Serves, resume-Serves}
use tsch_minimum.Powercycle.Queues.Spec.{Traces, is_proper, are_proper}

module _ (os : Contiki) (laws : IsContiki os) (payload : ℕ → List ℕ) where
  asked-IsServed :
      (ack : Option (ℕ × ℕ × ℕ)) (s : Cycle os)
      → IsServed os laws s
      → IsServed os laws (ask_ack os ack s) × ((ask_ack os ack s).net ≡ s.net)
  unfolding ask_ack
  asked-IsServed none s h = (h, refl)
  asked-IsServed (some (seqno, timestamp, nack)) s h =
      (record { ready = h.ready; sending = λ on. again s (h.sending on) }, refl)
    where
      again :
          (s : Cycle os)
          → SendsFirst os laws s
          → SendsFirst os laws (ask_ack os (some (seqno, timestamp, nack)) s)
      again s (n, p, cell, a, f) = (
        n,
        p,
        cell,
        a,
        record { neighbor = f.neighbor; packet = f.packet; its_cell = f.its_cell; first = f.first },
      )

  resumed-IsServed :
      (need_ack_irq : ℕ) (rf : Option Addr) (r : Readings) (s : Cycle os)
      → IsServed os laws s
      → let t = tsch_resume_powercycle os need_ack_irq rf r s in
        IsServed os laws t × (t.net ≡ s.net)
  unfolding tsch_resume_powercycle arm
  resumed-IsServed need_ack_irq rf r s h =
      branch (λ (t : Cycle os). IsServed os laws t × (t.net ≡ s.net))
        (s.waiting_for_radio_interrupt || to_bool r.rx_end_time)
        (
          record {
            ready = h.ready;
            sending = λ on.
                let (n, p, cell, a, f) = h.sending on in
                (
                  n,
                  p,
                  cell,
                  a,
                  record {
                    neighbor = f.neighbor;
                    packet = f.packet;
                    its_cell = f.its_cell;
                    first = f.first;
                  },
                );
          },
          refl,
        )
        (
          record {
            ready = h.ready;
            sending = λ on.
                let (n, p, cell, a, f) = h.sending on in
                (
                  n,
                  p,
                  cell,
                  a,
                  record {
                    neighbor = f.neighbor;
                    packet = f.packet;
                    its_cell = f.its_cell;
                    first = f.first;
                  },
                );
          },
          refl,
        )

  adds-Serves :
      (pkt sent ptr : ℕ) (b : Addr) (s : Cycle os)
      → os.queuebuf_addr pkt ≡ b
      → IsServed os laws s
      → Serves os laws payload
          (adds pkt sent ptr b)
          (view os s.net)
          (record s { net = (add_packet_to_queue os s.net pkt sent ptr b).0 })
  unfolding Fifos.step
  adds-Serves pkt sent ptr b s e h =
      let added = (add_view os laws s.net pkt sent ptr b h.ready.sound).0 in
      (
        record {
          ready = record {
            sound = add_packet_to_queue-IsSound os s.net pkt sent ptr b h.ready.sound;
            addressed = subst (Addressed os) (sym added) (
                add-Everywhere os laws (IsFor os) (view os s.net) pkt sent ptr b h.ready.addressed
                  e);
            cursor =
                InTable-table os laws s.net (add_packet_to_queue os s.net pkt sent ptr b).0 s.last
                  (add-table os s.net pkt sent ptr b) h.ready.cursor;
          };
          sending = λ on.
              let (n, p, cell, a, f) = h.sending on in
              (
                n,
                p,
                cell,
                a,
                record {
                  neighbor = f.neighbor;
                  packet = f.packet;
                  its_cell = f.its_cell;
                  first = (add-head os s.net a p pkt sent ptr b h.ready.sound f.first).0;
                },
              );
        },
        added,
      )

  fire-Serves :
      (r : Readings) (t : Option ℕ) (s s' : Cycle os)
      → r.random < 65536
      → IsServed os laws s
      → fire os payload r t s ≡ some s'
      → Serves os laws payload (fires r) (view os s.net) s'
  unfolding fire
  fire-Serves r none s s' small h e =
      subst (Serves os laws payload (fires r) (view os s.net)) (some-injective _ _ e) (h, inl refl)
  fire-Serves r (some time) s s' small h e = resume-Serves os laws payload r s s' small h e

  pub step-Serves :
      (e : Event) (s s' : Cycle os)
      → is_proper os e ≡ true
      → IsServed os laws s
      → step os payload e s ≡ some s'
      → Serves os laws payload e (view os s.net) s'
  unfolding step
  step-Serves (fires r) s s' proper h e =
      fire-Serves r s.timer s s' (ltb→lt r.random 65536 proper) h e
  step-Serves (interrupts ack need_ack_irq rf r) s s' proper h e =
      let (asked, net) = asked-IsServed ack s h in
      let (resumed, net') = resumed-IsServed need_ack_irq rf r (ask_ack os ack s) asked in
      subst (Serves os laws payload (interrupts ack need_ack_irq rf r) (view os s.net))
        (some-injective _ _ e) (resumed, ap (view os) (net' ∙ net))
  step-Serves (adds pkt sent ptr b) s s' proper h e =
      subst (Serves os laws payload (adds pkt sent ptr b) (view os s.net)) (some-injective _ _ e)
        (adds-Serves pkt sent ptr b s ((laws.cmp_iff _ b).0 proper) h)

  -- Through timer calls, interrupts and calls of add_packet_to_queue in any order, the neighbor
  -- queues do what their specification does: the timer settles at most one transmission, of a
  -- packet at the head of its queue, a process adds a packet at the end of its receiver's, and
  -- nothing else changes a queue. This holds of a state with valid queues, each packet in its
  -- receiver's, the cursor NULL or in the table, and, if it is sending, the first packet of a queue
  -- being sent, and it is so again after the events, if random_rand() gives 16 bits and packets are
  -- added to the queues of their receivers.
  pub run-Traces :
      (es : List Event) (s s' : Cycle os)
      → are_proper os es ≡ true
      → IsServed os laws s
      → run os payload es s ≡ some s'
      → IsServed os laws s' × Traces os (view os s.net) es (view os s'.net)
  unfolding run
  run-Traces [] s s' proper h e =
      subst (λ t. IsServed os laws t × (view os t.net ≡ view os s.net)) (some-injective _ _ e)
        (h, refl)
  run-Traces (x ∷ es) s s' proper h e = elim (Option-cases (step os payload x s)) [
    | inl f ↦ absurd (ground (arith, e))
    | inr (t, f) ↦
        let (served, moved) = step-Serves x s t (ground (arith, proper)) h f in
        let (again, traced) =
          run-Traces es t s' (ground (arith, proper)) served (rw (f, run) at e) in
        (again, (view os t.net, moved, traced))
  ]
