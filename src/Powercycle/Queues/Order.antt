-- ===== src/Powercycle/Queues/Order.antt =====
-- The order in which packets leave the neighbor queues of tsch.c.
use mathlib.Core.Path.{subst}
use mathlib.Core.List.{append_assoc, append-nil}
use tsch_minimum.Prelude.{
  ℕ, suc, ◌+◌, ◌≤◌, ◌≡◌, ◌⊎◌, refl, sym, ap, ◌∙◌, true, Bool, ◌&&◌, Option-cases, Option, none,
  some, List, [], ◌∷◌, ◌++◌, map, arith, inl, inr, Bool-cases, drop, length, ◌==◌, if◌then◌else◌,
}
use tsch_minimum.Prelude.Words.{u8}
use tsch_minimum.Contiki.{Contiki, IsContiki, Addr}
use tsch_minimum.Queue.{TschPacket, MacTx, new_packet, mac_max_frame_retries}
use tsch_minimum.Queue.Fifo
use tsch_minimum.Queue.Fifo.{Fifo, capacity}
use tsch_minimum.Neighbors.Fifos
use tsch_minimum.Neighbors.Fifos.{Fifos, add, add_to, head_of}
use mathlib.Core.Option.{some-injective}
use tsch_minimum.Neighbors.{Net, add_packet_to_queue}
use tsch_minimum.Neighbors.Inv.{IsSound}
use tsch_minimum.Neighbors.Refine.{view, add_view}
use tsch_minimum.Outcome.{RadioTx}
use tsch_minimum.Outcome.Settle.{retry, sent, settle, settle_at}
use tsch_minimum.Powercycle.{Cycle}
use tsch_minimum.Powercycle.Round.{Event, fires, interrupts, adds, step, run}
use tsch_minimum.Powercycle.Queues.{IsServed}
use tsch_minimum.Powercycle.Queues.Spec.{Moves, are_proper}
use tsch_minimum.Powercycle.Queues.Runs.{step-Serves}

-- The queuebufs that wait.
abbrev pub ids : Option Fifo → List ℕ
ids none = []
ids (some f) = map (λ p. p.pkt) f

-- How often the timer fires.
abbrev pub fired : List Event → ℕ
fired [] = 0
fired (fires r ∷ es) = suc (fired es)
fired (interrupts ack need_ack_irq rf r ∷ es) = fired es
fired (adds pkt sent ptr a ∷ es) = fired es

-- Of the packets that waited and then those that were taken in, in their order, all but the first
-- ones wait, and there are at most as many of these as `calls`.
pub record InOrder (old taken new : List ℕ) (calls : ℕ) : Type 0 where
  pub gone : ℕ
  pub left : new ≡ drop gone (old ++ taken)
  pub few : gone ≤ calls

-- The packet of an event for `a`, if add_packet_to_queue answers 1.
abbrev accepts : Bool → ℕ → ℕ → List ℕ
accepts for_a pkt answer = if for_a && (answer == 1) then pkt ∷ [] else []

module _ (os : Contiki) where
  taken_from : Fifos → Addr → Event → List ℕ
  taken_from m a (adds pkt sent ptr b) =
      accepts (os.rimeaddr_cmp b a) pkt (add_to (new_packet pkt sent ptr) (m b)).1
  taken_from m a e = []

  abbrev pub taken_in : Net os → Addr → Event → List ℕ
  taken_in s a (adds pkt sent ptr b) =
      if os.rimeaddr_cmp b a && ((add_packet_to_queue os s pkt sent ptr b).1 == 1)
      then pkt ∷ []
      else []
  taken_in s a e = []

  -- The packets for `a` that add_packet_to_queue takes in, while the events happen.
  unfoldable pub accepted : (ℕ → List ℕ) → Addr → List Event → Cycle os → List ℕ
  accepted payload a [] s = []
  accepted payload a (e ∷ es) s =
      let rest : List ℕ = elim (step os payload e s) [
        | none ↦ []
        | some t ↦ accepted payload a es t
      ] in
      taken_in s.net a e ++ rest

-- What a transmission does to the list of the queuebufs.
retry-ids :
    (ret : MacTx) (p : TschPacket) (f : Fifo)
    → (ids (some (retry ret (p ∷ f))) ≡ ids (some f))
      ⊎ (ids (some (retry ret (p ∷ f))) ≡ ids (some (p ∷ f)))
retry-ids ret p f = elim (Bool-cases (u8 (p.transmissions + 1) == mac_max_frame_retries)) [
  | inl last ↦ inl (rw last refl)
  | inr more ↦ inr (rw more refl)
]

settle-ids :
    (x : RadioTx) (p : TschPacket) (f : Fifo)
    → (ids (some (settle x (p ∷ f))) ≡ ids (some f))
      ⊎ (ids (some (settle x (p ∷ f))) ≡ ids (some (p ∷ f)))
settle-ids RadioTx.ok p f = inl refl
settle-ids RadioTx.other p f = inl refl
settle-ids RadioTx.noack p f = retry-ids MacTx.noack p f
settle-ids RadioTx.collision p f = retry-ids MacTx.collision p f
settle-ids RadioTx.err p f = retry-ids MacTx.err p f

-- One more event before.
later :
    {old taken new : List ℕ} {calls : ℕ}
    → InOrder old taken new calls
    → InOrder old taken new (suc calls)
later h = record { gone = h.gone; left = h.left; few = omega (arith, h.few) }

one_gone :
    {old taken new : List ℕ} {calls : ℕ} (p : ℕ)
    → InOrder old taken new calls
    → InOrder (p ∷ old) taken new (suc calls)
one_gone p h = record { gone = suc h.gone; left = h.left; few = omega (arith, h.few) }

one_taken :
    {old taken new : List ℕ} {calls : ℕ} (p : ℕ)
    → InOrder (old ++ (p ∷ [])) taken new calls
    → InOrder old (p ∷ taken) new calls
one_taken {old} {taken} p h = record {
  gone = h.gone;
  left = h.left ∙ ap (drop h.gone) (append_assoc old (p ∷ []) taken);
  few = h.few;
}

settled-InOrder :
    (x : RadioTx) (o : Option Fifo) (p : TschPacket) {off new : List ℕ} {calls : ℕ}
    → head_of o ≡ some p
    → InOrder (ids (settle_at x o)) off new calls
    → InOrder (ids o) off new (suc calls)
unfolding head_of Fifo.head
settled-InOrder x none p e h = absurd (ground (arith, e))
settled-InOrder x (some []) p e h = absurd (ground (arith, e))
settled-InOrder x (some (q ∷ f)) p {off} {new} {calls} e h = elim (settle-ids x q f) [
  | inl sent ↦ one_gone q.pkt (subst (λ l. InOrder l off new calls) sent h)
  | inr kept ↦ later (subst (λ l. InOrder l off new calls) kept h)
]

ids-append : (f : Fifo) (p : TschPacket) → ids (some (f ++ (p ∷ []))) ≡ ids (some f) ++ (p.pkt ∷ [])
ids-append [] p = refl
ids-append (q ∷ f) p = ap (λ l. q.pkt ∷ l) (ids-append f p)

added-InOrder :
    (p : TschPacket) (o : Option Fifo) {off new : List ℕ} {calls : ℕ}
    → InOrder (ids (add_to p o).0) off new calls
    → InOrder (ids o) (accepts true p.pkt (add_to p o).1 ++ off) new calls
unfolding add_to Fifo.add
added-InOrder p none h = h
added-InOrder p (some f) {off} {new} {calls} h = elim (Bool-cases (length f == capacity)) [
  | inl full ↦ rw full (rw full at h)
  | inr room ↦
      rw room
        (one_taken p.pkt (subst (λ l. InOrder l off new calls) (ids-append f p) (rw room at h)))
]

module _ (os : Contiki) (laws : IsContiki os) where
  -- By the specification packets leave a queue only from its front.
  Moves-InOrder :
      (a : Addr) (e : Event) (es : List Event) (m m₁ : Fifos) (off new : List ℕ)
      → Moves os m e m₁
      → InOrder (ids (m₁ a)) off new (fired es)
      → InOrder (ids (m a)) (taken_from os m a e ++ off) new (fired (e ∷ es))
  unfolding Fifos.step taken_from
  Moves-InOrder a (fires r) es m m₁ off new (inl e) h =
      later (subst (λ m. InOrder (ids (m a)) off new (fired es)) e h)
  Moves-InOrder a (fires r) es m m₁ off new (inr (b, x, p, s)) h =
      let at_a = subst (λ m. InOrder (ids (m a)) off new (fired es)) s.settled h in
      elim (Bool-cases (os.rimeaddr_cmp b a)) [
        | inl same ↦
            let same_b = (laws.cmp_iff b a).0 same in
            settled-InOrder x (m a) p (ap (λ c. head_of (m c)) (sym same_b) ∙ s.was_head)
              (rw (same, same_b) at at_a)
        | inr other ↦ later (rw other at at_a)
      ]
  Moves-InOrder a (interrupts ack need_ack_irq rf r) es m m₁ off new e h =
      subst (λ m. InOrder (ids (m a)) off new (fired es)) e h
  Moves-InOrder a (adds pkt sent ptr b) es m m₁ off new e h =
      let at_a = subst (λ m. InOrder (ids (m a)) off new (fired es)) e h in
      elim (Bool-cases (os.rimeaddr_cmp b a)) [
        | inl same ↦
            let same_b = (laws.cmp_iff b a).0 same in
            let added = added-InOrder (new_packet pkt sent ptr) (m a) (
              subst
                (λ c. InOrder (ids (add_to (new_packet pkt sent ptr) (m c)).0) off new (fired es))
                same_b (rw same at at_a)) in
            rw (same, same_b) added
        | inr other ↦ rw other (rw other at at_a)
      ]

  -- What add_packet_to_queue answers is what the specification answers.
  taken-eq :
      (s : Net os) (a : Addr) (e : Event)
      → IsSound os s
      → taken_from os (view os s) a e ≡ taken_in os s a e
  unfolding taken_from
  taken-eq s a (fires r) h = refl
  taken-eq s a (interrupts ack need_ack_irq rf r) h = refl
  taken-eq s a (adds pkt sent ptr b) h =
      ap (accepts (os.rimeaddr_cmp b a) pkt) (sym (add_view os laws s pkt sent ptr b h).1)

  -- Through timer calls, interrupts and calls of add_packet_to_queue in any order, the queue of an
  -- address `a` keeps its order: what waits in the end are the packets that waited before and those
  -- for `a` that add_packet_to_queue took in, in this order, but for the first ones, which are at
  -- most as many as the calls of the protothread by the timer. So no packet overtakes another or is
  -- lost or doubled behind the front. This holds of a state with valid queues, each packet in its
  -- receiver's, the cursor NULL or in the table, and, if it is sending, the first packet of a queue
  -- being sent, where random_rand() gives 16 bits and packets are added to the queues of their
  -- receivers.
  pub run-InOrder :
      (payload : ℕ → List ℕ) (a : Addr) (es : List Event) (s s' : Cycle os)
      → are_proper os es ≡ true
      → IsServed os laws s
      → run os payload es s ≡ some s'
      → InOrder
          (ids (view os s.net a))
          (accepted os payload a es s)
          (ids (view os s'.net a))
          (fired es)
  unfolding run accepted
  run-InOrder payload a [] s s' proper h e = record {
    gone = 0;
    left =
        ap (λ (t : Cycle os). ids (view os t.net a)) (sym (some-injective _ _ e))
        ∙ sym (append-nil (ids (view os s.net a)));
    few = omega arith;
  }
  run-InOrder payload a (x ∷ es) s s' proper h e = elim (Option-cases (step os payload x s)) [
    | inl f ↦ absurd (ground (arith, e))
    | inr (t, f) ↦
        let (served, moved) = step-Serves os laws payload x s t (ground (arith, proper)) h f in
        let ih = run-InOrder payload a es t s' (ground (arith, proper)) served (rw (f, run) at e) in
        let all =
          Moves-InOrder a x es (view os s.net) (view os t.net) (accepted os payload a es t)
            (ids (view os s'.net a)) moved ih in
        rw f (rw (taken-eq s.net a x h.ready.sound) at all)
  ]
