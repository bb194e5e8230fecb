-- ===== src/Powercycle/Progress.antt =====
-- That powercycle of tsch.c goes on, whatever happens around it, in whatever order.
use mathlib.Core.Path.{subst}
use tsch_minimum.Prelude.{
  branch, ℕ, ◌+◌, ◌<◌, ◌≡◌, refl, ◌∙◌, Bool, ◌==◌, sym, true, not, ◌&&◌, ◌||◌, Option, none, some,
  List, [], ◌∷◌, arith, Bool-cases, inl, inr,
}
use tsch_minimum.Prelude.Words.{to_bool}
use tsch_minimum.Contiki.{Contiki, IsContiki, Addr}
use tsch_minimum.Neighbors.Fifos.{Fifos}
use tsch_minimum.Neighbors.Refine.{view}
use tsch_minimum.Neighbors.Addressed.{
  HasQueuebuf, Buffered, Buffered-heads, add-Everywhere, settle-Everywhere,
}
use tsch_minimum.Powercycle.{Cycle, Readings, arm}
use tsch_minimum.Powercycle.Graph.{in_slot}
use tsch_minimum.Powercycle.Live.{is_traced, IsLive}
use tsch_minimum.Powercycle.Live.Rounds.{resume-IsLive, wakes-IsLive}
use tsch_minimum.Powercycle.Paced.{get_cell-tx, takes, all_take, Paced, step-Paced}
use tsch_minimum.Powercycle.Queues.{IsServed}
use tsch_minimum.Powercycle.Queues.Runs.{step-Serves}
use tsch_minimum.Powercycle.Queues.Spec.{Moves, are_proper}
use tsch_minimum.Powercycle.Round.{
  tsch_resume_powercycle, Event, fires, interrupts, adds, ask_ack, fire, step, run, resume,
}

module _ (os : Contiki) (payload : ℕ → List ℕ) where
  -- The interrupt does not leave a drift and no frame in a slot, as it does where it drops a frame
  -- after it has asked for its acknowledgment.
  abbrev pub leaves_frame : Event → Cycle os → Bool
  leaves_frame (interrupts ack need_ack_irq rf r) s =
      not (in_slot s.point)
      || is_traced os (tsch_resume_powercycle os need_ack_irq rf r (ask_ack os ack s))
  leaves_frame e s = true

  unfoldable pub leave_frames : List Event → Cycle os → Bool
  leave_frames [] s = true
  leave_frames (e ∷ es) s =
      let rest : Bool = elim (step os payload e s) [ none ↦ true | some s' ↦ leave_frames es s' ] in
      leaves_frame e s && rest

-- The queuebuf of a packet that is added is not NULL.
abbrev pub has_queuebuf : Event → Bool
has_queuebuf (adds pkt sent ptr a) = not (pkt == 0)
has_queuebuf e = true

abbrev pub have_queuebufs : List Event → Bool
have_queuebufs [] = true
have_queuebufs (e ∷ es) = has_queuebuf e && have_queuebufs es

module _ (os : Contiki) (laws : IsContiki os) (payload : ℕ → List ℕ) where
  -- What keeps the protothread going: the queues, the pointers of a slot, and the slot number and
  -- the ASN.
  pub record IsGoing (b : ℕ) (s : Cycle os) : Type 0 where
    pub served : IsServed os laws s
    pub live : IsLive os s
    pub paced : Paced os payload b s
    pub buffered : Buffered (view os s.net)

  resume-goes :
      (b : ℕ) (r : Readings) (s : Cycle os)
      → IsGoing b s
      → (t : Cycle os) × (resume os payload r s ≡ some t) × IsLive os t
  resume-goes b r s h = elim (Bool-cases (in_slot s.point)) [
    | inl inside ↦ resume-IsLive os payload r s inside h.live
    | inr between ↦
        wakes-IsLive os laws payload r s between
          (λ c e. get_cell-tx s.slotframe s.clock.timeslot c h.paced.frame e) h.served.ready.cursor
          (Buffered-heads os laws s.net h.served.ready.sound h.buffered)
  ]

  fire-goes :
      (b : ℕ) (r : Readings) (o : Option ℕ) (s : Cycle os)
      → IsGoing b s
      → (t : Cycle os) × (fire os payload r o s ≡ some t) × IsLive os t
  unfolding fire
  fire-goes b r none s h = (s, refl, h.live)
  fire-goes b r (some time) s h = resume-goes b r s h

  resumed-IsLive :
      (need_ack_irq : ℕ) (ack : Option (ℕ × ℕ × ℕ)) (rf : Option Addr) (r : Readings) (s : Cycle os)
      → let t = tsch_resume_powercycle os need_ack_irq rf r (ask_ack os ack s) in
        not (in_slot s.point) || is_traced os t ≡ true → IsLive os s → IsLive os t
  unfolding tsch_resume_powercycle ask_ack arm
  resumed-IsLive need_ack_irq none rf r s frame h =
      branch (λ (t : Cycle os). not (in_slot s.point) || is_traced os t ≡ true → IsLive os t)
        (s.waiting_for_radio_interrupt || to_bool r.rx_end_time)
        (λ frame. record { packet = h.packet; traced = λ inside. ground (arith, frame, inside) })
        (λ frame. record { packet = h.packet; traced = λ inside. ground (arith, frame, inside) })
        frame
  resumed-IsLive need_ack_irq (some ack) rf r s frame h =
      branch (λ (t : Cycle os). not (in_slot s.point) || is_traced os t ≡ true → IsLive os t)
        (s.waiting_for_radio_interrupt || to_bool r.rx_end_time)
        (λ frame. record { packet = h.packet; traced = λ inside. ground (arith, frame, inside) })
        (λ frame. record { packet = h.packet; traced = λ inside. ground (arith, frame, inside) })
        frame

  step-goes :
      (b : ℕ) (e : Event) (s : Cycle os)
      → leaves_frame os payload e s ≡ true
      → IsGoing b s
      → (t : Cycle os) × (step os payload e s ≡ some t) × IsLive os t
  unfolding step
  step-goes b (fires r) s frame h = fire-goes b r s.timer s h
  step-goes b (interrupts ack need_ack_irq rf r) s frame h =
      (_, refl, resumed-IsLive need_ack_irq ack rf r s frame h.live)
  step-goes b (adds pkt sent ptr a) s frame h =
      (_, refl, record { packet = h.live.packet; traced = h.live.traced })

  after_step :
      (e : Event) (es : List Event) (s t : Cycle os)
      → step os payload e s ≡ some t
      → leave_frames os payload (e ∷ es) s ≡ true
      → (run os payload (e ∷ es) s ≡ run os payload es t) × (leave_frames os payload es t ≡ true)
  unfolding run leave_frames
  after_step e es s t f frames =
      let rest = (rw (f, leave_frames) at frames) in (rw (f, run) refl, ground (arith, rest))

  Moves-Buffered :
      (e : Event) (m m' : Fifos)
      → has_queuebuf e ≡ true
      → Moves os m e m'
      → Buffered m
      → Buffered m'
  Moves-Buffered (fires r) m m' there (inl e) h = subst Buffered (sym e) h
  Moves-Buffered (fires r) m m' there (inr (a, x, p, s)) h =
      subst Buffered (sym s.settled) (settle-Everywhere os laws HasQueuebuf m a x h)
  Moves-Buffered (interrupts ack need_ack_irq rf r) m m' there e h = subst Buffered (sym e) h
  Moves-Buffered (adds pkt sent ptr a) m m' there e h =
      subst Buffered (sym e) (
        add-Everywhere os laws HasQueuebuf m pkt sent ptr a h (λ null. ground (arith, null, there)))

  -- In a state where the queues are served and have no NULL queuebuf, the pointers of a slot are
  -- set, and the slot number is the ASN's place in the slotframe: timer calls, interrupts and calls
  -- of add_packet_to_queue in any order lead to such a state again. So nothing is read through NULL
  -- and no loop runs out of fuel. This is where random_rand() gives 16 bits, packets are added with
  -- a queuebuf to the queues of their receivers, no interrupt in a slot leaves a drift without its
  -- frame, and the ASN does not come to the end of its 32 bits.
  pub run-goes :
      (es : List Event) (b : ℕ) (s : Cycle os)
      → are_proper os es ≡ true
      → have_queuebufs es ≡ true
      → leave_frames os payload es s ≡ true
      → b + all_take es < 4294967296
      → IsGoing b s
      → (s' : Cycle os) × (run os payload es s ≡ some s') × IsGoing (b + all_take es) s'
  unfolding run leave_frames
  run-goes [] b s proper there frames small h = (s, refl, subst (λ n. IsGoing n s) (omega arith) h)
  run-goes (e ∷ es) b s proper there frames small h =
      let (t, f, live) = step-goes b e s (ground (arith, frames)) h in
      let (served, moved) = step-Serves os laws payload e s t (ground (arith, proper)) h.served f in
      let going : IsGoing (b + takes e) t = record {
        served = served;
        buffered =
            Moves-Buffered e (view os s.net) (view os t.net) (ground (arith, there)) moved
              h.buffered;
        live = live;
        paced = step-Paced os payload b e s t (omega (arith, small)) h.paced f;
      } in
      let (runs, rest) = after_step e es s t f frames in
      let (s', g, again) =
        run-goes es (b + takes e) t (ground (arith, proper)) (ground (arith, there)) rest
          (omega (arith, small)) going in
      (s', runs ∙ g, subst (λ n. IsGoing n s') (omega arith) again)
