-- ===== src/Powercycle/Paced.antt =====
-- The slot number and the ASN through the events around powercycle of tsch.c, in the slotframe that
-- it has.
use mathlib.Core.Path.{subst}
use mathlib.Core.Option.{some-injective}
use tsch_minimum.Prelude.{
  branch, ℕ, zero, suc, ◌+◌, ◌%◌, ◌<◌, ◌≤◌, ◌≡◌, refl, sym, ap, Bool, true, ◌&&◌, ◌||◌, Option,
  none, some, List, [], ◌∷◌, arith, leb, Bool-cases, inl, inr, get_elem?,
}
use tsch_minimum.Prelude.Words.{to_bool}
use tsch_minimum.Contiki.{Contiki, Addr}
use tsch_minimum.Params.{Cell, Slotframe, IsSlotframe, is_tx, minimum_slotframe}
use tsch_minimum.Time.{Clock, get_cell, end_of_slot}
use tsch_minimum.Time.Schedule.{end_of_slot-InStep, end_of_slot-asn}
use tsch_minimum.Powercycle.{Cycle, Readings, arm}
use tsch_minimum.Powercycle.Kept.{Held, Keeps, Kept, fire-Kept}
use tsch_minimum.Powercycle.Round.{
  tsch_resume_powercycle, Event, fires, interrupts, adds, ask_ack, step,
}

-- The slot is one that is on, the ASN's place in the slotframe, and the ASN at most `b`.
pub record IsPaced (b : ℕ) (f : Slotframe) (t a : ℕ) : Type 0 where
  pub frame : f ≡ minimum_slotframe
  pub on : t < f.on_size
  pub place : a % f.length ≡ t
  pub early : a ≤ b

-- Two slotframes.
abbrev pub most_slots : ℕ
most_slots = 202

-- The slots that an event, and events, may take.
abbrev pub takes : Event → ℕ
takes (fires r) = most_slots
takes e = 0

abbrev pub all_take : List Event → ℕ
all_take [] = 0
all_take (e ∷ es) = takes e + all_take es

minimum_slotframe-IsSlotframe : IsSlotframe minimum_slotframe
minimum_slotframe-IsSlotframe = record {
  some_on = omega arith;
  on_first = omega arith;
  fits = omega arith;
}

-- Every cell of the slotframe may send.
are_tx : List Cell → Bool
are_tx [] = true
are_tx (c ∷ cs) = is_tx c && are_tx cs

get_elem?-tx :
    (cs : List Cell) (t : ℕ) (c : Cell)
    → are_tx cs ≡ true
    → get_elem? cs t ≡ some c
    → is_tx c ≡ true
unfolding are_tx
get_elem?-tx [] t c h e = absurd (ground (arith, e))
get_elem?-tx (x ∷ cs) zero c h e =
    subst (λ x. is_tx x ≡ true) (some-injective _ _ e) (ground (arith, h))
get_elem?-tx (x ∷ cs) (suc t) c h e = get_elem?-tx cs t c (ground (arith, h)) e

pub get_cell-tx :
    (f : Slotframe) (t : ℕ) (c : Cell)
    → f ≡ minimum_slotframe
    → get_cell f t ≡ some c
    → is_tx c ≡ true
unfolding get_cell are_tx
get_cell-tx f t c frame e = elim (Bool-cases (leb f.on_size t)) [
  | inl off ↦ absurd (ground (arith, e, off))
  | inr on ↦
      get_elem?-tx f.cells t c (subst (λ f. are_tx f.cells ≡ true) (sym frame) refl) (rw on at e)
]

module _ (os : Contiki) (payload : ℕ → List ℕ) where
  abbrev pub PacedNet : ℕ → Held os
  PacedNet b net f t a = IsPaced b f t a

  end_of_slot-IsPaced :
      (b now : ℕ) (f : Slotframe) (c : Clock)
      → b + most_slots < 4294967296
      → IsPaced b f c.timeslot c.asn
      → IsPaced (b + most_slots) f (end_of_slot f now c).0.timeslot (end_of_slot f now c).0.asn
  end_of_slot-IsPaced b now f c small h =
      let v = subst IsSlotframe (sym h.frame) minimum_slotframe-IsSlotframe in
      let length = ap (λ (f : Slotframe). f.length) h.frame in
      let s =
        end_of_slot-InStep f now c v (omega (arith, h.early, length))
          (record { on = h.on; place = h.place }) in
      record {
        frame = h.frame;
        on = s.on;
        place = s.place;
        early = omega (arith, end_of_slot-asn f now c v h.on, length, h.early);
      }

  IsPaced-le : (b b' : ℕ) (f : Slotframe) (t a : ℕ) → b ≤ b' → IsPaced b f t a → IsPaced b' f t a
  IsPaced-le b b' f t a le h = record {
    frame = h.frame;
    on = h.on;
    place = h.place;
    early = omega (arith, h.early);
  }

  paced-Keeps :
      (b : ℕ) (r : Readings)
      → b + most_slots < 4294967296
      → Keeps os r (PacedNet b) (PacedNet (b + most_slots))
  paced-Keeps b r small = record {
    rests = λ s f t a h. IsPaced-le b (b + most_slots) f t a (omega arith) h;
    settles = λ x n p cell bc s f t a h. h;
    decides = λ last d cell c s f t a e h. h;
    ends = λ s f c h. end_of_slot-IsPaced b r.deadline f c small h;
  }

  abbrev pub Paced : ℕ → Cycle os → Type 0
  Paced b s = IsPaced b s.slotframe s.clock.timeslot s.clock.asn

  interrupts-Paced :
      (b need_ack_irq : ℕ) (ack : Option (ℕ × ℕ × ℕ)) (rf : Option Addr) (r : Readings)
      (s : Cycle os)
      → Paced b s
      → Paced b (tsch_resume_powercycle os need_ack_irq rf r (ask_ack os ack s))
  unfolding tsch_resume_powercycle ask_ack arm
  interrupts-Paced b need_ack_irq none rf r s h =
      branch (Paced b) (s.waiting_for_radio_interrupt || to_bool r.rx_end_time) h h
  interrupts-Paced b need_ack_irq (some a) rf r s h =
      branch (Paced b) (s.waiting_for_radio_interrupt || to_bool r.rx_end_time) h h

  pub step-Paced :
      (b : ℕ) (e : Event) (s s' : Cycle os)
      → b + takes e < 4294967296
      → Paced b s
      → step os payload e s ≡ some s'
      → Paced (b + takes e) s'
  unfolding step
  step-Paced b (fires r) s s' small h e =
      let k = paced-Keeps b r small in
      subst (Kept os payload r (PacedNet b) (PacedNet (b + most_slots)) k) e
        (fire-Kept os payload r (PacedNet b) (PacedNet (b + most_slots)) k s.timer s h)
  step-Paced b (interrupts ack need_ack_irq rf r) s s' small h e =
      subst (Paced (b + 0)) (some-injective _ _ e)
        (IsPaced-le b (b + 0) _ _ _ (omega arith) (interrupts-Paced b need_ack_irq ack rf r s h))
  step-Paced b (adds pkt sent ptr a) s s' small h e =
      subst (Paced (b + 0)) (some-injective _ _ e) (IsPaced-le b (b + 0) _ _ _ (omega arith) h)
