-- ===== src/Time/Schedule.antt =====
-- The schedule of tsch.c: the slot number follows the ASN, the clock follows the ASN, and channels
-- are hopped through.
use tsch_minimum.Prelude.{
  inl, inr, Bool-cases, dec_lt, ◌∙◌, ℕ, ◌+◌, ◌-◌, ◌*◌, ◌%◌, ◌≤◌, ◌<◌, ◌≡◌, ◌↔◌, arith, ltb, leb,
  if◌then◌else◌,
}
use native.Mathlib.Nat.{mod-add-mod, mod-eq_of_lt, mod_self}
use tsch_minimum.Prelude.Words.{u32, sub16}
use tsch_minimum.Params.{Slotframe, IsSlotframe}
use tsch_minimum.Time.{
  Clock, get_next_on_timeslot, slots_to, slot_duration, next_slot, skip_slot, end_of_slot,
  hop_channel,
}

-- The slot is one that is on, and is the ASN's place in the slotframe.
pub record InStep (f : Slotframe) (c : Clock) : Type 0 where
  pub on : c.timeslot < f.on_size
  pub place : c.asn % f.length ≡ c.timeslot

-- The distance in slots, without the machine's arithmetic.
distance : Slotframe → ℕ → ℕ
distance f t = if leb (f.on_size - 1) t then f.length - t else 1

slots_to-distance :
    (f : Slotframe) (t : ℕ)
    → IsSlotframe f
    → t < f.on_size
    → slots_to f t (get_next_on_timeslot f t) ≡ distance f t
unfolding slots_to get_next_on_timeslot distance
slots_to-distance f t v h = ground arith

distance-le : (f : Slotframe) (t : ℕ) → IsSlotframe f → t < f.on_size → distance f t ≤ f.length
unfolding distance
distance-le f t v h = ground arith

place-add : (a l t d : ℕ) → a % l ≡ t → (a + d) % l ≡ (t + d) % l
place-add a l t d e = rw (← e, mod-add-mod)

-- One slot further in the slotframe, round its end.
place-distance :
    (f : Slotframe) (t : ℕ)
    → IsSlotframe f
    → t < f.on_size
    → (t + distance f t) % f.length ≡ get_next_on_timeslot f t
unfolding distance get_next_on_timeslot
place-distance f t v h = elim (dec_lt (t + 1) f.on_size) [
  | yes more ↦ ground (arith, mod-eq_of_lt {n = t + 1} {m = f.length})
  | no last ↦ ground (arith, mod_self f.length)
]

next_on : (f : Slotframe) (t : ℕ) → IsSlotframe f → get_next_on_timeslot f t < f.on_size
unfolding get_next_on_timeslot
next_on f t v = ground arith

-- What a step to the next slot does to the ASN, as long as its 32 bits do not wrap.
asn-InStep :
    (f : Slotframe) (t a : ℕ)
    → IsSlotframe f
    → t < f.on_size
    → a % f.length ≡ t
    → a + f.length < 4294967296
    → u32 (a + slots_to f t (get_next_on_timeslot f t)) % f.length ≡ get_next_on_timeslot f t
asn-InStep f t a v h e small = rw (slots_to-distance f t v h) (
    rw (mod-eq_of_lt (bound f t a v h small))
      (place-add a f.length t (distance f t) e ∙ place-distance f t v h))
  where
    bound :
        (f : Slotframe) (t a : ℕ)
        → IsSlotframe f
        → t < f.on_size
        → a + f.length < 4294967296
        → a + distance f t < 4294967296
    bound f t a v h small = omega (arith, distance-le f t v h)

next_slot-InStep :
    (f : Slotframe) (c : Clock)
    → IsSlotframe f
    → c.asn + f.length < 4294967296
    → InStep f c
    → InStep f (next_slot f c)
unfolding next_slot
next_slot-InStep f c v small s = record {
  on = next_on f c.timeslot v;
  place = asn-InStep f c.timeslot c.asn v s.on s.place small;
}

skip_slot-InStep :
    (f : Slotframe) (c : Clock)
    → IsSlotframe f
    → c.asn + f.length < 4294967296
    → InStep f c
    → InStep f (skip_slot f c)
unfolding skip_slot
skip_slot-InStep f c v small s = record {
  on = next_on f c.timeslot v;
  place = asn-InStep f c.timeslot c.asn v s.on s.place small;
}

next_slot-on : (f : Slotframe) (c : Clock) → IsSlotframe f → (next_slot f c).timeslot < f.on_size
unfolding next_slot
next_slot-on f c v = next_on f c.timeslot v

next_slot-asn :
    (f : Slotframe) (c : Clock)
    → IsSlotframe f
    → c.timeslot < f.on_size
    → (next_slot f c).asn ≤ c.asn + f.length
unfolding next_slot
next_slot-asn f c v h =
    omega (arith, slots_to-distance f c.timeslot v h, distance-le f c.timeslot v h)

skip_slot-asn :
    (f : Slotframe) (c : Clock)
    → IsSlotframe f
    → c.timeslot < f.on_size
    → (skip_slot f c).asn ≤ c.asn + f.length
unfolding skip_slot
skip_slot-asn f c v h =
    omega (arith, slots_to-distance f c.timeslot v h, distance-le f c.timeslot v h)

-- A round takes two slotframes at most.
pub end_of_slot-asn :
    (f : Slotframe) (now : ℕ) (c : Clock)
    → IsSlotframe f
    → c.timeslot < f.on_size
    → (end_of_slot f now c).0.asn ≤ c.asn + 2 * f.length
unfolding end_of_slot
end_of_slot-asn f now c v h =
    let a₁ = next_slot-asn f c v h in
    let a₂ = skip_slot-asn f (next_slot f c) v (next_slot-on f c v) in
    elim (Bool-cases (ltb (slot_duration f c) (sub16 (next_slot f c).start now))) [
      | inl missed ↦ rw missed (omega (arith, a₁, a₂))
      | inr met ↦ rw met (omega (arith, a₁))
    ]

-- The end of a round keeps the slot and the ASN in step, whether a slot is skipped or not, while
-- the ASN is two slotframes from the end of its 32 bits.
pub end_of_slot-InStep :
    (f : Slotframe) (now : ℕ) (c : Clock)
    → IsSlotframe f
    → c.asn + 2 * f.length < 4294967296
    → InStep f c
    → InStep f (end_of_slot f now c).0
unfolding end_of_slot
end_of_slot-InStep f now c v small s =
    let s₁ = next_slot-InStep f c v (omega arith) s in
    let s₂ = skip_slot-InStep f (next_slot f c) v (omega (arith, next_slot-asn f c v s.on)) s₁ in
    elim (Bool-cases (ltb (slot_duration f c) (sub16 (next_slot f c).start now))) [
      | inl missed ↦ rw missed s₂
      | inr met ↦ rw met s₁
    ]

-- The channel is one of IEEE 802.15.4 in the 2.4 GHz band, and two slots that are less than 16
-- slots apart have different channels.
hop_channel_hops :
    (offset asn k : ℕ)
    → offset + asn + 16 < 4294967296
    → k < 16
    → (11 ≤ hop_channel offset asn)
      × (hop_channel offset asn ≤ 26)
      × ((hop_channel offset (asn + k) ≡ hop_channel offset asn) ↔ (k ≡ 0))
unfolding hop_channel
hop_channel_hops offset asn k small h = ground arith
