-- ===== src/Time.antt =====
-- Slot timing in tsch.c: get_cell, get_next_on_timeslot, hop_channel, schedule_fixed, and the end
-- of each round of powercycle, which moves on to the next slot.
pub mod Schedule
use tsch_minimum.Prelude.{
  ℕ, ◌+◌, ◌*◌, ◌%◌, Bool, Option, none, ltb, leb, ◌==◌, if◌then◌else◌, get_elem?,
}
use tsch_minimum.Prelude.Words.{u16, u32, sub16}
use tsch_minimum.Prelude.Int.{ℤ, pos, ◌+ℤ◌, ◌*ℤ◌, div_ℤ, int16, int32, to_u16}
use tsch_minimum.Params.{Cell, Slotframe, ts_slot_duration}

unfoldable pub get_cell : Slotframe → ℕ → Option Cell
get_cell f timeslot = if leb f.on_size timeslot then none else get_elem? f.cells timeslot

pub get_next_on_timeslot : Slotframe → ℕ → ℕ
get_next_on_timeslot f timeslot = if leb (sub16 f.on_size 1) timeslot then 0 else u16 (timeslot + 1)

-- The channel that `hop_channel` sets, for the absolute slot number `asn`.
pub hop_channel : ℕ → ℕ → ℕ
hop_channel offset asn = 11 + u32 (offset + asn) % 16

-- `schedule_fixed`: when the timer is set to fire, and the value that is returned. The readings of
-- RTIMER_NOW are arguments, and `set_ok` says whether rtimer_set returned RTIMER_OK.
unfoldable pub schedule_fixed : ℕ → ℕ → Bool → ℕ → ℕ → ℕ × ℕ
schedule_fixed now₁ now₂ set_ok ref_time duration =
    let now = u16 (now₁ + 1) in
    let ref = u16 (ref_time + duration) in
    let missed = ltb duration (sub16 ref now) in
    let ret : ℕ = if missed then 0 else 1 in
    (if missed then u16 (now₂ + 5) else ref, if set_ok then ret else ret * 2)

-- The variables of powercycle that the end of a round works on.
pub record Clock : Type 0 where
  pub timeslot : ℕ
  pub asn : ℕ
  pub start : ℕ
  pub drift_correction : ℤ
  pub drift : ℤ
  pub drift_counter : ℕ

-- The distance to the next slot that is on, in slots.
pub slots_to : Slotframe → ℕ → ℕ → ℕ
slots_to f timeslot next = if next == 0 then sub16 f.length timeslot else sub16 next timeslot

-- The drift of the slotframe that ends, in ticks: what the received frames gave, and the average
-- of what the acknowledgements gave. The product with the counter is taken in 16 bits.
unfoldable pub correction : Clock → ℤ
correction c =
    if c.drift_counter == 0
    then c.drift_correction
    else int32 (c.drift_correction +ℤ div_ℤ (int32 (c.drift *ℤ 100)) (u16 (3051 * c.drift_counter)))

-- What is added to the duration of the last slot of a slotframe.
pub slot_correction : Slotframe → Clock → ℕ
slot_correction f c =
    if get_next_on_timeslot f c.timeslot == 0 then to_u16 (int16 (correction c)) else 0

pub slot_duration : Slotframe → Clock → ℕ
slot_duration f c =
    let dt = slots_to f c.timeslot (get_next_on_timeslot f c.timeslot) in
    u16 (u16 (dt * ts_slot_duration) + slot_correction f c)

-- One slot on: `timeslot`, the ASN and `start`, and the sums of drifts at the end of a slotframe.
pub next_slot : Slotframe → Clock → Clock
next_slot f c =
    let next = get_next_on_timeslot f c.timeslot in
    let last = next == 0 in
    record {
      timeslot = next;
      asn = u32 (c.asn + slots_to f c.timeslot next);
      start = u16 (c.start + slot_duration f c);
      drift_correction = if last then pos 0 else c.drift_correction;
      drift = if last then pos 0 else c.drift;
      drift_counter = if last then 0 else c.drift_counter;
    }

-- A slot that is skipped because its start was missed: the sums of drifts are left alone.
pub skip_slot : Slotframe → Clock → Clock
skip_slot f c =
    let next = get_next_on_timeslot f c.timeslot in
    let dt = slots_to f c.timeslot next in
    record c {
      timeslot = next;
      asn = u32 (c.asn + dt);
      start = u16 (c.start + u16 (dt * ts_slot_duration));
    }

-- The end of a round: the clock, and the reference time and the duration that schedule_fixed is
-- called with. `now` is the reading of RTIMER_NOW that the deadline is checked with.
pub end_of_slot : Slotframe → ℕ → Clock → Clock × ℕ × ℕ
end_of_slot f now c =
    let duration = slot_duration f c in
    let c₁ = next_slot f c in
    let ref = sub16 c₁.start duration in
    if ltb duration (sub16 c₁.start now)
    then (let c₂ = skip_slot f c₁ in
        (c₂, ref, u16 (duration + u16 (slots_to f c₁.timeslot c₂.timeslot * ts_slot_duration))))
    else (c₁, ref, duration)
