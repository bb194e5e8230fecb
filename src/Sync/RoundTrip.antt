-- ===== src/Sync/RoundTrip.antt =====
-- The time correction that tsch.c writes into an acknowledgement is the one that it reads from it.
use tsch_minimum.Prelude.{
  ℕ, ◌+◌, ◌*◌, ◌≤◌, ◌<◌, ◌≡◌, refl, Bool, true, some, arith, drop, ap, ◌∙◌, all_below, all_below→at,
  leb, ◌&&◌,
}
use tsch_minimum.Prelude.Words.{u16, low_bits, shr}
use tsch_minimum.Time.{Clock, correction}
use tsch_minimum.Prelude.Int.{ℤ, pos, negsuc, pos_part, neg_part, div_ℤ, ◌*ℤ◌}
use tsch_minimum.Params.{ts_tx_offset}
use tsch_minimum.Sync.{
  microseconds, encode_status, add_sync_ie, time_difference, make_sync_ack, decode_status,
  has_sync_ie, is_ack_of, ack_drift, ack_len, extra_ack_len,
}

-- A difference that fits the field comes back, with the NACK flag or without.
pub decode-encode :
    (us : ℤ) (nack : ℕ)
    → pos_part us < 2048
    → neg_part us < 2048
    → decode_status (encode_status us nack) ≡ us
unfolding decode_status encode_status
decode-encode us nack p q = ground arith

-- Frames within this many ticks of the expected time have a difference that fits.
abbrev pub max_ticks : ℕ
max_ticks = 67

microseconds-small :
    (t : ℤ)
    → pos_part t ≤ max_ticks
    → neg_part t ≤ max_ticks
    → microseconds t ≡ div_ℤ (t *ℤ 3051) 100
unfolding microseconds
microseconds-small (pos n) p q = ground arith
microseconds-small (negsuc n) p q = ground arith

microseconds_fit :
    (t : ℤ)
    → pos_part t ≤ max_ticks
    → neg_part t ≤ max_ticks
    → (pos_part (microseconds t) < 2048) × (neg_part (microseconds t) < 2048)
microseconds_fit (pos n) p q = rw (microseconds-small (pos n) p q) (ground arith)
microseconds_fit (negsuc n) p q = rw (microseconds-small (negsuc n) p q) (ground arith)

status_bytes : (us : ℤ) (nack : ℕ) → encode_status us nack < 65536
unfolding encode_status
status_bytes us nack = ground arith

bytes_of : (x : ℕ) → x < 65536 → low_bits x 8 + low_bits (shr x 8) 8 * 256 ≡ x
bytes_of x b = omega arith

-- The acknowledgement that `tsch_make_sync_ack` makes for a frame whose arrival differs from the
-- expected time by at most `max_ticks`, is read by its receiver as an acknowledgement of that frame;
-- and a receiver whose time source sent it reads the difference, in microseconds, whether it is
-- late or early, with the NACK flag or without.
pub ack_round_trip :
    (start seqno timestamp nack : ℕ)
    → (let t = time_difference start timestamp in
        (pos_part t ≤ max_ticks) × (neg_part t ≤ max_ticks))
    → let ack = drop 1 (make_sync_ack start seqno timestamp nack).0 in
      let len = ack_len + extra_ack_len in
      (is_ack_of ack len seqno ≡ true)
      × (ack_drift ack len 1 ≡ some (div_ℤ (time_difference start timestamp *ℤ 3051) 100))
unfolding make_sync_ack is_ack_of ack_drift has_sync_ie add_sync_ie
ack_round_trip start seqno timestamp nack h =
    let us = microseconds (time_difference start timestamp) in
    let fit = microseconds_fit (time_difference start timestamp) h.0 h.1 in
    (
      ground arith,
      ap some (
          ap decode_status (bytes_of (encode_status us nack) (status_bytes us nack))
          ∙ decode-encode us nack fit.0 fit.1
          ∙ microseconds-small (time_difference start timestamp) h.0 h.1),
    )

-- A clock that has got the difference `t` from one acknowledgement.
abbrev corrected : ℤ → Clock
corrected t = record {
  timeslot = 0;
  asn = 0;
  start = 0;
  drift_correction = pos 0;
  drift = microseconds t;
  drift_counter = 1;
}

abbrev within_tick : ℤ → ℤ → Bool
within_tick t back =
    leb (pos_part back) (pos_part t)
    && leb (pos_part t) (pos_part back + 1)
    && leb (neg_part back) (neg_part t)
    && leb (neg_part t) (neg_part back + 1)

late_table : all_below 68 (λ n. within_tick (pos n) (correction (corrected (pos n)))) ≡ true
unfolding all_below correction microseconds
late_table = refl

early_table : all_below 67 (λ n. within_tick (negsuc n) (correction (corrected (negsuc n)))) ≡ true
unfolding all_below correction microseconds
early_table = refl

recovered :
    (t : ℤ)
    → pos_part t ≤ max_ticks
    → neg_part t ≤ max_ticks
    → within_tick t (correction (corrected t)) ≡ true
recovered (pos n) p q = all_below→at 68 n _ late_table (omega arith)
recovered (negsuc n) p q = all_below→at 67 n _ early_table (omega arith)

same_correction :
    (t : ℤ) (c : Clock)
    → c.drift ≡ microseconds t
    → c.drift_counter ≡ 1
    → c.drift_correction ≡ pos 0
    → correction c ≡ correction (corrected t)
unfolding correction
same_correction t c e₁ e₂ e₃ = rw (e₁, e₂, e₃)

in_tick :
    (t back : ℤ)
    → within_tick t back ≡ true
    → (pos_part back ≤ pos_part t)
      × (pos_part t ≤ pos_part back + 1)
      × (neg_part back ≤ neg_part t)
      × (neg_part t ≤ neg_part back + 1)
in_tick t back h = ground arith

-- From ticks to microseconds at one node and back at the other: a clock that has got one correction
-- of at most `max_ticks` in a slotframe moves by that many ticks, or by one less, in its direction.
pub ticks_recovered :
    (t : ℤ) (c : Clock)
    → pos_part t ≤ max_ticks
    → neg_part t ≤ max_ticks
    → c.drift ≡ microseconds t
    → c.drift_counter ≡ 1
    → c.drift_correction ≡ pos 0
    → let back = correction c in
      (pos_part back ≤ pos_part t)
      × (pos_part t ≤ pos_part back + 1)
      × (neg_part back ≤ neg_part t)
      × (neg_part t ≤ neg_part back + 1)
ticks_recovered t c p q e₁ e₂ e₃ = rw (same_correction t c e₁ e₂ e₃) (in_tick t _ (recovered t p q))

wrapped_ticks :
    (start : ℕ)
    → start < 65536
    → 65536 ≤ start + ts_tx_offset
    → time_difference start (u16 (start + ts_tx_offset)) ≡ pos 65536
unfolding time_difference
wrapped_ticks start h k = ground arith

wrapped_status :
    (nack : ℕ) → decode_status (encode_status (microseconds (pos 65536)) nack) ≡ negsuc 1392
unfolding decode_status encode_status microseconds
wrapped_status nack = ground arith

-- When the expected time of arrival lies beyond the wrap of the 16-bit timer, a frame that comes
-- exactly on time is answered with a correction of -1393 microseconds: the difference is taken in 32
-- bits of times that are counted in 16.
pub wrapped_difference :
    (start seqno nack : ℕ)
    → start < 65536
    → 65536 ≤ start + ts_tx_offset
    → let timestamp = u16 (start + ts_tx_offset) in
      ack_drift (drop 1 (make_sync_ack start seqno timestamp nack).0) (ack_len + extra_ack_len) 1
      ≡ some (negsuc 1392)
unfolding make_sync_ack ack_drift has_sync_ie add_sync_ie
wrapped_difference start seqno nack h k = rw (wrapped_ticks start h k) (
    ap some (
      ap decode_status (bytes_of _ (status_bytes (microseconds (pos 65536)) nack))
      ∙ wrapped_status nack))
