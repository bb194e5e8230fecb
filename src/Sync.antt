-- ===== src/Sync.antt =====
-- Time synchronisation in acknowledgements, in tsch.c: add_sync_IE and tsch_make_sync_ack, which
-- write the time correction, and the part of powercycle that reads it from the frame received.
pub mod RoundTrip
use tsch_minimum.Prelude.{
  ℕ, ◌+◌, ◌*◌, ◌%◌, Bool, ◌&&◌, Option, none, some, List, [], ◌∷◌, leb, ◌==◌, if◌then◌else◌, get_or,
}
use tsch_minimum.Prelude.Words.{has_bit, set_bit, low_bits, shr, to_bool}
use tsch_minimum.Prelude.Int.{
  ℤ, pos, pos_part, neg_part, neg, nonneg, ◌-ℤ◌, ◌*ℤ◌, div_ℤ, int16, int32,
}
use tsch_minimum.Params.{ts_tx_offset}

-- Lengths of a standard acknowledgement and of the timesync IE with its header.
abbrev pub ack_len : ℕ
ack_len = 3

abbrev pub extra_ack_len : ℕ
extra_ack_len = 4

-- The time difference in microseconds, from rtimer ticks.
pub microseconds : ℤ → ℤ
microseconds ticks = int16 (int32 (div_ℤ (int32 (ticks *ℤ 3051)) 100))

-- `ack_status`: the magnitude in 11 bits, the sign in bit 11 and the NACK flag in bit 15.
pub encode_status : ℤ → ℕ → ℕ
encode_status us nack =
    let correction =
      if nonneg us then low_bits (pos_part us) 11 else set_bit (low_bits (neg_part us) 11) 11 in
    if to_bool nack then set_bit correction 15 else correction

-- The four bytes that `add_sync_IE` writes, and the difference in microseconds that it returns.
pub add_sync_ie : ℤ → ℕ → List ℕ × ℤ
add_sync_ie ticks nack =
    let us = microseconds ticks in
    let status = encode_status us nack in
    (0x02 ∷ 0x1e ∷ low_bits status 8 ∷ low_bits (shr status 8) 8 ∷ [], us)

-- The difference between when a frame was expected and when it came, in 32 bits.
unfoldable pub time_difference : ℕ → ℕ → ℤ
time_difference start last_packet_timestamp =
    int32 (pos (start + ts_tx_offset) -ℤ pos last_packet_timestamp)

-- `tsch_make_sync_ack`: the buffer, whose first byte is the length of what follows, and `last_drift`.
unfoldable pub make_sync_ack : ℕ → ℕ → ℕ → ℕ → List ℕ × ℤ
make_sync_ack start seqno last_packet_timestamp nack =
    let ticks = time_difference start last_packet_timestamp in
    (7 ∷ 0x02 ∷ 0x22 ∷ seqno ∷ (add_sync_ie ticks nack).0, int16 ticks)

-- What powercycle finds in the `len` bytes read as an acknowledgement: whether they acknowledge the
-- frame numbered `seqno`, and the correction `d`, if there is one and it comes from a time source.
pub decode_status : ℕ → ℤ
decode_status status =
    if has_bit status 11 then neg (pos (low_bits status 11)) else pos (low_bits status 12)

pub has_sync_ie : List ℕ → ℕ → Bool
has_sync_ie ackbuf len =
    has_bit (get_or ackbuf 1 0) 1
    && (len == ack_len + extra_ack_len)
    && (get_or ackbuf 3 0 == 0x02)
    && (get_or ackbuf 4 0 == 0x1e)

pub is_ack_of : List ℕ → ℕ → ℕ → Bool
is_ack_of ackbuf len seqno =
    (get_or ackbuf 0 0 == 2) && leb ack_len len && (get_or ackbuf 2 0 == seqno)

pub ack_drift : List ℕ → ℕ → ℕ → Option ℤ
ack_drift ackbuf len time_source =
    if has_sync_ie ackbuf len && to_bool time_source
    then some (decode_status (get_or ackbuf 5 0 + get_or ackbuf 6 0 * 256))
    else none
