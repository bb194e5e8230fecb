-- ===== src/Radio/Poll.antt =====
-- What the driver dev/cc2420-tsch.c gives to the layers above: the process that hands frames to the
-- MAC, an acknowledgment read from the FIFO, and whether there is a frame.
pub mod Order
use tsch_minimum.Prelude.{
  ℕ, zero, suc, ◌+◌, ◌%◌, ◌≡◌, Bool, true, false, ◌&&◌, not, Option, none, some, List, [], ◌∷◌,
  ◌==◌, ltb, if◌then◌else◌, take, length, get_or,
}
use tsch_minimum.Prelude.Int.{ℤ, pos, negsuc}
use tsch_minimum.Prelude.Words.{low_bits, to_bool}
use tsch_minimum.Contiki.{first}
use tsch_minimum.Decide.{is_none}
use tsch_minimum.Radio.{get_lock, release_lock}
use tsch_minimum.Radio.Frame.{ReceivedFrame, byte, ackframe}
use tsch_minimum.Radio.Interrupt.{Library, Driver, on_radio, flush_rx, crc_ok, aux_len, cc2420_read}

-- The address in the chip's RAM of a byte of the receive FIFO.
abbrev pub rxfifo_addr : ℕ → ℕ
rxfifo_addr index = 0x80 + index % 128

-- What the chip shows while an acknowledgment is read.
pub record AckRead : Type 0 where
  pub length_byte : ℕ
  pub fifo_bytes : List ℕ
  pub overflow : Bool
  pub ram : ℕ → ℕ

abbrev pub is_ack_frame : ℕ → Bool
is_ack_frame b = low_bits b 3 == ackframe

-- The bytes that are written to the caller's buffer, and the value that is returned. The shorter of
-- both lengths is computed and not used.
abbrev pub ack_of : AckRead → List ℕ × ℤ
ack_of hw =
    let bytes = take hw.length_byte hw.fifo_bytes in
    if ltb 0 hw.length_byte
    then (if not hw.overflow && crc_ok (hw.ram (rxfifo_addr (hw.length_byte + aux_len)))
        then (bytes, if is_ack_frame (byte bytes 0) then pos hw.length_byte else negsuc 0)
        else ([], pos 0))
    else ([], pos 0)

-- The frame type is read from the buffer, which still holds an older byte if nothing was copied.
abbrev pub without_ack : ℕ → List ℕ → List ℕ
without_ack older bytes = if is_ack_frame (get_or bytes 0 older) then [] else bytes

module _ (lib : Library) where
  unfoldable pub cc2420_read_ack : AckRead → ℕ → Driver lib → Driver lib × List ℕ × ℤ
  cc2420_read_ack hw alen d =
      let (bytes, len) = ack_of hw in (on_radio lib (λ r. release_lock (get_lock r)) d, bytes, len)

  unfoldable pub pending_packet : Driver lib → Bool
  pending_packet d = not (is_none (first d.rf_list))

  unfoldable pub flush_if_needed : Driver lib → Driver lib
  flush_if_needed d =
      let d' = on_radio lib (λ r. get_lock (record r { need_flush = false })) d in
      if d.radio.need_flush then on_radio lib release_lock (flush_rx lib d') else d

  -- One poll of `cc2420_process`: the timestamp and the bytes that NETSTACK_RDC.input gets.
  unfoldable pub cc2420_process : ℕ → ℕ → Driver lib → Driver lib × ℕ × List ℕ
  unfolding flush_if_needed
  cc2420_process bufsize older d₀ =
      let d = flush_if_needed d₀ in
      let (d', bytes) = cc2420_read lib bufsize d in
      (d', d.last_packet_timestamp, without_ack older bytes)
