-- ===== src/Radio/Frame.antt =====
-- What the driver dev/cc2420-tsch.c reads in the header of a received frame: the bits that decide on
-- an acknowledgment, and the sender's address.
pub mod Header
use tsch_minimum.Prelude.{
  ℕ, ◌+◌, ◌-◌, ◌*◌, ◌/◌, ◌%◌, Bool, true, false, List, [], ◌∷◌, ◌==◌, ltb, if◌then◌else◌, get_or,
  set,
}
use tsch_minimum.Prelude.Words.{has_bit, low_bits, shr}
use tsch_minimum.Contiki.{Addr}

abbrev pub ack_len : ℕ
ack_len = 3

abbrev pub extra_ack_len : ℕ
extra_ack_len = 4

abbrev pub cc2420_max_packet_len : ℕ
cc2420_max_packet_len = 127

-- The values that IEEE 802.15.4 gives; Contiki names them FRAME802154_DATAFRAME and so on.
abbrev pub dataframe : ℕ
dataframe = 1

abbrev pub ackframe : ℕ
ackframe = 2

abbrev pub short_addr_mode : ℕ
short_addr_mode = 2

abbrev pub long_addr_mode : ℕ
long_addr_mode = 3

-- `struct received_frame_s`; the list that links the frames is kept apart.
pub record ReceivedFrame : Type 0 where
  pub buf : List ℕ
  pub len : ℕ
  pub source_address : Addr

abbrev pub byte : List ℕ → ℕ → ℕ
byte frame i = get_or frame i 0

-- The flags that `frame80254_parse_irq` answers, DO_ACK 2, IS_DATA 4 and IS_ACK 8, as bits of one
-- byte.
abbrev pub flag : Bool → ℕ → ℕ
flag b v = if b then v else 0

unfoldable pub frame80254_parse_irq : List ℕ → ℕ → ℕ
frame80254_parse_irq frame len =
    if ltb len ack_len
    then 0
    else (flag (has_bit (byte frame 0) 5) 2
        + flag (low_bits (byte frame 0) 3 == dataframe) 4
        + flag (low_bits (byte frame 0) 3 == ackframe) 8)

-- The number of bytes of an address of a mode.
abbrev pub addr_size : ℕ → ℕ
addr_size mode = if mode == short_addr_mode then 2 else if mode == long_addr_mode then 8 else 0

-- Where `p` stands after the destination, and after the source PAN.
abbrev pub after_dest : ℕ → ℕ
after_dest mode = if mode == 0 then 3 else 5 + addr_size mode

abbrev pub after_pan : Bool → ℕ → ℕ
after_pan compressed p = if compressed then p else p + 2

-- The address of the mode at `p`, of which the last byte comes first. The first argument is
-- `rimeaddr_null` and the last one the address that the frame has so far.
abbrev pub read_source : Addr → List ℕ → ℕ → ℕ → Addr → Addr
read_source null b mode p a =
    if mode == short_addr_mode
    then set (set null 0 (byte b (p + 1))) 1 (byte b p)
    else if mode == long_addr_mode
    then (byte b (p + 7)
        ∷ byte b (p + 6)
        ∷ byte b (p + 5)
        ∷ byte b (p + 4)
        ∷ byte b (p + 3)
        ∷ byte b (p + 2)
        ∷ byte b (p + 1)
        ∷ byte b p
        ∷ [])
    else a

-- The fields of the frame control that matter, and where the source address stands.
abbrev pub source_mode : List ℕ → ℕ
source_mode b = shr (byte b 1) 6 % 4

abbrev pub dest_mode : List ℕ → ℕ
dest_mode b = shr (byte b 1) 2 % 4

abbrev pub is_compressed : List ℕ → Bool
is_compressed b = has_bit (byte b 0) 6

abbrev pub source_start : List ℕ → ℕ
source_start b = after_pan (is_compressed b) (after_dest (dest_mode b))

pub extract_sender_address : Addr → ReceivedFrame → ReceivedFrame
extract_sender_address null f =
    if ltb f.len 3
    then f
    else if source_mode f.buf == 0
    then record f { source_address = null }
    else record f {
      source_address =
          read_source null f.buf (source_mode f.buf) (source_start f.buf) f.source_address;
    }
