-- ===== src/Radio/Interrupt.antt =====
-- Reception in the driver dev/cc2420-tsch.c: the FIFOP interrupt, which keeps the frame and prepares
-- its acknowledgment, and reading the frames and the acknowledgments that were received.
pub mod Effects
mod Refill
pub mod Keeps
pub mod Drops
pub mod Tests
use tsch_minimum.Prelude.{
  ℕ, ◌+◌, ◌-◌, ◌≡◌, ◌*◌, ◌/◌, ◌%◌, Bool, true, false, ◌&&◌, ◌||◌, not, Option, none, some, List, [],
  ◌∷◌, ◌++◌, ◌==◌, ltb, if◌then◌else◌, take, drop, min,
}
use tsch_minimum.Prelude.Words.{u8, has_bit, low_bits, to_bool}
use tsch_minimum.Contiki.{Addr, first}
use tsch_minimum.Neighbors.{update}
use tsch_minimum.Radio.{Radio, Command, strobe, off, get_lock, release_lock}
use tsch_minimum.Radio.Frame.{
  ReceivedFrame, byte, ack_len, extra_ack_len, cc2420_max_packet_len, ackframe,
  frame80254_parse_irq, extract_sender_address,
}

-- What the driver uses of Contiki: a pool of blocks (lib/memb.h), lists of blocks (lib/list.h), and
-- `rimeaddr_null`. A block is a number.
pub record Library : Type 1 where
  pub Memb : Type 0
  pub memb_alloc : Memb → Memb × Option ℕ
  pub memb_free : Memb → ℕ → Memb
  pub list_add : List ℕ → ℕ → List ℕ
  pub list_chop : List ℕ → List ℕ
  pub list_pop : List ℕ → List ℕ × Option ℕ
  pub rimeaddr_null : Addr

-- AUX_LEN: the footer's two bytes.
abbrev pub aux_len : ℕ
aux_len = 2

abbrev pub fifop_threshold : ℕ
fifop_threshold = ack_len + extra_ack_len

-- What the chip shows during one interrupt: the pins, the length byte, the bytes after it, the
-- footer's second byte, and the timer at both edges of SFD.
pub record Reception : Type 0 where
  pub fifo : Bool
  pub length_byte : ℕ
  pub data_bytes : List ℕ
  pub overflow : Bool
  pub footer_1 : ℕ
  pub sfd_start : ℕ
  pub sfd_end : ℕ

pub record Driver (lib : Library) : Type 0 where
  pub radio : Radio
  pub memb : lib.Memb
  pub frame_of : ℕ → ReceivedFrame
  pub rf_list : List ℕ
  pub rx_end_time : ℕ
  pub last_packet_timestamp : ℕ
  pub polls : ℕ
  pub tx_fifo : List ℕ

-- The pointer `last_rf` that the callback gets; on the early returns it was never assigned.
pub data LastRf : Type 0 where
  unassigned : LastRf
  assigned : Option ℕ → LastRf

-- The value returned and the arguments of `interrupt_exit_callback`.
pub record Exit : Type 0 where
  pub returned : ℕ
  pub is_ack : ℕ
  pub need_ack : ℕ
  pub last_rf : LastRf

-- The subscribed `softack_make_callback`, if any: what it writes to its buffer.
abbrev pub Softack : Type 0
Softack = Option (ℕ → ℕ → ℕ → List ℕ)

abbrev pub crc_ok : ℕ → Bool
crc_ok footer = has_bit footer 7

-- `n` bytes read into a buffer.
abbrev pub fill : List ℕ → List ℕ → ℕ → List ℕ
fill buf bytes n = take n bytes ++ drop n buf

abbrev pub nonzero_time : ℕ → ℕ
nonzero_time t = if t == 0 then 1 else t

-- `ackbuf[0] += AUX_LEN`; without a callback, the standard acknowledgment in `extrabuf`.
abbrev pub add_footer : List ℕ → List ℕ
add_footer [] = []
add_footer (n ∷ bs) = u8 (n + aux_len) ∷ bs

abbrev pub make_ack : Softack → ℕ → ℕ → ℕ → List ℕ
make_ack none seqno timestamp nack = (aux_len + 3) ∷ 2 ∷ 0 ∷ []
make_ack (some make) seqno timestamp nack = add_footer (make seqno timestamp nack)

-- The variable `nack`, and how many bytes are read before the acknowledgment, for the block that
-- was allocated.
is_none : Option ℕ → ℕ
is_none none = 1
is_none (some k) = 0

room : Option ℕ → ℕ
room none = ack_len
room (some k) = fifop_threshold

module _ (lib : Library) where
  open lib use {memb_alloc, memb_free, list_add, list_chop, list_pop, rimeaddr_null}

  abbrev pub on_radio : (Radio → Radio) → Driver lib → Driver lib
  on_radio f d = record d { radio = f d.radio }

  abbrev pub flush_rx : Driver lib → Driver lib
  flush_rx d = on_radio (λ r. strobe Command.sflushrx (strobe Command.sflushrx r)) d

  abbrev pub store : ℕ → ReceivedFrame → Driver lib → Driver lib
  store k f d = record d { frame_of = update d.frame_of k f }

  -- The lock is taken, the FIFO is to be flushed, or it is empty: nothing is read.
  refuse : Reception → Driver lib → Driver lib × Exit
  refuse hw d = (
    record (on_radio (λ r. off (record r { need_flush = true })) d) { rx_end_time = hw.sfd_end },
    record { returned = 0; is_ack = 0; need_ack = 0; last_rf = LastRf.unassigned },
  )

  -- The length byte is out of range.
  reject : Reception → Driver lib → Driver lib × Exit
  reject hw d = (
    record (on_radio (λ r. release_lock (off r)) (flush_rx d)) { rx_end_time = hw.sfd_end },
    record { returned = 0; is_ack = 0; need_ack = 0; last_rf = LastRf.unassigned },
  )

  allocate : Driver lib → Driver lib × Option ℕ
  allocate d = let (m, rf) = memb_alloc d.memb in (record d { memb = m }, rf)

  -- The first bytes go to the new frame, at the end of the list; without a block they go to
  -- `extrabuf`, of which nothing older is used.
  pub first_part : Reception → ℕ → Driver lib × Option ℕ → Driver lib × List ℕ
  first_part hw len (d, none) = (d, fill (0 ∷ 0 ∷ 0 ∷ []) hw.data_bytes (min len ack_len))
  first_part hw len (d, some k) =
      let f = d.frame_of k in
      let buf = fill f.buf hw.data_bytes (min len fifop_threshold) in
      (
        store k (record f { buf = buf; len = len }) (record d { rf_list = list_add d.rf_list k }),
        buf,
      )

  -- The acknowledgment for a frame that is not one itself, written to the FIFO if the frame asks for
  -- it and there is one.
  pub write_ack : Softack → Bool → ℕ → ℕ → Driver lib → Driver lib
  write_ack softack do_ack seqno nack d =
      let ack = make_ack softack seqno d.last_packet_timestamp nack in
      let d' = record d { polls = d.polls + 1 } in
      if do_ack && ltb aux_len (byte ack 0)
      then record (on_radio (strobe Command.sflushtx) d') {
        tx_fifo = take (byte ack 0 - aux_len + 1) ack;
      }
      else d'

  -- `none` stands for the read of `ackbuf[0]` through NULL: no acknowledgment is made for a frame
  -- that is one.
  prepare_ack : Softack → Bool → Bool → ℕ → ℕ → Driver lib → Option (Driver lib)
  unfolding write_ack
  prepare_ack softack is_ack do_ack seqno nack d =
      if is_ack
      then (if do_ack then none else some d)
      else some (write_ack softack do_ack seqno nack d)

  -- A frame with a good CRC: the rest of it is read, and the sender's address. `none` stands for
  -- `extract_sender_address(NULL)`.
  accept : Reception → ℕ → Option ℕ → Driver lib → Option (Driver lib)
  accept hw len none d = none
  accept hw len (some k) d =
      let f = d.frame_of k in
      let buf = if ltb fifop_threshold len then fill f.buf hw.data_bytes len else f.buf in
      some (store k (extract_sender_address rimeaddr_null (record f { buf = buf })) d)

  drop_frame : Bool → Option ℕ → Driver lib → Driver lib
  drop_frame do_ack none d = if do_ack then on_radio (strobe Command.sflushtx) d else d
  drop_frame do_ack (some k) d =
      let d' = if do_ack then on_radio (strobe Command.sflushtx) d else d in
      record d' { rf_list = list_chop d'.rf_list; memb = memb_free d'.memb k }

  leave : Driver lib → Driver lib
  leave d = on_radio release_lock (flush_rx d)

  -- After the end of reception.
  pub settle_frame :
      Reception → ℕ → Bool → Bool → Option ℕ → ℕ → Driver lib → Option (Driver lib × Exit)
  unfolding accept drop_frame leave
  settle_frame hw len is_ack do_ack rf nack d₀ =
      let d = record (on_radio off d₀) { rx_end_time = nonzero_time hw.sfd_end } in
      let ack_flag = if is_ack then 8 else 0 in
      if not hw.overflow && crc_ok hw.footer_1
      then elim (accept hw len rf d) [
        | none ↦ none
        | some d' ↦ some (
          leave d',
          record {
            returned = 1;
            is_ack = ack_flag;
            need_ack = if do_ack then 1 + nack else 0;
            last_rf = LastRf.assigned rf;
          },
        )
      ]
      else some (
        leave (drop_frame do_ack rf d),
        record { returned = 1; is_ack = ack_flag; need_ack = 0; last_rf = LastRf.assigned none },
      )

  -- The acknowledgment, and the end of reception, with the flags of the frame and its number.
  pub respond :
      Softack → Reception → ℕ → Option ℕ → Bool → Bool → ℕ → Driver lib → Option (Driver lib × Exit)
  unfolding prepare_ack settle_frame is_none
  respond softack hw len rf is_ack do_ack seqno d =
      elim (prepare_ack softack is_ack do_ack seqno (is_none rf) d) [
        | none ↦ none
        | some d' ↦ settle_frame hw len is_ack do_ack rf (is_none rf) d'
      ]

  pub receive : Softack → Reception → ℕ → Driver lib → Option (Driver lib × Exit)
  unfolding allocate first_part respond room
  receive softack hw len d₀ =
      let (d₁, rf) = allocate d₀ in
      let (d₂, buf) = first_part hw len (d₁, rf) in
      let flags = frame80254_parse_irq buf (min len (room rf)) in
      respond softack hw len rf (has_bit flags 3) (has_bit flags 1) (byte buf 2) d₂

  pub cc2420_interrupt : Softack → Reception → Driver lib → Option (Driver lib × Exit)
  unfolding refuse reject receive
  cc2420_interrupt softack hw d₀ =
      let d = record d₀ { last_packet_timestamp = hw.sfd_start } in
      if to_bool d.radio.locked || d.radio.need_flush || not hw.fifo
      then some (refuse hw d)
      else if ltb cc2420_max_packet_len hw.length_byte || ltb hw.length_byte (aux_len + 1)
      then some (reject hw (on_radio get_lock d))
      else receive softack hw (hw.length_byte - aux_len) (on_radio get_lock d)

  unfoldable pub read_frame : ℕ → Driver lib × Option ℕ → Driver lib × List ℕ
  read_frame bufsize (d, none) = (on_radio release_lock d, [])
  read_frame bufsize (d, some k) =
      let f = d.frame_of k in
      let d' = record d {
        polls = elim (first d.rf_list) [ none ↦ d.polls | some j ↦ d.polls + 1 ];
        memb = memb_free d.memb k;
      } in
      (on_radio release_lock d', if ltb bufsize f.len then [] else take f.len f.buf)

  -- The bytes copied to the caller's buffer; their number is returned.
  unfoldable pub cc2420_read : ℕ → Driver lib → Driver lib × List ℕ
  unfolding read_frame
  cc2420_read bufsize d₀ =
      let d = on_radio get_lock d₀ in
      let (rest, rf) = list_pop d.rf_list in read_frame bufsize (record d { rf_list = rest }, rf)
