-- ===== src/Radio/Interrupt/Drops.antt =====
-- Frames that the interrupt of dev/cc2420-tsch.c drops, since their CRC is wrong or the FIFO
-- overflowed.
use tsch_minimum.Prelude.{
  ℕ, ◌+◌, ◌≡◌, ◌≢◌, ◌≤◌, ◌∙◌, refl, ap, Bool, true, false, ◌||◌, ◌&&◌, not, none, some, List, [],
  ◌∷◌, ◌==◌, arith, length, min,
}
use tsch_minimum.Prelude.Words.{has_bit, low_bits}
use tsch_minimum.Neighbors.{update}
use tsch_minimum.Radio.{off, get_lock}
use tsch_minimum.Radio.Lock.{IsIdle}
use tsch_minimum.Radio.Frame.{byte, frame80254_parse_irq}
use tsch_minimum.Radio.Interrupt.Refill.{flags_of}
use tsch_minimum.Radio.Interrupt.Keeps.{SameFrames, prepared, not_ack, received, responded, begun}
use tsch_minimum.Radio.Interrupt.{
  Library, Reception, Driver, LastRf, Exit, Softack, crc_ok, fill, on_radio, nonzero_time,
  fifop_threshold, first_part, write_ack, drop_frame, leave, settle_frame, respond, receive,
  cc2420_interrupt,
}

-- A block is in the list.
abbrev pub is_listed : ℕ → List ℕ → Bool
is_listed k [] = false
is_listed k (x ∷ xs) = k == x || is_listed k xs

-- The chip holds a frame of `len` bytes that is not valid.
pub record IsBad (hw : Reception) (len : ℕ) : Type 0 where
  pub in_fifo : hw.fifo ≡ true
  pub length_read : hw.length_byte ≡ len + 2
  pub at_least : 1 ≤ len
  pub at_most : len ≤ 125
  pub all_bytes : len ≤ length hw.data_bytes
  pub not_valid : not hw.overflow && crc_ok hw.footer_1 ≡ false

-- `list_chop` removes what `list_add` has added, where it was not in the list, and `memb_free` gives
-- back what `memb_alloc` has taken.
pub record IsUndone (lib : Library) : Type 0 where
  pub chop_add :
      (xs : List ℕ) (k : ℕ) → is_listed k xs ≡ false → lib.list_chop (lib.list_add xs k) ≡ xs
  pub free_alloc :
      (m : lib.Memb) (k : ℕ)
      → (lib.memb_alloc m).1 ≡ some k
      → lib.memb_free (lib.memb_alloc m).0 k ≡ m

module _ (lib : Library) where
  -- Nothing is left of the frame but the first bytes in a block that is free again, and the callback
  -- gets no frame.
  pub record IsDropped (hw : Reception) (len k : ℕ) (d t : Driver lib) (e : Exit) : Type 0 where
    pub same_list : t.rf_list ≡ d.rf_list
    pub same_memb : t.memb ≡ d.memb
    pub frames : t.frame_of ≡ update d.frame_of k (begun lib hw len (d.frame_of k))
    pub returned_1 : e.returned ≡ 1
    pub no_ack_needed : e.need_ack ≡ 0
    pub no_frame : e.last_rf ≡ LastRf.assigned none

  -- The driver after the frame is dropped, and what the callback gets.
  abbrev dropped : Reception → Bool → ℕ → Driver lib → Driver lib × Exit
  dropped hw do_ack k d = (
    leave lib (
        drop_frame lib do_ack (some k)
          (record d { radio = off d.radio; rx_end_time = nonzero_time hw.sfd_end })),
    record { returned = 1; is_ack = 0; need_ack = 0; last_rf = LastRf.assigned none },
  )

  settled :
      (hw : Reception) (len k : ℕ) (do_ack : Bool) (d : Driver lib)
      → not hw.overflow && crc_ok hw.footer_1 ≡ false
      → settle_frame lib hw len false do_ack (some k) 0 d ≡ some (dropped hw do_ack k d)
  unfolding settle_frame
  settled hw len k do_ack d bad = rw bad refl

  dropped_lem :
      (hw : Reception) (do_ack : Bool) (k : ℕ) (d : Driver lib)
      → let t = (dropped hw do_ack k d).0 in
        (t.rf_list ≡ lib.list_chop d.rf_list)
        × (t.memb ≡ lib.memb_free d.memb k)
        × (t.frame_of ≡ d.frame_of)
  unfolding leave drop_frame
  dropped_lem hw true k d = (refl, refl, refl)
  dropped_lem hw false k d = (refl, refl, refl)

  receive-IsDropped :
      (softack : Softack) (hw : Reception) (len k : ℕ) (d : Driver lib)
      → IsUndone lib
      → IsBad hw len
      → low_bits (byte hw.data_bytes 0) 3 ≢ 2
      → (lib.memb_alloc d.memb).1 ≡ some k
      → is_listed k d.rf_list ≡ false
      → (t : Driver lib) × (e : Exit) × (receive lib softack hw len d ≡ some (t, e))
        × IsDropped hw len k d t e
  unfolding first_part
  receive-IsDropped softack hw len k d laws bad no_ack_frame alloc fresh =
      let l = dropped_lem hw do_ack k d₃ in
      (
        (dropped hw do_ack k d₃).0,
        (dropped hw do_ack k d₃).1,
        received lib softack hw len k d alloc
            ∙ ap (λ b. respond lib softack hw len (some k) b do_ack (byte buf 2) d₂) no_ack
            ∙ responded lib softack hw len k do_ack (byte buf 2) d₂
            ∙ settled hw len k do_ack d₃ bad.not_valid,
        record {
          same_list = l.0 ∙ ap lib.list_chop same.same_list ∙ laws.chop_add d.rf_list k fresh;
          same_memb =
              l.1 ∙ ap (λ m. lib.memb_free m k) same.same_memb ∙ laws.free_alloc d.memb k alloc;
          frames = l.2 ∙ same.same_frames;
          returned_1 = refl;
          no_ack_needed = refl;
          no_frame = refl;
        },
      )
    where
      d₂ : Driver lib
      d₂ = (first_part lib hw len (record d { memb = (lib.memb_alloc d.memb).0 }, some k)).0

      buf : List ℕ
      buf = fill (d.frame_of k).buf hw.data_bytes (min len fifop_threshold)

      do_ack : Bool
      do_ack = has_bit (frame80254_parse_irq buf (min len fifop_threshold)) 1

      d₃ : Driver lib
      d₃ = write_ack lib softack do_ack (byte buf 2) 0 d₂

      no_ack : has_bit (frame80254_parse_irq buf (min len fifop_threshold)) 3 ≡ false
      no_ack =
          ap (λ fl. has_bit fl 3)
            (flags_of (d.frame_of k).buf hw.data_bytes len bad.at_least bad.all_bytes)
          ∙ not_ack lib hw.data_bytes len no_ack_frame

      same : SameFrames lib d₂ d₃
      same = prepared lib softack do_ack (byte buf 2) 0 d₂

  -- With the lock free, no flush due, and a block free that is not in the list, a frame that is not
  -- an acknowledgment and whose CRC is wrong, or during which the FIFO overflowed, is dropped: the
  -- list of frames and the pool of blocks are as before, only the free block has been written, and
  -- the callback gets no frame and is not asked for an acknowledgment.
  pub interrupt_drops :
      (softack : Softack) (hw : Reception) (len k : ℕ) (d : Driver lib)
      → IsUndone lib
      → IsIdle d.radio
      → d.radio.need_flush ≡ false
      → IsBad hw len
      → low_bits (byte hw.data_bytes 0) 3 ≢ 2
      → (lib.memb_alloc d.memb).1 ≡ some k
      → is_listed k d.rf_list ≡ false
      → (t : Driver lib) × (e : Exit) × (cc2420_interrupt lib softack hw d ≡ some (t, e))
        × IsDropped hw len k d t e
  unfolding cc2420_interrupt
  interrupt_drops softack hw len k d₀ laws idle clean bad no_ack_frame alloc fresh =
      let d = on_radio lib get_lock (record d₀ { last_packet_timestamp = hw.sfd_start }) in
      let (t, e, ok, gone) =
        receive-IsDropped softack hw len k d laws bad no_ack_frame alloc fresh in
      (
        t,
        e,
        ground (
          arith, idle.unlocked, clean, bad.in_fifo, bad.length_read, bad.at_most, bad.at_least, ok,
        ),
        record {
          same_list = gone.same_list;
          same_memb = gone.same_memb;
          frames = gone.frames;
          returned_1 = gone.returned_1;
          no_ack_needed = gone.no_ack_needed;
          no_frame = gone.no_frame;
        },
      )
