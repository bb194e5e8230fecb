-- ===== src/Radio/Interrupt/Keeps.antt =====
-- Frames that the interrupt of dev/cc2420-tsch.c keeps, and frames that it drops.
use tsch_minimum.Prelude.{
  ℕ, ◌+◌, ◌≡◌, ◌≢◌, ◌≤◌, ◌∙◌, refl, ap, Bool, true, false, Option, some, List, ==_iff, ◌==◌, ltb,
  if◌then◌else◌, inl, inr, Bool-cases, arith, length, min,
}
use tsch_minimum.Prelude.Words.{has_bit, low_bits}
use mathlib.Core.Path.{fun_ext}
use tsch_minimum.Neighbors.{update}
use tsch_minimum.Radio.Frame.{
  ReceivedFrame, byte, flag, frame80254_parse_irq, extract_sender_address,
}
use tsch_minimum.Radio.Interrupt.Refill.{fill-fill}
use tsch_minimum.Radio.Interrupt.{
  Library, Reception, Driver, LastRf, Exit, Softack, crc_ok, fill, room, fifop_threshold, is_none,
  allocate, first_part, prepare_ack, write_ack, accept, settle_frame, respond, receive,
}

module _ (lib : Library) where
  -- What the acknowledgment leaves alone.
  pub record SameFrames (d t : Driver lib) : Type 0 where
    pub same_list : t.rf_list ≡ d.rf_list
    pub same_frames : t.frame_of ≡ d.frame_of
    pub same_memb : t.memb ≡ d.memb

  pub prepared :
      (softack : Softack) (do_ack : Bool) (seqno nack : ℕ) (d : Driver lib)
      → SameFrames d (write_ack lib softack do_ack seqno nack d)
  unfolding write_ack
  prepared softack do_ack seqno nack d = record {
    same_list = ground arith;
    same_frames = ground arith;
    same_memb = ground arith;
  }

  -- The chip holds a frame of `len` bytes with a good CRC.
  pub record IsGood (hw : Reception) (len : ℕ) : Type 0 where
    pub in_fifo : hw.fifo ≡ true
    pub length_read : hw.length_byte ≡ len + 2
    pub at_least : 1 ≤ len
    pub at_most : len ≤ 125
    pub all_bytes : len ≤ length hw.data_bytes
    pub no_overflow : hw.overflow ≡ false
    pub good_crc : crc_ok hw.footer_1 ≡ true

  -- The frame as the driver keeps it, over what the block held before.
  abbrev pub kept : Reception → ℕ → ReceivedFrame → ReceivedFrame
  kept hw len f =
      extract_sender_address lib.rimeaddr_null (record {
        buf = fill f.buf hw.data_bytes len;
        len = len;
        source_address = f.source_address;
      })

  -- The block after its first part was read.
  abbrev pub begun : Reception → ℕ → ReceivedFrame → ReceivedFrame
  begun hw len f = record {
    buf = fill f.buf hw.data_bytes (min len fifop_threshold);
    len = len;
    source_address = f.source_address;
  }

  -- The same block with the rest of the frame.
  abbrev completed : Reception → ReceivedFrame → ReceivedFrame
  completed hw f = record f {
    buf = if ltb fifop_threshold f.len then fill f.buf hw.data_bytes f.len else f.buf;
  }

  completed-begun :
      (hw : Reception) (len : ℕ) (f : ReceivedFrame)
      → len ≤ length hw.data_bytes
      → extract_sender_address lib.rimeaddr_null (completed hw (begun hw len f)) ≡ kept hw len f
  completed-begun hw len f all = rw (fill-fill len f.buf hw.data_bytes all) refl

  accepted :
      (hw : Reception) (len k : ℕ) (d₁ d : Driver lib)
      → len ≤ length hw.data_bytes
      → d.frame_of ≡ update d₁.frame_of k (begun hw len (d₁.frame_of k))
      → (t : Driver lib) × (accept lib hw len (some k) d ≡ some t)
        × (t.rf_list ≡ d.rf_list)
        × (t.frame_of ≡ update d₁.frame_of k (kept hw len (d₁.frame_of k)))
  unfolding accept
  accepted hw len k d₁ d all e = (
    _,
    refl,
    refl,
    fun_ext λ j. elim (Bool-cases (k == j)) [
      | inl same ↦ rw same same_kept
      | inr other ↦ rw other (ap (λ g. g j) e ∙ rw other refl)
    ],
  )
    where
      at_k : d.frame_of k ≡ begun hw len (d₁.frame_of k)
      at_k = ap (λ g. g k) e ∙ rw ((==_iff k k).1 refl) refl

      same_kept :
          extract_sender_address lib.rimeaddr_null (record {
            buf =
                if ltb fifop_threshold len
                then fill (d.frame_of k).buf hw.data_bytes len
                else (d.frame_of k).buf;
            len = (d.frame_of k).len;
            source_address = (d.frame_of k).source_address;
          })
          ≡ kept hw len (d₁.frame_of k)
      same_kept = rw at_k (completed-begun hw len (d₁.frame_of k) all)

  -- What has become of a frame: in the last block of the list, and reported to the callback, with the
  -- acknowledgment that it asks for.
  pub record IsKept (hw : Reception) (len k : ℕ) (d t : Driver lib) (e : Exit) : Type 0 where
    pub listed : t.rf_list ≡ lib.list_add d.rf_list k
    pub frames : t.frame_of ≡ update d.frame_of k (kept hw len (d.frame_of k))
    pub returned_1 : e.returned ≡ 1
    pub reported : e.last_rf ≡ LastRf.assigned (some k)
    pub acked : e.need_ack ≡ flag (has_bit (frame80254_parse_irq hw.data_bytes len) 1) 1

  abbrev Keeps : Reception → ℕ → ℕ → Driver lib → Option (Driver lib × Exit) → Type 0
  Keeps hw len k d o = (t : Driver lib) × (e : Exit) × (o ≡ some (t, e)) × IsKept hw len k d t e

  pub not_ack :
      (b : List ℕ) (len : ℕ)
      → low_bits (byte b 0) 3 ≢ 2
      → has_bit (frame80254_parse_irq b len) 3 ≡ false
  unfolding frame80254_parse_irq
  not_ack b len h = ground arith

  pub received :
      (softack : Softack) (hw : Reception) (len k : ℕ) (d : Driver lib)
      → (lib.memb_alloc d.memb).1 ≡ some k
      → let (d₂, buf) =
          first_part lib hw len (record d { memb = (lib.memb_alloc d.memb).0 }, some k) in
        let flags = frame80254_parse_irq buf (min len fifop_threshold) in
        receive lib softack hw len d
        ≡ respond lib softack hw len (some k) (has_bit flags 3) (has_bit flags 1) (byte buf 2) d₂
  unfolding receive allocate room
  received softack hw len k d e = rw e refl

  pub responded :
      (softack : Softack) (hw : Reception) (len k : ℕ) (do_ack : Bool) (seqno : ℕ) (d : Driver lib)
      → respond lib softack hw len (some k) false do_ack seqno d
        ≡ settle_frame lib hw len false do_ack (some k) 0 (write_ack lib softack do_ack seqno 0 d)
  unfolding respond prepare_ack is_none
  responded softack hw len k do_ack seqno d = refl
