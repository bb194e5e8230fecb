-- ===== src/Radio/Interrupt/Effects.antt =====
-- What the FIFOP interrupt of dev/cc2420-tsch.c does to the driver: to its lock, to the frames it
-- keeps, and with no memory left for a frame.
use tsch_minimum.Prelude.{
  ℕ, ◌+◌, ◌-◌, ◌≡◌, ◌≤◌, ◌∙◌, refl, ap, Bool, true, false, ◌&&◌, ◌||◌, not, Option, none, some, ltb,
  inl, inr, Bool-cases, Option-cases, arith,
}
use tsch_minimum.Prelude.Words.{to_bool}
use tsch_minimum.Radio.{Radio, off, get_lock, release_lock, strobe}
use tsch_minimum.Radio.Lock.{IsIdle}
use tsch_minimum.Radio.Frame.{cc2420_max_packet_len}
use tsch_minimum.Radio.Interrupt.{
  Library, Reception, Driver, Exit, Softack, crc_ok, aux_len, nonzero_time, allocate, first_part,
  prepare_ack, accept, drop_frame, leave, settle_frame, respond, is_none, on_radio, receive, refuse,
  reject, cc2420_interrupt,
}

-- The interrupt holds the lock, and no request to turn the radio on or off waits.
record IsHeld (r : Radio) : Type 0 where
  held : r.locked ≡ 1
  no_on : r.lock_on ≡ false
  no_off : r.lock_off ≡ false

module _ (lib : Library) where
  -- Idle, and the radio is off.
  pub record IsOff (d : Driver lib) : Type 0 where
    pub idle : IsIdle d.radio
    pub radio_off : d.radio.receive_on ≡ false

  get_lock-IsHeld : (r : Radio) → IsIdle r → IsHeld (get_lock r)
  unfolding get_lock
  get_lock-IsHeld r h = record {
    held = ground (arith, h.unlocked);
    no_on = h.no_on;
    no_off = h.no_off;
  }

  leave-IsOff : (d : Driver lib) → IsHeld d.radio → d.radio.receive_on ≡ false → IsOff (leave lib d)
  unfolding leave release_lock strobe
  leave-IsOff d h e = record {
    idle = record {
      unlocked = ground (arith, h.held, h.no_on, h.no_off);
      no_on = ground (arith, h.held, h.no_on, h.no_off);
      no_off = ground (arith, h.held, h.no_on, h.no_off);
    };
    radio_off = ground (arith, h.held, h.no_on, h.no_off, e);
  }

  off-IsHeld : (r : Radio) → IsHeld r → IsHeld (off r)
  unfolding off
  off-IsHeld r h = record { held = h.held; no_on = h.no_on; no_off = h.no_off }

  off-off : (r : Radio) → (off r).receive_on ≡ false
  unfolding off
  off-off r = refl

  strobe-IsHeld : (r : Radio) (c : _) → IsHeld r → IsHeld (strobe c r)
  unfolding strobe
  strobe-IsHeld r c h = record { held = h.held; no_on = h.no_on; no_off = h.no_off }

  strobe-same : (r : Radio) (c : _) → (strobe c r).receive_on ≡ r.receive_on
  unfolding strobe
  strobe-same r c = refl

  drop-IsHeld :
      (d : Driver lib) (do_ack : Bool) (rf : Option ℕ)
      → IsHeld d.radio
      → d.radio.receive_on ≡ false
      → IsHeld (drop_frame lib do_ack rf d).radio
        × ((drop_frame lib do_ack rf d).radio.receive_on ≡ false)
  unfolding drop_frame
  drop-IsHeld d true none h e = (strobe-IsHeld d.radio _ h, strobe-same d.radio _ ∙ e)
  drop-IsHeld d false none h e = (h, e)
  drop-IsHeld d true (some k) h e = (strobe-IsHeld d.radio _ h, strobe-same d.radio _ ∙ e)
  drop-IsHeld d false (some k) h e = (h, e)

  accept-radio :
      (hw : Reception) (len : ℕ) (rf : Option ℕ) (d t : Driver lib)
      → accept lib hw len rf d ≡ some t
      → t.radio ≡ d.radio
  unfolding accept
  accept-radio hw len none d t h = absurd (ground arith)
  accept-radio hw len (some k) d t h = ground arith

  first_part-radio :
      (hw : Reception) (len : ℕ) (d : Driver lib) (rf : Option ℕ)
      → (first_part lib hw len (d, rf)).0.radio ≡ d.radio
  unfolding first_part
  first_part-radio hw len d none = refl
  first_part-radio hw len d (some k) = refl

  prepare-IsHeld :
      (softack : Softack) (is_ack do_ack : Bool) (seqno nack : ℕ) (d t : Driver lib)
      → IsHeld d.radio
      → prepare_ack lib softack is_ack do_ack seqno nack d ≡ some t
      → IsHeld t.radio
  unfolding prepare_ack strobe
  prepare-IsHeld softack is_ack do_ack seqno nack d t h e = record {
    held = ground (arith, h.held, e);
    no_on = ground (arith, h.no_on, e);
    no_off = ground (arith, h.no_off, e);
  }

  -- After the reception, whether the frame is kept or dropped.
  settle-IsOff :
      (hw : Reception) (len : ℕ) (is_ack do_ack : Bool) (rf : Option ℕ) (nack : ℕ)
      (d t : Driver lib) (e : Exit)
      → IsHeld d.radio
      → settle_frame lib hw len is_ack do_ack rf nack d ≡ some (t, e)
      → IsOff t
  unfolding settle_frame
  settle-IsOff hw len is_ack do_ack rf nack d₀ t e h p =
      elim (Bool-cases (not hw.overflow && crc_ok hw.footer_1)) [
        | inl good ↦ elim (Option-cases (accept lib hw len rf d)) [
          | inl no_rf ↦ absurd (ground (arith, p, good, no_rf))
          | inr (d', kept) ↦
              let same = accept-radio hw len rf d d' kept in
              rw (is_left d' (ground (arith, p, good, kept)))
                (leave-IsOff d' (rw same dark) (ap (λ r. r.receive_on) same ∙ off-off d₀.radio))
        ]
        | inr bad ↦
            let (held, dark') = drop-IsHeld d do_ack rf dark (off-off d₀.radio) in
            rw (is_left (drop_frame lib do_ack rf d) (ground (arith, p, bad)))
              (leave-IsOff _ held dark')
      ]
    where
      d : Driver lib
      d = record d₀ { radio = off d₀.radio; rx_end_time = nonzero_time hw.sfd_end }

      dark : IsHeld d.radio
      dark = off-IsHeld d₀.radio h

      is_left : (u : Driver lib) → t ≡ leave lib u → t ≡ leave lib u
      is_left u q = q

  refuse-IsOff : (hw : Reception) (d : Driver lib) → IsIdle d.radio → IsOff (refuse lib hw d).0
  unfolding refuse off
  refuse-IsOff hw d h = record {
    idle = record { unlocked = h.unlocked; no_on = h.no_on; no_off = h.no_off };
    radio_off = refl;
  }

  reject-IsOff : (hw : Reception) (d : Driver lib) → IsHeld d.radio → IsOff (reject lib hw d).0
  unfolding reject off release_lock strobe
  reject-IsOff hw d h = record {
    idle = record {
      unlocked = ground (arith, h.held, h.no_on, h.no_off);
      no_on = ground (arith, h.held, h.no_on, h.no_off);
      no_off = ground (arith, h.held, h.no_on, h.no_off);
    };
    radio_off = ground (arith, h.held, h.no_on, h.no_off);
  }

  respond-IsOff :
      (softack : Softack) (hw : Reception) (len : ℕ) (rf : Option ℕ) (is_ack do_ack : Bool)
      (seqno : ℕ) (d t : Driver lib) (e : Exit)
      → IsHeld d.radio
      → respond lib softack hw len rf is_ack do_ack seqno d ≡ some (t, e)
      → IsOff t
  unfolding respond
  respond-IsOff softack hw len rf is_ack do_ack seqno d t e h p =
      elim (Option-cases (prepare_ack lib softack is_ack do_ack seqno (is_none rf) d)) [
        | inl null ↦ absurd (ground (arith, p, null))
        | inr (d', ready) ↦
            settle-IsOff hw len is_ack do_ack rf (is_none rf) d' t e
              (prepare-IsHeld softack is_ack do_ack seqno (is_none rf) d d' h ready)
              (ground (arith, p, ready))
      ]

  receive-IsOff :
      (softack : Softack) (hw : Reception) (len : ℕ) (d t : Driver lib) (e : Exit)
      → IsHeld d.radio
      → receive lib softack hw len d ≡ some (t, e)
      → IsOff t
  unfolding receive allocate
  receive-IsOff softack hw len d t e h p =
      let (d₁, rf) = allocate lib d in
      respond-IsOff softack hw len rf _ _ _ (first_part lib hw len (d₁, rf)).0 t e
        (rw (first_part-radio hw len d₁ rf) h) p

  -- Where the interrupt comes while no one holds the lock and no request waits: whenever it returns,
  -- it has given back the lock that it took, left no request waiting and turned the radio off.
  pub interrupt-IsOff :
      (softack : Softack) (hw : Reception) (d t : Driver lib) (e : Exit)
      → IsIdle d.radio
      → cc2420_interrupt lib softack hw d ≡ some (t, e)
      → IsOff t
  unfolding cc2420_interrupt
  interrupt-IsOff softack hw d₀ t e h p =
      elim (Bool-cases (to_bool d.radio.locked || d.radio.need_flush || not hw.fifo)) [
        | inl busy ↦ rw (now (refuse lib hw d).0 (ground (arith, p, busy))) (refuse-IsOff hw d h)
        | inr free ↦
            elim (Bool-cases
              (ltb cc2420_max_packet_len hw.length_byte || ltb hw.length_byte (aux_len + 1))) [
                | inl odd ↦
                    rw (now (reject lib hw held).0 (ground (arith, p, free, odd)))
                      (reject-IsOff hw held (get_lock-IsHeld d₀.radio h))
                | inr ok ↦
                    receive-IsOff softack hw (hw.length_byte - aux_len) held t e
                      (get_lock-IsHeld d₀.radio h) (ground (arith, p, free, ok))
              ]
      ]
    where
      d : Driver lib
      d = record d₀ { last_packet_timestamp = hw.sfd_start }

      held : Driver lib
      held = on_radio lib get_lock d

      now : (u : Driver lib) → t ≡ u → t ≡ u
      now u q = q

  -- With no memory left for a frame, a frame with a good CRC makes the interrupt read the sender's
  -- address through NULL, whatever the frame is.
  pub no_memory :
      (softack : Softack) (hw : Reception) (d : Driver lib)
      → IsIdle d.radio
      → d.radio.need_flush ≡ false
      → hw.fifo ≡ true
      → 3 ≤ hw.length_byte
      → hw.length_byte ≤ 127
      → (lib.memb_alloc d.memb).1 ≡ none
      → hw.overflow ≡ false
      → crc_ok hw.footer_1 ≡ true
      → cc2420_interrupt lib softack hw d ≡ none
  unfolding cc2420_interrupt receive allocate respond prepare_ack settle_frame accept
  no_memory softack hw d h clean fifo low high full room crc =
      ground (arith, h.unlocked, clean, fifo, full, room, crc)
