-- ===== src/Radio/Setup/Start.antt =====
-- What `cc2420_init` of dev/cc2420-tsch.c sets up.
use mathlib.Core.Path.{subst}
use tsch_minimum.Prelude.{
  branch, ℕ, ◌≡◌, refl, sym, ap, ◌∙◌, true, false, ◌<◌, arith, ◌*◌, ◌+◌, ◌-◌, ◌≤◌, ◌%◌, Bool-cases,
  inl, inr,
}
use tsch_minimum.Prelude.Words.{has_bit, set_bit, clear_bit, u16}
use tsch_minimum.Radio.{
  Radio, Command, getreg, setreg, mdmctrl_0, fsctrl, rssi_register, channel_word, calibrate, strobe,
  get_lock, release_lock, run_lock_on, run_lock_off, cc2420_set_channel, cc2420_set_cca_threshold,
}
use tsch_minimum.Radio.Lock.{IsIdle}
use tsch_minimum.Radio.Spi.{Chip}
use tsch_minimum.Radio.Setup.{
  cc2420_init, cc2420_set_pan_addr, corr_thr, fifop_thr, iocfg_0, rxctrl_1, secctrl_0, mdmctrl_1,
}

-- An idle driver, with the lock and the requests written out.
abbrev at_rest : Radio → Radio
at_rest r = record r { locked = 0; lock_on = false; lock_off = false }

at_rest-eq : (r : Radio) → IsIdle r → at_rest r ≡ r
at_rest-eq r h =
    λ i. record r { locked = sym h.unlocked i; lock_on = sym h.no_on i; lock_off = sym h.no_off i }

-- The lock is taken and given back.
relock : (r : Radio) → IsIdle r → release_lock (get_lock r) ≡ r
unfolding release_lock get_lock run_lock_on run_lock_off
relock r h = subst (λ x. release_lock (get_lock x) ≡ x) (at_rest-eq r h) refl

calibrate-lock : (r : Radio) → calibrate (get_lock r) ≡ get_lock (calibrate r)
unfolding get_lock
calibrate-lock r = elim (Bool-cases r.receive_on) [
  | inl on ↦ ground (arith, on)
  | inr off ↦ ground (arith, off)
]

-- A calibration only sends a command.
pub record Calibrated (r t : Radio) : Type 0 where
  pub same_regs : t.regs ≡ r.regs
  pub same_channel : t.channel ≡ r.channel
  pub same_power : t.receive_on ≡ r.receive_on
  pub idle : IsIdle r → IsIdle t

calibrate-Calibrated : (r : Radio) → Calibrated r (calibrate r)
calibrate-Calibrated r =
    branch (Calibrated r) r.receive_on
      (record {
        same_regs = refl;
        same_channel = refl;
        same_power = refl;
        idle = λ h. record { unlocked = h.unlocked; no_on = h.no_on; no_off = h.no_off };
      })
      (record { same_regs = refl; same_channel = refl; same_power = refl; idle = λ h. h })

-- What setting the channel and the threshold does to an idle driver.
tuned : ℕ → Radio → Radio
tuned c r = calibrate (setreg fsctrl (channel_word c) (record r { channel = c }))

set_channel-eq : (c : ℕ) (r : Radio) → IsIdle r → (cc2420_set_channel c r).0 ≡ tuned c r
unfolding cc2420_set_channel get_lock tuned
set_channel-eq c r h =
    ap release_lock (calibrate-lock (setreg fsctrl (channel_word c) (record r { channel = c })))
    ∙ relock (tuned c r) (
        (calibrate-Calibrated (setreg fsctrl (channel_word c) (record r { channel = c }))).idle
          (record { unlocked = h.unlocked; no_on = h.no_on; no_off = h.no_off }))

set_cca_threshold-eq :
    (v : ℕ) (r : Radio)
    → IsIdle r
    → cc2420_set_cca_threshold v r ≡ setreg rssi_register (u16 (v * 256)) r
unfolding cc2420_set_cca_threshold get_lock
set_cca_threshold-eq v r h =
    relock (setreg rssi_register (u16 (v * 256)) r)
      (record { unlocked = h.unlocked; no_on = h.no_on; no_off = h.no_off })

-- The registers that are set before the addresses.
configured : Radio → Radio
configured r₀ =
    let r₁ = strobe Command.sxoscon (strobe Command.disable_fifop r₀) in
    let r₂ = setreg mdmctrl_0 (set_bit (clear_bit (getreg r₁ mdmctrl_0) 4) 11) r₁ in
    let r₃ = setreg mdmctrl_1 (corr_thr 20) r₂ in
    let r₄ = setreg rxctrl_1 (set_bit (getreg r₃ rxctrl_1) 13) r₃ in
    let r₅ = setreg iocfg_0 (fifop_thr 7) r₄ in
    setreg secctrl_0 (clear_bit (getreg r₅ secctrl_0) 9) r₅

configured-IsIdle : (r : Radio) → IsIdle r → IsIdle (configured r)
unfolding configured strobe
configured-IsIdle r h = record { unlocked = h.unlocked; no_on = h.no_on; no_off = h.no_off }

tuned-IsIdle : (c : ℕ) (r : Radio) → IsIdle r → IsIdle (tuned c r)
unfolding tuned
tuned-IsIdle c r h =
    (calibrate-Calibrated (setreg fsctrl (channel_word c) (record r { channel = c }))).idle
      (record { unlocked = h.unlocked; no_on = h.no_on; no_off = h.no_off })

-- AUTOACK is cleared and ADR_DECODE is set.
address_decode_bits :
    (x : ℕ)
    → x < 65536
    → let w = u16 (set_bit (clear_bit x 4) 11) in (has_bit w 4 ≡ false) × (has_bit w 11 ≡ true)
address_decode_bits x h = (ground arith, ground arith)

module _ (chip : Chip) where
  abbrev ready : ℕ → ℕ → Radio → Radio
  ready channel threshold r = strobe Command.sflushrx (
      strobe Command.sflushrx
        (setreg rssi_register (u16 (threshold * 256)) (tuned channel (configured r))))

  init-eq :
      (polls channel threshold : ℕ) (r : Radio) (s : chip.State)
      → IsIdle r
      → (cc2420_init chip polls channel threshold (r, s)).0 ≡ ready channel threshold r
  unfolding cc2420_init cc2420_set_pan_addr configured
  init-eq polls channel threshold r s h =
      let idle = configured-IsIdle r h in
      ap
        (λ x. strobe Command.sflushrx (
          strobe Command.sflushrx
            (cc2420_set_cca_threshold threshold (cc2420_set_channel channel x).0)))
        (relock (configured r) idle)
      ∙ ap
          (λ x.
            strobe Command.sflushrx
              (strobe Command.sflushrx (cc2420_set_cca_threshold threshold x)))
          (set_channel-eq channel (configured r) idle)
      ∙ ap (λ x. strobe Command.sflushrx (strobe Command.sflushrx x))
          (set_cca_threshold-eq threshold (tuned channel (configured r))
            (tuned-IsIdle channel (configured r) idle))

  abbrev pub IsConfigured : ℕ → ℕ → Radio → Radio → Type 0
  IsConfigured channel threshold r r' =
      (has_bit (getreg r' mdmctrl_0) 4 ≡ false)
      × (has_bit (getreg r' mdmctrl_0) 11 ≡ true)
      × (getreg r' iocfg_0 ≡ 7)
      × (getreg r' fsctrl ≡ 16741 + 5 * (channel - 11))
      × (getreg r' rssi_register ≡ threshold * 256 % 65536)
      × (r'.channel ≡ channel)
      × (r'.receive_on ≡ r.receive_on)
      × IsIdle r'

  ready-IsConfigured :
      (channel threshold : ℕ) (r : Radio)
      → IsIdle r
      → r.regs mdmctrl_0 < 65536
      → 11 ≤ channel
      → channel ≤ 26
      → IsConfigured channel threshold r (ready channel threshold r)
  unfolding strobe configured tuned
  ready-IsConfigured channel threshold r h small low high =
      let idle = tuned-IsIdle channel (configured r) (configured-IsIdle r h) in
      let r₆ = record (configured r) { channel = channel } in
      let c = calibrate-Calibrated (setreg fsctrl (channel_word channel) r₆) in
      (
        rw c.same_regs (address_decode_bits (r.regs mdmctrl_0) small).0,
        rw c.same_regs (address_decode_bits (r.regs mdmctrl_0) small).1,
        rw c.same_regs refl,
        rw c.same_regs (omega arith),
        ground (arith),
        c.same_channel,
        c.same_power,
        record { unlocked = idle.unlocked; no_on = idle.no_on; no_off = idle.no_off },
      )

  -- The start of an idle driver with a channel in 11 to 26, whatever was in the registers: the chip
  -- does not acknowledge frames itself and decodes addresses, it interrupts after seven bytes, its
  -- frequency word is 0x4000 + 357 for channel 11 and five more for each channel, the CCA threshold
  -- is in the high byte of RSSI, and the driver is idle with its radio as it was.
  pub init_configures :
      (polls channel threshold : ℕ) (r : Radio) (s : chip.State)
      → IsIdle r
      → r.regs mdmctrl_0 < 65536
      → 11 ≤ channel
      → channel ≤ 26
      → IsConfigured channel threshold r (cc2420_init chip polls channel threshold (r, s)).0
  init_configures polls channel threshold r s h small low high =
      subst (IsConfigured channel threshold r) (sym (init-eq polls channel threshold r s h))
        (ready-IsConfigured channel threshold r h small low high)
