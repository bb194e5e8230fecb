-- ===== src/Radio/Setup.antt =====
-- Setting up the driver dev/cc2420-tsch.c: its start, the addresses and the FIFO of the chip, the
-- capture of SFD, and the tests of what the radio hears.
pub mod Pan
pub mod Start
use Prim.Native.Nat.{bit_and}
use tsch_minimum.Prelude.{
  ℕ, zero, suc, ◌+◌, ◌*◌, Bool, Option, none, some, List, [], ◌∷◌, if◌then◌else◌, get_or, length,
}
use tsch_minimum.Prelude.Words.{u8, low_bits, shr, set_bit, clear_bit, has_bit, to_bool}
use tsch_minimum.Outcome.{RadioTx}
use tsch_minimum.Radio.{
  Radio, Command, strobe, get_lock, release_lock, getreg, setreg, mdmctrl_0, cc2420_set_channel,
  cc2420_set_cca_threshold, cc2420_transmit,
}
use tsch_minimum.Radio.Spi.{Chip, write_ram, get_status}

-- `CORR_THR(n)`, `FIFOP_THR(n)`, and the registers that are set up at the start.
abbrev pub corr_thr : ℕ → ℕ
corr_thr n = low_bits n 5 * 64

abbrev pub fifop_thr : ℕ → ℕ
fifop_thr n = low_bits n 7

abbrev pub mdmctrl_1 : ℕ
mdmctrl_1 = 18

abbrev pub rxctrl_1 : ℕ
rxctrl_1 = 23

abbrev pub secctrl_0 : ℕ
secctrl_0 = 25

abbrev pub iocfg_0 : ℕ
iocfg_0 = 28

-- The bytes of an address from the last one to the first one.
abbrev pub reversed : ℕ → List ℕ → List ℕ
reversed zero bytes = []
reversed (suc n) bytes = get_or bytes n 0 ∷ reversed n bytes

-- A number of 16 bits, its low byte first.
abbrev pub two_bytes : ℕ → List ℕ
two_bytes n = low_bits n 8 ∷ shr n 8 ∷ []

module _ (chip : Chip) where
  open chip use {ram_panid, ram_shortaddr, ram_ieeeaddr, xosc16m_stable}

  abbrev pub write_ieee : Option (List ℕ) → chip.State → chip.State
  write_ieee none s = s
  write_ieee (some ieee_addr) s = write_ram chip (reversed 8 ieee_addr) ram_ieeeaddr s

  -- `BUSYWAIT_UNTIL(status() & BV(CC2420_XOSC16M_STABLE), RTIMER_SECOND / 10)`, where the status is
  -- read up to `polls` times in that time.
  pub wait_for_oscillator : ℕ → chip.State → chip.State
  wait_for_oscillator zero s = s
  wait_for_oscillator (suc polls) s =
      let (s', status) = get_status chip s in
      let later = wait_for_oscillator polls s' in
      if has_bit status xosc16m_stable then s' else later

  -- Registers are those of the record Radio.
  unfoldable pub cc2420_set_pan_addr :
      ℕ → ℕ → ℕ → Option (List ℕ) → Radio × chip.State → Radio × chip.State
  cc2420_set_pan_addr polls pan addr ieee_addr (r, s) =
      let s₀ = wait_for_oscillator polls s in
      let s₁ = write_ram chip (two_bytes pan) ram_panid s₀ in
      let s₂ = write_ram chip (two_bytes addr) ram_shortaddr s₁ in
      (release_lock (get_lock r), write_ieee ieee_addr s₂)

  -- `cc2420_init`, after the ports, the voltage regulator, the reset and the first wait for the
  -- crystal oscillator, with the channel and the threshold of the configuration; the pool and the
  -- list of frames are empty after it.
  unfoldable pub cc2420_init : ℕ → ℕ → ℕ → Radio × chip.State → Radio × chip.State
  unfolding cc2420_set_pan_addr
  cc2420_init polls channel threshold (r₀, s) =
      let r₁ = strobe Command.sxoscon (strobe Command.disable_fifop r₀) in
      let r₂ = setreg mdmctrl_0 (set_bit (clear_bit (getreg r₁ mdmctrl_0) 4) 11) r₁ in
      let r₃ = setreg mdmctrl_1 (corr_thr 20) r₂ in
      let r₄ = setreg rxctrl_1 (set_bit (getreg r₃ rxctrl_1) 13) r₃ in
      let r₅ = setreg iocfg_0 (fifop_thr 7) r₄ in
      let r₆ = setreg secctrl_0 (clear_bit (getreg r₅ secctrl_0) 9) r₅ in
      let (r₇, s') = cc2420_set_pan_addr polls 0xffff 0 none (r₆, s) in
      let r₈ = (cc2420_set_channel channel r₇).0 in
      let r₉ = cc2420_set_cca_threshold threshold r₈ in
      (strobe Command.sflushrx (strobe Command.sflushrx r₉), s')

-- `total_len`, and what is in the TX FIFO: without CC2420_CONF_CHECKSUM, AUX_LEN is 2.
abbrev pub total_len : List ℕ → ℕ
total_len payload = u8 (length payload + 2)

unfoldable pub cc2420_prepare : List ℕ → Radio → Radio × List ℕ × ℕ
cc2420_prepare payload r =
    (release_lock (strobe Command.sflushtx (get_lock r)), total_len payload ∷ payload, 0)

unfoldable pub cc2420_send : List ℕ → List Bool → Radio → Radio × List ℕ × RadioTx
unfolding cc2420_prepare
cc2420_send payload sfd r =
    let (r', fifo, ret) = cc2420_prepare payload r in
    let (r'', result) = cc2420_transmit sfd r' in (r'', fifo, result)

-- The edges of SFD that the timer captures, and the value that the timer is set to.
pub data Capture : Type 0 where
  both_edges rising falling disabled : Capture

unfoldable pub cc2420_sfd_sync : ℕ → ℕ → ℕ → Capture × ℕ
cc2420_sfd_sync capture_start_sfd capture_end_sfd now = (
  if to_bool (bit_and capture_start_sfd capture_end_sfd)
      then Capture.both_edges
      else if to_bool capture_start_sfd
      then Capture.rising
      else if to_bool capture_end_sfd
      then Capture.falling
      else Capture.disabled,
  now,
)

-- `valid` is the bit RSSI_VALID of the chip's status when it is read.
unfoldable pub cc2420_cca_valid : Bool → Radio → Radio × ℕ
cc2420_cca_valid valid r =
    if to_bool r.locked then (r, 1) else (release_lock (get_lock r), if valid then 1 else 0)
