-- ===== src/Radio.antt =====
-- The CC2420 driver, dev/cc2420-tsch.c: the driver's variables and the chip as the driver sees it,
-- turning the radio on and off under the driver's lock, and the calls that hold the lock.
pub mod Lock
pub mod Balance
pub mod Frame
pub mod Interrupt
pub mod Spi
pub mod Setup
pub mod Poll
pub mod Tests
use tsch_minimum.Prelude.{
  ℕ, ◌+◌, ◌-◌, ◌*◌, ◌/◌, ◌%◌, Bool, true, false, Option, none, some, List, [], ◌∷◌, ◌==◌,
  if◌then◌else◌,
}
use tsch_minimum.Prelude.Int.{ℤ, pos, signed8}
use tsch_minimum.Outcome.{RadioTx}
use tsch_minimum.Prelude.Words.{u8, u16, sub16, low_bits, shr, set_bit, clear_bit, to_bool}

-- What the driver sends to the chip: `CC2420_STROBE`, and the mask of the FIFOP interrupt.
pub data Command : Type 0 where
  sxoscon srxon srfoff stxon sflushrx sflushtx enable_fifop disable_fifop : Command

-- The driver's static variables, the chip's registers, and the commands sent, the latest first.
-- Waiting for a bit of the chip's status (`BUSYWAIT_UNTIL`) ends after a fixed time and changes no
-- variable, so it is left out; energy estimates too.
pub record Radio : Type 0 where
  pub receive_on : Bool
  pub locked : ℕ
  pub lock_on : Bool
  pub lock_off : Bool
  pub channel : ℕ
  pub need_flush : Bool
  pub regs : ℕ → ℕ
  pub sent : List Command

pub data Request : Type 0 where
  turn_on turn_off : Request

pub strobe : Command → Radio → Radio
strobe c r = record r { sent = c ∷ r.sent }

pub on : Radio → Radio
on r = record r { receive_on = true; sent = Command.srxon ∷ Command.enable_fifop ∷ r.sent }

pub off : Radio → Radio
off r = record r { receive_on = false; sent = Command.disable_fifop ∷ Command.srfoff ∷ r.sent }

-- `locked` is a `uint8_t`.
pub get_lock : Radio → Radio
get_lock r = record r { locked = u8 (r.locked + 1) }

run_lock_on : Radio → Radio
unfolding on
run_lock_on r = if r.lock_on then record (on r) { lock_on = false } else r

run_lock_off : Radio → Radio
unfolding off
run_lock_off r = if r.lock_off then record (off r) { lock_off = false } else r

pub release_lock : Radio → Radio
unfolding run_lock_on run_lock_off
release_lock r =
    let r' = if r.locked == 1 then run_lock_off (run_lock_on r) else r in
    record r' { locked = u8 (r'.locked + 255) }

pub cc2420_off : Radio → Radio
unfolding get_lock release_lock off
cc2420_off r =
    if r.receive_on
    then (if to_bool r.locked
        then record r { lock_off = true }
        else release_lock (off (get_lock r)))
    else r

pub cc2420_on : Radio → Radio
unfolding get_lock release_lock on
cc2420_on r =
    if r.receive_on
    then r
    else if to_bool r.locked
    then record r { lock_on = true }
    else release_lock (on (get_lock r))

pub request : Request → Radio → Radio
unfolding cc2420_on cc2420_off
request Request.turn_on r = cc2420_on r
request Request.turn_off r = cc2420_off r

abbrev pub fsctrl : ℕ
fsctrl = 24

abbrev pub txctrl : ℕ
txctrl = 21

abbrev pub mdmctrl_0 : ℕ
mdmctrl_0 = 17

abbrev pub rssi_register : ℕ
rssi_register = 19

-- Registers have 16 bits.
abbrev pub getreg : Radio → ℕ → ℕ
getreg r k = r.regs k

abbrev pub setreg : ℕ → ℕ → Radio → Radio
setreg k v r = record r { regs = λ j. if k == j then u16 v else r.regs j }

-- The register that tunes the chip to a channel: `5 * (c - 11) + 357 + 0x4000`.
abbrev pub channel_word : ℕ → ℕ
channel_word c = u16 (5 * sub16 c 11 + 357 + 16384)

abbrev pub calibrate : Radio → Radio
calibrate r = if r.receive_on then record r { sent = Command.srxon ∷ r.sent } else r

pub cc2420_set_channel : ℕ → Radio → Radio × ℕ
unfolding get_lock release_lock
cc2420_set_channel c r =
    let r' = record (get_lock r) { channel = c } in
    (release_lock (calibrate (setreg fsctrl (channel_word c) r')), 1)

-- `(reg & 0xffe0) | (power & 0x1f)`
abbrev pub power_word : ℕ → ℕ → ℕ
power_word reg power = shr reg 5 * 32 + low_bits power 5

pub cc2420_set_txpower : ℕ → Radio → Radio
unfolding get_lock release_lock
cc2420_set_txpower power r =
    let r' = get_lock r in release_lock (setreg txctrl (power_word (getreg r' txctrl) power) r')

pub cc2420_get_txpower : Radio → Radio × ℕ
unfolding get_lock release_lock
cc2420_get_txpower r = let r' = get_lock r in (release_lock r', low_bits (getreg r' txctrl) 5)

-- `value << 8`, in 16 bits.
pub cc2420_set_cca_threshold : ℕ → Radio → Radio
unfolding get_lock release_lock
cc2420_set_cca_threshold value r =
    release_lock (setreg rssi_register (u16 (value * 256)) (get_lock r))

-- `reg` is a `uint8_t`: bit 4 is AUTOACK, and ADR_DECODE is bit 11.
pub cc2420_address_decode : Bool → Radio → Radio
cc2420_address_decode enable r =
    let reg = u8 (getreg r mdmctrl_0) in
    let reg' =
      u8 (if enable then set_bit (clear_bit reg 4) 11 else clear_bit (clear_bit reg 4) 11) in
    setreg mdmctrl_0 reg' r

-- Turning the radio on for a measurement, and off again.
wake : Radio → Radio
unfolding cc2420_on
wake r = if r.receive_on then r else cc2420_on r

rest : Bool → Radio → Radio
unfolding cc2420_off
rest radio_was_on r = if radio_was_on then r else cc2420_off r

-- `sample` is what the register RSSI holds when it is read.
pub cc2420_rssi : ℕ → Radio → Radio × ℤ
unfolding get_lock release_lock wake rest
cc2420_rssi sample r =
    let r' = wake (get_lock r) in
    if to_bool r.locked then (r, pos 0) else (release_lock (rest r.receive_on r'), signed8 sample)

-- `clear` is the pin CCA when it is read.
pub cc2420_cca : ℕ → Radio → Radio × ℕ
unfolding get_lock release_lock wake rest
cc2420_cca clear r =
    let r' = wake (get_lock r) in
    if to_bool r.locked
    then (r, 1)
    else if r'.receive_on
    then (release_lock (rest r.receive_on r'), clear)
    else (rest r.receive_on (release_lock r'), 1)

-- The pin SFD rises within LOOP_20_SYMBOLS samples.
abbrev pub sfd_rises : List Bool → Bool
sfd_rises [] = false
sfd_rises (sfd ∷ rest) = if sfd then true else sfd_rises rest

pub cc2420_transmit : List Bool → Radio → Radio × RadioTx
unfolding get_lock release_lock off strobe
cc2420_transmit sfd r =
    let r' = strobe Command.stxon (get_lock r) in
    if sfd_rises sfd
    then (release_lock (off r'), RadioTx.ok)
    else (release_lock r', RadioTx.collision)

pub cc2420_send_ack : Radio → Radio
unfolding on off strobe
cc2420_send_ack r = strobe Command.sflushtx (off (strobe Command.stxon (on r)))
