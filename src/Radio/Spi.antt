-- ===== src/Radio/Spi.antt =====
-- The SPI macros of dev/cc2420-tsch.h: how the driver reads and writes the chip's registers, RAM and
-- FIFOs. The chip is not in the repository, so it is a parameter, and `IsChip` states what its data
-- sheet says of an access.
pub mod Access
pub mod Example
use tsch_minimum.Prelude.{
  ℕ, zero, suc, ◌+◌, ◌*◌, ◌/◌, ◌%◌, ◌≤◌, ◌<◌, ◌≡◌, Bool, true, ◌&&◌, List, [], ◌∷◌, ltb, leb, ◌-◌,
  if◌then◌else◌, get_or, drop, replicate, length,
}
use tsch_minimum.Prelude.Words.{u8, u16, low_bits, shr, set_bit}

-- `transfer` is one access, from CC2420_SPI_ENABLE to CC2420_SPI_DISABLE: the bytes that the driver
-- shifts out, and as many that the chip answers. The numbers are those of dev/cc2420_const.h.
pub record Chip : Type 1 where
  pub State : Type 0
  pub transfer : State → List ℕ → State × List ℕ
  pub snop : ℕ
  pub txfifo : ℕ
  pub rxfifo : ℕ
  pub ram_panid : ℕ
  pub ram_shortaddr : ℕ
  pub ram_ieeeaddr : ℕ
  -- The bit of the status byte that says that the crystal oscillator is stable.
  pub xosc16m_stable : ℕ

-- `n` bytes of RAM.
abbrev pub ram_bytes : (ℕ → ℕ) → ℕ → ℕ → List ℕ
ram_bytes m adr zero = []
ram_bytes m adr (suc n) = m adr ∷ ram_bytes m (suc adr) n

abbrev pub ram_size : ℕ
ram_size = 368

pub record IsChip (chip : Chip) : Type 0 where
  pub reg : chip.State → ℕ → ℕ
  pub ram : chip.State → ℕ → ℕ
  -- The registers all of whose bits are stored as they are written, as SYNCWORD; in others, as RSSI
  -- and FSCTRL, some fields are only read.
  pub is_stored : ℕ → Bool
  -- The crystal oscillator is stable.
  pub is_stable : chip.State → Bool
  -- A register is written by its address and its two bytes; the byte after them does nothing.
  pub reg_written :
      (s : chip.State) (adr hi lo : ℕ)
      → is_stored adr ≡ true
      → 16 ≤ adr
      → adr < 62
      → hi < 256
      → lo < 256
      → reg (chip.transfer s (adr ∷ hi ∷ lo ∷ 0 ∷ [])).0 adr ≡ hi * 256 + lo
  -- With bit 6 of the address it is read, behind the status byte.
  pub reg_read :
      (s : chip.State) (adr : ℕ)
      → 16 ≤ adr
      → adr < 62
      → (status : ℕ) × ((chip.transfer s ((adr + 64) ∷ 0 ∷ 0 ∷ [])).1
          ≡ (status ∷ (reg s adr / 256) ∷ (reg s adr % 256) ∷ []))
  -- A RAM access has bit 7 of the first byte, the low seven bits of the address in it and its two
  -- high bits at the top of the second byte, and bit 5 of the second byte where it only reads. A
  -- write needs the crystal oscillator, which it leaves stable.
  pub ram_written :
      (s : chip.State) (adr : ℕ) (bs : List ℕ) (j : ℕ)
      → is_stable s ≡ true
      → adr + length bs ≤ ram_size
      → ram (chip.transfer s ((128 + adr % 128) ∷ (adr / 128 * 64) ∷ bs)).0 j
        ≡ (if leb adr j && ltb j (adr + length bs) then get_or bs (j - adr) 0 else ram s j)
  pub stable_written :
      (s : chip.State) (adr : ℕ) (bs : List ℕ)
      → is_stable s ≡ true
      → is_stable (chip.transfer s ((128 + adr % 128) ∷ (adr / 128 * 64) ∷ bs)).0 ≡ true
  pub ram_read :
      (s : chip.State) (adr n : ℕ)
      → adr + n ≤ ram_size
      → (status₁ : ℕ) × (status₂ : ℕ) × ((chip.transfer s
            ((128 + adr % 128) ∷ (adr / 128 * 64 + 32) ∷ replicate n 0)).1
          ≡ (status₁ ∷ status₂ ∷ ram_bytes (ram s) adr n))
  -- Where the addresses of the radio lie.
  pub ieeeaddr_first : chip.ram_ieeeaddr + 8 ≤ chip.ram_panid
  pub panid_next : chip.ram_panid + 2 ≤ chip.ram_shortaddr
  pub shortaddr_last : chip.ram_shortaddr + 2 ≤ ram_size

-- `0x80 | (adr & 0x7f)` and `(adr >> 1) & 0xc0`
abbrev pub ram_first : ℕ → ℕ
ram_first adr = set_bit (low_bits adr 7) 7

abbrev pub ram_second : ℕ → ℕ
ram_second adr = shr (low_bits (shr adr 1) 8) 6 * 64

module _ (chip : Chip) where
  open chip use {State, transfer, snop, txfifo, rxfifo}

  unfoldable pub cc2420_strobe : ℕ → State → State
  cc2420_strobe command s = (transfer s (command ∷ [])).0

  unfoldable pub write_reg : ℕ → ℕ → State → State
  write_reg adr value s = (transfer s (adr ∷ u8 (shr value 8) ∷ low_bits value 8 ∷ 0 ∷ [])).0

  -- The first byte that is answered is read and then overwritten.
  unfoldable pub read_reg : ℕ → State → State × ℕ
  read_reg adr s =
      let (s', answer) = transfer s (set_bit adr 6 ∷ 0 ∷ 0 ∷ []) in
      (s', u16 (get_or answer 1 0 * 256) + get_or answer 2 0)

  unfoldable pub read_fifo_byte : State → State × ℕ
  read_fifo_byte s =
      let (s', answer) = transfer s (set_bit rxfifo 6 ∷ 0 ∷ []) in (s', get_or answer 1 0)

  unfoldable pub read_fifo_buf : ℕ → State → State × List ℕ
  read_fifo_buf count s =
      let (s', answer) = transfer s (set_bit rxfifo 6 ∷ replicate count 0) in (s', drop 1 answer)

  unfoldable pub write_fifo_buf : List ℕ → State → State
  write_fifo_buf bytes s = (transfer s (txfifo ∷ bytes)).0

  unfoldable pub write_ram : List ℕ → ℕ → State → State
  write_ram bytes adr s = (transfer s (ram_first adr ∷ ram_second adr ∷ bytes)).0

  unfoldable pub read_ram : ℕ → ℕ → State → State × List ℕ
  read_ram adr count s =
      let (s', answer) =
        transfer s (ram_first adr ∷ set_bit (ram_second adr) 5 ∷ replicate count 0) in
      (s', drop 2 answer)

  unfoldable pub read_ram_byte : ℕ → State → State × ℕ
  read_ram_byte adr s =
      let (s', answer) = transfer s (ram_first adr ∷ set_bit (ram_second adr) 5 ∷ 0 ∷ []) in
      (s', get_or answer 2 0)

  unfoldable pub get_status : State → State × ℕ
  get_status s = let (s', answer) = transfer s (snop ∷ []) in (s', get_or answer 0 0)
