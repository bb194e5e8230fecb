-- ===== src/Radio/Spi/Access.antt =====
-- What is written to a register or to the RAM of the chip with the macros of dev/cc2420-tsch.h is
-- what is read back.
use tsch_minimum.Prelude.{
  ℕ, suc, ◌+◌, ◌*◌, ◌/◌, ◌%◌, ◌≤◌, ◌<◌, ◌≡◌, true, refl, ap, ap₂, ◌∙◌, List, [], ◌∷◌, arith,
  if◌then◌else◌, leb, ltb, ◌-◌, ◌&&◌, get_or, length,
}
use tsch_minimum.Prelude.Words.{u8, low_bits, shr, set_bit}
use tsch_minimum.Radio.Spi.{
  Chip, IsChip, ram_bytes, ram_size, write_reg, read_reg, ram_first, ram_second, write_ram,
  read_ram,
}

-- The bytes that address the RAM, without C's bit operations.
first-eq : (adr : ℕ) → ram_first adr ≡ 128 + adr % 128
first-eq adr = grind arith

second-eq : (adr : ℕ) → adr < 512 → ram_second adr ≡ adr / 128 * 64
second-eq adr h = omega arith

read-eq : (adr : ℕ) → adr < 512 → set_bit (ram_second adr) 5 ≡ adr / 128 * 64 + 32
read-eq adr h = grind arith

read_bit-eq : (adr : ℕ) → adr < 62 → set_bit adr 6 ≡ adr + 64
read_bit-eq adr h = grind arith

-- Bytes of RAM that agree with a buffer are the buffer.
pub ram_bytes-get :
    (m : ℕ → ℕ) (adr : ℕ) (bs : List ℕ)
    → ((j : ℕ) → j < length bs → m (adr + j) ≡ get_or bs j 0)
    → ram_bytes m adr (length bs) ≡ bs
ram_bytes-get m adr [] h = refl
ram_bytes-get m adr (b ∷ bs) h =
    ap₂ (λ x xs. x ∷ xs) (ap m (omega arith) ∙ h 0 (omega arith))
      (ram_bytes-get m (suc adr) bs (λ j l. ap m (omega arith) ∙ h (suc j) (omega arith)))

module _ (chip : Chip) (laws : IsChip chip) where
  write_reg-reg :
      (adr value : ℕ) (s : chip.State)
      → laws.is_stored adr ≡ true
      → 16 ≤ adr
      → adr < 62
      → value < 65536
      → laws.reg (write_reg chip adr value s) adr ≡ value
  unfolding write_reg
  write_reg-reg adr value s stored low high small =
      laws.reg_written s adr (u8 (shr value 8)) (low_bits value 8) stored low high (omega arith)
        (omega arith)
      ∙ omega arith

  -- A register that is written is read back: all 16 bits.
  register_round_trip :
      (adr value : ℕ) (s : chip.State)
      → laws.is_stored adr ≡ true
      → 16 ≤ adr
      → adr < 62
      → value < 65536
      → (read_reg chip adr (write_reg chip adr value s)).1 ≡ value
  unfolding read_reg
  register_round_trip adr value s stored low high small =
      let s' = write_reg chip adr value s in
      let (status, e) = laws.reg_read s' adr low high in
      rw (read_bit-eq adr high, e) (omega (arith, write_reg-reg adr value s stored low high small))

  -- What a buffer in RAM is after a write to another place.
  pub ram_read_back :
      (adr n : ℕ) (s : chip.State)
      → adr + n ≤ ram_size
      → (read_ram chip adr n s).1 ≡ ram_bytes (laws.ram s) adr n
  unfolding read_ram
  ram_read_back adr n s h =
      let (st₁, st₂, e) = laws.ram_read s adr n h in
      rw (first-eq adr, read-eq adr (omega arith), e) refl

  pub write_ram-ram :
      (bs : List ℕ) (adr : ℕ) (s : chip.State) (j : ℕ)
      → laws.is_stable s ≡ true
      → adr + length bs ≤ ram_size
      → laws.ram (write_ram chip bs adr s) j
        ≡ (if leb adr j && ltb j (adr + length bs) then get_or bs (j - adr) 0 else laws.ram s j)
  unfolding write_ram
  write_ram-ram bs adr s j stable h =
      ap₂ (λ x y. laws.ram (chip.transfer s (x ∷ y ∷ bs)).0 j) (first-eq adr)
        (second-eq adr (omega arith))
      ∙ laws.ram_written s adr bs j stable h

  -- A buffer that is written to the RAM is read back from it.
  ram_round_trip :
      (bs : List ℕ) (adr : ℕ) (s : chip.State)
      → laws.is_stable s ≡ true
      → adr + length bs ≤ ram_size
      → (read_ram chip adr (length bs) (write_ram chip bs adr s)).1 ≡ bs
  ram_round_trip bs adr s stable h =
      ram_read_back adr (length bs) (write_ram chip bs adr s) h
      ∙ ram_bytes-get (laws.ram (write_ram chip bs adr s)) adr bs
          (λ j l. ground (arith, write_ram-ram bs adr s (adr + j) stable h))

  pub write_ram-is_stable :
      (bs : List ℕ) (adr : ℕ) (s : chip.State)
      → laws.is_stable s ≡ true
      → adr + length bs ≤ ram_size
      → laws.is_stable (write_ram chip bs adr s) ≡ true
  unfolding write_ram
  write_ram-is_stable bs adr s stable h =
      ap₂ (λ x y. laws.is_stable (chip.transfer s (x ∷ y ∷ bs)).0) (first-eq adr)
        (second-eq adr (omega arith))
      ∙ laws.stable_written s adr bs stable

  -- What is written is read back: all 16 bits of a register of the chip that stores them (not one of
  -- its commands), and, where the crystal oscillator is stable, a buffer that fits in the RAM at its
  -- address.
  pub written_read_back :
      (adr value ram_adr : ℕ) (bs : List ℕ) (s : chip.State)
      → laws.is_stored adr ≡ true
      → 16 ≤ adr
      → adr < 62
      → value < 65536
      → laws.is_stable s ≡ true
      → ram_adr + length bs ≤ ram_size
      → ((read_reg chip adr (write_reg chip adr value s)).1 ≡ value)
        × ((read_ram chip ram_adr (length bs) (write_ram chip bs ram_adr s)).1 ≡ bs)
  written_read_back adr value ram_adr bs s stored low high small stable fits = (
    register_round_trip adr value s stored low high small,
    ram_round_trip bs ram_adr s stable fits,
  )
