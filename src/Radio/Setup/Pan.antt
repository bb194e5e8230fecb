-- ===== src/Radio/Setup/Pan.antt =====
-- The addresses that the driver dev/cc2420-tsch.c gives the chip are the ones in its RAM.
use tsch_minimum.Prelude.{
  ℕ, ◌+◌, ◌≤◌, ◌<◌, ◌≡◌, ◌%◌, ◌/◌, true, [], ◌∷◌, ◌∙◌, ◌⊎◌, inl, inr, some, List, arith, get_or,
  length,
}
use tsch_minimum.Radio.{Radio}
use tsch_minimum.Radio.Spi.{Chip, IsChip, ram_size, write_ram, read_ram}
use tsch_minimum.Radio.Spi.Access.{ram_bytes-get, ram_read_back, write_ram-ram, write_ram-is_stable}
use tsch_minimum.Radio.Setup.{reversed, two_bytes, wait_for_oscillator, cc2420_set_pan_addr}

module _ (chip : Chip) (laws : IsChip chip) where
  open chip use {ram_panid, ram_shortaddr, ram_ieeeaddr}

  -- A buffer in RAM that a write does not touch.
  kept :
      (bs cs : List ℕ) (a b : ℕ) (s : chip.State)
      → laws.is_stable s ≡ true
      → a + length bs ≤ ram_size
      → b + length cs ≤ ram_size
      → (b + length cs ≤ a) ⊎ (a + length bs ≤ b)
      → ((j : ℕ) → j < length cs → laws.ram s (b + j) ≡ get_or cs j 0)
      → (j : ℕ) → j < length cs
      → laws.ram (write_ram chip bs a s) (b + j) ≡ get_or cs j 0
  kept bs cs a b s stable fit fit' apart h j l =
      ground (arith, write_ram-ram chip laws bs a s (b + j) stable fit, h j l, apart)

  -- A buffer in RAM that was just written.
  written :
      (bs : List ℕ) (a : ℕ) (s : chip.State)
      → laws.is_stable s ≡ true
      → a + length bs ≤ ram_size
      → (j : ℕ) → j < length bs
      → laws.ram (write_ram chip bs a s) (a + j) ≡ get_or bs j 0
  written bs a s stable fit j l = ground (arith, write_ram-ram chip laws bs a s (a + j) stable fit)

  -- After `cc2420_set_pan_addr` with 16-bit numbers and an address of eight bytes, where its wait
  -- finds the crystal oscillator stable, the RAM has the PAN identifier and the short address with
  -- their low bytes first, and the address with its last byte first.
  pub pan_addr_written :
      (polls pan addr b₀ b₁ b₂ b₃ b₄ b₅ b₆ b₇ : ℕ) (r : Radio) (s : chip.State)
      → pan < 65536
      → addr < 65536
      → laws.is_stable (wait_for_oscillator chip polls s) ≡ true
      → let ieee = b₀ ∷ b₁ ∷ b₂ ∷ b₃ ∷ b₄ ∷ b₅ ∷ b₆ ∷ b₇ ∷ [] in
        let s' = (cc2420_set_pan_addr chip polls pan addr (some ieee) (r, s)).1 in
        ((read_ram chip ram_panid 2 s').1 ≡ pan % 256 ∷ pan / 256 ∷ [])
        × ((read_ram chip ram_shortaddr 2 s').1 ≡ addr % 256 ∷ addr / 256 ∷ [])
        × ((read_ram chip ram_ieeeaddr 8 s').1 ≡ b₇ ∷ b₆ ∷ b₅ ∷ b₄ ∷ b₃ ∷ b₂ ∷ b₁ ∷ b₀ ∷ [])
  unfolding cc2420_set_pan_addr
  pan_addr_written polls pan addr b₀ b₁ b₂ b₃ b₄ b₅ b₆ b₇ r s small small' stable =
      let ieee = b₀ ∷ b₁ ∷ b₂ ∷ b₃ ∷ b₄ ∷ b₅ ∷ b₆ ∷ b₇ ∷ [] in
      let s₀ = wait_for_oscillator chip polls s in
      let s₁ = write_ram chip (two_bytes pan) ram_panid s₀ in
      let s₂ = write_ram chip (two_bytes addr) ram_shortaddr s₁ in
      let s₃ = write_ram chip (reversed 8 ieee) ram_ieeeaddr s₂ in
      let f₁ = laws.ieeeaddr_first in
      let f₂ = laws.panid_next in
      let f₃ = laws.shortaddr_last in
      let stable₁ =
        write_ram-is_stable chip laws (two_bytes pan) ram_panid s₀ stable (omega arith) in
      let stable₂ =
        write_ram-is_stable chip laws (two_bytes addr) ram_shortaddr s₁ stable₁ (omega arith) in
      (
        ram_read_back chip laws ram_panid 2 s₃ (omega arith)
            ∙ ram_bytes-get (laws.ram s₃) ram_panid (two_bytes pan) (
                kept (reversed 8 ieee) (two_bytes pan) ram_ieeeaddr ram_panid s₂ stable₂
                  (omega arith) (omega arith) (inr (omega arith))
                  (kept (two_bytes addr) (two_bytes pan) ram_shortaddr ram_panid s₁ stable₁
                    (omega arith) (omega arith) (inl (omega arith))
                    (written (two_bytes pan) ram_panid s₀ stable (omega arith)))),
        ram_read_back chip laws ram_shortaddr 2 s₃ (omega arith)
            ∙ ram_bytes-get (laws.ram s₃) ram_shortaddr (two_bytes addr) (
                kept (reversed 8 ieee) (two_bytes addr) ram_ieeeaddr ram_shortaddr s₂ stable₂
                  (omega arith) (omega arith) (inr (omega arith))
                  (written (two_bytes addr) ram_shortaddr s₁ stable₁ (omega arith))),
        ram_read_back chip laws ram_ieeeaddr 8 s₃ (omega arith)
            ∙ ram_bytes-get (laws.ram s₃) ram_ieeeaddr (reversed 8 ieee)
                (written (reversed 8 ieee) ram_ieeeaddr s₂ stable₂ (omega arith)),
      )
