-- ===== src/Radio/Spi/Example.antt =====
-- A small chip that does what the model asks of the CC2420 of dev/cc2420-tsch.c: registers and RAM
-- as functions of their addresses.
use tsch_minimum.Prelude.{
  ℕ, ◌+◌, ◌-◌, ◌*◌, ◌/◌, ◌%◌, ◌≤◌, ◌<◌, ◌≡◌, refl, true, Bool, ◌&&◌, ltb, leb, ◌==◌, if◌then◌else◌,
  List, [], ◌∷◌, arith, length, replicate, length-replicate, get_or,
}
use tsch_minimum.Radio.Spi.{Chip, IsChip, ram_bytes}

pub record Memory : Type 0 where
  pub reg : ℕ → ℕ
  pub ram : ℕ → ℕ

reg_access : Memory → ℕ → List ℕ → Memory × List ℕ
reg_access s a [] = (s, 0 ∷ [])
reg_access s a (hi ∷ bs) =
    let v = hi * 256 + get_or bs 0 0 in
    if ltb a 64
    then (record s { reg = λ j. if a == j then v else s.reg j }, 0 ∷ 0 ∷ 0 ∷ 0 ∷ [])
    else (s, 0 ∷ (s.reg (a - 64) / 256) ∷ (s.reg (a - 64) % 256) ∷ [])

ram_access : Memory → ℕ → List ℕ → Memory × List ℕ
ram_access s a [] = (s, 0 ∷ [])
ram_access s a (b ∷ bs) =
    let adr = a - 128 + b / 64 * 128 in
    let here : ℕ → Bool = λ j. leb adr j && ltb j (adr + length bs) in
    if ltb (b % 64) 32
    then (record s { ram = λ j. if here j then get_or bs (j - adr) 0 else s.ram j }, [])
    else (s, 0 ∷ 0 ∷ ram_bytes s.ram adr (length bs))

pub transfer : Memory → List ℕ → Memory × List ℕ
unfolding reg_access ram_access
transfer s [] = (s, [])
transfer s (a ∷ bs) = if ltb a 128 then reg_access s a bs else ram_access s a bs

abbrev pub chip : Chip
chip = record {
  State = Memory;
  transfer = transfer;
  snop = 0;
  txfifo = 62;
  rxfifo = 63;
  ram_panid = 360;
  ram_shortaddr = 362;
  ram_ieeeaddr = 352;
  xosc16m_stable = 6;
}

ram_address : (adr : ℕ) → 128 + adr % 128 - 128 + adr / 128 * 64 / 64 * 128 ≡ adr
ram_address adr = omega arith

ram_address_read : (adr : ℕ) → 128 + adr % 128 - 128 + (adr / 128 * 64 + 32) / 64 * 128 ≡ adr
ram_address_read adr = omega arith

chip-reg_written :
    (s : Memory) (adr hi lo : ℕ)
    → adr < 62
    → (transfer s (adr ∷ hi ∷ lo ∷ 0 ∷ [])).0.reg adr ≡ hi * 256 + lo
unfolding transfer reg_access
chip-reg_written s adr hi lo h = ground (arith, h)

chip-reg_read :
    (s : Memory) (adr : ℕ)
    → 16 ≤ adr
    → adr < 62
    → (transfer s ((adr + 64) ∷ 0 ∷ 0 ∷ [])).1 ≡ 0 ∷ (s.reg adr / 256) ∷ (s.reg adr % 256) ∷ []
unfolding transfer reg_access
chip-reg_read s adr l h = ground (arith, l, h)

chip-ram_written :
    (s : Memory) (adr : ℕ) (bs : List ℕ) (j : ℕ)
    → (transfer s ((128 + adr % 128) ∷ (adr / 128 * 64) ∷ bs)).0.ram j
      ≡ (if leb adr j && ltb j (adr + length bs) then get_or bs (j - adr) 0 else s.ram j)
unfolding transfer ram_access
chip-ram_written s adr bs j = ground (arith, ram_address adr)

chip-ram_read :
    (s : Memory) (adr n : ℕ)
    → (transfer s ((128 + adr % 128) ∷ (adr / 128 * 64 + 32) ∷ replicate n 0)).1
      ≡ 0 ∷ 0 ∷ ram_bytes s.ram adr n
unfolding transfer ram_access
chip-ram_read s adr n = rw (ram_address_read adr, length-replicate {A = ℕ} n 0) (ground arith)

pub chip-IsChip : IsChip chip
chip-IsChip = record {
  reg = λ s. s.reg;
  ram = λ s. s.ram;
  is_stored = λ adr. adr == 20;
  is_stable = λ s. true;
  reg_written = λ s adr hi lo stored low high a b. chip-reg_written s adr hi lo high;
  reg_read = λ s adr low high. (0, chip-reg_read s adr low high);
  stable_written = λ s adr bs h. refl;
  ram_written = λ s adr bs j stable fits. chip-ram_written s adr bs j;
  ram_read = λ s adr n fits. (0, 0, chip-ram_read s adr n);
  ieeeaddr_first = omega arith;
  panid_next = omega arith;
  shortaddr_last = omega arith;
}

pub chip-is_stored : chip-IsChip.is_stored 20 ≡ true
unfolding chip-IsChip
chip-is_stored = refl

pub chip-is_stable : (s : Memory) → chip-IsChip.is_stable s ≡ true
unfolding chip-IsChip
chip-is_stable s = refl
