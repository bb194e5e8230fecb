-- ===== src/Radio/Interrupt/Refill.antt =====
-- A frame that the driver dev/cc2420-tsch.c reads in two parts, into a buffer that held another.
use tsch_minimum.Prelude.{
  ℕ, zero, suc, ◌≡◌, ◌≤◌, ◌<◌, refl, ap, List, [], ◌∷◌, ◌++◌, ltb, if◌then◌else◌, inl, inr,
  Bool-cases, arith, length, take, drop, min,
}
use tsch_minimum.Radio.Frame.{ack_len, byte, frame80254_parse_irq}
use tsch_minimum.Radio.Interrupt.{fill, fifop_threshold}

abbrev no_bytes : List ℕ
no_bytes = []

drop_empty : (n : ℕ) → drop n no_bytes ≡ no_bytes
drop_empty zero = refl
drop_empty (suc n) = refl

drop-take : (m n : ℕ) (xs : List ℕ) → m ≤ n → drop n (take m xs ++ []) ≡ no_bytes
drop-take zero n xs h = drop_empty n
drop-take (suc m) n [] h = drop_empty n
drop-take (suc m) zero (x ∷ xs) h = absurd (omega arith)
drop-take (suc m) (suc n) (x ∷ xs) h = drop-take m n xs (omega arith)

-- What is read over a buffer a second time, from its start and no shorter.
drop-fill :
    (m n : ℕ) (old bytes : List ℕ)
    → m ≤ n
    → m ≤ length bytes
    → drop n (fill old bytes m) ≡ drop n old
drop-fill zero n old bytes h k = refl
drop-fill (suc m) n old [] h k = absurd (omega arith)
drop-fill (suc m) zero old (x ∷ xs) h k = absurd (omega arith)
drop-fill (suc m) (suc n) [] (x ∷ xs) h k = drop-take m n xs (omega arith)
drop-fill (suc m) (suc n) (y ∷ ys) (x ∷ xs) h k = drop-fill m n ys xs (omega arith) (omega arith)

pub byte-fill :
    (m : ℕ) (old bytes : List ℕ)
    → 0 < m
    → m ≤ length bytes
    → byte (fill old bytes m) 0 ≡ byte bytes 0
byte-fill zero old bytes h k = absurd (omega arith)
byte-fill (suc m) old [] h k = absurd (omega arith)
byte-fill (suc m) old (x ∷ xs) h k = refl

ltb-min : (len : ℕ) → ltb (min len fifop_threshold) ack_len ≡ ltb len ack_len
ltb-min len = ground arith

-- The rest of the frame, if there is one, read over its first part.
pub fill-fill :
    (len : ℕ) (old bytes : List ℕ)
    → len ≤ length bytes
    → (if ltb fifop_threshold len
        then fill (fill old bytes (min len fifop_threshold)) bytes len
        else fill old bytes (min len fifop_threshold))
      ≡ fill old bytes len
fill-fill len old bytes h = elim (Bool-cases (ltb fifop_threshold len)) [
  | inl long ↦ rw long (
      ap (λ t. take len bytes ++ t)
        (drop-fill (min len fifop_threshold) len old bytes (omega arith) (omega arith)))
  | inr short ↦ rw short (ap (λ n. fill old bytes n) (ground arith))
]

-- The flags of a frame are those of its first byte.
pub flags_of :
    (old bytes : List ℕ) (len : ℕ)
    → 1 ≤ len
    → len ≤ length bytes
    → frame80254_parse_irq (fill old bytes (min len fifop_threshold)) (min len fifop_threshold)
      ≡ frame80254_parse_irq bytes len
unfolding frame80254_parse_irq
flags_of old bytes len h k =
    rw (byte-fill (min len fifop_threshold) old bytes (omega arith) (omega arith), ltb-min len) refl
