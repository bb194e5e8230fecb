-- ===== src/Send/Seqno.antt =====
-- The sequence numbers that tsch.c gives to frames.
use tsch_minimum.Prelude.{ℕ, zero, suc, ◌+◌, ◌%◌, ◌≡◌, ◌≢◌, ◌<◌, ◌∙◌, arith}
use tsch_minimum.Send.{next_seqno}

-- The sequence number of the last of `n` frames.
pub seqno_after : ℕ → ℕ → ℕ
unfolding next_seqno
seqno_after zero dsn = dsn
seqno_after (suc n) dsn = next_seqno (seqno_after n dsn)

next_seqno_lem : (d : ℕ) → d < 256 → next_seqno d ≡ d % 255 + 1
unfolding next_seqno
next_seqno_lem d h = ground arith

-- From the number 0 that `init` sets, the frames are numbered 1, 2, … 255, and then from 1 again: 0
-- is never used.
pub seqno_after_lem : (n : ℕ) → seqno_after (suc n) 0 ≡ n % 255 + 1
unfolding seqno_after
seqno_after_lem zero = next_seqno_lem 0 (omega arith) ∙ omega arith
seqno_after_lem (suc n) =
    next_seqno_lem (seqno_after (suc n) 0) (omega (arith, seqno_after_lem n))
    ∙ omega (arith, seqno_after_lem n)

-- Of the frames numbered since the start, none has the number 0, and two that are fewer than 255
-- frames apart have different numbers.
pub seqno_distinct :
    (m k : ℕ)
    → 0 < k
    → k < 255
    → (seqno_after (suc m) 0 ≢ 0) × (seqno_after (suc m) 0 ≢ seqno_after (suc (m + k)) 0)
seqno_distinct m k h l = (
  λ e. omega (arith, seqno_after_lem m, e),
  λ e. omega (arith, seqno_after_lem m, seqno_after_lem (m + k), e),
)
