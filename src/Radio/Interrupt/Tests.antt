-- ===== src/Radio/Interrupt/Tests.antt =====
-- The theorems on the interrupt of dev/cc2420-tsch.c at inputs where their hypotheses hold: a pool
-- of two blocks, and frames of four bytes.
use tsch_minimum.Prelude.{
  ℕ, zero, suc, ◌≡◌, refl, ap, true, false, Option, none, some, List, [], ◌∷◌, ◌++◌, arith,
}
use tsch_minimum.Radio.{Radio}
use tsch_minimum.Radio.Lock.{IsIdle}
use tsch_minimum.Radio.Frame.{frame80254_parse_irq}
use tsch_minimum.Radio.Interrupt.{Library, Reception, Driver, LastRf, Exit, cc2420_interrupt}
use tsch_minimum.Radio.Interrupt.Drops.{IsUndone, IsDropped, interrupt_drops}
use tsch_minimum.Radio.Interrupt.Effects.{IsOff, interrupt-IsOff, no_memory}

abbrev pub alloc : ℕ → ℕ × Option ℕ
alloc zero = (0, none)
alloc (suc n) = (n, some n)

abbrev pub chop : List ℕ → List ℕ
chop [] = []
chop (x ∷ []) = []
chop (x ∷ y ∷ xs) = x ∷ chop (y ∷ xs)

abbrev pub pop : List ℕ → List ℕ × Option ℕ
pop [] = ([], none)
pop (x ∷ xs) = (xs, some x)

abbrev pub lib : Library
lib = record {
  Memb = ℕ;
  memb_alloc = alloc;
  memb_free = λ m k. suc m;
  list_add = λ xs x. xs ++ (x ∷ []);
  list_chop = chop;
  list_pop = pop;
  rimeaddr_null = 0 ∷ 0 ∷ [];
}

abbrev pub radio : Radio
radio = record {
  receive_on = true;
  locked = 0;
  lock_on = false;
  lock_off = false;
  channel = 26;
  need_flush = false;
  regs = λ k. 0;
  sent = [];
}

pub radio-IsIdle : IsIdle radio
radio-IsIdle = record { unlocked = refl; no_on = refl; no_off = refl }

abbrev pub driver : ℕ → Driver lib
driver blocks = record {
  radio = radio;
  memb = blocks;
  frame_of = λ k. record { buf = []; len = 0; source_address = [] };
  rf_list = [];
  rx_end_time = 0;
  last_packet_timestamp = 0;
  polls = 0;
  tx_fifo = [];
}

-- A data frame that asks for an acknowledgment.
abbrev reception : ℕ → Reception
reception footer = record {
  fifo = true;
  length_byte = 6;
  data_bytes = 33 ∷ 0 ∷ 7 ∷ 1 ∷ [];
  overflow = false;
  footer_1 = footer;
  sfd_start = 100;
  sfd_end = 110;
}

-- The driver and the arguments of the callback after a frame with a wrong CRC.
after : Driver lib × Exit
unfolding cc2420_interrupt
after = elim (cc2420_interrupt lib none (reception 0) (driver 2)) [
  | none ↦
      (driver 0, record { returned = 0; is_ack = 0; need_ack = 0; last_rf = LastRf.unassigned })
  | some r ↦ r
]

returns : cc2420_interrupt lib none (reception 0) (driver 2) ≡ some (after.0, after.1)
unfolding cc2420_interrupt after frame80254_parse_irq
returns = refl

interrupt-IsOff_example : IsOff lib after.0
interrupt-IsOff_example =
    interrupt-IsOff lib none (reception 0) (driver 2) after.0 after.1 radio-IsIdle returns

no_memory_example : cc2420_interrupt lib none (reception 128) (driver 0) ≡ none
no_memory_example =
    no_memory lib none (reception 128) (driver 0) radio-IsIdle refl refl (omega arith) (omega arith)
      refl refl refl

chop-add : (xs : List ℕ) (x : ℕ) → chop (xs ++ (x ∷ [])) ≡ xs
chop-add [] x = refl
chop-add (y ∷ []) x = refl
chop-add (y ∷ z ∷ xs) x = ap (λ l. y ∷ l) (chop-add (z ∷ xs) x)

free-alloc : (m k : ℕ) → (alloc m).1 ≡ some k → suc (alloc m).0 ≡ m
free-alloc zero k e = absurd (ground (arith, e))
free-alloc (suc m) k e = refl

lib-IsUndone : IsUndone lib
lib-IsUndone = record { chop_add = λ xs k e. chop-add xs k; free_alloc = free-alloc }

-- The same frame with a wrong CRC.
interrupt_drops_example :
    (t : Driver lib) × (e : Exit) × (cc2420_interrupt lib none (reception 0) (driver 2)
      ≡ some (t, e))
    × IsDropped lib (reception 0) 4 1 (driver 2) t e
interrupt_drops_example =
    interrupt_drops lib none (reception 0) 4 1 (driver 2) lib-IsUndone radio-IsIdle refl
      (record {
        in_fifo = refl;
        length_read = refl;
        at_least = omega arith;
        at_most = omega arith;
        all_bytes = omega arith;
        not_valid = refl;
      })
      (omega arith) refl refl
