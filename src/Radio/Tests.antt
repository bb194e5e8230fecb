-- ===== src/Radio/Tests.antt =====
-- The theorems on the driver dev/cc2420-tsch.c at inputs where their hypotheses hold: a small chip,
-- an idle driver, and two frames that were kept.
use tsch_minimum.Prelude.{
  ℕ, ◌%◌, ◌/◌, ◌≡◌, refl, false, List, [], ◌∷◌, arith, map, length, some, if◌then◌else◌, ◌==◌,
}
use tsch_minimum.Radio.Interrupt.{Driver}
use tsch_minimum.Radio.Interrupt.Tests.{lib, driver, radio, radio-IsIdle}
use tsch_minimum.Radio.Spi.{write_reg, read_reg, write_ram, read_ram}
use tsch_minimum.Radio.Spi.Access.{written_read_back}
use tsch_minimum.Radio.Spi.Example.{Memory, chip, chip-IsChip, chip-is_stored, chip-is_stable}
use tsch_minimum.Radio.Setup.{wait_for_oscillator, cc2420_set_pan_addr, cc2420_init}
use tsch_minimum.Radio.Setup.Pan.{pan_addr_written}
use tsch_minimum.Radio.Setup.Start.{IsConfigured, init_configures}
use tsch_minimum.Radio.Poll.{AckRead, cc2420_read_ack}
use tsch_minimum.Radio.Poll.Order.{handed_on, polls, polls_in_order, read_ack_overruns}

abbrev blank : Memory
blank = record { reg = λ j. 0; ram = λ j. 0 }

written_read_back_example :
    ((read_reg chip 20 (write_reg chip 20 16741 blank)).1 ≡ 16741)
    × ((read_ram chip 300 3 (write_ram chip (7 ∷ 8 ∷ 9 ∷ []) 300 blank)).1 ≡ (7 ∷ 8 ∷ 9 ∷ []))
written_read_back_example =
    written_read_back chip chip-IsChip 20 16741 300 (7 ∷ 8 ∷ 9 ∷ []) blank chip-is_stored
      (omega arith) (omega arith) (omega arith) (chip-is_stable blank) (omega arith)

abbrev ieee : List ℕ
ieee = 0 ∷ 18 ∷ 116 ∷ 1 ∷ 0 ∷ 1 ∷ 1 ∷ 1 ∷ []

pan_addr_written_example :
    let s = (cc2420_set_pan_addr chip 3 0xabcd 0x0102 (some ieee) (radio, blank)).1 in
    ((read_ram chip 360 2 s).1 ≡ 0xabcd % 256 ∷ 0xabcd / 256 ∷ [])
    × ((read_ram chip 362 2 s).1 ≡ 0x0102 % 256 ∷ 0x0102 / 256 ∷ [])
    × ((read_ram chip 352 8 s).1 ≡ 1 ∷ 1 ∷ 1 ∷ 0 ∷ 1 ∷ 116 ∷ 18 ∷ 0 ∷ [])
pan_addr_written_example =
    pan_addr_written chip chip-IsChip 3 0xabcd 0x0102 0 18 116 1 0 1 1 1 radio blank (omega arith)
      (omega arith) (chip-is_stable (wait_for_oscillator chip 3 blank))

init_configures_example :
    IsConfigured chip 25 0xd3 radio (cc2420_init chip 3 25 0xd3 (radio, blank)).0
init_configures_example =
    init_configures chip 3 25 0xd3 radio blank radio-IsIdle (omega arith) (omega arith)
      (omega arith)

-- The blocks 0 and 1 hold a data frame and an acknowledgment.
abbrev filled : Driver lib
filled = record (driver 0) {
  frame_of = λ k. record {
    buf = (if k == 0 then 65 else 2) ∷ 0 ∷ 7 ∷ 1 ∷ [];
    len = 4;
    source_address = [];
  };
  rf_list = 0 ∷ 1 ∷ [];
}

polls_in_order_example :
    let (d, handed) = polls lib 128 0 2 filled in
    (handed ≡ map (λ k. handed_on 128 0 (filled.frame_of k)) (0 ∷ 1 ∷ [])) × (d.rf_list ≡ [])
polls_in_order_example =
    polls_in_order lib (record { pop_head = λ xs x. refl }) 128 0 (0 ∷ 1 ∷ []) filled refl

-- An acknowledgment with the timesync IE and its footer.
abbrev long_ack : AckRead
long_ack = record {
  length_byte = 9;
  fifo_bytes = 2 ∷ 34 ∷ 7 ∷ 2 ∷ 30 ∷ 5 ∷ 0 ∷ 0 ∷ 128 ∷ [];
  overflow = false;
  ram = λ adr. 128;
}

read_ack_overruns_example : length (cc2420_read_ack lib long_ack 7 filled).1 ≡ 9
read_ack_overruns_example =
    read_ack_overruns lib long_ack 7 filled (omega arith) (omega arith) refl refl
