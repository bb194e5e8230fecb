-- ===== src/Params.antt =====
-- tsch-parameters.h, and the schedule that tsch.c declares: durations, link options, cells,
-- slotframes and the MAC's variables.
use tsch_minimum.Prelude.{ℕ, ◌*◌, ◌≤◌, ◌<◌, Bool, List, [], ◌∷◌}
use tsch_minimum.Prelude.Words.{has_bit}
use tsch_minimum.Contiki.{Addr}

-- `enum ieee154e_atomicdurations_enum`, in ticks of 1/32768 s.
abbrev pub ts_slot_duration : ℕ
ts_slot_duration = 164 * 3

abbrev pub ts_tx_offset : ℕ
ts_tx_offset = 131

abbrev pub ts_long_gt : ℕ
ts_long_gt = 43

abbrev pub ts_tx_ack_delay : ℕ
ts_tx_ack_delay = 131

abbrev pub ts_short_gt : ℕ
ts_short_gt = 16

abbrev pub delay_tx : ℕ
delay_tx = 11

abbrev pub delay_rx : ℕ
delay_rx = 9

abbrev pub wd_data_duration : ℕ
wd_data_duration = 148

abbrev pub wd_ack_duration : ℕ
wd_ack_duration = 25

-- `enum ieee154e_states_enum`
abbrev pub tsch_off : ℕ
tsch_off = 0

abbrev pub tsch_associated : ℕ
tsch_associated = 1

-- `enum cell_decision_enum`
pub data CellDecision : Type 0 where
  off tx tx_idle tx_backoff rx : CellDecision

-- `cell_t`. The address is the one that `node_address` points to.
pub record Cell : Type 0 where
  pub link_handle : ℕ
  pub channel_offset : ℕ
  pub link_options : ℕ
  pub link_type : ℕ
  pub node_address : Addr

abbrev pub link_type_normal : ℕ
link_type_normal = 0

abbrev pub link_type_advertising : ℕ
link_type_advertising = 1

-- The tests of LINK_OPTION_TX, _RX, _SHARED and _TIME_KEEPING, which are 1, 2, 4 and 8.
abbrev pub is_tx : Cell → Bool
is_tx c = has_bit c.link_options 0

abbrev pub is_rx : Cell → Bool
is_rx c = has_bit c.link_options 1

abbrev pub is_shared : Cell → Bool
is_shared c = has_bit c.link_options 2

abbrev pub is_time_keeping : Cell → Bool
is_time_keeping c = has_bit c.link_options 3

-- `slotframe_t`
pub record Slotframe : Type 0 where
  pub slotframe_handle : ℕ
  pub length : ℕ
  pub on_size : ℕ
  pub cells : List Cell

-- `ieee154e_vars_t`
pub record Vars : Type 0 where
  pub asn : ℕ
  pub state : ℕ
  pub dsn : ℕ
  pub captured_time : ℕ
  pub sync_timeout : ℕ
  pub is_sync : ℕ
  pub mac_ebsn : ℕ
  pub join_priority : ℕ

abbrev pub broadcast_cell_address : Addr
broadcast_cell_address = 0 ∷ 0 ∷ 0 ∷ 0 ∷ 0 ∷ 0 ∷ 0 ∷ 0 ∷ []

abbrev pub cell_address : ℕ → Addr
cell_address k = 0x00 ∷ 0x12 ∷ 0x74 ∷ k ∷ 0 ∷ k ∷ k ∷ k ∷ []

-- TX, RX and SHARED are 1 + 2 + 4.
abbrev pub generic_shared_cell : Cell
generic_shared_cell = record {
  link_handle = 0xffff;
  channel_offset = 0;
  link_options = 7;
  link_type = link_type_normal;
  node_address = broadcast_cell_address;
}

abbrev pub generic_eb_cell : Cell
generic_eb_cell = record {
  link_handle = 0;
  channel_offset = 0;
  link_options = 1;
  link_type = link_type_advertising;
  node_address = broadcast_cell_address;
}

-- `cell_to_1`, `cell_to_2`, `cell_to_3` and `cell_3_to_2`
abbrev pub cell_to : ℕ → ℕ → ℕ → Cell
cell_to handle options k = record {
  link_handle = handle;
  channel_offset = 0;
  link_options = options;
  link_type = link_type_normal;
  node_address = cell_address k;
}

abbrev pub minimum_cells : List Cell
minimum_cells =
    generic_eb_cell ∷ generic_shared_cell ∷ generic_shared_cell ∷ generic_shared_cell
    ∷ generic_shared_cell ∷ generic_shared_cell ∷ []

abbrev pub links_list : List Cell
links_list =
    generic_eb_cell
    ∷ generic_shared_cell
    ∷ cell_to 1 15 1
    ∷ cell_to 2 7 2
    ∷ cell_to 3 7 3
    ∷ cell_to 4 7 2
    ∷ []

abbrev pub minimum_slotframe : Slotframe
minimum_slotframe = record {
  slotframe_handle = 0;
  length = 101;
  on_size = 6;
  cells = minimum_cells;
}

-- A slotframe that can be run: some of its slots are on, those are its first ones, and their
-- numbers fit the 16 bits of `timeslot`.
pub record IsSlotframe (f : Slotframe) : Type 0 where
  pub some_on : 1 ≤ f.on_size
  pub on_first : f.on_size ≤ f.length
  pub fits : f.length < 65536
