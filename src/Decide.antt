-- ===== src/Decide.antt =====
-- What powercycle of tsch.c decides to do in a slot: which packet it would send, and whether it
-- sends, listens or stays off.
pub mod Total
pub mod Inv
pub mod Picks
pub mod Countdown
use tsch_minimum.Prelude.{
  ℕ, ◌-◌, Bool, true, false, ◌&&◌, ◌||◌, not, Option, none, some, ◌==◌, if◌then◌else◌,
}
use tsch_minimum.Contiki.{Contiki, Addr}
use tsch_minimum.Params.{
  Cell, CellDecision, is_tx, is_rx, is_shared, link_type_advertising, broadcast_cell_address,
}
use tsch_minimum.Queue.{NeighborQueue}
use tsch_minimum.Neighbors.{
  Net, PacketRef, set_queue, neighbor_queue_from_addr, read_packet_from_neighbor_queue,
}
use tsch_minimum.SharedTx.{Cursor, get_next_packet_for_shared_slot_tx}

-- The variables `n`, `p` and `last_neighbor_tx` after a packet was looked for.
pub record Pick : Type 0 where
  pub n : Option ℕ
  pub p : Option PacketRef
  pub last : Cursor

-- The same with the decision, and the queues.
pub record Choice (os : Contiki) : Type 0 where
  pub net : Net os
  pub pick : Pick
  pub decision : CellDecision

abbrev pub is_cell_tx : CellDecision → Bool
is_cell_tx CellDecision.tx = true
is_cell_tx _ = false

abbrev pub is_none {ℓ} : {A : Type ℓ} → Option A → Bool
is_none none = true
is_none (some a) = false

module _ (os : Contiki) where
  open os use {rimeaddr_cmp}

  -- In a shared broadcast slot with no broadcast packet, any unicast packet will do.
  pub pick_shared : Net os → Cursor → ℕ → Option Pick
  pick_shared s last i = elim (get_next_packet_for_shared_slot_tx os s last) [
    | none ↦ none
    | some (p, last') ↦ some (record { n = some i; p = p; last = last' })
  ]

  pub pick_from : Net os → Cursor → Cell → Option ℕ → Option Pick
  pick_from s last cell none = some (record { n = none; p = none; last = last })
  pick_from s last cell (some i) =
      let p = read_packet_from_neighbor_queue os s (some i) in
      if is_none p && rimeaddr_cmp cell.node_address broadcast_cell_address && is_shared cell
      then pick_shared s last i
      else some (record { n = some i; p = p; last = last })

  -- `none` stands for fuel that ran out in the scan of the queues.
  pub pick_packet : Net os → Cursor → Cell → Option Pick
  pick_packet s last cell =
      if is_tx cell && not (cell.link_type == link_type_advertising)
      then pick_from s last cell (neighbor_queue_from_addr os s cell.node_address)
      else some (record { n = none; p = none; last = last })

  abbrev pub waited : Net os → ℕ → Net os
  waited s i = let q = s.queue_of i in set_queue os s i (record q { bw_value = q.bw_value - 1 })

  -- `n->BW_value` is read only where the link is shared; `none` stands for a read through NULL.
  pub check_backoff : Net os → Option ℕ → Option (Net os × CellDecision)
  check_backoff s none = none
  check_backoff s (some i) =
      if (s.queue_of i).bw_value == 0
      then some (s, CellDecision.tx)
      else some (waited s i, CellDecision.tx_backoff)

  pub decide_tx : Net os → Option ℕ → Option PacketRef → Cell → Option (Net os × CellDecision)
  decide_tx s n none cell = some (s, CellDecision.tx_idle)
  decide_tx s n (some p) cell =
      if is_shared cell then check_backoff s n else some (s, CellDecision.tx)

  -- `cell_decison` is a static variable: without LINK_OPTION_TX it still has the last slot's value.
  abbrev pub finish : Cell → Pick → Net os × CellDecision → Choice os
  finish cell k (s, d) = record {
    net = s;
    pick = k;
    decision = if is_rx cell && not (is_cell_tx d) then CellDecision.rx else d;
  }

  pub decide_packet : Net os → Cell → CellDecision → Pick → Option (Choice os)
  decide_packet s cell stale k =
      let tx = decide_tx s k.n k.p cell in
      elim (if is_tx cell then tx else some (s, stale)) [
        | none ↦ none
        | some r ↦ some (finish cell k r)
      ]

  pub decide_cell : Net os → Cursor → CellDecision → Cell → Option (Choice os)
  decide_cell s last stale cell = elim (pick_packet s last cell) [
    | none ↦ none
    | some k ↦ decide_packet s cell stale k
  ]
