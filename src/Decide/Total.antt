-- ===== src/Decide/Total.antt =====
-- A slot decision of tsch.c never reads through NULL, and it sends only what it found.
use tsch_minimum.Prelude.{
  ℕ, ◌≡◌, refl, true, false, ◌&&◌, not, Option, none, some, arith, ◌==◌, Bool-cases, inl, inr,
}
use tsch_minimum.Contiki.{Contiki, IsContiki}
use tsch_minimum.Params.{
  Cell, CellDecision, is_tx, is_shared, link_type_advertising, broadcast_cell_address,
}
use tsch_minimum.Neighbors.{
  Net, PacketRef, neighbor_queue_from_addr, read_packet_from_neighbor_queue,
}
use tsch_minimum.SharedTx.{Cursor, InTable, get_next_total}
use tsch_minimum.Decide.{
  Pick, Choice, is_cell_tx, is_none, pick_shared, pick_from, pick_packet, waited, check_backoff,
  decide_tx, finish, decide_packet, decide_cell,
}

-- A packet comes with the neighbor of the cell.
abbrev HasNeighbor : Pick → Type 0
HasNeighbor k = is_none k.p ≡ false → is_none k.n ≡ false

module _ (os : Contiki) (laws : IsContiki os) where
  pick_from_total :
      (s : Net os) (last : Cursor) (cell : Cell) (n : Option ℕ)
      → InTable os laws s last
      → (k : Pick) × (pick_from os s last cell n ≡ some k) × HasNeighbor k
  unfolding pick_from pick_shared
  pick_from_total s last cell none h = (_, refl, λ e. cc)
  pick_from_total s last cell (some i) h =
      let p = read_packet_from_neighbor_queue os s (some i) in
      let (r, e) = get_next_total os laws s last h in
      elim (Bool-cases
        (is_none p && os.rimeaddr_cmp cell.node_address broadcast_cell_address && is_shared cell)) [
          | inl other ↦
              (record { n = some i; p = r.0; last = r.1 }, rw other (ground (arith, e)), λ x. refl)
          | inr own ↦ (record { n = some i; p = p; last = last }, rw own, λ x. refl)
        ]

  pick_packet_total :
      (s : Net os) (last : Cursor) (cell : Cell)
      → InTable os laws s last
      → (k : Pick) × (pick_packet os s last cell ≡ some k) × HasNeighbor k
  unfolding pick_packet
  pick_packet_total s last cell h =
      elim (Bool-cases (is_tx cell && not (cell.link_type == link_type_advertising))) [
        | inl normal ↦
            rw normal
              (pick_from_total s last cell (neighbor_queue_from_addr os s cell.node_address) h)
        | inr other ↦ rw other (_, refl, λ e. cc)
      ]

  -- What a decision to send rests on: for a cell with LINK_OPTION_TX, a packet and the neighbor whose
  -- backoff counter, in a shared cell, was 0.
  abbrev pub MaySend : Net os → Cell → Choice os → Type 0
  MaySend s cell c =
      is_cell_tx c.decision ≡ true
      → (p : PacketRef) × (i : ℕ) × (c.pick.p ≡ some p)
        × (c.pick.n ≡ some i)
        × (is_shared cell ≡ true → (s.queue_of i).bw_value ≡ 0)

  -- The same of the step that decides.
  abbrev SendsOwn : Net os → Cell → Option ℕ → Option PacketRef → Net os × CellDecision → Type 0
  SendsOwn s cell n p r =
      is_cell_tx r.1 ≡ true
      → (q : PacketRef) × (i : ℕ) × (p ≡ some q)
        × (n ≡ some i)
        × (is_shared cell ≡ true → (s.queue_of i).bw_value ≡ 0)

  check_backoff_total :
      (s : Net os) (i : ℕ)
      → (r : Net os × CellDecision) × (check_backoff os s (some i) ≡ some r)
        × (is_cell_tx r.1 ≡ true → (s.queue_of i).bw_value ≡ 0)
  unfolding check_backoff
  check_backoff_total s i = elim (Bool-cases ((s.queue_of i).bw_value == 0)) [
    | inl free ↦ ((s, CellDecision.tx), rw free refl, λ e. ground arith)
    | inr waiting ↦ ((waited os s i, CellDecision.tx_backoff), rw waiting refl, λ e. cc)
  ]

  decide_tx_total :
      (s : Net os) (cell : Cell) (n : Option ℕ) (p : Option PacketRef)
      → (is_none p ≡ false → is_none n ≡ false)
      → (r : Net os × CellDecision) × (decide_tx os s n p cell ≡ some r) × SendsOwn s cell n p r
  unfolding decide_tx
  decide_tx_total s cell n none h = (_, refl, λ e. cc)
  decide_tx_total s cell none (some q) h = absurd (ground (arith, h refl))
  decide_tx_total s cell (some i) (some q) h = elim (Bool-cases (is_shared cell)) [
    | inl shared ↦
        let (r, e, free) = check_backoff_total s i in
        (r, rw (shared, e), λ x. (q, i, refl, refl, λ y. free x))
    | inr dedicated ↦ (
      (s, CellDecision.tx),
      rw dedicated refl,
      λ x. (q, i, refl, refl, λ y. absurd (ground arith)),
    )
  ]

  decide_packet_total :
      (s : Net os) (cell : Cell) (stale : CellDecision) (k : Pick)
      → is_tx cell ≡ true
      → HasNeighbor k
      → (c : Choice os) × (decide_packet os s cell stale k ≡ some c) × MaySend s cell c
  unfolding decide_packet
  decide_packet_total s cell stale k t h =
      let (r, e, own) = decide_tx_total s cell k.n k.p h in
      (finish os cell k r, ground (arith, e), λ x. own (sends r x))
    where
      sends :
          (r : Net os × CellDecision)
          → is_cell_tx (finish os cell k r).decision ≡ true
          → is_cell_tx r.1 ≡ true
      sends (s', CellDecision.tx) x = refl
      sends (s', d) x = ground arith

  -- In every cell that may send, with a cursor that is NULL or points into the table, the decision
  -- is made: the scan of the queues ends, and nothing is read through NULL. If it is to send, there
  -- is a packet and the cell's neighbor has an entry, whose backoff counter was 0 if the cell is
  -- shared.
  pub decide_cell_total :
      (s : Net os) (last : Cursor) (stale : CellDecision) (cell : Cell)
      → is_tx cell ≡ true
      → InTable os laws s last
      → (c : Choice os) × (decide_cell os s last stale cell ≡ some c) × MaySend s cell c
  unfolding decide_cell
  decide_cell_total s last stale cell t h =
      let (k, e, own) = pick_packet_total s last cell h in
      let (c, f, may) = decide_packet_total s cell stale k t own in (c, ground (arith, e, f), may)

-- A cell without LINK_OPTION_TX leaves the decision of the slot before: a cell that only receives,
-- after a slot that sent, is to send again, with no packet.
pub stale_tx :
    (os : Contiki) (s : Net os) (last : Cursor) (cell : Cell)
    → is_tx cell ≡ false
    → (c : Choice os) × (decide_cell os s last CellDecision.tx cell ≡ some c)
      × (c.decision ≡ CellDecision.tx)
      × (c.pick.p ≡ none)
unfolding decide_cell pick_packet decide_packet
stale_tx os s last cell r = (
  finish os cell (record { n = none; p = none; last = last }) (s, CellDecision.tx),
  ground arith,
  ground arith,
  refl,
)
