-- ===== src/Decide/Picks.antt =====
-- The packet that a slot of tsch.c decides to send: where it waits, and what the decision leaves.
use tsch_minimum.Prelude.{
  ℕ, ◌≡◌, refl, false, ◌&&◌, not, Option, none, some, arith, ◌==◌, Option-cases, inl, inr,
  if◌then◌else◌, branch,
}
use tsch_minimum.Contiki.{Contiki, IsContiki, Addr}
use tsch_minimum.Params.{
  Cell, CellDecision, is_tx, is_shared, link_type_advertising, broadcast_cell_address,
}
use tsch_minimum.Neighbors.{
  Net, PacketRef, neighbor_queue_from_addr, read_packet_from_neighbor_queue,
}
use tsch_minimum.Neighbors.Same.{SameNet, SameNet-refl, SameNet-set_queue}
use tsch_minimum.SharedTx.{Cursor, InTable, get_next_packet_for_shared_slot_tx}
use tsch_minimum.SharedTx.Finds.{IsFirst, found-IsFirst, next-Walked}
use tsch_minimum.Decide.{
  Pick, Choice, is_none, pick_shared, pick_from, pick_packet, check_backoff, decide_tx, finish,
  decide_packet, decide_cell,
}

module _ (os : Contiki) (laws : IsContiki os) (s : Net os) where
  -- A pick takes a first packet, with a neighbor, and leaves the cursor in the table.
  abbrev pub IsPicked : Option Pick → Type 0
  IsPicked none = Unit
  IsPicked (some k) =
      IsFirst os laws s k.p × (is_none k.p ≡ false → is_none k.n ≡ false) × InTable os laws s k.last

  shared-IsPicked :
      (last : Cursor) (i : ℕ) → InTable os laws s last → IsPicked (pick_shared os s last i)
  unfolding pick_shared
  shared-IsPicked last i h = elim (Option-cases (get_next_packet_for_shared_slot_tx os s last)) [
    | inl out ↦ rw (out, pick_shared) tt
    | inr (r, e) ↦
        let w = next-Walked os laws s last r h e in rw (e, pick_shared) (w.0, λ x. refl, w.1)
  ]

  from-IsPicked :
      (last : Cursor) (cell : Cell) (n : Option ℕ) (a : Addr)
      → neighbor_queue_from_addr os s a ≡ n
      → InTable os laws s last
      → IsPicked (pick_from os s last cell n)
  unfolding pick_from
  from-IsPicked last cell none a e h = (tt, λ x. absurd (ground (arith, x)), h)
  from-IsPicked last cell (some i) a e h =
      let p = read_packet_from_neighbor_queue os s (some i) in
      branch IsPicked
        (is_none p && os.rimeaddr_cmp cell.node_address broadcast_cell_address && is_shared cell)
        (shared-IsPicked last i h) (found-IsFirst os laws s a i e, λ x. refl, h)

  packet-IsPicked :
      (last : Cursor) (cell : Cell) → InTable os laws s last → IsPicked (pick_packet os s last cell)
  unfolding pick_packet
  packet-IsPicked last cell h =
      branch IsPicked (is_tx cell && not (cell.link_type == link_type_advertising))
        (from-IsPicked last cell _ cell.node_address refl h)
        (tt, λ x. absurd (ground (arith, x)), h)

  -- A decision changes backoff counters at most, and leaves the cursor in the table; if it is to
  -- send a packet, that is a first one, and it has a neighbor.
  abbrev pub IsChosen : Option (Choice os) → Type 0
  IsChosen none = Unit
  IsChosen (some c) =
      SameNet os c.net s
      × IsFirst os laws s c.pick.p
      × (is_none c.pick.p ≡ false → is_none c.pick.n ≡ false)
      × InTable os laws s c.pick.last

  abbrev Same : Option (Net os × CellDecision) → Type 0
  Same none = Unit
  Same (some r) = SameNet os r.0 s

  backoff-Same : (n : Option ℕ) → Same (check_backoff os s n)
  unfolding check_backoff
  backoff-Same none = tt
  backoff-Same (some i) =
      branch Same ((s.queue_of i).bw_value == 0) (SameNet-refl os s) (
        SameNet-set_queue os s i _
          (record { same_buffer = refl; same_put = refl; same_get = refl }))

  decide_tx-Same :
      (n : Option ℕ) (p : Option PacketRef) (cell : Cell) → Same (decide_tx os s n p cell)
  unfolding decide_tx
  decide_tx-Same n none cell = SameNet-refl os s
  decide_tx-Same n (some p) cell = branch Same (is_shared cell) (backoff-Same n) (SameNet-refl os s)

  finish-IsChosen :
      (cell : Cell) (k : Pick) (o : Option (Net os × CellDecision))
      → Same o
      → IsPicked (some k)
      → IsChosen (elim o [ none ↦ none | some r ↦ some (finish os cell k r) ])
  finish-IsChosen cell k none h p = tt
  finish-IsChosen cell k (some r) h p = (h, p.0, p.1, p.2)

  packet-IsChosen :
      (cell : Cell) (stale : CellDecision) (o : Option Pick)
      → IsPicked o
      → IsChosen (elim o [ none ↦ none | some k ↦ decide_packet os s cell stale k ])
  unfolding decide_packet
  packet-IsChosen cell stale none h = tt
  packet-IsChosen cell stale (some k) h =
      finish-IsChosen cell k (if is_tx cell then decide_tx os s k.n k.p cell else some (s, stale))
        (branch Same (is_tx cell) (decide_tx-Same k.n k.p cell) (SameNet-refl os s)) h

  pub decide_cell-IsChosen :
      (last : Cursor) (stale : CellDecision) (cell : Cell)
      → InTable os laws s last
      → IsChosen (decide_cell os s last stale cell)
  unfolding decide_cell
  decide_cell-IsChosen last stale cell h =
      packet-IsChosen cell stale (pick_packet os s last cell) (packet-IsPicked last cell h)
