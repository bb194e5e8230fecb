-- ===== src/Decide/Inv.antt =====
-- The validity of the neighbor queues through the decision of powercycle of tsch.c, which writes
-- backoff counters.
use tsch_minimum.Prelude.{branch, ℕ, Option, none, some, arith, ◌==◌, if◌then◌else◌}
use tsch_minimum.Contiki.{Contiki}
use tsch_minimum.Params.{Cell, CellDecision, is_tx, is_shared}
use tsch_minimum.Neighbors.{Net, PacketRef}
use tsch_minimum.Neighbors.Inv.{IsSound, map_queue-IsSound}
use tsch_minimum.SharedTx.{Cursor}
use tsch_minimum.Decide.{
  Choice, Pick, check_backoff, waited, decide_tx, decide_packet, decide_cell, pick_packet, finish,
}

module _ (os : Contiki) where
  waited-IsSound : (s : Net os) (i : ℕ) → IsSound os s → IsSound os (waited os s i)
  waited-IsSound s i h = map_queue-IsSound os s i _ (h.shaped i) (λ v. omega (arith, v)) h

  -- The queues of a decision, or of what the protothread gives, where there is one.
  abbrev Chosen : Option (Net os × CellDecision) → Type 0
  Chosen none = Unit
  Chosen (some c) = IsSound os c.0

  abbrev pub Decided : Option (Choice os) → Type 0
  Decided none = Unit
  Decided (some c) = IsSound os c.net

  check_backoff-Chosen : (s : Net os) (n : Option ℕ) → IsSound os s → Chosen (check_backoff os s n)
  unfolding check_backoff
  check_backoff-Chosen s none h = tt
  check_backoff-Chosen s (some i) h =
      branch Chosen ((s.queue_of i).bw_value == 0) h (waited-IsSound s i h)

  decide_tx-Chosen :
      (s : Net os) (n : Option ℕ) (p : Option PacketRef) (cell : Cell)
      → IsSound os s
      → Chosen (decide_tx os s n p cell)
  unfolding decide_tx
  decide_tx-Chosen s n none cell h = h
  decide_tx-Chosen s n (some p) cell h =
      branch Chosen (is_shared cell) (check_backoff-Chosen s n h) h

  Chosen-Decided :
      (cell : Cell) (k : Pick) (o : Option (Net os × CellDecision))
      → Chosen o
      → Decided (elim o [ none ↦ none | some r ↦ some (finish os cell k r) ])
  Chosen-Decided cell k none h = tt
  Chosen-Decided cell k (some r) h = h

  decide_packet-Decided :
      (s : Net os) (cell : Cell) (stale : CellDecision) (k : Pick)
      → IsSound os s
      → Decided (decide_packet os s cell stale k)
  unfolding decide_packet
  decide_packet-Decided s cell stale k h =
      Chosen-Decided cell k (if is_tx cell then decide_tx os s k.n k.p cell else some (s, stale))
        (branch Chosen (is_tx cell) (decide_tx-Chosen s k.n k.p cell h) h)

  picked-Decided :
      (s : Net os) (cell : Cell) (stale : CellDecision) (o : Option Pick)
      → IsSound os s
      → Decided (elim o [ none ↦ none | some k ↦ decide_packet os s cell stale k ])
  picked-Decided s cell stale none h = tt
  picked-Decided s cell stale (some k) h = decide_packet-Decided s cell stale k h

  pub decide_cell-Decided :
      (s : Net os) (last : Cursor) (stale : CellDecision) (cell : Cell)
      → IsSound os s
      → Decided (decide_cell os s last stale cell)
  unfolding decide_cell
  decide_cell-Decided s last stale cell h =
      picked-Decided s cell stale (pick_packet os s last cell) h
