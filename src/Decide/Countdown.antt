-- ===== src/Decide/Countdown.antt =====
-- A neighbor that backs off in shared slots of tsch.c sends again after its backoff counter is done.
use tsch_minimum.Prelude.{
  ℕ, zero, suc, ◌≡◌, refl, ◌∙◌, true, false, Option, none, some, arith, ==_iff, if◌then◌else◌,
}
use tsch_minimum.Contiki.{Contiki}
use tsch_minimum.Params.{Cell, CellDecision, is_tx, is_rx, is_shared, link_type_normal}
use tsch_minimum.Neighbors.{
  Net, PacketRef, neighbor_queue_from_addr, read_packet_from_neighbor_queue,
}
use tsch_minimum.Neighbors.Same.{SameNet-set_queue, read-SameNet, entry-set_queue}
use tsch_minimum.SharedTx.{Cursor}
use tsch_minimum.Decide.{
  Pick, is_cell_tx, pick_from, pick_packet, waited, check_backoff, decide_tx, decide_packet,
  decide_cell,
}

module _ (os : Contiki) (last : Cursor) (stale : CellDecision) (cell : Cell) where
  -- How many slots of the cell pass before the first in which it sends, of `fuel` slots in which
  -- nothing else touches the queues.
  pub slots_until_tx : ℕ → Net os → Option ℕ
  slots_until_tx zero s = none
  slots_until_tx (suc fuel) s = elim (decide_cell os s last stale cell) [
    | none ↦ none
    | some c ↦ elim (is_cell_tx c.decision) [
      | true ↦ some 0
      | false ↦ elim (slots_until_tx fuel c.net) [ none ↦ none | some k ↦ some (suc k) ]
    ]
  ]

  -- The cell is a shared one, and a packet waits in the queue of its neighbor `i`.
  pub record HasOwn (s : Net os) (i : ℕ) (p : PacketRef) : Type 0 where
    pub sends : is_tx cell ≡ true
    pub shared : is_shared cell ≡ true
    pub normal : cell.link_type ≡ link_type_normal
    pub entry : neighbor_queue_from_addr os s cell.node_address ≡ some i
    pub own : read_packet_from_neighbor_queue os s (some i) ≡ some p

  own : ℕ → PacketRef → Pick
  own i p = record { n = some i; p = some p; last = last }

  decide_own :
      (s : Net os) (i : ℕ) (p : PacketRef)
      → HasOwn s i p
      → decide_cell os s last stale cell ≡ decide_packet os s cell stale (own i p)
  unfolding decide_cell pick_packet pick_from own
  decide_own s i p h = ground (arith, h.entry, h.own, h.sends, h.normal)

  decide_now :
      (s : Net os) (i : ℕ) (p : PacketRef)
      → HasOwn s i p
      → (s.queue_of i).bw_value ≡ 0
      → decide_packet os s cell stale (own i p)
        ≡ some (record { net = s; pick = own i p; decision = CellDecision.tx })
  unfolding decide_packet decide_tx check_backoff own
  decide_now s i p h e = ground (arith, h.sends, h.shared)

  -- The decision of a slot in which a packet waits.
  backing_off : CellDecision
  backing_off = if is_rx cell then CellDecision.rx else CellDecision.tx_backoff

  not_tx : is_cell_tx backing_off ≡ false
  unfolding backing_off
  not_tx = ground arith

  decide_later :
      (s : Net os) (i : ℕ) (p : PacketRef) (k : ℕ)
      → HasOwn s i p
      → (s.queue_of i).bw_value ≡ suc k
      → decide_packet os s cell stale (own i p)
        ≡ some (record { net = waited os s i; pick = own i p; decision = backing_off })
  unfolding decide_packet decide_tx check_backoff own backing_off
  decide_later s i p k h e = ground (arith, h.sends, h.shared)

  HasOwn-waited : (s : Net os) (i : ℕ) (p : PacketRef) → HasOwn s i p → HasOwn (waited os s i) i p
  HasOwn-waited s i p h = record {
    sends = h.sends;
    shared = h.shared;
    normal = h.normal;
    entry = entry-set_queue os s cell.node_address i _ ∙ h.entry;
    own =
        read-SameNet os (waited os s i) s i (
          SameNet-set_queue os s i _
            (record { same_buffer = refl; same_put = refl; same_get = refl }))
        ∙ h.own;
  }

  bw-waited :
      (s : Net os) (i k : ℕ)
      → (s.queue_of i).bw_value ≡ suc k
      → ((waited os s i).queue_of i).bw_value ≡ k
  bw-waited s i k e = ground (arith, e, (==_iff i i).1 refl)

  -- While nothing else touches the queues, a neighbor whose packet waits in a shared cell sends
  -- after exactly as many slots of the cell as its backoff counter says, and not before.
  pub slots_until_tx_lem :
      (k : ℕ) (s : Net os) (i : ℕ) (p : PacketRef)
      → HasOwn s i p
      → (s.queue_of i).bw_value ≡ k
      → slots_until_tx (suc k) s ≡ some k
  unfolding slots_until_tx
  slots_until_tx_lem zero s i p h e = ground (arith, decide_own s i p h, decide_now s i p h e)
  slots_until_tx_lem (suc k) s i p h e = ground (
    arith,
    decide_own s i p h,
    decide_later s i p k h e,
    not_tx,
    slots_until_tx_lem k (waited os s i) i p (HasOwn-waited s i p h) (bw-waited s i k e),
  )
