-- ===== src/SharedTx.antt =====
-- get_next_packet_for_shared_slot_tx of tsch.c: a scan of the neighbor queues for a packet to send
-- in a shared slot, which goes on where the last one stopped.
pub mod Finds
use tsch_minimum.Prelude.{
  ℕ, zero, suc, ◌+◌, ◌<◌, ◌≡◌, refl, ap, sym, ◌∙◌, Option, none, some, List, [], ◌∷◌, ◌++◌, map,
  arith, length, length-append, Option-cases, inl, inr,
}
use mathlib.Core.List.{append_assoc}
use tsch_minimum.Contiki.{Contiki, IsContiki, first, max_neighbors}
use tsch_minimum.Neighbors.{Net, PacketRef, read_packet_from_neighbor_queue}

-- The static variable `last_neighbor_tx`.
abbrev pub Cursor : Type 0
Cursor = Option ℕ

module _ (os : Contiki) (s : Net os) where
  open os use {nbr_table_head, nbr_table_next}

  -- The `while` loop, entered with `p == NULL`; `none` means that the fuel ran out.
  scan : ℕ → Cursor → Option (Option PacketRef × Cursor)
  scan zero last = none
  scan (suc fuel) none = some (none, none)
  scan (suc fuel) (some i) =
      let rest = scan fuel (nbr_table_next s.table i) in
      elim (read_packet_from_neighbor_queue os s (some i)) [
        | some p ↦ some (some p, nbr_table_next s.table i)
        | none ↦ rest
      ]

  abbrev resume_at : Cursor → Cursor
  resume_at none = nbr_table_head s.table
  resume_at (some i) = some i

  -- The table is walked once, so one round more than its entries is enough.
  pub get_next_packet_for_shared_slot_tx : Cursor → Option (Option PacketRef × Cursor)
  unfolding scan
  get_next_packet_for_shared_slot_tx last = scan (max_neighbors + 1) (resume_at last)

  -- The same over the list of the entries that are left.
  pub walk : List ℕ → Option PacketRef × Cursor
  walk [] = (none, none)
  walk (i ∷ ys) =
      let rest = walk ys in
      elim (read_packet_from_neighbor_queue os s (some i)) [
        | some p ↦ (some p, first ys)
        | none ↦ rest
      ]

  -- The packets at the heads of the queues that are not empty, in the order of the table.
  pub pending : List ℕ → List PacketRef
  pending [] = []
  pending (i ∷ ys) = elim (read_packet_from_neighbor_queue os s (some i)) [
    | some p ↦ p ∷ pending ys
    | none ↦ pending ys
  ]

module _ (os : Contiki) (laws : IsContiki os) (s : Net os) where
  open laws use {items, head_items, next_items, few}

  scan-eq-walk :
      (fuel : ℕ) (xs ys : List ℕ)
      → items s.table ≡ xs ++ ys
      → length ys < fuel
      → scan os s fuel (first ys) ≡ some (walk os s ys)
  unfolding scan walk
  scan-eq-walk zero xs ys e h = absurd (omega arith)
  scan-eq-walk (suc fuel) xs [] e h = refl
  scan-eq-walk (suc fuel) xs (i ∷ ys) e h =
      let next = next_items s.table xs ys i e in
      let ih =
        scan-eq-walk fuel (xs ++ (i ∷ [])) ys (e ∙ sym (append_assoc xs (i ∷ []) ys))
          (omega arith) in
      ground (arith, next, ih, ap (scan os s fuel) next)

  -- With `ys` the entries from the cursor on, the call returns what the walk along `ys` finds, and
  -- never runs out of fuel.
  pub get_next_walks :
      (xs ys : List ℕ) (i : ℕ)
      → items s.table ≡ xs ++ (i ∷ ys)
      → get_next_packet_for_shared_slot_tx os s (some i) ≡ some (walk os s (i ∷ ys))
  unfolding get_next_packet_for_shared_slot_tx
  get_next_walks xs ys i e =
      scan-eq-walk (max_neighbors + 1) xs (i ∷ ys) e
        (omega (arith, few s.table, ap length e, length-append xs (i ∷ ys)))

  pub get_next_restarts :
      get_next_packet_for_shared_slot_tx os s none ≡ some (walk os s (items s.table))
  unfolding get_next_packet_for_shared_slot_tx
  get_next_restarts =
      rw (head_items s.table)
        (scan-eq-walk (max_neighbors + 1) [] (items s.table) refl (omega (arith, few s.table)))

-- `n` calls in a row, with the queues as they are: the packets that they return.
module _ (os : Contiki) (s : Net os) where
  pub turns : ℕ → Cursor → List (Option PacketRef)
  turns zero last = []
  turns (suc n) last = elim (get_next_packet_for_shared_slot_tx os s last) [
    | none ↦ []
    | some (p, last') ↦ p ∷ turns n last'
  ]

module _ (os : Contiki) (laws : IsContiki os) (s : Net os) where
  open laws use {items}

  -- From an entry that has nothing to send, the walk goes on to the next one.
  turns-skip :
      (n : ℕ) (xs ys : List ℕ) (i j : ℕ)
      → items s.table ≡ xs ++ (i ∷ j ∷ ys)
      → read_packet_from_neighbor_queue os s (some i) ≡ none
      → turns os s n (some i) ≡ turns os s n (some j)
  unfolding turns walk
  turns-skip zero xs ys i j e h = refl
  turns-skip (suc n) xs ys i j e h = ground (
    arith,
    get_next_walks os laws s xs (j ∷ ys) i e,
    get_next_walks os laws s (xs ++ (i ∷ [])) ys j (e ∙ sym (append_assoc xs (i ∷ []) (j ∷ ys))),
  )

  turns-nil :
      (last : Cursor) → turns os s (length (pending os s [])) last ≡ map some (pending os s [])
  unfolding turns pending
  turns-nil last = refl

  pending-idle :
      (i : ℕ) (ys : List ℕ)
      → read_packet_from_neighbor_queue os s (some i) ≡ none
      → pending os s (i ∷ ys) ≡ pending os s ys
  unfolding pending
  pending-idle i ys h = ground arith

  pending-busy :
      (i : ℕ) (ys : List ℕ) (p : PacketRef)
      → read_packet_from_neighbor_queue os s (some i) ≡ some p
      → pending os s (i ∷ ys) ≡ p ∷ pending os s ys
  unfolding pending
  pending-busy i ys p h = ground arith

  turns-busy :
      (n : ℕ) (xs ys : List ℕ) (i : ℕ) (p : PacketRef)
      → items s.table ≡ xs ++ (i ∷ ys)
      → read_packet_from_neighbor_queue os s (some i) ≡ some p
      → turns os s (suc n) (some i) ≡ some p ∷ turns os s n (first ys)
  unfolding turns walk
  turns-busy n xs ys i p e h = ground (arith, get_next_walks os laws s xs ys i e)

  -- With the queues left as they are, every neighbor from the cursor on that has a packet gets
  -- exactly one turn, in the order of the table, before the scan starts again.
  pub turns_fair :
      (xs ys : List ℕ)
      → items s.table ≡ xs ++ ys
      → turns os s (length (pending os s ys)) (first ys) ≡ map some (pending os s ys)
  turns_fair xs [] e = turns-nil none
  turns_fair xs (i ∷ ys) e =
      let ih = turns_fair (xs ++ (i ∷ [])) ys (e ∙ sym (append_assoc xs (i ∷ []) ys)) in
      elim (Option-cases (read_packet_from_neighbor_queue os s (some i))) [
        | inl idle ↦ rw (pending-idle i ys idle) (from_idle ys e idle ih)
        | inr (p, busy) ↦
            rw (pending-busy i ys p busy) (turns-busy _ xs ys i p e busy ∙ ap (λ l. some p ∷ l) ih)
      ]
    where
      from_idle :
          (zs : List ℕ)
          → items s.table ≡ xs ++ (i ∷ zs)
          → read_packet_from_neighbor_queue os s (some i) ≡ none
          → turns os s (length (pending os s zs)) (first zs) ≡ map some (pending os s zs)
          → turns os s (length (pending os s zs)) (some i) ≡ map some (pending os s zs)
      from_idle [] d h k = turns-nil (some i)
      from_idle (j ∷ zs) d h k = turns-skip _ xs zs i j d h ∙ k

-- The cursor is NULL or points into the table.
abbrev pub InTable : (os : Contiki) → IsContiki os → Net os → Cursor → Type 0
InTable os laws s none = Unit
InTable os laws s (some i) = (xs : List ℕ) × (ys : List ℕ) × (laws.items s.table ≡ xs ++ (i ∷ ys))

module _ (os : Contiki) (laws : IsContiki os) (s : Net os) where
  -- With such a cursor the call returns.
  pub get_next_total :
      (last : Cursor)
      → InTable os laws s last
      → (r : Option PacketRef × Cursor) × (get_next_packet_for_shared_slot_tx os s last ≡ some r)
  get_next_total none h = (_, get_next_restarts os laws s)
  get_next_total (some i) (xs, ys, e) = (_, get_next_walks os laws s xs ys i e)
