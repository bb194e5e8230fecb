-- ===== src/SharedTx/Finds.antt =====
-- What get_next_packet_for_shared_slot_tx of tsch.c finds: the packet at the head of an address's
-- queue, and the cursor after it.
use mathlib.Core.Path.{subst}
use mathlib.Core.Option.{some-injective}
use mathlib.Core.List.{append_assoc}
use tsch_minimum.Prelude.{
  ℕ, ◌≡◌, refl, sym, ap, ◌∙◌, Option, none, some, List, [], ◌∷◌, ◌++◌, Option-cases, inl, inr,
}
use tsch_minimum.Contiki.{Contiki, IsContiki, Addr, first}
use tsch_minimum.Neighbors.{
  Net, PacketRef, neighbor_queue_from_addr, read_packet_from_queue, read_packet_from_neighbor_queue,
}
use tsch_minimum.SharedTx.{
  Cursor, InTable, walk, get_next_packet_for_shared_slot_tx, get_next_walks, get_next_restarts,
}

module _ (os : Contiki) (laws : IsContiki os) (s : Net os) where
  -- Where there is a packet, it is the first one of the queue of an address.
  abbrev pub IsFirst : Option PacketRef → Type 0
  IsFirst none = Unit
  IsFirst (some p) = (a : Addr) × (read_packet_from_queue os s a ≡ some p)

  first-InTable : (xs ys : List ℕ) → laws.items s.table ≡ xs ++ ys → InTable os laws s (first ys)
  first-InTable xs [] e = tt
  first-InTable xs (i ∷ ys) e = (xs, ys, e)

  pub found-IsFirst :
      (a : Addr) (i : ℕ)
      → neighbor_queue_from_addr os s a ≡ some i
      → IsFirst (read_packet_from_neighbor_queue os s (some i))
  unfolding read_packet_from_queue
  found-IsFirst a i e = elim (Option-cases (read_packet_from_neighbor_queue os s (some i))) [
    | inl nothing ↦ rw nothing tt
    | inr (p, there) ↦ rw there (a, ap (read_packet_from_neighbor_queue os s) e ∙ there)
  ]

  -- What a scan along the table returns, and where it leaves the cursor.
  abbrev pub Walked : Option PacketRef × Cursor → Type 0
  Walked (p, last) = IsFirst p × InTable os laws s last

  walk-Walked : (xs ys : List ℕ) → laws.items s.table ≡ xs ++ ys → Walked (walk os s ys)
  unfolding walk neighbor_queue_from_addr
  walk-Walked xs [] e = (tt, tt)
  walk-Walked xs (i ∷ ys) e =
      let e' = e ∙ sym (append_assoc xs (i ∷ []) ys) in
      let (a, at_i) = laws.item_found s.table xs ys i e in
      elim (Option-cases (read_packet_from_neighbor_queue os s (some i))) [
        | inl idle ↦ rw (idle, walk) (walk-Walked (xs ++ (i ∷ [])) ys e')
        | inr (p, busy) ↦
            rw (busy, walk)
              (subst IsFirst busy (found-IsFirst a i at_i), first-InTable (xs ++ (i ∷ [])) ys e')
      ]

  pub next-Walked :
      (last : Cursor) (r : Option PacketRef × Cursor)
      → InTable os laws s last
      → get_next_packet_for_shared_slot_tx os s last ≡ some r
      → Walked r
  next-Walked none r h e =
      subst Walked (some-injective _ _ (sym (get_next_restarts os laws s) ∙ e))
        (walk-Walked [] (laws.items s.table) refl)
  next-Walked (some i) r (xs, ys, f) e =
      subst Walked (some-injective _ _ (sym (get_next_walks os laws s xs ys i f) ∙ e))
        (walk-Walked xs (i ∷ ys) f)
