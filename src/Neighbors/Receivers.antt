-- ===== src/Neighbors/Receivers.antt =====
-- The receivers of the packets in the neighbor queues of tsch.c, where a queue is added.
use tsch_minimum.Prelude.{
  ℕ, ◌≡◌, refl, Option, none, some, arith, Bool-cases, Option-cases, inl, inr, ◌==◌,
}
use tsch_minimum.Contiki.{Contiki, IsContiki, Addr}
use tsch_minimum.Queue.{NeighborQueue, renew}
use tsch_minimum.Queue.Refine.{contents, contents-renew}
use tsch_minimum.Neighbors.{
  Net, set_queue, set_working, neighbor_queue_from_addr, find_or_add, init_entry, add_queue,
}
use tsch_minimum.Neighbors.Addressed.{AllFor, Everywhere}
use tsch_minimum.Neighbors.Refine.{view}

module _ (os : Contiki) (P : Addr → ℕ → Type 0) where
  -- The same of each entry.
  abbrev ByEntry : Net os → Type 0
  ByEntry s =
      (a : Addr) (i : ℕ)
      → neighbor_queue_from_addr os s a ≡ some i
      → AllFor P a (contents (s.queue_of i))

  pub of_entries : (s : Net os) → ByEntry s → Everywhere P (view os s)
  of_entries s h a = elim (Option-cases (neighbor_queue_from_addr os s a)) [
    | inl missing ↦ rw missing tt
    | inr (i, found) ↦ rw found (h a i found)
  ]

  at_entry : (s : Net os) → Everywhere P (view os s) → ByEntry s
  at_entry s h a i e = rw e at (h a)

  renewed-AllFor : (a : Addr) (q : NeighborQueue) → AllFor P a (contents (renew q))
  renewed-AllFor a q = rw (contents-renew q) tt

module _ (os : Contiki) (laws : IsContiki os) (P : Addr → ℕ → Type 0) where
  open os use {rimeaddr_cmp, nbr_table_add_lladdr}
  open laws use {cmp_iff, get_add, get_add_other, get_add_none}

  renew-ByEntry :
      (s : Net os) (a : Addr) (i : ℕ)
      → ByEntry os P s
      → ByEntry os P (set_queue os s i (renew (s.queue_of i)))
  unfolding neighbor_queue_from_addr
  renew-ByEntry s a i h b j e = elim (Bool-cases (i == j)) [
    | inl same ↦ rw same (renewed-AllFor os P b (s.queue_of i))
    | inr other ↦ rw other (h b j e)
  ]

  add-ByEntry :
      (s : Net os) (a : Addr) (r : Option ℕ)
      → (nbr_table_add_lladdr s.table a).1 ≡ r
      → ByEntry os P s
      → ByEntry os P (init_entry os (record s { table = (nbr_table_add_lladdr s.table a).0 }) r).0
  unfolding neighbor_queue_from_addr init_entry
  add-ByEntry s a none e h b j f = h b j (get_add_none s.table a b j e f)
  add-ByEntry s a (some i) e h b j f = elim (Bool-cases (i == j)) [
    | inl same ↦ rw same (renewed-AllFor os P b (s.queue_of i))
    | inr other ↦ elim (Bool-cases (rimeaddr_cmp a b)) [
      | inl eq ↦ absurd (grind (arith, get_add s.table a i e, (cmp_iff a b).0 eq))
      | inr ne ↦
          rw other (h b j (get_add_other s.table a b j (λ q. ground (arith, (cmp_iff a b).1 q)) f))
    ]
  ]

  entry-ByEntry :
      (s : Net os) (a : Addr) (o : Option ℕ)
      → ByEntry os P s
      → let (t, r) = find_or_add os s a o in ByEntry os P (init_entry os t r).0
  unfolding find_or_add init_entry
  entry-ByEntry s a none h = add-ByEntry s a (nbr_table_add_lladdr s.table a).1 refl h
  entry-ByEntry s a (some i) h = renew-ByEntry s a i h

  -- A queue that is added is empty, so that what held of the packets still does.
  pub add_queue-Everywhere :
      (s : Net os) (a : Addr)
      → Everywhere P (view os s)
      → Everywhere P (view os (add_queue os s a).0)
  unfolding add_queue neighbor_queue_from_addr
  add_queue-Everywhere s a h =
      of_entries os P (add_queue os s a).0
        (entry-ByEntry (set_working os 1 s) a (neighbor_queue_from_addr os s a) (at_entry os P s h))
