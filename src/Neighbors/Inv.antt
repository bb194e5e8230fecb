-- ===== src/Neighbors/Inv.antt =====
-- Every queue that the neighbor table of tsch.c leads to is valid, and the queue functions keep it
-- so.
use tsch_minimum.Prelude.{
  List, ℕ, ◌≡◌, refl, Option, none, some, inl, inr, arith, length, ◌==◌, Option-cases, ==_iff,
  Bool-cases,
}
use tsch_minimum.Contiki.{Contiki, IsContiki, Addr}
use tsch_minimum.Queue.{NeighborQueue, nbr_buffer_size, renew}
use tsch_minimum.Queue.Inv.{IsValid, renew-IsValid, add_packet-IsValid, remove_packet-IsValid}
use tsch_minimum.Neighbors.{
  Net, set_working, set_queue, update, neighbor_queue_from_addr, find_or_add, init_entry, add_queue,
  remove_entry, remove_queue, add_packet_at, add_packet_to_queue, remove_packet_at,
  remove_packet_from_queue,
}

-- The buffers are arrays of NBR_BUFFER_SIZE packets, used or not.
pub record IsSound (os : Contiki) (s : Net os) : Type 0 where
  pub shaped : (i : ℕ) → length (s.queue_of i).buffer ≡ nbr_buffer_size
  pub valid : (a : Addr) (i : ℕ) → neighbor_queue_from_addr os s a ≡ some i → IsValid (s.queue_of i)

module _ (os : Contiki) where
  -- The flag and the log of freed pointers do not matter.
  pub flags-IsSound :
      (s : Net os) (w : ℕ) (fs : List ℕ)
      → IsSound os s
      → IsSound os (record s { working_on_queue = w; frees = fs })
  unfolding neighbor_queue_from_addr
  flags-IsSound s w fs h = record { shaped = h.shaped; valid = h.valid }

  -- A valid queue may be written at any entry.
  pub set_queue-IsSound :
      (s : Net os) (i : ℕ) (q : NeighborQueue)
      → IsValid q
      → IsSound os s
      → IsSound os (set_queue os s i q)
  unfolding neighbor_queue_from_addr
  set_queue-IsSound s i q v h = record {
    shaped = λ j. ground (arith, h.shaped j, v);
    valid = λ a j e. elim (Bool-cases (i == j)) [
      | inl same ↦ rw same v
      | inr other ↦ rw other (h.valid a j e)
    ];
  }

  -- So may any entry, by what keeps its queue valid if it is.
  pub map_queue-IsSound :
      (s : Net os) (i : ℕ) (q : NeighborQueue)
      → length q.buffer ≡ nbr_buffer_size
      → (IsValid (s.queue_of i) → IsValid q)
      → IsSound os s
      → IsSound os (set_queue os s i q)
  unfolding neighbor_queue_from_addr
  map_queue-IsSound s i q len keep h = record {
    shaped = λ j. ground (arith, h.shaped j, len);
    valid = λ a j e. elim (Bool-cases (i == j)) [
      | inl same ↦ rw same (keep (rw ((==_iff i j).0 same) (h.valid a j e)))
      | inr other ↦ rw other (h.valid a j e)
    ];
  }

  pub add_packet_to_queue-IsSound :
      (s : Net os) (pkt sent ptr : ℕ) (a : Addr)
      → IsSound os s
      → IsSound os (add_packet_to_queue os s pkt sent ptr a).0
  unfolding add_packet_to_queue
  add_packet_to_queue-IsSound s pkt sent ptr a h =
      elim (Option-cases (neighbor_queue_from_addr os s a)) [
        | inl e ↦ rw (e, add_packet_at) h
        | inr (i, e) ↦
            rw (e, add_packet_at)
              (set_queue-IsSound s i _ (add_packet-IsValid pkt sent ptr (h.valid a i e)) h)
      ]

  pub remove_packet_from_queue-IsSound :
      (s : Net os) (a : Addr) → IsSound os s → IsSound os (remove_packet_from_queue os s a).0
  unfolding remove_packet_from_queue
  remove_packet_from_queue-IsSound s a h = elim (Option-cases (neighbor_queue_from_addr os s a)) [
    | inl e ↦ rw (e, remove_packet_at) h
    | inr (i, e) ↦
        rw (e, remove_packet_at)
          (flags-IsSound _ _ _ (set_queue-IsSound s i _ (remove_packet-IsValid (h.valid a i e)) h))
  ]

module _ (os : Contiki) (laws : IsContiki os) where
  open os use {rimeaddr_cmp, nbr_table_add_lladdr}
  open laws use {cmp_iff, get_add, get_add_other, get_add_none, get_remove}

  add-IsSound :
      (s : Net os) (a : Addr)
      → neighbor_queue_from_addr os s a ≡ none
      → IsSound os s
      → let (t, r) = nbr_table_add_lladdr s.table a in
        IsSound os (init_entry os (record s { table = t }) r).0
  unfolding neighbor_queue_from_addr init_entry
  add-IsSound s a fresh h = elim (Option-cases (nbr_table_add_lladdr s.table a).1) [
    | inl full ↦ rw full (record {
      shaped = h.shaped;
      valid = λ b j e. h.valid b j (get_add_none s.table a b j full e);
    })
    | inr (i, new) ↦ rw new (record {
      shaped = λ j. ground (arith, h.shaped j, renewed i);
      valid = λ b j e. added i new b j e;
    })
  ]
    where
      renewed : (i : ℕ) → IsValid (renew (s.queue_of i))
      renewed i = renew-IsValid (s.queue_of i) (h.shaped i)

      t : os.Table
      t = (nbr_table_add_lladdr s.table a).0

      -- The address is the one added, or it is another one, whose entry was there.
      added :
          (i : ℕ)
          → (nbr_table_add_lladdr s.table a).1 ≡ some i
          → (b : Addr) (j : ℕ) → os.nbr_table_get_from_lladdr t b ≡ some j
          → IsValid (update s.queue_of i (renew (s.queue_of i)) j)
      added i new b j e = elim (Bool-cases (i == j)) [
        | inl same ↦ rw same (renewed i)
        | inr other ↦ elim (Bool-cases (rimeaddr_cmp a b)) [
          | inl eq ↦ absurd (grind (arith, get_add s.table a i new, (cmp_iff a b).0 eq))
          | inr ne ↦
              rw other (
                h.valid b j
                  (get_add_other s.table a b j (λ q. ground (arith, (cmp_iff a b).1 q)) e))
        ]
      ]

  renew-IsSound :
      (s : Net os) (a : Addr) (o : Option ℕ)
      → neighbor_queue_from_addr os s a ≡ o
      → IsSound os s
      → let (t, r) = find_or_add os s a o in IsSound os (init_entry os t r).0
  unfolding find_or_add init_entry
  renew-IsSound s a none e h = add-IsSound s a e h
  renew-IsSound s a (some i) e h = set_queue-IsSound os s i _ (renew-IsValid _ (h.shaped i)) h

  -- `add_queue` keeps every queue valid, whether it renews an entry, adds one or finds no room.
  pub add_queue-IsSound : (s : Net os) (a : Addr) → IsSound os s → IsSound os (add_queue os s a).0
  unfolding add_queue
  add_queue-IsSound s a h =
      flags-IsSound os _ 0 (add_queue os s a).0.frees
        (renew-IsSound (set_working os 1 s) a _ refl (flags-IsSound os s 1 s.frees h))

  remove_entry-IsSound :
      (s : Net os) (o : Option ℕ) → IsSound os s → IsSound os (remove_entry os s o).0
  unfolding remove_entry neighbor_queue_from_addr
  remove_entry-IsSound s none h = h
  remove_entry-IsSound s (some i) h = record {
    shaped = h.shaped;
    valid = λ b j e. h.valid b j (get_remove s.table i b j e);
  }

  -- `remove_queue` keeps every queue that is left valid.
  pub remove_queue-IsSound :
      (s : Net os) (a : Addr) → IsSound os s → IsSound os (remove_queue os s a).0
  unfolding remove_queue
  remove_queue-IsSound s a h =
      flags-IsSound os _ 0 (remove_queue os s a).0.frees
        (remove_entry-IsSound (set_working os 1 s) _ (flags-IsSound os s 1 s.frees h))
