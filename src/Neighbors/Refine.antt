-- ===== src/Neighbors/Refine.antt =====
-- The packet functions of tsch.c against their specification, a map from addresses to FIFOs.
use mathlib.Core.Path.{fun_ext}
use tsch_minimum.Prelude.{
  ℕ, ◌≡◌, refl, ap, ap₂, sym, ◌∙◌, Option, none, some, List, [], ◌∷◌, inl, inr, arith, Option-cases,
  Bool-cases, ==_iff,
}
use tsch_minimum.Contiki.{Contiki, IsContiki, Addr}
use tsch_minimum.Queue.{NeighborQueue, new_packet}
use tsch_minimum.Queue.Fifo
use tsch_minimum.Queue.Refine.{
  contents, contents-renew, add_packet_refines, remove_packet_refines, read_packet_refines,
}
use tsch_minimum.Neighbors.{
  Net, set_queue, deref, add_queue, find_or_add, init_entry, neighbor_queue_from_addr,
  add_packet_at, add_packet_to_queue, remove_packet_at, remove_packet_from_queue, freed,
  read_packet_from_neighbor_queue, read_packet_from_queue,
}
use tsch_minimum.Neighbors.Inv.{
  IsSound, add_packet_to_queue-IsSound, remove_packet_from_queue-IsSound,
}
use tsch_minimum.Neighbors.Fifos
use tsch_minimum.Neighbors.Fifos.{
  Fifos, Call, add, remove, read, Reply, status, packet, status_of, add_to, remove_from, head_of,
  at,
}

module _ (os : Contiki) where
  open os use {rimeaddr_cmp}

  abbrev contents_at : Net os → Option ℕ → Option Fifo.Fifo
  contents_at s none = none
  contents_at s (some i) = some (contents (s.queue_of i))

  -- The FIFO of each address that has an entry.
  abbrev pub view : Net os → Fifos
  view s a = contents_at s (neighbor_queue_from_addr os s a)

  -- A client's calls, in order.
  step : Net os → Call → Net os × Reply
  step s (add pkt sent ptr a) =
      let (s', r) = add_packet_to_queue os s pkt sent ptr a in (s', status r)
  step s (remove a) = let (s', r) = remove_packet_from_queue os s a in (s', status r)
  step s (read a) = (
    s,
    packet (elim (read_packet_from_queue os s a) [ none ↦ none | some p ↦ some (deref os s p) ]),
  )

  pub run : Net os → List Call → List Reply
  run s [] = []
  run s (c ∷ cs) = let (s', r) = step s c in r ∷ run s' cs

module _ (os : Contiki) (laws : IsContiki os) where
  open os use {rimeaddr_cmp}
  open laws use {cmp_iff, get_injective}

  -- Writing the queue of one address changes the view there and nowhere else.
  pub view-set_queue :
      (s : Net os) (a : Addr) (i : ℕ) (q : NeighborQueue)
      → neighbor_queue_from_addr os s a ≡ some i
      → view os (set_queue os s i q) ≡ at rimeaddr_cmp (view os s) a (some (contents q))
  unfolding neighbor_queue_from_addr
  view-set_queue s a i q e = fun_ext λ b. elim (Bool-cases (rimeaddr_cmp a b)) [
    | inl same ↦ rw (same, ← (cmp_iff a b).0 same, e) (ground arith)
    | inr other ↦ elim (Option-cases (os.nbr_table_get_from_lladdr s.table b)) [
      | inl missing ↦ rw (other, missing)
      | inr (j, found) ↦
          rw (other, found) (ground (arith, get_injective s.table a b i, (cmp_iff a b).1))
    ]
  ]

  at_self : (s : Net os) (a : Addr) → at rimeaddr_cmp (view os s) a (view os s a) ≡ view os s
  at_self s a = fun_ext λ b. elim (Bool-cases (rimeaddr_cmp a b)) [
    | inl same ↦ rw (same, (cmp_iff a b).0 same)
    | inr other ↦ rw other
  ]

  add_refines :
      (s : Net os) (pkt sent ptr : ℕ) (a : Addr) (o : Option ℕ)
      → neighbor_queue_from_addr os s a ≡ o
      → IsSound os s
      → let (s', r) = add_packet_at os s pkt sent ptr o in
        let (f, r') = add_to (new_packet pkt sent ptr) (contents_at os s o) in
        (view os s' ≡ at rimeaddr_cmp (view os s) a f) × (r ≡ r')
  unfolding add_packet_at add_to
  add_refines s pkt sent ptr a none e h =
      let same : view os s a ≡ none = rw e in
      (sym (at_self s a) ∙ ap (at rimeaddr_cmp (view os s) a) same, refl)
  add_refines s pkt sent ptr a (some i) e h =
      let fifo = add_packet_refines pkt sent ptr (h.valid a i e) in
      (
        view-set_queue s a i _ e ∙ ap (λ p. at rimeaddr_cmp (view os s) a (some p.0)) fifo,
        ap (λ p. p.1) fifo,
      )

  remove_refines :
      (s : Net os) (a : Addr) (o : Option ℕ)
      → neighbor_queue_from_addr os s a ≡ o
      → IsSound os s
      → let (s', r) = remove_packet_at os s o in
        let (f, r') = remove_from (contents_at os s o) in
        (view os s' ≡ at rimeaddr_cmp (view os s) a f) × (r ≡ r')
  unfolding remove_packet_at remove_from neighbor_queue_from_addr freed
  remove_refines s a none e h =
      let same : view os s a ≡ none = rw e in
      (sym (at_self s a) ∙ ap (at rimeaddr_cmp (view os s) a) same, refl)
  remove_refines s a (some i) e h =
      let fifo = remove_packet_refines (h.valid a i e) in
      (
        view-set_queue s a i _ e ∙ ap (λ p. at rimeaddr_cmp (view os s) a (some p.0)) fifo,
        ground (arith, ap (λ p. p.1) fifo),
      )

  pub read_refines :
      (s : Net os) (a : Addr) (o : Option ℕ)
      → neighbor_queue_from_addr os s a ≡ o
      → IsSound os s
      → (elim (read_packet_from_neighbor_queue os s o) [
        | none ↦ none
        | some p ↦ some (deref os s p)
      ])
        ≡ head_of (contents_at os s o)
  unfolding read_packet_from_neighbor_queue head_of
  read_refines s a none e h = refl
  read_refines s a (some i) e h = ground (arith, read_packet_refines (h.valid a i e))

  -- A call as the specification makes it.
  abbrev Simulates : Net os → Call → Type 0
  Simulates s c =
      let (s', r) = step os s c in
      let (m, r') = Fifos.step rimeaddr_cmp (view os s) c in (view os s' ≡ m) × (r ≡ r')

  step_refines : (s : Net os) (c : Call) → IsSound os s → Simulates s c
  unfolding step Fifos.step add_packet_to_queue remove_packet_from_queue read_packet_from_queue
  step_refines s (add pkt sent ptr a) h =
      let l = add_refines s pkt sent ptr a _ refl h in (l.0, ap status l.1)
  step_refines s (remove a) h = let l = remove_refines s a _ refl h in (l.0, ap status l.1)
  step_refines s (read a) h = (refl, ap packet (read_refines s a _ refl h))

  step-IsSound : (s : Net os) (c : Call) → IsSound os s → IsSound os (step os s c).0
  unfolding step
  step-IsSound s (add pkt sent ptr a) h = add_packet_to_queue-IsSound os s pkt sent ptr a h
  step-IsSound s (remove a) h = remove_packet_from_queue-IsSound os s a h
  step-IsSound s (read a) h = h

  -- No sequence of `add_packet_to_queue`, `remove_packet_from_queue` and `read_packet_from_queue`
  -- tells the neighbor queues, if they are sound, from the bounded FIFOs of their addresses.
  pub run_refines :
      (cs : List Call) (s : Net os)
      → IsSound os s
      → run os s cs ≡ Fifos.run rimeaddr_cmp (view os s) cs
  unfolding run Fifos.run
  run_refines [] s h = refl
  run_refines (c ∷ cs) s h =
      let l = step_refines s c h in
      ap₂ ◌∷◌ l.1 (
        run_refines cs (step os s c).0 (step-IsSound s c h)
        ∙ ap (λ m. Fifos.run rimeaddr_cmp m cs) l.0)

  -- Adding a packet, as the specification does it.
  pub add_view :
      (s : Net os) (pkt sent ptr : ℕ) (a : Addr)
      → IsSound os s
      → let (s', r) = add_packet_to_queue os s pkt sent ptr a in
        let (f, r') = add_to (new_packet pkt sent ptr) (view os s a) in
        (view os s' ≡ at rimeaddr_cmp (view os s) a f) × (r ≡ r')
  unfolding add_packet_to_queue
  add_view s pkt sent ptr a h = add_refines s pkt sent ptr a _ refl h

  -- A queue that was added is empty.
  pub add_queue-view :
      (s : Net os) (a : Addr) (i : ℕ)
      → neighbor_queue_from_addr os s a ≡ none
      → (add_queue os s a).1 ≡ some i
      → view os (add_queue os s a).0 a ≡ some []
  unfolding add_queue find_or_add init_entry neighbor_queue_from_addr
  add_queue-view s a i fresh e = elim (Option-cases (os.nbr_table_add_lladdr s.table a).1) [
    | inl full ↦ absurd (ground (arith, fresh, full, e))
    | inr (j, new) ↦ ground (
      arith,
      fresh,
      new,
      laws.get_add s.table a j new,
      (==_iff j j).1 refl,
      contents-renew (s.queue_of j),
    )
  ]
