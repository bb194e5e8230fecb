-- ===== src/Associate/Queues.antt =====
-- The queues that `tsch_associate` of tsch.c makes are valid.
use tsch_minimum.Prelude.{ℕ, ◌||◌, Option, none, some, List, [], ◌∷◌, Bool-cases, inl, inr}
use tsch_minimum.Prelude.Words.{to_bool}
use tsch_minimum.Contiki.{Contiki, IsContiki, Addr}
use tsch_minimum.Params.{Cell, is_tx, is_time_keeping, links_list}
use tsch_minimum.Neighbors.{Net, neighbor_queue_from_addr}
use tsch_minimum.Neighbors.Inv.{IsSound, map_queue-IsSound, add_queue-IsSound}
use tsch_minimum.Associate.{mark, queue_of_link, associate_link, associate_links, tsch_associate}

module _ (os : Contiki) (laws : IsContiki os) where
  mark-IsSound :
      (cell : Cell) (s : Net os) (o : Option ℕ) → IsSound os s → IsSound os (mark os cell (s, o))
  unfolding mark
  mark-IsSound cell s none h = h
  mark-IsSound cell s (some i) h =
      map_queue-IsSound os s i _ (h.shaped i)
        (λ v. record {
          slots = v.slots;
          put_in = v.put_in;
          get_in = v.get_in;
          be_low = v.be_low;
          be_high = v.be_high;
          bw_high = v.bw_high;
        })
        h

  queue_of_link-IsSound :
      (s : Net os) (a : Addr) (o : Option ℕ) → IsSound os s → IsSound os (queue_of_link os s a o).0
  unfolding queue_of_link
  queue_of_link-IsSound s a none h = add_queue-IsSound os laws s a h
  queue_of_link-IsSound s a (some i) h = h

  associate_link-IsSound :
      (cell : Cell) (s : Net os) → IsSound os s → IsSound os (associate_link os cell s)
  unfolding associate_link
  associate_link-IsSound cell s h =
      let a = cell.node_address in
      let o = neighbor_queue_from_addr os s a in
      elim (Bool-cases (is_time_keeping cell || is_tx cell)) [
        | inl used ↦ rw used (
            mark-IsSound cell (queue_of_link os s a o).0 (queue_of_link os s a o).1
              (queue_of_link-IsSound s a o h))
        | inr unused ↦ rw unused h
      ]

  pub associate_links-IsSound :
      (cells : List Cell) (s : Net os) → IsSound os s → IsSound os (associate_links os cells s)
  unfolding associate_links
  associate_links-IsSound [] s h = h
  associate_links-IsSound (c ∷ cs) s h =
      associate_links-IsSound cs (associate_link os c s) (associate_link-IsSound c s h)

  -- Association keeps every queue valid.
  pub tsch_associate-IsSound : (s : Net os) → IsSound os s → IsSound os (tsch_associate os s)
  unfolding tsch_associate
  tsch_associate-IsSound s h = elim (Bool-cases (to_bool s.working_on_queue)) [
    | inl busy ↦ rw busy h
    | inr free ↦ rw free (associate_links-IsSound links_list s h)
  ]
