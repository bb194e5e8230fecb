-- ===== src/Associate/Receivers.antt =====
-- The receivers of the packets that wait when `tsch_associate` of tsch.c has made the queues.
use mathlib.Core.Path.{subst}
use tsch_minimum.Prelude.{ℕ, refl, sym, ◌||◌, Option, none, some, List, [], ◌∷◌, branch}
use tsch_minimum.Prelude.Words.{to_bool}
use tsch_minimum.Contiki.{Contiki, IsContiki, Addr}
use tsch_minimum.Params.{Cell, is_tx, is_time_keeping, links_list}
use tsch_minimum.Neighbors.{Net, neighbor_queue_from_addr}
use tsch_minimum.Neighbors.Addressed.{Everywhere}
use tsch_minimum.Neighbors.Receivers.{add_queue-Everywhere}
use tsch_minimum.Neighbors.Refine.{view}
use tsch_minimum.Neighbors.Same.{SameNet-set_queue, view-SameNet}
use tsch_minimum.Associate.{mark, queue_of_link, associate_link, associate_links, tsch_associate}

module _ (os : Contiki) (laws : IsContiki os) (P : Addr → ℕ → Type 0) where
  abbrev Kept : Net os → Type 0
  Kept s = Everywhere P (view os s)

  mark-Kept : (cell : Cell) (s : Net os) (o : Option ℕ) → Kept s → Kept (mark os cell (s, o))
  unfolding mark
  mark-Kept cell s none h = h
  mark-Kept cell s (some i) h =
      subst (Everywhere P)
        (sym (
          view-SameNet os (
            SameNet-set_queue os s i _
              (record { same_buffer = refl; same_put = refl; same_get = refl }))))
        h

  queue_of_link-Kept :
      (s : Net os) (a : Addr) (o : Option ℕ) → Kept s → Kept (queue_of_link os s a o).0
  unfolding queue_of_link
  queue_of_link-Kept s a none h = add_queue-Everywhere os laws P s a h
  queue_of_link-Kept s a (some i) h = h

  associate_link-Kept : (cell : Cell) (s : Net os) → Kept s → Kept (associate_link os cell s)
  unfolding associate_link
  associate_link-Kept cell s h =
      let o = neighbor_queue_from_addr os s cell.node_address in
      branch Kept (is_time_keeping cell || is_tx cell)
        (mark-Kept cell (queue_of_link os s cell.node_address o).0
          (queue_of_link os s cell.node_address o).1 (queue_of_link-Kept s cell.node_address o h))
        h

  associate_links-Kept :
      (cells : List Cell) (s : Net os) → Kept s → Kept (associate_links os cells s)
  unfolding associate_links
  associate_links-Kept [] s h = h
  associate_links-Kept (c ∷ cs) s h =
      associate_links-Kept cs (associate_link os c s) (associate_link-Kept c s h)

  -- After association what held of the packets in the queues still does.
  pub tsch_associate-Everywhere :
      (s : Net os) → Everywhere P (view os s) → Everywhere P (view os (tsch_associate os s))
  unfolding tsch_associate
  tsch_associate-Everywhere s h =
      branch Kept (to_bool s.working_on_queue) h (associate_links-Kept links_list s h)
