-- ===== src/Associate.antt =====
-- How tsch.c starts: `init` and `tsch_associate`, which gives a queue to the neighbor of each link
-- that sends or keeps time.
pub mod Queues
pub mod Receivers
use tsch_minimum.Prelude.{
  ℕ, Bool, true, false, ◌||◌, Option, none, some, List, [], ◌∷◌, if◌then◌else◌,
}
use tsch_minimum.Prelude.Words.{to_bool}
use tsch_minimum.Contiki.{Contiki, Addr}
use tsch_minimum.Params.{Cell, is_tx, is_time_keeping, links_list}
use tsch_minimum.Neighbors.{Net, set_queue, neighbor_queue_from_addr, add_queue}

module _ (os : Contiki) where
  mark : Cell → Net os × Option ℕ → Net os
  mark cell (s, none) = s
  mark cell (s, some i) =
      let q = s.queue_of i in
      set_queue os s i
        (record q { time_source = if is_time_keeping cell then 1 else q.time_source })

  queue_of_link : Net os → Addr → Option ℕ → Net os × Option ℕ
  queue_of_link s addr (some i) = (s, some i)
  queue_of_link s addr none = add_queue os s addr

  -- One round of the loop over `links_list`.
  pub associate_link : Cell → Net os → Net os
  unfolding mark queue_of_link
  associate_link cell s =
      if is_time_keeping cell || is_tx cell
      then mark cell
          (queue_of_link s cell.node_address (neighbor_queue_from_addr os s cell.node_address))
      else s

  pub associate_links : List Cell → Net os → Net os
  unfolding associate_link
  associate_links [] s = s
  associate_links (c ∷ cs) s = associate_links cs (associate_link c s)

  pub tsch_associate : Net os → Net os
  unfolding associate_links
  tsch_associate s = if to_bool s.working_on_queue then s else associate_links links_list s
