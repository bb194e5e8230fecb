-- ===== src/Outcome/Table.antt =====
-- The neighbor table of tsch.c under the result of a transmission, which writes queues alone.
use tsch_minimum.Prelude.{ℕ, ◌≡◌, refl, Bool, ◌&&◌, not, ◌==◌, branch}
use tsch_minimum.Contiki.{Contiki}
use tsch_minimum.Params.{Cell, is_shared}
use tsch_minimum.Queue.{mac_max_frame_retries}
use tsch_minimum.Neighbors.{Net, PacketRef, deref}
use tsch_minimum.Neighbors.Same.{remove-table}
use tsch_minimum.Outcome.{
  RadioTx, count_transmission, change_packet, give_up, failed, succeeded, handle, finish_tx,
}

module _ (os : Contiki) where
  give_up-table : (s : Net os) (n : ℕ) (p : PacketRef) → (give_up os s n p).table ≡ s.table
  unfolding give_up
  give_up-table s n p =
      branch (λ (t : Net os). t.table ≡ s.table)
        ((deref os s p).transmissions == mac_max_frame_retries)
        (remove-table os s (os.queuebuf_addr (deref os s p).pkt)) refl

  failed-table :
      (s : Net os) (n : ℕ) (p : PacketRef) (cell : Cell) (bc : Bool) (random : ℕ)
      → (failed os s n p cell bc random).table ≡ s.table
  unfolding failed
  failed-table s n p cell bc random =
      let given = give_up-table (change_packet os s p count_transmission) n p in
      branch (λ (t : Net os). t.table ≡ s.table) (is_shared cell && not bc) given given

  handle-table :
      (x : RadioTx) (s : Net os) (n : ℕ) (p : PacketRef) (cell : Cell) (bc : Bool) (random : ℕ)
      → (handle os x s n p cell bc random).0.table ≡ s.table
  unfolding handle succeeded
  handle-table RadioTx.ok s n p cell bc random =
      remove-table os s (os.queuebuf_addr (deref os s p).pkt)
  handle-table RadioTx.other s n p cell bc random =
      remove-table os s (os.queuebuf_addr (deref os s p).pkt)
  handle-table RadioTx.noack s n p cell bc random = failed-table s n p cell bc random
  handle-table RadioTx.collision s n p cell bc random = failed-table s n p cell bc random
  handle-table RadioTx.err s n p cell bc random = failed-table s n p cell bc random

  pub finish_tx-table :
      (x : RadioTx) (s : Net os) (n : ℕ) (p : PacketRef) (cell : Cell) (bc : Bool) (random : ℕ)
      → (finish_tx os x s n p cell bc random).table ≡ s.table
  unfolding finish_tx
  finish_tx-table x s n p cell bc random = handle-table x s n p cell bc random
