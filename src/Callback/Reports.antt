-- ===== src/Callback/Reports.antt =====
-- What `tsch_tx_callback_process` of tsch.c reports of a transmission.
use tsch_minimum.Prelude.{ℕ, ◌<◌, ◌≡◌, refl, ap, Bool, some}
use tsch_minimum.Contiki.{Contiki, Addr}
use tsch_minimum.Params.{Cell}
use tsch_minimum.Queue.{TschPacket}
use tsch_minimum.Neighbors.{Net, PacketRef, deref, read_packet_from_queue}
use tsch_minimum.Neighbors.Inv.{IsSound}
use tsch_minimum.Neighbors.Same.{read_at}
use tsch_minimum.Outcome.{RadioTx, finish_tx}
use tsch_minimum.Outcome.Inv.{finish_tx-IsSound}
use tsch_minimum.Callback.{Report, Adds, add_all, tsch_tx_callback_process}
use tsch_minimum.Callback.Spared.{IsSafe, add_all-IsSafe}
use tsch_minimum.Outcome.Safe.{reported, finish_tx-IsSafe}

abbrev pub report_of : TschPacket → Report
report_of t = record { sent = t.sent; ptr = t.ptr; ret = t.ret; transmissions = t.transmissions }

module _ (os : Contiki) where
  report-IsSafe :
      (s : Net os) (p : PacketRef) (t : TschPacket)
      → IsSafe os s p t
      → tsch_tx_callback_process os s (some p) ≡ some (report_of t)
  unfolding tsch_tx_callback_process
  report-IsSafe s p t h = ap (λ t. some (report_of t)) h.holds

  -- The transmission of the packet that is read for an address, with sound queues and a 16-bit
  -- random number: however many packets are added for whichever neighbors before
  -- tsch_tx_callback_process runs, it reports that packet's callback and pointer, the status that
  -- the result means, and the number of its transmissions, one more after a failure. The packet's
  -- slot, even if it was removed, is not given to another packet before.
  pub finish_tx_reported :
      (x : RadioTx) (s : Net os) (n : ℕ) (p : PacketRef) (cell : Cell) (bc : Bool) (random : ℕ)
      (a : Addr) (ps : Adds)
      → random < 65536
      → IsSound os s
      → read_packet_from_queue os s a ≡ some p
      → tsch_tx_callback_process os (add_all os ps (finish_tx os x s n p cell bc random)) (some p)
        ≡ some (report_of (reported x (deref os s p)))
  finish_tx_reported x s n p cell bc random a ps small sound found =
      let at_p = read_at os s a p found in
      report-IsSafe _ p _ (
        add_all-IsSafe os ps (finish_tx os x s n p cell bc random) p _
          (finish_tx-IsSound os x s n p cell bc random small sound)
          (finish_tx-IsSafe os x s n p cell bc random (deref os s p) (record {
            valid = sound.valid a p.0 at_p.0;
            at_head = at_p.1;
            some_wait = at_p.2;
            holds = refl;
          })))
