-- ===== src/Outcome.antt =====
-- What powercycle of tsch.c does with the result of a transmission: retries, backoff, and the
-- packet's status.
pub mod Inv
pub mod Table
pub mod Safe
pub mod Settle
mod Views
mod Counted
pub mod Retry
use Prim.Native.Nat.{bit_and}
use tsch_minimum.Prelude.{
  ℕ, ◌+◌, ◌^◌, ◌%◌, ◌/◌, Bool, ◌&&◌, not, Option, none, some, ltb, ◌==◌, if◌then◌else◌,
}
use tsch_minimum.Prelude.Words.{u8, shr}
use tsch_minimum.Contiki.{Contiki, Addr}
use tsch_minimum.Params.{Cell, is_shared}
use tsch_minimum.Queue.{
  NeighborQueue, TschPacket, MacTx, slot, set_slot, mac_min_be, mac_max_be, mac_max_frame_retries,
}
use tsch_minimum.Neighbors.{
  Net, PacketRef, deref, set_queue, remove_packet_from_queue, read_packet_from_queue,
}

-- The values of `success`: Contiki's RADIO_TX_ codes, and any other number.
pub data RadioTx : Type 0 where
  ok err collision noack other : RadioTx

-- `random` is what random_rand() returns.
pub generate_random_byte : ℕ → ℕ → ℕ
generate_random_byte random window = bit_and (shr random 8) window

pub reset_backoff : NeighborQueue → NeighborQueue
reset_backoff q = record q { be_value = mac_min_be; bw_value = 0 }

-- A random number of shared slots to wait, below a window that doubles each time.
pub back_off : ℕ → NeighborQueue → NeighborQueue
back_off random q =
    let window = u8 (2 ^ q.be_value) in
    let be = u8 (q.be_value + 1) in
    record q {
      bw_value = generate_random_byte random (u8 (window + 255));
      be_value = if ltb mac_max_be be then mac_max_be else be;
    }

pub count_transmission : TschPacket → TschPacket
count_transmission p = record p { transmissions = u8 (p.transmissions + 1) }

abbrev pub set_ret : MacTx → TschPacket → TschPacket
set_ret ret p = record p { ret = ret }

module _ (os : Contiki) where
  open os use {queuebuf_addr}

  abbrev pub change_queue : Net os → ℕ → (NeighborQueue → NeighborQueue) → Net os
  change_queue s i f = set_queue os s i (f (s.queue_of i))

  abbrev pub change_packet : Net os → PacketRef → (TschPacket → TschPacket) → Net os
  change_packet s (i, k) f = change_queue s i (λ q. set_slot q k (f (slot q k)))

  -- The packet's receiver, and the removal of the packet at the head of that neighbor's queue.
  abbrev pub remove_sent : Net os → PacketRef → Net os
  remove_sent s p = (remove_packet_from_queue os s (queuebuf_addr (deref os s p).pkt)).0

  -- The three branches for a failure do the same: `n` is the neighbor of the cell.
  pub give_up : Net os → ℕ → PacketRef → Net os
  give_up s n p =
      if (deref os s p).transmissions == mac_max_frame_retries
      then change_queue (remove_sent s p) n reset_backoff
      else s

  pub failed : Net os → ℕ → PacketRef → Cell → Bool → ℕ → Net os
  failed s n p cell is_broadcast random =
      let s₁ = give_up (change_packet s p count_transmission) n p in
      if is_shared cell && not is_broadcast then change_queue s₁ n (back_off random) else s₁

  pub clear_backoff : Option PacketRef → NeighborQueue → NeighborQueue
  clear_backoff none q = record q { bw_value = 0; be_value = mac_min_be }
  clear_backoff (some p) q = record q { bw_value = 0 }

  -- The branches for RADIO_TX_OK and for a value that is no RADIO_TX_ code.
  pub succeeded : Net os → ℕ → PacketRef → Cell → Net os
  succeeded s n p cell =
      let s₁ = remove_sent s p in
      change_queue s₁ n (clear_backoff (read_packet_from_queue os s₁ cell.node_address))

  pub handle : RadioTx → Net os → ℕ → PacketRef → Cell → Bool → ℕ → Net os × MacTx
  handle RadioTx.noack s n p cell bc random = (failed s n p cell bc random, MacTx.noack)
  handle RadioTx.collision s n p cell bc random = (failed s n p cell bc random, MacTx.collision)
  handle RadioTx.err s n p cell bc random = (failed s n p cell bc random, MacTx.err)
  handle RadioTx.ok s n p cell bc random = (succeeded s n p cell, MacTx.ok)
  handle RadioTx.other s n p cell bc random = (succeeded s n p cell, MacTx.ok)

  -- The whole: the status is stored in the packet, whose slot is then posted to
  -- tsch_tx_callback_process.
  pub finish_tx : RadioTx → Net os → ℕ → PacketRef → Cell → Bool → ℕ → Net os
  finish_tx success s n p cell is_broadcast random =
      let (s₁, ret) = handle success s n p cell is_broadcast random in
      change_packet s₁ p (set_ret ret)
