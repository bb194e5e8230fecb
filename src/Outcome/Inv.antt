-- ===== src/Outcome/Inv.antt =====
-- The result of a transmission keeps the neighbor queues of tsch.c sound; in particular the backoff
-- counters stay in their ranges.
use Prim.Native.Nat.{bit_and}
use tsch_minimum.Prelude.{
  min, ℕ, suc, zero, ◌+◌, ◌^◌, ◌≤◌, ◌<◌, ◌≡◌, refl, Bool, true, Option, none, some, arith, leb,
  ◌==◌, ◌&&◌, not, length-set, all_below, all_below→at, Bool-cases, inl, inr,
}
use tsch_minimum.Prelude.Words.{u8, shr}
use tsch_minimum.Contiki.{Contiki}
use tsch_minimum.Params.{Cell, is_shared}
use tsch_minimum.Queue.{
  NeighborQueue, TschPacket, slot, mac_min_be, mac_max_be, mac_max_frame_retries,
}
use tsch_minimum.Queue.Inv.{IsValid, set_slot-IsValid}
use tsch_minimum.Neighbors.{Net, PacketRef, deref}
use tsch_minimum.Neighbors.Inv.{IsSound, map_queue-IsSound, remove_packet_from_queue-IsSound}
use tsch_minimum.Outcome.{
  RadioTx, generate_random_byte, reset_backoff, back_off, count_transmission, change_packet,
  give_up, failed, clear_backoff, succeeded, handle, finish_tx, change_queue, remove_sent, set_ret,
}

-- A random byte under the mask `2 ^ be - 1`, for the exponents that occur.
masks :
    all_below 256 (λ x.
      leb (bit_and x 1) 1 && leb (bit_and x 3) 3 && leb (bit_and x 7) 7 && leb (bit_and x 15) 15)
    ≡ true
unfolding all_below
masks = refl

masked :
    (x : ℕ)
    → x < 256
    → (bit_and x 1 < 2) × (bit_and x 3 < 4) × (bit_and x 7 < 8) × (bit_and x 15 < 16)
masked x h = ground (
  arith,
  all_below→at 256 x
      (λ x.
        leb (bit_and x 1) 1 && leb (bit_and x 3) 3 && leb (bit_and x 7) 7 && leb (bit_and x 15) 15)
      masks,
)

random_in_window :
    (be random : ℕ)
    → mac_min_be ≤ be
    → be ≤ mac_max_be
    → random < 65536
    → generate_random_byte random (u8 (u8 (2 ^ be) + 255)) < 2 ^ be
unfolding generate_random_byte
random_in_window zero r low high h = absurd (omega arith)
random_in_window (suc zero) r low high h = (masked (shr r 8) (omega arith)).0
random_in_window (suc (suc zero)) r low high h = (masked (shr r 8) (omega arith)).1
random_in_window (suc (suc (suc zero))) r low high h = (masked (shr r 8) (omega arith)).2
random_in_window (suc (suc (suc (suc zero)))) r low high h = (masked (shr r 8) (omega arith)).3
random_in_window (suc (suc (suc (suc (suc n))))) r low high h = absurd (omega arith)

window-le : (be : ℕ) → be ≤ mac_max_be → 2 ^ be ≤ 16
window-le zero h = omega arith
window-le (suc zero) h = omega arith
window-le (suc (suc zero)) h = omega arith
window-le (suc (suc (suc zero))) h = omega arith
window-le (suc (suc (suc (suc zero)))) h = omega arith
window-le (suc (suc (suc (suc (suc n))))) h = absurd (omega arith)

-- After a failure in a shared slot the neighbor waits fewer slots than the window of its exponent,
-- and the exponent goes up by one, to macMaxBE at most.
pub back_off_window :
    {q : NeighborQueue} (random : ℕ)
    → IsValid q
    → random < 65536
    → let q' = back_off random q in
      (q'.bw_value < 2 ^ q.be_value) × (q'.be_value ≡ min (q.be_value + 1) mac_max_be)
unfolding back_off
back_off_window {q} random v h =
    (random_in_window q.be_value random v.be_low v.be_high h, ground arith)

back_off-IsValid :
    {q : NeighborQueue} (random : ℕ) → random < 65536 → IsValid q → IsValid (back_off random q)
unfolding back_off
back_off-IsValid {q} random h v =
    ground (arith, back_off_window random v h, window-le q.be_value v.be_high)

back_off-buffer : (random : ℕ) (q : NeighborQueue) → (back_off random q).buffer ≡ q.buffer
unfolding back_off
back_off-buffer random q = refl

clear_backoff-buffer :
    (os : Contiki) (o : Option PacketRef) (q : NeighborQueue)
    → (clear_backoff os o q).buffer ≡ q.buffer
unfolding clear_backoff
clear_backoff-buffer os none q = refl
clear_backoff-buffer os (some p) q = refl

clear_backoff-IsValid :
    (os : Contiki) (o : Option PacketRef) (q : NeighborQueue)
    → IsValid q
    → IsValid (clear_backoff os o q)
unfolding clear_backoff
clear_backoff-IsValid os none q v = omega arith
clear_backoff-IsValid os (some p) q v = omega arith

reset_backoff-buffer : (q : NeighborQueue) → (reset_backoff q).buffer ≡ q.buffer
unfolding reset_backoff
reset_backoff-buffer q = refl

reset_backoff-IsValid : (q : NeighborQueue) → IsValid q → IsValid (reset_backoff q)
unfolding reset_backoff
reset_backoff-IsValid q v = omega arith

module _ (os : Contiki) where
  change_packet-IsSound :
      (s : Net os) (p : PacketRef) (f : TschPacket → TschPacket)
      → IsSound os s
      → IsSound os (change_packet os s p f)
  change_packet-IsSound s (i, k) f h =
      map_queue-IsSound os s i _
        (ground (arith, h.shaped i, length-set (s.queue_of i).buffer k (f (slot (s.queue_of i) k))))
        (set_slot-IsValid k (f (slot (s.queue_of i) k))) h

  change_queue-IsSound :
      (s : Net os) (n : ℕ) (f : NeighborQueue → NeighborQueue)
      → ((q : NeighborQueue) → (f q).buffer ≡ q.buffer)
      → ((q : NeighborQueue) → IsValid q → IsValid (f q))
      → IsSound os s
      → IsSound os (change_queue os s n f)
  change_queue-IsSound s n f same keep h =
      map_queue-IsSound os s n _ (rw (same (s.queue_of n)) (h.shaped n)) (keep (s.queue_of n)) h

  remove_sent-IsSound :
      (s : Net os) (p : PacketRef) → IsSound os s → IsSound os (remove_sent os s p)
  remove_sent-IsSound s p h = remove_packet_from_queue-IsSound os s _ h

  give_up-IsSound :
      (s : Net os) (n : ℕ) (p : PacketRef) → IsSound os s → IsSound os (give_up os s n p)
  unfolding give_up
  give_up-IsSound s n p h =
      elim (Bool-cases ((deref os s p).transmissions == mac_max_frame_retries)) [
        | inl last ↦ rw last (
            change_queue-IsSound _ n reset_backoff reset_backoff-buffer reset_backoff-IsValid
              (remove_sent-IsSound s p h))
        | inr more ↦ rw more h
      ]

  failed-IsSound :
      (s : Net os) (n : ℕ) (p : PacketRef) (cell : Cell) (bc : Bool) (random : ℕ)
      → random < 65536
      → IsSound os s
      → IsSound os (failed os s n p cell bc random)
  unfolding failed
  failed-IsSound s n p cell bc random r h = elim (Bool-cases (is_shared cell && not bc)) [
    | inl shared ↦ rw shared (
        change_queue-IsSound _ n (back_off random) (back_off-buffer random)
          (λ q. back_off-IsValid random r) gave_up)
    | inr dedicated ↦ rw dedicated gave_up
  ]
    where
      gave_up : IsSound os (give_up os (change_packet os s p count_transmission) n p)
      gave_up = give_up-IsSound _ n p (change_packet-IsSound s p count_transmission h)

  succeeded-IsSound :
      (s : Net os) (n : ℕ) (p : PacketRef) (cell : Cell)
      → IsSound os s
      → IsSound os (succeeded os s n p cell)
  unfolding succeeded
  succeeded-IsSound s n p cell h =
      change_queue-IsSound _ n _ (clear_backoff-buffer os _) (clear_backoff-IsValid os _)
        (remove_sent-IsSound s p h)

  handle-IsSound :
      (success : RadioTx) (s : Net os) (n : ℕ) (p : PacketRef) (cell : Cell) (bc : Bool)
      (random : ℕ)
      → random < 65536
      → IsSound os s
      → IsSound os (handle os success s n p cell bc random).0
  unfolding handle
  handle-IsSound RadioTx.ok s n p cell bc random r h = succeeded-IsSound s n p cell h
  handle-IsSound RadioTx.other s n p cell bc random r h = succeeded-IsSound s n p cell h
  handle-IsSound RadioTx.err s n p cell bc random r h = failed-IsSound s n p cell bc random r h
  handle-IsSound RadioTx.collision s n p cell bc random r h =
      failed-IsSound s n p cell bc random r h
  handle-IsSound RadioTx.noack s n p cell bc random r h = failed-IsSound s n p cell bc random r h

  -- Whatever a transmission comes to, the queues stay sound: their indices in the buffers, and every
  -- neighbor's backoff exponent between macMinBE and macMaxBE and its counter below 16.
  pub finish_tx-IsSound :
      (success : RadioTx) (s : Net os) (n : ℕ) (p : PacketRef) (cell : Cell) (bc : Bool)
      (random : ℕ)
      → random < 65536
      → IsSound os s
      → IsSound os (finish_tx os success s n p cell bc random)
  unfolding finish_tx
  finish_tx-IsSound success s n p cell bc random r h =
      change_packet-IsSound _ p (set_ret (handle os success s n p cell bc random).1)
        (handle-IsSound success s n p cell bc random r h)
