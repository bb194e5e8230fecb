-- ===== src/Powercycle/Settles.antt =====
-- What a call in a slot of powercycle of tsch.c that sends does to the queues: nothing before the
-- slot ends, and at its end what finish_tx does for the result of the transmission.
pub mod Calls
pub mod Slot
use tsch_minimum.Prelude.{
  ℕ, List, ◌≡◌, refl, Bool, true, false, not, arith, ◌||◌, Option, none, some, if◌then◌else◌,
}
use tsch_minimum.Contiki.{Contiki}
use tsch_minimum.Params.{Cell}
use tsch_minimum.Neighbors.{Net, PacketRef}
use tsch_minimum.Neighbors.Fifos.{at}
use tsch_minimum.SharedTx.{Cursor}
use tsch_minimum.Sync.{is_ack_of}
use tsch_minimum.Outcome.{RadioTx, finish_tx}
use tsch_minimum.Powercycle.{Point, Cycle, Readings, mac_on, mac_off, arm, wait_until, end_round}
use tsch_minimum.Powercycle.Transmit.{
  conclude_at, conclude, sent_off, ack_done, ack_bytes, with_ack, read_ack, ack_detected, hears,
  listen_for_ack, listen_again, is_ok, transmitted, was_sent, send_now,
}
use tsch_minimum.Powercycle.Round.{powercycle, resume}
use tsch_minimum.Powercycle.Graph.{in_slot, is_some}
use tsch_minimum.Powercycle.Live.{sends}

-- The result of the transmission at a call of the protothread, where the call comes to one: the
-- radio did not send, or it sent a broadcast; nothing was heard in the guard time; or something
-- was received, which is the acknowledgment or not.
abbrev pub ack_result : Readings → ℕ → ℕ → RadioTx
ack_result r len seqno =
    let (buf, len') = ack_bytes r len in
    if is_ack_of buf len' seqno then RadioTx.ok else RadioTx.noack

abbrev pub heard_result : Readings → ℕ → ℕ → Option RadioTx
heard_result r len seqno = if r.pending_later then some (ack_result r len seqno) else none

abbrev pub result : Point → Readings → Bool → ℕ → ℕ → Option RadioTx
result Point.before_tx r bc len seqno =
    if is_ok r.sent then (if bc then some RadioTx.ok else none) else some r.sent
result Point.before_ack r bc len seqno = if hears r then heard_result r len seqno else none
result Point.ack_guard r bc len seqno =
    if r.stack_cca || hears r then heard_result r len seqno else some RadioTx.noack
result Point.ack_watchdog r bc len seqno = some (ack_result r len seqno)
result p r bc len seqno = none

-- What holds of both branches of two tests on the same holds of the tests.
branch₂ {ℓ ℓ' ℓ''} :
    {A : Type ℓ} {B : Type ℓ'} (holds : A → B → Type ℓ'') (b : Bool) {x y : A} {x' y' : B}
    → holds x x'
    → holds y y'
    → holds (if b then x else y) (if b then x' else y')
branch₂ holds true hx hy = hx
branch₂ holds false hx hy = hy

module _ (os : Contiki) (r : Readings) (n : ℕ) (p : PacketRef) (cell : Cell) where
  -- The slot sends the packet `p` of the neighbor `n` in the cell `cell`.
  pub record IsSending (s : Cycle os) : Type 0 where
    pub neighbor : s.n ≡ some n
    pub packet : s.p ≡ some p
    pub its_cell : s.cell ≡ some cell

  abbrev pub net_after : Net os → Bool → Option RadioTx → Net os
  net_after net bc none = net
  net_after net bc (some x) = finish_tx os x net n p cell bc r.random

  abbrev Leaves : Net os → Cursor → Bool → Option (Cycle os) → Option RadioTx → Type 0
  Leaves net last bc none x = ⊥
  Leaves net last bc (some s) x =
      (s.net ≡ net_after net bc x)
      × (in_slot s.point ≡ not (is_some x))
      × (sends s.point ≡ not (is_some x))
      × IsSending s
      × (s.last ≡ last)

  conclude-Leaves :
      (x : RadioTx) (s : Cycle os)
      → IsSending s
      → Leaves s.net s.last s.is_broadcast (conclude os x r s) (some x)
  unfolding conclude conclude_at end_round arm
  conclude-Leaves x s h =
      rw (h.neighbor, h.packet, h.its_cell)
        (refl, refl, refl, record { neighbor = refl; packet = refl; its_cell = refl }, refl)

  sent_off-Leaves :
      (x : RadioTx) (s : Cycle os)
      → IsSending s
      → Leaves s.net s.last s.is_broadcast (sent_off os x r s) (some x)
  unfolding sent_off mac_off
  sent_off-Leaves x s h =
      conclude-Leaves x (mac_off os s.keep_radio_on (record s { we_are_sending = false }))
        (record { neighbor = h.neighbor; packet = h.packet; its_cell = h.its_cell })

  ack_done-Leaves :
      (x : RadioTx) (s : Cycle os)
      → IsSending s
      → Leaves s.net s.last s.is_broadcast (ack_done os x r s) (some x)
  unfolding ack_done
  ack_done-Leaves x s h =
      sent_off-Leaves x (record s { waiting_for_radio_interrupt = false })
        (record { neighbor = h.neighbor; packet = h.packet; its_cell = h.its_cell })

  read_ack-Leaves :
      (s : Cycle os)
      → IsSending s
      → Leaves s.net s.last s.is_broadcast (read_ack os r s) (some (ack_result r s.len s.seqno))
  unfolding read_ack
  read_ack-Leaves s h =
      let (buf, len) = ack_bytes r s.len in
      branch₂ (λ o x. Leaves s.net s.last s.is_broadcast o (some x)) (is_ack_of buf len s.seqno)
        (ack_done-Leaves RadioTx.ok (with_ack os buf len s)
          (record { neighbor = h.neighbor; packet = h.packet; its_cell = h.its_cell }))
        (ack_done-Leaves RadioTx.noack (record s { len = len })
          (record { neighbor = h.neighbor; packet = h.packet; its_cell = h.its_cell }))

  ack_detected-Leaves :
      (s : Cycle os)
      → IsSending s
      → Leaves s.net s.last s.is_broadcast (ack_detected os r s) (heard_result r s.len s.seqno)
  unfolding ack_detected wait_until arm
  ack_detected-Leaves s h =
      branch₂ (Leaves s.net s.last s.is_broadcast) r.pending_later (read_ack-Leaves s h) (
        refl,
        refl,
        refl,
        record { neighbor = h.neighbor; packet = h.packet; its_cell = h.its_cell },
        refl,
      )

  listen_for_ack-Leaves :
      (s : Cycle os)
      → IsSending s
      → Leaves s.net s.last s.is_broadcast
          (listen_for_ack os r s)
          (if hears r then heard_result r s.len s.seqno else none)
  unfolding listen_for_ack wait_until arm mac_on
  listen_for_ack-Leaves s h =
      branch₂ (Leaves s.net s.last s.is_broadcast) (hears r)
        (ack_detected-Leaves (mac_on os (record s { waiting_for_radio_interrupt = true }))
          (record { neighbor = h.neighbor; packet = h.packet; its_cell = h.its_cell }))
        (
          refl,
          refl,
          refl,
          record { neighbor = h.neighbor; packet = h.packet; its_cell = h.its_cell },
          refl,
        )

  listen_again-Leaves :
      (s : Cycle os)
      → IsSending s
      → Leaves s.net s.last s.is_broadcast
          (listen_again os r s)
          (if r.stack_cca || hears r then heard_result r s.len s.seqno else some RadioTx.noack)
  unfolding listen_again
  listen_again-Leaves s h =
      branch₂ (Leaves s.net s.last s.is_broadcast) (r.stack_cca || hears r)
        (ack_detected-Leaves s h) (ack_done-Leaves RadioTx.noack s h)

  was_sent-Leaves :
      (s : Cycle os)
      → IsSending s
      → Leaves s.net s.last s.is_broadcast
          (was_sent os r s)
          (if s.is_broadcast then some RadioTx.ok else none)
  unfolding was_sent wait_until arm
  was_sent-Leaves s h =
      branch₂ (Leaves s.net s.last s.is_broadcast) s.is_broadcast (sent_off-Leaves RadioTx.ok s h) (
        refl,
        refl,
        refl,
        record { neighbor = h.neighbor; packet = h.packet; its_cell = h.its_cell },
        refl,
      )

  send_now-Leaves :
      (s : Cycle os)
      → IsSending s
      → Leaves s.net s.last s.is_broadcast
          (send_now os r s)
          (result Point.before_tx r s.is_broadcast s.len s.seqno)
  unfolding send_now mac_off
  send_now-Leaves s h =
      let s' = mac_off os s.keep_radio_on (transmitted os r s) in
      let h' : IsSending s' = record {
        neighbor = h.neighbor;
        packet = h.packet;
        its_cell = h.its_cell;
      } in
      branch₂ (Leaves s.net s.last s.is_broadcast) (is_ok r.sent) (was_sent-Leaves s' h')
        (conclude-Leaves r.sent s' h')

  powercycle-Leaves :
      (payload : ℕ → List ℕ) (q : Point) (s : Cycle os)
      → sends q ≡ true
      → IsSending s
      → Leaves s.net s.last s.is_broadcast
          (powercycle os payload q r s)
          (result q r s.is_broadcast s.len s.seqno)
  unfolding powercycle
  powercycle-Leaves payload Point.before_tx s e h = send_now-Leaves s h
  powercycle-Leaves payload Point.before_ack s e h = listen_for_ack-Leaves s h
  powercycle-Leaves payload Point.ack_guard s e h = listen_again-Leaves s h
  powercycle-Leaves payload Point.ack_watchdog s e h = read_ack-Leaves s h
  powercycle-Leaves payload q s e h = absurd (ground (arith, e))

  left :
      (net : Net os) (last : Cursor) (bc : Bool) (o : Option (Cycle os)) (x : Option RadioTx)
      → Leaves net last bc o x
      → (s : Cycle os) × (o ≡ some s) × Leaves net last bc (some s) x
  left net last bc none x h = absurd h
  left net last bc (some s) x h = (s, refl, h)

  -- What a call of the protothread in a slot that sends does to the queues, and where it leaves the
  -- slot.
  pub call_leaves :
      (payload : ℕ → List ℕ) (s : Cycle os)
      → sends s.point ≡ true
      → IsSending s
      → let x = result s.point r s.is_broadcast s.len s.seqno in
        (s' : Cycle os) × (resume os payload r s ≡ some s')
        × (s'.net ≡ net_after s.net s.is_broadcast x)
        × (in_slot s'.point ≡ not (is_some x))
        × (sends s'.point ≡ not (is_some x))
        × IsSending s'
        × (s'.last ≡ s.last)
  unfolding resume
  call_leaves payload s e h =
      let (s', f, l) =
        left s.net s.last s.is_broadcast (resume os payload r s)
          (result s.point r s.is_broadcast s.len s.seqno)
          (powercycle-Leaves payload s.point (record s { timer = none }) e
            (record { neighbor = h.neighbor; packet = h.packet; its_cell = h.its_cell })) in
      (s', f, l.0, l.1, l.2, l.3, l.4)
