-- ===== src/Powercycle/Queues/Spec.antt =====
-- The specification of what the events around powercycle of tsch.c do to the neighbor queues.
use tsch_minimum.Prelude.{◌≡◌, ◌⊎◌, Bool, true, ◌&&◌, List, [], ◌∷◌, some, ltb}
use tsch_minimum.Contiki.{Contiki, Addr}
use tsch_minimum.Queue.{TschPacket}
use tsch_minimum.Neighbors.Fifos
use tsch_minimum.Neighbors.Fifos.{Fifos, add, head_of, at}
use tsch_minimum.Outcome.{RadioTx}
use tsch_minimum.Outcome.Settle.{settle_at}
use tsch_minimum.Powercycle.Round.{Event, fires, interrupts, adds}

module _ (os : Contiki) where
  -- The packet at the head of one queue was transmitted with the result `x`.
  pub record Settles (m m' : Fifos) (a : Addr) (x : RadioTx) (p : TschPacket) : Type 0 where
    pub was_head : head_of (m a) ≡ some p
    pub settled : m' ≡ at os.rimeaddr_cmp m a (settle_at x (m a))

  -- The timer leaves the queues alone or settles one transmission, the interrupt leaves them alone,
  -- and a process adds a packet.
  abbrev pub Moves : Fifos → Event → Fifos → Type 0
  Moves m (fires r) m' =
      (m' ≡ m) ⊎ ((a : Addr) × (x : RadioTx) × (p : TschPacket) × Settles m m' a x p)
  Moves m (interrupts ack need_ack_irq rf r) m' = m' ≡ m
  Moves m (adds pkt sent ptr a) m' = m' ≡ (Fifos.step os.rimeaddr_cmp m (add pkt sent ptr a)).0

  abbrev pub Traces : Fifos → List Event → Fifos → Type 0
  Traces m [] m' = m' ≡ m
  Traces m (e ∷ es) m' = (m₁ : Fifos) × Moves m e m₁ × Traces m₁ es m'

  -- What is asked of the events: random_rand() gives 16 bits, and a packet is added to the queue of
  -- its receiver.
  abbrev pub is_proper : Event → Bool
  is_proper (fires r) = ltb r.random 65536
  is_proper (interrupts ack need_ack_irq rf r) = true
  is_proper (adds pkt sent ptr a) = os.rimeaddr_cmp (os.queuebuf_addr pkt) a

  abbrev pub are_proper : List Event → Bool
  are_proper [] = true
  are_proper (e ∷ es) = is_proper e && are_proper es
