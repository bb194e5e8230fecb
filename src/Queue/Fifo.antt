-- ===== src/Queue/Fifo.antt =====
-- The specification of a neighbor's packet queue (`struct neighbor_queue` of tsch.c): a list of
-- packets, oldest first, that refuses a packet when it is full.
use tsch_minimum.Prelude.{
  ℕ, ◌-◌, Option, none, some, List, [], ◌∷◌, ◌++◌, length, ◌==◌, if◌then◌else◌,
}
use tsch_minimum.Queue.{TschPacket, nbr_buffer_size}

abbrev pub Fifo : Type 0
Fifo = List TschPacket

-- One slot of the circular buffer stays free.
abbrev pub capacity : ℕ
capacity = nbr_buffer_size - 1

unfoldable pub add : TschPacket → Fifo → Fifo × ℕ
add p f = if length f == capacity then (f, 0) else (f ++ (p ∷ []), 1)

unfoldable pub remove : Fifo → Fifo × Option ℕ
remove [] = ([], none)
remove (p ∷ f) = (f, some p.pkt)

unfoldable pub head : Fifo → Option TschPacket
head [] = none
head (p ∷ f) = some p
