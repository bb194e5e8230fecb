-- ===== src/Neighbors/Fifos.antt =====
-- The specification of the packet queues of tsch.c: a map from addresses to bounded FIFOs, and the
-- calls that a client makes of it.
use tsch_minimum.Prelude.{ℕ, Bool, Option, none, some, List, [], ◌∷◌, if◌then◌else◌}
use tsch_minimum.Contiki.{Addr}
use tsch_minimum.Queue.{TschPacket, new_packet}
use tsch_minimum.Queue.Fifo
use tsch_minimum.Queue.Fifo.{Fifo}

abbrev pub Fifos : Type 0
Fifos = Addr → Option Fifo

-- What a call answers: a status, or the packet that is read.
pub data Reply : Type 0 where
  status : ℕ → Reply
  packet : Option TschPacket → Reply

-- `add_packet_to_queue`, `remove_packet_from_queue` and `read_packet_from_queue`. The first number
-- of `add` is the queuebuf that holds the packet.
pub data Call : Type 0 where
  add : ℕ → ℕ → ℕ → Addr → Call
  remove : Addr → Call
  read : Addr → Call

abbrev pub status_of : Option ℕ → ℕ
status_of none = 0
status_of (some p) = 1

unfoldable pub add_to : TschPacket → Option Fifo → Option Fifo × ℕ
unfolding Fifo.add
add_to p none = (none, 0)
add_to p (some f) = let (f', r) = Fifo.add p f in (some f', r)

unfoldable pub remove_from : Option Fifo → Option Fifo × ℕ
unfolding Fifo.remove
remove_from none = (none, 0)
remove_from (some f) = let (f', r) = Fifo.remove f in (some f', status_of r)

unfoldable pub head_of : Option Fifo → Option TschPacket
unfolding Fifo.head
head_of none = none
head_of (some f) = Fifo.head f

module _ (cmp : Addr → Addr → Bool) where
  abbrev pub at : Fifos → Addr → Option Fifo → Fifos
  at m a f b = if cmp a b then f else m b

  unfoldable pub step : Fifos → Call → Fifos × Reply
  unfolding add_to remove_from head_of
  step m (add pkt sent ptr a) =
      let (f, r) = add_to (new_packet pkt sent ptr) (m a) in (at m a f, status r)
  step m (remove a) = let (f, r) = remove_from (m a) in (at m a f, status r)
  step m (read a) = (m, packet (head_of (m a)))

  unfoldable pub run : Fifos → List Call → List Reply
  run m [] = []
  run m (c ∷ cs) = let (m', r) = step m c in r ∷ run m' cs
