-- ===== src/Outcome/Settle.antt =====
-- The specification of what the result of a transmission means for the packets that wait, in
-- powercycle of tsch.c.
use tsch_minimum.Prelude.{◌+◌, Option, none, some, [], ◌∷◌, ◌==◌, if◌then◌else◌}
use tsch_minimum.Prelude.Words.{u8}
use tsch_minimum.Queue.{TschPacket, MacTx, mac_max_frame_retries}
use tsch_minimum.Queue.Fifo.{Fifo}
use tsch_minimum.Outcome.{RadioTx, set_ret}

-- The packet after a transmission that failed.
abbrev pub tried : MacTx → TschPacket → TschPacket
tried ret p = set_ret ret (record p { transmissions = u8 (p.transmissions + 1) })

-- The packet at the head stays for another try, or goes after macMaxFrameRetries of them.
abbrev pub retry : MacTx → Fifo → Fifo
retry ret [] = []
retry ret (p ∷ f) = if u8 (p.transmissions + 1) == mac_max_frame_retries then f else tried ret p ∷ f

abbrev pub sent : Fifo → Fifo
sent [] = []
sent (p ∷ f) = f

-- What is left to send to a neighbor after a transmission of the packet at the head.
abbrev pub settle : RadioTx → Fifo → Fifo
settle RadioTx.ok = sent
settle RadioTx.other = sent
settle RadioTx.noack = retry MacTx.noack
settle RadioTx.collision = retry MacTx.collision
settle RadioTx.err = retry MacTx.err

abbrev pub settle_at : RadioTx → Option Fifo → Option Fifo
settle_at r none = none
settle_at r (some f) = some (settle r f)
