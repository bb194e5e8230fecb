-- ===== src/Input/History.antt =====
-- Which packets `packet_input` of tsch.c drops as duplicates: its eight entries stand for the whole
-- history of the packets that it let through.
use tsch_minimum.Prelude.{
  ℕ, zero, suc, ◌≡◌, refl, ap, ◌<◌, Bool, true, false, ◌&&◌, ◌||◌, Option, none, some, List, [],
  ◌∷◌, ◌==◌, if◌then◌else◌, take, map, replicate, arith,
}
use tsch_minimum.Prelude.Words.{u8}
use tsch_minimum.Contiki.{Contiki}
use tsch_minimum.Input.{
  Seqno, Packet, max_seqnos, is_duplicate, remember, packet_input, received_seqnos,
}

abbrev pub entry : Packet → Seqno
entry p = record { sender = p.sender_addr; seqno = u8 p.packet_id }

-- Sequence numbers are bytes.
abbrev pub AreBytes : List Packet → Type 0
AreBytes [] = 0 < 1
AreBytes (p ∷ ps) = (p.packet_id < 256) × AreBytes ps

-- What an entry of zero bytes stands for.
abbrev pub null_packet : Packet
null_packet = record { sender_addr = replicate 8 0; packet_id = 0 }

abbrev pub parsed : List (Option Packet) → List Packet
parsed [] = []
parsed (none ∷ ps) = parsed ps
parsed (some p ∷ ps) = p ∷ parsed ps

take-take : {A : Type 0} (n : ℕ) (xs : List A) → take n (take n xs) ≡ take n xs
take-take zero xs = refl
take-take (suc n) [] = refl
take-take (suc n) (x ∷ xs) = ap (λ t. x ∷ t) (take-take n xs)

take-map : (n : ℕ) (ps : List Packet) → take n (map entry ps) ≡ map entry (take n ps)
take-map zero ps = refl
take-map (suc n) [] = refl
take-map (suc n) (p ∷ ps) = ap (λ t. entry p ∷ t) (take-map n ps)

-- The last one pushed counts, and the others as far as they fit.
take-cons : {A : Type 0} (n : ℕ) (x : A) (xs : List A) → take n (x ∷ take n xs) ≡ take n (x ∷ xs)
take-cons zero x xs = refl
take-cons (suc zero) x xs = refl
take-cons (suc (suc n)) x [] = refl
take-cons (suc (suc n)) x (y ∷ ys) = ap (λ t. x ∷ t) (take-cons (suc n) y ys)

AreBytes-take : (n : ℕ) (ps : List Packet) → AreBytes ps → AreBytes (take n ps)
AreBytes-take zero ps h = omega arith
AreBytes-take (suc n) [] h = h
AreBytes-take (suc n) (p ∷ ps) (h, hs) = (h, AreBytes-take n ps hs)

module _ (os : Contiki) where
  open os use {rimeaddr_cmp}

  -- The same sender and the same number.
  pub same_packet : Packet → Packet → Bool
  same_packet p q = (p.packet_id == q.packet_id) && rimeaddr_cmp p.sender_addr q.sender_addr

  pub seen : Packet → List Packet → Bool
  unfolding same_packet
  seen p [] = false
  seen p (q ∷ qs) = same_packet p q || seen p qs

  -- The specification: a packet is let through unless it is among the last eight that were. The
  -- second argument lists all that were, the latest first.
  pub let_through : List (Option Packet) → List Packet → List Bool
  unfolding seen
  let_through [] log = []
  let_through (none ∷ ps) log = false ∷ let_through ps log
  let_through (some p ∷ ps) log =
      let rest = let_through ps log in
      let more = let_through ps (p ∷ log) in
      if seen p (take max_seqnos log) then false ∷ rest else true ∷ more

  pub delivered : List (Option Packet) → List Seqno → List Bool
  unfolding packet_input
  delivered [] ss = []
  delivered (p ∷ ps) ss = let (ss', d) = packet_input os p ss in d ∷ delivered ps ss'

  is_duplicate_lem :
      (p : Packet) (qs : List Packet) → AreBytes qs → is_duplicate os p (map entry qs) ≡ seen p qs
  unfolding is_duplicate seen same_packet
  is_duplicate_lem p [] h = refl
  is_duplicate_lem p (q ∷ qs) (h, hs) = ground (arith, is_duplicate_lem p qs hs)

  remember_lem :
      (p : Packet) (log : List Packet)
      → remember os p (take max_seqnos (map entry log)) ≡ take max_seqnos (map entry (p ∷ log))
  unfolding remember
  remember_lem p log = take-cons max_seqnos (entry p) (map entry log)

  delivered_from :
      (ps : List (Option Packet)) (log : List Packet)
      → AreBytes (parsed ps)
      → AreBytes log
      → delivered ps (take max_seqnos (map entry log)) ≡ let_through ps log
  unfolding delivered let_through packet_input
  delivered_from [] log h k = refl
  delivered_from (none ∷ ps) log h k = ap (λ t. false ∷ t) (delivered_from ps log h k)
  delivered_from (some p ∷ ps) log (h, hs) k = ground (
    arith,
    ap (λ t. is_duplicate os p t) (take-map max_seqnos log),
    is_duplicate_lem p (take max_seqnos log) (AreBytes-take max_seqnos log k),
    remember_lem p log,
    delivered_from ps log hs k,
    delivered_from ps (p ∷ log) hs (h, k),
  )

  -- From the start, of every sequence of packets whose numbers are bytes, exactly those are handed
  -- on that the specification lets through, if eight packets with the number 0 and the address of
  -- zero bytes count as let through before: such a packet is dropped among the first eight.
  pub delivered_lem :
      (ps : List (Option Packet))
      → AreBytes (parsed ps)
      → delivered ps received_seqnos ≡ let_through ps (replicate max_seqnos null_packet)
  delivered_lem ps h = delivered_from ps (replicate max_seqnos null_packet) h (omega arith)
