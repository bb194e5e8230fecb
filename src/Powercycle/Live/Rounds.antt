-- ===== src/Powercycle/Live/Rounds.antt =====
-- Every round of powercycle of tsch.c goes on to the start of the next slot.
use mathlib.Core.Path.{subst}
use tsch_minimum.Prelude.{
  branch, ℕ, suc, List, [], ◌∷◌, sym, ◌≤◌, ◌≡◌, ◌≢◌, refl, true, false, ◌&&◌, not, Option, none,
  some, arith, if◌then◌else◌, Bool-cases, inl, inr, length, ◌==◌,
}
use tsch_minimum.Prelude.Words.{to_bool}
use tsch_minimum.Contiki.{Contiki, IsContiki}
use tsch_minimum.Params.{Cell, CellDecision, is_tx, tsch_off}
use mathlib.Core.Option.{some-injective}
use tsch_minimum.Neighbors.{Net, PacketRef, deref}
use tsch_minimum.Neighbors.Addressed.{HeadsBuffered}
use tsch_minimum.Neighbors.Same.{SameNet}
use tsch_minimum.SharedTx.Finds.{IsFirst}
use tsch_minimum.Decide.Picks.{IsChosen, decide_cell-IsChosen}
use tsch_minimum.SharedTx.{InTable}
use tsch_minimum.Time.{get_cell}
use tsch_minimum.Decide.{Choice, is_cell_tx}
use tsch_minimum.Decide.Total.{MaySend, decide_cell_total}
use tsch_minimum.Powercycle.{Point, RadioCall, Cycle, Readings, call, mac_off}
use tsch_minimum.Powercycle.Round.{
  off_slot, act, decided, open_slot, begin_slot, loop, start, powercycle, resume,
}
use tsch_minimum.Powercycle.Graph.{in_slot, leads, IsPowered}
use tsch_minimum.Powercycle.Graph.Slots.{resume-Yields}
use tsch_minimum.Powercycle.Live.{
  sends, has_packet, is_traced, IsLive, Goes, end_round-IsLive, read_ack-Goes, listen_for_ack-Goes,
  listen_again-Goes, send_now-Goes,
}
use tsch_minimum.Powercycle.Live.Slots.{
  begin_rx-IsLive, listen-IsLive, guard_over-Goes, acknowledge-Goes, begin_tx-Goes,
}

-- The most calls that a slot still takes.
abbrev pub calls_left : Point → ℕ
calls_left Point.before_tx = 4
calls_left Point.before_ack = 3
calls_left Point.ack_guard = 2
calls_left Point.ack_watchdog = 1
calls_left Point.before_rx = 3
calls_left Point.rx_guard = 2
calls_left Point.before_send_ack = 1
calls_left p = 0

leads-left : (q p : Point) → in_slot q ≡ true → leads q p ≡ true → suc (calls_left p) ≤ calls_left q
leads-left Point.before_tx Point.before_ack i l = ground arith
leads-left Point.before_tx Point.asleep i l = ground arith
leads-left Point.before_ack Point.ack_guard i l = ground arith
leads-left Point.before_ack Point.ack_watchdog i l = ground arith
leads-left Point.before_ack Point.asleep i l = ground arith
leads-left Point.ack_guard Point.ack_watchdog i l = ground arith
leads-left Point.ack_guard Point.asleep i l = ground arith
leads-left Point.ack_watchdog Point.asleep i l = ground arith
leads-left Point.before_rx Point.rx_guard i l = ground arith
leads-left Point.rx_guard Point.before_send_ack i l = ground arith
leads-left Point.rx_guard Point.asleep i l = ground arith
leads-left Point.before_send_ack Point.asleep i l = ground arith
leads-left q p i l = absurd (ground (arith, i, l))

most_calls : (p : Point) → calls_left p ≤ 4
most_calls Point.start_up = omega arith
most_calls p = omega arith

none_left : (p : Point) → calls_left p ≤ 0 → in_slot p ≡ false
none_left Point.start_up h = refl
none_left Point.asleep h = refl
none_left Point.ended h = refl
none_left p h = absurd (omega (arith, h))

module _ (os : Contiki) (payload : ℕ → List ℕ) where
  powercycle-Goes :
      (q : Point) (r : Readings) (s : Cycle os)
      → in_slot q ≡ true
      → (sends q ≡ true → has_packet os s ≡ true)
      → is_traced os s ≡ true
      → Goes os (powercycle os payload q r s)
  unfolding powercycle
  powercycle-Goes Point.before_tx r s i h t = send_now-Goes os r s (h refl) t
  powercycle-Goes Point.before_ack r s i h t = listen_for_ack-Goes os r s (h refl) t
  powercycle-Goes Point.ack_guard r s i h t = listen_again-Goes os r s (h refl) t
  powercycle-Goes Point.ack_watchdog r s i h t = read_ack-Goes os r s (h refl)
  powercycle-Goes Point.before_rx r s i h t = listen-IsLive os r s t
  powercycle-Goes Point.rx_guard r s i h t = guard_over-Goes os r s t
  powercycle-Goes Point.before_send_ack r s i h t = acknowledge-Goes os r s t
  powercycle-Goes q r s i h t = absurd (ground (arith, i))

  -- What goes on, goes on to a state.
  arrives : (o : Option (Cycle os)) → Goes os o → (s : Cycle os) × (o ≡ some s) × IsLive os s
  arrives none h = absurd h
  arrives (some s) h = (s, refl, h)

  pub resume-IsLive :
      (r : Readings) (s : Cycle os)
      → in_slot s.point ≡ true
      → IsLive os s
      → (s' : Cycle os) × (resume os payload r s ≡ some s') × IsLive os s'
  unfolding resume
  resume-IsLive r s i h =
      arrives (resume os payload r s)
        (powercycle-Goes s.point r (record s { timer = none }) i h.packet (h.traced i))

  -- The protothread called by the timer until the slot is over, once for each of `rs` at most.
  unfoldable pub finish_slot : List Readings → Cycle os → Option (Cycle os)
  finish_slot [] s = some s
  finish_slot (r ∷ rs) s =
      let rest : Option (Cycle os) = elim (resume os payload r s) [
        | none ↦ none
        | some s' ↦ finish_slot rs s'
      ] in
      if in_slot s.point then rest else some s

  finish_slot_ends :
      (rs : List Readings) (s : Cycle os)
      → IsPowered os s
      → IsLive os s
      → calls_left s.point ≤ length rs
      → (s' : Cycle os) × (finish_slot rs s ≡ some s') × (in_slot s'.point ≡ false)
  unfolding finish_slot
  finish_slot_ends [] s p h n = (s, refl, none_left s.point n)
  finish_slot_ends (r ∷ rs) s p h n = elim (Bool-cases (in_slot s.point)) [
    | inl i ↦
        let (t, e, live) = resume-IsLive r s i h in
        let y = resume-Yields os payload r s t p e in
        let (s', f, over) =
          finish_slot_ends rs t y.is_powered live
            (omega (arith, leads-left s.point t.point i y.follows)) in
        (s', rw (i, e) f, over)
    | inr o ↦ (s, rw o refl, o)
  ]

module _ (os : Contiki) (laws : IsContiki os) (payload : ℕ → List ℕ) where
  act-Goes :
      (d : CellDecision) (r : Readings) (s : Cycle os)
      → (is_cell_tx d ≡ true → has_packet os s ≡ true)
      → is_traced os s ≡ true
      → ((q : PacketRef) → s.p ≡ some q → (deref os s.net q).pkt ≢ 0)
      → Goes os (act os payload d r s)
  unfolding act off_slot
  act-Goes CellDecision.tx r s h t b = begin_tx-Goes os payload r s (h refl) t b
  act-Goes CellDecision.rx r s h t b = begin_rx-IsLive os r s t
  act-Goes CellDecision.off r s h t b = end_round-IsLive os r (mac_off os s.keep_radio_on s)
  act-Goes CellDecision.tx_idle r s h t b = end_round-IsLive os r (mac_off os s.keep_radio_on s)
  act-Goes CellDecision.tx_backoff r s h t b = end_round-IsLive os r (mac_off os s.keep_radio_on s)

  decided-Goes :
      (net : Net os) (cell : Cell) (c : Choice os) (r : Readings) (s : Cycle os)
      → MaySend os laws net cell c
      → s.cell ≡ some cell
      → is_traced os s ≡ true
      → ((q : PacketRef) → c.pick.p ≡ some q → (deref os c.net q).pkt ≢ 0)
      → Goes os (decided os payload r s (some c))
  unfolding decided
  decided-Goes net cell c r s may e t b =
      act-Goes c.decision r
        (record s {
          net = c.net;
          last = c.pick.last;
          n = c.pick.n;
          p = c.pick.p;
          decision = c.decision;
        })
        (λ x. let (p, i, ep, en, free) = may x in ground (arith, ep, en, e)) t b

  -- The packet of a decision has a queuebuf, if all that are read have one.
  chosen-queuebuf :
      (s : Net os) (c : Choice os) (p : Option PacketRef)
      → SameNet os c.net s
      → IsFirst os laws s p
      → HeadsBuffered os laws s
      → (q : PacketRef) → p ≡ some q
      → (deref os c.net q).pkt ≢ 0
  chosen-queuebuf s c none same f h q e = absurd (ground (arith, e))
  chosen-queuebuf s c (some p) same (a, found) h q e =
      subst (λ q. (deref os c.net q).pkt ≢ 0) (some-injective _ _ e)
        (rw (same.same_rings p.0).same_buffer (h a p found))

  begin_slot-Goes :
      (cell : Option Cell) (r : Readings) (s : Cycle os)
      → s.cell ≡ cell
      → ((c : Cell) → cell ≡ some c → is_tx c ≡ true)
      → InTable os laws s.net s.last
      → HeadsBuffered os laws s.net
      → Goes os (begin_slot os payload cell r s)
  unfolding begin_slot off_slot open_slot
  begin_slot-Goes none r s e tx h b =
      end_round-IsLive os r (mac_off os s.keep_radio_on (record s { decision = CellDecision.off }))
  begin_slot-Goes (some cell) r s e tx h b =
      let (c, f, may) = decide_cell_total os laws s.net s.last s.decision cell (tx cell refl) h in
      let chosen =
        subst (IsChosen os laws s.net) f
          (decide_cell-IsChosen os laws s.net s.last s.decision cell h) in
      branch (Goes os) (to_bool s.net.working_on_queue)
        (end_round-IsLive os r
          (mac_off os s.keep_radio_on (record s { decision = CellDecision.off })))
        (subst (λ o. Goes os (decided os payload r (open_slot os cell s) o)) (sym f)
          (decided-Goes s.net cell c r (open_slot os cell s) may e refl
            (chosen-queuebuf s.net c c.pick.p chosen.0 chosen.1 b)))

  loop-Goes :
      (r : Readings) (s : Cycle os)
      → ((c : Cell) → get_cell s.slotframe s.clock.timeslot ≡ some c → is_tx c ≡ true)
      → InTable os laws s.net s.last
      → HeadsBuffered os laws s.net
      → Goes os (loop os payload r s)
  unfolding loop
  loop-Goes r s tx h b =
      branch (Goes os) (to_bool s.is_sync && not (s.state == tsch_off))
        (begin_slot-Goes (get_cell s.slotframe s.clock.timeslot) r
          (record (call os (RadioCall.sfd_sync 1 1) s) {
            cell = get_cell s.slotframe s.clock.timeslot;
          })
          refl tx h b)
        (record { packet = λ x. cc; traced = λ x. cc })

  wake-Goes :
      (q : Point) (r : Readings) (s : Cycle os)
      → in_slot q ≡ false
      → ((c : Cell) → get_cell s.slotframe s.clock.timeslot ≡ some c → is_tx c ≡ true)
      → InTable os laws s.net s.last
      → HeadsBuffered os laws s.net
      → Goes os (powercycle os payload q r s)
  unfolding powercycle start
  wake-Goes Point.asleep r s o tx h b = loop-Goes r s tx h b
  wake-Goes Point.start_up r s o tx h b =
      loop-Goes r (record s { clock = record s.clock { start = r.started } }) tx h b
  wake-Goes Point.ended r s o tx h b =
      loop-Goes r (record s { clock = record s.clock { start = r.started } }) tx h b
  wake-Goes q r s o tx h b = absurd (ground (arith, o))

  pub wakes-IsLive :
      (r : Readings) (s : Cycle os)
      → in_slot s.point ≡ false
      → ((c : Cell) → get_cell s.slotframe s.clock.timeslot ≡ some c → is_tx c ≡ true)
      → InTable os laws s.net s.last
      → HeadsBuffered os laws s.net
      → (t : Cycle os) × (resume os payload r s ≡ some t) × IsLive os t
  unfolding resume
  wakes-IsLive r s o tx h b =
      arrives os payload (resume os payload r s)
        (wake-Goes s.point r (record s { timer = none }) o tx h b)

  -- A whole slot, from a call of the protothread between slots, with the radio as it should be, a
  -- cell that may send if the slot has one, no NULL queuebuf at the head of a queue, and a cursor
  -- that is NULL or points into the table: the call goes on to a yield, and four more calls by the
  -- timer at most, if nothing else happens, end the slot, whatever the radio and the timer show at
  -- each. Nothing is read through NULL, and no loop runs out of fuel.
  pub round_ends :
      (r r₁ r₂ r₃ r₄ : Readings) (s : Cycle os)
      → IsPowered os s
      → in_slot s.point ≡ false
      → ((c : Cell) → get_cell s.slotframe s.clock.timeslot ≡ some c → is_tx c ≡ true)
      → InTable os laws s.net s.last
      → HeadsBuffered os laws s.net
      → (t : Cycle os) × (s' : Cycle os) × (resume os payload r s ≡ some t)
        × (finish_slot os payload (r₁ ∷ r₂ ∷ r₃ ∷ r₄ ∷ []) t ≡ some s')
        × (in_slot s'.point ≡ false)
  round_ends r r₁ r₂ r₃ r₄ s p o tx h b =
      let (t, e, live) = wakes-IsLive r s o tx h b in
      let y = resume-Yields os payload r s t p e in
      let (s', f, over) =
        finish_slot_ends os payload (r₁ ∷ r₂ ∷ r₃ ∷ r₄ ∷ []) t y.is_powered live
          (most_calls t.point) in
      (t, s', e, f, over)
