-- ===== src/Powercycle/Live/Slots.antt =====
-- A slot of powercycle of tsch.c that begins, or that receives, reads nothing through NULL.
use mathlib.Core.Path.{subst}
use tsch_minimum.Prelude.{
  branch, ℕ, List, sym, ◌≡◌, ◌≢◌, ◌==◌, ==_iff, refl, true, false, Option, none, some, arith,
  if◌then◌else◌, Bool-cases, inl, inr,
}
use tsch_minimum.Prelude.Words.{to_bool}
use tsch_minimum.Contiki.{Contiki, Addr}
use tsch_minimum.Neighbors.{PacketRef, neighbor_queue_from_addr, deref}
use tsch_minimum.Powercycle.{
  Point, RadioCall, Cycle, Readings, call, mac_on, mac_off, arm, wait_until,
}
use tsch_minimum.Powercycle.Transmit.{tx_wait, prepared, begin_tx_at, begin_tx}
use tsch_minimum.Powercycle.Receive.{
  rx_wait, rx_guard_wait, is_zero, begin_rx, listen, from_time_source, record_drift, end_rx,
  after_rx, received, in_air, guard_over, acknowledge,
}
use tsch_minimum.Powercycle.Graph.{is_some}
use tsch_minimum.Powercycle.Live.{
  sends, has_packet, is_traced, IsLive, Goes, end_round-IsLive, wait-IsLive,
}

module _ (os : Contiki) where
  -- A wait of a slot that receives.
  rx_wait-IsLive :
      (r : Readings) (d : ℕ) (p : Point) (s : Cycle os)
      → sends p ≡ false
      → is_traced os s ≡ true
      → IsLive os (wait_until os r d p s)
  unfolding wait_until arm
  rx_wait-IsLive r d p s h t = record {
    packet = λ x. absurd (ground (arith, x, h));
    traced = λ x. t;
  }

  pub begin_rx-IsLive :
      (r : Readings) (s : Cycle os) → is_traced os s ≡ true → IsLive os (begin_rx os r s)
  unfolding begin_rx
  begin_rx-IsLive r s t = rx_wait-IsLive r rx_wait Point.before_rx s refl t

  pub listen-IsLive :
      (r : Readings) (s : Cycle os) → is_traced os s ≡ true → IsLive os (listen os r s)
  unfolding listen mac_on
  listen-IsLive r s t = rx_wait-IsLive r rx_guard_wait Point.rx_guard (mac_on os s) refl t

  drift-Goes :
      (r : Readings) (sender : Option Addr) (s : Cycle os)
      → is_some sender ≡ true
      → Goes os (end_rx os r (record_drift os sender s))
  unfolding record_drift end_rx
  drift-Goes r none s h = absurd (ground (arith, h))
  drift-Goes r (some a) s h =
      end_round-IsLive os r (from_time_source os (neighbor_queue_from_addr os s.net a) s)

  after_rx-Goes : (r : Readings) (s : Cycle os) → is_traced os s ≡ true → Goes os (after_rx os r s)
  unfolding after_rx end_rx
  after_rx-Goes r s t = elim (Bool-cases (is_zero s.last_drift)) [
    | inl still ↦
        subst (λ b. Goes os (end_rx os r (if b then some s else record_drift os s.last_rf s)))
          (sym still) (end_round-IsLive os r s)
    | inr drifts ↦
        subst (λ b. Goes os (end_rx os r (if b then some s else record_drift os s.last_rf s)))
          (sym drifts) (drift-Goes r s.last_rf s (ground (arith, t, drifts)))
  ]

  received-Goes : (r : Readings) (s : Cycle os) → is_traced os s ≡ true → Goes os (received os r s)
  unfolding received arm
  received-Goes r s t =
      branch (Goes os) (to_bool s.need_ack) (record { packet = λ x. cc; traced = λ x. t })
        (after_rx-Goes r s t)

  pub guard_over-Goes :
      (r : Readings) (s : Cycle os) → is_traced os s ≡ true → Goes os (guard_over os r s)
  unfolding guard_over mac_off
  guard_over-Goes r s t =
      let s' = mac_off os s.keep_radio_on s in
      branch (Goes os) (in_air r) (received-Goes r s' t) (end_round-IsLive os r s')

  pub acknowledge-Goes :
      (r : Readings) (s : Cycle os) → is_traced os s ≡ true → Goes os (acknowledge os r s)
  unfolding acknowledge
  acknowledge-Goes r s t = after_rx-Goes r (call os RadioCall.send_ack s) t

  begin_tx_at-Goes :
      (payload : ℕ → List ℕ) (r : Readings) (p : Option PacketRef) (s : Cycle os)
      → is_some p ≡ true
      → has_packet os s ≡ true
      → is_traced os s ≡ true
      → ((q : PacketRef) → p ≡ some q → (deref os s.net q).pkt ≢ 0)
      → Goes os (begin_tx_at os payload r p s)
  unfolding begin_tx_at
  begin_tx_at-Goes payload r none s e h t b = absurd (ground (arith, e))
  begin_tx_at-Goes payload r (some p) s e h t b =
      let pkt = (deref os s.net p).pkt in
      elim (Bool-cases (pkt == 0)) [
        | inl null ↦ absurd (b p refl ((==_iff pkt 0).0 null))
        | inr there ↦
            subst
              (λ c. Goes os (
                if c
                then none
                else some
                    (wait_until os r tx_wait Point.before_tx (prepared os pkt (payload pkt) s))))
              (sym there)
              (wait-IsLive os r tx_wait Point.before_tx (prepared os pkt (payload pkt) s) h t)
      ]

  pub begin_tx-Goes :
      (payload : ℕ → List ℕ) (r : Readings) (s : Cycle os)
      → has_packet os s ≡ true
      → is_traced os s ≡ true
      → ((q : PacketRef) → s.p ≡ some q → (deref os s.net q).pkt ≢ 0)
      → Goes os (begin_tx os payload r s)
  unfolding begin_tx
  begin_tx-Goes payload r s h t b = begin_tx_at-Goes payload r s.p s (ground (arith, h)) h t b
