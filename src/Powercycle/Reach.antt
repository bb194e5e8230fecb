-- ===== src/Powercycle/Reach.antt =====
-- What holds of powercycle of tsch.c in every state that is reached from `init`.
use mathlib.Core.Path.{subst}
use tsch_minimum.Prelude.{refl, ◌<◌, none, sym, arith, ◌≡◌, true, List, ℕ, some}
use tsch_minimum.Contiki.{Addr, Contiki, IsContiki}
use tsch_minimum.Neighbors.Inv.{IsSound}
use tsch_minimum.Neighbors.{neighbor_queue_from_addr}
use tsch_minimum.Neighbors.Addressed.{IsFor, HasQueuebuf, Addressed, Buffered}
use tsch_minimum.Neighbors.Refine.{view}
use tsch_minimum.Associate.Receivers.{tsch_associate-Everywhere}
use tsch_minimum.SharedTx.{InTable}
use tsch_minimum.Powercycle.{Cycle, Readings, arm}
use tsch_minimum.Powercycle.Queues.{IsServed}
use tsch_minimum.Powercycle.Queues.Spec.{are_proper}
use tsch_minimum.Powercycle.Queues.Order.{InOrder, ids, accepted, fired, run-InOrder}
use tsch_minimum.Powercycle.Round.{Event, run}
use tsch_minimum.Powercycle.Graph.{IsPowered}
use tsch_minimum.Powercycle.Graph.Runs.{run-IsPowered, is_armed, set_timers, run-armed}
use tsch_minimum.Powercycle.Sound.{small_randoms, run-IsSound}
use tsch_minimum.Powercycle.Live.{IsLive}
use tsch_minimum.Powercycle.Paced.{all_take, Paced}
use tsch_minimum.Powercycle.Progress.{have_queuebufs, leave_frames, IsGoing, run-goes}
use tsch_minimum.Powercycle.Start.{init, associate, IsLoaded, init_starts}

module _ (os : Contiki) (laws : IsContiki os) (payload : ℕ → List ℕ) where
  -- In every state that is reached from `init`, called with the variables as they are when the
  -- program is loaded, by timer calls, interrupts and calls of add_packet_to_queue in any order,
  -- where rtimer_set succeeds and random_rand() gives 16-bit numbers: what powercycle asked of the
  -- radio last is on exactly where the protothread listens or is to keep it on (whether the driver
  -- has turned it off by itself since is not said), the timer is set unless the loop has ended, and
  -- every neighbor queue is valid.
  pub init_runs :
      (r : Readings) (es : List Event) (s s' : Cycle os)
      → r.set_ok ≡ true
      → IsLoaded os s
      → set_timers os payload es ≡ true
      → small_randoms os payload es ≡ true
      → run os payload es (init os r s) ≡ some s'
      → IsPowered os s' × (is_armed os payload s' ≡ true) × IsSound os s'.net
  init_runs r es s s' set loaded timers small e =
      let h = init_starts os laws r s set loaded in
      (
        run-IsPowered os payload es (init os r s) s' h.is_powered e,
        run-armed os payload es (init os r s) s' timers h.is_powered h.armed e,
        run-IsSound os payload es (init os r s) s' small h.sound e,
      )

  -- After `init` each packet waits in the queue of its receiver, if it did before, and the cursor
  -- is NULL.
  init-IsServed :
      (r : Readings) (s : Cycle os)
      → r.set_ok ≡ true
      → IsLoaded os s
      → s.last ≡ none
      → Addressed os (view os s.net)
      → IsServed os laws (init os r s)
  unfolding init associate arm neighbor_queue_from_addr
  init-IsServed r s set loaded cursor addressed = record {
    ready = record {
      sound = (init_starts os laws r s set loaded).sound;
      addressed =
          tsch_associate-Everywhere os laws (IsFor os) (record s.net { working_on_queue = 0 })
            addressed;
      cursor = subst (InTable os laws (init os r s).net) (sym cursor) tt;
    };
    sending = λ on. absurd (ground (arith, on, loaded.at_start));
  }

  -- From `init` on, called with the variables as they are when the program is loaded, rtimer_set
  -- successful, the cursor NULL and each packet in the table's memory in the queue of its receiver,
  -- and through timer calls, interrupts and calls of add_packet_to_queue after it, in any order (no
  -- neighbor is added or removed): what waits for an address `a` in the end are the packets that
  -- waited after `init` and all those for `a` that add_packet_to_queue took in, in this order, but
  -- for the first ones, which are at most as many as the calls of the protothread by the timer. So
  -- behind the front no packet is lost, doubled or overtaken. This is where random_rand() gives 16
  -- bits and packets are added to the queues of their receivers.
  pub init-InOrder :
      (r : Readings) (a : Addr) (es : List Event) (s s' : Cycle os)
      → r.set_ok ≡ true
      → IsLoaded os s
      → s.last ≡ none
      → Addressed os (view os s.net)
      → are_proper os es ≡ true
      → run os payload es (init os r s) ≡ some s'
      → InOrder
          (ids (view os (init os r s).net a))
          (accepted os payload a es (init os r s))
          (ids (view os s'.net a))
          (fired es)
  init-InOrder r a es s s' set loaded cursor addressed proper e =
      run-InOrder os laws payload a es (init os r s) s' proper
        (init-IsServed r s set loaded cursor addressed) e

  init-IsLive : (r : Readings) (s : Cycle os) → IsLoaded os s → IsLive os (init os r s)
  unfolding init associate arm
  init-IsLive r s loaded = record {
    packet = λ on. absurd (ground (arith, on, loaded.at_start));
    traced = λ inside. absurd (ground (arith, inside, loaded.at_start));
  }

  init-Paced : (r : Readings) (s : Cycle os) → IsLoaded os s → Paced os payload 0 (init os r s)
  unfolding init associate arm
  init-Paced r s loaded = record {
    frame = refl;
    on = omega (arith, loaded.first_slot);
    place = sym loaded.first_slot;
    early = omega arith;
  }

  init-Buffered :
      (r : Readings) (s : Cycle os)
      → Buffered (view os s.net)
      → Buffered (view os (init os r s).net)
  unfolding init associate arm neighbor_queue_from_addr
  init-Buffered r s h =
      tsch_associate-Everywhere os laws HasQueuebuf (record s.net { working_on_queue = 0 }) h

  -- From `init` on, called with the variables as they are when the program is loaded, rtimer_set
  -- successful, the cursor NULL and each packet in the table's memory in the queue of its receiver:
  -- the code goes on through timer calls, interrupts and calls of add_packet_to_queue after it, in
  -- any order (no neighbor is added or removed). It reads nothing through NULL and no loop runs out
  -- of fuel, and in the end the queues are valid, the slot number is the ASN's place in the
  -- slotframe and that of a cell which is on, and the ASN has moved by two slotframes at most for
  -- each call by the timer. This is where random_rand() gives 16 bits, packets are added to the
  -- queues of their receivers, no queuebuf that is added or that waits at first is NULL, no
  -- interrupt in a slot leaves a drift without its frame, and so many calls do not take the ASN to
  -- the end of its 32 bits.
  pub init_goes :
      (r : Readings) (es : List Event) (s : Cycle os)
      → r.set_ok ≡ true
      → IsLoaded os s
      → s.last ≡ none
      → Addressed os (view os s.net)
      → are_proper os es ≡ true
      → Buffered (view os s.net)
      → have_queuebufs es ≡ true
      → leave_frames os payload es (init os r s) ≡ true
      → all_take es < 4294967296
      → (s' : Cycle os) × (run os payload es (init os r s) ≡ some s')
        × IsGoing os laws payload (all_take es) s'
  init_goes r es s set loaded cursor addressed proper buffered there frames small =
      let going : IsGoing os laws payload 0 (init os r s) = record {
        served = init-IsServed r s set loaded cursor addressed;
        live = init-IsLive r s loaded;
        paced = init-Paced r s loaded;
        buffered = init-Buffered r s buffered;
      } in
      let (s', e, h) =
        run-goes os laws payload es 0 (init os r s) proper there frames (omega (arith, small))
          going in
      (s', e, subst (λ n. IsGoing os laws payload n s') (omega arith) h)
