-- ===== src/Powercycle/Queues/Tests.antt =====
-- The theorems on the neighbor queues through powercycle of tsch.c, at a slot that sends the one
-- packet that waits, while another is added.
use mathlib.Core.Option.{some-injective}
use tsch_minimum.Prelude.{
  ◌≡◌, refl, sym, ap, ◌∙◌, some, List, [], ◌∷◌, ◌++◌, map, true, arith, Bool-cases, Option-cases,
  inl, inr,
}
use tsch_minimum.Contiki.Example.{os, os-IsContiki}
use tsch_minimum.Neighbors.{neighbor_queue_from_addr}
use tsch_minimum.Neighbors.Addressed.{Addressed, Buffered}
use tsch_minimum.Neighbors.Refine.{view}
use tsch_minimum.Tests.{net, net-IsSound, found, shared_cell}
use tsch_minimum.Powercycle.{Cycle, Readings, arm}
use tsch_minimum.Powercycle.Round.{resume, fires, Event, step, run}
use tsch_minimum.Powercycle.Settles.Slot.{slot_settles}
use tsch_minimum.Powercycle.Tests.{
  outlasted, payload, acknowledged, cycle, events, listening, ran, then_fires, silence, loaded,
  loaded-IsLoaded, early_events, early, came_early, value,
}
use tsch_minimum.Powercycle.Start.{init, associate}
use tsch_minimum.Powercycle.Reach.{init-InOrder, init_goes}
use tsch_minimum.Powercycle.Paced.{all_take}
use tsch_minimum.Powercycle.Progress.{leave_frames, IsGoing}
use tsch_minimum.Powercycle.Queues.{IsServed}
use tsch_minimum.Powercycle.Queues.Order.{InOrder, ids, accepted, fired}
use tsch_minimum.Powercycle.Queues.Runs.{run-Traces}
use tsch_minimum.Powercycle.Queues.Spec.{Traces}

net-Addressed : Addressed os (view os net)
unfolding neighbor_queue_from_addr
net-Addressed a = elim (Bool-cases (os.rimeaddr_cmp (1 ∷ []) a)) [
  | inl same ↦ rw same ((os-IsContiki.cmp_iff (1 ∷ []) a).0 same, tt)
  | inr other ↦ rw other tt
]

cycle-IsServed : IsServed os os-IsContiki cycle
cycle-IsServed = record {
  ready = record { sound = net-IsSound; addressed = net-Addressed; cursor = tt };
  sending = λ on. (
    0,
    (0, 0),
    shared_cell,
    1 ∷ [],
    record { neighbor = refl; packet = refl; its_cell = refl; first = found },
  );
}

-- Then the acknowledgment is received.
abbrev all_events : List Event
all_events = events ++ (fires acknowledged ∷ [])

settled :
    (t : Cycle os) × (s : Cycle os) × (run os payload events cycle ≡ some t)
    × (resume os payload acknowledged t ≡ some s)
settled =
    let (t, s, e, f, l) =
      slot_settles os os-IsContiki payload acknowledged 0 (0, 0) shared_cell events cycle (1 ∷ [])
        refl refl refl refl net-IsSound found refl outlasted in
    (t, s, e, f)

ended : Cycle os
ended = settled.1

resumed : resume os payload acknowledged listening ≡ some ended
unfolding ended
resumed = ap (resume os payload acknowledged) (some-injective _ _ (sym ran ∙ settled.2)) ∙ settled.3

last_call : run os payload (fires acknowledged ∷ []) listening ≡ some ended
last_call = then_fires ∙ rw resumed refl

run-append :
    (es fs : List Event) (s t : Cycle os)
    → run os payload es s ≡ some t
    → run os payload (es ++ fs) s ≡ run os payload fs t
unfolding run
run-append [] fs s t e = ap (run os payload fs) (some-injective _ _ e)
run-append (x ∷ es) fs s t e = elim (Option-cases (step os payload x s)) [
  | inl f ↦ absurd (ground (arith, e))
  | inr (u, f) ↦ rw (f, run) (run-append es fs u t (rw (f, run) at e))
]

ran_all : run os payload all_events cycle ≡ some ended
ran_all = run-append events (fires acknowledged ∷ []) cycle listening ran ∙ last_call

run-Traces_example :
    IsServed os os-IsContiki ended × Traces os (view os net) all_events (view os ended.net)
run-Traces_example =
    run-Traces os os-IsContiki payload all_events cycle ended refl cycle-IsServed ran_all

init-InOrder_example :
    InOrder
      (ids (view os (init os silence loaded).net (1 ∷ [])))
      (accepted os payload (1 ∷ []) early_events (init os silence loaded))
      (ids (view os early.net (1 ∷ [])))
      (fired early_events)
init-InOrder_example =
    init-InOrder os os-IsContiki payload silence (1 ∷ []) early_events loaded early refl
      loaded-IsLoaded refl net-Addressed refl came_early

-- Without interrupts no drift is left.
fires-leave_frames :
    (rs : List Readings) (s : Cycle os) → leave_frames os payload (map fires rs) s ≡ true
unfolding leave_frames
fires-leave_frames [] s = refl
fires-leave_frames (r ∷ rs) s = elim (Option-cases (step os payload (fires r) s)) [
  | inl f ↦ rw f refl
  | inr (t, f) ↦ rw f (fires-leave_frames rs t)
]

-- The first slots, after the interrupt and the packet that is added.
abbrev slots : List Readings
slots = silence ∷ silence ∷ acknowledged ∷ silence ∷ []

slots-leave_frames :
    leave_frames os payload (early_events ++ map fires slots) (init os silence loaded) ≡ true
unfolding leave_frames step run init associate arm
slots-leave_frames =
    fires-leave_frames slots (value (run os payload early_events (init os silence loaded)))

net-Buffered : Buffered (view os net)
unfolding neighbor_queue_from_addr
net-Buffered a = elim (Bool-cases (os.rimeaddr_cmp (1 ∷ []) a)) [
  | inl same ↦ rw same ((λ e. omega (arith, e)), tt)
  | inr other ↦ rw other tt
]

init_goes_example :
    (s : Cycle os) × (run os payload (early_events ++ map fires slots) (init os silence loaded)
      ≡ some s)
    × IsGoing os os-IsContiki payload (all_take (early_events ++ map fires slots)) s
init_goes_example =
    init_goes os os-IsContiki payload silence (early_events ++ map fires slots) loaded refl
      loaded-IsLoaded refl net-Addressed refl net-Buffered refl slots-leave_frames (omega arith)
