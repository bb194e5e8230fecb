-- ===== src/Powercycle/Start.antt =====
-- The start of tsch.c: `init` and `tsch_associate`, which set the variables that powercycle works on
-- and the timer for its first call.
use mathlib.Core.Path.{subst}
use mathlib.Core.Option.{some-injective}
use tsch_minimum.Prelude.{◌≡◌, refl, ◌||◌, true, false, some, [], arith, sym}
use tsch_minimum.Contiki.{Contiki, IsContiki}
use tsch_minimum.Params.{Cell, Vars, is_tx, minimum_slotframe, tsch_associated, ts_slot_duration}
use tsch_minimum.Neighbors.Inv.{IsSound, flags-IsSound}
use tsch_minimum.Time.{get_cell}
use tsch_minimum.Time.Schedule.{InStep}
use tsch_minimum.Associate
use tsch_minimum.Associate.Queues.{tsch_associate-IsSound}
use tsch_minimum.Powercycle.{Point, Cycle, Readings, arm}
use tsch_minimum.Powercycle.Graph.{in_slot, is_ended, is_some, IsPowered}

-- The variables of `ieee154e_vars` at the start.
abbrev pub initial_vars : Vars
initial_vars = record {
  asn = 0;
  state = 0;
  dsn = 0;
  captured_time = 0;
  sync_timeout = 0;
  is_sync = 0;
  mac_ebsn = 0;
  join_priority = 0xff;
}

module _ (os : Contiki) where
  unfoldable pub associate : Readings → Cycle os → Cycle os
  unfolding arm
  associate r s = arm os r r.started ts_slot_duration (record s {
    waiting_for_radio_interrupt = false;
    we_are_sending = false;
    is_sync = 1;
    state = tsch_associated;
    net = Associate.tsch_associate os s.net;
    clock = record s.clock { start = r.started };
  })

  -- Registering the neighbor table and subscribing to the radio's callbacks change none of them.
  unfoldable pub init : Readings → Cycle os → Cycle os
  unfolding associate
  init r s = associate r (record s {
    slotframe = minimum_slotframe;
    clock = record s.clock { asn = initial_vars.asn };
    is_sync = initial_vars.is_sync;
    state = initial_vars.state;
    net = record s.net { working_on_queue = 0 };
  })

  -- The static variables when the program is loaded, and a sound memory of the neighbor table.
  pub record IsLoaded (s : Cycle os) : Type 0 where
    pub not_called : s.calls ≡ []
    pub not_kept : s.keep_radio_on ≡ false
    pub at_start : s.point ≡ Point.start_up
    pub no_time : s.tx_time ≡ 0
    pub first_slot : s.clock.timeslot ≡ 0
    pub sound : IsSound os s.net

  pub record IsStarted (s : Cycle os) : Type 0 where
    pub is_powered : IsPowered os s
    pub between_slots : in_slot s.point ≡ false
    pub armed : is_ended s.point || is_some s.timer ≡ true
    pub in_step : InStep s.slotframe s.clock
    pub all_send : (c : Cell) → get_cell s.slotframe s.clock.timeslot ≡ some c → is_tx c ≡ true
    pub sound : IsSound os s.net

module _ (os : Contiki) (laws : IsContiki os) where
  -- After `init`, with the variables as they are when the program is loaded and rtimer_set
  -- successful, everything holds that keeps the protothread going: the radio is as it should be,
  -- the protothread is between slots and its timer is set, the slot and the ASN are in step, the
  -- first cell may send, and every neighbor queue is valid.
  pub init_starts :
      (r : Readings) (s : Cycle os) → r.set_ok ≡ true → IsLoaded os s → IsStarted os (init os r s)
  unfolding init associate arm get_cell
  init_starts r s set h = record {
    is_powered = record {
      powered = ground (arith, h.not_called, h.at_start, h.not_kept);
      only_acks = λ x. cc;
      short = omega (arith, h.no_time);
    };
    between_slots = rw h.at_start refl;
    armed = ground (arith, set);
    in_step = record { on = omega (arith, h.first_slot); place = sym h.first_slot };
    all_send = λ c e.
        subst (λ x. is_tx x ≡ true)
          (some-injective _ _ (subst (λ t. get_cell minimum_slotframe t ≡ some c) h.first_slot e))
          refl;
    sound =
        tsch_associate-IsSound os laws (record s.net { working_on_queue = 0 })
          (flags-IsSound os s.net 0 s.net.frees h.sound);
  }
