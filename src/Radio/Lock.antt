-- ===== src/Radio/Lock.antt =====
-- The lock of the driver dev/cc2420-tsch.c: requests to turn the radio on or off that come while
-- the driver is locked are carried out when the lock is released.
use tsch_minimum.Prelude.{
  ℕ, suc, ◌≡◌, refl, Bool, true, false, ◌||◌, ◌&&◌, not, List, [], ◌∷◌, arith,
}
use tsch_minimum.Radio.{
  Radio, Request, get_lock, release_lock, on, off, run_lock_on, run_lock_off, cc2420_on, cc2420_off,
  request, wake, rest, cc2420_rssi, cc2420_cca,
}

-- No one holds the lock and no request waits.
pub record IsIdle (r : Radio) : Type 0 where
  pub unlocked : r.locked ≡ 0
  pub no_on : r.lock_on ≡ false
  pub no_off : r.lock_off ≡ false

abbrev pub requests : List Request → Radio → Radio
requests [] r = r
requests (q ∷ qs) r = requests qs (request q r)

abbrev pub asks_on : List Request → Bool
asks_on [] = false
asks_on (Request.turn_on ∷ qs) = true
asks_on (Request.turn_off ∷ qs) = asks_on qs

abbrev pub asks_off : List Request → Bool
asks_off [] = false
asks_off (Request.turn_off ∷ qs) = true
asks_off (Request.turn_on ∷ qs) = asks_off qs

-- What a list of requests does to a driver that is locked: it only notes them.
pub record Noted (r t : Radio) (qs : List Request) : Type 0 where
  pub same_radio : t.receive_on ≡ r.receive_on
  pub same_lock : t.locked ≡ r.locked
  pub noted_on : t.lock_on ≡ (r.lock_on || (not r.receive_on && asks_on qs))
  pub noted_off : t.lock_off ≡ (r.lock_off || (r.receive_on && asks_off qs))

note_requests :
    (qs : List Request) (r : Radio) (n : ℕ) → r.locked ≡ suc n → Noted r (requests qs r) qs
unfolding request cc2420_on cc2420_off
note_requests [] r n h = record {
  same_radio = refl;
  same_lock = refl;
  noted_on = ground arith;
  noted_off = ground arith;
}
note_requests (Request.turn_on ∷ qs) r n h =
    let ih = note_requests qs (cc2420_on r) n (ground (arith, h)) in
    record {
      same_radio = ground (arith, h, ih.same_radio);
      same_lock = ground (arith, h, ih.same_lock);
      noted_on = ground (arith, h, ih.noted_on);
      noted_off = ground (arith, h, ih.noted_off);
    }
note_requests (Request.turn_off ∷ qs) r n h =
    let ih = note_requests qs (cc2420_off r) n (ground (arith, h)) in
    record {
      same_radio = ground (arith, h, ih.same_radio);
      same_lock = ground (arith, h, ih.same_lock);
      noted_on = ground (arith, h, ih.noted_on);
      noted_off = ground (arith, h, ih.noted_off);
    }

-- From an idle driver whose lock is then taken, whatever is asked leaves the radio as it is. The
-- release of the lock turns it on if it was off and was asked on at least once, and off if it was on
-- and was asked off at least once, in whatever order; a request for what the radio is already is
-- lost. Then the driver is idle.
pub deferred :
    (r : Radio) (qs : List Request)
    → IsIdle r
    → let t = release_lock (requests qs (get_lock r)) in
      IsIdle t
      × ((requests qs (get_lock r)).receive_on ≡ r.receive_on)
      × (t.receive_on ≡ ((r.receive_on && not (asks_off qs)) || (not r.receive_on && asks_on qs)))
unfolding get_lock release_lock run_lock_on run_lock_off on off
deferred r qs h =
    let seen = note_requests qs (get_lock r) 0 (ground (arith, h.unlocked)) in
    (
      record {
        unlocked = ground (arith, h.unlocked, seen.same_lock);
        no_on = ground (arith, h.unlocked, seen.same_lock);
        no_off = ground (arith, h.unlocked, seen.same_lock);
      },
      seen.same_radio,
      ground (
        arith, h.unlocked, h.no_on, h.no_off, seen.same_lock, seen.same_radio, seen.noted_on,
        seen.noted_off,
      ),
    )

-- Asked when idle, the radio is at once as it is asked to be.
pub request_now :
    (r : Radio)
    → IsIdle r
    → (IsIdle (cc2420_on r) × ((cc2420_on r).receive_on ≡ true))
      × (IsIdle (cc2420_off r) × ((cc2420_off r).receive_on ≡ false))
unfolding cc2420_on cc2420_off get_lock release_lock run_lock_on run_lock_off on off
request_now r h = (
  (
    record {
      unlocked = ground (arith, h.unlocked, h.no_on, h.no_off);
      no_on = ground (arith, h.unlocked, h.no_on, h.no_off);
      no_off = ground (arith, h.unlocked, h.no_on, h.no_off);
    },
    ground (arith, h.unlocked, h.no_on, h.no_off),
  ),
  (
    record {
      unlocked = ground (arith, h.unlocked, h.no_on, h.no_off);
      no_on = ground (arith, h.unlocked, h.no_on, h.no_off);
      no_off = ground (arith, h.unlocked, h.no_on, h.no_off);
    },
    ground (arith, h.unlocked, h.no_on, h.no_off),
  ),
)

-- `cc2420_rssi` on a radio that is off leaves it on: its own requests are deferred to the release of
-- its lock, and the one to turn the radio off again is not noted, the radio being off still.
pub rssi_leaves_on :
    (sample : ℕ) (r : Radio)
    → IsIdle r
    → r.receive_on ≡ false
    → (cc2420_rssi sample r).0.receive_on ≡ true
unfolding cc2420_rssi get_lock release_lock run_lock_on run_lock_off on off wake rest cc2420_on
    cc2420_off
rssi_leaves_on sample r h e = ground (arith, h.unlocked, h.no_on, h.no_off, e)

-- `cc2420_cca` on a radio that is off says that the channel is clear, whatever the pin says, and
-- leaves the radio off.
pub cca_when_off :
    (clear : ℕ) (r : Radio)
    → IsIdle r
    → r.receive_on ≡ false
    → ((cc2420_cca clear r).1 ≡ 1) × ((cc2420_cca clear r).0.receive_on ≡ false)
unfolding cc2420_cca get_lock release_lock run_lock_on run_lock_off on off wake rest cc2420_on
    cc2420_off
cca_when_off clear r h e = (
  ground (arith, h.unlocked, h.no_on, h.no_off, e),
  ground (arith, h.unlocked, h.no_on, h.no_off, e),
)
