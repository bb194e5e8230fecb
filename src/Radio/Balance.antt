-- ===== src/Radio/Balance.antt =====
-- Every call of the driver dev/cc2420-tsch.c that takes the lock gives it back.
use tsch_minimum.Prelude.{ℕ, ◌*◌, ◌≡◌, Bool, List, arith}
use tsch_minimum.Prelude.Words.{u16}
use tsch_minimum.Radio.{
  Radio, on, off, strobe, get_lock, release_lock, run_lock_on, run_lock_off, cc2420_on, cc2420_off,
  cc2420_set_channel, cc2420_set_txpower, cc2420_get_txpower, cc2420_set_cca_threshold, wake, rest,
  cc2420_rssi, cc2420_cca, cc2420_transmit, setreg, getreg, txctrl, power_word, rssi_register,
}
use tsch_minimum.Radio.Lock.{IsIdle}

-- The last release of the lock leaves nothing waiting, whatever was asked while it was held.
released : (r : Radio) → r.locked ≡ 1 → IsIdle (release_lock r)
unfolding release_lock run_lock_on run_lock_off on off
released r h = record {
  unlocked = ground (arith, h);
  no_on = ground (arith, h);
  no_off = ground (arith, h);
}

get_lock-locked : (r : Radio) → IsIdle r → (get_lock r).locked ≡ 1
unfolding get_lock
get_lock-locked r h = ground (arith, h.unlocked)

rssi-IsIdle : (sample : ℕ) (r : Radio) → IsIdle r → IsIdle (cc2420_rssi sample r).0
unfolding cc2420_rssi get_lock wake rest cc2420_on cc2420_off release_lock run_lock_on run_lock_off
    on off
rssi-IsIdle sample r h = record {
  unlocked = ground (arith, h.unlocked, h.no_on, h.no_off);
  no_on = ground (arith, h.unlocked, h.no_on, h.no_off);
  no_off = ground (arith, h.unlocked, h.no_on, h.no_off);
}

cca-IsIdle : (clear : ℕ) (r : Radio) → IsIdle r → IsIdle (cc2420_cca clear r).0
unfolding cc2420_cca get_lock wake rest cc2420_on cc2420_off release_lock run_lock_on run_lock_off
    on off
cca-IsIdle clear r h = record {
  unlocked = ground (arith, h.unlocked, h.no_on, h.no_off);
  no_on = ground (arith, h.unlocked, h.no_on, h.no_off);
  no_off = ground (arith, h.unlocked, h.no_on, h.no_off);
}

transmit-IsIdle : (sfd : List Bool) (r : Radio) → IsIdle r → IsIdle (cc2420_transmit sfd r).0
unfolding cc2420_transmit strobe get_lock release_lock run_lock_on run_lock_off on off
transmit-IsIdle sfd r h = record {
  unlocked = ground (arith, h.unlocked, h.no_on, h.no_off);
  no_on = ground (arith, h.unlocked, h.no_on, h.no_off);
  no_off = ground (arith, h.unlocked, h.no_on, h.no_off);
}

set_channel-IsIdle : (c : ℕ) (r : Radio) → IsIdle r → IsIdle (cc2420_set_channel c r).0
unfolding cc2420_set_channel get_lock release_lock run_lock_on run_lock_off on off
set_channel-IsIdle c r h = record {
  unlocked = ground (arith, h.unlocked, h.no_on, h.no_off);
  no_on = ground (arith, h.unlocked, h.no_on, h.no_off);
  no_off = ground (arith, h.unlocked, h.no_on, h.no_off);
}

-- From an idle driver, setting the channel, sending, setting and reading the power, setting the CCA
-- threshold, and measuring RSSI and CCA all leave the driver idle.
pub calls-IsIdle :
    (r : Radio) (c power value sample clear : ℕ) (sfd : List Bool)
    → IsIdle r
    → IsIdle (cc2420_set_channel c r).0
      × IsIdle (cc2420_transmit sfd r).0
      × IsIdle (cc2420_set_txpower power r)
      × IsIdle (cc2420_get_txpower r).0
      × IsIdle (cc2420_set_cca_threshold value r)
      × IsIdle (cc2420_rssi sample r).0
      × IsIdle (cc2420_cca clear r).0
unfolding cc2420_set_txpower cc2420_get_txpower cc2420_set_cca_threshold
calls-IsIdle r c power value sample clear sfd h = (
  set_channel-IsIdle c r h,
  transmit-IsIdle sfd r h,
  released (setreg txctrl (power_word (getreg locked txctrl) power) locked) (get_lock-locked r h),
  released locked (get_lock-locked r h),
  released (setreg rssi_register (u16 (value * 256)) locked) (get_lock-locked r h),
  rssi-IsIdle sample r h,
  cca-IsIdle clear r h,
)
  where
    locked : Radio
    locked = get_lock r
