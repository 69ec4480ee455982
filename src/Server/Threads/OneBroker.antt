-- ===== src/Server/Threads/OneBroker.antt =====
-- `ThreadManagement` of remus/server/Server.cxx: how many threads broker.
use remus.Prelude.{◌+◌, ◌≤◌, ◌≡◌, true, arith}
use remus.Server.Threads.{
  Threads, is_brokering, launch, set_is_brokering, begin_loop, end_loop, Step, launches, started,
  begins, stops, ends, joined, IsCareful, Reach, constructed, steps,
}

abbrev Inv : Threads → Type 0
Inv t = (t.starting + t.looping ≤ 1) × (t.broker_is_running ≡ true → t.looping ≡ 1)

step-Inv : {t u : Threads} (s : Step t u) → IsCareful s → Inv t → Inv u
unfolding IsCareful launch begin_loop end_loop set_is_brokering is_brokering
step-Inv (launches t) c v = ground (arith, c, v)
step-Inv (started t h) c v = v
step-Inv (begins t n h) c v = ground (arith, h, v)
step-Inv (stops t) c v = ground (arith, v)
step-Inv (ends t n h k) c v = ground (arith, h, k, v)
step-Inv (joined t h) c v = v

-- However the calls and the threads interleave, if `start` is called only when no thread is on its way
-- to its loop and none that was told to stop is still in it, then at most one thread brokers, and while
-- the flag is set exactly one is in its loop, so that a call that waits for the start returns to a
-- server that brokers.
pub reach-OneBroker :
    {t : Threads} → Reach t → (t.starting + t.looping ≤ 1) × (is_brokering t ≡ true → t.looping ≡ 1)
unfolding is_brokering
reach-OneBroker constructed = ground arith
reach-OneBroker (steps r s c) = step-Inv s c (reach-OneBroker r)
