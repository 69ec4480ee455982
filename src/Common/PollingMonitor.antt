-- ===== src/Common/PollingMonitor.antt =====
-- remus/common/PollingMonitor.h and PollingMonitor.cxx. Times and durations are in microseconds, the
-- resolution of `microsec_clock`; a measured duration is an integer, since the local clock may be set
-- back. The type of a rate says how large it may be: a larger one is not modelled, since the products of
-- signed integers of 64 bits overflow there, which C++ leaves undefined.
use remus.Prelude.{
  ℕ, ◌+◌, ◌*◌, ◌/◌, ◌≤◌, ◌<◌, min, max, ℤ, pos, negsuc, ◌+ℤ◌, ◌<ℤ◌, ltzb, quotient, ◌≡◌, ◌↔◌, Bool,
  true, List, [], ◌∷◌, ◌++◌, arith, ltb, ◌==◌, if◌then◌else◌, length, length-append, pos_part,
  sub_ℕ,
}

pub record PollingMonitor : Type 0 where
  pub min_time_out : ℕ
  pub max_time_out : ℕ
  pub average_poll_rate : ℤ
  pub current_poll_rate : ℕ
  pub last_poll_time : ℕ
  pub polling_frequency : List ℤ

-- `milliseconds(n)`, and `total_milliseconds()` of a duration that is not negative.
abbrev pub milliseconds : ℕ → ℕ
milliseconds n = n * 1000

abbrev pub total_milliseconds : ℕ → ℕ
total_milliseconds d = d / 1000

-- A rate in milliseconds, of which a thousand fit 60 bits, so that five of them and a quarter fit the
-- 63 bits of a signed integer: at most some 36000 years.
pub record Rate : Type 0 where
  pub value : ℤ
  pub fits : pos_part value ≤ 1152921504606846

-- The two rates, clamped at zero and put in order.
abbrev pub proper_min_rate : Rate → Rate → ℕ
proper_min_rate min_rate max_rate =
    milliseconds (min (pos_part min_rate.value) (pos_part max_rate.value))

abbrev pub proper_max_rate : Rate → Rate → ℕ
proper_max_rate min_rate max_rate =
    milliseconds (max (pos_part min_rate.value) (pos_part max_rate.value))

-- The constructor `PollingTracker`, at the time `p`.
unfoldable pub make : Rate → Rate → ℕ → PollingMonitor
make min_rate max_rate p =
    let low = proper_min_rate min_rate max_rate in
    record {
      min_time_out = low;
      max_time_out = proper_max_rate min_rate max_rate;
      average_poll_rate = pos low;
      current_poll_rate = low;
      last_poll_time = p;
      polling_frequency = pos low ∷ [];
    }

unfoldable pub change_time_out_rates : PollingMonitor → Rate → Rate → PollingMonitor
change_time_out_rates m min_rate max_rate =
    let low = proper_min_rate min_rate max_rate in
    let high = proper_max_rate min_rate max_rate in
    record m {
      min_time_out = low;
      max_time_out = high;
      current_poll_rate = min (max m.current_poll_rate low) high;
    }

-- `push_back` on the circular buffer of five entries: a full one loses its oldest.
unfoldable pub push_back : List ℤ → ℤ → List ℤ
push_back [] d = d ∷ []
push_back (x ∷ xs) d = if length xs == 4 then xs ++ (d ∷ []) else x ∷ (xs ++ (d ∷ []))

-- `std::accumulate`.
unfoldable pub accumulate : ℤ → List ℤ → ℤ
accumulate sum [] = sum
accumulate sum (d ∷ ds) = accumulate (sum +ℤ d) ds

-- The new poll rate from the average: the minimum if the average is below it, else a quarter more
-- than the average, capped at the maximum.
unfoldable pub next_rate : ℕ → ℕ → ℤ → ℕ
next_rate low high avg =
    let rate = pos_part avg + milliseconds (total_milliseconds (pos_part avg) / 4) in
    if ltzb avg (pos low) then low else if ltb high rate then high else rate

unfoldable pub poll_occurred : PollingMonitor → ℕ → PollingMonitor
unfolding push_back accumulate next_rate
poll_occurred m time =
    let frequency = push_back m.polling_frequency (sub_ℕ time m.last_poll_time) in
    let avg = quotient (accumulate (pos 0) frequency) (length frequency) in
    record m {
      polling_frequency = frequency;
      last_poll_time = time;
      average_poll_rate = avg;
      current_poll_rate = next_rate m.min_time_out m.max_time_out avg;
    }

-- `current()`, `minTimeOut()` and `maxTimeOut()`, in milliseconds.
unfoldable pub current : PollingMonitor → ℕ
current m = total_milliseconds m.current_poll_rate

unfoldable pub min_time_out_ms : PollingMonitor → ℕ
min_time_out_ms m = total_milliseconds m.min_time_out

unfoldable pub max_time_out_ms : PollingMonitor → ℕ
max_time_out_ms m = total_milliseconds m.max_time_out

unfoldable pub has_abnormal_event : PollingMonitor → Bool
has_abnormal_event m = ltzb (pos m.current_poll_rate) m.average_poll_rate

-- The rate to poll at lies between the two limits, which are below 2 ^ 60, and one to five durations
-- are remembered.
pub record IsBounded (m : PollingMonitor) : Type 0 where
  pub above : m.min_time_out ≤ m.current_poll_rate
  pub below : m.current_poll_rate ≤ m.max_time_out
  pub fits : m.max_time_out < 1152921504606846976
  pub some_sample : 0 < length m.polling_frequency
  pub few_samples : length m.polling_frequency ≤ 5

make-IsBounded : (a b : Rate) (p : ℕ) → IsBounded (make a b p)
unfolding make
make-IsBounded a b p = ground (arith, a.fits, b.fits)

change-IsBounded :
    (m : PollingMonitor) (a b : Rate) → IsBounded m → IsBounded (change_time_out_rates m a b)
unfolding change_time_out_rates
change-IsBounded m a b v = ground (arith, a.fits, b.fits, v)

next_rate_bounds :
    (low high : ℕ) (avg : ℤ)
    → low ≤ high
    → (low ≤ next_rate low high avg) × (next_rate low high avg ≤ high)
unfolding next_rate
next_rate_bounds low high (pos n) h = ground arith
next_rate_bounds low high (negsuc n) h = ground arith

length-push_back :
    (l : List ℤ) (d : ℤ)
    → length l ≤ 5
    → (0 < length (push_back l d)) × (length (push_back l d) ≤ 5)
unfolding push_back
length-push_back [] d h = omega arith
length-push_back (x ∷ xs) d h = ground (arith, length-append xs (d ∷ []))

poll_occurred-IsBounded :
    (m : PollingMonitor) (time : ℕ) → IsBounded m → IsBounded (poll_occurred m time)
unfolding poll_occurred
poll_occurred-IsBounded m time v =
    let d = sub_ℕ time m.last_poll_time in
    let sizes = length-push_back m.polling_frequency d v.few_samples in
    let f = push_back m.polling_frequency d in
    let rates =
      next_rate_bounds m.min_time_out m.max_time_out (quotient (accumulate (pos 0) f) (length f))
        (omega arith) in
    record {
      above = rates.0;
      below = rates.1;
      fits = v.fits;
      some_sample = sizes.0;
      few_samples = sizes.1;
    }

-- What happens to a monitor in the server's loop, or by its setter.
pub data Event : Type 0 where
  poll : ℕ → Event
  change : Rate → Rate → Event

unfoldable pub run : PollingMonitor → List Event → PollingMonitor
run m [] = m
run m (poll t ∷ es) = run (poll_occurred m t) es
run m (change a b ∷ es) = run (change_time_out_rates m a b) es

run_from-IsBounded : (m : PollingMonitor) (es : List Event) → IsBounded m → IsBounded (run m es)
unfolding run
run_from-IsBounded m [] v = v
run_from-IsBounded m (poll t ∷ es) v =
    run_from-IsBounded (poll_occurred m t) es (poll_occurred-IsBounded m t v)
run_from-IsBounded m (change a b ∷ es) v =
    run_from-IsBounded (change_time_out_rates m a b) es (change-IsBounded m a b v)

-- Whatever rates of at most 1152921504606846 milliseconds a monitor is made and changed with, negative
-- ones and a minimum above the maximum included, and whenever polls occur, the clock set back included,
-- its limits stay below 2 ^ 60 microseconds, its poll rate between them, and it averages over one to
-- five durations.
pub run-IsBounded : (a b : Rate) (p : ℕ) (es : List Event) → IsBounded (run (make a b p) es)
run-IsBounded a b p es = run_from-IsBounded (make a b p) es (make-IsBounded a b p)

abnormal_rate :
    (low high : ℕ) (avg : ℤ)
    → low ≤ high
    → (ltzb (pos (next_rate low high avg)) avg ≡ true) ↔ (pos high <ℤ avg)
unfolding next_rate
abnormal_rate low high (pos n) h = ground arith
abnormal_rate low high (negsuc n) h = ground arith

-- After a poll the monitor reports an abnormal event exactly if the average duration between polls
-- exceeds the upper limit.
pub has_abnormal_event-poll_occurred :
    (m : PollingMonitor) (time : ℕ)
    → IsBounded m
    → (has_abnormal_event (poll_occurred m time) ≡ true)
      ↔ (pos m.max_time_out <ℤ (poll_occurred m time).average_poll_rate)
unfolding has_abnormal_event poll_occurred
has_abnormal_event-poll_occurred m time v =
    let f = push_back m.polling_frequency (sub_ℕ time m.last_poll_time) in
    abnormal_rate m.min_time_out m.max_time_out (quotient (accumulate (pos 0) f) (length f))
      (omega arith)
