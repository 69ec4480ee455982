-- ===== src/Server/Threads.antt =====
-- `ThreadManagement` of remus/server/Server.cxx: the flag that starts and stops the broker's thread. Each
-- function is what one thread does while it holds the mutex; the threads themselves are counted by how
-- far `Brokering` has come in them. Waits are steps that need what they wait for.
pub mod OneBroker
use remus.Prelude.{ℕ, suc, ◌+◌, ◌-◌, ◌≡◌, Bool, true, false, if◌then◌else◌}

-- `starting` counts the threads that have not yet called `setIsBrokering(true)`, `looping` those that
-- have and have not yet left the loop.
pub record Threads : Type 0 where
  pub broker_is_running : Bool
  pub starting : ℕ
  pub looping : ℕ

abbrev pub make : Threads
make = record { broker_is_running = false; starting = 0; looping = 0 }

unfoldable pub is_brokering : Threads → Bool
is_brokering t = t.broker_is_running

-- The critical section of `start`; the result is whether a thread is launched.
unfoldable pub launch : Threads → Threads × Bool
launch t =
    if t.broker_is_running then (t, false) else (record t { starting = suc t.starting }, true)

unfoldable pub set_is_brokering : Threads → Bool → Threads
set_is_brokering t running = record t { broker_is_running = running }

-- A thread comes to its loop.
unfoldable pub begin_loop : Threads → Threads
unfolding set_is_brokering
begin_loop t =
    set_is_brokering (record t { starting = t.starting - 1; looping = t.looping + 1 }) true

-- A thread leaves its loop, whose test it made.
unfoldable pub end_loop : Threads → Threads
end_loop t = record t { looping = t.looping - 1 }

-- `start` is made of `launches` and `started`, which returns from the wait; `stops` is the first half of
-- `stop`, and all of what a signal does; `joined` is the end of `join`.
pub data Step : Threads → Threads → Type 0 where
  launches : (t : Threads) → Step t (launch t).0
  started : (t : Threads) → t.broker_is_running ≡ true → Step t t
  begins : (t : Threads) (n : ℕ) → t.starting ≡ suc n → Step t (begin_loop t)
  stops : (t : Threads) → Step t (set_is_brokering t false)
  ends : (t : Threads) (n : ℕ) → t.looping ≡ suc n → is_brokering t ≡ false → Step t (end_loop t)
  joined : (t : Threads) → t.starting + t.looping ≡ 0 → Step t t

-- What the callers must see to: `start` is not called while a thread is on its way to its loop, nor
-- while one that was told to stop has not left it.
unfoldable pub IsCareful : {t u : Threads} → Step t u → Type 0
IsCareful (launches t) = (t.broker_is_running ≡ false → t.starting + t.looping ≡ 0)
IsCareful (started t h) = Unit
IsCareful (begins t n h) = Unit
IsCareful (stops t) = Unit
IsCareful (ends t n h k) = Unit
IsCareful (joined t h) = Unit

pub data Reach : Threads → Type 0 where
  constructed : Reach make
  steps : {t u : Threads} → Reach t → (s : Step t u) → IsCareful s → Reach u
