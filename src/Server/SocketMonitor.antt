-- ===== src/Server/SocketMonitor.antt =====
-- remus/server/detail/SocketMonitor.h and SocketMonitor.cxx. A socket identity is a number: its rank
-- in the order of `SocketIdentity::operator<`, which is by size and then by bytes, so that the empty
-- identity is 0. Each operation that reads the clock takes the time that it reads.
use remus.Prelude.{
  ℕ, ◌+◌, ◌*◌, max, ℤ, pos_part, ◌≡◌, refl, ap, ◌∙◌, Bool, true, false, not, none, some, List, [],
  ◌∷◌, arith, ltb, ◌==◌, if◌then◌else◌, Option-cases, inl, inr,
}
use remus.Std.Map
use remus.Common.PollingMonitor
use remus.Common.PollingMonitor.{PollingMonitor}

-- Milliseconds between beats, and the time of the last one.
pub record BeatInfo : Type 0 where
  pub duration : ℕ
  pub last_occurrence : ℕ

pub record SocketMonitor : Type 0 where
  pub poll_monitor : PollingMonitor
  pub heart_beats : List (ℕ × BeatInfo)

-- `BeatInfo()`; its time is written before it is ever read.
abbrev pub no_beat : BeatInfo
no_beat = record { duration = 0; last_occurrence = 0 }

unfoldable pub make : PollingMonitor → SocketMonitor
make p = record { poll_monitor = p; heart_beats = [] }

unfoldable pub exists : SocketMonitor → ℕ → Bool
exists m socket = Map.has_key socket m.heart_beats

unfoldable pub refresh : SocketMonitor → ℕ → ℕ → SocketMonitor
refresh m now socket = record m {
  heart_beats =
      Map.adjust socket
        (λ beat. record {
          last_occurrence = now;
          duration = max beat.duration (PollingMonitor.max_time_out_ms m.poll_monitor);
        })
        (Map.insert socket no_beat m.heart_beats);
}

-- The maximum of a signed duration with the time out, which is not negative.
unfoldable pub heartbeat : SocketMonitor → ℕ → ℕ → ℤ → SocketMonitor
heartbeat m now socket dur = record m {
  heart_beats =
      Map.adjust socket
        (λ beat. record {
          last_occurrence = now;
          duration = max (pos_part dur) (PollingMonitor.max_time_out_ms m.poll_monitor);
        })
        (Map.insert socket no_beat m.heart_beats);
}

unfoldable pub heartbeat_interval : SocketMonitor → ℕ → ℕ
heartbeat_interval m socket = elim (Map.lookup socket m.heart_beats) [
  | none ↦ 0
  | some beat ↦ beat.duration
]

unfoldable pub mark_as_dead : SocketMonitor → ℕ → SocketMonitor
mark_as_dead m socket = record m { heart_beats = Map.erase socket m.heart_beats }

unfoldable pub is_dead : SocketMonitor → ℕ → Bool
unfolding exists
is_dead m socket = not (exists m socket)

-- Twice the promised duration, in microseconds, has passed since the last beat.
unfoldable pub is_late : BeatInfo → ℕ → Bool
is_late beat now = ltb (beat.last_occurrence + beat.duration * 2 * 1000) now

unfoldable pub is_unresponsive : SocketMonitor → ℕ → ℕ → Bool
unfolding is_late
is_unresponsive m now socket = elim (Map.lookup socket m.heart_beats) [
  | none ↦ true
  | some beat ↦ if PollingMonitor.has_abnormal_event m.poll_monitor then false else is_late beat now
]

-- What the server does to the monitor of its sockets.
pub data Event : Type 0 where
  refreshes : ℕ → ℕ → Event
  beats : ℕ → ℕ → ℤ → Event
  dies : ℕ → Event
  polls : ℕ → Event

unfoldable pub step : SocketMonitor → Event → SocketMonitor
step m (refreshes now socket) = refresh m now socket
step m (beats now socket dur) = heartbeat m now socket dur
step m (dies socket) = mark_as_dead m socket
step m (polls now) = record m { poll_monitor = PollingMonitor.poll_occurred m.poll_monitor now }

unfoldable pub run : SocketMonitor → List Event → SocketMonitor
unfolding step
run m [] = m
run m (e ∷ es) = run (step m e) es

lookup-upsert :
    (k j : ℕ) (f : BeatInfo → BeatInfo) (m : List (ℕ × BeatInfo))
    → Map.lookup j (Map.adjust k f (Map.insert k no_beat m)) ≡ (
        if k == j
        then some (f (elim (Map.lookup k m) [ none ↦ no_beat | some b ↦ b ]))
        else Map.lookup j m)
lookup-upsert k j f m = elim (Option-cases (Map.lookup k m)) [
  | inl e ↦
      ground
        (arith, Map.lookup-adjust k j f (Map.insert k no_beat m), Map.lookup-insert k j no_beat m e)
  | inr (b, e) ↦ ground (arith, Map.lookup-adjust k j f m, Map.insert_old k no_beat m e)
]

-- After a heartbeat the socket is unresponsive exactly if polling is normal and more than twice the
-- longer of the promised duration and the polling limit has passed; and every other socket is as
-- responsive as it was.
pub is_unresponsive-heartbeat :
    (m : SocketMonitor) (t now w j : ℕ) (dur : ℤ)
    → is_unresponsive (heartbeat m t w dur) now j ≡ (
        if w == j
        then if PollingMonitor.has_abnormal_event m.poll_monitor
          then false
          else ltb
              (t + max (pos_part dur) (PollingMonitor.max_time_out_ms m.poll_monitor) * 2 * 1000)
              now
        else is_unresponsive m now j)
unfolding is_unresponsive heartbeat
is_unresponsive-heartbeat m t now w j dur = ground (
  arith,
  lookup-upsert w j
      (λ beat. record {
        last_occurrence = t;
        duration = max (pos_part dur) (PollingMonitor.max_time_out_ms m.poll_monitor);
      })
      m.heart_beats,
)

-- Whether a history leaves the socket known: it beat or was refreshed since it last died.
abbrev pub known : ℕ → Bool → List Event → Bool
known j before [] = before
known j before (refreshes now w ∷ es) = known j (if w == j then true else before) es
known j before (beats now w dur ∷ es) = known j (if w == j then true else before) es
known j before (dies w ∷ es) = known j (if w == j then false else before) es
known j before (polls now ∷ es) = known j before es

has_key-upsert :
    (k j : ℕ) (f : BeatInfo → BeatInfo) (m : List (ℕ × BeatInfo))
    → Map.has_key j (Map.adjust k f (Map.insert k no_beat m))
      ≡ (if k == j then true else Map.has_key j m)
unfolding Map.has_key
has_key-upsert k j f m = ground (arith, lookup-upsert k j f m)

has_key-erase :
    (k j : ℕ) (m : List (ℕ × BeatInfo))
    → Map.has_key j (Map.erase k m) ≡ (if k == j then false else Map.has_key j m)
unfolding Map.has_key
has_key-erase k j m = ground (arith, Map.lookup-erase k j m)

run-exists :
    (m : SocketMonitor) (es : List Event) (j : ℕ) → exists (run m es) j ≡ known j (exists m j) es
unfolding run exists step refresh heartbeat mark_as_dead
run-exists m [] j = refl
run-exists m (refreshes now w ∷ es) j =
    run-exists (refresh m now w) es j ∙ ap (λ b. known j b es) (has_key-upsert w j _ m.heart_beats)
run-exists m (beats now w dur ∷ es) j =
    run-exists (heartbeat m now w dur) es j
    ∙ ap (λ b. known j b es) (has_key-upsert w j _ m.heart_beats)
run-exists m (dies w ∷ es) j =
    run-exists (mark_as_dead m w) es j ∙ ap (λ b. known j b es) (has_key-erase w j m.heart_beats)
run-exists m (polls now ∷ es) j = run-exists (step m (polls now)) es j

-- After any history of the monitor a socket is dead exactly if it did not beat and was not refreshed
-- since it was last marked as dead, and, where it never was, it was dead at the start.
pub run-is_dead :
    (m : SocketMonitor) (es : List Event) (j : ℕ)
    → is_dead (run m es) j ≡ not (known j (exists m j) es)
unfolding is_dead
run-is_dead m es j = ap not (run-exists m es j)
