-- ===== src/Deadlines.antt =====
-- companion/tpf2mp/paused_deadline.py, lines 111 to 180: deadlines that stand still while the game is
-- paused. A time is a number of clock ticks; where the clock stands earlier than a recorded time, the
-- source's `max(0.0, ...)` and the subtraction here both give 0. A shared list of trackers is the list
-- that an operation returns.
pub mod Suspension
pub mod Interval
mod Tests
use tpf2mp.Base.{
  ℕ, ◌+◌, ◌-◌, String, Bool, true, false, not, ◌||◌, Option, none, some, List, [], ◌∷◌, map, keep,
  any, length, str_eq, if◌then◌else◌, or_else,
}

-- `pausedDuration` counts as 0 where it is missing.
pub record Tracker : Type 0 where
  pub status : String
  pub deadline : ℕ
  pub paused_duration : ℕ
  pub timeout_paused_at : Option ℕ

pub record Registry : Type 0 where
  pub timeout : ℕ
  pub pause_started_at : Option ℕ

abbrev pub is_some {ℓ} : {A : Type ℓ} → Option A → Bool
is_some none = false
is_some (some a) = true

-- `status not in _TERMINAL_STATES`
abbrev pub is_pending : Tracker → Bool
is_pending tracker = not (str_eq tracker.status "complete" || str_eq tracker.status "faulted")

-- How long the tracker has been paused since `timeoutPausedAt`.
abbrev pub duration : ℕ → Option ℕ → ℕ
duration now none = 0
duration now (some paused_at) = now - paused_at

-- `_settle`, with the tracker after it.
unfoldable pub settle : Tracker → ℕ → Bool → Tracker
settle tracker now extend_deadline =
    let paused = duration now tracker.timeout_paused_at in
    record tracker {
      timeout_paused_at = none;
      paused_duration = tracker.paused_duration + paused;
      deadline = if extend_deadline then tracker.deadline + paused else tracker.deadline;
    }

-- `tracker.setdefault("timeoutPausedAt", now)`
unfoldable pub suspend : ℕ → Tracker → Tracker
suspend now tracker = record tracker {
  timeout_paused_at = some (or_else tracker.timeout_paused_at now);
}

abbrev pub on_pending : (Tracker → Tracker) → Tracker → Tracker
on_pending change tracker = if is_pending tracker then change tracker else tracker

-- `synchronize`, where `paused` is what `pause_active()` says. Its result is `paused`.
unfoldable pub synchronize : Bool → ℕ → Registry × List Tracker → Registry × List Tracker
unfolding settle suspend
synchronize paused now (registry, trackers) =
    if paused
    then (
      record registry { pause_started_at = some (or_else registry.pause_started_at now) },
      map (on_pending (suspend now)) trackers,
    )
    else if is_some registry.pause_started_at
        || any (λ (t : Tracker). is_some t.timeout_paused_at) (keep is_pending trackers)
    then (
      record registry { pause_started_at = none },
      map (on_pending (λ tracker. settle tracker now true)) trackers,
    )
    else (registry, trackers)

-- `register`, `reset` and `complete`.
unfoldable pub register : Registry → Tracker → ℕ → Tracker
unfolding suspend
register registry tracker now =
    if is_some registry.pause_started_at then suspend now tracker else tracker

unfoldable pub reset : Registry → Tracker → ℕ → Tracker
unfolding settle
reset registry tracker now = record (settle tracker now false) {
  deadline = now + registry.timeout;
  timeout_paused_at = if is_some registry.pause_started_at then some now else none;
}

unfoldable pub complete : Tracker → ℕ → ℕ × Tracker
unfolding settle
complete tracker now = let after = settle tracker now false in (after.paused_duration, after)

-- `timeoutPausedRounds` of `status`; the other two fields are the registry's.
unfoldable pub paused_rounds : List Tracker → ℕ
paused_rounds trackers =
    length (keep (λ (t : Tracker). is_some t.timeout_paused_at) (keep is_pending trackers))

-- The host's polls: each synchronizes at its time.
unfoldable pub poll : List (Bool × ℕ) → Registry × List Tracker → Registry × List Tracker
unfolding synchronize
poll [] world = world
poll ((paused, now) ∷ samples) world = poll samples (synchronize paused now world)
