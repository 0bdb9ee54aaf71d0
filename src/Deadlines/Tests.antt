-- ===== src/Deadlines/Tests.antt =====
-- Runs of deadlines.
use tpf2mp.Base.{ℕ, ◌-◌, ◌≡◌, refl, String, true, false, none, List, [], ◌∷◌, map}
use tpf2mp.Deadlines.{
  Tracker, Registry, on_pending, settle, suspend, synchronize, paused_rounds, poll,
}
use tpf2mp.Deadlines.Suspension.{AllExtended, poll-AllExtended, moved}
use tpf2mp.Deadlines.Interval.{until, poll_pause}

abbrev tracker : String → ℕ → Tracker
tracker status deadline = record {
  status = status;
  deadline = deadline;
  paused_duration = 0;
  timeout_paused_at = none;
}

abbrev registry : Registry
registry = record { timeout = 30; pause_started_at = none }

abbrev trackers : List Tracker
trackers = tracker "pending" 130 ∷ tracker "complete" 90 ∷ []

-- A pause from 110 to 150 moves the pending deadline to 170 and not the other.
pauses :
    map
      (λ (t : Tracker). t.deadline)
      (poll ((true, 110) ∷ until (115 ∷ 140 ∷ []) 150) (registry, trackers)).1
    ≡ 170 ∷ 90 ∷ []
unfolding poll synchronize suspend settle
pauses = refl

suspends : paused_rounds (synchronize true 110 (registry, trackers)).1 ≡ 1
unfolding paused_rounds synchronize suspend
suspends = refl

poll-AllExtended_example :
    AllExtended trackers (poll ((true, 5) ∷ (false, 9) ∷ (true, 12) ∷ []) (registry, trackers)).1
poll-AllExtended_example =
    poll-AllExtended ((true, 5) ∷ (false, 9) ∷ (true, 12) ∷ []) registry trackers

poll_pause_example :
    (poll ((true, 110) ∷ until (115 ∷ 140 ∷ []) 150) (registry, trackers)).1
    ≡ map (on_pending (moved (150 - 110))) trackers
poll_pause_example = poll_pause 110 150 (115 ∷ 140 ∷ []) registry trackers (refl, (refl, tt))
