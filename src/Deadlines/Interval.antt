-- ===== src/Deadlines/Interval.antt =====
-- `synchronize` of paused_deadline.py over one whole pause.
use tpf2mp.Base.{ℕ, ◌-◌, ◌≡◌, ap, ◌∙◌, Bool, true, false, List, [], ◌∷◌, ◌++◌, map}
use tpf2mp.Deadlines.{Tracker, Registry, settle, suspend, on_pending, synchronize, poll}
use tpf2mp.Deadlines.Suspension.{
  held, moved, AllUnpaused, suspend-unpaused, suspend-held, settle-held, trackers-synchronize,
}

abbrev paused_at : ℕ → Bool × ℕ
paused_at now = (true, now)

-- The polls of a pause that has begun, up to its end.
abbrev pub until : List ℕ → ℕ → List (Bool × ℕ)
until times finish = map paused_at times ++ (false, finish) ∷ []

poll-held :
    (since finish : ℕ) (times : List ℕ) (registry : Registry) (trackers now_held : List Tracker)
    → AllUnpaused trackers
    → now_held ≡ map (on_pending (held since)) trackers
    → (poll (until times finish) (registry, now_held)).1
      ≡ map (on_pending (moved (finish - since))) trackers
unfolding poll
poll-held since finish [] registry trackers now_held h e =
    trackers-synchronize false finish registry now_held
    ∙ ap (map (on_pending (λ tracker. settle tracker finish true))) e
    ∙ settle-held since finish trackers h
poll-held since finish (now ∷ times) registry trackers now_held h e =
    let next = synchronize true now (registry, now_held) in
    poll-held since finish times next.0 trackers next.1 h (
      trackers-synchronize true now registry now_held
      ∙ ap (map (on_pending (suspend now))) e
      ∙ suspend-held since now trackers)

-- A pause that begins at one poll and is over at another, with any polls between, moves the deadline
-- of every pending tracker that was not paused by the time between the two, adds that time to its
-- paused time, and leaves it not paused; other trackers stay as they are.
pub poll_pause :
    (begin finish : ℕ) (times : List ℕ) (registry : Registry) (trackers : List Tracker)
    → AllUnpaused trackers
    → (poll ((true, begin) ∷ until times finish) (registry, trackers)).1
      ≡ map (on_pending (moved (finish - begin))) trackers
unfolding poll
poll_pause begin finish times registry trackers h =
    let next = synchronize true begin (registry, trackers) in
    poll-held begin finish times next.0 trackers next.1 h
      (trackers-synchronize true begin registry trackers ∙ suspend-unpaused begin trackers h)
