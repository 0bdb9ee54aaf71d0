-- ===== src/Deadlines/Suspension.antt =====
-- `synchronize` of paused_deadline.py poll by poll: deadlines against paused time.
use mathlib.Core.Path.{sym}
use tpf2mp.Base.{
  ℕ, ◌+◌, ◌-◌, ◌≡◌, refl, Bool, true, false, ◌||◌, none, some, List, [], ◌∷◌, map, keep, any, arith,
  if◌then◌else◌, Bool-cases, inl, inr,
}
use tpf2mp.Deadlines.{
  Tracker, Registry, is_some, is_pending, settle, suspend, on_pending, synchronize, poll,
}

-- Without a pause every pending tracker is settled: where the guard says no, none is paused.
unpaused_settle :
    (now : ℕ) (trackers : List Tracker)
    → any (λ (t : Tracker). is_some t.timeout_paused_at) (keep is_pending trackers) ≡ false
    → map (on_pending (λ tracker. settle tracker now true)) trackers ≡ trackers
unfolding settle
unpaused_settle now [] h = refl
unpaused_settle now (t ∷ trackers) h = ground (arith, unpaused_settle now trackers)

pub trackers-synchronize :
    (paused : Bool) (now : ℕ) (registry : Registry) (trackers : List Tracker)
    → (synchronize paused now (registry, trackers)).1 ≡ (
        if paused
        then map (on_pending (suspend now)) trackers
        else map (on_pending (λ tracker. settle tracker now true)) trackers)
unfolding synchronize
trackers-synchronize true now registry trackers = refl
trackers-synchronize false now registry trackers =
    elim (Bool-cases (
      is_some registry.pause_started_at
      || any (λ (t : Tracker). is_some t.timeout_paused_at) (keep is_pending trackers))) [
        | inl settles ↦ rw settles refl
        | inr idle ↦ rw idle (sym (unpaused_settle now trackers (ground arith)))
      ]

-- What a deadline has gained is what the pauses have lasted.
abbrev pub Extended : Tracker → Tracker → Type 0
Extended before after =
    after.deadline + before.paused_duration ≡ before.deadline + after.paused_duration

abbrev pub AllExtended : List Tracker → List Tracker → Type 0
AllExtended [] [] = Unit
AllExtended (before ∷ befores) (after ∷ afters) = Extended before after × AllExtended befores afters
AllExtended _ _ = ⊥

AllExtended-refl : (trackers : List Tracker) → AllExtended trackers trackers
AllExtended-refl [] = tt
AllExtended-refl (t ∷ trackers) = (refl, AllExtended-refl trackers)

AllExtended-trans : (a b c : List Tracker) → AllExtended a b → AllExtended b c → AllExtended a c
AllExtended-trans [] [] [] h k = tt
AllExtended-trans (x ∷ a) (y ∷ b) (z ∷ c) h k =
    (omega (arith, h.0, k.0), AllExtended-trans a b c h.1 k.1)
AllExtended-trans [] [] (z ∷ c) h k = elim k [ ]
AllExtended-trans [] (y ∷ b) c h k = elim h [ ]
AllExtended-trans (x ∷ a) [] c h k = elim h [ ]
AllExtended-trans (x ∷ a) (y ∷ b) [] h k = elim k [ ]

suspended-AllExtended :
    (now : ℕ) (trackers : List Tracker)
    → AllExtended trackers (map (on_pending (suspend now)) trackers)
unfolding suspend
suspended-AllExtended now [] = tt
suspended-AllExtended now (t ∷ trackers) = (ground arith, suspended-AllExtended now trackers)

settled-AllExtended :
    (now : ℕ) (trackers : List Tracker)
    → AllExtended trackers (map (on_pending (λ tracker. settle tracker now true)) trackers)
unfolding settle
settled-AllExtended now [] = tt
settled-AllExtended now (t ∷ trackers) = (ground arith, settled-AllExtended now trackers)

synchronize-AllExtended :
    (paused : Bool) (now : ℕ) (registry : Registry) (trackers : List Tracker)
    → AllExtended trackers (synchronize paused now (registry, trackers)).1
synchronize-AllExtended true now registry trackers =
    rw (trackers-synchronize true now registry trackers) (suspended-AllExtended now trackers)
synchronize-AllExtended false now registry trackers =
    rw (trackers-synchronize false now registry trackers) (settled-AllExtended now trackers)

-- Over any polls, a deadline has moved by exactly what was added to its tracker's paused time.
pub poll-AllExtended :
    (samples : List (Bool × ℕ)) (registry : Registry) (trackers : List Tracker)
    → AllExtended trackers (poll samples (registry, trackers)).1
unfolding poll
poll-AllExtended [] registry trackers = AllExtended-refl trackers
poll-AllExtended ((paused, now) ∷ samples) registry trackers =
    let next = synchronize paused now (registry, trackers) in
    AllExtended-trans trackers next.1 (poll samples next).1
      (synchronize-AllExtended paused now registry trackers)
      (poll-AllExtended samples next.0 next.1)

-- A tracker held since a time, and one whose deadline has moved.
abbrev pub held : ℕ → Tracker → Tracker
held since tracker = record tracker { timeout_paused_at = some since }

abbrev pub moved : ℕ → Tracker → Tracker
moved time tracker = record tracker {
  deadline = tracker.deadline + time;
  paused_duration = tracker.paused_duration + time;
}

abbrev pub AllUnpaused : List Tracker → Type 0
AllUnpaused [] = Unit
AllUnpaused (t ∷ trackers) = (t.timeout_paused_at ≡ none) × AllUnpaused trackers

pub suspend-unpaused :
    (now : ℕ) (trackers : List Tracker)
    → AllUnpaused trackers
    → map (on_pending (suspend now)) trackers ≡ map (on_pending (held now)) trackers
unfolding suspend
suspend-unpaused now [] h = refl
suspend-unpaused now (t ∷ trackers) h = ground (arith, suspend-unpaused now trackers)

pub suspend-held :
    (since now : ℕ) (trackers : List Tracker)
    → map (on_pending (suspend now)) (map (on_pending (held since)) trackers)
      ≡ map (on_pending (held since)) trackers
unfolding suspend
suspend-held since now [] = refl
suspend-held since now (t ∷ trackers) = ground (arith, suspend-held since now trackers)

pub settle-held :
    (since now : ℕ) (trackers : List Tracker)
    → AllUnpaused trackers
    → map (on_pending (λ tracker. settle tracker now true)) (map (on_pending (held since)) trackers)
      ≡ map (on_pending (moved (now - since))) trackers
unfolding settle
settle-held since now [] h = refl
settle-held since now (t ∷ trackers) h = ground (arith, settle-held since now trackers)
