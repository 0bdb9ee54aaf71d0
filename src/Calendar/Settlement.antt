-- ===== src/Calendar/Settlement.antt =====
-- companion/tpf2mp/calendar_model.py, lines 90 to 121 and 154 to 161: what a settlement does to the
-- calendar of the host, and what a peer makes of the host's message.
use mathlib.Core.Path.{subst}
use native.Mathlib.Nat.{div-add-mod, mod-lt}
use tpf2mp.Calendar.{
  normalize_date, CalendarError, Calendar, Date, add_days, days_after, advance, stored_date,
}
use tpf2mp.Calendar.Advance.{IsDate, add_days-IsDate, days_after-add}
use tpf2mp.Calendar.Migration.{IsCalendar, IsOptionalDate}
use tpf2mp.Base.{
  ℕ, ◌+◌, ◌*◌, ◌/◌, ◌%◌, ◌≤◌, ◌<◌, ◌≡◌, refl, inl, inr, Option, none, some, ◌==◌, Result, ok, err,
  arith, ap, ok_of->>=, if-cases,
}

-- The current date is the start date, moved on by the days that have passed.
abbrev pub OnDay : Calendar → Date → Type 0
OnDay c start =
    IsDate start
    × (c.start_date ≡ some start)
    × (c.current_date ≡ some (days_after c.elapsed_days start))

-- The fields that no settlement changes.
abbrev pub SameRules : Calendar → Calendar → Type 0
SameRules c d =
    (c.managed ≡ d.managed)
    × (c.initialized ≡ d.initialized)
    × (c.millis_per_day ≡ d.millis_per_day)
    × (c.start_date ≡ d.start_date)
    × (c.last_epoch ≡ d.last_epoch)

-- What `advance` does where it does not raise.
pub record Advanced (c d : Calendar) (days seconds : ℕ) : Type 0 where
  pub rules : SameRules c d
  pub conserved : days * c.millis_per_day + d.residual_millis ≡ c.residual_millis + seconds * 1000
  pub below : d.residual_millis < c.millis_per_day
  pub elapsed : d.elapsed_days ≡ c.elapsed_days + days
  pub days_le : days ≤ 10_000_000
  pub current_ok : IsOptionalDate d.current_date
  pub on_day : (start : Date) → OnDay c start → OnDay d start

stored_date-add_days :
    (stored : Option Date) (n : ℕ) (date : Date)
    → IsOptionalDate stored
    → add_days (stored_date stored) n ≡ ok date
    → (d : Date) × (stored ≡ some d) × (date ≡ days_after n d) × (n ≤ 10_000_000) × IsDate date
unfolding add_days normalize_date
stored_date-add_days none n date h a = absurd (cc)
stored_date-add_days (some d) n date h a =
    let (moved, few, valid) = add_days-IsDate d date n h a in (d, refl, moved, few, valid)

module _ (c : Calendar) (seconds : ℕ) (valid : IsCalendar c) (positive : 0 < c.millis_per_day) where
  abbrev accumulated : ℕ
  accumulated = c.residual_millis + seconds * 1000

  abbrev quotient : ℕ
  quotient = accumulated / c.millis_per_day

  abbrev left_over : ℕ
  left_over = accumulated % c.millis_per_day

  stay_Advanced : quotient ≡ 0 → Advanced c (record c { residual_millis = left_over }) 0 seconds
  stay_Advanced e = record {
    rules = (refl, refl, refl, refl, refl);
    conserved = grind (arith, div-add-mod accumulated c.millis_per_day);
    below = mod-lt accumulated positive;
    elapsed = omega arith;
    days_le = omega arith;
    current_ok = valid.current_ok;
    on_day = λ start h. h;
  }

  move_Advanced :
      (date : Date)
      → add_days (stored_date c.current_date) quotient ≡ ok date
      → Advanced c
          (record c {
            residual_millis = left_over;
            current_date = some date;
            elapsed_days = c.elapsed_days + quotient;
          })
          quotient
          seconds
  move_Advanced date a =
      let (old, stored, moved, few, date_ok) =
        stored_date-add_days c.current_date quotient date valid.current_ok a in
      record {
        rules = (refl, refl, refl, refl, refl);
        conserved = grind (arith, div-add-mod accumulated c.millis_per_day);
        below = mod-lt accumulated positive;
        elapsed = refl;
        days_le = few;
        current_ok = date_ok;
        on_day = λ start h. (
          h.0,
          h.1,
          ap some (cc (moved, days_after-add c.elapsed_days quotient start, h.2, stored)),
        );
      }

  abbrev AdvancedOf : Result CalendarError (Calendar × ℕ) → Type 0
  AdvancedOf (err e) = Unit
  AdvancedOf (ok (d, days)) = Advanced c d days seconds

  pub advance-Advanced :
      (d : Calendar) (days : ℕ) → advance c seconds ≡ ok (d, days) → Advanced c d days seconds
  unfolding advance
  advance-Advanced d days h = elim (if-cases (quotient == 0) _ _ _ h) [
    | inl (e, same) ↦ subst AdvancedOf same (stay_Advanced (ground arith))
    | inr (e, moved) ↦
        let (date, same, a) = ok_of->>= (add_days (stored_date c.current_date) quotient) _ moved in
        subst AdvancedOf same (move_Advanced date a)
  ]
