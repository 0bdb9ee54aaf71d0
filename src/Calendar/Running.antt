-- ===== src/Calendar/Running.antt =====
-- companion/tpf2mp/calendar_model.py, lines 90 to 121: when a settlement is accepted.
use tpf2mp.Calendar.{
  CalendarError, Calendar, Payload, Date, days_after, prepare, advance, moves, add_days,
  stored_date, max_year, invalid_number, not_initialised, wrong_epoch,
}
use tpf2mp.Calendar.Advance.{
  IsDate, days_after-le_max, days_after-add, days_after-exists_date, days_after-year,
  add_days-wire_date,
}
use tpf2mp.Calendar.Migration.{IsCalendar}
use tpf2mp.Calendar.Settlement.{OnDay}
use tpf2mp.Base.{
  ℕ, ◌+◌, ◌*◌, ◌/◌, ◌≤◌, ◌≡◌, refl, Bool, true, false, not, Result, ok, ◌>>◌, raise_if, arith, sym,
  ◌∙◌, Runs, Runs->>=, ◌==◌, if◌then◌else◌,
}
use tpf2mp.Base.Wire.{wire_integer-wire}

-- The days that have passed since the start date after a settlement that moves the date.
abbrev days_reached : Calendar → ℕ → ℕ
days_reached c seconds = c.elapsed_days + (c.residual_millis + seconds * 1000) / c.millis_per_day

guarded :
    {A E : Type 0} {a : A} {guard : Result E (Unit {0})} {rest : Result E A}
    → guard ≡ ok tt
    → rest ≡ ok a
    → guard >> rest ≡ ok a
guarded g r = rw g r

Runs-if :
    {A : Type 0} (b : Bool) (x y : Result CalendarError A)
    → Runs x
    → Runs y
    → Runs (if b then x else y)
Runs-if true x y h k = h
Runs-if false x y h k = k

module _ (c : Calendar) (start : Date) (seconds : ℕ) (valid : IsCalendar c)
    (day : OnDay c start) where
  advance-runs :
      (days_after (days_reached c seconds) start).year ≤ max_year
      → (m : Calendar × ℕ) × (advance c seconds ≡ ok m)
  unfolding advance
  advance-runs range =
      let days = (c.residual_millis + seconds * 1000) / c.millis_per_day in
      let current = days_after c.elapsed_days start in
      let last : days_after days current ≡ days_after (c.elapsed_days + days) start =
        sym (days_after-add c.elapsed_days days start) in
      let within : (days_after days current).year ≤ max_year = rw last range in
      let current_ok : IsDate current = record {
        in_calendar = days_after-exists_date c.elapsed_days start day.0.in_calendar;
        not_before = omega (arith, day.0.not_before, days_after-year c.elapsed_days start);
        not_after = omega (arith, within, days_after-year days current);
      } in
      let few = days_after-le_max days current current_ok within in
      let added : add_days (stored_date c.current_date) days ≡ ok (days_after days current) =
        rw day.2 (add_days-wire_date current days current_ok few ∙ ground (arith, within)) in
      Runs-if (days == 0) _ _ (_, refl) (Runs->>= _ _ _ added (_, refl))

  -- On a well-formed, initialised calendar that is on its day, a settlement with the next epoch, a
  -- duration of at most a day and a date that stays within the years allowed is accepted: none of
  -- the tests raises.
  pub prepare-runs :
      (epoch : ℕ) (scheduled : Bool)
      → c.initialized ≡ true
      → epoch ≡ c.last_epoch + 1
      → epoch ≤ 1_000_000_000
      → 1 ≤ seconds
      → seconds ≤ 86_400
      → (days_after (days_reached c seconds) start).year ≤ max_year
      → (result : Calendar × Payload) × (prepare c epoch scheduled seconds ≡ ok result)
  unfolding prepare
  prepare-runs epoch scheduled i e h low high range =
      let start_ok : raise_if (not c.initialized) not_initialised ≡ ok tt = ground (arith, i) in
      let next_ok : raise_if (not (epoch == c.last_epoch + 1)) wrong_epoch ≡ ok tt =
        ground (arith, e) in
      Runs->>= _ _ epoch
        (guarded start_ok (wire_integer-wire invalid_number epoch 1 1_000_000_000 (omega arith) h))
        (Runs->>= _ _ seconds
          (guarded next_ok (wire_integer-wire invalid_number seconds 1 86_400 low high))
          (let (m, moved) = Runs-if (moves c scheduled) _ _ (advance-runs range) ((c, 0), refl) in
            Runs->>= _ _ m moved (_, refl)))
