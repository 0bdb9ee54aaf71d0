-- ===== src/Calendar/Migration.antt =====
-- companion/tpf2mp/calendar_model.py, lines 61 to 87: which calendars a stored mapping stands for.
use mathlib.Core.Path.{subst}
use tpf2mp.Calendar.{
  missing_date, or_default, default_millis_per_day, CalendarError, Calendar, CalendarFields, Date,
  WireDate, migrate, migrate_fields, optional_date, residual_check, is_none, new_state,
  invalid_number, normalize_date,
}
use tpf2mp.Calendar.Messages.{wire_calendar, wire_optional}
use tpf2mp.Calendar.Advance.{IsDate, normalize_date-wire_date, normalize_date-IsDate}
use tpf2mp.Base.{
  err, Bool, if◌then◌else◌, ◌≤◌, ◌≡◌, refl, true, false, not, ◌&&◌, Option, none, some, Result,
  arith, ok, ok_of->>=, ok_of->>, ◌>>◌,
}
use tpf2mp.Base.Wire.{wire_integer, wire_integer-wire, wire_integer-within}

-- A date that may be missing.
abbrev pub IsOptionalDate : Option Date → Type 0
IsOptionalDate none = Unit
IsOptionalDate (some d) = IsDate d

pub record IsCalendar (c : Calendar) : Type 0 where
  pub rate_le : c.millis_per_day ≤ 86_400_000
  pub elapsed_le : c.elapsed_days ≤ 10_000_000
  pub residual_le : c.residual_millis ≤ 86_400_000
  pub epoch_le : c.last_epoch ≤ 1_000_000_000
  pub residual_ok : residual_check c.millis_per_day c.residual_millis ≡ ok tt
  pub start_ok : IsOptionalDate c.start_date
  pub current_ok : IsOptionalDate c.current_date
  pub dates_ok :
      c.initialized && not (not (is_none c.start_date) && not (is_none c.current_date)) ≡ false

optional_date-wire_optional :
    (d : Option Date) → IsOptionalDate d → optional_date (wire_optional d) ≡ ok d
optional_date-wire_optional none h = refl
optional_date-wire_optional (some d) h = rw (normalize_date-wire_date d h) refl

pub migrate-wire_calendar : (c : Calendar) → IsCalendar c → migrate (some (wire_calendar c)) ≡ ok c
unfolding migrate migrate_fields wire_calendar
migrate-wire_calendar c h =
    rw
      (
        wire_integer-wire invalid_number c.millis_per_day 0 86_400_000 (omega arith) h.rate_le,
        wire_integer-wire invalid_number c.elapsed_days 0 10_000_000 (omega arith) h.elapsed_le,
        wire_integer-wire invalid_number c.residual_millis 0 86_400_000 (omega arith) h.residual_le,
        wire_integer-wire invalid_number c.last_epoch 0 1_000_000_000 (omega arith) h.epoch_le,
        h.residual_ok,
        optional_date-wire_optional c.start_date h.start_ok,
        optional_date-wire_optional c.current_date h.current_ok,
        h.dates_ok,
      )
      refl

optional_date-IsOptionalDate :
    (value : Option WireDate) (d : Option Date) → optional_date value ≡ ok d → IsOptionalDate d
optional_date-IsOptionalDate none d h = let same : none ≡ d = cc in subst IsOptionalDate same tt
optional_date-IsOptionalDate (some value) d h =
    let (date, after_date, n) = ok_of->>= (normalize_date value) _ h in
    let same : some date ≡ d = cc in
    subst IsOptionalDate same (normalize_date-IsDate value date n).0

complete_calendar :
    (c d : Calendar) (missing : Bool)
    → (missing ≡ false → IsCalendar c)
    → ◌≡◌ {A = Result CalendarError Calendar} (if missing then err missing_date else ok c) (ok d)
    → IsCalendar d
complete_calendar c d true h e = absurd (cc)
complete_calendar c d false h e = let same : c ≡ d = cc in subst IsCalendar same (h refl)

new_state-IsCalendar : IsCalendar new_state
new_state-IsCalendar = record {
  rate_le = omega arith;
  elapsed_le = omega arith;
  residual_le = omega arith;
  epoch_le = omega arith;
  residual_ok = refl;
  start_ok = tt;
  current_ok = tt;
  dates_ok = refl;
}

pub migrate-IsCalendar :
    (value : Option CalendarFields) (c : Calendar) → migrate value ≡ ok c → IsCalendar c
unfolding migrate migrate_fields
migrate-IsCalendar none c h =
    let same : new_state ≡ c = cc in subst IsCalendar same new_state-IsCalendar
migrate-IsCalendar (some value) c h =
    let (millis, after_millis, m) =
      ok_of->>=
        (wire_integer invalid_number (or_default value.millis_per_day default_millis_per_day) 0
          86_400_000)
        _ h in
    let (elapsed, after_elapsed, e) =
      ok_of->>= (wire_integer invalid_number (or_default value.elapsed_days 0) 0 10_000_000) _
        after_millis in
    let (residual, after_residual, r) =
      ok_of->>= (wire_integer invalid_number (or_default value.residual_millis 0) 0 86_400_000) _
        after_elapsed in
    let (epoch, after_epoch, p) =
      ok_of->>= (wire_integer invalid_number (or_default value.last_epoch 0) 0 1_000_000_000) _
        after_residual in
    let (start, after_start, q) =
      ok_of->>= (residual_check millis residual >> optional_date value.start_date) _ after_epoch in
    let (k, s) = ok_of->> (residual_check millis residual) (optional_date value.start_date) q in
    let (current, last, t) = ok_of->>= (optional_date value.current_date) _ after_start in
    complete_calendar _ c _
      (λ complete. record {
        rate_le = (wire_integer-within invalid_number _ 0 86_400_000 millis m).1;
        elapsed_le = (wire_integer-within invalid_number _ 0 10_000_000 elapsed e).1;
        residual_le = (wire_integer-within invalid_number _ 0 86_400_000 residual r).1;
        epoch_le = (wire_integer-within invalid_number _ 0 1_000_000_000 epoch p).1;
        residual_ok = k;
        start_ok = optional_date-IsOptionalDate value.start_date start s;
        current_ok = optional_date-IsOptionalDate value.current_date current t;
        dates_ok = complete;
      })
      last
