-- ===== src/Calendar/Advance.antt =====
-- companion/tpf2mp/calendar_model.py, lines 22 to 44: what the advance of a date keeps, and how far it
-- can go.
use mathlib.Core.Path.{subst}
use tpf2mp.Calendar.{
  CalendarError, invalid_date, invalid_number, out_of_range, WireDate, Date, exists_date, next_day,
  days_after, days_in_month, normalize_date, add_days, wire_date, min_year, max_year,
}
use tpf2mp.Base.{
  err, leb, sym, ◌&&◌, Bool-cases, ◌⊎◌, inl, inr, Result, if◌then◌else◌, none, some, ℕ, zero, suc,
  ◌+◌, ◌*◌, ◌≤◌, ◌≡◌, refl, true, false, arith, ok, ok_of->>=,
}
use tpf2mp.Base.Wire.{wire, wire_integer, wire_integer-wire, wire_integer-within}

-- A date that exists, in the years that the code allows.
pub record IsDate (d : Date) : Type 0 where
  pub in_calendar : exists_date d ≡ true
  pub not_before : min_year ≤ d.year
  pub not_after : d.year ≤ max_year

pub days_in_month_bounds : (y m : ℕ) → (28 ≤ days_in_month y m) × (days_in_month y m ≤ 31)
unfolding days_in_month
days_in_month_bounds y m = ground arith

pub next_day-exists_date : (d : Date) → exists_date d ≡ true → exists_date (next_day d) ≡ true
unfolding next_day exists_date
next_day-exists_date d h =
    ground (arith, days_in_month_bounds d.year (d.month + 1), days_in_month_bounds (d.year + 1) 1)

pub next_day-year : (d : Date) → d.year ≤ (next_day d).year
unfolding next_day
next_day-year d = ground arith

-- A number that grows with every day.
abbrev day_number : Date → ℕ
day_number d = d.year * 372 + d.month * 31 + d.day

next_day-day_number : (d : Date) → exists_date d ≡ true → day_number d + 1 ≤ day_number (next_day d)
unfolding next_day exists_date
next_day-day_number d h = ground (arith, days_in_month_bounds d.year d.month)

pub days_after-exists_date :
    (n : ℕ) (d : Date) → exists_date d ≡ true → exists_date (days_after n d) ≡ true
unfolding days_after
days_after-exists_date zero d h = h
days_after-exists_date (suc n) d h =
    days_after-exists_date n (next_day d) (next_day-exists_date d h)

pub days_after-year : (n : ℕ) (d : Date) → d.year ≤ (days_after n d).year
unfolding days_after
days_after-year zero d = omega arith
days_after-year (suc n) d = omega (arith, next_day-year d, days_after-year n (next_day d))

days_after-day_number :
    (n : ℕ) (d : Date) → exists_date d ≡ true → day_number d + n ≤ day_number (days_after n d)
unfolding days_after
days_after-day_number zero d h = omega arith
days_after-day_number (suc n) d h = omega (
  arith,
  next_day-day_number d h,
  days_after-day_number n (next_day d) (next_day-exists_date d h),
)

pub days_after-add : (m n : ℕ) (d : Date) → days_after (m + n) d ≡ days_after n (days_after m d)
unfolding days_after
days_after-add zero n d = let start : 0 + n ≡ n = omega arith in rw start refl
days_after-add (suc m) n d =
    let shift : suc m + n ≡ suc (m + n) = omega arith in rw shift (days_after-add m n (next_day d))

exists_date-day_number :
    (d : Date) → exists_date d ≡ true → d.year ≤ max_year → day_number d ≤ 3_720_031
unfolding exists_date
exists_date-day_number d h k = ground (arith, days_in_month_bounds d.year d.month)

-- No more days than an accepted `delta` lie between two dates of the years allowed.
pub days_after-le_max :
    (n : ℕ) (d : Date) → IsDate d → (days_after n d).year ≤ max_year → n ≤ 10_000_000
days_after-le_max n d h k = omega (
  arith,
  days_after-day_number n d h.in_calendar,
  exists_date-day_number (days_after n d) (days_after-exists_date n d h.in_calendar) k,
)

pub normalize_date-wire_date : (d : Date) → IsDate d → normalize_date (wire_date d) ≡ ok d
unfolding normalize_date wire_date wire_integer exists_date
normalize_date-wire_date d h =
    ground (arith, h.in_calendar, h.not_before, h.not_after, days_in_month_bounds d.year d.month)

existing_date :
    (date d : Date)
    → min_year ≤ date.year
    → date.year ≤ max_year
    → ◌≡◌ {A = Result CalendarError Date}
        (if exists_date date then ok date else err invalid_date)
        (ok d)
    → IsDate d × (date ≡ d)
existing_date date d low high h = go (Bool-cases (exists_date date))
  where
    go : (exists_date date ≡ true) ⊎ (exists_date date ≡ false) → IsDate d × (date ≡ d)
    go (inl e) =
        let same : date ≡ d = cc in
        (subst IsDate same (record { in_calendar = e; not_before = low; not_after = high }), same)
    go (inr e) = absurd (cc)

-- What `normalize_date` accepts is a date, written as a mapping of its three numbers.
pub normalize_date-IsDate :
    (value : WireDate) (d : Date) → normalize_date value ≡ ok d → IsDate d × (value ≡ wire_date d)
unfolding normalize_date wire_date
normalize_date-IsDate none d h = absurd (cc)
normalize_date-IsDate (some value) d h =
    let (year, after_year, y) =
      ok_of->>= (wire_integer invalid_number value.year min_year max_year) _ h in
    let (month, after_month, m) =
      ok_of->>= (wire_integer invalid_number value.month 1 12) _ after_year in
    let (day, after_day, n) =
      ok_of->>= (wire_integer invalid_number value.day 1 31) _ after_month in
    let (low, high, year_eq) =
      wire_integer-within invalid_number value.year min_year max_year year y in
    let (_, _, month_eq) = wire_integer-within invalid_number value.month 1 12 month m in
    let (_, _, day_eq) = wire_integer-within invalid_number value.day 1 31 day n in
    let date : Date = record { year = year; month = month; day = day } in
    let (valid, same) = existing_date date d low high after_day in
    (valid, subst (λ e. some value ≡ wire_date e) same (ground (arith, year_eq, month_eq, day_eq)))

pub add_days-wire_date :
    (d : Date) (n : ℕ)
    → IsDate d
    → n ≤ 10_000_000
    → add_days (wire_date d) n
      ≡ (if leb (days_after n d).year max_year then ok (days_after n d) else err out_of_range)
unfolding add_days
add_days-wire_date d n h k =
    rw
      (
        normalize_date-wire_date d h,
        wire_integer-wire invalid_number n 0 10_000_000 (omega arith) k,
      )
      (ground (arith, days_after-year n d, h.not_before))

date_in_range :
    (date e : Date)
    → exists_date date ≡ true
    → ◌≡◌ {A = Result CalendarError Date}
        (if leb min_year date.year && leb date.year max_year then ok date else err out_of_range)
        (ok e)
    → (e ≡ date) × IsDate e
date_in_range date e valid h = go (Bool-cases (leb min_year date.year && leb date.year max_year))
  where
    go :
        let inside = leb min_year date.year && leb date.year max_year in
        (inside ≡ true) ⊎ (inside ≡ false) → (e ≡ date) × IsDate e
    go (inl inside) =
        let same : date ≡ e = cc in
        let low : min_year ≤ date.year = ground arith in
        let high : date.year ≤ max_year = ground arith in
        let date_ok : IsDate date = record {
          in_calendar = valid;
          not_before = low;
          not_after = high;
        } in
        (sym same, subst IsDate same date_ok)
    go (inr outside) = absurd (cc)

pub add_days-IsDate :
    (d e : Date) (n : ℕ)
    → IsDate d
    → add_days (wire_date d) n ≡ ok e
    → (e ≡ days_after n d) × (n ≤ 10_000_000) × IsDate e
unfolding add_days
add_days-IsDate d e n h a =
    let (current, after_current, c) = ok_of->>= (normalize_date (wire_date d)) _ a in
    let (m, after_delta, k) =
      ok_of->>= (wire_integer invalid_number (wire n) 0 10_000_000) _ after_current in
    let (_, below, same) = wire_integer-within invalid_number (wire n) 0 10_000_000 m k in
    let delta : m ≡ n = ground (arith, same) in
    let start : current ≡ d = ground (arith, c, normalize_date-wire_date d h) in
    let begins : exists_date current ≡ true = rw start h.in_calendar in
    let (ends, valid) =
      date_in_range (days_after m current) e (days_after-exists_date m current begins)
        after_delta in
    (cc, omega (arith, delta), valid)
