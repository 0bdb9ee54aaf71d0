-- ===== src/Calendar/Dates.antt =====
-- companion/tpf2mp/calendar_model.py, lines 13 to 44: dates, their normal form and their advance. Of
-- Python's `datetime` the code uses which dates exist and `date + timedelta(days=n)`: the n-th day
-- after a date, an error after 9999-12-31.
use tpf2mp.Base.{
  ℕ, zero, suc, ◌+◌, ◌%◌, Bool, not, ◌&&◌, ◌||◌, Option, none, some, ltb, leb, ◌==◌, if◌then◌else◌,
  Result, ok, err, ◌>>=◌,
}
use tpf2mp.Base.Wire.{Wire, wire, wire_integer}

pub data CalendarError : Type 0 where
  malformed_date invalid_number invalid_date out_of_range : CalendarError
  paused_residual missing_date not_initialised wrong_epoch : CalendarError
  malformed_payload payload_diverges : CalendarError

pub record Date : Type 0 where
  pub year : ℕ
  pub month : ℕ
  pub day : ℕ

abbrev pub min_year : ℕ
min_year = 1400

abbrev pub max_year : ℕ
max_year = 9999

-- The Gregorian calendar of `datetime`.
unfoldable pub is_leap : ℕ → Bool
is_leap y = (y % 4 == 0) && (not (y % 100 == 0) || (y % 400 == 0))

unfoldable pub days_in_month : ℕ → ℕ → ℕ
unfolding is_leap
days_in_month y m =
    if m == 2
    then if is_leap y then 29 else 28
    else if (m == 4) || (m == 6) || (m == 9) || (m == 11)
    then 30
    else 31

-- Whether `date(year, month, day)` exists.
unfoldable pub exists_date : Date → Bool
exists_date d =
    leb 1 d.month && leb d.month 12 && leb 1 d.day && leb d.day (days_in_month d.year d.month)

unfoldable pub next_day : Date → Date
next_day d =
    if ltb d.day (days_in_month d.year d.month)
    then record d { day = d.day + 1 }
    else if ltb d.month 12
    then record { year = d.year; month = d.month + 1; day = 1 }
    else record { year = d.year + 1; month = 1; day = 1 }

unfoldable pub days_after : ℕ → Date → Date
days_after zero d = d
days_after (suc n) d = days_after n (next_day d)

-- A mapping with exactly the keys year, month and day, or anything else.
pub record DateFields : Type 0 where
  pub year : Wire
  pub month : Wire
  pub day : Wire

abbrev pub WireDate : Type 0
WireDate = Option DateFields

unfoldable pub normalize_date : WireDate → Result CalendarError Date
normalize_date none = err malformed_date
normalize_date (some value) = wire_integer invalid_number value.year min_year max_year >>= λ year.
    wire_integer invalid_number value.month 1 12 >>= λ month.
    wire_integer invalid_number value.day 1 31 >>= λ day.
    let d : Date = record { year = year; month = month; day = day } in
    if exists_date d then ok d else err invalid_date

-- The second test is the overflow of `datetime` and the code's own test at once: both end at 9999.
unfoldable pub add_days : WireDate → ℕ → Result CalendarError Date
add_days value delta = normalize_date value >>= λ current.
    wire_integer invalid_number (wire delta) 0 10_000_000 >>= λ n.
    let advanced : Date = days_after n current in
    if leb min_year advanced.year && leb advanced.year max_year
    then ok advanced
    else err out_of_range

-- The mapping that stands for a date in a message.
unfoldable pub wire_date : Date → WireDate
wire_date d = some (record { year = wire d.year; month = wire d.month; day = wire d.day })
