-- ===== src/Calendar/Tests.antt =====
-- companion/tpf2mp/calendar_model.py, run on a calendar that starts two days before March of a leap year.
use tpf2mp.Calendar.{
  Calendar, Payload, Date, migrate, migrate_fields, prepare, prepare_settlement, advance,
  days_after, next_day, days_in_month, is_leap, exists_date, normalize_date, add_days, wire_date,
  invalid_date, max_year,
}
use tpf2mp.Calendar.Messages.{wire_calendar, wire_payload, validate_payload, apply_settlement}
use tpf2mp.Calendar.Advance.{IsDate}
use tpf2mp.Calendar.Migration.{IsCalendar}
use tpf2mp.Calendar.Settlement.{OnDay}
use tpf2mp.Calendar.Settled.{scheduled_millis}
use tpf2mp.Calendar.Replay.{
  wire_calendar-migrate, add_days-add, prepare-IsCalendar, apply_settlement-prepare_settlement,
  apply_settlement-wire_payload,
}
use tpf2mp.Calendar.Running.{prepare-runs}
use tpf2mp.Base.{◌+◌, ◌*◌, ◌/◌, ◌≤◌, ◌≡◌, ◌↔◌, refl, true, some, ok, err, arith}
use tpf2mp.Base.Wire.{wire_integer}

abbrev february_28 : Date
february_28 = record { year = 2000; month = 2; day = 28 }

abbrev february_29 : Date
february_29 = record { year = 2000; month = 2; day = 29 }

abbrev march_1 : Date
march_1 = record { year = 2000; month = 3; day = 1 }

abbrev before : Calendar
before = record {
  managed = true;
  initialized = true;
  millis_per_day = 2000;
  start_date = some february_28;
  current_date = some february_28;
  elapsed_days = 0;
  residual_millis = 500;
  last_epoch = 0;
}

-- Three seconds later.
abbrev after : Calendar
after = record before {
  current_date = some february_29;
  elapsed_days = 1;
  residual_millis = 1500;
  last_epoch = 1;
}

abbrev sent : Payload
sent = record {
  economy_epoch = 1;
  advanced = true;
  advanced_days = 1;
  elapsed_days = 1;
  residual_millis = 1500;
  date = some february_29;
}

february_28-IsDate : IsDate february_28
unfolding exists_date days_in_month is_leap
february_28-IsDate = record {
  in_calendar = refl;
  not_before = omega arith;
  not_after = omega arith;
}

before-IsCalendar : IsCalendar before
before-IsCalendar = record {
  rate_le = omega arith;
  elapsed_le = omega arith;
  residual_le = omega arith;
  epoch_le = omega arith;
  residual_ok = refl;
  start_ok = february_28-IsDate;
  current_ok = february_28-IsDate;
  dates_ok = refl;
}

before-OnDay : OnDay before february_28
unfolding days_after
before-OnDay = (february_28-IsDate, refl, refl)

stored-before : migrate (some (wire_calendar before)) ≡ ok before
unfolding migrate migrate_fields wire_calendar wire_integer normalize_date wire_date exists_date
    days_in_month is_leap
stored-before = refl

first_settlement : prepare before 1 true 3 ≡ ok (after, sent)
unfolding prepare advance add_days days_after next_day wire_integer normalize_date wire_date
    exists_date days_in_month is_leap
first_settlement = refl

first_message : prepare_settlement (some (wire_calendar before)) 1 true 3 ≡ ok (after, sent)
unfolding prepare_settlement
first_message = rw stored-before first_settlement

thirtieth_of_february :
    normalize_date (wire_date (record { year = 2000; month = 2; day = 30 })) ≡ err invalid_date
unfolding wire_integer normalize_date wire_date exists_date days_in_month is_leap
thirtieth_of_february = refl

to_29 : add_days (wire_date february_28) 1 ≡ ok february_29
unfolding add_days days_after next_day wire_integer normalize_date wire_date exists_date
    days_in_month is_leap
to_29 = refl

to_march : add_days (wire_date february_29) 1 ≡ ok march_1
unfolding add_days days_after next_day wire_integer normalize_date wire_date exists_date
    days_in_month is_leap
to_march = refl

add_days-add_example : add_days (wire_date february_28) (1 + 1) ≡ ok march_1
add_days-add_example =
    add_days-add february_28 february_29 march_1 1 1 february_28-IsDate to_29 to_march (omega arith)

wire_calendar-migrate_example : migrate (some (wire_calendar before)) ≡ ok before
wire_calendar-migrate_example =
    wire_calendar-migrate (some (wire_calendar before)) before stored-before

prepare-IsCalendar_example :
    IsCalendar after
    × OnDay after february_28
    × (1 ≡ 0 + 1)
    × (1 * 2000 + 1500 ≡ 500 + scheduled_millis before true 3)
prepare-IsCalendar_example =
    prepare-IsCalendar before after sent february_28 1 3 true before-IsCalendar before-OnDay
      first_settlement

apply_settlement-wire_payload_example :
    apply_settlement (some (wire_calendar before)) (some (wire_payload sent)) true 1 3 ≡ ok after
apply_settlement-wire_payload_example =
    apply_settlement-wire_payload (wire_calendar before) before after sent february_28 1 3 true
      stored-before before-OnDay first_message

apply_settlement-prepare_settlement_example :
    (apply_settlement (some (wire_calendar before)) (some (wire_payload sent)) true 1 3 ≡ ok after)
    ↔ ((p : Payload) × (prepare_settlement (some (wire_calendar before)) 1 true 3 ≡ ok (after, p))
        × (validate_payload (some (wire_payload sent)) ≡ ok p))
apply_settlement-prepare_settlement_example =
    apply_settlement-prepare_settlement (some (wire_calendar before)) (some (wire_payload sent))
      true 1 3 after

last_of_february : (days_after (0 + (500 + 3 * 1000) / 2000) february_28).year ≤ max_year
unfolding days_after next_day days_in_month is_leap
last_of_february = omega arith

prepare-runs_example : (result : Calendar × Payload) × (prepare before 1 true 3 ≡ ok result)
prepare-runs_example =
    prepare-runs before february_28 3 before-IsCalendar before-OnDay 1 true refl refl (omega arith)
      (omega arith) (omega arith) last_of_february
