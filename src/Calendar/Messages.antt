-- ===== src/Calendar/Messages.antt =====
-- companion/tpf2mp/calendar_model.py, lines 124 to 161: the payload of a settlement as a peer reads it,
-- the rules of a match, and the settlement that a peer replays. The state that the code changes is the
-- one that `apply_settlement` returns.
use tpf2mp.Calendar.{
  CalendarError, malformed_payload, payload_diverges, invalid_number, Date, WireDate,
  normalize_date, wire_date, Calendar, CalendarFields, Payload, prepare_settlement,
}
use tpf2mp.Base.{
  ℕ, ◌≡◌, Bool, true, false, not, ◌&&◌, Option, none, some, ◌==◌, Result, ok, err, ◌>>=◌, ◌>>◌,
  raise_if, arith,
}
use tpf2mp.Base.Wire.{Wire, flag, whole, real, wire, wire_integer}
use tpf2mp.Base.Int.{pos}

-- A mapping with exactly the payload's seven keys.
pub record PayloadFields : Type 0 where
  pub schema_version : Wire
  pub economy_epoch : Wire
  pub advanced : Wire
  pub advanced_days : Wire
  pub elapsed_days : Wire
  pub residual_millis : Wire
  pub date : WireDate

-- `value == 1`, which `True` and 1.0 pass as well.
abbrev is_one : Wire → Bool
is_one (flag b) = b
is_one (whole (pos n)) = n == 1
is_one (real (some (pos n))) = n == 1
is_one _ = false

abbrev bool_field : Wire → Result CalendarError Bool
bool_field (flag b) = ok b
bool_field _ = err malformed_payload

unfoldable pub validate_payload : Option PayloadFields → Result CalendarError Payload
validate_payload none = err malformed_payload
validate_payload (some value) =
    raise_if (not (is_one value.schema_version)) malformed_payload
    >> bool_field value.advanced
    >>= λ advanced.
        wire_integer invalid_number value.economy_epoch 1 1_000_000_000 >>= λ economy_epoch.
        wire_integer invalid_number value.advanced_days 0 10_000_000 >>= λ advanced_days.
        wire_integer invalid_number value.elapsed_days 0 10_000_000 >>= λ elapsed_days.
        wire_integer invalid_number value.residual_millis 0 86_400_000 >>= λ residual_millis.
        normalize_date value.date >>= λ date. ok (record {
          economy_epoch = economy_epoch;
          advanced = advanced;
          advanced_days = advanced_days;
          elapsed_days = elapsed_days;
          residual_millis = residual_millis;
          date = some date;
        })

-- Equality of two Booleans, two dates and two payloads.
abbrev pub same_flag : Bool → Bool → Bool
same_flag true b = b
same_flag false b = not b

abbrev pub same_date : Option Date → Option Date → Bool
same_date (some a) (some b) = (a.year == b.year) && (a.month == b.month) && (a.day == b.day)
same_date none none = true
same_date _ _ = false

unfoldable pub same_payload : Payload → Payload → Bool
same_payload a b =
    (a.economy_epoch == b.economy_epoch)
    && same_flag a.advanced b.advanced
    && (a.advanced_days == b.advanced_days)
    && (a.elapsed_days == b.elapsed_days)
    && (a.residual_millis == b.residual_millis)
    && same_date a.date b.date

-- `calendar` and `scheduled` are the fields of the action.
unfoldable pub apply_settlement :
    Option CalendarFields → Option PayloadFields → Bool → ℕ → ℕ → Result CalendarError Calendar
apply_settlement calendar payload scheduled economy_epoch epoch_seconds =
    validate_payload payload >>= λ received.
    prepare_settlement calendar economy_epoch scheduled epoch_seconds >>= λ prepared.
    raise_if (not (same_payload received prepared.1)) payload_diverges >> ok prepared.0

-- The two keys of the rules of a match that the calendar reads, where they are present.
pub record MatchRules : Type 0 where
  pub calendar_millis_per_day : Option Wire
  pub calendar_start_date : Option WireDate

unfoldable pub validate_match_rules : MatchRules → Result CalendarError (Unit {0})
validate_match_rules rules =
    elim rules.calendar_millis_per_day [
      | none ↦ ok tt
      | some value ↦ wire_integer invalid_number value 0 86_400_000 >>= λ n. ok tt
    ]
    >> elim rules.calendar_start_date [
      | none ↦ ok tt
      | some value ↦ normalize_date value >>= λ d. ok tt
    ]

abbrev pub wire_optional : Option Date → Option WireDate
wire_optional none = none
wire_optional (some d) = some (wire_date d)

-- The mappings that the host stores and sends.
unfoldable pub wire_calendar : Calendar → CalendarFields
wire_calendar c = record {
  managed = flag c.managed;
  initialized = flag c.initialized;
  millis_per_day = wire c.millis_per_day;
  start_date = wire_optional c.start_date;
  current_date = wire_optional c.current_date;
  elapsed_days = wire c.elapsed_days;
  residual_millis = wire c.residual_millis;
  last_epoch = wire c.last_epoch;
}

abbrev pub wire_payload_date : Option Date → WireDate
wire_payload_date none = none
wire_payload_date (some d) = wire_date d

unfoldable pub wire_payload : Payload → PayloadFields
wire_payload p = record {
  schema_version = wire 1;
  economy_epoch = wire p.economy_epoch;
  advanced = flag p.advanced;
  advanced_days = wire p.advanced_days;
  elapsed_days = wire p.elapsed_days;
  residual_millis = wire p.residual_millis;
  date = wire_payload_date p.date;
}

pub same_payload_refl : (p : Payload) → same_payload p p ≡ true
unfolding same_payload
same_payload_refl p = ground arith
