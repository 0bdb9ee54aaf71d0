-- ===== src/Calendar.antt =====
-- companion/tpf2mp/calendar_model.py: the authored calendar, whose date moves with the settlements.
-- `migrate` reads a stored mapping, `prepare_settlement` makes the next state and the payload of the
-- message, and a peer checks the payload with `apply_settlement`. A missing key of a stored mapping
-- that has a default reads as the default. The mapping of the match rules holds its two optional keys.
mod Dates
pub mod Messages
pub mod Advance
pub mod Migration
pub mod Settlement
pub mod Settled
pub mod Replay
pub mod Running
mod Tests
unfoldable pub use Dates.*
use tpf2mp.Base.{
  ℕ, ◌+◌, ◌*◌, ◌/◌, ◌%◌, Bool, true, false, not, ◌&&◌, Option, none, some, ltb, leb, ◌==◌,
  if◌then◌else◌, Result, ok, err, ◌>>=◌, ◌>>◌, raise_if,
}
use tpf2mp.Base.Wire.{Wire, absent, flag, whole, real, wire, wire_integer}
use tpf2mp.Base.Int.{pos}

pub record Calendar : Type 0 where
  pub managed : Bool
  pub initialized : Bool
  pub millis_per_day : ℕ
  pub start_date : Option Date
  pub current_date : Option Date
  pub elapsed_days : ℕ
  pub residual_millis : ℕ
  pub last_epoch : ℕ

abbrev pub default_millis_per_day : ℕ
default_millis_per_day = 2000

abbrev pub new_state : Calendar
new_state = record {
  managed = false;
  initialized = false;
  millis_per_day = default_millis_per_day;
  start_date = none;
  current_date = none;
  elapsed_days = 0;
  residual_millis = 0;
  last_epoch = 0;
}

-- A stored mapping; a date that is missing or `None` is `none`.
pub record CalendarFields : Type 0 where
  pub managed : Wire
  pub initialized : Wire
  pub millis_per_day : Wire
  pub start_date : Option WireDate
  pub current_date : Option WireDate
  pub elapsed_days : Wire
  pub residual_millis : Wire
  pub last_epoch : Wire

-- `value is True`
abbrev pub is_true : Wire → Bool
is_true (flag b) = b
is_true _ = false

-- `value.get(key, default)`
abbrev pub or_default : Wire → ℕ → Wire
or_default absent n = wire n
or_default value n = value

abbrev pub optional_date : Option WireDate → Result CalendarError (Option Date)
optional_date none = ok none
optional_date (some value) = normalize_date value >>= λ d. ok (some d)

abbrev pub is_none {ℓ} : {A : Type ℓ} → Option A → Bool
is_none none = true
is_none (some a) = false

-- The two tests on the residual.
abbrev pub residual_check : ℕ → ℕ → Result CalendarError (Unit {0})
residual_check millis_per_day residual =
    if ltb 0 millis_per_day
    then raise_if (leb millis_per_day residual) out_of_range
    else raise_if (not (residual == 0)) paused_residual

unfoldable pub migrate_fields : CalendarFields → Result CalendarError Calendar
migrate_fields value =
    wire_integer invalid_number (or_default value.millis_per_day default_millis_per_day) 0
      86_400_000
    >>= λ millis_per_day.
        wire_integer invalid_number (or_default value.elapsed_days 0) 0 10_000_000
        >>= λ elapsed_days.
            wire_integer invalid_number (or_default value.residual_millis 0) 0 86_400_000
            >>= λ residual_millis.
                wire_integer invalid_number (or_default value.last_epoch 0) 0 1_000_000_000
                >>= λ last_epoch.
                    residual_check millis_per_day residual_millis
                    >> optional_date value.start_date
                    >>= λ start_date. optional_date value.current_date >>= λ current_date.
                        if is_true value.initialized
                          && not (not (is_none start_date) && not (is_none current_date))
                        then err missing_date
                        else ok (record {
                          managed = is_true value.managed;
                          initialized = is_true value.initialized;
                          millis_per_day = millis_per_day;
                          start_date = start_date;
                          current_date = current_date;
                          elapsed_days = elapsed_days;
                          residual_millis = residual_millis;
                          last_epoch = last_epoch;
                        })

-- `none` is a value that is no mapping.
unfoldable pub migrate : Option CalendarFields → Result CalendarError Calendar
migrate none = ok new_state
migrate (some value) = migrate_fields value

pub record Payload : Type 0 where
  pub economy_epoch : ℕ
  pub advanced : Bool
  pub advanced_days : ℕ
  pub elapsed_days : ℕ
  pub residual_millis : ℕ
  pub date : Option Date

-- The date that `add_days` starts from, `candidate["currentDate"]`.
abbrev pub stored_date : Option Date → WireDate
stored_date none = none
stored_date (some d) = wire_date d

-- The body of the `if` on a managed calendar: the days that passed, and the candidate.
unfoldable pub advance : Calendar → ℕ → Result CalendarError (Calendar × ℕ)
advance current seconds =
    let accumulated = current.residual_millis + seconds * 1000 in
    let advanced_days = accumulated / current.millis_per_day in
    let residual = accumulated % current.millis_per_day in
    if advanced_days == 0
    then ok (record current { residual_millis = residual }, 0)
    else add_days (stored_date current.current_date) advanced_days >>= λ date. ok (
      record current {
        residual_millis = residual;
        current_date = some date;
        elapsed_days = current.elapsed_days + advanced_days;
      },
      advanced_days,
    )

abbrev pub payload_of : ℕ → Bool → Calendar × ℕ → Calendar × Payload
payload_of epoch scheduled (candidate, advanced_days) = (
  record candidate { last_epoch = epoch },
  record {
    economy_epoch = epoch;
    advanced = candidate.managed && scheduled;
    advanced_days = advanced_days;
    elapsed_days = candidate.elapsed_days;
    residual_millis = candidate.residual_millis;
    date = candidate.current_date;
  },
)

abbrev pub moves : Calendar → Bool → Bool
moves current scheduled = current.managed && scheduled && ltb 0 current.millis_per_day

-- `prepare_settlement` after `migrate`.
unfoldable pub prepare : Calendar → ℕ → Bool → ℕ → Result CalendarError (Calendar × Payload)
prepare current economy_epoch scheduled epoch_seconds =
    raise_if (not current.initialized) not_initialised
    >> wire_integer invalid_number (wire economy_epoch) 1 1_000_000_000
    >>= λ epoch.
        raise_if (not (epoch == current.last_epoch + 1)) wrong_epoch
        >> wire_integer invalid_number (wire epoch_seconds) 1 86_400
        >>= λ seconds.
            (if moves current scheduled then advance current seconds else ok (current, 0))
            >>= λ moved. ok (payload_of epoch scheduled moved)

unfoldable pub prepare_settlement :
    Option CalendarFields → ℕ → Bool → ℕ → Result CalendarError (Calendar × Payload)
prepare_settlement current_value economy_epoch scheduled epoch_seconds =
    migrate current_value >>= λ current. prepare current economy_epoch scheduled epoch_seconds
