-- ===== src/Calendar/Settled.antt =====
-- companion/tpf2mp/calendar_model.py, lines 90 to 121: the settlement as a whole, from its guards to
-- the payload.
use mathlib.Core.Path.{subst}
use tpf2mp.Calendar.{
  CalendarError, Calendar, Payload, Date, days_after, advance, prepare, payload_of, moves,
  residual_check, invalid_number, not_initialised, wrong_epoch, is_none,
}
use tpf2mp.Calendar.Advance.{IsDate, days_after-le_max}
use tpf2mp.Calendar.Migration.{IsCalendar, IsOptionalDate}
use tpf2mp.Calendar.Settlement.{OnDay, SameRules, Advanced, advance-Advanced}
use tpf2mp.Base.{
  ℕ, ◌+◌, ◌*◌, ◌≤◌, ◌<◌, ◌≡◌, refl, Bool, true, false, not, ◌&&◌, inl, inr, Option, some, ◌==◌,
  if◌then◌else◌, Result, ok, err, ◌>>◌, raise_if, raise_if-tt, arith, ok_of->>=, ok_of->>, if-cases,
}
use tpf2mp.Base.Wire.{wire, wire_integer, wire_integer-within}

-- The time that a settlement adds, in milliseconds.
abbrev pub scheduled_millis : Calendar → Bool → ℕ → ℕ
scheduled_millis c scheduled seconds = if moves c scheduled then seconds * 1000 else 0

-- The candidate and its days, before the epoch is written.
pub record Moved (c d : Calendar) (days millis : ℕ) : Type 0 where
  pub rules : SameRules c d
  pub conserved : days * c.millis_per_day + d.residual_millis ≡ c.residual_millis + millis
  pub residual_ok : residual_check d.millis_per_day d.residual_millis ≡ ok tt
  pub residual_le : d.residual_millis ≤ 86_400_000
  pub elapsed : d.elapsed_days ≡ c.elapsed_days + days
  pub days_le : days ≤ 10_000_000
  pub current_ok : IsOptionalDate d.current_date
  pub on_day : (start : Date) → OnDay c start → OnDay d start

Moved-stay : (c : Calendar) → IsCalendar c → Moved c c 0 0
Moved-stay c valid = record {
  rules = (refl, refl, refl, refl, refl);
  conserved = omega arith;
  residual_ok = valid.residual_ok;
  residual_le = valid.residual_le;
  elapsed = omega arith;
  days_le = omega arith;
  current_ok = valid.current_ok;
  on_day = λ start h. h;
}

Moved-advance :
    (c d : Calendar) (days seconds : ℕ)
    → IsCalendar c
    → 0 < c.millis_per_day
    → Advanced c d days seconds
    → Moved c d days (seconds * 1000)
Moved-advance c d days seconds valid positive a =
    let (_, _, rate, _, _) = a.rules in
    record {
      rules = a.rules;
      conserved = a.conserved;
      residual_ok = ground (arith, rate, positive, a.below);
      residual_le = omega (arith, a.below, valid.rate_le);
      elapsed = a.elapsed;
      days_le = a.days_le;
      current_ok = a.current_ok;
      on_day = a.on_day;
    }

-- The guards that an accepted settlement has passed, the move and the result.
pub record Settled (c d : Calendar) (p : Payload) (epoch : ℕ) (scheduled : Bool) (seconds : ℕ)
    : Type 0 where
  pub initialized : c.initialized ≡ true
  pub next_epoch : epoch ≡ c.last_epoch + 1
  pub epoch_le : epoch ≤ 1_000_000_000
  pub candidate : Calendar
  pub days : ℕ
  pub moved : Moved c candidate days (scheduled_millis c scheduled seconds)
  pub result : payload_of epoch scheduled (candidate, days) ≡ (d, p)

module _ (c : Calendar) (valid : IsCalendar c) (scheduled : Bool) (seconds : ℕ) where
  abbrev MovedOf : Result CalendarError (Calendar × ℕ) → Type 0
  MovedOf (err e) = Unit
  MovedOf (ok (d, days)) = Moved c d days 0

  abbrev move : ℕ → Result CalendarError (Calendar × ℕ)
  move t = if moves c scheduled then advance c t else ok (c, 0)

  move-Moved :
      (d : Calendar) (days : ℕ)
      → move seconds ≡ ok (d, days)
      → Moved c d days (scheduled_millis c scheduled seconds)
  move-Moved d days h = elim (if-cases (moves c scheduled) _ _ _ h) [
    | inl (e, same) ↦
        let positive : 0 < c.millis_per_day = ground (arith, e) in
        rw e (
          Moved-advance c d days seconds valid positive
            (advance-Advanced c seconds valid positive d days same))
    | inr (e, same) ↦ rw e (subst MovedOf same (Moved-stay c valid))
  ]

  pub prepare-Settled :
      (d : Calendar) (p : Payload) (epoch : ℕ)
      → prepare c epoch scheduled seconds ≡ ok (d, p)
      → Settled c d p epoch scheduled seconds
  unfolding prepare
  prepare-Settled d p epoch h =
      let start = raise_if (not c.initialized) not_initialised in
      let first = wire_integer invalid_number (wire epoch) 1 1_000_000_000 in
      let (number, after_number, f) = ok_of->>= (start >> first) _ h in
      let (started, n) = ok_of->> start first f in
      let (_, below, same) =
        wire_integer-within invalid_number (wire epoch) 1 1_000_000_000 number n in
      let number_eq : number ≡ epoch = ground (arith, same) in
      let second = raise_if (not (number == c.last_epoch + 1)) wrong_epoch in
      let third = wire_integer invalid_number (wire seconds) 1 86_400 in
      let (time, after_time, g) = ok_of->>= (second >> third) _ after_number in
      let (next, t) = ok_of->> second third g in
      let (_, _, time_same) = wire_integer-within invalid_number (wire seconds) 1 86_400 time t in
      let time_eq : time ≡ seconds = ground (arith, time_same) in
      let next_ok = raise_if-tt _ _ next in
      let (candidate, last, m) = ok_of->>= (move time) _ after_time in
      record {
        initialized = ground (arith, raise_if-tt _ _ started);
        next_epoch = ground (arith, next_ok, number_eq);
        epoch_le = omega (arith, number_eq, below);
        candidate = candidate.0;
        days = candidate.1;
        moved = move-Moved candidate.0 candidate.1 (subst (λ t. move t ≡ ok candidate) time_eq m);
        result = cc;
      }

pub OnDay-elapsed_le :
    (c : Calendar) (start : Date)
    → OnDay c start
    → IsOptionalDate c.current_date
    → c.elapsed_days ≤ 10_000_000
OnDay-elapsed_le c start (start_ok, _, current) h =
    let current_ok : IsDate (days_after c.elapsed_days start) = subst IsOptionalDate current h in
    days_after-le_max c.elapsed_days start start_ok current_ok.not_after

present_dates :
    (a b : Option Date) (flag : Bool) (d e : Date)
    → a ≡ some d
    → b ≡ some e
    → flag && not (not (is_none a) && not (is_none b)) ≡ false
present_dates a b flag d e h k = rw (h, k) (ground arith)

pub Moved-IsCalendar :
    (c d : Calendar) (start : Date) (days millis epoch : ℕ)
    → IsCalendar c
    → OnDay c start
    → epoch ≤ 1_000_000_000
    → Moved c d days millis
    → IsCalendar (record d { last_epoch = epoch })
Moved-IsCalendar c d start days millis epoch valid h k m =
    let day = m.on_day start h in
    let (_, _, rate, first, _) = m.rules in
    record {
      rate_le = omega (arith, valid.rate_le, rate);
      elapsed_le = OnDay-elapsed_le d start day m.current_ok;
      residual_le = m.residual_le;
      epoch_le = k;
      residual_ok = m.residual_ok;
      start_ok = subst IsOptionalDate first valid.start_ok;
      current_ok = m.current_ok;
      dates_ok = present_dates d.start_date d.current_date d.initialized _ _ day.1 day.2;
    }
