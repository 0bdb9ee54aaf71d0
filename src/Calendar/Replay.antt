-- ===== src/Calendar/Replay.antt =====
-- companion/tpf2mp/calendar_model.py, lines 35 to 161: the host's settlements one after another, and
-- the peers that replay them.
use mathlib.Core.Path.{subst}
use tpf2mp.Calendar.{
  Calendar, CalendarFields, Payload, Date, days_after, prepare, prepare_settlement, migrate,
  payload_of, add_days, wire_date, normalize_date, max_year, payload_diverges, invalid_number,
}
use tpf2mp.Calendar.Messages.{
  PayloadFields, wire_calendar, wire_payload, wire_payload_date, validate_payload, apply_settlement,
  same_payload, same_payload_refl, same_date,
}
use tpf2mp.Calendar.Advance.{
  IsDate, days_after-add, add_days-IsDate, add_days-wire_date, normalize_date-wire_date,
}
use tpf2mp.Calendar.Migration.{
  IsCalendar, IsOptionalDate, migrate-wire_calendar, migrate-IsCalendar,
}
use tpf2mp.Calendar.Settlement.{OnDay}
use tpf2mp.Calendar.Settled.{Moved-IsCalendar, OnDay-elapsed_le, prepare-Settled, scheduled_millis}
use tpf2mp.Base.{
  ℕ, ◌+◌, ◌*◌, ◌≤◌, ◌≡◌, ◌↔◌, refl, Bool, true, not, Option, some, ok, raise_if, raise_if-tt, arith,
  sym, ◌∙◌, ap, ok_of->>=, ok_of->>, leb,
}
use tpf2mp.Base.Wire.{wire_integer-wire}

-- A stored calendar that `migrate` accepts is stored again as a mapping that it reads as the same
-- calendar.
pub wire_calendar-migrate :
    (value : Option CalendarFields) (c : Calendar)
    → migrate value ≡ ok c
    → migrate (some (wire_calendar c)) ≡ ok c
wire_calendar-migrate value c h = migrate-wire_calendar c (migrate-IsCalendar value c h)

-- Where two advances of an existing date succeed and their days together are an accepted `delta`,
-- one advance by all the days gives the same date.
pub add_days-add :
    (d e f : Date) (m n : ℕ)
    → IsDate d
    → add_days (wire_date d) m ≡ ok e
    → add_days (wire_date e) n ≡ ok f
    → m + n ≤ 10_000_000
    → add_days (wire_date d) (m + n) ≡ ok f
add_days-add d e f m n h a b k =
    let (first, _, e_ok) = add_days-IsDate d e m h a in
    let (second, _, f_ok) = add_days-IsDate e f n e_ok b in
    let last : f ≡ days_after (m + n) d = cc (days_after-add m n d) in
    let range : leb (days_after (m + n) d).year max_year ≡ true =
      subst (λ x. leb x.year max_year ≡ true) last (ground (arith, f_ok.not_after)) in
    rw (add_days-wire_date d (m + n) h k, range) (sym (ap ok last))

-- An accepted settlement keeps a calendar well-formed and on its day: its current date stays the
-- start date moved on by the elapsed days, its epoch is the next one, and its days and the residual
-- account for every millisecond that the settlement scheduled.
pub prepare-IsCalendar :
    (c d : Calendar) (p : Payload) (start : Date) (epoch seconds : ℕ) (scheduled : Bool)
    → IsCalendar c
    → OnDay c start
    → prepare c epoch scheduled seconds ≡ ok (d, p)
    → IsCalendar d
      × OnDay d start
      × (d.last_epoch ≡ c.last_epoch + 1)
      × (p.advanced_days * c.millis_per_day + d.residual_millis
          ≡ c.residual_millis + scheduled_millis c scheduled seconds)
prepare-IsCalendar c d p start epoch seconds scheduled valid h run =
    let s = prepare-Settled c valid scheduled seconds d p epoch run in
    subst
      (λ q.
        IsCalendar q.0
        × OnDay q.0 start
        × (q.0.last_epoch ≡ c.last_epoch + 1)
        × (q.1.advanced_days * c.millis_per_day + q.0.residual_millis
            ≡ c.residual_millis + scheduled_millis c scheduled seconds))
      s.result
      (
        Moved-IsCalendar c s.candidate start s.days _ epoch valid h s.epoch_le s.moved,
        s.moved.on_day start h,
        s.next_epoch,
        s.moved.conserved,
      )

same_date→eq : (a b : Option Date) → same_date a b ≡ true → a ≡ b
same_date→eq a b h = ground arith

same_payload→eq : (a b : Payload) → same_payload a b ≡ true → a ≡ b
unfolding same_payload
same_payload→eq a b h = ground (arith, same_date→eq a.date b.date)

-- What a peer accepts: exactly the payloads that read as the host's own payload for the same
-- calendar, epoch, schedule flag and duration, and its calendar is then the host's.
pub apply_settlement-prepare_settlement :
    (calendar : Option CalendarFields) (payload : Option PayloadFields) (scheduled : Bool)
    (epoch seconds : ℕ) (d : Calendar)
    → (apply_settlement calendar payload scheduled epoch seconds ≡ ok d) ↔ (
        (p : Payload) × (prepare_settlement calendar epoch scheduled seconds ≡ ok (d, p))
        × (validate_payload payload ≡ ok p))
unfolding apply_settlement
apply_settlement-prepare_settlement calendar payload scheduled epoch seconds d = (
  λ h.
      let (received, after_validate, r) = ok_of->>= (validate_payload payload) _ h in
      let (prepared, after_prepare, q) =
        ok_of->>= (prepare_settlement calendar epoch scheduled seconds) _ after_validate in
      let (guard, e) =
        ok_of->> (raise_if (not (same_payload received prepared.1)) payload_diverges)
          (ok prepared.0) after_prepare in
      let same : received ≡ prepared.1 =
        same_payload→eq received prepared.1 (ground (arith, raise_if-tt _ _ guard)) in
      let result : d ≡ prepared.0 = cc in
      (
        prepared.1,
        subst (λ x. prepare_settlement calendar epoch scheduled seconds ≡ ok (x, prepared.1))
            (sym result) q,
        cc,
      ),
  λ (p, run, v). rw (v, run, same_payload_refl p) refl,
)

prepare_settlement-migrate :
    (value : Option CalendarFields) (c : Calendar) (epoch : ℕ) (scheduled : Bool) (seconds : ℕ)
    → migrate value ≡ ok c
    → prepare_settlement value epoch scheduled seconds ≡ prepare c epoch scheduled seconds
unfolding prepare_settlement
prepare_settlement-migrate value c epoch scheduled seconds m = rw m refl

validate_payload-wire_payload :
    (p : Payload) (date : Date)
    → 1 ≤ p.economy_epoch
    → p.economy_epoch ≤ 1_000_000_000
    → p.advanced_days ≤ 10_000_000
    → p.elapsed_days ≤ 10_000_000
    → p.residual_millis ≤ 86_400_000
    → p.date ≡ some date
    → IsDate date
    → validate_payload (some (wire_payload p)) ≡ ok p
unfolding validate_payload wire_payload
validate_payload-wire_payload p date low high days elapsed residual e date_ok =
    let read : normalize_date (wire_payload_date p.date) ≡ ok date =
      rw e (normalize_date-wire_date date date_ok) in
    rw
      (
        wire_integer-wire invalid_number p.economy_epoch 1 1_000_000_000 low high,
        wire_integer-wire invalid_number p.advanced_days 0 10_000_000 (omega arith) days,
        wire_integer-wire invalid_number p.elapsed_days 0 10_000_000 (omega arith) elapsed,
        wire_integer-wire invalid_number p.residual_millis 0 86_400_000 (omega arith) residual,
        read,
      )
      (ground (arith, e))

-- The payload of a settlement that the host accepts on a stored calendar that is on its day passes
-- a peer's checks on its way through the message, and a peer with the same stored calendar gets
-- the host's calendar.
pub apply_settlement-wire_payload :
    (value : CalendarFields) (c d : Calendar) (p : Payload) (start : Date) (epoch seconds : ℕ)
    (scheduled : Bool)
    → migrate (some value) ≡ ok c
    → OnDay c start
    → prepare_settlement (some value) epoch scheduled seconds ≡ ok (d, p)
    → apply_settlement (some value) (some (wire_payload p)) scheduled epoch seconds ≡ ok d
apply_settlement-wire_payload value c d p start epoch seconds scheduled m h run =
    let prepared : prepare c epoch scheduled seconds ≡ ok (d, p) =
      sym (prepare_settlement-migrate (some value) c epoch scheduled seconds m) ∙ run in
    let s =
      prepare-Settled c (migrate-IsCalendar (some value) c m) scheduled seconds d p epoch
        prepared in
    let day = s.moved.on_day start h in
    let date_ok : IsDate (days_after s.candidate.elapsed_days start) =
      subst IsOptionalDate day.2 s.moved.current_ok in
    let read : validate_payload (some (wire_payload p)) ≡ ok p =
      subst (λ q. validate_payload (some (wire_payload q.1)) ≡ ok q.1) s.result
        (validate_payload-wire_payload (payload_of epoch scheduled (s.candidate, s.days)).1 _
          (omega (arith, s.next_epoch)) s.epoch_le s.moved.days_le
          (OnDay-elapsed_le s.candidate start day s.moved.current_ok) s.moved.residual_le day.2
          date_ok) in
    (apply_settlement-prepare_settlement (some value) (some (wire_payload p)) scheduled epoch
        seconds d).1
      (p, run, read)
