-- ===== src/Economy/Amounts.antt =====
-- companion/tpf2mp/checkpoint.py, lines 782 to 795 and 1060 to 1113, 1255 to 1265: the integer
-- arithmetic of money, with what each rounding leaves carried to the next settlement. An argument
-- may be negative, so it is in ℤ; a result that `max(0, ...)` keeps from being negative is in ℕ.
pub mod Exact
pub mod Glide
use tpf2mp.Base.{
  ℕ, ◌+◌, ◌-◌, ◌*◌, ◌/◌, ◌%◌, min, String, arith, Bool, leb, ltb, if◌then◌else◌, or_else,
}
use tpf2mp.Base.Int.{
  ℤ, pos, pos_part, neg_part, ◌+ℤ◌, ◌-ℤ◌, ◌*ℤ◌, div_floor, ltb_ℤ, leb_ℤ, min_ℤ, max_ℤ, neg,
}
use tpf2mp.Base.Dict.{Dict, lookup, insert}

abbrev pub accumulator_limit : ℕ
accumulator_limit = 1_000_000_000_000_000

abbrev pub difficulty_scale : ℕ
difficulty_scale = 1_000_000

abbrev pub hours_per_year : ℕ
hours_per_year = 8760

abbrev pub financial_year_seconds : ℕ
financial_year_seconds = 10800

abbrev pub clamp : ℤ → ℤ → ℤ → ℤ
clamp value low high = max_ℤ low (min_ℤ high value)

unfoldable pub saturating_add : ℤ → ℤ → ℕ
saturating_add left right = min accumulator_limit (pos_part left + pos_part right)

unfoldable pub saturating_multiply : ℤ → ℤ → ℕ
saturating_multiply left right = min accumulator_limit (pos_part left * pos_part right)

unfoldable pub signed_add : ℤ → ℤ → ℤ
signed_add left right =
    max_ℤ (neg (pos accumulator_limit)) (min_ℤ (pos accumulator_limit) (left +ℤ right))

unfoldable pub hourly_charge : ℤ → ℤ → ℕ × ℕ
hourly_charge annual_cents residual =
    let numerator = pos_part annual_cents + pos_part residual in
    (numerator / hours_per_year, numerator % hours_per_year)

unfoldable pub period_charge : ℤ → ℤ → ℤ → ℕ × ℕ
period_charge annual_cents residual period_seconds =
    let annual = min accumulator_limit (pos_part annual_cents) in
    let period = pos_part period_seconds in
    let quotient = annual / financial_year_seconds in
    let remainder = annual % financial_year_seconds in
    let tail = remainder * period + pos_part residual in
    (
      min accumulator_limit (quotient * period + tail / financial_year_seconds),
      tail % financial_year_seconds,
    )

unfoldable pub cost_charge : ℤ → ℤ → ℤ → ℤ → ℕ × ℕ
unfolding hourly_charge period_charge
cost_charge annual_cents residual period_seconds economy_version =
    if ltb_ℤ economy_version (pos 6)
    then hourly_charge annual_cents residual
    else period_charge annual_cents residual period_seconds

-- Whole dollars in an amount of cents, rounded towards zero.
unfoldable pub whole_dollars : ℤ → ℤ
whole_dollars combined =
    if leb_ℤ (pos 0) combined then div_floor combined 100 else neg (div_floor (neg combined) 100)

-- The residuals of all companies are `economy["payoutResidCents"]`.
unfoldable pub wallet_delta_dollars : Dict ℤ → String → ℤ → (ℤ × ℤ) × Dict ℤ
wallet_delta_dollars residuals company_cid net_revenue_cents =
    let combined =
      clamp (net_revenue_cents +ℤ or_else (lookup company_cid residuals) (pos 0))
        (neg (pos accumulator_limit)) (pos accumulator_limit) in
    let dollars = whole_dollars combined in
    let residual = combined -ℤ dollars *ℤ pos 100 in
    ((dollars, residual), insert company_cid residual residuals)

-- The clamps leave numbers that are not negative, so from there on all is in ℕ.
unfoldable pub difficulty_apply : ℤ → ℤ → ℤ → ℕ × ℕ
difficulty_apply raw_cents multiplier_ppm residual =
    let raw = min accumulator_limit (pos_part raw_cents) in
    let multiplier = min 4_000_000 (pos_part multiplier_ppm) in
    let carried = min (difficulty_scale - 1) (pos_part residual) in
    let base = raw / difficulty_scale * multiplier in
    let tail = raw % difficulty_scale * multiplier + carried in
    let scaled = base + tail / difficulty_scale in
    if leb accumulator_limit base
    then (accumulator_limit, 0)
    else if leb accumulator_limit scaled
    then (accumulator_limit, 0)
    else (scaled, tail % difficulty_scale)

unfoldable pub glide_step : ℤ → ℤ → ℤ → ℤ → ℤ × ℤ
glide_step actual equilibrium alpha_pm resid =
    let delta = (equilibrium -ℤ actual) *ℤ alpha_pm +ℤ resid in
    let step = div_floor delta 1000 in (actual +ℤ step, delta -ℤ step *ℤ pos 1000)

unfoldable pub scaled_rate : ℤ → ℤ → ℕ → ℕ × ℕ
scaled_rate hourly residual period_seconds =
    let numerator = pos_part hourly * period_seconds + pos_part residual in
    (numerator / 3600, numerator % 3600)
