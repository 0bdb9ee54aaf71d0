-- ===== src/Economy/Amounts/Exact.antt =====
-- The roundings of `_period_charge`, `_difficulty_apply` and `_wallet_delta_dollars` in checkpoint.py.
use text.Mathlib.TextPositions.{eq_refl}
use native.Mathlib.Nat.{div-add-mod}
use tpf2mp.Base.{ℕ, ◌+◌, ◌*◌, ◌/◌, ◌%◌, ◌≤◌, ◌<◌, ◌≡◌, ap, arith, String, some}
use tpf2mp.Base.Int.{
  ℤ, pos, neg, ◌+ℤ◌, ◌*ℤ◌, ◌≤ℤ◌, ◌<ℤ◌, ring_laws, ◌-ℤ◌, negsuc, div_floor, div_floor_bounds,
}
use tpf2mp.Base.Dict.{Dict, lookup, lookup-insert}
use tpf2mp.Economy.Amounts.{
  accumulator_limit, difficulty_scale, financial_year_seconds, period_charge, difficulty_apply,
  whole_dollars, wallet_delta_dollars, clamp,
}

-- `amount * rate + residual` in whole units and a rest, computed without the large product.
carry_exact :
    (scale amount rate residual : ℕ)
    → (amount / scale * rate + (amount % scale * rate + residual) / scale) * scale
        + (amount % scale * rate + residual) % scale
      ≡ amount * rate + residual
carry_exact scale amount rate residual = omega (
  arith,
  div-add-mod (amount % scale * rate + residual) scale,
  ap (λ (t : ℕ). t * rate) (div-add-mod amount scale),
)

-- A charge below the cap and its residual, in year seconds, are exactly what is due for the period
-- and the old residual.
pub period_charge_exact :
    (annual residual period : ℕ)
    → annual ≤ accumulator_limit
    → (period_charge (pos annual) (pos residual) (pos period)).0 < accumulator_limit
    → (period_charge (pos annual) (pos residual) (pos period)).0 * financial_year_seconds
        + (period_charge (pos annual) (pos residual) (pos period)).1
      ≡ annual * period + residual
unfolding period_charge
period_charge_exact annual residual period h below =
    ground (arith, carry_exact financial_year_seconds annual period residual)

-- What the difficulty pays out and what it carries, in millionths of a cent, add up exactly.
pub difficulty_apply_exact :
    (raw multiplier residual : ℕ)
    → raw ≤ accumulator_limit
    → multiplier ≤ 4_000_000
    → residual < difficulty_scale
    → (difficulty_apply (pos raw) (pos multiplier) (pos residual)).0 < accumulator_limit
    → (difficulty_apply (pos raw) (pos multiplier) (pos residual)).0 * difficulty_scale
        + (difficulty_apply (pos raw) (pos multiplier) (pos residual)).1
      ≡ raw * multiplier + residual
unfolding difficulty_apply
difficulty_apply_exact raw multiplier residual h k l below =
    ground (arith, carry_exact difficulty_scale raw multiplier residual)

-- Whatever it is given, the difficulty stays within the accumulator and carries less than a cent.
pub difficulty_apply_bounds :
    (raw multiplier residual : ℤ)
    → ((difficulty_apply raw multiplier residual).0 ≤ accumulator_limit)
      × ((difficulty_apply raw multiplier residual).1 < difficulty_scale)
unfolding difficulty_apply
difficulty_apply_bounds raw multiplier residual = ground arith

clamp_within : (value low high : ℤ) → low ≤ℤ value → value ≤ℤ high → clamp value low high ≡ value
clamp_within value low high h k = ground arith

whole_dollars-pos : (n : ℕ) → whole_dollars (pos n) ≡ div_floor (pos n) 100
unfolding whole_dollars
whole_dollars-pos n = ground arith

whole_dollars-negsuc : (n : ℕ) → whole_dollars (negsuc n) ≡ neg (div_floor (neg (negsuc n)) 100)
unfolding whole_dollars
whole_dollars-negsuc n = ground arith

-- What is left of `cents` after the whole dollars is less than a dollar.
whole_dollars_bounds :
    (cents : ℤ)
    → (neg (pos 100) <ℤ cents -ℤ whole_dollars cents *ℤ pos 100)
      × (cents -ℤ whole_dollars cents *ℤ pos 100 <ℤ pos 100)
whole_dollars_bounds (pos n) =
    rw (whole_dollars-pos n) (omega (ring_laws, div_floor_bounds (pos n) 100 (omega arith)))
whole_dollars_bounds (negsuc n) =
    rw (whole_dollars-negsuc n)
      (omega (ring_laws, div_floor_bounds (neg (negsuc n)) 100 (omega arith)))

-- Dollars paid out and cents kept back make up exactly what was owed, less than a dollar is kept
-- back, and it is kept under the company's name.
pub wallet_delta_dollars_exact :
    (residuals : Dict ℤ) (company : String) (net carried : ℤ)
    → lookup company residuals ≡ some carried
    → neg (pos accumulator_limit) ≤ℤ net +ℤ carried
    → net +ℤ carried ≤ℤ pos accumulator_limit
    → let ((dollars, residual), after) = wallet_delta_dollars residuals company net in
      (dollars *ℤ pos 100 +ℤ residual ≡ net +ℤ carried)
      × (neg (pos 100) <ℤ residual)
      × (residual <ℤ pos 100)
      × (lookup company after ≡ some residual)
unfolding wallet_delta_dollars
wallet_delta_dollars_exact residuals company net carried held low high =
    rw (held, clamp_within (net +ℤ carried) _ _ low high)
      (
        omega ring_laws,
        (whole_dollars_bounds (net +ℤ carried)).0,
        (whole_dollars_bounds (net +ℤ carried)).1,
        rw lookup-insert (rw eq_refl),
      )
