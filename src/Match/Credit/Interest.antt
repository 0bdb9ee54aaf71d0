-- ===== src/Match/Credit/Interest.antt =====
-- companion/tpf2mp/checkpoint.py, lines 2176 to 2183: the split products of the revenue and the interest.
use native.Mathlib.Nat.{div-add-mod, add-mul-div_right}
use tpf2mp.Match.Credit.{per_hour, interest_on}
use tpf2mp.Base.{ℕ, ◌+◌, ◌*◌, ◌/◌, ◌%◌, ◌<◌, ◌≡◌, arith, ap, ◌∙◌}
use tpf2mp.Base.Int.{pos, ◌+ℤ◌, ◌*ℤ◌, div_floor}

-- The quotient of a product, taken in two parts so that no product is larger than need be.
split_product : (n m d : ℕ) → 0 < d → n / d * m + n % d * m / d ≡ n * m / d
split_product n m d h =
    let whole : n * m ≡ n % d * m + n / d * m * d = grind (arith, div-add-mod n d) in
    omega (arith, ap (λ x. x / d) whole ∙ add-mul-div_right (n % d * m) (n / d * m) h)

pos-mul : (a b : ℕ) → pos a *ℤ pos b ≡ pos (a * b)
unfolding ◌*ℤ◌
pos-mul a b = ground arith

pos-add : (a b : ℕ) → pos a +ℤ pos b ≡ pos (a + b)
unfolding ◌+ℤ◌
pos-add a b = ground arith

-- The revenue of an hour is the exact quotient, rounded down, and so is the interest for a permille
-- that is not negative: a permille of the debt for each hour of the period.
pub per_hour-interest_on :
    (average seconds drawn permille : ℕ)
    → 0 < seconds
    → (per_hour average seconds ≡ average * 3600 / seconds)
      × (interest_on drawn (pos permille *ℤ pos seconds)
          ≡ pos (drawn * (permille * seconds) / (1000 * 3600)))
unfolding per_hour interest_on div_floor
per_hour-interest_on average seconds drawn permille h = (
  split_product average 3600 seconds h,
  rw
      (
        pos-mul permille seconds,
        pos-mul (drawn / 3_600_000) (permille * seconds),
        pos-mul (drawn % 3_600_000) (permille * seconds),
      )
      (pos-add _ _ ∙ ap pos (split_product drawn (permille * seconds) 3_600_000 (omega arith))),
)
