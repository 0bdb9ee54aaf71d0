-- ===== src/Economy/Logit.antt =====
-- companion/tpf2mp/checkpoint.py, lines 735 to 758 and 1238 to 1252: the integer logit weight of a
-- service, by interpolation in a pinned table of 65536 * exp(-k / 10).
pub mod Order
use tpf2mp.Base.{ℕ, zero, suc, ◌*◌, ◌/◌, ◌%◌, ◌+◌, List, [], ◌∷◌, Bool, if◌then◌else◌}
use tpf2mp.Base.Int.{ℤ, pos, pos_part, ◌+ℤ◌, ◌-ℤ◌, ◌*ℤ◌, div_floor, leb_ℤ, ltb_ℤ, max_ℤ}

abbrev pub exp_table : List ℕ
exp_table =
    65536 ∷ 59299 ∷ 53656 ∷ 48550 ∷ 43930 ∷ 39750 ∷ 35967 ∷ 32544 ∷ 29447 ∷ 26645 ∷ 24109 ∷ 21815
    ∷ 19739 ∷ 17861 ∷ 16161 ∷ 14623 ∷ 13231 ∷ 11972 ∷ 10833 ∷ 9802 ∷ 8869 ∷ 8025 ∷ 7262 ∷ 6571
    ∷ 5945 ∷ 5380 ∷ 4868 ∷ 4404 ∷ 3985 ∷ 3606 ∷ 3263 ∷ 2952 ∷ 2671 ∷ 2417 ∷ 2187 ∷ 1979 ∷ 1791
    ∷ 1620 ∷ 1466 ∷ 1327 ∷ 1200 ∷ 1086 ∷ 983 ∷ 889 ∷ 805 ∷ 728 ∷ 659 ∷ 596 ∷ 539 ∷ 488 ∷ 442 ∷ 400
    ∷ 362 ∷ 327 ∷ 296 ∷ 268 ∷ 242 ∷ 219 ∷ 198 ∷ 180 ∷ 162 ∷ 147 ∷ 133 ∷ 120 ∷ 109 ∷ 99 ∷ 89 ∷ 81
    ∷ 73 ∷ 66 ∷ 60 ∷ 54 ∷ 49 ∷ 44 ∷ 40 ∷ 36 ∷ 33 ∷ 30 ∷ 27 ∷ 24 ∷ 22 ∷ []

-- `table[index]`; an index past the end is an `IndexError`, and `centinats < 800` keeps it away.
unfoldable pub table_at : List ℕ → ℕ → ℕ
table_at [] index = 0
table_at (x ∷ xs) zero = x
table_at (x ∷ xs) (suc index) = table_at xs index

-- The interpolation at `centinats`, the last expression of `_logit_weight_with_cutoff`.
unfoldable pub interpolate : ℕ → ℤ
unfolding table_at
interpolate centinats =
    let index = centinats / 10 in
    let fraction = centinats % 10 in
    let left = pos (table_at exp_table index) in
    let right = pos (table_at exp_table (index + 1)) in
    left +ℤ div_floor ((right -ℤ left) *ℤ pos fraction) 10

-- The weight at a distance of `centinats` from the cheapest service.
unfoldable pub weight_at : ℤ → ℤ → ℤ
weight_at centinats cutoff_weight =
    if leb_ℤ (pos 800) centinats
    then cutoff_weight
    else max_ℤ cutoff_weight
        (interpolate (pos_part (if ltb_ℤ centinats (pos 0) then pos 0 else centinats)))

-- `theta_cents` is a positive number: zero would be a `ZeroDivisionError`.
unfoldable pub logit_weight_with_cutoff : ℤ → ℤ → ℕ → ℤ → ℤ
logit_weight_with_cutoff gc_cents gc_min_cents theta_cents cutoff_weight =
    weight_at (div_floor ((gc_cents -ℤ gc_min_cents) *ℤ pos 100) theta_cents) cutoff_weight

unfoldable pub logit_weight : ℤ → ℤ → ℕ → ℤ
logit_weight gc_cents gc_min_cents theta_cents =
    logit_weight_with_cutoff gc_cents gc_min_cents theta_cents (pos 0)
