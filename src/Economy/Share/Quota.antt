-- ===== src/Economy/Share/Quota.antt =====
-- The share of one item in `_proportional` of checkpoint.py.
use native.Mathlib.Nat.{mod-lt, mod-eq_of_lt, le_of_mul-le-mul_right}
use native.Mathlib.Numerals.{add-one}
use tpf2mp.Base.{
  ℕ, zero, suc, ◌+◌, ◌-◌, ◌*◌, ◌/◌, ◌%◌, ◌≤◌, ◌<◌, ◌≡◌, refl, ◌∙◌, ap, String, none, some, List, [],
  ◌∷◌, map, length, sum_by, arith, eq_iff, drop-get_elem?, drop, sum_by-map, str_eq, if◌then◌else◌,
  Bool-cases, inl, inr, ◌==◌,
}
use tpf2mp.Base.Dict.{Dict, lookup, insert, lookup-insert, count_of, add_at, count_of-add_at}
use tpf2mp.Base.Sort.{sum_by-sort_rows}
use tpf2mp.Economy.Share.{
  Item, weight_sum, base_share, remainder, base_shares, rank, hand_out, proportional, ranks_before,
  rank_row,
}
use tpf2mp.Economy.Share.Total.{IsDistinct, shares_and_remainders, used-le-total, length-rank}

-- How many rows are for `c`.
abbrev is_for : String → ℕ × String → ℕ
is_for c row = if str_eq row.1 c then 1 else 0

-- One round for each row at most: nobody gets more than his rows.
count_of-hand_out :
    (left index : ℕ) (ranked : List (ℕ × String)) (d : Dict ℕ) (c : String)
    → index + left ≤ length ranked
    → (count_of c d ≤ count_of c (hand_out left index ranked d))
      × (count_of c (hand_out left index ranked d)
          ≤ count_of c d + sum_by (is_for c) (drop index ranked))
unfolding hand_out
count_of-hand_out zero index ranked d c h = omega arith
count_of-hand_out (suc left) index ranked d c h =
    let (row, found, rest) = drop-get_elem? ranked index (omega arith) in
    let in_range : index % length ranked ≡ index = mod-eq_of_lt (omega arith) in
    let next = add_at row.1 1 d in
    rw (in_range, found, rest)
      (rw (add-one index) (
        omega (
          arith,
          count_of-hand_out left (suc index) ranked next c (omega arith),
          count_of-add_at row.1 c 1 d,
        )))

absent_rows :
    (total weights : ℕ) (c : String) (items : List Item)
    → lookup c items ≡ none
    → sum_by (λ item. is_for c (rank_row total weights item)) items ≡ 0
absent_rows total weights c [] h = refl
absent_rows total weights c (item ∷ items) h =
    ground (arith, absent_rows total weights c items, eq_iff item.0 c)

one_row :
    (total weights : ℕ) (c : String) (items : List Item)
    → IsDistinct items
    → sum_by (λ item. is_for c (rank_row total weights item)) items ≤ 1
one_row total weights c [] h = omega arith
one_row total weights c (item ∷ items) h =
    ground
      (arith, one_row total weights c items h.1, absent_rows total weights c items, eq_iff item.0 c)

base_shares_others :
    (total weights : ℕ) (c : String) (items : List Item) (d : Dict ℕ)
    → lookup c items ≡ none
    → lookup c (base_shares total weights items d) ≡ lookup c d
unfolding base_shares
base_shares_others total weights c [] d h = refl
base_shares_others total weights c (item ∷ items) d h =
    let n = base_share total weights item in
    ground (
      arith,
      base_shares_others total weights c items (insert item.0 n d),
      lookup-insert item.0 c n d,
      eq_iff item.0 c,
    )

count_of-base_shares :
    (total weights : ℕ) (c : String) {w : ℕ} (items : List Item) (d : Dict ℕ)
    → IsDistinct items
    → lookup c items ≡ some w
    → count_of c (base_shares total weights items d) ≡ total * w / weights
unfolding base_shares
count_of-base_shares total weights c {w} [] d h e = cc
count_of-base_shares total weights c {w} (item ∷ items) d h e =
    let n = base_share total weights item in
    ground (
      arith,
      count_of-base_shares total weights c {w = w} items (insert item.0 n d) h.1,
      base_shares_others total weights c items (insert item.0 n d),
      lookup-insert item.0 c n d,
      eq_iff item.0 c,
    )

remainders_bounded :
    (total weights : ℕ) (items : List Item)
    → 0 < weights
    → sum_by (remainder total weights) items ≤ length items * weights
remainders_bounded total weights [] h = omega arith
remainders_bounded total weights (item ∷ items) h =
    omega (arith, remainders_bounded total weights items h, mod-lt (total * item.1) h)

-- Fewer units are left than there are items.
left_bounded :
    (total : ℕ) (items : List Item)
    → 0 < weight_sum items
    → total - sum_by (base_share total (weight_sum items)) items ≤ length items
left_bounded total items h =
    let used = sum_by (base_share total (weight_sum items)) items in
    let enough = used-le-total total items h in
    let split : total ≡ used + (total - used) = omega (arith, enough) in
    le_of_mul-le-mul_right
      (omega (
        arith,
        shares_and_remainders total (weight_sum items) items,
        remainders_bounded total (weight_sum items) items h,
        ap (λ (t : ℕ). t * weight_sum items) split,
      ))
      h

rows_of-rank :
    (total weights : ℕ) (c : String) (items : List Item)
    → sum_by (is_for c) (rank total weights items)
      ≡ sum_by (λ item. is_for c (rank_row total weights item)) items
unfolding rank
rows_of-rank total weights c items =
    sum_by-sort_rows ranks_before (is_for c) (map (rank_row total weights) items)
    ∙ sum_by-map (is_for c) (rank_row total weights) items

-- An item of weight w gets the whole part of total * w / weights, or one unit more.
pub proportional_quota :
    (total : ℕ) (items : List Item) (c : String) {w : ℕ}
    → 0 < total
    → 0 < weight_sum items
    → IsDistinct items
    → lookup c items ≡ some w
    → (total * w / weight_sum items ≤ count_of c (proportional total items))
      × (count_of c (proportional total items) ≤ total * w / weight_sum items + 1)
unfolding proportional
proportional_quota total items c h k distinct e =
    let weights = weight_sum items in
    let left = total - sum_by (base_share total weights) items in
    ground (
      arith,
      count_of-hand_out left 0 (rank total weights items) (base_shares total weights items []) c,
      count_of-base_shares total weights c items [] distinct e,
      left_bounded total items k,
      length-rank total weights items,
      one_row total weights c items distinct,
      rows_of-rank total weights c items,
    )

-- Who is not among the items gets nothing.
pub proportional_absent :
    (total : ℕ) (items : List Item) (c : String)
    → lookup c items ≡ none
    → count_of c (proportional total items) ≡ 0
unfolding proportional
proportional_absent total items c e = elim (Bool-cases (weight_sum items == 0)) [
  | inl no_weight ↦ ground arith
  | inr weighs ↦
      let weights = weight_sum items in
      let positive : 0 < weight_sum items = ground arith in
      ground (
        arith,
        count_of-hand_out (total - sum_by (base_share total weights) items) 0
            (rank total weights items) (base_shares total weights items []) c,
        base_shares_others total weights c items [] e,
        left_bounded total items positive,
        length-rank total weights items,
        absent_rows total weights c items e,
        rows_of-rank total weights c items,
      )
]
