-- ===== src/Economy/Share/Total.antt =====
-- The sum of the shares of `_proportional` in checkpoint.py.
use native.Mathlib.Nat.{div-add-mod, mod-lt, le_of_mul-le-mul_right}
use tpf2mp.Base.{
  ℕ, zero, suc, ◌+◌, ◌-◌, ◌*◌, ◌%◌, ◌≤◌, ◌<◌, ◌≡◌, refl, ◌∙◌, String, none, some, List, [], ◌∷◌,
  map, length, sum_by, arith, eq_iff, length-map, drop-get_elem?,
}
use tpf2mp.Base.Dict.{
  Dict, lookup, insert, lookup-insert, total_of, total_of-insert, total_of-add_at,
}
use tpf2mp.Base.Sort.{length-sort_rows}
use tpf2mp.Economy.Share.{
  Item, weight_sum, base_share, remainder, base_shares, rank, hand_to, hand_out, proportional,
  ranks_before, rank_row,
}

-- No two items have the same `cid`.
abbrev pub IsDistinct : List Item → Type 0
IsDistinct [] = Unit
IsDistinct (item ∷ items) = (lookup item.0 items ≡ none) × IsDistinct items

abbrev pub IsFresh : Dict ℕ → List Item → Type 0
IsFresh d [] = Unit
IsFresh d (item ∷ items) = (lookup item.0 d ≡ none) × IsFresh d items

pub insert-IsFresh :
    (c : String) (n : ℕ) (d : Dict ℕ) (items : List Item)
    → IsFresh d items
    → lookup c items ≡ none
    → IsFresh (insert c n d) items
insert-IsFresh c n d [] h k = tt
insert-IsFresh c n d (item ∷ items) h k = ground (
  arith,
  insert-IsFresh c n d items h.1,
  lookup-insert c item.0 n d,
  eq_iff c item.0,
  eq_iff item.0 c,
)

pub nil-IsFresh : (items : List Item) → IsFresh [] items
nil-IsFresh [] = tt
nil-IsFresh (item ∷ items) = (refl, nil-IsFresh items)

pub total_of-base_shares :
    (total weights : ℕ) (items : List Item) (d : Dict ℕ)
    → IsDistinct items
    → IsFresh d items
    → total_of (base_shares total weights items d)
      ≡ total_of d + sum_by (base_share total weights) items
unfolding base_shares
total_of-base_shares total weights [] d h f = omega arith
total_of-base_shares total weights (item ∷ items) d h f =
    let n = base_share total weights item in
    ground (
      arith,
      total_of-base_shares total weights items (insert item.0 n d) h.1,
      insert-IsFresh item.0 n d items f.1 h.0,
      total_of-insert item.0 n d,
    )

-- The shares and the remainders add up to the whole.
pub shares_and_remainders :
    (total weights : ℕ) (items : List Item)
    → sum_by (base_share total weights) items * weights + sum_by (remainder total weights) items
      ≡ total * weight_sum items
shares_and_remainders total weights [] = omega arith
shares_and_remainders total weights (item ∷ items) =
    omega (arith, shares_and_remainders total weights items, div-add-mod (total * item.1) weights)

pub used-le-total :
    (total : ℕ) (items : List Item)
    → 0 < weight_sum items
    → sum_by (base_share total (weight_sum items)) items ≤ total
used-le-total total items h =
    le_of_mul-le-mul_right (omega (arith, shares_and_remainders total (weight_sum items) items)) h

pub total_of-hand_out :
    (left index : ℕ) (ranked : List (ℕ × String)) (d : Dict ℕ)
    → 0 < length ranked
    → total_of (hand_out left index ranked d) ≡ total_of d + left
unfolding hand_out
total_of-hand_out zero index ranked d h = omega arith
total_of-hand_out (suc left) index ranked d h =
    let (row, found, rest) = drop-get_elem? ranked (index % length ranked) (mod-lt index h) in
    rw found (
      omega (
        arith,
        total_of-hand_out left (index + 1) ranked (hand_to (some row) d) h,
        total_of-add_at row.1 1 d,
      ))

pub length-rank :
    (total weights : ℕ) (items : List Item) → length (rank total weights items) ≡ length items
unfolding rank
length-rank total weights items =
    length-sort_rows ranks_before (map (rank_row total weights) items)
    ∙ length-map (rank_row total weights) items

pub length_pos : (items : List Item) → 0 < weight_sum items → 0 < length items
length_pos [] h = absurd (omega arith)
length_pos (item ∷ items) h = omega arith

-- The allocations of a positive total by weights that are not all zero add up to the total.
pub total_of-proportional :
    (total : ℕ) (items : List Item)
    → 0 < total
    → 0 < weight_sum items
    → IsDistinct items
    → total_of (proportional total items) ≡ total
unfolding proportional
total_of-proportional total items h k distinct =
    let weights = weight_sum items in
    let ranked = rank total weights items in
    ground (
      arith,
      total_of-hand_out (total - sum_by (base_share total weights) items) 0 ranked
          (base_shares total weights items []),
      total_of-base_shares total weights items [] distinct (nil-IsFresh items),
      used-le-total total items k,
      length-rank total weights items,
      length_pos items k,
    )
