-- ===== src/Economy/Share.antt =====
-- companion/tpf2mp/checkpoint.py, lines 1776 to 1794: `_proportional`, which divides a demand by
-- weights and hands the rest out by largest remainder. Totals and weights are never negative: the
-- upserts clamp a demand at 0 and a weight at 1.
pub mod Total
pub mod Quota
pub mod Distinct
use tpf2mp.Base.{
  ℕ, zero, suc, ◌+◌, ◌-◌, ◌*◌, ◌/◌, ◌%◌, String, Bool, ◌&&◌, ◌||◌, Option, none, some, List, [],
  ◌∷◌, map, length, get_elem?, sum_by, ltb, ◌==◌, if◌then◌else◌,
}
use tpf2mp.Base.Dict.{Dict, insert, add_at}
use tpf2mp.Base.Sort.{leb_str, sort_rows}

-- A row's `cid` and `weight`.
abbrev pub Item : Type 0
Item = String × ℕ

abbrev pub weight_sum : List Item → ℕ
weight_sum items = sum_by (λ item. item.1) items

-- The whole part of an item's share, and what is left over of it.
abbrev pub base_share : ℕ → ℕ → Item → ℕ
base_share total weights item = total * item.1 / weights

abbrev pub remainder : ℕ → ℕ → Item → ℕ
remainder total weights item = total * item.1 % weights

unfoldable pub base_shares : ℕ → ℕ → List Item → Dict ℕ → Dict ℕ
base_shares total weights [] allocations = allocations
base_shares total weights (item ∷ items) allocations =
    base_shares total weights items (insert item.0 (base_share total weights item) allocations)

abbrev pub rank_row : ℕ → ℕ → Item → ℕ × String
rank_row total weights item = (remainder total weights item, item.0)

-- The sort key `(-remainder, cid)`.
abbrev pub ranks_before : ℕ × String → ℕ × String → Bool
ranks_before (r, c) (s, d) = ltb s r || (r == s && leb_str c d)

unfoldable pub rank : ℕ → ℕ → List Item → List (ℕ × String)
unfolding sort_rows
rank total weights items = sort_rows ranks_before (map (rank_row total weights) items)

abbrev pub hand_to : Option (ℕ × String) → Dict ℕ → Dict ℕ
hand_to none allocations = allocations
hand_to (some row) allocations = add_at row.1 1 allocations

-- The last loop, from `index` on, with `left` rounds to go. `ranked` is not empty where it runs.
unfoldable pub hand_out : ℕ → ℕ → List (ℕ × String) → Dict ℕ → Dict ℕ
hand_out zero index ranked allocations = allocations
hand_out (suc left) index ranked allocations =
    hand_out left (index + 1) ranked
      (hand_to (get_elem? ranked (index % length ranked)) allocations)

unfoldable pub proportional : ℕ → List Item → Dict ℕ
unfolding base_shares rank hand_out
proportional total items =
    let weights = weight_sum items in
    let used = sum_by (base_share total weights) items in
    if total == 0 || weights == 0
    then []
    else hand_out (total - used) 0 (rank total weights items) (base_shares total weights items [])
