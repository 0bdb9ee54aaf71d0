-- ===== src/Economy/Share/Distinct.antt =====
-- The keys of what `_proportional` of checkpoint.py returns.
use tpf2mp.Base.{
  ℕ, zero, suc, ◌+◌, ◌-◌, ◌%◌, ◌≡◌, sum_by, refl, String, false, ◌||◌, Option, none, some, List, [],
  ◌∷◌, length, arith, ◌==◌, str_eq, eq_iff, Bool-cases, inl, inr, get_elem?,
}
use tpf2mp.Base.Dict.{Dict, lookup, insert, lookup-insert}
use tpf2mp.Economy.Share.{
  Item, weight_sum, proportional, base_share, base_shares, hand_out, hand_to, rank,
}
use tpf2mp.Economy.Share.Total.{IsDistinct}

-- A dict stays one under `insert`, so the shares are one.
lookup-insert-none :
    (k c : String) (n : ℕ) (d : Dict ℕ)
    → lookup c d ≡ none
    → str_eq k c ≡ false
    → lookup c (insert k n d) ≡ none
lookup-insert-none k c n d h e = rw lookup-insert (rw e h)

pub insert-IsDistinct : (k : String) (n : ℕ) (d : Dict ℕ) → IsDistinct d → IsDistinct (insert k n d)
insert-IsDistinct k n [] h = (refl, tt)
insert-IsDistinct k n ((j, m) ∷ d) h = elim (Bool-cases (str_eq j k)) [
  | inl same ↦ rw same h
  | inr other ↦ rw other (
    lookup-insert-none k j n d h.0 (ground (arith, eq_iff j k, eq_iff k j)),
    insert-IsDistinct k n d h.1,
  )
]

base_shares-IsDistinct :
    (total weights : ℕ) (items : List Item) (d : Dict ℕ)
    → IsDistinct d
    → IsDistinct (base_shares total weights items d)
unfolding base_shares
base_shares-IsDistinct total weights [] d h = h
base_shares-IsDistinct total weights (i ∷ items) d h =
    base_shares-IsDistinct total weights items _ (insert-IsDistinct i.0 _ d h)

hand_to-IsDistinct :
    (row : Option (ℕ × String)) (d : Dict ℕ) → IsDistinct d → IsDistinct (hand_to row d)
hand_to-IsDistinct none d h = h
hand_to-IsDistinct (some row) d h = insert-IsDistinct row.1 _ d h

hand_out-IsDistinct :
    (left index : ℕ) (ranked : List (ℕ × String)) (d : Dict ℕ)
    → IsDistinct d
    → IsDistinct (hand_out left index ranked d)
unfolding hand_out
hand_out-IsDistinct zero index ranked d h = h
hand_out-IsDistinct (suc left) index ranked d h =
    hand_out-IsDistinct left (index + 1) ranked _
      (hand_to-IsDistinct (get_elem? ranked (index % length ranked)) d h)

pub proportional-IsDistinct :
    (total : ℕ) (items : List Item) → IsDistinct (proportional total items)
unfolding proportional
proportional-IsDistinct total items = elim (Bool-cases (total == 0 || weight_sum items == 0)) [
  | inl nothing ↦ rw nothing tt
  | inr some_left ↦ rw some_left (
      hand_out-IsDistinct (total - sum_by (base_share total (weight_sum items)) items) 0
        (rank total (weight_sum items) items) _
        (base_shares-IsDistinct total (weight_sum items) items [] tt))
]
