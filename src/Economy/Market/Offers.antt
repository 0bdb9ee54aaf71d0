-- ===== src/Economy/Market/Offers.antt =====
-- A round of the loop of `_evaluate_market`: what its preview and its capped candidates add up to.
use tpf2mp.Base.{
  ℕ, ◌+◌, ◌*◌, ◌≤◌, ◌<◌, ◌≡◌, refl, String, Bool, none, List, [], ◌∷◌, map, keep, sum_by, arith,
  str_eq, eq_iff, if◌then◌else◌,
}
use tpf2mp.Base.Dict.{
  Dict, lookup, insert, count_of, add_at, total_of, total_of-insert, total_of-add_at,
}
use tpf2mp.Economy.Share.{proportional}
use tpf2mp.Economy.Share.Total.{IsDistinct, IsFresh, insert-IsFresh, total_of-proportional}
use tpf2mp.Economy.Market.{
  Candidate, item, outside, preview_items, is_capped, merge, assign, capacities,
}

pub total_of-merge :
    (preview allocations : Dict ℕ)
    → total_of (merge preview allocations) ≡ total_of allocations + total_of preview
unfolding merge
total_of-merge [] allocations = omega arith
total_of-merge ((cid, amount) ∷ preview) allocations = omega (
  arith,
  total_of-merge preview (add_at cid amount allocations),
  total_of-add_at cid amount allocations,
)

-- The candidates' `cid`s are all different, as the keys of a dict.
abbrev pub AreDistinct : List Candidate → Type 0
AreDistinct active = IsDistinct (map item active)

abbrev pub AreFresh : Dict ℕ → List Candidate → Type 0
AreFresh d active = IsFresh d (map item active)

pub total_of-assign :
    (capped : List Candidate) (d : Dict ℕ)
    → AreDistinct capped
    → AreFresh d capped
    → total_of (assign capped d) ≡ total_of d + capacities capped
unfolding assign
total_of-assign [] d h f = omega arith
total_of-assign (option ∷ capped) d h f =
    let n = option.service.capacity in
    ground (
      arith,
      total_of-assign capped (insert option.cid n d) h.1,
      insert-IsFresh option.cid n d (map item capped) f.1 h.0,
      total_of-insert option.cid n d,
    )

module _ (p : Candidate → Bool) where
  pub lookup-keep :
      (c : String) (active : List Candidate)
      → lookup c (map item active) ≡ none
      → lookup c (map item (keep p active)) ≡ none
  lookup-keep c [] h = refl
  lookup-keep c (option ∷ active) h = ground (arith, lookup-keep c active)

  pub keep-AreDistinct :
      (active : List Candidate) → AreDistinct active → AreDistinct (keep p active)
  keep-AreDistinct [] h = tt
  keep-AreDistinct (option ∷ active) h =
      ground (arith, keep-AreDistinct active h.1, lookup-keep option.cid active h.0)

  pub keep-AreFresh :
      (d : Dict ℕ) (active : List Candidate) → AreFresh d active → AreFresh d (keep p active)
  keep-AreFresh d [] h = tt
  keep-AreFresh d (option ∷ active) h = ground (arith, keep-AreFresh d active h.1)

-- The offers to different candidates are parts of one total.
occurrences : String → List Candidate → ℕ
occurrences c active = sum_by (λ (option : Candidate). if str_eq c option.cid then 1 else 0) active

offers : Dict ℕ → List Candidate → ℕ
offers d active = sum_by (λ (option : Candidate). count_of option.cid d) active

occurrences-none :
    (c : String) (active : List Candidate)
    → lookup c (map item active) ≡ none
    → occurrences c active ≡ 0
unfolding occurrences
occurrences-none c [] h = refl
occurrences-none c (option ∷ active) h =
    ground (arith, occurrences-none c active, eq_iff c option.cid, eq_iff option.cid c)

occurrences-le :
    (c : String) (active : List Candidate) → AreDistinct active → occurrences c active ≤ 1
unfolding occurrences
occurrences-le c [] h = omega arith
occurrences-le c (option ∷ active) h =
    ground (arith, occurrences-le c active h.1, occurrences-none c active, eq_iff c option.cid)

offers-cons :
    (c : String) (n : ℕ) (d : Dict ℕ) (active : List Candidate)
    → offers ((c, n) ∷ d) active ≤ n * occurrences c active + offers d active
unfolding offers occurrences
offers-cons c n d [] = omega arith
offers-cons c n d (option ∷ active) = grind (arith, offers-cons c n d active)

offers_nil : (active : List Candidate) → offers [] active ≡ 0
unfolding offers
offers_nil [] = refl
offers_nil (option ∷ active) = omega (arith, offers_nil active)

offers-le-total :
    (d : Dict ℕ) (active : List Candidate) → AreDistinct active → offers d active ≤ total_of d
offers-le-total [] active h = omega (arith, offers_nil active)
offers-le-total ((c, n) ∷ d) active h =
    grind (arith, offers-cons c n d active, occurrences-le c active h, offers-le-total d active h)

-- Each capped candidate was offered more than its capacity.
capacities-le-offers :
    (preview : Dict ℕ) (active : List Candidate)
    → capacities (keep (is_capped preview) active) ≤ offers preview active
unfolding offers
capacities-le-offers preview [] = omega arith
capacities-le-offers preview (option ∷ active) = ground (arith, capacities-le-offers preview active)

abbrev pub AreDistinctInside : List Candidate → Type 0
AreDistinctInside active = (lookup outside (map item active) ≡ none) × AreDistinct active

pub total_of-preview :
    (outside_weight remaining : ℕ) (active : List Candidate)
    → 0 < outside_weight
    → 0 < remaining
    → AreDistinctInside active
    → total_of (proportional remaining (preview_items outside_weight active)) ≡ remaining
total_of-preview outside_weight remaining active h k distinct =
    total_of-proportional remaining (preview_items outside_weight active) k (omega arith) distinct

-- What the capped services take is within what remains, so the subtraction is exact.
pub capacities-le-remaining :
    (outside_weight remaining : ℕ) (active : List Candidate)
    → 0 < outside_weight
    → 0 < remaining
    → AreDistinctInside active
    → capacities
        (keep (is_capped (proportional remaining (preview_items outside_weight active))) active)
      ≤ remaining
capacities-le-remaining outside_weight remaining active h k distinct =
    let preview = proportional remaining (preview_items outside_weight active) in
    omega (
      arith,
      capacities-le-offers preview active,
      offers-le-total preview active distinct.1,
      total_of-preview outside_weight remaining active h k distinct,
    )
