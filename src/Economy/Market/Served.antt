-- ===== src/Economy/Market/Served.antt =====
-- The allocations of `_evaluate_market` in checkpoint.py, taken together: they are made under the names
-- of the services and the outside option only, and each name has one entry.
use mathlib.Core.Option
use mathlib.Core.Path.{subst}
use tpf2mp.Base.{
  ℕ, zero, suc, ◌+◌, ◌-◌, ◌*◌, ◌≤◌, ◌≡◌, ◌≢◌, refl, String, Option, none, some, List, [], ◌∷◌, map,
  length, sum_by, arith, ◌==◌, eq_iff, Bool-cases, inl, inr,
}
use tpf2mp.Base.Dict.{Dict, lookup, insert, count_of, add_at, total_of, count_of-add_at}
use tpf2mp.Base.Keys.{occurs, HasKeysOnce, insert-HasKeysOnce, zero-lookup}
use tpf2mp.Economy.Share.{proportional}
use tpf2mp.Economy.Records.{Market}
use tpf2mp.Economy.Market.{
  Candidate, item, outside, preview_items, merge, assign, capacities, allocate, allocations_of,
  settle_outside,
}
use tpf2mp.Economy.Market.Allocation.{capped_now, left_now}
use tpf2mp.Economy.Market.Offers.{AreDistinct, AreDistinctInside}
use tpf2mp.Economy.Market.Find.{find_cid}
use tpf2mp.Economy.Market.Capacity.{Leaves, allocate-Leaves}

-- The sum of the counters of some names.
abbrev pub counts : List String → Dict ℕ → ℕ
counts names d = sum_by (λ name. count_of name d) names

counts_nil : (names : List String) → counts names [] ≡ 0
counts_nil [] = refl
counts_nil (name ∷ names) = omega (arith, counts_nil names)

counts-cons :
    (k : String) (n : ℕ) (d : Dict ℕ) (names : List String)
    → lookup k d ≡ none
    → counts names ((k, n) ∷ d) ≡ n * occurs k names + counts names d
counts-cons k n d [] h = omega arith
counts-cons k n d (name ∷ names) h =
    grind (arith, counts-cons k n d names h, eq_iff k name, eq_iff name k)

-- Where the names are different, every key has one entry, and what has no name counts 0, the counters
-- of the names are all there is.
counts-total :
    (names : List String) (d : Dict ℕ)
    → HasKeysOnce d
    → ((c : String) → occurs c names ≤ 1)
    → ((c : String) → occurs c names ≡ 0 → count_of c d ≡ 0)
    → counts names d ≡ total_of d
counts-total names [] once distinct support = counts_nil names
counts-total names ((k, n) ∷ d) once distinct support =
    let absent : lookup k d ≡ none = zero-lookup k d (ground (arith, once k, eq_iff k k)) in
    let rest : counts names d ≡ total_of d =
      counts-total names d (λ c. omega (arith, once c)) distinct
        (λ c unnamed. ground (arith, support c unnamed, eq_iff k c, absent)) in
    elim (Bool-cases (occurs k names == 0)) [
      | inl unnamed ↦
          grind (arith, rest, counts-cons k n d names absent, support k (ground arith), eq_iff k k)
      | inr is_named ↦
          let single : occurs k names ≡ 1 = ground (arith, distinct k) in
          rw (counts-cons k n d names absent, single) (omega (arith, rest))
    ]

abbrev pub cids : List Candidate → List String
cids services = map (λ (option : Candidate). option.cid) services

occurs-cids :
    (c : String) (services : List Candidate)
    → lookup c (map item services) ≡ none
    → occurs c (cids services) ≡ 0
occurs-cids c [] h = refl
occurs-cids c (option ∷ services) h = ground (arith, occurs-cids c services)

occurs-cids-le :
    (c : String) (services : List Candidate) → AreDistinct services → occurs c (cids services) ≤ 1
occurs-cids-le c [] h = omega arith
occurs-cids-le c (option ∷ services) h =
    ground (
      arith,
      occurs-cids-le c services h.1,
      occurs-cids option.cid services h.0,
      eq_iff option.cid c,
    )

find_cid_unnamed :
    (c : String) (services : List Candidate)
    → occurs c (cids services) ≡ 0
    → find_cid c services ≡ none
find_cid_unnamed c [] h = refl
find_cid_unnamed c (option ∷ services) h = ground (arith, find_cid_unnamed c services)

merge-HasKeysOnce : (preview d : Dict ℕ) → HasKeysOnce d → HasKeysOnce (merge preview d)
unfolding merge
merge-HasKeysOnce [] d h = h
merge-HasKeysOnce ((k, n) ∷ preview) d h =
    merge-HasKeysOnce preview (add_at k n d) (insert-HasKeysOnce k (count_of k d + n) d h)

assign-HasKeysOnce :
    (capped : List Candidate) (d : Dict ℕ) → HasKeysOnce d → HasKeysOnce (assign capped d)
unfolding assign
assign-HasKeysOnce [] d h = h
assign-HasKeysOnce (option ∷ capped) d h =
    let n = option.service.capacity in
    assign-HasKeysOnce capped (insert option.cid n d) (insert-HasKeysOnce option.cid n d h)

abbrev KeepsKeysOnce : Option (Dict ℕ × ℕ) → Type 0
KeepsKeysOnce none = Unit
KeepsKeysOnce (some (d, remaining)) = HasKeysOnce d

allocate-KeepsKeysOnce :
    (fuel w : ℕ) (active : List Candidate) (remaining : ℕ) (d : Dict ℕ)
    → HasKeysOnce d
    → KeepsKeysOnce (allocate fuel w active remaining d)
unfolding allocate
allocate-KeepsKeysOnce zero w active remaining d h = tt
allocate-KeepsKeysOnce (suc fuel) w [] remaining d h = h
allocate-KeepsKeysOnce (suc fuel) w (first ∷ others) remaining d h =
    let active = first ∷ others in
    let preview = proportional remaining (preview_items w active) in
    let capped = capped_now w remaining active in
    elim (Bool-cases (remaining == 0)) [
      | inl done ↦ rw done h
      | inr more ↦ rw more (elim (Bool-cases (length capped == 0)) [
        | inl open_all ↦ rw open_all (merge-HasKeysOnce preview d h)
        | inr some_capped ↦ rw some_capped (
            allocate-KeepsKeysOnce fuel w (left_now w remaining active)
              (remaining - capacities capped) (assign capped d) (assign-HasKeysOnce capped d h))
      ])
    ]

settle_outside-HasKeysOnce :
    (r : Option (Dict ℕ × ℕ)) (d : Dict ℕ)
    → KeepsKeysOnce r
    → Option.map settle_outside r ≡ some d
    → HasKeysOnce d
settle_outside-HasKeysOnce none d h e = cc
settle_outside-HasKeysOnce (some (found, remaining)) d h e =
    let same : settle_outside (found, remaining) ≡ d = cc in
    subst (λ (t : Dict ℕ). HasKeysOnce t) same
      (elim (Bool-cases (remaining == 0)) [
        | inl done ↦ rw done h
        | inr more ↦
            rw more (insert-HasKeysOnce outside (count_of outside found + remaining) found h)
      ])

settle_outside-count_of :
    (c : String) (r : Option (Dict ℕ × ℕ)) (d : Dict ℕ)
    → outside ≢ c
    → Leaves c 0 r
    → Option.map settle_outside r ≡ some d
    → count_of c d ≡ 0
settle_outside-count_of c none d inside h e = cc
settle_outside-count_of c (some (found, remaining)) d inside h e =
    let same : settle_outside (found, remaining) ≡ d = cc in
    subst (λ (t : Dict ℕ). count_of c t ≡ 0) same
      (ground (arith, count_of-add_at outside c remaining found, eq_iff outside c))

module _ (market : Market) (services : List Candidate) (d : Dict ℕ)
    (e : allocations_of market services ≡ some d) where
  allocations_of-HasKeysOnce : HasKeysOnce d
  unfolding allocations_of
  allocations_of-HasKeysOnce =
      settle_outside-HasKeysOnce
        (allocate (suc (length services)) market.outside_weight services market.demand []) d
        (allocate-KeepsKeysOnce (suc (length services)) market.outside_weight services market.demand
          [] (λ c. omega arith))
        e

  allocations_of-unnamed : (c : String) → occurs c (outside ∷ cids services) ≡ 0 → count_of c d ≡ 0
  unfolding allocations_of
  allocations_of-unnamed c h =
      let inside : outside ≢ c = λ same. ground (arith, eq_iff outside c, same) in
      settle_outside-count_of c
        (allocate (suc (length services)) market.outside_weight services market.demand []) d inside
        (allocate-Leaves c inside (suc (length services)) market.outside_weight services
          market.demand [] (find_cid_unnamed c services (ground arith)))
        e

  -- What goes outside and what the services get is everything that is allocated.
  pub allocations_of-counts :
      AreDistinctInside services → counts (outside ∷ cids services) d ≡ total_of d
  allocations_of-counts distinct =
      counts-total (outside ∷ cids services) d allocations_of-HasKeysOnce
        (λ c. ground (
          arith,
          occurs-cids-le c services distinct.1,
          occurs-cids c services,
          distinct.0,
          eq_iff outside c,
        ))
        allocations_of-unnamed
