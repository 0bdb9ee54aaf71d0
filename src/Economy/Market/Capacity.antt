-- ===== src/Economy/Market/Capacity.antt =====
-- The loop of `_evaluate_market` in checkpoint.py: allocations against capacities.
use mathlib.Core.Option
use mathlib.Core.Path.{subst}
use tpf2mp.Base.{
  ℕ, zero, suc, ◌-◌, ◌≤◌, ◌≡◌, ◌≢◌, refl, ◌∙◌, String, true, not, Option, none, some, List, [], ◌∷◌,
  keep, length, arith, ◌==◌, eq_iff, or_else, Bool-cases, inl, inr,
}
use tpf2mp.Base.Dict.{Dict, lookup, count_of, count_of-add_at}
use tpf2mp.Economy.Share.{proportional}
use tpf2mp.Economy.Share.Quota.{proportional_absent}
use tpf2mp.Economy.Share.Distinct.{proportional-IsDistinct}
use tpf2mp.Economy.Records.{Market}
use tpf2mp.Economy.Market.{
  Candidate, outside, preview_items, is_capped, has_cid, assign, capacities, allocate,
  allocations_of, settle_outside,
}
use tpf2mp.Economy.Market.Allocation.{capped_now, left_now, lookup-assign}
use tpf2mp.Economy.Market.Offers.{AreDistinct, keep-AreDistinct}
use tpf2mp.Economy.Market.Find.{
  count_of-merge, find_cid, absent_of-find_cid, has_cid-none, find_cid-keep-none, find_cid-keep,
  count_of-assign, left_now-none, left_now-some,
}

-- What the loop leaves for one service, as long as the loop ends.
abbrev pub Leaves : String → ℕ → Option (Dict ℕ × ℕ) → Type 0
Leaves c amount none = Unit
Leaves c amount (some (d, remaining)) = count_of c d ≡ amount

abbrev Fits : String → ℕ → Option (Dict ℕ × ℕ) → Type 0
Fits c capacity none = Unit
Fits c capacity (some (d, remaining)) = count_of c d ≤ capacity

Fits-Leaves : (c : String) {n m : ℕ} (r : Option (Dict ℕ × ℕ)) → Leaves c n r → n ≡ m → Fits c m r
Fits-Leaves c none h e = tt
Fits-Leaves c (some (d, remaining)) h e = omega arith

module _ (c : String) (inside : outside ≢ c) where
  preview_absent :
      (w remaining : ℕ) (active : List Candidate)
      → find_cid c active ≡ none
      → count_of c (proportional remaining (preview_items w active)) ≡ 0
  preview_absent w remaining active h =
      proportional_absent remaining (preview_items w active) c
        (ground (arith, absent_of-find_cid c active h, eq_iff outside c))

  -- A service that is no longer active keeps what it has.
  pub allocate-Leaves :
      (fuel w : ℕ) (active : List Candidate) (remaining : ℕ) (d : Dict ℕ)
      → find_cid c active ≡ none
      → Leaves c (count_of c d) (allocate fuel w active remaining d)
  unfolding allocate
  allocate-Leaves zero w active remaining d h = tt
  allocate-Leaves (suc fuel) w [] remaining d h = refl
  allocate-Leaves (suc fuel) w (first ∷ others) remaining d h =
      let active = first ∷ others in
      let preview = proportional remaining (preview_items w active) in
      let capped = capped_now w remaining active in
      let left = left_now w remaining active in
      let same : lookup c (assign capped d) ≡ lookup c d =
        lookup-assign c capped d
          (has_cid-none c capped (find_cid-keep-none (is_capped preview) c active h)) in
      let rest : Leaves c (count_of c (assign capped d))
          (allocate fuel w left (remaining - capacities capped) (assign capped d)) =
        allocate-Leaves fuel w left (remaining - capacities capped) (assign capped d)
          (left_now-none w remaining active c h) in
      elim (Bool-cases (remaining == 0)) [
        | inl done ↦ rw done refl
        | inr more ↦ rw more (elim (Bool-cases (length capped == 0)) [
          | inl open_all ↦ rw open_all (
              omega (
                arith,
                count_of-merge c preview d
                    (proportional-IsDistinct remaining (preview_items w active)),
                preview_absent w remaining active h,
              ))
          | inr some_capped ↦ rw some_capped (
              subst
                (λ (o : Option ℕ).
                  Leaves c (or_else o 0)
                    (allocate fuel w left (remaining - capacities capped) (assign capped d)))
                same rest)
        ])
      ]

  uncapped_fits :
      (o : Candidate) (preview : Dict ℕ) (active : List Candidate)
      → find_cid c active ≡ some o
      → (length (keep (is_capped preview) active) == 0) ≡ true
      → count_of c preview ≤ o.service.capacity
  uncapped_fits o preview [] h e = cc
  uncapped_fits o preview (option ∷ active) h e =
      ground (arith, uncapped_fits o preview active, eq_iff option.cid c)

  -- An active service that has nothing yet ends within its capacity.
  allocate-Fits :
      (fuel w : ℕ) (active : List Candidate) (remaining : ℕ) (d : Dict ℕ) (o : Candidate)
      → AreDistinct active
      → find_cid c active ≡ some o
      → lookup c d ≡ none
      → Fits c o.service.capacity (allocate fuel w active remaining d)
  unfolding allocate
  allocate-Fits zero w active remaining d o distinct h fresh = tt
  allocate-Fits (suc fuel) w [] remaining d o distinct h fresh = cc
  allocate-Fits (suc fuel) w (first ∷ others) remaining d o distinct h fresh =
      let active = first ∷ others in
      let preview = proportional remaining (preview_items w active) in
      let capped = capped_now w remaining active in
      let left = left_now w remaining active in
      let others_now = remaining - capacities capped in
      let next = allocate fuel w left others_now (assign capped d) in
      let in_capped = find_cid-keep (is_capped preview) c o active distinct h in
      let in_left = left_now-some w remaining active c o distinct h in
      let round : Fits c o.service.capacity next = elim (Bool-cases (is_capped preview o)) [
        | inl taken ↦
            Fits-Leaves c next
              (allocate-Leaves fuel w left others_now (assign capped d) (in_left ∙ rw taken))
              (count_of-assign c o capped d (keep-AreDistinct (is_capped preview) active distinct)
                (in_capped ∙ rw taken))
        | inr kept ↦
            allocate-Fits fuel w left others_now (assign capped d) o
              (keep-AreDistinct (λ option. not (has_cid capped option.cid)) active distinct)
              (in_left ∙ rw kept)
              (lookup-assign c capped d (has_cid-none c capped (in_capped ∙ rw kept)) ∙ fresh)
      ] in
      elim (Bool-cases (remaining == 0)) [
        | inl done ↦ rw done (rw fresh (omega arith))
        | inr more ↦ rw more (elim (Bool-cases (length capped == 0)) [
          | inl open_all ↦ rw open_all (
              rw
                (count_of-merge c preview d
                  (proportional-IsDistinct remaining (preview_items w active)))
                (rw fresh (omega (arith, uncapped_fits o preview active h open_all))))
          | inr some_capped ↦ rw some_capped round
        ])
      ]

  settled-Fits :
      {m : ℕ} (r : Option (Dict ℕ × ℕ)) (d : Dict ℕ)
      → Fits c m r
      → Option.map settle_outside r ≡ some d
      → count_of c d ≤ m
  settled-Fits none d h e = cc
  settled-Fits {m} (some (found, remaining)) d h e =
      let same : settle_outside (found, remaining) ≡ d = cc in
      subst (λ (t : Dict ℕ). count_of c t ≤ m) same
        (ground (arith, count_of-add_at outside c remaining found, eq_iff outside c))

  -- A market never gives a service more than its capacity.
  pub allocations_of-capacity :
      (market : Market) (services : List Candidate) (o : Candidate) (d : Dict ℕ)
      → AreDistinct services
      → find_cid c services ≡ some o
      → allocations_of market services ≡ some d
      → count_of c d ≤ o.service.capacity
  unfolding allocations_of
  allocations_of-capacity market services o d distinct h e =
      settled-Fits
        (allocate (suc (length services)) market.outside_weight services market.demand []) d
        (allocate-Fits (suc (length services)) market.outside_weight services market.demand [] o
          distinct h refl)
        e
