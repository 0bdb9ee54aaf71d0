-- ===== src/Economy/Market/Allocation.antt =====
-- The loop of `_evaluate_market` in checkpoint.py: its rounds, and what they allocate in total.
use text.Mathlib.TextPositions.{eq_refl}
use mathlib.Core.Option
use mathlib.Core.Path.{subst}
use tpf2mp.Base.{
  ℕ, zero, suc, ◌+◌, ◌-◌, ◌≤◌, ◌<◌, ◌≡◌, refl, String, Bool, true, false, not, ◌||◌, Option, none,
  some, List, [], ◌∷◌, map, keep, length, arith, ◌==◌, eq_iff, Bool-cases, inl, inr,
}
use tpf2mp.Base.Dict.{Dict, lookup, insert, total_of, lookup-insert, total_of-add_at}
use tpf2mp.Economy.Share.{proportional}
use tpf2mp.Economy.Share.Total.{nil-IsFresh}
use tpf2mp.Economy.Records.{Market}
use tpf2mp.Economy.Market.{
  Candidate, item, outside, preview_items, is_capped, has_cid, assign, capacities, allocate,
  allocations_of, settle_outside,
}
use tpf2mp.Economy.Market.Offers.{
  total_of-merge, AreFresh, total_of-assign, lookup-keep, keep-AreDistinct, keep-AreFresh,
  AreDistinctInside, total_of-preview, capacities-le-remaining,
}

pub lookup-assign :
    (c : String) (capped : List Candidate) (d : Dict ℕ)
    → has_cid capped c ≡ false
    → lookup c (assign capped d) ≡ lookup c d
unfolding assign
lookup-assign c [] d h = refl
lookup-assign c (option ∷ capped) d h =
    let n = option.service.capacity in
    ground (
      arith,
      lookup-assign c capped (insert option.cid n d),
      lookup-insert option.cid c n d,
      eq_iff option.cid c,
    )

assign-AreFresh :
    (capped active : List Candidate) (d : Dict ℕ)
    → AreFresh d active
    → AreFresh (assign capped d) (keep (λ option. not (has_cid capped option.cid)) active)
assign-AreFresh capped [] d h = tt
assign-AreFresh capped (option ∷ active) d h =
    ground (arith, assign-AreFresh capped active d h.1, lookup-assign option.cid capped d)

module _ (p : Candidate → Bool) where
  -- Every candidate that passes the test is in `capped`.
  abbrev Covers : List Candidate → List Candidate → Type 0
  Covers capped [] = Unit
  Covers capped (option ∷ active) =
      ((not (p option) || has_cid capped option.cid) ≡ true) × Covers capped active

  Covers-cons :
      (first : Candidate) (capped active : List Candidate)
      → Covers capped active
      → Covers (first ∷ capped) active
  Covers-cons first capped [] h = tt
  Covers-cons first capped (option ∷ active) h = ground (arith, Covers-cons first capped active h.1)

  Covers-keep : (active : List Candidate) → Covers (keep p active) active
  Covers-keep [] = tt
  Covers-keep (option ∷ active) =
      let tail = Covers-keep active in
      ground (arith, eq_refl option.cid, tail, Covers-cons option (keep p active) active tail)

  -- The candidates that are left after a round are fewer by those that were capped.
  length-kept :
      (capped active : List Candidate)
      → Covers capped active
      → length (keep (λ option. not (has_cid capped option.cid)) active) + length (keep p active)
        ≤ length active
  length-kept capped [] h = omega arith
  length-kept capped (option ∷ active) h = ground (arith, length-kept capped active h.1)

-- One round in which some candidates are capped.
module _ (w remaining : ℕ) (active : List Candidate) where
  abbrev pub capped_now : List Candidate
  capped_now = keep (is_capped (proportional remaining (preview_items w active))) active

  abbrev pub left_now : List Candidate
  left_now = keep (λ option. not (has_cid capped_now option.cid)) active

  pub length-left_now : length left_now + length capped_now ≤ length active
  length-left_now =
      let p = is_capped (proportional remaining (preview_items w active)) in
      length-kept p capped_now active (Covers-keep p active)

  pub left_now-AreDistinctInside : AreDistinctInside active → AreDistinctInside left_now
  left_now-AreDistinctInside distinct =
      let p : Candidate → Bool = λ option. not (has_cid capped_now option.cid) in
      (lookup-keep p outside active distinct.0, keep-AreDistinct p active distinct.1)

  pub total_of-round :
      (d : Dict ℕ)
      → 0 < w
      → 0 < remaining
      → AreDistinctInside active
      → AreFresh d active
      → total_of (assign capped_now d) + (remaining - capacities capped_now)
        ≡ total_of d + remaining
  total_of-round d h k distinct fresh =
      let p = is_capped (proportional remaining (preview_items w active)) in
      omega (
        arith,
        total_of-assign capped_now d (keep-AreDistinct p active distinct.1)
            (keep-AreFresh p d active fresh),
        capacities-le-remaining w remaining active h k distinct,
      )

-- What the loop hands back: nothing is lost between the demand, what is allocated, and what remains.
abbrev Conserves : ℕ → Option (Dict ℕ × ℕ) → Type 0
Conserves demand none = ⊥
Conserves demand (some (allocations, remaining)) = total_of allocations + remaining ≡ demand

-- With as much fuel as candidates the loop ends.
allocate-Conserves :
    (fuel outside_weight : ℕ) (active : List Candidate) (remaining : ℕ) (d : Dict ℕ)
    → length active < fuel
    → 0 < outside_weight
    → AreDistinctInside active
    → AreFresh d active
    → Conserves (total_of d + remaining) (allocate fuel outside_weight active remaining d)
unfolding allocate
allocate-Conserves zero w active remaining d h k distinct fresh = absurd (omega arith)
allocate-Conserves (suc fuel) w [] remaining d h k distinct fresh = refl
allocate-Conserves (suc fuel) w (first ∷ others) remaining d h k distinct fresh =
    let active = first ∷ others in
    let capped = capped_now w remaining active in
    let left = left_now w remaining active in
    elim (Bool-cases (remaining == 0)) [
      | inl done ↦ rw done (ground arith)
      | inr more ↦ rw more (elim (Bool-cases (length capped == 0)) [
        | inl open_all ↦ rw open_all (
            ground (
              arith,
              total_of-merge (proportional remaining (preview_items w active)) d,
              total_of-preview w remaining active k (ground arith) distinct,
            ))
        | inr some_capped ↦ rw some_capped (
            subst
              (λ n.
                Conserves n
                  (allocate fuel w left (remaining - capacities capped) (assign capped d)))
              (total_of-round w remaining active d k (ground arith) distinct fresh)
              (allocate-Conserves fuel w left (remaining - capacities capped) (assign capped d)
                (ground (arith, length-left_now w remaining active)) k
                (left_now-AreDistinctInside w remaining active distinct)
                (assign-AreFresh capped active d fresh)))
      ])
    ]

-- A market's demand is allocated in full: to the services, and the rest outside.
pub allocations_of-Conserves :
    (market : Market) (services : List Candidate)
    → 0 < market.outside_weight
    → AreDistinctInside services
    → (d : Dict ℕ) × (allocations_of market services ≡ some d) × (total_of d ≡ market.demand)
unfolding allocations_of
allocations_of-Conserves market services h distinct =
    settled (allocate (suc (length services)) market.outside_weight services market.demand []) (
      allocate-Conserves (suc (length services)) market.outside_weight services market.demand []
        (omega arith) h distinct (nil-IsFresh (map item services)))
  where
    settled :
        (r : Option (Dict ℕ × ℕ))
        → Conserves (0 + market.demand) r
        → (d : Dict ℕ) × (Option.map settle_outside r ≡ some d) × (total_of d ≡ market.demand)
    settled none h = absurd h
    settled (some (d, remaining)) h =
        (settle_outside (d, remaining), refl, ground (arith, total_of-add_at outside remaining d))
