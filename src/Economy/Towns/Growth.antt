-- ===== src/Economy/Towns/Growth.antt =====
-- companion/tpf2mp/checkpoint.py, lines 890 to 912: how a settlement's passengers make towns grow.
use native.Mathlib.Nat.{div-add-mod, mod-lt}
use tpf2mp.Economy.Records.{absent, integer, integer_within}
use tpf2mp.Economy.Towns.{
  Town, TownMarket, TownChange, Row, upserted_town, grown, grow_towns, carry, change_of,
  advance_town_demand, max_town_size,
}
use tpf2mp.Base.{
  ℕ, ◌+◌, ◌*◌, ◌/◌, ◌≤◌, ◌<◌, ◌≡◌, refl, ◌∙◌, String, none, some, List, [], ◌∷◌, inl, inr, arith,
  ap, ◌⊎◌, min, or_else, str_eq, eq_iff, Bool-cases, Option-cases, sum_by,
}
use tpf2mp.Base.Dict.{Dict, lookup, insert, lookup-insert, AllValues, keys, count_of, total_of}
use tpf2mp.Base.Keys.{occurs, lookup-occurs_zero, lookup-occurs_pos, occurs-sorted}
use tpf2mp.Base.Sort.{sorted, leb_str, sum_by-sort_rows}
use tpf2mp.Economy.Towns.Carried.{
  contribution, share_of, carry-total, carry-count_of, carry-HasKeysOnce,
}

-- A town before the settlement; a town that is not there yet starts at the fallback size.
abbrev pub town_before : Dict Town → String → Town
town_before towns cid = or_else (lookup cid towns) (upserted_town none absent)

module _ (carried : Dict ℕ) where
  grow_towns-other :
      (towns : Dict Town) (changes : Dict TownChange) (cids : List String) (c : String)
      → occurs c cids ≡ 0
      → lookup c (grow_towns carried (towns, changes) cids).0 ≡ lookup c towns
  unfolding grow_towns
  grow_towns-other towns changes [] c h = refl
  grow_towns-other towns changes (cid ∷ cids) c h =
      let old = town_before towns cid in
      let new = grown old (count_of cid carried) in
      let next = insert cid new towns in
      grow_towns-other next (insert cid (change_of old new (count_of cid carried)) changes) cids c
        (ground (arith, h))
      ∙ ground (arith, h, lookup-insert cid c new towns)

  grow_towns-once :
      (towns : Dict Town) (changes : Dict TownChange) (cids : List String) (c : String)
      → occurs c cids ≡ 1
      → lookup c (grow_towns carried (towns, changes) cids).0
        ≡ some (grown (town_before towns c) (count_of c carried))
  unfolding grow_towns
  grow_towns-once towns changes [] c h = absurd (omega (arith, h))
  grow_towns-once towns changes (cid ∷ cids) c h =
      let old = town_before towns cid in
      let new = grown old (count_of cid carried) in
      let next = insert cid new towns in
      let noted = insert cid (change_of old new (count_of cid carried)) changes in
      elim (Bool-cases (str_eq cid c)) [
        | inl same ↦
            let key : cid ≡ c = (eq_iff cid c).0 same in
            let last : occurs c cids ≡ 0 = ground (arith, h, same) in
            let here : lookup c next ≡ some new = cc (lookup-insert cid c new towns, same) in
            grow_towns-other next noted cids c last
            ∙ here
            ∙ ap (λ k. some (grown (town_before towns k) (count_of k carried))) key
        | inr other ↦
            let before : lookup c next ≡ lookup c towns =
              cc (lookup-insert cid c new towns, other) in
            grow_towns-once next noted cids c (ground (arith, h, other))
            ∙ ap (λ o. some (grown (or_else o (upserted_town none absent)) (count_of c carried)))
                before
      ]

-- A town's sizes and residual are in their ranges.
pub record IsTown (town : Town) : Type 0 where
  pub size_le : town.size ≤ max_town_size
  pub resid_lt : town.growth_resid < 400

-- A town that `carried` passengers reach: four units for each of them and the old residual are 400 for
-- each unit of growth and the new residual, and the size grows by that, up to the largest size.
pub record Grown (old new : Town) (carried : ℕ) : Type 0 where
  pub gain : ℕ
  pub conserved : gain * 400 + new.growth_resid ≡ old.growth_resid + carried * 4
  pub size : new.size ≡ min max_town_size (old.size + gain)
  pub not_smaller : old.size ≤ new.size
  pub valid : IsTown new

grown-Grown : (old : Town) (carried : ℕ) → IsTown old → Grown old (grown old carried) carried
unfolding grown
grown-Grown old carried h =
    let numerator = old.growth_resid + carried * 4 in
    record {
      gain = numerator / 400;
      conserved = grind (arith, div-add-mod numerator 400);
      size = refl;
      not_smaller = omega (arith, h.size_le);
      valid = record { size_le = omega arith; resid_lt = mod-lt numerator (omega arith) };
    }

fallback-IsTown : IsTown (upserted_town none absent)
unfolding upserted_town integer_within integer
fallback-IsTown = record { size_le = omega arith; resid_lt = omega arith }

town_before-IsTown :
    (towns : Dict Town) (cid : String) → AllValues IsTown towns → IsTown (town_before towns cid)
town_before-IsTown towns cid h = go (Option-cases (lookup cid towns))
  where
    go :
        (lookup cid towns ≡ none) ⊎ ((t : Town) × (lookup cid towns ≡ some t))
        → IsTown (town_before towns cid)
    go (inl missing) = rw missing fallback-IsTown
    go (inr (town, found)) = rw found (h cid town found)

-- What a settlement carries for each town, as `_advance_town_demand` adds it up.
abbrev pub carried_by : Dict TownMarket → Dict (Dict Row) → Dict ℕ
carried_by markets results = carry markets results [] (sorted (keys results))

-- Where the towns are in their ranges, what is carried for all towns together is all the passengers of
-- the results of the passenger markets between two towns, and what is carried for one town is half of
-- them, rounded down, for each market whose first town it is, and the rest for each whose second town
-- it is; a town for which something is carried grows by it, all other towns stay as they are.
pub advance_town_demand_lem :
    (towns : Dict Town) (markets : Dict TownMarket) (results : Dict (Dict Row))
    → AllValues IsTown towns
    → (total_of (carried_by markets results) ≡ sum_by (contribution markets results) (keys results))
      × ((cid : String)
          → (count_of cid (carried_by markets results)
              ≡ sum_by (share_of markets results cid) (keys results))
            × (lookup cid (carried_by markets results) ≡ none
                → lookup cid (advance_town_demand towns markets results).towns ≡ lookup cid towns)
            × ((carried : ℕ)
                → lookup cid (carried_by markets results) ≡ some carried
                → (new : Town) × (lookup cid (advance_town_demand towns markets results).towns
                    ≡ some new)
                  × Grown (town_before towns cid) new carried))
unfolding advance_town_demand sorted
advance_town_demand_lem towns markets results h =
    let carried = carried_by markets results in
    let once = carry-HasKeysOnce markets results [] (sorted (keys results)) (λ c. omega arith) in
    (
      carry-total markets results [] (sorted (keys results))
          ∙ omega (arith, sum_by-sort_rows leb_str (contribution markets results) (keys results)),
      λ cid. (
        carry-count_of cid markets results [] (sorted (keys results))
            ∙ omega (arith, sum_by-sort_rows leb_str (share_of markets results cid) (keys results)),
        λ missing.
            grow_towns-other carried towns [] (sorted (keys carried)) cid
              (occurs-sorted cid (keys carried) ∙ lookup-occurs_zero cid carried missing),
        λ amount found.
            let once_here : occurs cid (sorted (keys carried)) ≡ 1 = omega (
              arith,
              once cid,
              occurs-sorted cid (keys carried),
              lookup-occurs_pos cid amount carried found,
            ) in
            let counted : count_of cid carried ≡ amount = rw found refl in
            (
              grown (town_before towns cid) amount,
              grow_towns-once carried towns [] (sorted (keys carried)) cid once_here
                  ∙ ap (λ n. some (grown (town_before towns cid) n)) counted,
              grown-Grown (town_before towns cid) amount (town_before-IsTown towns cid h),
            ),
      ),
    )
