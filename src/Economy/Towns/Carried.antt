-- ===== src/Economy/Towns/Carried.antt =====
-- companion/tpf2mp/checkpoint.py, lines 872 to 889: what a settlement carries for each town.
use tpf2mp.Economy.Towns.{
  TownMarket, Metadata, Row, carry, split_between, carried_on, carried_to, carried_between,
  total_at, carried_of,
}
use tpf2mp.Base.{
  ℕ, ◌+◌, ◌-◌, ◌/◌, ◌≡◌, String, Bool, true, false, Option, none, some, List, [], ◌∷◌, arith,
  if◌then◌else◌, sum_by, str_eq, Bool-cases, inl, inr, refl, ap, Option-cases,
}
use tpf2mp.Economy.Records.{Value, integer}
use tpf2mp.Base.Int.{pos, pos_part}
use tpf2mp.Base.Dict.{
  Dict, lookup, values, add_at, total_of, total_of-add_at, count_of, count_of-add_at,
}
use tpf2mp.Base.Keys.{HasKeysOnce, insert-HasKeysOnce}

-- A number of a passenger market's two towns, and 0 for a market that is missing, is for cargo or does
-- not name both.
module _ (f : String → String → ℕ) where
  abbrev at_both : Option String → Option String → ℕ
  at_both none b = 0
  at_both (some a) none = 0
  at_both (some a) (some b) = f a b

  abbrev at_metadata : Option Metadata → ℕ
  at_metadata none = 0
  at_metadata (some m) = at_both m.town_a m.town_b

  abbrev pub at_towns : Option TownMarket → ℕ
  at_towns none = 0
  at_towns (some m) = if m.is_cargo then 0 else at_metadata m.metadata

-- The passengers of a service's row: those delivered, where the row says so, else those allocated.
abbrev reading : Value → ℕ
reading value = pos_part (integer value (pos 0) (some (pos 0)) none)

abbrev passengers_of : Row → ℕ
passengers_of row = elim row.delivered [
  | none ↦ reading row.allocated
  | some delivered ↦ reading delivered
]

abbrev pub passengers_at : Option (Dict Row) → ℕ
passengers_at none = 0
passengers_at (some services) = sum_by (λ (row : String × Row). passengers_of row.1) services

carried_of-passengers : (row : Row) → carried_of row ≡ passengers_of row
unfolding carried_of
carried_of-passengers row = elim (Option-cases row.delivered) [
  | inl missing ↦ rw missing refl
  | inr (delivered, there) ↦ rw there refl
]

sum_by-carried_of :
    (services : Dict Row) → sum_by carried_of (values services) ≡ passengers_at (some services)
sum_by-carried_of [] = refl
sum_by-carried_of ((cid, row) ∷ services) =
    omega (arith, carried_of-passengers row, sum_by-carried_of services)

total_at-passengers : (result : Option (Dict Row)) → total_at result ≡ passengers_at result
total_at-passengers none = refl
total_at-passengers (some services) = sum_by-carried_of services

-- What a market's result adds to its two towns together: all the passengers it carried.
abbrev pub contribution : Dict TownMarket → Dict (Dict Row) → String → ℕ
contribution markets results cid =
    at_towns (λ a b. passengers_at (lookup cid results)) (lookup cid markets)

-- What a market's result adds to one town: half of the passengers, rounded down, where the town is the
-- market's first, and the rest of them where it is the second.
abbrev town_share : String → ℕ → String → String → ℕ
town_share town total a b =
    (if str_eq a town then total / 2 else 0) + (if str_eq b town then total - total / 2 else 0)

abbrev pub share_of : Dict TownMarket → Dict (Dict Row) → String → String → ℕ
share_of markets results town cid =
    at_towns (town_share town (passengers_at (lookup cid results))) (lookup cid markets)

-- A measure that a split between two towns raises by a number of the towns.
module _ (measure : Dict ℕ → ℕ) (f : ℕ → String → String → ℕ)
    (split : (d : Dict ℕ) (total : ℕ) (a b : String)
      → measure (split_between d total a b) ≡ measure d + f total a b) where
  carried_between-measure :
      (d : Dict ℕ) (total : ℕ) (a b : Option String)
      → measure (carried_between d total a b) ≡ measure d + at_both (f total) a b
  carried_between-measure d total none b = omega arith
  carried_between-measure d total (some a) none = omega arith
  carried_between-measure d total (some a) (some b) = split d total a b

  carried_to-measure :
      (d : Dict ℕ) (total : ℕ) (m : Option Metadata)
      → measure (carried_to d total m) ≡ measure d + at_metadata (f total) m
  carried_to-measure d total none = omega arith
  carried_to-measure d total (some m) = carried_between-measure d total m.town_a m.town_b

  carried_on-measure :
      (d : Dict ℕ) (total : ℕ) (m : Option TownMarket)
      → measure (carried_on d total m) ≡ measure d + at_towns (f total) m
  carried_on-measure d total none = omega arith
  carried_on-measure d total (some m) = elim (Bool-cases m.is_cargo) [
    | inl cargo ↦ rw cargo (omega arith)
    | inr passengers ↦ rw passengers (carried_to-measure d total m.metadata)
  ]

  carry-measure :
      (markets : Dict TownMarket) (results : Dict (Dict Row)) (d : Dict ℕ) (cids : List String)
      → measure (carry markets results d cids)
        ≡ measure d
          + sum_by
              (λ cid. at_towns (f (passengers_at (lookup cid results))) (lookup cid markets))
              cids
  unfolding carry
  carry-measure markets results d [] = omega arith
  carry-measure markets results d (cid ∷ cids) =
      let total = total_at (lookup cid results) in
      let market = lookup cid markets in
      omega (
        arith,
        carried_on-measure d total market,
        ap (λ n. at_towns (f n) market) (total_at-passengers (lookup cid results)),
        carry-measure markets results (carried_on d total market) cids,
      )

halves : (total : ℕ) → total / 2 + (total - total / 2) ≡ total
halves total = omega arith

total_of-split_between :
    (d : Dict ℕ) (total : ℕ) (a b : String)
    → total_of (split_between d total a b) ≡ total_of d + total
unfolding split_between
total_of-split_between d total a b =
    let half = total / 2 in
    let rest = total - total / 2 in
    omega (arith, total_of-add_at a half d, total_of-add_at b rest (add_at a half d), halves total)

count_of-split_between :
    (town : String) (d : Dict ℕ) (total : ℕ) (a b : String)
    → count_of town (split_between d total a b) ≡ count_of town d + town_share town total a b
unfolding split_between
count_of-split_between town d total a b =
    let half = total / 2 in
    let rest = total - total / 2 in
    omega (arith, count_of-add_at a town half d, count_of-add_at b town rest (add_at a half d))

pub carry-total :
    (markets : Dict TownMarket) (results : Dict (Dict Row)) (d : Dict ℕ) (cids : List String)
    → total_of (carry markets results d cids)
      ≡ total_of d + sum_by (contribution markets results) cids
carry-total markets results d cids =
    carry-measure total_of (λ total a b. total) total_of-split_between markets results d cids

pub carry-count_of :
    (town : String) (markets : Dict TownMarket) (results : Dict (Dict Row)) (d : Dict ℕ)
    (cids : List String)
    → count_of town (carry markets results d cids)
      ≡ count_of town d + sum_by (share_of markets results town) cids
carry-count_of town markets results d cids =
    carry-measure (count_of town) (town_share town) (count_of-split_between town) markets results d
      cids

carried_between-HasKeysOnce :
    (d : Dict ℕ) (total : ℕ) (a b : Option String)
    → HasKeysOnce d
    → HasKeysOnce (carried_between d total a b)
unfolding split_between
carried_between-HasKeysOnce d total none b h = h
carried_between-HasKeysOnce d total (some a) none h = h
carried_between-HasKeysOnce d total (some a) (some b) h =
    insert-HasKeysOnce b _ _ (insert-HasKeysOnce a _ d h)

carried_to-HasKeysOnce :
    (d : Dict ℕ) (total : ℕ) (m : Option Metadata)
    → HasKeysOnce d
    → HasKeysOnce (carried_to d total m)
carried_to-HasKeysOnce d total none h = h
carried_to-HasKeysOnce d total (some m) h = carried_between-HasKeysOnce d total m.town_a m.town_b h

carried_on-HasKeysOnce :
    (d : Dict ℕ) (total : ℕ) (m : Option TownMarket)
    → HasKeysOnce d
    → HasKeysOnce (carried_on d total m)
carried_on-HasKeysOnce d total none h = h
carried_on-HasKeysOnce d total (some m) h = go m.is_cargo
  where
    go : (b : Bool) → HasKeysOnce (if b then d else carried_to d total m.metadata)
    go true = h
    go false = carried_to-HasKeysOnce d total m.metadata h

pub carry-HasKeysOnce :
    (markets : Dict TownMarket) (results : Dict (Dict Row)) (d : Dict ℕ) (cids : List String)
    → HasKeysOnce d
    → HasKeysOnce (carry markets results d cids)
unfolding carry
carry-HasKeysOnce markets results d [] h = h
carry-HasKeysOnce markets results d (cid ∷ cids) h =
    carry-HasKeysOnce markets results
      (carried_on d (total_at (lookup cid results)) (lookup cid markets)) cids
      (carried_on-HasKeysOnce d _ _ h)
