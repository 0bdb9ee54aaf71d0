-- ===== src/Economy/Towns/Demand.antt =====
-- companion/tpf2mp/checkpoint.py, lines 835 to 869: the demand between towns, and what a second refresh
-- changes.
use tpf2mp.Economy.Records.{Value, whole, integer, integer_within}
use tpf2mp.Economy.Records.Valid.{integer_within_range}
use tpf2mp.Economy.Towns.{
  gravity, Town, Metadata, TownMarket, max_town_size, min_demand, max_demand, gravity_divisor,
  fallback_size, updated_market, direct, prior_network, written, town_named, refreshed_by,
  refreshed_metadata, refresh_market, previous_demand, gravity_demand,
}
use mathlib.Core.Path.{subst}
use native.Mathlib.Nat.{mul-le-mul_left, mul-le-mul_right, div-add-mod, le-div_iff_mul-le}
use tpf2mp.Economy.Amounts.{clamp}
use tpf2mp.Base.Int.{pos, pos_part}
use tpf2mp.Base.{
  ℕ, ◌+◌, ◌-◌, ◌*◌, ◌/◌, ◌≤◌, ◌<◌, ◌≡◌, refl, max, min, Option, none, some, arith, ap,
}
use tpf2mp.Base.Dict.{Dict}

div-le : (m n p q : ℕ) → 0 < p → p ≤ q → m ≤ n → m / q ≤ n / p
div-le m n p q z h k =
    (le-div_iff_mul-le z).1 (grind (arith, div-add-mod m q, mul-le-mul_left (m / q) h))

clamped-le :
    (x y : ℕ)
    → x ≤ y
    → pos_part (clamp (pos x) (pos min_demand) (pos max_demand))
      ≤ pos_part (clamp (pos y) (pos min_demand) (pos max_demand))
clamped-le x y h = ground arith

clamped_bounds :
    (x : ℕ)
    → (min_demand ≤ pos_part (clamp (pos x) (pos min_demand) (pos max_demand)))
      × (pos_part (clamp (pos x) (pos min_demand) (pos max_demand)) ≤ max_demand)
clamped_bounds x = ground arith

-- The demand between two towns lies in the allowed range, and where both are at least as large and no
-- farther apart, it is at least as high.
pub gravity_bounds :
    (a b c d near far : ℕ)
    → a ≤ c
    → b ≤ d
    → near ≤ far
    → (min_demand ≤ gravity a b far)
      × (gravity a b far ≤ gravity c d near)
      × (gravity c d near ≤ max_demand)
unfolding gravity
gravity_bounds a b c d near far h k l =
    let large = c * d / (25 * max 1 (near / 1000)) in
    let small = a * b / (25 * max 1 (far / 1000)) in
    let smaller : small ≤ large =
      div-le (a * b) (c * d) (25 * max 1 (near / 1000)) (25 * max 1 (far / 1000)) (omega arith)
        (omega arith) (grind (arith, mul-le-mul_left a k, mul-le-mul_right d h)) in
    ((clamped_bounds small).0, clamped-le small large smaller, (clamped_bounds large).1)

gravity-le : (a b distance : ℕ) → gravity a b distance ≤ max_demand
unfolding gravity
gravity-le a b distance = (clamped_bounds (a * b / (gravity_divisor * max 1 (distance / 1000)))).1

gravity_demand-le :
    (a b : ℕ) (distance : Value)
    → gravity_demand (whole (pos a)) (whole (pos b)) distance ≤ max_demand
unfolding gravity_demand
gravity_demand-le a b distance =
    gravity-le (integer_within (whole (pos a)) fallback_size 1 max_town_size)
      (integer_within (whole (pos b)) fallback_size 1 max_town_size)
      (pos_part (integer distance (pos 1000) none none))

-- A number within the bounds is read back as it was written.
read_back :
    (n fallback low high : ℕ)
    → low ≤ n
    → n ≤ high
    → integer_within (whole (pos n)) fallback low high ≡ n
unfolding integer_within integer
read_back n fallback low high h k = ground arith

direct_bounds :
    (market : TownMarket) (metadata : Metadata) (first second : Town)
    → (gravity_demand (whole (pos first.size)) (whole (pos second.size)) metadata.corridor_meters
        ≤ direct market metadata first second)
      × (direct market metadata first second ≤ 1_000_000_000)
unfolding direct
direct_bounds market metadata first second =
    let previous = previous_demand market - prior_network metadata in
    (
      omega arith,
      omega (
        arith,
        gravity_demand-le first.size second.size metadata.corridor_meters,
        integer_within_range metadata.direct_demand previous 0 1_000_000_000 (omega arith),
      ),
    )

-- What a refresh has written is what it computes again.
direct-written :
    (market new : TownMarket) (metadata : Metadata) (first second : Town)
    → let demand = direct market metadata first second in
      direct new (written metadata demand first second) first second ≡ demand
unfolding direct
direct-written market new metadata first second =
    let demand = direct market metadata first second in
    let (above, below) = direct_bounds market metadata first second in
    let previous = previous_demand new - prior_network metadata in
    omega (arith, above, read_back demand previous 0 1_000_000_000 (omega arith) below)

updated_market-written :
    (market : TownMarket) (metadata : Metadata) (first second : Town)
    → let new = updated_market market metadata first second in
      let demand = direct market metadata first second in
      updated_market new (written metadata demand first second) first second ≡ new
unfolding updated_market
updated_market-written market metadata first second =
    rw (direct-written market _ metadata first second) refl

previous_demand-updated_market :
    (market : TownMarket) (metadata : Metadata) (first second : Town)
    → let new = updated_market market metadata first second in previous_demand new ≡ new.demand
unfolding updated_market previous_demand
previous_demand-updated_market market metadata first second =
    read_back (min 1_000_000_000 (direct market metadata first second + prior_network metadata))
      min_demand 0 1_000_000_000 (omega arith) (omega arith)

abbrev pub Settles : Dict Town → TownMarket → Type 0
Settles towns new = (refresh_market towns new ≡ some new) × (previous_demand new ≡ new.demand)

refreshed_by-again :
    (towns : Dict Town) (market new : TownMarket) (metadata : Metadata) (f s : Option Town)
    → town_named towns metadata.town_a ≡ f
    → town_named towns metadata.town_b ≡ s
    → refreshed_by market metadata f s ≡ some new
    → Settles towns new
unfolding refresh_market updated_market
refreshed_by-again towns market new metadata none s a b h = absurd (cc)
refreshed_by-again towns market new metadata (some first) none a b h = absurd (cc)
refreshed_by-again towns market new metadata (some first) (some second) a b h =
    let same : updated_market market metadata first second ≡ new = cc in
    subst (Settles towns) same (
      rw (a, b) (ap some (updated_market-written market metadata first second)),
      previous_demand-updated_market market metadata first second,
    )

refreshed_metadata-again :
    (towns : Dict Town) (market new : TownMarket) (metadata : Option Metadata)
    → refreshed_metadata towns market metadata ≡ some new
    → Settles towns new
refreshed_metadata-again towns market new none h = absurd (cc)
refreshed_metadata-again towns market new (some metadata) h =
    refreshed_by-again towns market new metadata _ _ refl refl h

pub refresh_market-again :
    (towns : Dict Town) (market new : TownMarket)
    → refresh_market towns market ≡ some new
    → Settles towns new
unfolding refresh_market
refresh_market-again towns market new h =
    refreshed_metadata-again towns market new market.metadata h
