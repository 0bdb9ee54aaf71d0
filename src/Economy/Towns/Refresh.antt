-- ===== src/Economy/Towns/Refresh.antt =====
-- companion/tpf2mp/checkpoint.py, lines 835 to 869: the demand between two towns, from their sizes.
use tpf2mp.Economy.Towns.Records.{
  fallback_size, gravity_divisor, min_demand, max_demand, max_town_size, Town, Metadata, TownMarket,
}
use tpf2mp.Economy.Amounts.{clamp}
use tpf2mp.Economy.Records.{Value, whole, integer, integer_within}
use tpf2mp.Base.{
  ℕ, ◌+◌, ◌-◌, ◌*◌, ◌/◌, min, max, String, Option, none, some, List, [], ◌∷◌, ◌==◌, if◌then◌else◌,
}
use tpf2mp.Base.Int.{pos, pos_part}
use tpf2mp.Base.Dict.{Dict, lookup, insert, keys}
use tpf2mp.Base.Sort.{sorted}

-- `_gravity_demand` on its three integers.
unfoldable pub gravity : ℕ → ℕ → ℕ → ℕ
gravity first second distance =
    let km = max 1 (distance / 1000) in
    pos_part
      (clamp (pos (first * second / (gravity_divisor * km))) (pos min_demand) (pos max_demand))

unfoldable pub gravity_demand : Value → Value → Value → ℕ
unfolding gravity
gravity_demand size_a size_b distance_meters =
    gravity (integer_within size_a fallback_size 1 max_town_size)
      (integer_within size_b fallback_size 1 max_town_size)
      (pos_part (integer distance_meters (pos 1000) none none))

-- `_integer(market.get("demand"), _MIN_DEMAND, 0, 1_000_000_000)`
unfoldable pub previous_demand : TownMarket → ℕ
previous_demand market = integer_within (whole (pos market.demand)) min_demand 0 1_000_000_000

-- `prior_network` and `direct` in the loop of `_refresh_market_demands` where both towns are there.
unfoldable pub prior_network : Metadata → ℕ
prior_network metadata = integer_within metadata.network_demand 0 0 1_000_000_000

unfoldable pub direct : TownMarket → Metadata → Town → Town → ℕ
unfolding previous_demand prior_network gravity_demand
direct market metadata first second =
    let computed =
      gravity_demand (whole (pos first.size)) (whole (pos second.size)) metadata.corridor_meters in
    max
      (integer_within metadata.direct_demand (previous_demand market - prior_network metadata) 0
        1_000_000_000)
      computed

abbrev pub written : Metadata → ℕ → Town → Town → Metadata
written metadata demand first second = record metadata {
  direct_demand = whole (pos demand);
  town_size_a = whole (pos first.size);
  town_size_b = whole (pos second.size);
}

unfoldable pub updated_market : TownMarket → Metadata → Town → Town → TownMarket
unfolding direct
updated_market market metadata first second =
    let demand = direct market metadata first second in
    record market {
      demand = min 1_000_000_000 (demand + prior_network metadata);
      metadata = some (written metadata demand first second);
    }

-- `towns.get(name)`, where the name may be none.
abbrev pub town_named : Dict Town → Option String → Option Town
town_named towns none = none
town_named towns (some cid) = lookup cid towns

abbrev pub refreshed_by : TownMarket → Metadata → Option Town → Option Town → Option TownMarket
refreshed_by market metadata (some first) (some second) =
    some (updated_market market metadata first second)
refreshed_by market metadata _ _ = none

abbrev pub refreshed_metadata : Dict Town → TownMarket → Option Metadata → Option TownMarket
refreshed_metadata towns market none = none
refreshed_metadata towns market (some metadata) =
    refreshed_by market metadata (town_named towns metadata.town_a)
      (town_named towns metadata.town_b)

-- The market after the body of the loop, or nothing where the body leaves it alone.
unfoldable pub refresh_market : Dict Town → TownMarket → Option TownMarket
unfolding updated_market
refresh_market towns market = refreshed_metadata towns market market.metadata

pub record DemandChange : Type 0 where
  pub previous_demand : ℕ
  pub demand : ℕ

abbrev pub noted : String → ℕ → TownMarket → Dict DemandChange → Dict DemandChange
noted cid previous new changes =
    if new.demand == previous
    then changes
    else insert cid (record { previous_demand = previous; demand = new.demand }) changes

abbrev pub refreshed_in :
    Dict TownMarket × Dict DemandChange
    → String
    → ℕ
    → Option TownMarket
    → Dict TownMarket × Dict DemandChange
refreshed_in result cid previous none = result
refreshed_in (markets, changes) cid previous (some new) =
    (insert cid new markets, noted cid previous new changes)

abbrev pub refresh_found :
    Dict Town
    → Dict TownMarket × Dict DemandChange
    → String
    → Option TownMarket
    → Dict TownMarket × Dict DemandChange
refresh_found towns result cid none = result
refresh_found towns result cid (some market) =
    refreshed_in result cid (previous_demand market) (refresh_market towns market)

abbrev pub refresh_one :
    Dict Town → Dict TownMarket × Dict DemandChange → String → Dict TownMarket × Dict DemandChange
refresh_one towns result cid = refresh_found towns result cid (lookup cid result.0)

unfoldable pub refresh_markets :
    Dict Town
    → Dict TownMarket × Dict DemandChange
    → List String
    → Dict TownMarket × Dict DemandChange
unfolding refresh_market
refresh_markets towns result [] = result
refresh_markets towns result (cid ∷ cids) =
    refresh_markets towns (refresh_one towns result cid) cids

-- The markets are visited in the order of their sorted keys.
unfoldable pub refresh_market_demands :
    Dict Town → Dict TownMarket → Dict TownMarket × Dict DemandChange
unfolding refresh_markets
refresh_market_demands towns markets = refresh_markets towns (markets, []) (sorted (keys markets))
