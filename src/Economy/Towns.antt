-- ===== src/Economy/Towns.antt =====
-- companion/tpf2mp/checkpoint.py, lines 797 to 912: towns, the demand between two towns, and their
-- growth by what a settlement carried, which stands here. A town's `schemaVersion` and `cid`, a constant
-- and its key, are left out; the sizes that are stored are at most `_MAX_TOWN_SIZE`, as every operation
-- here leaves them, so that no difference of sizes is negative.
mod Records
mod Refresh
pub mod Demand
pub mod Again
pub mod Carried
pub mod Growth
mod Tests
unfoldable pub use Records.*
unfoldable pub use Refresh.*
use tpf2mp.Economy.Amounts.{clamp}
use tpf2mp.Economy.Records.{Value, absent, whole, integer, integer_within}
use tpf2mp.Base.{
  ℕ, ◌+◌, ◌-◌, ◌*◌, ◌/◌, ◌%◌, min, max, String, Bool, true, false, ◌||◌, Option, none, some, List,
  [], ◌∷◌, ◌==◌, if◌then◌else◌, or_else, sum_by, map,
}
use tpf2mp.Base.Int.{pos, pos_part}
use tpf2mp.Base.Dict.{Dict, lookup, insert, keys, values, add_at, count_of}
use tpf2mp.Base.Sort.{sorted}

-- One service's row in the result of a settlement. `delivered` is missing where the key is.
pub record Row : Type 0 where
  pub delivered : Option Value
  pub allocated : Value

unfoldable pub carried_of : Row → ℕ
carried_of row =
    pos_part (integer (or_else row.delivered row.allocated) (pos 0) (some (pos 0)) none)

abbrev total_carried : Dict Row → ℕ
total_carried services = sum_by carried_of (values services)

-- The total of a market that the results hold; the loop visits no other.
abbrev total_at : Option (Dict Row) → ℕ
total_at none = 0
total_at (some services) = total_carried services

-- `total // 2` for one town, the rest for the other.
unfoldable pub split_between : Dict ℕ → ℕ → String → String → Dict ℕ
split_between carried total town_a town_b =
    add_at town_b (total - total / 2) (add_at town_a (total / 2) carried)

abbrev carried_between : Dict ℕ → ℕ → Option String → Option String → Dict ℕ
carried_between carried total (some town_a) (some town_b) =
    split_between carried total town_a town_b
carried_between carried total _ _ = carried

abbrev carried_to : Dict ℕ → ℕ → Option Metadata → Dict ℕ
carried_to carried total none = carried
carried_to carried total (some metadata) =
    carried_between carried total metadata.town_a metadata.town_b

abbrev carried_on : Dict ℕ → ℕ → Option TownMarket → Dict ℕ
carried_on carried total none = carried
carried_on carried total (some market) =
    if market.is_cargo then carried else carried_to carried total market.metadata

-- The first loop of `_advance_town_demand`, over the results of the markets in sorted order.
unfoldable pub carry : Dict TownMarket → Dict (Dict Row) → Dict ℕ → List String → Dict ℕ
unfolding split_between carried_of
carry markets results carried [] = carried
carry markets results carried (cid ∷ cids) =
    let total = total_at (lookup cid results) in
    carry markets results (carried_on carried total (lookup cid markets)) cids

pub record TownChange : Type 0 where
  pub carried : ℕ
  pub previous_size : ℕ
  pub size : ℕ
  pub gained : ℕ
  pub growth_resid : ℕ

-- The body of the second loop on the town's record.
unfoldable pub grown : Town → ℕ → Town
grown town carried =
    let numerator = town.growth_resid + carried * capacity_per_building in
    let size = min max_town_size (town.size + numerator / passengers_per_building) in
    record {
      size = size;
      growth_resid = numerator % passengers_per_building;
      total_growth = min max_town_size (town.total_growth + (size - town.size));
    }

abbrev change_of : Town → Town → ℕ → TownChange
change_of old new carried = record {
  carried = carried;
  previous_size = old.size;
  size = new.size;
  gained = new.size - old.size;
  growth_resid = new.growth_resid;
}

unfoldable pub grow_towns :
    Dict ℕ → Dict Town × Dict TownChange → List String → Dict Town × Dict TownChange
unfolding grown upserted_town
grow_towns carried result [] = result
grow_towns carried (towns, changes) (cid ∷ cids) =
    let old = or_else (lookup cid towns) (upserted_town none absent) in
    let amount = count_of cid carried in
    let new = grown old amount in
    grow_towns carried (insert cid new towns, insert cid (change_of old new amount) changes) cids

pub record TownResults : Type 0 where
  pub towns : Dict Town
  pub markets : Dict TownMarket
  pub town_changes : Dict TownChange
  pub market_changes : Dict DemandChange

unfoldable pub advance_town_demand : Dict Town → Dict TownMarket → Dict (Dict Row) → TownResults
unfolding carry grow_towns refresh_market_demands
advance_town_demand towns markets results =
    let carried = carry markets results [] (sorted (keys results)) in
    let grown_towns = grow_towns carried (towns, []) (sorted (keys carried)) in
    let refreshed_markets = refresh_market_demands grown_towns.0 markets in
    record {
      towns = grown_towns.0;
      markets = refreshed_markets.0;
      town_changes = grown_towns.1;
      market_changes = refreshed_markets.1;
    }
