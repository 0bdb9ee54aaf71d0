-- ===== src/Economy/Towns/Records.antt =====
-- companion/tpf2mp/checkpoint.py, lines 739 to 745 and 797 to 832: the records of the towns and of the
-- markets between them, and the upsert of a town.
use tpf2mp.Economy.Records.{Value, whole, integer_within}
use tpf2mp.Base.{ℕ, max, String, Bool, Option, none, some}
use tpf2mp.Base.Int.{pos}
use tpf2mp.Base.Dict.{Dict, lookup, insert}

abbrev pub fallback_size : ℕ
fallback_size = 200

abbrev pub gravity_divisor : ℕ
gravity_divisor = 25

abbrev pub min_demand : ℕ
min_demand = 50

abbrev pub max_demand : ℕ
max_demand = 100_000

abbrev pub max_town_size : ℕ
max_town_size = 100_000

abbrev pub passengers_per_building : ℕ
passengers_per_building = 400

abbrev pub capacity_per_building : ℕ
capacity_per_building = 4

pub record Town : Type 0 where
  pub size : ℕ
  pub growth_resid : ℕ
  pub total_growth : ℕ

-- The record that `_town_upsert` stores over the one that is there.
unfoldable pub upserted_town : Option Town → Value → Town
upserted_town none observed_size = record {
  size = integer_within observed_size fallback_size 1 max_town_size;
  growth_resid = 0;
  total_growth = 0;
}
upserted_town (some town) observed_size =
    let size = integer_within observed_size fallback_size 1 max_town_size in
    record {
      size = max (integer_within (whole (pos town.size)) size 1 max_town_size) size;
      growth_resid = integer_within (whole (pos town.growth_resid)) 0 0 399;
      total_growth = integer_within (whole (pos town.total_growth)) 0 0 max_town_size;
    }

unfoldable pub town_upsert : Dict Town → String → Value → Dict Town × Town
unfolding upserted_town
town_upsert towns cid observed_size =
    let town = upserted_town (lookup cid towns) observed_size in (insert cid town towns, town)

-- A market's `metadata`; a town that is no text is `none`.
pub record Metadata : Type 0 where
  pub town_a : Option String
  pub town_b : Option String
  pub town_size_a : Value
  pub town_size_b : Value
  pub corridor_meters : Value
  pub network_demand : Value
  pub direct_demand : Value

-- The parts of a market that the towns touch; `is_cargo` says that its kind is cargo.
pub record TownMarket : Type 0 where
  pub demand : ℕ
  pub is_cargo : Bool
  pub metadata : Option Metadata

-- `_observe_market_towns`, by whether both towns are texts.
abbrev observed : Dict Town → Metadata → Option String → Option String → Dict Town × Metadata
observed towns metadata (some town_a) (some town_b) =
    let first = town_upsert towns town_a metadata.town_size_a in
    let second = town_upsert first.0 town_b metadata.town_size_b in
    (
      second.0,
      record metadata {
        town_size_a = whole (pos first.1.size);
        town_size_b = whole (pos second.1.size);
      },
    )
observed towns metadata _ _ = (towns, metadata)

abbrev observed_metadata : Dict Town → Option Metadata → Dict Town × Option Metadata
observed_metadata towns none = (towns, none)
observed_metadata towns (some metadata) =
    let result = observed towns metadata metadata.town_a metadata.town_b in
    (result.0, some result.1)

unfoldable pub observe_market_towns : Dict Town → TownMarket → Dict Town × TownMarket
observe_market_towns towns market =
    let result = observed_metadata towns market.metadata in
    (result.0, record market { metadata = result.1 })
