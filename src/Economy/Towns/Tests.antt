-- ===== src/Economy/Towns/Tests.antt =====
-- companion/tpf2mp/checkpoint.py, lines 797 to 912, run on a market between two towns.
use tpf2mp.Economy.Records.{whole, absent, integer}
use tpf2mp.Economy.Towns.{
  Town, TownMarket, Row, gravity, refresh_market_demands, advance_town_demand, upserted_town, carry,
  grow_towns, grown, split_between, carried_of, min_demand, max_demand,
}
use tpf2mp.Economy.Towns.Demand.{gravity_bounds}
use tpf2mp.Economy.Towns.Again.{refresh_market_demands-again}
use tpf2mp.Economy.Towns.Carried.{contribution, share_of}
use tpf2mp.Economy.Towns.Growth.{IsTown, Grown, carried_by, town_before, advance_town_demand_lem}
use tpf2mp.Base.{ℕ, ◌≤◌, ◌≡◌, refl, String, false, none, some, [], ◌∷◌, arith, sum_by}
use tpf2mp.Base.Int.{pos}
use tpf2mp.Base.Dict.{
  Dict, lookup, keys, total_of, count_of, AllValues, AllValues-insert, AllValues-nil,
}
use tpf2mp.Base.Sort.{sorted, sort_rows, insert_row}

abbrev east : Town
east = record { size = 300; growth_resid = 10; total_growth = 0 }

abbrev west : Town
west = record { size = 900; growth_resid = 396; total_growth = 7 }

abbrev towns : Dict Town
towns = ("east", east) ∷ ("west", west) ∷ []

abbrev markets : Dict TownMarket
markets =
    (
      "m",
      record {
        demand = 100;
        is_cargo = false;
        metadata = some (record {
          town_a = some "west";
          town_b = some "east";
          town_size_a = absent;
          town_size_b = absent;
          corridor_meters = whole (pos 4000);
          network_demand = absent;
          direct_demand = absent;
        });
      },
    )
    ∷ []

abbrev results : Dict (Dict Row)
results = ("m", ("line", record { delivered = none; allocated = whole (pos 301) }) ∷ []) ∷ []

towns-IsTown : AllValues IsTown towns
towns-IsTown =
    AllValues-insert IsTown "west" west (("east", east) ∷ [])
      (record { size_le = omega arith; resid_lt = omega arith })
      (AllValues-insert IsTown "east" east []
        (record { size_le = omega arith; resid_lt = omega arith }) (AllValues-nil IsTown))

-- 150 passengers and a residual of 396 are 996 units: a growth by two, and 196 units are left.
west_grows :
    lookup "west" (advance_town_demand towns markets results).towns
    ≡ some (record { size = 902; growth_resid = 196; total_growth = 9 })
unfolding advance_town_demand carry grow_towns grown upserted_town split_between carried_of sorted
    sort_rows insert_row integer
west_grows = refl

gravity_bounds_example :
    (min_demand ≤ gravity 300 900 4000)
    × (gravity 300 900 4000 ≤ gravity 400 900 3000)
    × (gravity 400 900 3000 ≤ max_demand)
gravity_bounds_example =
    gravity_bounds 300 900 400 900 3000 4000 (omega arith) (omega arith) (omega arith)

refresh_market_demands-again_example :
    refresh_market_demands towns (refresh_market_demands towns markets).0
    ≡ ((refresh_market_demands towns markets).0, [])
refresh_market_demands-again_example = refresh_market_demands-again towns markets

advance_town_demand_lem_example :
    (total_of (carried_by markets results) ≡ sum_by (contribution markets results) (keys results))
    × ((cid : String)
        → (count_of cid (carried_by markets results)
            ≡ sum_by (share_of markets results cid) (keys results))
          × (lookup cid (carried_by markets results) ≡ none
              → lookup cid (advance_town_demand towns markets results).towns ≡ lookup cid towns)
          × ((carried : ℕ)
              → lookup cid (carried_by markets results) ≡ some carried
              → (new : Town) × (lookup cid (advance_town_demand towns markets results).towns
                  ≡ some new)
                × Grown (town_before towns cid) new carried))
advance_town_demand_lem_example = advance_town_demand_lem towns markets results towns-IsTown
