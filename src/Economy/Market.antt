-- ===== src/Economy/Market.antt =====
-- companion/tpf2mp/checkpoint.py, lines 1762 to 1850: the first version of the market
-- model. Every number of a market or service has been clamped to be at least 0 by an upsert.
-- The `metadata` of markets and services, which this version only copies, is left out.
pub mod Offers
pub mod Allocation
pub mod Find
pub mod Capacity
pub mod Served
pub mod Outcome
use mathlib.Core.Option
use tpf2mp.Base.{
  ℕ, zero, suc, ◌+◌, ◌-◌, ◌*◌, ◌/◌, min, max, String, Bool, true, false, not, ◌&&◌, ◌||◌, Option,
  none, some, List, [], ◌∷◌, map, keep, any, length, sum_by, ltb, ◌==◌, str_eq, if◌then◌else◌,
  or_else, Result, ok, err,
}
use tpf2mp.Base.Int.{ℤ, pos, pos_part, ltb_ℤ, max_ℤ, min_ℤ}
use tpf2mp.Base.Dict.{Dict, lookup, contains, insert, count_of, add_at}
use tpf2mp.Base.Sort.{leb_str, sort_rows}
use tpf2mp.Economy.Records.{Market, Service, Economy}
use tpf2mp.Economy.Share.{Item, proportional}

-- What a weight is made of.
pub record Factors : Type 0 where
  pub frequency : ℕ
  pub journey : ℕ
  pub quality : ℕ
  pub fare_penalty : ℕ

-- The difference may be negative in the source; `max 1` takes both to 1.
unfoldable pub attractiveness : Service → ℕ × Factors
attractiveness service =
    let frequency = 3_600_000 / max 30 service.headway_seconds in
    let journey = 7_200_000 / max 30 service.journey_seconds in
    let quality = service.quality * 25 in
    let fare_penalty = service.fare_cents * 2 in
    (
      max 1 (min 1_000_000_000 (100 + frequency + journey + quality - fare_penalty)),
      record {
        frequency = frequency;
        journey = journey;
        quality = quality;
        fare_penalty = fare_penalty;
      },
    )

-- An entry of the list `services` of `_evaluate_market`.
pub record Candidate : Type 0 where
  pub cid : String
  pub service : Service
  pub weight : ℕ
  pub factors : Factors

abbrev pub candidate : String × Service → Candidate
candidate (line_cid, service) = record {
  cid = line_cid;
  service = service;
  weight = (attractiveness service).0;
  factors = (attractiveness service).1;
}

abbrev pub serves : String → String × Service → Bool
serves market_cid (line_cid, service) = service.enabled && str_eq service.market_cid market_cid

-- `for line_cid in sorted(services)`: the entries in the order of their keys.
unfoldable pub candidates : Economy → String → List Candidate
unfolding sort_rows
candidates economy market_cid =
    map candidate (keep (serves market_cid) (sort_rows (λ a b. leb_str a.0 b.0) economy.services))

abbrev pub outside : String
outside = "~outside"

abbrev pub item : Candidate → Item
item option = (option.cid, option.weight)

abbrev pub preview_items : ℕ → List Candidate → List Item
preview_items outside_weight active = (outside, outside_weight) ∷ map item active

-- The offer of the preview is above the service's capacity.
abbrev pub is_capped : Dict ℕ → Candidate → Bool
is_capped preview option = ltb option.service.capacity (count_of option.cid preview)

abbrev pub has_cid : List Candidate → String → Bool
has_cid capped cid = any (λ (option : Candidate). str_eq option.cid cid) capped

-- `allocations[cid] = allocations.get(cid, 0) + amount` for each entry of the preview.
unfoldable pub merge : Dict ℕ → Dict ℕ → Dict ℕ
merge [] allocations = allocations
merge ((cid, amount) ∷ preview) allocations = merge preview (add_at cid amount allocations)

-- The capped services get their capacity.
unfoldable pub assign : List Candidate → Dict ℕ → Dict ℕ
assign [] allocations = allocations
assign (option ∷ capped) allocations =
    assign capped (insert option.cid option.service.capacity allocations)

abbrev pub capacities : List Candidate → ℕ
capacities capped = sum_by (λ (option : Candidate). option.service.capacity) capped

-- The `while` loop, with `none` where the fuel runs out. What remains never falls below 0:
-- `Offers.capacities-le-remaining`.
unfoldable pub allocate : ℕ → ℕ → List Candidate → ℕ → Dict ℕ → Option (Dict ℕ × ℕ)
allocate zero outside_weight active remaining allocations = none
allocate (suc fuel) outside_weight [] remaining allocations = some (allocations, remaining)
allocate (suc fuel) outside_weight (first ∷ others) remaining allocations =
    let active = first ∷ others in
    let preview = proportional remaining (preview_items outside_weight active) in
    let capped = keep (is_capped preview) active in
    let next =
      allocate fuel outside_weight (keep (λ option. not (has_cid capped option.cid)) active)
        (remaining - capacities capped) (assign capped allocations) in
    if remaining == 0
    then some (allocations, 0)
    else if length capped == 0
    then some (merge preview allocations, 0)
    else next

-- After the loop what still remains goes outside.
abbrev settle_outside : Dict ℕ × ℕ → Dict ℕ
settle_outside (allocations, remaining) =
    if remaining == 0 then allocations else add_at outside remaining allocations

-- One round of fuel for each candidate, and one to stop.
unfoldable pub allocations_of : Market → List Candidate → Option (Dict ℕ)
unfolding allocate
allocations_of market services =
    Option.map settle_outside
      (allocate (suc (length services)) market.outside_weight services market.demand [])

pub record ServiceResult : Type 0 where
  pub line_cid : String
  pub company_cid : String
  pub name : String
  pub allocated : ℕ
  pub capacity : ℕ
  pub fare_cents : ℕ
  pub revenue_cents : ℕ
  pub share_basis_points : ℕ
  pub weight : ℕ
  pub factors : Factors

pub record MarketResult : Type 0 where
  pub market_cid : String
  pub name : String
  pub demand : ℕ
  pub outside_demand : ℕ
  pub services : Dict ServiceResult

-- The row of one service. `10000 * amount / 0` is not computed by the source either.
abbrev service_result : Market → Dict ℕ → Candidate → String × ServiceResult
service_result market allocations option =
    let amount = count_of option.cid allocations in
    (
      option.cid,
      record {
        line_cid = option.cid;
        company_cid = option.service.company_cid;
        name = option.service.name;
        allocated = amount;
        capacity = option.service.capacity;
        fare_cents = option.service.fare_cents;
        revenue_cents = amount * option.service.fare_cents;
        share_basis_points = (if market.demand == 0 then 0 else amount * 10000 / market.demand);
        weight = option.weight;
        factors = option.factors;
      },
    )

abbrev pub market_result : String → Market → List Candidate → Dict ℕ → MarketResult
market_result market_cid market services allocations = record {
  market_cid = market_cid;
  name = market.name;
  demand = market.demand;
  outside_demand = count_of outside allocations;
  services = map (service_result market allocations) services;
}

-- `market` is `economy["markets"][market_cid]`.
unfoldable pub evaluate_market : Economy → String → Market → Option MarketResult
unfolding candidates allocations_of
evaluate_market economy market_cid market =
    let services = candidates economy market_cid in
    Option.map (market_result market_cid market services) (allocations_of market services)
