-- ===== src/Economy/Market/Outcome.antt =====
-- What `_evaluate_market` returns for an economy whose dict of services is a dict.
use mathlib.Core.Option
use text.Mathlib.TextPositions.{eq_refl}
use tpf2mp.Base.{
  ℕ, ◌+◌, ◌*◌, ◌≤◌, ◌<◌, ◌≡◌, refl, ap, String, Bool, none, some, List, [], ◌∷◌, map, keep, sum_by,
  arith, str_eq, eq_iff, if◌then◌else◌,
}
use tpf2mp.Base.Dict.{Dict, lookup}
use tpf2mp.Base.Sort.{leb_str, sort_rows, sum_by-sort_rows}
use tpf2mp.Economy.Records.{Market, Service, Economy}
use tpf2mp.Economy.Market.{
  Candidate, candidate, candidates, serves, item, outside, allocations_of, evaluate_market,
  market_result, MarketResult, ServiceResult, service_result,
}
use tpf2mp.Economy.Market.Allocation.{allocations_of-Conserves}
use tpf2mp.Economy.Market.Offers.{AreDistinct, AreDistinctInside}
use tpf2mp.Economy.Market.Served.{counts, cids, allocations_of-counts}
use tpf2mp.Economy.Market.Find.{find_cid}
use tpf2mp.Economy.Market.Capacity.{allocations_of-capacity}

-- How many entries have a key.
abbrev key_count : String → Dict Service → ℕ
key_count c rows = sum_by (λ row. if str_eq row.0 c then 1 else 0) rows

-- The services are a dict, and none of them is called like the outside option.
abbrev pub IsDict : Dict Service → Type 0
IsDict rows = (c : String) → key_count c rows ≤ (if str_eq outside c then 0 else 1)

key_count-keep :
    (p : String × Service → Bool) (c : String) (rows : Dict Service)
    → key_count c (keep p rows) ≤ key_count c rows
key_count-keep p c [] = omega arith
key_count-keep p c (row ∷ rows) = ground (arith, key_count-keep p c rows)

absent_of-key_count :
    (c : String) (rows : Dict Service)
    → key_count c rows ≡ 0
    → lookup c (map item (map candidate rows)) ≡ none
absent_of-key_count c [] h = refl
absent_of-key_count c (row ∷ rows) h = ground (arith, absent_of-key_count c rows)

distinct_of-key_count :
    (rows : Dict Service) → ((c : String) → key_count c rows ≤ 1) → AreDistinct (map candidate rows)
distinct_of-key_count [] h = tt
distinct_of-key_count (row ∷ rows) h = (
  absent_of-key_count row.0 rows (ground (arith, h row.0, eq_iff row.0 row.0)),
  distinct_of-key_count rows (λ c. omega (arith, h c)),
)

key_count-candidates :
    (market_cid c : String) (rows : Dict Service)
    → key_count c (keep (serves market_cid) (sort_rows (λ a b. leb_str a.0 b.0) rows))
      ≤ key_count c rows
key_count-candidates market_cid c rows = omega (
  arith,
  key_count-keep (serves market_cid) c (sort_rows (λ a b. leb_str a.0 b.0) rows),
  sum_by-sort_rows (λ a b. leb_str a.0 b.0) (λ row. if str_eq row.0 c then 1 else 0) rows,
)

candidates-AreDistinctInside :
    (economy : Economy) (market_cid : String)
    → IsDict economy.services
    → AreDistinctInside (candidates economy market_cid)
unfolding candidates
candidates-AreDistinctInside economy market_cid h =
    let rows = keep (serves market_cid) (sort_rows (λ a b. leb_str a.0 b.0) economy.services) in
    (
      absent_of-key_count outside rows (
          ground (
            arith,
            h outside,
            key_count-candidates market_cid outside economy.services,
            eq_iff outside outside,
          )),
      distinct_of-key_count rows
          (λ c. ground (arith, h c, key_count-candidates market_cid c economy.services)),
    )

-- A candidate is found under its own `cid`, also behind other candidates.
abbrev FoundIn : List Candidate → List Candidate → Type 0
FoundIn services [] = Unit
FoundIn services (o ∷ rest) = (find_cid o.cid services ≡ some o) × FoundIn services rest

FoundIn-cons :
    (first : Candidate) (services rest : List Candidate)
    → lookup first.cid (map item rest) ≡ none
    → FoundIn services rest
    → FoundIn (first ∷ services) rest
FoundIn-cons first services [] h f = tt
FoundIn-cons first services (o ∷ rest) h f =
    ground
      (arith, FoundIn-cons first services rest, f, eq_iff first.cid o.cid, eq_iff o.cid first.cid)

FoundIn-self : (services : List Candidate) → AreDistinct services → FoundIn services services
FoundIn-self [] h = tt
FoundIn-self (o ∷ rest) h =
    (ground (arith, eq_refl o.cid), FoundIn-cons o rest rest h.0 (FoundIn-self rest h.1))

-- Each service in turn has its row, is allocated no more than its capacity, and earns its fare for what
-- it is allocated.
abbrev pub RowsFit : List Candidate → Dict ServiceResult → Type 0
RowsFit [] [] = Unit
RowsFit [] (row ∷ rows) = ⊥
RowsFit (option ∷ services) [] = ⊥
RowsFit (option ∷ services) ((line_cid, row) ∷ rows) =
    (line_cid ≡ option.cid)
    × (row.allocated ≤ option.service.capacity)
    × (row.revenue_cents ≡ row.allocated * option.service.fare_cents)
    × RowsFit services rows

rows_fit :
    (market : Market) (services rest : List Candidate) (d : Dict ℕ)
    → AreDistinctInside services
    → allocations_of market services ≡ some d
    → lookup outside (map item rest) ≡ none
    → FoundIn services rest
    → RowsFit rest (map (service_result market d) rest)
rows_fit market services [] d distinct e inside f = tt
rows_fit market services (o ∷ rest) d distinct e inside f = (
  refl,
  allocations_of-capacity o.cid (λ same. ground (arith, eq_iff o.cid outside, same)) market services
      o d distinct.1 f.0 e,
  refl,
  rows_fit market services rest d distinct e (ground (arith, inside)) f.1,
)

-- What the rows of a result say that the services are allocated.
abbrev pub allocated_in : Dict ServiceResult → ℕ
allocated_in rows = sum_by (λ (row : String × ServiceResult). row.1.allocated) rows

allocated_in-rows :
    (market : Market) (services : List Candidate) (d : Dict ℕ)
    → allocated_in (map (service_result market d) services) ≡ counts (cids services) d
allocated_in-rows market [] d = refl
allocated_in-rows market (o ∷ services) d = omega (arith, allocated_in-rows market services d)

-- Where the services are a dict without the outside option's key and the market's outside weight is
-- above 0, the evaluation of the market ends with a result of its demand. What the result gives to the
-- outside option and to the services is the whole demand, and each candidate in turn has a row, with no
-- more than its capacity and the revenue of what it is allocated.
pub evaluate_market_lem :
    (economy : Economy) (market_cid : String) (market : Market)
    → IsDict economy.services
    → 0 < market.outside_weight
    → (result : MarketResult) × (evaluate_market economy market_cid market ≡ some result)
      × (result.demand ≡ market.demand)
      × (result.outside_demand + allocated_in result.services ≡ market.demand)
      × RowsFit (candidates economy market_cid) result.services
unfolding evaluate_market
evaluate_market_lem economy market_cid market h weighs =
    let services = candidates economy market_cid in
    let distinct = candidates-AreDistinctInside economy market_cid h in
    let (d, e, conserved) = allocations_of-Conserves market services weighs distinct in
    (
      market_result market_cid market services d,
      ap (Option.map (market_result market_cid market services)) e,
      refl,
      omega (
        arith,
        conserved,
        allocations_of-counts market services d e distinct,
        allocated_in-rows market services d,
      ),
      rows_fit market services services d distinct e distinct.0 (FoundIn-self services distinct.1),
    )
