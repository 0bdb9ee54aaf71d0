-- ===== src/Economy/Settlement/Totals.antt =====
-- The totals of `_evaluate_all` in checkpoint.py.
use mathlib.Core.Path.{subst}
use tpf2mp.Base.{
  ℕ, ◌+◌, ◌<◌, ◌≡◌, refl, String, Option, none, some, [], ◌∷◌, arith, All, sum_by, or_else,
}
use tpf2mp.Base.Dict.{Dict, lookup, insert, sum_values, sum_values-insert}
use tpf2mp.Base.Sort.{leb_str, sort_rows, All-sort_rows, sum_by-sort_rows}
use tpf2mp.Economy.Records.{Market, Economy}
use tpf2mp.Economy.Market.{MarketResult, ServiceResult}
use tpf2mp.Economy.Market.Outcome.{IsDict, evaluate_market_lem}
use tpf2mp.Economy.Settlement.{
  CompanyTotal, Results, raised, no_total, no_results, add_service, add_services, add_market,
  evaluate_markets, evaluate_all, ◌>>=◌,
}

-- The companies' revenues make up the total.
abbrev pub IsBalanced : Results → Type 0
IsBalanced r =
    sum_values (λ (t : CompanyTotal). t.revenue_cents) r.companies ≡ r.total_revenue_cents

add_service-IsBalanced :
    (r : Results) (s : ServiceResult) → IsBalanced r → IsBalanced (add_service r s)
unfolding add_service
add_service-IsBalanced r s h =
    let company = or_else (lookup s.company_cid r.companies) no_total in
    ground (
      arith,
      sum_values-insert (λ (t : CompanyTotal). t.revenue_cents) s.company_cid (raised company s)
          r.companies,
    )

add_services-IsBalanced :
    (r : Results) (services : Dict ServiceResult)
    → IsBalanced r
    → IsBalanced (add_services r services)
unfolding add_services
add_services-IsBalanced r [] h = h
add_services-IsBalanced r ((line_cid, s) ∷ services) h =
    add_services-IsBalanced (add_service r s) services (add_service-IsBalanced r s h)

total_demand-add_services :
    (r : Results) (services : Dict ServiceResult)
    → (add_services r services).total_demand ≡ r.total_demand
unfolding add_services
total_demand-add_services r [] = refl
total_demand-add_services r ((line_cid, s) ∷ services) =
    total_demand-add_services (add_service r s) services

with_market : Results → String → MarketResult → Results
with_market r market_cid m = record r {
  markets = insert market_cid m r.markets;
  total_demand = r.total_demand + m.demand;
}

add_market-IsBalanced :
    (r : Results) (market_cid : String) (m : MarketResult)
    → IsBalanced r
    → IsBalanced (add_market r market_cid m)
unfolding add_market with_market
add_market-IsBalanced r market_cid m h =
    add_services-IsBalanced (with_market r market_cid m)
      (sort_rows (λ a b. leb_str a.0 b.0) m.services) h

total_demand-add_market :
    (r : Results) (market_cid : String) (m : MarketResult)
    → (add_market r market_cid m).total_demand ≡ r.total_demand + m.demand
unfolding add_market with_market
total_demand-add_market r market_cid m =
    total_demand-add_services (with_market r market_cid m)
      (sort_rows (λ a b. leb_str a.0 b.0) m.services)

abbrev pub Weighs : String × Market → Type 0
Weighs row = 0 < row.1.outside_weight

abbrev pub demand_of : String × Market → ℕ
demand_of row = row.1.demand

-- Results that balance, and that count the demand of these markets.
abbrev pub Accounts : ℕ → Option Results → Type 0
Accounts demand none = ⊥
Accounts demand (some r) = IsBalanced r × (r.total_demand ≡ demand)

evaluate_markets-Accounts :
    (e : Economy) (r : Results) (markets : Dict Market)
    → IsDict e.services
    → All Weighs markets
    → IsBalanced r
    → Accounts (r.total_demand + sum_by demand_of markets) (evaluate_markets e r markets)
unfolding evaluate_markets
evaluate_markets-Accounts e r [] dict weighs h = (h, omega arith)
evaluate_markets-Accounts e r ((market_cid, m) ∷ markets) dict weighs h =
    let (outcome, found, demanded, conserved, fits) =
      evaluate_market_lem e market_cid m dict weighs.0 in
    let after = add_market r market_cid outcome in
    let demand : after.total_demand + sum_by demand_of markets
        ≡ r.total_demand + (m.demand + sum_by demand_of markets) =
      omega (arith, demanded, total_demand-add_market r market_cid outcome) in
    rw found (
      subst (λ n. Accounts n (evaluate_markets e after markets)) demand
        (evaluate_markets-Accounts e after markets dict weighs.1
          (add_market-IsBalanced r market_cid outcome h)))

-- What a settlement of an economy returns: the next epoch, books that balance, and all the demand.
abbrev pub Settles : Economy → Option (Economy × Results) → Type 0
Settles e none = ⊥
Settles e (some (e', r)) =
    (e'.epoch ≡ e.epoch + 1)
    × (r.epoch ≡ e'.epoch)
    × IsBalanced r
    × (r.total_demand ≡ sum_by demand_of e.markets)

-- A settlement always ends; the companies' revenues add up to the total revenue, and the total
-- demand is that of all markets.
pub evaluate_all-Settles :
    (e : Economy) → IsDict e.services → All Weighs e.markets → Settles e (evaluate_all e)
unfolding evaluate_all
evaluate_all-Settles e dict weighs = go (evaluate_markets e no_results rows) (
    evaluate_markets-Accounts e no_results rows dict
      (All-sort_rows (λ a b. leb_str a.0 b.0) Weighs e.markets weighs) refl)
  where
    rows : Dict Market
    rows = sort_rows (λ a b. leb_str a.0 b.0) e.markets

    go :
        (r : Option Results)
        → Accounts (0 + sum_by demand_of rows) r
        → Settles e (
            r >>= λ results.
            some (record e { epoch = e.epoch + 1 }, record results { epoch = e.epoch + 1 }))
    go none h = absurd h
    go (some r) h = (
      refl,
      refl,
      h.0,
      omega (arith, h.1, sum_by-sort_rows (λ a b. leb_str a.0 b.0) demand_of e.markets),
    )
