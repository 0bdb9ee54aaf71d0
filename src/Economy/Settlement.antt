-- ===== src/Economy/Settlement.antt =====
-- companion/tpf2mp/checkpoint.py, lines 1853 to 1871: `_evaluate_all`, which evaluates every market
-- in the order of its key and adds up the companies. The economy also keeps a copy of the results,
-- which is the second part of the value returned here.
pub mod Totals
use tpf2mp.Base.{ℕ, ◌+◌, String, Option, none, some, List, [], ◌∷◌, or_else}
use tpf2mp.Base.Dict.{Dict, lookup, insert}
use tpf2mp.Base.Sort.{leb_str, sort_rows}
use tpf2mp.Economy.Records.{Market, Economy}
use tpf2mp.Economy.Market.{MarketResult, ServiceResult, evaluate_market}

pub record CompanyTotal : Type 0 where
  pub demand : ℕ
  pub revenue_cents : ℕ

pub record Results : Type 0 where
  pub markets : Dict MarketResult
  pub companies : Dict CompanyTotal
  pub total_demand : ℕ
  pub total_revenue_cents : ℕ
  pub epoch : ℕ

abbrev pub no_total : CompanyTotal
no_total = record { demand = 0; revenue_cents = 0 }

abbrev pub no_results : Results
no_results = record {
  markets = [];
  companies = [];
  total_demand = 0;
  total_revenue_cents = 0;
  epoch = 0;
}

abbrev pub raised : CompanyTotal → ServiceResult → CompanyTotal
raised company service = record {
  demand = company.demand + service.allocated;
  revenue_cents = company.revenue_cents + service.revenue_cents;
}

-- The body of the inner loop.
unfoldable pub add_service : Results → ServiceResult → Results
add_service results service =
    let company = or_else (lookup service.company_cid results.companies) no_total in
    record results {
      companies = insert service.company_cid (raised company service) results.companies;
      total_revenue_cents = results.total_revenue_cents + service.revenue_cents;
    }

unfoldable pub add_services : Results → Dict ServiceResult → Results
unfolding add_service
add_services results [] = results
add_services results ((line_cid, service) ∷ services) =
    add_services (add_service results service) services

unfoldable pub add_market : Results → String → MarketResult → Results
unfolding add_services sort_rows
add_market results market_cid market =
    add_services
      (record results {
        markets = insert market_cid market results.markets;
        total_demand = results.total_demand + market.demand;
      })
      (sort_rows (λ a b. leb_str a.0 b.0) market.services)

infixl 5 ◌>>=◌
abbrev ◌>>=◌ {ℓ κ} : {A : Type ℓ} {B : Type κ} → Option A → (A → Option B) → Option B
none >>= f = none
some a >>= f = f a

unfoldable pub evaluate_markets : Economy → Results → Dict Market → Option Results
unfolding add_market
evaluate_markets economy results [] = some results
evaluate_markets economy results ((market_cid, market) ∷ markets) = do
  outcome ← evaluate_market economy market_cid market
  evaluate_markets economy (add_market results market_cid outcome) markets

unfoldable pub evaluate_all : Economy → Option (Economy × Results)
unfolding evaluate_markets
evaluate_all economy = do
  results ← evaluate_markets economy no_results (sort_rows (λ a b. leb_str a.0 b.0) economy.markets)
  let epoch = economy.epoch + 1
  some (record economy { epoch = epoch }, record results { epoch = epoch })
