-- ===== src/Match/Score.antt =====
-- companion/tpf2mp/checkpoint.py, lines 2033 to 2099: the scoreboard and the ranking. A company's totals
-- in the ledger are numbers that may be missing.
use tpf2mp.Economy.Amounts.{saturating_add, saturating_multiply, signed_add}
use tpf2mp.Base.{
  ℕ, String, Bool, true, false, Option, none, some, List, [], ◌∷◌, ◌++◌, if◌then◌else◌, or_else,
  length, any, str_eq,
}
use tpf2mp.Base.Int.{ℤ, pos, ◌+ℤ◌, ◌-ℤ◌, ◌*ℤ◌, ltb_ℤ, max_ℤ}
use tpf2mp.Base.Dict.{Dict, lookup, insert, keys, add_at, count_of}
use tpf2mp.Base.Sort.{sort_rows, sorted, leb_str}

pub record ActiveService : Type 0 where
  pub company_cid : String
  pub market_cid : String
  pub enabled : Bool

pub record LedgerTotals : Type 0 where
  pub revenue_cents : Option ℤ
  pub gross_revenue_cents : Option ℤ
  pub operating_cost_cents : Option ℤ
  pub net_revenue_cents : Option ℤ
  pub demand : Option ℤ
  pub wins : Option ℤ

abbrev pub no_totals : LedgerTotals
no_totals = record {
  revenue_cents = none;
  gross_revenue_cents = none;
  operating_cost_cents = none;
  net_revenue_cents = none;
  demand = none;
  wins = none;
}

pub record ScoreRow : Type 0 where
  pub company_cid : String
  pub name : String
  pub demand : ℤ
  pub revenue_cents : ℤ
  pub gross_revenue_cents : ℤ
  pub operating_cost_cents : ℤ
  pub net_revenue_cents : ℤ
  pub markets_reached : ℕ
  pub active_lines : ℕ
  pub market_wins : ℤ
  pub model_value_cents : ℤ

-- What the scoreboard reads; `companies` has the names.
pub record ScoreModel : Type 0 where
  pub version : ℤ
  pub services : Dict ActiveService
  pub ledger_companies : Dict LedgerTotals
  pub companies : Dict (Option String)

-- `set.add`
abbrev pub add_name : String → List String → List String
add_name name names = if any (λ n. str_eq n name) names then names else names ++ name ∷ []

abbrev pub add_market_of : ActiveService → Dict (List String) → Dict (List String)
add_market_of service markets =
    insert service.company_cid
      (add_name service.market_cid (or_else (lookup service.company_cid markets) [])) markets

-- The first loop: the markets and the lines of each company.
unfoldable pub count_services :
    Dict (List String) × Dict ℕ → Dict ActiveService → Dict (List String) × Dict ℕ
count_services counts [] = counts
count_services (markets, lines) ((line_cid, service) ∷ services) =
    count_services
      (if service.enabled
        then (add_market_of service markets, add_at service.company_cid 1 lines)
        else (markets, lines))
      services

unfoldable pub model_value : ℤ → ℤ → ℤ → ℤ → ℕ → ℕ → ℤ
model_value version revenue net demand reach lines =
    let network = pos (
      saturating_add (pos (saturating_multiply (pos reach) (pos 500_000)))
        (pos (saturating_multiply (pos lines) (pos 250_000)))) in
    let carried = pos (saturating_multiply demand (pos 100)) in
    if ltb_ℤ (pos 4) version
    then max_ℤ (pos 0) (signed_add (signed_add (net *ℤ pos 10) carried) network)
    else if ltb_ℤ (pos 1) version
    then pos (
        saturating_add (pos (saturating_add (pos (saturating_multiply revenue (pos 10))) carried))
          network)
    else revenue *ℤ pos 10
      +ℤ demand *ℤ pos 100
      +ℤ pos reach *ℤ pos 500_000
      +ℤ pos lines *ℤ pos 250_000

-- The row of one company.
unfoldable pub score_row :
    ℤ → Dict (List String) × Dict ℕ → String → Option String → LedgerTotals → ScoreRow
unfolding model_value
score_row version (markets, lines) company_cid name totals =
    let reach = length (or_else (lookup company_cid markets) []) in
    let line_count = count_of company_cid lines in
    let revenue = or_else totals.revenue_cents (pos 0) in
    let gross = or_else totals.gross_revenue_cents revenue in
    let operating_cost = or_else totals.operating_cost_cents (pos 0) in
    let net = or_else totals.net_revenue_cents (gross -ℤ operating_cost) in
    let demand = or_else totals.demand (pos 0) in
    record {
      company_cid = company_cid;
      name = or_else name company_cid;
      demand = demand;
      revenue_cents = revenue;
      gross_revenue_cents = gross;
      operating_cost_cents = operating_cost;
      net_revenue_cents = net;
      markets_reached = reach;
      active_lines = line_count;
      market_wins = or_else totals.wins (pos 0);
      model_value_cents = model_value version revenue net demand reach line_count;
    }

unfoldable pub score_rows : ScoreModel → Dict (List String) × Dict ℕ → List String → List ScoreRow
unfolding score_row
score_rows model counts [] = []
score_rows model counts (company_cid ∷ cids) =
    score_row model.version counts company_cid (or_else (lookup company_cid model.companies) none)
      (or_else (lookup company_cid model.ledger_companies) no_totals)
    ∷ score_rows model counts cids

-- The values of the scoreboard, in the order of their keys.
unfoldable pub scoreboard : ScoreModel → List ScoreRow
unfolding count_services score_rows
scoreboard model =
    score_rows model (count_services ([], []) model.services) (sorted (keys model.companies))

-- `-x` as one part of a key: the larger number comes first, and `rest` decides between equal ones.
abbrev pub larger_first : ℤ → ℤ → Bool → Bool
larger_first x y rest = if ltb_ℤ y x then true else if ltb_ℤ x y then false else rest

unfoldable pub ranks_first : ScoreRow → ScoreRow → Bool
ranks_first a b = larger_first a.model_value_cents b.model_value_cents (
    larger_first a.net_revenue_cents b.net_revenue_cents (
      larger_first a.revenue_cents b.revenue_cents (
        larger_first a.demand b.demand
          (larger_first a.market_wins b.market_wins (leb_str a.company_cid b.company_cid)))))

abbrev pub first_company : List ScoreRow → Option String
first_company [] = none
first_company (row ∷ rows) = some row.company_cid

unfoldable pub ranked_winner : ScoreModel → Option String × List ScoreRow
unfolding scoreboard ranks_first
ranked_winner model =
    let ranked = sort_rows ranks_first (scoreboard model) in (first_company ranked, ranked)
