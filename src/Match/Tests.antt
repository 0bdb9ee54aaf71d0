-- ===== src/Match/Tests.antt =====
-- companion/tpf2mp/checkpoint.py, lines 2033 to 2203, run on a match of two companies.
use tpf2mp.Match.Credit.{
  Account, CreditBooks, charge_credit_and_assess_solvency, charge_companies, charged, limit_of,
  interest_on, per_hour, is_bankrupt, breach_limit,
}
use tpf2mp.Match.Credit.Interest.{per_hour-interest_on}
use tpf2mp.Match.Credit.Charged.{charged_once, bankrupt_in, charge_credit_and_assess_solvency_lem}
use tpf2mp.Match.Score.{
  ScoreModel, no_totals, ranked_winner, scoreboard, count_services, score_rows, score_row,
  model_value, ranks_first,
}
use tpf2mp.Match.End.{MatchState, evaluate_match_end, end_reason}
use tpf2mp.Match.Winner.{Finished, Survives, evaluate_match_end_lem}
use tpf2mp.Economy.Amounts.{saturating_add, saturating_multiply, signed_add}
use tpf2mp.Base.{
  ◌*◌, ◌/◌, ◌≤◌, ◌≡◌, refl, String, true, false, none, some, List, [], ◌∷◌, arith, eq_iff, str_eq,
  ◌==◌, if◌then◌else◌, ◌≢◌,
}
use tpf2mp.Base.Int.{ℤ, pos, negsuc, ◌+ℤ◌, ◌-ℤ◌, ◌*ℤ◌, div_floor}
use tpf2mp.Base.Dict.{Dict, lookup}
use tpf2mp.Base.Keys.{occurs}
use tpf2mp.Base.Sort.{sorted, sort_rows, insert_row}

abbrev books : CreditBooks
books = record {
  rules = record {
    base_limit = pos 1000;
    revenue_multiple = pos 4;
    interest_permille = pos 15;
    insolvent_limit = pos 1;
    bankruptcy_enabled = true;
  };
  settlement_count = pos 2;
  epoch_seconds = pos 3600;
  net_revenue = ("red", pos 600) ∷ [];
}

abbrev account_of : ℤ → Account
account_of balance = record { balance = balance; insolvent_settlements = 0; credit_limit = pos 0 }

abbrev accounts : Dict Account
accounts = ("red", account_of (pos 50)) ∷ ("blue", account_of (negsuc 1999)) ∷ []

abbrev order : List String
order = "red" ∷ "blue" ∷ []

-- Blue owes 2000 and then 2030, more than its limit of 1000.
blue_is_bankrupt : charge_credit_and_assess_solvency books accounts order ≡ (
  ("red", record (account_of (pos 50)) { credit_limit = pos 2200 })
      ∷ (
        "blue",
        record { balance = negsuc 2029; insolvent_settlements = 1; credit_limit = pos 1000 },
      )
      ∷ [],
  some "blue",
)
unfolding charge_credit_and_assess_solvency charge_companies charged limit_of interest_on per_hour
    is_bankrupt breach_limit div_floor ◌+ℤ◌ ◌-ℤ◌ ◌*ℤ◌
blue_is_bankrupt = refl

not_same : (s t : String) → str_eq s t ≡ false → s ≢ t
not_same s t h e = cc ((eq_iff s t).1 e)

order_once : (c : String) → occurs c order ≤ 1
order_once c = ground (arith, eq_iff "red" c, eq_iff "blue" c, not_same "red" "blue" refl)

charge_credit_and_assess_solvency_lem_example :
    ((c : String)
      → lookup c (charge_credit_and_assess_solvency books accounts order).0 ≡ (
          if occurs c order == 1
          then charged_once books c (lookup c accounts)
          else lookup c accounts))
    × ((charge_credit_and_assess_solvency books accounts order).1
        ≡ bankrupt_in books accounts order)
charge_credit_and_assess_solvency_lem_example =
    charge_credit_and_assess_solvency_lem books accounts order order_once

per_hour-interest_on_example :
    (per_hour 5000 300 ≡ 5000 * 3600 / 300)
    × (interest_on 2000 (pos 15 *ℤ pos 300) ≡ pos (2000 * (15 * 300) / (1000 * 3600)))
per_hour-interest_on_example = per_hour-interest_on 5000 300 2000 15 (omega arith)

abbrev model : ScoreModel
model = record {
  version = pos 7;
  services = ("line", record { company_cid = "red"; market_cid = "m"; enabled = true }) ∷ [];
  ledger_companies = ("red", record no_totals { net_revenue_cents = some (pos 600) }) ∷ [];
  companies = ("red", some "Red") ∷ ("blue", none) ∷ [];
}

abbrev game : MatchState
game = record {
  status = "running";
  finish_reason = none;
  winner_cid = none;
  valuation_target_cents = pos 700_000;
  max_epochs = pos 0;
}

-- Red's market and line alone are worth more than the target.
red_wins : evaluate_match_end game model none order (pos 3) ≡ record game {
  status = "finished";
  finish_reason = some "valuation-target";
  winner_cid = some "red";
}
unfolding evaluate_match_end end_reason ranked_winner scoreboard count_services score_rows score_row
    model_value ranks_first sorted sort_rows insert_row saturating_add saturating_multiply
    signed_add ◌+ℤ◌ ◌-ℤ◌ ◌*ℤ◌
red_wins = refl

-- Red is bankrupt, and Blue wins.
evaluate_match_end_lem_example :
    Finished game
      (evaluate_match_end game model (some "red") order (pos 3))
      "bankruptcy"
      (Survives "red" (scoreboard model) order)
evaluate_match_end_lem_example = evaluate_match_end_lem game model order (pos 3) (some "red")
