-- ===== src/Freight/Tests.antt =====
-- Runs of freight on a steel mill, and the theorems at them.
use mathlib.Core.Option
use tpf2mp.Base.{
  Option, ℕ, ◌≤◌, ◌≡◌, refl, String, Bool, true, some, [], ◌∷◌, arith, ok, err, ◌||◌, str_eq, ◌==◌,
  if◌then◌else◌, leb, length, map,
}
use tpf2mp.Base.Dict.{Dict, lookup, AllValues-insert, AllValues-nil, insert}
use tpf2mp.Base.Keys.{HasKeysOnce, insert-HasKeysOnce}
use tpf2mp.Base.{Result, none}
use tpf2mp.Base.Sort.{sort_rows}
use tpf2mp.Freight.Records.{
  Line, TransportSummary, FreightError, exceeds_output, Requirement, Recipe, Industry,
  AdvanceSummary, State, new_state, state_industry, insufficient_output,
}
use tpf2mp.Freight.Protocol.{
  stocks_ok, requirements_ok, outputs_ok, recipe_ok, industries_ok, validate_industry_bootstrap,
  Bootstrap, Checks, IndustryContent, bootstrapped, apply_bootstrap,
}
use tpf2mp.Freight.Protocol.Sound.{IsIndustry, IsSound}
use tpf2mp.Freight.Protocol.Start.{Passed, started_entry, apply_bootstrap_lem}
use tpf2mp.Freight.Production.{find_stock, feasible, advance_all, advance, first_round}
use tpf2mp.Freight.Production.Stocks.{le-feasible}
use tpf2mp.Freight.Production.Epoch.{AdvancedIn, advance_lem}
use tpf2mp.Freight.Store.{fill_stock, deposit_input_at_stock, withdraw_output}
use tpf2mp.Freight.Transport.{available, stage, commit_all, apply_transport}
use tpf2mp.Freight.Transport.Outputs.{Transported, apply_transport_lem}
use tpf2mp.Freight.Transport.Cursors.{Onward, apply_transport-Onward}
use tpf2mp.Freight.Store.Deposits.{stock_of, Deposited, deposit_input_at_stock_lem}
use tpf2mp.Freight.Store.Withdrawals.{Withdrawn, withdraw_output_lem}

abbrev requirement : ℕ → String → ℕ → Requirement
requirement index cargo n = record { stock_index = index; cargo_type = cargo; amount = n }

abbrev mill : Recipe
mill = record {
  cid = "industry:1";
  capacity = 100;
  stocks =
      record { index = 0; cargo_type = "IRON_ORE"; more_capacity = 0 }
      ∷ record { index = 1; cargo_type = "COAL"; more_capacity = 0 }
      ∷ [];
  inputs = (requirement 0 "IRON_ORE" 2 ∷ requirement 1 "COAL" 3 ∷ []) ∷ [];
  outputs = record { cargo_type = "STEEL"; amount = 1 } ∷ [];
}

abbrev action : Bootstrap
action = record {
  kind = "freight.industry_bootstrap";
  content_digest = "0000beef";
  economy_epoch = 4;
  industries = mill ∷ [];
  digest = "0000cafe";
}

abbrev content : IndustryContent
content = record { ready = true; digest = "0000beef" }

-- Two texts are digests, every text of a record is in order, and the checksum of a view is
-- the action's digest at epoch 4.
abbrev checks : Checks
checks = record {
  texts_ok = λ recipe. true;
  is_digest_text = λ text. str_eq text "0000beef" || str_eq text "0000cafe";
  view_checksum = λ content epoch industries. if epoch == 4 then "0000cafe" else "0000dead";
  within_size = λ action. leb (length action.industries) 10;
}

validates : validate_industry_bootstrap checks action ≡ ok tt
unfolding validate_industry_bootstrap industries_ok recipe_ok stocks_ok requirements_ok outputs_ok
validates = refl

apply_bootstrap_lem_example :
    Passed checks action
    × ((after : State) × (apply_bootstrap checks new_state action content ≡ ok after)
        × IsSound after
        × (after.industries ≡ map started_entry (mill ∷ []))
        × HasKeysOnce after.industries
        × (after.production_epoch ≡ 4)
        × (apply_bootstrap checks after action content ≡ ok after))
apply_bootstrap_lem_example =
    apply_bootstrap_lem checks new_state action content validates refl refl refl refl

abbrev stocked : Industry
stocked = record (state_industry mill) {
  input_stock =
      record { index = 0; cargo_type = "IRON_ORE"; amount = 9 }
      ∷ record { index = 1; cargo_type = "COAL"; amount = 10 }
      ∷ [];
  output_stock = ("STEEL", 5) ∷ [];
  production_resid = 1800;
}

abbrev running : State
running = record (bootstrapped action) { industries = insert "industry:1" stocked [] }

stocked-IsIndustry : IsIndustry stocked
stocked-IsIndustry = record {
  inputs = ((omega arith, omega arith, (omega arith, omega arith, tt)), tt);
  stocks = (refl, (refl, tt));
  resid = omega arith;
  output = λ cargo. ground arith;
}

running-IsSound : IsSound running
running-IsSound =
    AllValues-insert IsIndustry "industry:1" stocked [] stocked-IsIndustry
      (AllValues-nil IsIndustry)

running_once : HasKeysOnce running.industries
running_once = insert-HasKeysOnce "industry:1" stocked [] (λ c. omega arith)

advance_lem_example :
    (after : State) × (summary : AdvanceSummary) × (advance running 5 300
      ≡ ok (after, some summary))
    × (after.production_epoch ≡ 5)
    × ((c : String)
        → AdvancedIn 300
            (lookup c running.industries)
            (lookup c after.industries)
            (lookup c summary.industries))
    × IsSound after
    × HasKeysOnce after.industries
advance_lem_example =
    advance_lem running 5 300 running_once running-IsSound refl refl (omega arith) (omega arith)
      (omega arith)

deposit_input_at_stock_lem_example :
    Deposited running "industry:1" 1 "COAL" 7
      (deposit_input_at_stock running "industry:1" 1 "COAL" 7)
deposit_input_at_stock_lem_example =
    deposit_input_at_stock_lem running "industry:1" 1 "COAL" 7 running-IsSound

withdraw_output_lem_example :
    Withdrawn running "industry:1" "STEEL" 2 (withdraw_output running "industry:1" "STEEL" 2)
withdraw_output_lem_example = withdraw_output_lem running "industry:1" "STEEL" 2 running-IsSound

-- A quota of 8 (half a unit carried), of which ore and coal allow 3 cycles.
abbrev output_and_cycles : Industry → Dict ℕ × ℕ
output_and_cycles industry = (industry.output_stock, industry.last_cycles)

abbrev steel_run : Option (Dict ℕ × ℕ)
steel_run =
    Option.map output_and_cycles
      (lookup "industry:1" (advance_all 300 ("industry:1" ∷ []) (first_round running)).industries)

produces : steel_run ≡ some (("STEEL", 8) ∷ [], 3)
unfolding advance_all
produces = refl

refuses : withdraw_output running "industry:1" "STEEL" 6 ≡ err insufficient_output
unfolding withdraw_output
refuses = refl

le-feasible_example :
    3 ≤ feasible 8 stocked.input_stock (requirement 0 "IRON_ORE" 2 ∷ requirement 1 "COAL" 3 ∷ [])
unfolding find_stock
le-feasible_example =
    le-feasible 3 8 0 stocked.input_stock (requirement 0 "IRON_ORE" 2 ∷ requirement 1 "COAL" 3 ∷ [])
      (omega arith, omega arith, (omega arith, omega arith, tt)) (omega arith)
      (omega arith, (omega arith, tt))

abbrev plant : Recipe
plant = record {
  cid = "industry:2";
  capacity = 100;
  stocks = record { index = 0; cargo_type = "STEEL"; more_capacity = 0 } ∷ [];
  inputs = (requirement 0 "STEEL" 1 ∷ []) ∷ [];
  outputs = record { cargo_type = "GOODS"; amount = 1 } ∷ [];
}

abbrev trading : State
trading = record running {
  industries = insert "industry:2" (state_industry plant) running.industries;
}

-- A line from the mill to the plant.
abbrev row : String → ℕ → ℕ → Line
row digest boarded delivered = record {
  contract = record {
    contract_digest = digest;
    source_industry_cid = "industry:1";
    destination_industry_cid = "industry:2";
    destination_stock_index = 0;
    cargo_type = "STEEL";
    multihop = none;
  };
  boarded_units = boarded;
  delivered_units = delivered;
}

abbrev any_row : String → Line → Bool
any_row line_cid line = true

abbrev two_lines : Dict Line
two_lines = ("line:2", row "0000000b" 2 1) ∷ ("line:1", row "0000000a" 2 2) ∷ []

abbrev steel_at : Result FreightError (State × Option TransportSummary) → ℕ × ℕ
steel_at (err e) = (0, 0)
steel_at (ok (after, summary)) =
    (available after.industries "industry:1" "STEEL", stock_of after "industry:2" 0)

transports : steel_at (apply_transport any_row trading two_lines) ≡ (1, 3)
unfolding apply_transport stage commit_all sort_rows find_stock fill_stock
transports = refl

-- Each line alone could have its steel, but both together cannot.
reserves :
    apply_transport any_row trading
      (("line:2", row "0000000b" 3 1) ∷ ("line:1", row "0000000a" 3 2) ∷ [])
    ≡ err exceeds_output
unfolding apply_transport stage commit_all sort_rows
reserves = refl

apply_transport_lem_example :
    Transported trading two_lines (apply_transport any_row trading two_lines)
apply_transport_lem_example = apply_transport_lem any_row trading two_lines

apply_transport-Onward_example : Onward trading (apply_transport any_row trading two_lines)
apply_transport-Onward_example = apply_transport-Onward any_row trading two_lines
