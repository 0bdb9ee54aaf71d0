-- ===== src/Freight/Records.antt =====
-- companion/tpf2mp/freight.py, lines 9 to 59: what an industry holds, and the state of all freight.
-- A recipe's `resource`, `params`, `recipeDigest` and `stockType`, which are only copied, are left out.
-- The numbers of a validated recipe are not negative, nor is what the state counts, so all are in ℕ.
use tpf2mp.Base.{ℕ, ◌+◌, min, String, Bool, false, Option, none, List, [], map}
use tpf2mp.Base.Dict.{Dict, insert, count_of}

abbrev pub max_amount : ℕ
max_amount = 1_000_000_000

abbrev pub max_accumulator : ℕ
max_accumulator = 1_000_000_000_000_000

pub record StockSpec : Type 0 where
  pub index : ℕ
  pub cargo_type : String
  pub more_capacity : ℕ

pub record Requirement : Type 0 where
  pub stock_index : ℕ
  pub cargo_type : String
  pub amount : ℕ

pub record Output : Type 0 where
  pub cargo_type : String
  pub amount : ℕ

-- A row of `industries` in a bootstrap action.
pub record Recipe : Type 0 where
  pub cid : String
  pub capacity : ℕ
  pub stocks : List StockSpec
  pub inputs : List (List Requirement)
  pub outputs : List Output

pub record Stock : Type 0 where
  pub index : ℕ
  pub cargo_type : String
  pub amount : ℕ

pub record Industry : Type 0 where
  pub cid : String
  pub recipe : Recipe
  pub input_stock : List Stock
  pub output_stock : Dict ℕ
  pub production_resid : ℕ
  pub total_produced : Dict ℕ
  pub total_consumed : Dict ℕ
  pub last_cycles : ℕ

pub record IndustrySummary : Type 0 where
  pub quota : ℕ
  pub cycles : ℕ
  pub production_resid : ℕ

pub record AdvanceSummary : Type 0 where
  pub epoch : ℕ
  pub period_seconds : ℕ
  pub industries : Dict IndustrySummary
  pub produced : Dict ℕ
  pub consumed : Dict ℕ

-- A cargo line's contract, which must not change once something has moved (`_identity`).
-- `multihop` holds what `transportSchema` 2 adds: whether each end is an industry, and the path.
pub record Hop : Type 0 where
  pub path_digest : String
  pub leg_index : ℕ
  pub leg_count : ℕ
  pub source_is_industry : Bool
  pub destination_is_industry : Bool
  pub source_station_group_cid : String
  pub destination_station_group_cid : String

pub record Contract : Type 0 where
  pub contract_digest : String
  pub source_industry_cid : String
  pub destination_industry_cid : String
  pub destination_stock_index : ℕ
  pub cargo_type : String
  pub multihop : Option Hop

-- A cargo line's row and its cursor: the contract and the counts so far.
pub record Line : Type 0 where
  pub contract : Contract
  pub boarded_units : ℕ
  pub delivered_units : ℕ

pub record TransportSummary : Type 0 where
  pub lines : ℕ
  pub boarded : Dict ℕ
  pub delivered : Dict ℕ
  pub transferred : Dict ℕ

pub record State : Type 0 where
  pub ready : Bool
  pub content_digest : Option String
  pub bootstrap_digest : Option String
  pub bootstrap_epoch : ℕ
  pub production_epoch : ℕ
  pub industries : Dict Industry
  pub total_produced : Dict ℕ
  pub total_consumed : Dict ℕ
  pub transport_cursors : Dict Line
  pub total_transported : Dict ℕ
  pub total_delivered : Dict ℕ
  pub retired_transported : Dict ℕ
  pub retired_delivered : Dict ℕ
  pub last_transport : Option TransportSummary
  pub last_advance : Option AdvanceSummary

abbrev pub new_state : State
new_state = record {
  ready = false;
  content_digest = none;
  bootstrap_digest = none;
  bootstrap_epoch = 0;
  production_epoch = 0;
  industries = [];
  total_produced = [];
  total_consumed = [];
  transport_cursors = [];
  total_transported = [];
  total_delivered = [];
  retired_transported = [];
  retired_delivered = [];
  last_transport = none;
  last_advance = none;
}

abbrev pub empty_stock : StockSpec → Stock
empty_stock stock = record { index = stock.index; cargo_type = stock.cargo_type; amount = 0 }

-- `_state_industry`
abbrev pub state_industry : Recipe → Industry
state_industry recipe = record {
  cid = recipe.cid;
  recipe = recipe;
  input_stock = map empty_stock recipe.stocks;
  output_stock = [];
  production_resid = 0;
  total_produced = [];
  total_consumed = [];
  last_cycles = 0;
}

-- `d[cargo] = _saturating_add(d.get(cargo), n)`
abbrev pub saturating_add_at : String → ℕ → Dict ℕ → Dict ℕ
saturating_add_at cargo n d = insert cargo (min max_accumulator (count_of cargo d + n)) d

pub data FreightError : Type 0 where
  malformed_digest malformed_recipe digest_mismatch too_large : FreightError
  wrong_content already_bootstrapped : FreightError
  wrong_epoch wrong_period invalid_deposit unknown_industry stock_refuses : FreightError
  ambiguous_stock insufficient_output invalid_withdrawal : FreightError
  malformed_row source_does_not_produce unknown_destination contract_changed : FreightError
  moved_backwards exceeds_output : FreightError
