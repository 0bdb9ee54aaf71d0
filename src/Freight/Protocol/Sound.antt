-- ===== src/Freight/Protocol/Sound.antt =====
-- When an industry is in order, and the checks of freight_protocol.py that see to it.
use tpf2mp.Base.{
  ℕ, suc, ◌≤◌, ◌<◌, ◌≡◌, String, Bool, true, List, [], ◌∷◌, All, all, map, arith, Option, some,
}
use tpf2mp.Base.Dict.{Dict, AllValues, AllValues-insert, insert, count_of}
use tpf2mp.Freight.Records.{
  max_accumulator, StockSpec, Requirement, Recipe, Stock, Industry, State, empty_stock,
  state_industry,
}
use tpf2mp.Freight.Protocol.{
  stocks_ok, requirements_ok, alternative_ok, recipe_ok, industries_ok, add_recipes,
}

-- The requirements of an alternative name ascending stocks, each with an amount.
abbrev pub Ascends : ℕ → List Requirement → Type 0
Ascends first [] = Unit
Ascends first (r ∷ requirements) =
    (first ≤ r.stock_index) × (0 < r.amount) × Ascends (suc r.stock_index) requirements

requirements_ok-Ascends :
    (stocks : List StockSpec) (first : ℕ) (requirements : List Requirement)
    → requirements_ok stocks first requirements ≡ true
    → Ascends first requirements
unfolding requirements_ok
requirements_ok-Ascends stocks first [] h = tt
requirements_ok-Ascends stocks first (r ∷ requirements) h =
    ground (arith, requirements_ok-Ascends stocks (suc r.stock_index) requirements)

inputs-Ascend :
    (stocks : List StockSpec) (inputs : List (List Requirement))
    → all (alternative_ok stocks) inputs ≡ true
    → All (Ascends 0) inputs
inputs-Ascend stocks [] h = tt
inputs-Ascend stocks (alternative ∷ inputs) h =
    ground (arith, requirements_ok-Ascends stocks 0 alternative, inputs-Ascend stocks inputs)

-- The stocks are numbered from the given index on.
abbrev pub Aligned : ℕ → List Stock → Type 0
Aligned index [] = Unit
Aligned index (stock ∷ stocks) = (stock.index ≡ index) × Aligned (suc index) stocks

stocks_ok-Aligned :
    (index : ℕ) (stocks : List StockSpec)
    → stocks_ok index stocks ≡ true
    → Aligned index (map empty_stock stocks)
unfolding stocks_ok
stocks_ok-Aligned index [] h = tt
stocks_ok-Aligned index (stock ∷ stocks) h = ground (arith, stocks_ok-Aligned (suc index) stocks)

-- An industry that production can run: its recipe's alternatives are in order, its stocks are
-- numbered, less than an hour's unit is carried, and no output is above the limit.
pub record IsIndustry (i : Industry) : Type 0 where
  pub inputs : All (Ascends 0) i.recipe.inputs
  pub stocks : Aligned 0 i.input_stock
  pub resid : i.production_resid < 3600
  pub output : (cargo : String) → count_of cargo i.output_stock ≤ max_accumulator

recipe_ok-IsIndustry : (r : Recipe) → recipe_ok r ≡ true → IsIndustry (state_industry r)
unfolding recipe_ok
recipe_ok-IsIndustry r h = record {
  inputs = inputs-Ascend r.stocks r.inputs (ground arith);
  stocks = stocks_ok-Aligned 0 r.stocks (ground arith);
  resid = omega arith;
  output = λ cargo. omega arith;
}

pub add_recipes-IsIndustry :
    (texts_ok : Recipe → Bool) (previous : Option String) (seen : List String)
    (recipes : List Recipe) (d : Dict Industry)
    → industries_ok texts_ok previous seen recipes ≡ true
    → AllValues IsIndustry d
    → AllValues IsIndustry (add_recipes recipes d)
unfolding industries_ok add_recipes
add_recipes-IsIndustry texts_ok previous seen [] d h valid = valid
add_recipes-IsIndustry texts_ok previous seen (r ∷ recipes) d h valid =
    add_recipes-IsIndustry texts_ok (some r.cid) (r.cid ∷ seen) recipes
      (insert r.cid (state_industry r) d) (ground arith)
      (AllValues-insert IsIndustry r.cid (state_industry r) d
        (recipe_ok-IsIndustry r (ground arith)) valid)

-- Every industry of the state can run.
abbrev pub IsSound : State → Type 0
IsSound state = AllValues IsIndustry state.industries
