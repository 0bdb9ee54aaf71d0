-- ===== src/Freight/Production.antt =====
-- companion/tpf2mp/freight.py, lines 104 to 189: one production epoch of every industry.
pub mod Stocks
pub mod Outputs
pub mod Choice
pub mod Epoch
use tpf2mp.Base.{
  ℕ, zero, suc, ◌+◌, ◌-◌, ◌*◌, ◌/◌, ◌%◌, min, String, Bool, true, false, not, ◌&&◌, ◌||◌, Option,
  none, some, List, [], ◌∷◌, ltb, leb, ◌==◌, if◌then◌else◌, Result, ok, err,
}
use tpf2mp.Base.Dict.{Dict, lookup, insert, keys}
use tpf2mp.Base.Sort.{sorted}
use tpf2mp.Freight.Records.{
  max_amount, Requirement, Output, Recipe, Stock, Industry, IndustrySummary, AdvanceSummary, State,
  saturating_add_at, FreightError, wrong_epoch, wrong_period,
}

-- `{stock["index"]: stock ...}.get(index)`: of two stocks with one index the later counts.
unfoldable pub find_stock : ℕ → List Stock → Option Stock
find_stock index [] = none
find_stock index (stock ∷ stocks) = elim (find_stock index stocks) [
  | some later ↦ some later
  | none ↦ if stock.index == index then some stock else none
]

-- `stock["amount"] -= consumed` for that stock. It never falls below 0: `Stocks.consume_exact`.
unfoldable pub take_stock : ℕ → ℕ → List Stock → List Stock
unfolding find_stock
take_stock index consumed [] = []
take_stock index consumed (stock ∷ stocks) =
    let rest = take_stock index consumed stocks in
    elim (find_stock index stocks) [
      | some later ↦ stock ∷ rest
      | none ↦
          if stock.index == index
          then record stock { amount = stock.amount - consumed } ∷ stocks
          else stock ∷ stocks
    ]

-- How many cycles an alternative allows.
unfoldable pub feasible : ℕ → List Stock → List Requirement → ℕ
unfolding find_stock
feasible quota stocks [] = quota
feasible quota stocks (r ∷ requirements) = elim (find_stock r.stock_index stocks) [
  | none ↦ 0
  | some stock ↦ feasible (min quota (stock.amount / r.amount)) stocks requirements
]

abbrev is_nil {ℓ} : {A : Type ℓ} → List A → Bool
is_nil [] = true
is_nil (x ∷ xs) = false

-- The first alternative that can run, with its cycles. Where none can, no cycle runs.
unfoldable pub choose : ℕ → List Stock → List (List Requirement) → ℕ × List Requirement
unfolding feasible
choose quota stocks [] = (0, [])
choose quota stocks (alternative ∷ alternatives) =
    let cycles = feasible quota stocks alternative in
    let rest = choose quota stocks alternatives in
    if ltb 0 cycles || (is_nil alternative && quota == 0) then (cycles, alternative) else rest

-- What the loop changes besides the industry: the state's totals and those of the summary.
pub record Books : Type 0 where
  pub total_produced : Dict ℕ
  pub total_consumed : Dict ℕ
  pub produced : Dict ℕ
  pub consumed : Dict ℕ

pub record Work : Type 0 where
  pub industry : Industry
  pub books : Books

abbrev pub consume_one : ℕ → Requirement → Work → Work
consume_one cycles r work =
    let consumed = cycles * r.amount in
    let industry = work.industry in
    let books = work.books in
    record {
      industry = record industry {
        input_stock = take_stock r.stock_index consumed industry.input_stock;
        total_consumed = saturating_add_at r.cargo_type consumed industry.total_consumed;
      };
      books = record books {
        total_consumed = saturating_add_at r.cargo_type consumed books.total_consumed;
        consumed = saturating_add_at r.cargo_type consumed books.consumed;
      };
    }

unfoldable pub consume : ℕ → List Requirement → Work → Work
unfolding take_stock
consume cycles [] work = work
consume cycles (r ∷ requirements) work = consume cycles requirements (consume_one cycles r work)

abbrev pub produce_one : ℕ → Output → Work → Work
produce_one cycles output work =
    let produced = cycles * output.amount in
    let industry = work.industry in
    let books = work.books in
    record {
      industry = record industry {
        output_stock = saturating_add_at output.cargo_type produced industry.output_stock;
        total_produced = saturating_add_at output.cargo_type produced industry.total_produced;
      };
      books = record books {
        total_produced = saturating_add_at output.cargo_type produced books.total_produced;
        produced = saturating_add_at output.cargo_type produced books.produced;
      };
    }

unfoldable pub produce : ℕ → List Output → Work → Work
produce cycles [] work = work
produce cycles (output ∷ outputs) work = produce cycles outputs (produce_one cycles output work)

-- The cycles of a quota run: `if cycles:` twice.
unfoldable pub run_cycles : ℕ × List Requirement → Work → Work
unfolding consume produce
run_cycles (cycles, alternative) work =
    if cycles == 0
    then work
    else produce cycles work.industry.recipe.outputs (consume cycles alternative work)

abbrev pub numerator : ℕ → Industry → ℕ
numerator period_seconds industry =
    industry.production_resid + industry.recipe.capacity * period_seconds

-- The body of the loop: the industry and the books after it, and the industry's summary.
unfoldable pub advance_industry : ℕ → Work → Work × IndustrySummary
unfolding choose run_cycles
advance_industry period_seconds work =
    let industry = work.industry in
    let quota = numerator period_seconds industry / 3600 in
    let resid = numerator period_seconds industry % 3600 in
    let choice = choose quota industry.input_stock industry.recipe.inputs in
    let after = run_cycles choice work in
    (
      record after {
        industry = record (after.industry) { production_resid = resid; last_cycles = choice.0 };
      },
      record { quota = quota; cycles = choice.0; production_resid = resid },
    )

-- The loop over the industries' keys.
pub record Round : Type 0 where
  pub industries : Dict Industry
  pub books : Books
  pub summaries : Dict IndustrySummary

abbrev pub advance_one : ℕ → String → Round → Round
advance_one period_seconds cid round = elim (lookup cid round.industries) [
  | none ↦ round
  | some industry ↦
      let (work, summary) =
        advance_industry period_seconds (record { industry = industry; books = round.books }) in
      record {
        industries = insert cid work.industry round.industries;
        books = work.books;
        summaries = insert cid summary round.summaries;
      }
]

unfoldable pub advance_all : ℕ → List String → Round → Round
unfolding advance_industry
advance_all period_seconds [] round = round
advance_all period_seconds (cid ∷ cids) round =
    advance_all period_seconds cids (advance_one period_seconds cid round)

abbrev pub first_round : State → Round
first_round state = record {
  industries = state.industries;
  books = record {
    total_produced = state.total_produced;
    total_consumed = state.total_consumed;
    produced = [];
    consumed = [];
  };
  summaries = [];
}

abbrev pub summary_of : ℕ → ℕ → Round → AdvanceSummary
summary_of epoch period_seconds round = record {
  epoch = epoch;
  period_seconds = period_seconds;
  industries = round.summaries;
  produced = round.books.produced;
  consumed = round.books.consumed;
}

abbrev pub advanced : State → ℕ → ℕ → Round → State
advanced state epoch period_seconds round = record state {
  production_epoch = epoch;
  industries = round.industries;
  total_produced = round.books.total_produced;
  total_consumed = round.books.total_consumed;
  last_advance = some (summary_of epoch period_seconds round);
}

-- `advance`, with the new state; `none` is the summary `skipped`.
unfoldable pub advance : State → ℕ → ℕ → Result FreightError (State × Option AdvanceSummary)
unfolding advance_all sorted
advance state epoch period_seconds =
    let round = advance_all period_seconds (sorted (keys state.industries)) (first_round state) in
    if not state.ready
    then ok (state, none)
    else if not (epoch == state.production_epoch + 1 && leb 1 epoch && leb epoch max_amount)
    then err wrong_epoch
    else if not (leb 60 period_seconds && leb period_seconds 86400)
    then err wrong_period
    else ok
        (advanced state epoch period_seconds round, some (summary_of epoch period_seconds round))
