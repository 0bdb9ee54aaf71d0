-- ===== src/Freight/Store.antt =====
-- companion/tpf2mp/freight.py, lines 192 to 235: cargo put into an industry's input stock and taken
-- from its output stock. Each returns the new state and the stock's new amount.
pub mod Filling
pub mod Deposits
pub mod Withdrawals
use tpf2mp.Base.{
  ℕ, ◌+◌, ◌-◌, ◌≤◌, min, String, Bool, true, false, not, ◌&&◌, Option, none, some, List, [], ◌∷◌,
  map, keep, leb, ltb, ◌==◌, str_eq, if◌then◌else◌, Result, ok, err,
}
use tpf2mp.Base.Dict.{Dict, lookup, insert, count_of}
use tpf2mp.Freight.Records.{
  max_amount, max_accumulator, Stock, Industry, State, FreightError, invalid_deposit,
  unknown_industry, stock_refuses, ambiguous_stock, insufficient_output, invalid_withdrawal,
}

abbrev pub is_stock : ℕ → String → Stock → Bool
is_stock index cargo stock = stock.index == index && str_eq stock.cargo_type cargo

abbrev pub filled : ℕ → Stock → Stock
filled amount stock = record stock { amount = min max_accumulator (stock.amount + amount) }

-- The loop over the stocks: the first that matches grows, and its new amount is returned.
unfoldable pub fill_stock : ℕ → String → ℕ → List Stock → Option (List Stock × ℕ)
fill_stock index cargo amount [] = none
fill_stock index cargo amount (stock ∷ stocks) =
    let rest = fill_stock index cargo amount stocks in
    if is_stock index cargo stock
    then some (filled amount stock ∷ stocks, (filled amount stock).amount)
    else elim rest [ none ↦ none | some (others, n) ↦ some (stock ∷ others, n) ]

abbrev pub with_industry : State → String → Industry → State
with_industry state cid industry = record state {
  industries = insert cid industry state.industries;
}

-- What becomes of the state once the stock is filled.
abbrev pub store_filled :
    State → String → Industry → Option (List Stock × ℕ) → Result FreightError (State × ℕ)
store_filled state cid industry none = err stock_refuses
store_filled state cid industry (some (stocks, n)) =
    ok (with_industry state cid (record industry { input_stock = stocks }), n)

unfoldable pub deposit_input_at_stock :
    State → String → ℕ → String → ℕ → Result FreightError (State × ℕ)
unfolding fill_stock
deposit_input_at_stock state cid stock_index cargo amount =
    if not (state.ready && leb 1 amount && leb amount max_amount && ltb stock_index 32)
    then err invalid_deposit
    else elim (lookup cid state.industries) [
      | none ↦ err unknown_industry
      | some industry ↦
          store_filled state cid industry (fill_stock stock_index cargo amount industry.input_stock)
    ]

-- The indices of the stocks that take a cargo; an unknown industry has no stocks.
abbrev pub matches : State → String → String → List ℕ
matches state cid cargo = elim (lookup cid state.industries) [
  | none ↦ []
  | some industry ↦
      map (λ (stock : Stock). stock.index)
        (keep (λ (stock : Stock). str_eq stock.cargo_type cargo) industry.input_stock)
]

-- Without a match the source asks for stock -1, which is refused as invalid.
abbrev deposit_at_matches : State → String → String → ℕ → List ℕ → Result FreightError (State × ℕ)
deposit_at_matches state cid cargo amount [] = err invalid_deposit
deposit_at_matches state cid cargo amount (index ∷ []) =
    deposit_input_at_stock state cid index cargo amount
deposit_at_matches state cid cargo amount (index ∷ another ∷ more) = err ambiguous_stock

unfoldable pub deposit_input : State → String → String → ℕ → Result FreightError (State × ℕ)
unfolding deposit_input_at_stock
deposit_input state cid cargo amount =
    deposit_at_matches state cid cargo amount (matches state cid cargo)

unfoldable pub withdraw_output : State → String → String → ℕ → Result FreightError (State × ℕ)
withdraw_output state cid cargo amount =
    if not (state.ready && leb 1 amount && leb amount max_amount)
    then err invalid_withdrawal
    else elim (lookup cid state.industries) [
      | none ↦ err unknown_industry
      | some industry ↦
          let available = count_of cargo industry.output_stock in
          let left = available - amount in
          if ltb available amount
          then err insufficient_output
          else ok (
            with_industry state cid
                (record industry { output_stock = insert cargo left industry.output_stock }),
            left,
          )
    ]
