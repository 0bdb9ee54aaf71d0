-- ===== src/Freight/Store/Deposits.antt =====
-- `deposit_input_at_stock` of freight.py on each of its outcomes.
use tpf2mp.Base.{
  ℕ, ◌+◌, ◌≡◌, min, refl, String, true, false, Option, none, some, List, arith, ◌&&◌, leb, ltb,
  ◌==◌, eq_iff, str_eq, if◌then◌else◌, Bool-cases, Option-cases, inl, inr, Result, ok, err,
}
use tpf2mp.Base.Dict.{lookup, count_of, lookup-insert, AllValues-insert}
use tpf2mp.Freight.Records.{
  max_amount, max_accumulator, Stock, Industry, State, FreightError, invalid_deposit,
  unknown_industry, stock_refuses,
}
use tpf2mp.Freight.Protocol.Sound.{IsIndustry, IsSound}
use tpf2mp.Freight.Production.Stocks.{amount_at}
use tpf2mp.Freight.Store.{fill_stock, store_filled, deposit_input_at_stock}
use tpf2mp.Freight.Store.Filling.{
  Filled, fill_stock-Filled, has_stock, fill_stock-none, fill_stock-some,
}

-- An industry's input stock of an index, and its output stock of a cargo.
abbrev pub stock_of : State → String → ℕ → ℕ
stock_of state cid index = elim (lookup cid state.industries) [
  | none ↦ 0
  | some industry ↦ amount_at index industry.input_stock
]

abbrev pub output_of : State → String → String → ℕ
output_of state cid cargo = elim (lookup cid state.industries) [
  | none ↦ 0
  | some industry ↦ count_of cargo industry.output_stock
]

-- No stock of the industry has this index and takes this cargo.
abbrev Refuses : State → String → ℕ → String → Type 0
Refuses state cid index cargo =
    (industry : Industry) × (lookup cid state.industries ≡ some industry)
    × (has_stock index cargo industry.input_stock ≡ false)

-- The industry has a stock with this index, and that stock takes this cargo.
abbrev Takes : State → String → ℕ → String → Type 0
Takes state cid index cargo =
    (industry : Industry) × (lookup cid state.industries ≡ some industry)
    × (has_stock index cargo industry.input_stock ≡ true)

abbrev pub Deposited : State → String → ℕ → String → ℕ → Result FreightError (State × ℕ) → Type 0
Deposited state cid index cargo amount (ok (after, n)) =
    IsSound after
    × Takes state cid index cargo
    × (n ≡ min max_accumulator (stock_of state cid index + amount))
    × ((c : String) (i : ℕ)
        → stock_of after c i ≡ (if str_eq cid c && i == index then n else stock_of state c i))
Deposited state cid index cargo amount (err invalid_deposit) =
    (state.ready && leb 1 amount && leb amount max_amount && ltb index 32) ≡ false
Deposited state cid index cargo amount (err unknown_industry) = lookup cid state.industries ≡ none
Deposited state cid index cargo amount (err stock_refuses) = Refuses state cid index cargo
Deposited state cid index cargo amount (err _) = ⊥

store_filled-Deposited :
    (state : State) (cid : String) (index : ℕ) (cargo : String) (amount : ℕ) (industry : Industry)
    (filling : Option (List Stock × ℕ))
    → IsSound state
    → lookup cid state.industries ≡ some industry
    → fill_stock index cargo amount industry.input_stock ≡ filling
    → Filled 0 index amount industry.input_stock filling
    → Deposited state cid index cargo amount (store_filled state cid industry filling)
store_filled-Deposited state cid index cargo amount industry none sound present e h =
    (industry, present, fill_stock-none index cargo amount industry.input_stock e)
store_filled-Deposited state cid index cargo amount industry (some (stocks, n)) sound present e h =
    let valid = sound cid industry present in
    (
      AllValues-insert IsIndustry cid (record industry { input_stock = stocks }) state.industries
          (record {
            inputs = valid.inputs;
            stocks = h.0;
            resid = valid.resid;
            output = valid.output;
          })
          sound,
      (industry, present, fill_stock-some index cargo amount industry.input_stock stocks n e),
      rw (stock_of, present) h.2,
      λ c i. ground (
        arith,
        lookup-insert cid c (record industry { input_stock = stocks }) state.industries,
        eq_iff cid c,
        present,
        h.3 i,
      ),
    )

-- A deposit into a sound state either adds the amount to the one stock it names, which takes the cargo
-- of the deposit, up to the limit, and leaves a sound state whose other stocks are as before, or is
-- refused for the reason it gives.
pub deposit_input_at_stock_lem :
    (state : State) (cid : String) (index : ℕ) (cargo : String) (amount : ℕ)
    → IsSound state
    → Deposited state cid index cargo amount (deposit_input_at_stock state cid index cargo amount)
unfolding deposit_input_at_stock
deposit_input_at_stock_lem state cid index cargo amount sound =
    elim (Bool-cases (state.ready && leb 1 amount && leb amount max_amount && ltb index 32)) [
      | inr refused ↦ rw refused refused
      | inl allowed ↦ elim (Option-cases (lookup cid state.industries)) [
        | inl absent ↦ rw (allowed, absent) absent
        | inr (industry, present) ↦
            rw (allowed, present)
              (store_filled-Deposited state cid index cargo amount industry
                (fill_stock index cargo amount industry.input_stock) sound present refl
                (fill_stock-Filled 0 index cargo amount industry.input_stock
                  (sound cid industry present).stocks))
      ]
    ]
