-- ===== src/Freight/Production/Stocks.antt =====
-- The input stocks in `advance` of freight.py: feasible cycles and consumption.
use mathlib.Core.Path.{subst, sym}
use native.Mathlib.Nat.{div-add-mod, mod-lt, mul-le-mul_right, min-le_right}
use tpf2mp.Base.{
  ℕ, suc, ◌+◌, ◌-◌, ◌*◌, ◌/◌, ◌≤◌, ◌<◌, ◌≡◌, min, refl, Option, none, some, List, [], ◌∷◌, arith,
  sum_by, ◌==◌, if◌then◌else◌, Option-cases, inl, inr,
}
use tpf2mp.Freight.Records.{Requirement, Stock}
use tpf2mp.Freight.Protocol.Sound.{Ascends}
use tpf2mp.Freight.Production.{find_stock, take_stock, feasible, consume, consume_one, Work}

-- What the stock of an index holds.
abbrev pub amount_at : ℕ → List Stock → ℕ
amount_at index stocks = elim (find_stock index stocks) [ none ↦ 0 | some stock ↦ stock.amount ]

-- What one cycle of an alternative needs of a stock.
abbrev pub needs : ℕ → List Requirement → ℕ
needs index requirements =
    sum_by (λ (r : Requirement). if r.stock_index == index then r.amount else 0) requirements

abbrev taken : ℕ → Option Stock → Option Stock
taken n none = none
taken n (some stock) = some (record stock { amount = stock.amount - n })

find_stock-take_stock :
    (index other n : ℕ) (stocks : List Stock)
    → find_stock other (take_stock index n stocks)
      ≡ (if index == other then taken n (find_stock other stocks) else find_stock other stocks)
unfolding find_stock take_stock
find_stock-take_stock index other n [] = ground arith
find_stock-take_stock index other n (stock ∷ stocks) =
    ground (arith, find_stock-take_stock index other n stocks)

amount_at-take_stock :
    (index other n : ℕ) (stocks : List Stock)
    → amount_at other (take_stock index n stocks)
      ≡ (if index == other then amount_at other stocks - n else amount_at other stocks)
amount_at-take_stock index other n stocks =
    ground (arith, find_stock-take_stock index other n stocks)

-- The stocks hold what so many cycles of the requirements need.
abbrev pub Fits : ℕ → List Stock → List Requirement → Type 0
Fits cycles stocks [] = Unit
Fits cycles stocks (r ∷ requirements) =
    (cycles * r.amount ≤ amount_at r.stock_index stocks) × Fits cycles stocks requirements

pub feasible-le :
    (quota : ℕ) (stocks : List Stock) (requirements : List Requirement)
    → feasible quota stocks requirements ≤ quota
unfolding feasible
feasible-le quota stocks [] = omega arith
feasible-le quota stocks (r ∷ requirements) =
    elim (Option-cases (find_stock r.stock_index stocks)) [
      | inl absent ↦ rw (feasible, absent) (omega arith)
      | inr (stock, present) ↦
          rw (feasible, present)
            (omega (arith, feasible-le (min quota (stock.amount / r.amount)) stocks requirements))
    ]

Fits-zero : (stocks : List Stock) (requirements : List Requirement) → Fits 0 stocks requirements
Fits-zero stocks [] = tt
Fits-zero stocks (r ∷ requirements) = (omega arith, Fits-zero stocks requirements)

-- A quotient is the largest number of parts.
le-div : (k n d : ℕ) → 0 < d → k * d ≤ n → k ≤ n / d
le-div k n d h le = grind (arith, div-add-mod n d, mod-lt n h)

div-le : (n d : ℕ) → n / d * d ≤ n
div-le n d = omega (arith, div-add-mod n d)

-- The cycles that an alternative allows are the most for which the stocks suffice.
pub feasible-Fits :
    (quota first : ℕ) (stocks : List Stock) (requirements : List Requirement)
    → Ascends first requirements
    → Fits (feasible quota stocks requirements) stocks requirements
unfolding feasible
feasible-Fits quota first stocks [] h = tt
feasible-Fits quota first stocks (r ∷ requirements) h =
    elim (Option-cases (find_stock r.stock_index stocks)) [
      | inl absent ↦
          let value : feasible quota stocks (r ∷ requirements) ≡ 0 = rw (feasible, absent) refl in
          subst (λ k. Fits k stocks (r ∷ requirements)) (sym value)
            (omega arith, Fits-zero stocks requirements)
      | inr (stock, present) ↦
          let next = min quota (stock.amount / r.amount) in
          let rest = feasible next stocks requirements in
          let value : feasible quota stocks (r ∷ requirements) ≡ rest =
            rw (feasible, present) refl in
          let within : rest * r.amount ≤ stock.amount = omega (
            arith,
            mul-le-mul_right r.amount (feasible-le next stocks requirements),
            mul-le-mul_right r.amount (min-le_right quota (stock.amount / r.amount)),
            div-le stock.amount r.amount,
          ) in
          subst (λ k. Fits k stocks (r ∷ requirements)) (sym value)
            (
              rw (amount_at, present) within,
              feasible-Fits next (suc r.stock_index) stocks requirements h.2,
            )
    ]

pub le-feasible :
    (k quota first : ℕ) (stocks : List Stock) (requirements : List Requirement)
    → Ascends first requirements
    → k ≤ quota
    → Fits k stocks requirements
    → k ≤ feasible quota stocks requirements
unfolding feasible
le-feasible k quota first stocks [] h le f = le
le-feasible k quota first stocks (r ∷ requirements) h le f =
    elim (Option-cases (find_stock r.stock_index stocks)) [
      | inl absent ↦ rw (feasible, absent) (grind (arith, f.0))
      | inr (stock, present) ↦
          let enough : k * r.amount ≤ stock.amount = ground (arith, f.0) in
          rw (feasible, present)
            (le-feasible k (min quota (stock.amount / r.amount)) (suc r.stock_index) stocks
              requirements h.2 (omega (arith, le-div k stock.amount r.amount h.1 enough)) f.1)
    ]

Fits-take_stock :
    (cycles index n first : ℕ) (stocks : List Stock) (requirements : List Requirement)
    → index < first
    → Ascends first requirements
    → Fits cycles stocks requirements
    → Fits cycles (take_stock index n stocks) requirements
Fits-take_stock cycles index n first stocks [] lt h f = tt
Fits-take_stock cycles index n first stocks (r ∷ requirements) lt h f = (
  ground (arith, amount_at-take_stock index r.stock_index n stocks),
  Fits-take_stock cycles index n (suc r.stock_index) stocks requirements (omega arith) h.2 f.1,
)

-- What is left of a stock and what the cycles took make up what was there.
pub consume_exact :
    (cycles first : ℕ) (requirements : List Requirement) (work : Work) (index : ℕ)
    → Ascends first requirements
    → Fits cycles work.industry.input_stock requirements
    → amount_at index (consume cycles requirements work).industry.input_stock
        + cycles * needs index requirements
      ≡ amount_at index work.industry.input_stock
unfolding consume
consume_exact cycles first [] work index h f = omega arith
consume_exact cycles first (r ∷ requirements) work index h f =
    let stocks = work.industry.input_stock in
    let n = cycles * r.amount in
    grind (
      arith,
      consume_exact cycles (suc r.stock_index) requirements (consume_one cycles r work) index h.2 (
          Fits-take_stock cycles r.stock_index n (suc r.stock_index) stocks requirements
            (omega arith) h.2 f.1),
      amount_at-take_stock r.stock_index index n stocks,
      f.0,
    )
