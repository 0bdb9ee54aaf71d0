-- ===== src/Freight/Store/Filling.antt =====
-- A filled stock, as the production of freight.py sees it.
use mathlib.Core.Path.{subst}
use tpf2mp.Base.{
  ℕ, suc, ◌+◌, ◌≤◌, ◌<◌, ◌≡◌, min, refl, String, Bool, true, false, Option, none, some, List, [],
  ◌∷◌, any, arith, ◌&&◌, ◌==◌, str_eq, if◌then◌else◌, Bool-cases, Option-cases, inl, inr,
}
use tpf2mp.Freight.Records.{max_accumulator, Stock}
use tpf2mp.Freight.Protocol.Sound.{Aligned}
use tpf2mp.Freight.Production.{find_stock}
use tpf2mp.Freight.Production.Stocks.{amount_at}
use tpf2mp.Freight.Store.{is_stock, filled, fill_stock}

find_stock_above :
    (first index : ℕ) (stocks : List Stock)
    → Aligned first stocks
    → index < first
    → find_stock index stocks ≡ none
unfolding find_stock
find_stock_above first index [] h lt = refl
find_stock_above first index (stock ∷ stocks) h lt =
    ground (arith, find_stock_above (suc first) index stocks)

-- In numbered stocks the first stock is the one of its number, and the rest are for other numbers.
amount_at-cons :
    (first index : ℕ) (stock : Stock) (stocks : List Stock)
    → Aligned first (stock ∷ stocks)
    → amount_at index (stock ∷ stocks)
      ≡ (if first == index then stock.amount else amount_at index stocks)
unfolding find_stock
amount_at-cons first index stock stocks h =
    ground (arith, find_stock_above (suc first) index stocks h.1)

amount_at_above :
    (first index : ℕ) (stocks : List Stock)
    → Aligned first stocks
    → index < first
    → amount_at index stocks ≡ 0
amount_at_above first index stocks h lt =
    rw (amount_at, find_stock_above first index stocks h lt) refl

-- What a filled stock list looks like to production, which looks stocks up by their index.
abbrev pub Filled : ℕ → ℕ → ℕ → List Stock → Option (List Stock × ℕ) → Type 0
Filled first index amount stocks none = Unit
Filled first index amount stocks (some (after, n)) =
    Aligned first after
    × (first ≤ index)
    × (n ≡ min max_accumulator (amount_at index stocks + amount))
    × ((other : ℕ) → amount_at other after ≡ (if other == index then n else amount_at other stocks))

pub fill_stock-Filled :
    (first index : ℕ) (cargo : String) (amount : ℕ) (stocks : List Stock)
    → Aligned first stocks
    → Filled first index amount stocks (fill_stock index cargo amount stocks)
unfolding fill_stock
fill_stock-Filled first index cargo amount [] h = tt
fill_stock-Filled first index cargo amount (stock ∷ stocks) h =
    elim (Bool-cases (is_stock index cargo stock)) [
      | inl here ↦
          let same : first ≡ index = ground arith in
          rw (fill_stock, here)
            (
              h,
              omega arith,
              ground (arith, amount_at-cons first index stock stocks h),
              λ other. ground (
                arith,
                amount_at-cons first other stock stocks h,
                amount_at-cons first other (filled amount stock) stocks h,
              ),
            )
      | inr there ↦ elim (Option-cases (fill_stock index cargo amount stocks)) [
        | inl full ↦ rw (fill_stock, there, full) tt
        | inr ((others, n), found) ↦
            let rest : Filled (suc first) index amount stocks (some (others, n)) =
              subst (Filled (suc first) index amount stocks) found
                (fill_stock-Filled (suc first) index cargo amount stocks h.1) in
            rw (fill_stock, there, found)
              (
                (h.0, rest.0),
                omega (arith, rest.1),
                ground (arith, rest.2, rest.1, amount_at-cons first index stock stocks h),
                λ other. ground (
                  arith,
                  rest.3 other,
                  rest.1,
                  amount_at-cons first other stock stocks h,
                  amount_at-cons first other stock others (h.0, rest.0),
                ),
              )
      ]
    ]

-- Some stock has this index and takes this cargo.
abbrev pub has_stock : ℕ → String → List Stock → Bool
has_stock index cargo stocks =
    any (λ (stock : Stock). stock.index == index && str_eq stock.cargo_type cargo) stocks

pub fill_stock-none :
    (index : ℕ) (cargo : String) (amount : ℕ) (stocks : List Stock)
    → fill_stock index cargo amount stocks ≡ none
    → has_stock index cargo stocks ≡ false
unfolding fill_stock
fill_stock-none index cargo amount [] h = refl
fill_stock-none index cargo amount (stock ∷ stocks) h =
    ground (arith, fill_stock-none index cargo amount stocks)

pub fill_stock-some :
    (index : ℕ) (cargo : String) (amount : ℕ) (stocks after : List Stock) (n : ℕ)
    → fill_stock index cargo amount stocks ≡ some (after, n)
    → has_stock index cargo stocks ≡ true
unfolding fill_stock
fill_stock-some index cargo amount [] after n h = cc
fill_stock-some index cargo amount (stock ∷ stocks) after n h =
    elim (Option-cases (fill_stock index cargo amount stocks)) [
      | inl full ↦ ground (arith, h, full)
      | inr ((others, m), found) ↦
          ground (arith, fill_stock-some index cargo amount stocks others m found)
    ]
