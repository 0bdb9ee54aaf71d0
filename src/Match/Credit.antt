-- ===== src/Match/Credit.antt =====
-- companion/tpf2mp/checkpoint.py, lines 2133 to 2203: the interest on a company's debt, its credit limit
-- and who goes bankrupt. The rules are given with their defaults filled in; of the ledger a company has
-- its settled net revenue, which is `revenueCents` where `netRevenueCents` is missing.
pub mod Interest
pub mod Charged
use tpf2mp.Base.{
  ℕ, ◌+◌, ◌-◌, ◌*◌, ◌/◌, ◌%◌, max, String, Bool, true, false, ◌&&◌, Option, none, some, List, [],
  ◌∷◌, if◌then◌else◌, or_else,
}
use tpf2mp.Base.Int.{
  ℤ, pos, negsuc, pos_part, neg_part, ◌+ℤ◌, ◌-ℤ◌, ◌*ℤ◌, div_floor, ltb_ℤ, leb_ℤ, max_ℤ,
}
use tpf2mp.Base.Dict.{Dict, lookup, insert}

pub record CreditRules : Type 0 where
  pub base_limit : ℤ
  pub revenue_multiple : ℤ
  pub interest_permille : ℤ
  pub insolvent_limit : ℤ
  pub bankruptcy_enabled : Bool

pub record Account : Type 0 where
  pub balance : ℤ
  pub insolvent_settlements : ℕ
  pub credit_limit : ℤ

-- What the loop reads besides the accounts: at least one settlement and a minute as the period.
pub record CreditBooks : Type 0 where
  pub rules : CreditRules
  pub settlement_count : ℤ
  pub epoch_seconds : ℤ
  pub net_revenue : Dict ℤ

abbrev pub count_of_settlements : CreditBooks → ℕ
count_of_settlements books = pos_part (max_ℤ (pos 1) books.settlement_count)

abbrev pub period : CreditBooks → ℕ
period books = pos_part (max_ℤ (pos 60) books.epoch_seconds)

unfoldable pub breach_limit : CreditBooks → ℤ
breach_limit books =
    if ltb_ℤ (pos 0) books.rules.insolvent_limit
    then max_ℤ (pos 1) (
        div_floor (books.rules.insolvent_limit *ℤ pos 3600 +ℤ pos (period books) -ℤ pos 1)
          (period books))
    else pos 0

-- The settled revenue of one hour, from the average of a settlement.
unfoldable pub per_hour : ℕ → ℕ → ℕ
per_hour average seconds = average / seconds * 3600 + average % seconds * 3600 / seconds

unfoldable pub limit_of : CreditBooks → String → ℤ
unfolding per_hour
limit_of books company_cid =
    let settled = pos_part (or_else (lookup company_cid books.net_revenue) (pos 0)) in
    let average = settled / count_of_settlements books in
    books.rules.base_limit +ℤ pos (per_hour average (period books)) *ℤ books.rules.revenue_multiple

-- `-balance if balance < 0 else 0`
abbrev pub drawn_of : ℤ → ℕ
drawn_of balance = neg_part balance

unfoldable pub interest_on : ℕ → ℤ → ℤ
interest_on drawn numerator =
    pos (drawn / 3_600_000) *ℤ numerator
    +ℤ div_floor (pos (drawn % 3_600_000) *ℤ numerator) 3_600_000

abbrev pub charged_balance : ℤ → ℤ → ℤ
charged_balance balance interest = if ltb_ℤ (pos 0) interest then balance -ℤ interest else balance

-- The body of the loop on one account.
unfoldable pub charged : CreditBooks → String → Account → Account
unfolding limit_of interest_on
charged books company_cid account =
    let limit = limit_of books company_cid in
    let interest =
      interest_on (drawn_of account.balance)
        (books.rules.interest_permille *ℤ pos (period books)) in
    let balance = charged_balance account.balance interest in
    record {
      balance = balance;
      insolvent_settlements =
          if ltb_ℤ limit (pos (drawn_of balance)) then account.insolvent_settlements + 1 else 0;
      credit_limit = limit;
    }

-- Whether an account after the charge makes its company bankrupt.
unfoldable pub is_bankrupt : CreditBooks → Account → Bool
unfolding breach_limit
is_bankrupt books account =
    books.rules.bankruptcy_enabled
    && ltb_ℤ (pos 0) (breach_limit books)
    && leb_ℤ (breach_limit books) (pos account.insolvent_settlements)

-- The first bankrupt company stays.
abbrev pub first_bankrupt : CreditBooks → Option String → String → Account → Option String
first_bankrupt books (some earlier) company_cid account = some earlier
first_bankrupt books none company_cid account =
    if is_bankrupt books account then some company_cid else none

abbrev pub charge_found :
    CreditBooks
    → Dict Account × Option String
    → String
    → Option Account
    → Dict Account × Option String
charge_found books result company_cid none = result
charge_found books (accounts, bankrupt) company_cid (some account) =
    let new = charged books company_cid account in
    (insert company_cid new accounts, first_bankrupt books bankrupt company_cid new)

unfoldable pub charge_companies :
    CreditBooks → Dict Account × Option String → List String → Dict Account × Option String
unfolding charged is_bankrupt
charge_companies books result [] = result
charge_companies books result (company_cid ∷ order) =
    charge_companies books (charge_found books result company_cid (lookup company_cid result.0))
      order

-- The accounts, and `bankruptCid` where there is one.
unfoldable pub charge_credit_and_assess_solvency :
    CreditBooks → Dict Account → List String → Dict Account × Option String
unfolding charge_companies
charge_credit_and_assess_solvency books accounts company_order =
    charge_companies books (accounts, none) company_order
