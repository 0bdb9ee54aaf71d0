-- ===== src/Match/Credit/Charged.antt =====
-- companion/tpf2mp/checkpoint.py, lines 2160 to 2203: what the charge of all companies leaves.
use tpf2mp.Match.Credit.{
  Account, CreditBooks, charged, is_bankrupt, charge_found, charge_companies,
  charge_credit_and_assess_solvency,
}
use tpf2mp.Base.{
  ◌<◌, ◌==◌, ◌≤◌, ◌≡◌, refl, ◌∙◌, ap, sym, String, false, inl, inr, Option, none, some, List, [],
  ◌∷◌, arith, str_eq, eq_iff, Bool-cases, if◌then◌else◌,
}
use tpf2mp.Base.Dict.{Dict, lookup, lookup-insert}
use tpf2mp.Base.Keys.{occurs}

-- What is found for a company is charged once.
abbrev pub charged_once : CreditBooks → String → Option Account → Option Account
charged_once books c none = none
charged_once books c (some account) = some (charged books c account)

module _ (books : CreditBooks) where
  charged_other :
      (accounts : Dict Account) (b : Option String) (cid c : String) (o : Option Account)
      → str_eq cid c ≡ false
      → lookup c (charge_found books (accounts, b) cid o).0 ≡ lookup c accounts
  charged_other accounts b cid c none other = refl
  charged_other accounts b cid c (some a) other =
      ground (arith, other, lookup-insert cid c (charged books cid a) accounts)

  charged_here :
      (accounts : Dict Account) (b : Option String) (cid : String) (o : Option Account)
      → lookup cid accounts ≡ o
      → lookup cid (charge_found books (accounts, b) cid o).0 ≡ charged_once books cid o
  charged_here accounts b cid none missing = missing
  charged_here accounts b cid (some a) found =
      ground (arith, eq_iff cid cid, lookup-insert cid cid (charged books cid a) accounts)

  charge_companies-other :
      (accounts : Dict Account) (b : Option String) (order : List String) (c : String)
      → occurs c order ≡ 0
      → lookup c (charge_companies books (accounts, b) order).0 ≡ lookup c accounts
  unfolding charge_companies
  charge_companies-other accounts b [] c h = refl
  charge_companies-other accounts b (cid ∷ order) c h =
      let next = charge_found books (accounts, b) cid (lookup cid accounts) in
      charge_companies-other next.0 next.1 order c (ground (arith, h))
      ∙ charged_other accounts b cid c (lookup cid accounts) (ground (arith, h))

  charge_companies-once :
      (accounts : Dict Account) (b : Option String) (order : List String) (c : String)
      → occurs c order ≡ 1
      → lookup c (charge_companies books (accounts, b) order).0
        ≡ charged_once books c (lookup c accounts)
  unfolding charge_companies
  charge_companies-once accounts b [] c h = absurd (omega (arith, h))
  charge_companies-once accounts b (cid ∷ order) c h =
      let next = charge_found books (accounts, b) cid (lookup cid accounts) in
      elim (Bool-cases (str_eq cid c)) [
        | inl same ↦
            let key : cid ≡ c = (eq_iff cid c).0 same in
            let last : occurs c order ≡ 0 = ground (arith, h, same) in
            charge_companies-other next.0 next.1 order c last
            ∙ ap (λ k. lookup k next.0) (sym key)
            ∙ charged_here accounts b cid (lookup cid accounts) refl
            ∙ ap (λ k. charged_once books k (lookup k accounts)) key
        | inr other ↦
            charge_companies-once next.0 next.1 order c (ground (arith, h, other))
            ∙ ap (charged_once books c) (charged_other accounts b cid c (lookup cid accounts) other)
      ]

  -- The first company of an order that is bankrupt after its charge.
  abbrev pub bankrupt_or : String → Option String → Option Account → Option String
  bankrupt_or cid later none = later
  bankrupt_or cid later (some account) =
      if is_bankrupt books (charged books cid account) then some cid else later

  abbrev pub bankrupt_in : Dict Account → List String → Option String
  bankrupt_in accounts [] = none
  bankrupt_in accounts (cid ∷ order) =
      bankrupt_or cid (bankrupt_in accounts order) (lookup cid accounts)

  abbrev first_of : Option String → Option String → Option String
  first_of none later = later
  first_of (some earlier) later = some earlier

  first_of-found :
      (accounts : Dict Account) (b later : Option String) (cid : String) (o : Option Account)
      → first_of (charge_found books (accounts, b) cid o).1 later
        ≡ first_of b (bankrupt_or cid later o)
  first_of-found accounts b later cid none = refl
  first_of-found accounts (some earlier) later cid (some a) = refl
  first_of-found accounts none later cid (some a) = ground arith

  first-bankrupt :
      (before now : Dict Account) (b : Option String) (order : List String)
      → ((c : String) → occurs c order ≤ 1)
      → ((c : String) → 0 < occurs c order → lookup c now ≡ lookup c before)
      → (charge_companies books (now, b) order).1 ≡ first_of b (bankrupt_in before order)
  unfolding charge_companies
  first-bankrupt before now none [] once same = refl
  first-bankrupt before now (some e) [] once same = refl
  first-bankrupt before now b (cid ∷ order) once same =
      let next = charge_found books (now, b) cid (lookup cid now) in
      let here : lookup cid now ≡ lookup cid before = same cid (ground (arith, eq_iff cid cid)) in
      first-bankrupt before next.0 next.1 order (λ c. omega (arith, once c))
        (λ c ahead.
          let other : str_eq cid c ≡ false = ground (arith, once c, ahead) in
          charged_other now b cid c (lookup cid now) other ∙ same c (omega (arith, ahead)))
      ∙ first_of-found now b (bankrupt_in before order) cid (lookup cid now)
      ∙ ap (λ o. first_of b (bankrupt_or cid (bankrupt_in before order) o)) here

-- Where no company is twice in the order, every company in it with an account is charged exactly once,
-- all other accounts stay as they are, and the bankrupt company is the first of the order that is
-- bankrupt after its charge.
pub charge_credit_and_assess_solvency_lem :
    (books : CreditBooks) (accounts : Dict Account) (order : List String)
    → ((c : String) → occurs c order ≤ 1)
    → let result = charge_credit_and_assess_solvency books accounts order in
      ((c : String)
        → lookup c result.0 ≡ (
            if occurs c order == 1
            then charged_once books c (lookup c accounts)
            else lookup c accounts))
      × (result.1 ≡ bankrupt_in books accounts order)
unfolding charge_credit_and_assess_solvency
charge_credit_and_assess_solvency_lem books accounts order once = (
  λ c. elim (Bool-cases (occurs c order == 1)) [
    | inl e ↦ rw e (charge_companies-once books accounts none order c (ground (arith, e)))
    | inr e ↦ rw e (charge_companies-other books accounts none order c (ground (arith, e, once c)))
  ],
  first-bankrupt books accounts accounts none order once (λ c ahead. refl),
)
