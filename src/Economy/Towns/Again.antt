-- ===== src/Economy/Towns/Again.antt =====
-- companion/tpf2mp/checkpoint.py, lines 844 to 869: the refresh of all markets, run twice.
use tpf2mp.Economy.Towns.{
  Town, TownMarket, DemandChange, refresh_market, previous_demand, refreshed_in, refresh_found,
  refresh_markets, refresh_market_demands,
}
use tpf2mp.Economy.Towns.Demand.{Settles, refresh_market-again}
use mathlib.Core.Path.{subst}
use tpf2mp.Base.{
  ◌<◌, ◌≡◌, refl, String, ◌⊎◌, inl, inr, Option, none, some, List, [], ◌∷◌, arith, Bool-cases,
  false, eq_iff, str_eq,
}
use tpf2mp.Base.Dict.{Dict, lookup, insert, lookup-insert, AllValues, keys}
use tpf2mp.Base.Keys.{occurs, lookup-occurs_pos, occurs-sorted}
use tpf2mp.Base.Sort.{sorted}

-- A market that a refresh leaves as it is.
abbrev Rests : Dict Town → TownMarket → Type 0
Rests towns market = (refresh_market towns market ≡ none) ⊎ Settles towns market

-- Every market rests already or is still to be visited.
abbrev Visits : Dict Town → Dict TownMarket → List String → Type 0
Visits towns markets cids =
    (c : String) (m : TownMarket) → lookup c markets ≡ some m → Rests towns m ⊎ (0 < occurs c cids)

insert-same :
    (c : String) (m : TownMarket) (d : Dict TownMarket) → lookup c d ≡ some m → insert c m d ≡ d
insert-same c m [] h = absurd (cc)
insert-same c m ((k, v) ∷ d) h = ground (arith, insert-same c m d)

module _ (towns : Dict Town) where
  rest-refreshed_in :
      (d : Dict TownMarket) (cid : String) (m : TownMarket)
      → lookup cid d ≡ some m
      → Rests towns m
      → refreshed_in (d, []) cid (previous_demand m) (refresh_market towns m) ≡ (d, [])
  rest-refreshed_in d cid m found (inl alone) = rw alone refl
  rest-refreshed_in d cid m found (inr (again, same)) =
      rw (again, insert-same cid m d found) (ground (arith, same))

  rest-refresh_found :
      (d : Dict TownMarket) (cid : String) (o : Option TownMarket)
      → lookup cid d ≡ o
      → AllValues (Rests towns) d
      → refresh_found towns (d, []) cid o ≡ (d, [])
  rest-refresh_found d cid none found h = refl
  rest-refresh_found d cid (some m) found h = rest-refreshed_in d cid m found (h cid m found)

  rest-refresh_markets :
      (markets : Dict TownMarket) (cids : List String)
      → AllValues (Rests towns) markets
      → refresh_markets towns (markets, []) cids ≡ (markets, [])
  unfolding refresh_markets
  rest-refresh_markets markets [] h = refl
  rest-refresh_markets markets (cid ∷ cids) h =
      rw (rest-refresh_found markets cid (lookup cid markets) refl h)
        (rest-refresh_markets markets cids h)

  -- A market under another key than the one that is visited.
  visit_other :
      (d : Dict TownMarket) (cid c : String) (cids : List String) (m : TownMarket)
      → Visits towns d (cid ∷ cids)
      → str_eq cid c ≡ false
      → lookup c d ≡ some m
      → Rests towns m ⊎ (0 < occurs c cids)
  visit_other d cid c cids m h other found = elim (h c m found) [
    | inl rests ↦ inl rests
    | inr ahead ↦ inr (ground (arith, other, ahead))
  ]

  visit-same :
      (d : Dict TownMarket) (cid : String) (cids : List String) (o : Option TownMarket)
      → lookup cid d ≡ o
      → ((m : TownMarket) → o ≡ some m → Rests towns m)
      → Visits towns d (cid ∷ cids)
      → Visits towns d cids
  visit-same d cid cids o at_cid rests h c m found = elim (Bool-cases (str_eq cid c)) [
    | inl same ↦
        let key : cid ≡ c = (eq_iff cid c).0 same in
        let here : o ≡ some m = cc in inl (rests m here)
    | inr other ↦ visit_other d cid c cids m h other found
  ]

  visit-insert :
      (d : Dict TownMarket) (cid : String) (cids : List String) (new : TownMarket)
      → Rests towns new
      → Visits towns d (cid ∷ cids)
      → Visits towns (insert cid new d) cids
  visit-insert d cid cids new rests h c m found = elim (Bool-cases (str_eq cid c)) [
    | inl same ↦
        let here : new ≡ m = cc (lookup-insert cid c new d, same, found) in
        inl (subst (Rests towns) here rests)
    | inr other ↦ visit_other d cid c cids m h other (cc (lookup-insert cid c new d, other, found))
  ]

  visit-refreshed_in :
      (d : Dict TownMarket) (changes : Dict DemandChange) (cid : String) (cids : List String)
      (m : TownMarket) (o : Option TownMarket)
      → lookup cid d ≡ some m
      → refresh_market towns m ≡ o
      → Visits towns d (cid ∷ cids)
      → Visits towns (refreshed_in (d, changes) cid (previous_demand m) o).0 cids
  visit-refreshed_in d changes cid cids m none found alone h =
      visit-same d cid cids (some m) found
        (λ n e. let same : m ≡ n = cc in subst (Rests towns) same (inl alone)) h
  visit-refreshed_in d changes cid cids m (some new) found done h =
      visit-insert d cid cids new (inr (refresh_market-again towns m new done)) h

  visit-refresh_found :
      (d : Dict TownMarket) (changes : Dict DemandChange) (cid : String) (cids : List String)
      (o : Option TownMarket)
      → lookup cid d ≡ o
      → Visits towns d (cid ∷ cids)
      → Visits towns (refresh_found towns (d, changes) cid o).0 cids
  visit-refresh_found d changes cid cids none found h =
      visit-same d cid cids none found (λ m e. absurd (cc)) h
  visit-refresh_found d changes cid cids (some m) found h =
      visit-refreshed_in d changes cid cids m (refresh_market towns m) found refl h

  visit-refresh_markets :
      (d : Dict TownMarket) (changes : Dict DemandChange) (cids : List String)
      → Visits towns d cids
      → AllValues (Rests towns) (refresh_markets towns (d, changes) cids).0
  unfolding refresh_markets
  visit-refresh_markets d changes [] h = λ c m found. elim (h c m found) [
    | inl rests ↦ rests
    | inr ahead ↦ absurd (omega (arith, ahead))
  ]
  visit-refresh_markets d changes (cid ∷ cids) h =
      let next = refresh_found towns (d, changes) cid (lookup cid d) in
      visit-refresh_markets next.0 next.1 cids
        (visit-refresh_found d changes cid cids (lookup cid d) refl h)

  visit-sorted : (d : Dict TownMarket) → Visits towns d (sorted (keys d))
  visit-sorted d c m found =
      inr (omega (arith, lookup-occurs_pos c m d found, occurs-sorted c (keys d)))

-- Refreshing the demands of all markets a second time changes no market and reports no change.
pub refresh_market_demands-again :
    (towns : Dict Town) (markets : Dict TownMarket)
    → let refreshed = (refresh_market_demands towns markets).0 in
      refresh_market_demands towns refreshed ≡ (refreshed, [])
unfolding refresh_market_demands
refresh_market_demands-again towns markets =
    let after = (refresh_markets towns (markets, []) (sorted (keys markets))).0 in
    rest-refresh_markets towns after (sorted (keys after))
      (visit-refresh_markets towns markets [] (sorted (keys markets)) (visit-sorted towns markets))
