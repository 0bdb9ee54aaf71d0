-- ===== src/Economy/Records/Valid.antt =====
-- The ranges of what `_upsert_market` and `_upsert_service` of checkpoint.py store.
use text.Mathlib.TextPositions.{eq_refl}
use tpf2mp.Base.{
  ℕ, ◌≤◌, ◌<◌, ◌≡◌, true, false, some, arith, refl, Bool-cases, inl, inr, Result, ok, err,
}
use tpf2mp.Base.Dict.{lookup, contains, lookup-insert, contains-insert, AllValues, AllValues-insert}
use tpf2mp.Economy.Records.{
  Value, integer_within, Market, Service, Economy, MarketPayload, ServicePayload, ProtocolError,
  unknown_market, service_of, upsert_market, upsert_service,
}

pub integer_within_range :
    (v : Value) (fallback low high : ℕ)
    → low ≤ high
    → (low ≤ integer_within v fallback low high) × (integer_within v fallback low high ≤ high)
unfolding integer_within
integer_within_range v fallback low high h = ground arith

-- The ranges of a market's numbers and of a service's.
pub record IsMarket (m : Market) : Type 0 where
  pub demand : m.demand ≤ 1_000_000_000
  pub weighs : 0 < m.outside_weight
  pub outside_weight : m.outside_weight ≤ 1_000_000_000

pub record IsService (s : Service) : Type 0 where
  pub headway : (30 ≤ s.headway_seconds) × (s.headway_seconds ≤ 86400)
  pub journey : (30 ≤ s.journey_seconds) × (s.journey_seconds ≤ 604800)
  pub fare : s.fare_cents ≤ 100_000_000
  pub capacity : s.capacity ≤ 1_000_000_000
  pub quality : s.quality ≤ 1000

-- Every market and service is in range, and every service serves a known market.
pub record IsValid (e : Economy) : Type 0 where
  pub markets : AllValues IsMarket e.markets
  pub services : AllValues IsService e.services
  pub known : AllValues (λ (s : Service). contains s.market_cid e.markets ≡ true) e.services

-- An upsert of a market keeps the economy valid.
pub upsert_market-IsValid :
    (e : Economy) (payload : MarketPayload) → IsValid e → IsValid (upsert_market e payload)
unfolding upsert_market
upsert_market-IsValid e payload h = record {
  markets =
      AllValues-insert IsMarket payload.cid _ e.markets
        (record {
          demand = (integer_within_range payload.demand 100 0 1_000_000_000 (omega arith)).1;
          weighs =
              (integer_within_range payload.outside_weight 2500 1 1_000_000_000 (omega arith)).0;
          outside_weight =
              (integer_within_range payload.outside_weight 2500 1 1_000_000_000 (omega arith)).1;
        })
        h.markets;
  services = h.services;
  known = λ k s found. contains-insert payload.cid s.market_cid _ e.markets (h.known k s found);
}

service_of-IsService : (payload : ServicePayload) → IsService (service_of payload)
unfolding service_of
service_of-IsService payload = record {
  headway = integer_within_range payload.headway_seconds 1800 30 86400 (omega arith);
  journey = integer_within_range payload.journey_seconds 3600 30 604800 (omega arith);
  fare = (integer_within_range payload.fare_cents 1000 0 100_000_000 (omega arith)).1;
  capacity = (integer_within_range payload.capacity 100 0 1_000_000_000 (omega arith)).1;
  quality = (integer_within_range payload.quality 100 0 1000 (omega arith)).1;
}

market_cid-service_of :
    (payload : ServicePayload) → (service_of payload).market_cid ≡ payload.market_cid
unfolding service_of
market_cid-service_of payload = refl

-- A service is refused for an unknown market alone, and is otherwise stored under its line.
abbrev pub Upserted : Economy → ServicePayload → Result ProtocolError Economy → Type 0
Upserted e payload (ok e') =
    IsValid e' × (lookup payload.line_cid e'.services ≡ some (service_of payload))
Upserted e payload (err (unknown_market cid)) =
    (cid ≡ payload.market_cid) × (contains payload.market_cid e.markets ≡ false)

-- An upsert of a service keeps the economy valid.
pub upsert_service-IsValid :
    (e : Economy) (payload : ServicePayload)
    → IsValid e
    → Upserted e payload (upsert_service e payload)
unfolding upsert_service
upsert_service-IsValid e payload h = elim (Bool-cases (contains payload.market_cid e.markets)) [
  | inr unknown ↦ rw unknown (refl, unknown)
  | inl known ↦ rw known (
    record {
      markets = h.markets;
      services =
          AllValues-insert IsService payload.line_cid _ e.services (service_of-IsService payload)
            h.services;
      known =
          AllValues-insert (λ (s : Service). contains s.market_cid e.markets ≡ true)
            payload.line_cid _ e.services (rw market_cid-service_of known) h.known;
    },
    rw lookup-insert (rw eq_refl),
  )
]
