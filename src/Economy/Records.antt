-- ===== src/Economy/Records.antt =====
-- companion/tpf2mp/checkpoint.py, lines 674 to 727: the records of the economy, and the upserts that
-- normalise what a message says of a market or a service. The `metadata` of both, which this version
-- only copies, is left out.
pub mod Valid
use tpf2mp.Base.{
  ℕ, String, Bool, true, false, not, Option, none, some, if◌then◌else◌, or_else, Result, ok, err,
}
use tpf2mp.Base.Int.{ℤ, pos, pos_part, max_ℤ, min_ℤ}
use tpf2mp.Base.Dict.{Dict, contains, insert}

-- What `dict.get` finds in a decoded message, as `int()` sees it: no value, a Boolean, an integer,
-- a float or a text with the integer that `int()` makes of it, or a container.
pub data Value : Type 0 where
  absent container : Value
  flag : Bool → Value
  whole : ℤ → Value
  real text : Option ℤ → Value

abbrev pub int_of : Value → Option ℤ
int_of (whole n) = some n
int_of (real n) = n
int_of (text n) = n
int_of _ = none

abbrev at_least : Option ℤ → ℤ → ℤ
at_least none number = number
at_least (some low) number = max_ℤ low number

abbrev at_most : Option ℤ → ℤ → ℤ
at_most none number = number
at_most (some high) number = min_ℤ high number

-- `_integer`; a bound that is not given is `none`.
unfoldable pub integer : Value → ℤ → Option ℤ → Option ℤ → ℤ
integer value fallback low high =
    let number = or_else (int_of value) fallback in at_most high (at_least low number)

-- The same with both bounds, where the lower one is not negative.
unfoldable pub integer_within : Value → ℕ → ℕ → ℕ → ℕ
unfolding integer
integer_within value fallback low high =
    pos_part (integer value (pos fallback) (some (pos low)) (some (pos high)))

pub record Market : Type 0 where
  pub cid : String
  pub name : String
  pub demand : ℕ
  pub outside_weight : ℕ

pub record Service : Type 0 where
  pub line_cid : String
  pub market_cid : String
  pub company_cid : String
  pub name : String
  pub headway_seconds : ℕ
  pub journey_seconds : ℕ
  pub fare_cents : ℕ
  pub capacity : ℕ
  pub quality : ℕ
  pub enabled : Bool

pub record Economy : Type 0 where
  pub markets : Dict Market
  pub services : Dict Service
  pub epoch : ℕ

-- The payloads of the two upserts.
pub record MarketPayload : Type 0 where
  pub cid : String
  pub name : Option String
  pub demand : Value
  pub outside_weight : Value

pub record ServicePayload : Type 0 where
  pub line_cid : String
  pub market_cid : String
  pub company_cid : String
  pub name : Option String
  pub headway_seconds : Value
  pub journey_seconds : Value
  pub fare_cents : Value
  pub capacity : Value
  pub quality : Value
  pub enabled : Value

pub data ProtocolError : Type 0 where
  unknown_market : String → ProtocolError

unfoldable pub upsert_market : Economy → MarketPayload → Economy
unfolding integer_within
upsert_market economy market = record economy {
  markets =
      insert market.cid
        (record {
          cid = market.cid;
          name = or_else market.name market.cid;
          demand = integer_within market.demand 100 0 1_000_000_000;
          outside_weight = integer_within market.outside_weight 2500 1 1_000_000_000;
        })
        economy.markets;
}

abbrev is_false : Value → Bool
is_false (flag b) = not b
is_false _ = false

-- The record that `_upsert_service` stores.
unfoldable pub service_of : ServicePayload → Service
unfolding integer_within
service_of service = record {
  line_cid = service.line_cid;
  market_cid = service.market_cid;
  company_cid = service.company_cid;
  name = or_else service.name service.line_cid;
  headway_seconds = integer_within service.headway_seconds 1800 30 86400;
  journey_seconds = integer_within service.journey_seconds 3600 30 604800;
  fare_cents = integer_within service.fare_cents 1000 0 100_000_000;
  capacity = integer_within service.capacity 100 0 1_000_000_000;
  quality = integer_within service.quality 100 0 1000;
  enabled = not (is_false service.enabled);
}

unfoldable pub upsert_service : Economy → ServicePayload → Result ProtocolError Economy
upsert_service economy service =
    if not (contains service.market_cid economy.markets)
    then err (unknown_market service.market_cid)
    else ok (record economy {
      services = insert service.line_cid (service_of service) economy.services;
    })
