-- ===== src/Economy/Tests.antt =====
-- Runs of the economy on small inputs, and the theorems at them.
use mathlib.Core.Option
use text.Mathlib.TextEquality.{eq_iff}
use tpf2mp.Base.{
  ℕ, ◌+◌, ◌*◌, ◌/◌, ◌≤◌, ◌≡◌, ◌≢◌, refl, String, true, false, none, some, List, [], ◌∷◌, arith, ok,
  str_eq,
}
use tpf2mp.Base.Int.{
  pos, negsuc, ◌+ℤ◌, ◌-ℤ◌, ◌*ℤ◌, ◌≤ℤ◌, ◌<ℤ◌, div_floor, neg, IsBetween, min_ℤ, max_ℤ,
}
use tpf2mp.Base.Dict.{lookup, count_of, total_of}
use tpf2mp.Economy.Amounts.{
  saturating_add, saturating_multiply, signed_add, period_charge, cost_charge, scaled_rate,
  wallet_delta_dollars, whole_dollars, difficulty_apply, glide_step, accumulator_limit,
  difficulty_scale,
}
use tpf2mp.Economy.Amounts.Exact.{
  period_charge_exact, difficulty_apply_exact, wallet_delta_dollars_exact,
}
use tpf2mp.Economy.Amounts.Glide.{glide_step_exact, glide_step_no_overshoot}
use tpf2mp.Economy.Logit.{logit_weight, logit_weight_with_cutoff, interpolate, weight_at}
use tpf2mp.Economy.Logit.Order.{logit_weight_antitone}
use tpf2mp.Economy.Records.{
  Market, Service, Economy, Value, MarketPayload, ServicePayload, upsert_market, upsert_service,
  service_of,
}
use tpf2mp.Economy.Records.Valid.{IsValid, Upserted, upsert_market-IsValid, upsert_service-IsValid}
use tpf2mp.Economy.Share.{Item, proportional}
use tpf2mp.Economy.Share.Total.{total_of-proportional}
use tpf2mp.Economy.Share.Quota.{proportional_quota}
use tpf2mp.Economy.Market.{
  evaluate_market, MarketResult, candidates, allocations_of, attractiveness, merge, assign,
}
use tpf2mp.Economy.Market.Outcome.{IsDict, RowsFit, allocated_in, evaluate_market_lem}
use tpf2mp.Economy.Settlement.{evaluate_all, Results}
use tpf2mp.Economy.Settlement.Totals.{Settles, evaluate_all-Settles}

saturates :
    (saturating_add (pos accumulator_limit) (pos 5) ≡ accumulator_limit)
    × (saturating_multiply (negsuc 2) (pos 7) ≡ 0)
    × (signed_add (negsuc 4) (pos 2) ≡ negsuc 2)
unfolding saturating_add saturating_multiply signed_add ◌+ℤ◌ ◌-ℤ◌
saturates = (refl, refl, refl)

charges :
    (cost_charge (pos 10000) (pos 8000) (pos 600) (pos 5) ≡ (2, 480))
    × (cost_charge (pos 10000) (pos 8000) (pos 600) (pos 6) ≡ (556, 3200))
    × (scaled_rate (pos 7) (pos 3599) 600 ≡ (2, 599))
unfolding cost_charge scaled_rate
charges = (refl, refl, refl)

-- A debt of 250 cents with 30 cents kept back pays -2 dollars and keeps -20 cents.
wallet_debt :
    wallet_delta_dollars (("red", pos 30) ∷ []) "red" (negsuc 249)
    ≡ ((negsuc 1, negsuc 19), ("red", negsuc 19) ∷ [])
unfolding wallet_delta_dollars whole_dollars ◌+ℤ◌ ◌-ℤ◌ ◌*ℤ◌ div_floor
wallet_debt = refl

glides : glide_step (pos 100) (pos 40) (pos 250) (pos 7) ≡ (pos 85, pos 7)
unfolding glide_step ◌+ℤ◌ ◌-ℤ◌ ◌*ℤ◌ div_floor
glides = refl

weighs : logit_weight (pos 1250) (pos 1000) 900 ≡ pos 50081
unfolding logit_weight logit_weight_with_cutoff weight_at interpolate ◌+ℤ◌ ◌-ℤ◌ ◌*ℤ◌ div_floor
weighs = refl

abbrev three : List Item
three = ("a", 5) ∷ ("b", 3) ∷ ("c", 3) ∷ []

shares : proportional 10 three ≡ ("a", 4) ∷ ("b", 3) ∷ ("c", 3) ∷ []
unfolding proportional
shares = refl

abbrev payload : MarketPayload
payload = record {
  cid = "market:1";
  name = none;
  demand = Value.whole (pos 100);
  outside_weight = Value.whole (pos 0);
}

abbrev line_payload : String → Value → ServicePayload
line_payload line capacity = record {
  line_cid = line;
  market_cid = "market:1";
  company_cid = "company:red";
  name = some "Express";
  headway_seconds = Value.whole (pos 600);
  journey_seconds = Value.absent;
  fare_cents = Value.text (some (pos 250));
  capacity = capacity;
  quality = Value.flag true;
  enabled = Value.absent;
}

abbrev start : Economy
start = record { markets = []; services = []; epoch = 0 }

-- An absent number takes its default, a Boolean is no number, and a weight of 0 is raised to 1.
upserts :
    upsert_service (upsert_market start payload) (line_payload "line:1" (Value.whole (negsuc 4)))
    ≡ ok (record {
      markets =
          (
            "market:1",
            record { cid = "market:1"; name = "market:1"; demand = 100; outside_weight = 1 },
          )
          ∷ [];
      services =
          (
            "line:1",
            record {
              line_cid = "line:1";
              market_cid = "market:1";
              company_cid = "company:red";
              name = "Express";
              headway_seconds = 600;
              journey_seconds = 3600;
              fare_cents = 250;
              capacity = 0;
              quality = 100;
              enabled = true;
            },
          )
          ∷ [];
      epoch = 0;
    })
unfolding upsert_service upsert_market service_of
upserts = refl

abbrev service : String → String → ℕ → Service
service line company capacity = record {
  line_cid = line;
  market_cid = "market:1";
  company_cid = company;
  name = line;
  headway_seconds = 600;
  journey_seconds = 3600;
  fare_cents = 250;
  capacity = capacity;
  quality = 100;
  enabled = true;
}

abbrev market : Market
market = record { cid = "market:1"; name = "North"; demand = 100; outside_weight = 2500 }

-- The first line is the more convenient one, and is full at 20.
abbrev economy : Economy
economy = record {
  markets = ("market:1", market) ∷ [];
  services =
      ("line:2", service "line:2" "company:blue" 900)
      ∷ ("line:1", service "line:1" "company:red" 20)
      ∷ [];
  epoch = 4;
}

evaluates :
    allocations_of market (candidates economy "market:1")
    ≡ some (("line:1", 20) ∷ ("~outside", 16) ∷ ("line:2", 64) ∷ [])
unfolding evaluate_market attractiveness proportional merge assign
evaluates = refl

abbrev revenue_and_epoch : Economy × Results → ℕ × ℕ
revenue_and_epoch (e, r) = (r.total_revenue_cents, r.epoch)

settles : Option.map revenue_and_epoch (evaluate_all economy) ≡ some (21000, 5)
unfolding evaluate_all evaluate_market attractiveness proportional merge assign
settles = refl

period_charge_exact_example : 556 * 10800 + 3200 ≡ 10000 * 600 + 8000
unfolding period_charge
period_charge_exact_example = period_charge_exact 10000 8000 600 (omega arith) (omega arith)

difficulty_apply_exact_example : 150 * difficulty_scale + 7 ≡ 100 * 1_500_000 + 7
unfolding difficulty_apply
difficulty_apply_exact_example =
    difficulty_apply_exact 100 1_500_000 7 (omega arith) (omega arith) (omega arith) (omega arith)

wallet_delta_dollars_exact_example :
    let ((dollars, residual), after) =
      wallet_delta_dollars (("red", pos 30) ∷ []) "red" (negsuc 249) in
    (dollars *ℤ pos 100 +ℤ residual ≡ negsuc 249 +ℤ pos 30)
    × (neg (pos 100) <ℤ residual)
    × (residual <ℤ pos 100)
    × (lookup "red" after ≡ some residual)
unfolding ◌+ℤ◌ ◌-ℤ◌
wallet_delta_dollars_exact_example =
    wallet_delta_dollars_exact (("red", pos 30) ∷ []) "red" (negsuc 249) (pos 30) refl (omega arith)
      (omega arith)

glide_step_exact_example :
    let (moved, carried) = glide_step (pos 100) (pos 40) (pos 250) (pos 7) in
    ((moved -ℤ pos 100) *ℤ pos 1000 +ℤ carried ≡ (pos 40 -ℤ pos 100) *ℤ pos 250 +ℤ pos 7)
    × (pos 0 ≤ℤ carried)
    × (carried <ℤ pos 1000)
glide_step_exact_example = glide_step_exact (pos 100) (pos 40) (pos 250) (pos 7)

glide_step_no_overshoot_example :
    IsBetween
      (min_ℤ (pos 100) (pos 40))
      (max_ℤ (pos 100) (pos 40))
      (glide_step (pos 100) (pos 40) (pos 250) (pos 7)).0
glide_step_no_overshoot_example =
    glide_step_no_overshoot (pos 100) (pos 40) 250 7 (omega arith) (omega arith)

logit_weight_antitone_example :
    logit_weight_with_cutoff (pos 1400) (pos 1000) 900 (pos 1)
    ≤ℤ logit_weight_with_cutoff (pos 1250) (pos 1000) 900 (pos 1)
logit_weight_antitone_example =
    logit_weight_antitone (pos 1000) 900 (pos 1) (pos 1250) (pos 1400) (omega arith) (omega arith)

total_of-proportional_example : total_of (proportional 10 three) ≡ 10
total_of-proportional_example =
    total_of-proportional 10 three (omega arith) (omega arith) (refl, (refl, (refl, tt)))

proportional_quota_example :
    (10 * 5 / 11 ≤ count_of "a" (proportional 10 three))
    × (count_of "a" (proportional 10 three) ≤ 10 * 5 / 11 + 1)
proportional_quota_example =
    proportional_quota 10 three "a" (omega arith) (omega arith) (refl, (refl, (refl, tt))) refl

start-IsValid : IsValid start
start-IsValid = record {
  markets = λ k v e. absurd (cc);
  services = λ k v e. absurd (cc);
  known = λ k v e. absurd (cc);
}

upsert_market-IsValid_example : IsValid (upsert_market start payload)
upsert_market-IsValid_example = upsert_market-IsValid start payload start-IsValid

upsert_service-IsValid_example :
    Upserted
      (upsert_market start payload)
      (line_payload "line:1" Value.absent)
      (upsert_service (upsert_market start payload) (line_payload "line:1" Value.absent))
upsert_service-IsValid_example =
    upsert_service-IsValid (upsert_market start payload) (line_payload "line:1" Value.absent)
      upsert_market-IsValid_example

not_same : (s t : String) → str_eq s t ≡ false → s ≢ t
not_same s t h e = cc ((eq_iff s t).1 e)

economy-IsDict : IsDict economy.services
economy-IsDict c = ground (
  arith,
  eq_iff "line:2" c,
  eq_iff "line:1" c,
  eq_iff "~outside" c,
  not_same "line:2" "line:1" refl,
  not_same "line:2" "~outside" refl,
  not_same "line:1" "~outside" refl,
)

evaluate_market_lem_example :
    (result : MarketResult) × (evaluate_market economy "market:1" market ≡ some result)
    × (result.demand ≡ 100)
    × (result.outside_demand + allocated_in result.services ≡ 100)
    × RowsFit (candidates economy "market:1") result.services
evaluate_market_lem_example =
    evaluate_market_lem economy "market:1" market economy-IsDict (omega arith)

evaluate_all-Settles_example : Settles economy (evaluate_all economy)
evaluate_all-Settles_example = evaluate_all-Settles economy economy-IsDict (omega arith, tt)
