-- ===== src/Freight/Store/Withdrawals.antt =====
-- `withdraw_output` of freight.py on each of its outcomes.
use tpf2mp.Base.{
  ℕ, ◌+◌, ◌<◌, ◌≡◌, String, false, none, some, ◌-◌, arith, ◌&&◌, leb, ltb, eq_iff, str_eq,
  if◌then◌else◌, Bool-cases, Option-cases, inl, inr, Result, ok, err,
}
use tpf2mp.Base.Dict.{lookup, insert, count_of, lookup-insert, AllValues-insert}
use tpf2mp.Freight.Records.{
  max_amount, Industry, State, FreightError, unknown_industry, insufficient_output,
  invalid_withdrawal,
}
use tpf2mp.Freight.Protocol.Sound.{IsIndustry, IsSound}
use tpf2mp.Freight.Store.{with_industry, withdraw_output}
use tpf2mp.Freight.Store.Deposits.{output_of}

abbrev pub Withdrawn : State → String → String → ℕ → Result FreightError (State × ℕ) → Type 0
Withdrawn state cid cargo amount (ok (after, left)) =
    IsSound after
    × (left + amount ≡ output_of state cid cargo)
    × ((c k : String)
        → output_of after c k
          ≡ (if str_eq cid c && str_eq cargo k then left else output_of state c k))
Withdrawn state cid cargo amount (err invalid_withdrawal) =
    (state.ready && leb 1 amount && leb amount max_amount) ≡ false
Withdrawn state cid cargo amount (err unknown_industry) = lookup cid state.industries ≡ none
Withdrawn state cid cargo amount (err insufficient_output) = output_of state cid cargo < amount
Withdrawn state cid cargo amount (err _) = ⊥

-- A withdrawal from a sound state either takes the amount from the one output it names and leaves a
-- sound state whose other outputs are as before, or is refused for the reason it gives.
pub withdraw_output_lem :
    (state : State) (cid cargo : String) (amount : ℕ)
    → IsSound state
    → Withdrawn state cid cargo amount (withdraw_output state cid cargo amount)
unfolding withdraw_output
withdraw_output_lem state cid cargo amount sound =
    elim (Bool-cases (state.ready && leb 1 amount && leb amount max_amount)) [
      | inr refused ↦ rw refused refused
      | inl allowed ↦ elim (Option-cases (lookup cid state.industries)) [
        | inl absent ↦ rw (allowed, absent) absent
        | inr (industry, present) ↦
            elim (Bool-cases (ltb (count_of cargo industry.output_stock) amount)) [
              | inl short ↦ rw (allowed, present, short) (rw (output_of, present) (ground arith))
              | inr enough ↦
                  rw (allowed, present, enough)
                    (taken_of state cid cargo amount industry sound present enough)
            ]
      ]
    ]
  where
    taken_of :
        (state : State) (cid cargo : String) (amount : ℕ) (industry : Industry)
        → IsSound state
        → lookup cid state.industries ≡ some industry
        → ltb (count_of cargo industry.output_stock) amount ≡ false
        → let left = count_of cargo industry.output_stock - amount in
          Withdrawn state cid cargo amount (
            ok (
              with_industry state cid
                  (record industry { output_stock = insert cargo left industry.output_stock }),
              left,
            ))
    taken_of state cid cargo amount industry sound present enough =
        let left = count_of cargo industry.output_stock - amount in
        let after = record industry { output_stock = insert cargo left industry.output_stock } in
        let valid = sound cid industry present in
        (
          AllValues-insert IsIndustry cid after state.industries
              (record {
                inputs = valid.inputs;
                stocks = valid.stocks;
                resid = valid.resid;
                output = λ k. ground (
                  arith,
                  valid.output k,
                  valid.output cargo,
                  lookup-insert cargo k left industry.output_stock,
                  eq_iff cargo k,
                );
              })
              sound,
          rw (output_of, present) (ground arith),
          λ c k. ground (
            arith,
            lookup-insert cid c after state.industries,
            lookup-insert cargo k left industry.output_stock,
            eq_iff cid c,
            eq_iff cargo k,
            present,
          ),
        )
