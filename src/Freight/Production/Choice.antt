-- ===== src/Freight/Production/Choice.antt =====
-- One industry's turn in `advance` of freight.py: quota, choice of an alternative, and its cycles.
use native.Mathlib.Nat.{div-add-mod, mod-lt}
use mathlib.Core.Path.{subst, sym}
use tpf2mp.Base.{
  ℕ, ◌+◌, ◌*◌, ◌/◌, ◌≤◌, ◌≡◌, min, refl, String, false, List, [], ◌∷◌, All, arith, ltb, ◌==◌, ◌||◌,
  ◌&&◌, Bool-cases, inl, inr, ◌∙◌,
}
use tpf2mp.Base.Dict.{count_of}
use tpf2mp.Freight.Records.{Recipe, Requirement, Stock, Industry, IndustrySummary, max_accumulator}
use tpf2mp.Freight.Protocol.Sound.{Ascends, IsIndustry}
use tpf2mp.Freight.Production.{
  feasible, choose, consume, produce, run_cycles, advance_industry, numerator, is_nil, Work,
}
use tpf2mp.Freight.Production.Stocks.{
  amount_at, needs, Fits, feasible-le, feasible-Fits, consume_exact,
}
use tpf2mp.Freight.Production.Outputs.{
  makes, count_of-produce, Keeps, consume-Keeps, produce-Keeps, output_stock-consume,
  input_stock-produce,
}

-- What the choice of an alternative guarantees.
abbrev Chosen : ℕ → List Stock → ℕ × List Requirement → Type 0
Chosen quota stocks (cycles, alternative) =
    Ascends 0 alternative × Fits cycles stocks alternative × (cycles ≤ quota)

choose-Chosen :
    (quota : ℕ) (stocks : List Stock) (inputs : List (List Requirement))
    → All (Ascends 0) inputs
    → Chosen quota stocks (choose quota stocks inputs)
unfolding choose
choose-Chosen quota stocks [] h = (tt, tt, omega arith)
choose-Chosen quota stocks (alternative ∷ inputs) h =
    let cycles = feasible quota stocks alternative in
    elim (Bool-cases (ltb 0 cycles || (is_nil alternative && quota == 0))) [
      | inl runs ↦
          rw (choose, runs)
            (
              h.0,
              feasible-Fits quota 0 stocks alternative h.0,
              feasible-le quota stocks alternative,
            )
      | inr other ↦ rw (choose, other) (choose-Chosen quota stocks inputs h.1)
    ]

-- The alternative that runs in an epoch, and its cycles.
abbrev pub choice_of : ℕ → Industry → ℕ × List Requirement
choice_of quota industry = choose quota industry.input_stock industry.recipe.inputs

-- What an epoch does to an industry.
pub record Advanced (period : ℕ) (before after : Industry) (summary : IndustrySummary)
    : Type 0 where
  pub quota : summary.quota * 3600 + after.production_resid ≡ numerator period before
  pub cycles : (after.last_cycles ≤ summary.quota) × (summary.cycles ≡ after.last_cycles)
  pub taken :
      (index : ℕ)
      → amount_at index after.input_stock
          + after.last_cycles * needs index (choice_of summary.quota before).1
        ≡ amount_at index before.input_stock
  pub made :
      (cargo : String)
      → count_of cargo after.output_stock
        ≡ min max_accumulator (
            count_of cargo before.output_stock
            + after.last_cycles * makes cargo before.recipe.outputs)
  pub recipe : after.recipe ≡ before.recipe
  pub sound : IsIndustry after

module _ (cycles : ℕ) (alternative : List Requirement) (work : Work) where
  run_zero : cycles ≡ 0 → run_cycles (cycles, alternative) work ≡ work
  unfolding run_cycles
  run_zero e = rw e refl

  run_some :
      (cycles == 0) ≡ false
      → run_cycles (cycles, alternative) work
        ≡ produce cycles work.industry.recipe.outputs (consume cycles alternative work)
  unfolding run_cycles
  run_some e = rw e refl

  -- Consumption and production, where cycles run and where they do not.
  run_taken :
      (index : ℕ)
      → Ascends 0 alternative
      → Fits cycles work.industry.input_stock alternative
      → amount_at index (run_cycles (cycles, alternative) work).industry.input_stock
          + cycles * needs index alternative
        ≡ amount_at index work.industry.input_stock
  run_taken index h f = elim (Bool-cases (cycles == 0)) [
    | inl none_run ↦ let e : cycles ≡ 0 = ground arith in rw (run_zero e) (rw e (omega arith))
    | inr some_run ↦ rw (run_some some_run) (
        rw
          (input_stock-produce cycles work.industry.recipe.outputs
            (consume cycles alternative work))
          (consume_exact cycles 0 alternative work index h f))
  ]

  run_made :
      (cargo : String)
      → count_of cargo work.industry.output_stock ≤ max_accumulator
      → count_of cargo (run_cycles (cycles, alternative) work).industry.output_stock
        ≡ min max_accumulator (
            count_of cargo work.industry.output_stock
            + cycles * makes cargo work.industry.recipe.outputs)
  run_made cargo h = elim (Bool-cases (cycles == 0)) [
    | inl none_run ↦ let e : cycles ≡ 0 = ground arith in rw (run_zero e) (rw e (omega arith))
    | inr some_run ↦
        let consumed = consume cycles alternative work in
        let same = output_stock-consume cycles alternative work in
        rw (run_some some_run) (
          subst
            (λ stock.
              count_of cargo
                (produce cycles work.industry.recipe.outputs consumed).industry.output_stock
              ≡ min max_accumulator
                  (count_of cargo stock + cycles * makes cargo work.industry.recipe.outputs))
            same
            (count_of-produce cycles work.industry.recipe.outputs consumed cargo
              (subst (λ stock. count_of cargo stock ≤ max_accumulator) (sym same) h)))
  ]

  run-Keeps : Keeps work.industry (run_cycles (cycles, alternative) work).industry
  run-Keeps = elim (Bool-cases (cycles == 0)) [
    | inl none_run ↦
        let e : cycles ≡ 0 = ground arith in
        rw (run_zero e) (record { cid = refl; recipe = refl; stocks = λ h. h })
    | inr some_run ↦
        let consumed = consume cycles alternative work in
        let k = consume-Keeps cycles alternative work in
        let l = produce-Keeps cycles work.industry.recipe.outputs consumed in
        rw (run_some some_run) (record {
          cid = l.cid ∙ k.cid;
          recipe = l.recipe ∙ k.recipe;
          stocks = λ h. l.stocks (k.stocks h);
        })
  ]

-- Whatever the books, an epoch advances an industry.
pub advance_industry-Advanced :
    (period : ℕ) (work : Work)
    → IsIndustry work.industry
    → Advanced period work.industry
        (advance_industry period work).0.industry
        (advance_industry period work).1
unfolding advance_industry
advance_industry-Advanced period work h =
    let before = work.industry in
    let n = numerator period before in
    let choice = choice_of (n / 3600) before in
    let k = run-Keeps choice.0 choice.1 work in
    let chosen = choose-Chosen (n / 3600) before.input_stock before.recipe.inputs h.inputs in
    let made = λ (cargo : String). run_made choice.0 choice.1 work cargo (h.output cargo) in
    record {
      quota = omega (arith, div-add-mod n 3600);
      cycles = (chosen.2, refl);
      taken = λ index. run_taken choice.0 choice.1 work index chosen.0 chosen.1;
      made = made;
      recipe = k.recipe;
      sound = record {
        inputs = subst (λ (r : Recipe). All (Ascends 0) r.inputs) (sym k.recipe) h.inputs;
        stocks = k.stocks h.stocks;
        resid = mod-lt n (omega arith);
        output = λ cargo. omega (arith, made cargo);
      };
    }
