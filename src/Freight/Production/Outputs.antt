-- ===== src/Freight/Production/Outputs.antt =====
-- The outputs of `advance` in freight.py, and the parts of an industry that it keeps.
use tpf2mp.Base.{
  ℕ, suc, ◌+◌, ◌*◌, ◌≤◌, ◌≡◌, min, refl, String, List, [], ◌∷◌, arith, sum_by, eq_iff,
  if◌then◌else◌, str_eq, ◌∙◌,
}
use tpf2mp.Base.Dict.{Dict, count_of, lookup-insert}
use tpf2mp.Freight.Records.{
  Requirement, Stock, Output, Industry, max_accumulator, saturating_add_at,
}
use tpf2mp.Freight.Protocol.Sound.{Aligned}
use tpf2mp.Freight.Production.{take_stock, consume, consume_one, produce, produce_one, Work}

-- What one cycle makes of a cargo.
abbrev pub makes : String → List Output → ℕ
makes cargo outputs =
    sum_by (λ (output : Output). if str_eq output.cargo_type cargo then output.amount else 0)
      outputs

count_of-saturating_add_at :
    (k c : String) (n : ℕ) (d : Dict ℕ)
    → count_of c (saturating_add_at k n d)
      ≡ (if str_eq k c then min max_accumulator (count_of c d + n) else count_of c d)
count_of-saturating_add_at k c n d = rw lookup-insert (ground (arith, eq_iff k c))

saturated_once :
    (k c : String) (n : ℕ) (d : Dict ℕ)
    → count_of c d ≤ max_accumulator
    → count_of c (saturating_add_at k n d)
      ≡ min max_accumulator (count_of c d + (if str_eq k c then n else 0))
saturated_once k c n d h = ground (arith, count_of-saturating_add_at k c n d)

-- The output stock grows by what the cycles make, up to the accumulator's limit.
pub count_of-produce :
    (cycles : ℕ) (outputs : List Output) (work : Work) (cargo : String)
    → count_of cargo work.industry.output_stock ≤ max_accumulator
    → count_of cargo (produce cycles outputs work).industry.output_stock
      ≡ min max_accumulator
          (count_of cargo work.industry.output_stock + cycles * makes cargo outputs)
unfolding produce
count_of-produce cycles [] work cargo h = omega arith
count_of-produce cycles (output ∷ outputs) work cargo h =
    let stock = work.industry.output_stock in
    let once = saturated_once output.cargo_type cargo (cycles * output.amount) stock h in
    grind (
      arith,
      once,
      count_of-produce cycles outputs (produce_one cycles output work) cargo (omega (arith, once)),
    )

Aligned-take_stock :
    (first index n : ℕ) (stocks : List Stock)
    → Aligned first stocks
    → Aligned first (take_stock index n stocks)
unfolding take_stock
Aligned-take_stock first index n [] h = tt
Aligned-take_stock first index n (stock ∷ stocks) h =
    ground (arith, Aligned-take_stock (suc first) index n stocks)

-- What consumption and production keep of an industry.
pub record Keeps (before after : Industry) : Type 0 where
  pub cid : after.cid ≡ before.cid
  pub recipe : after.recipe ≡ before.recipe
  pub stocks : Aligned 0 before.input_stock → Aligned 0 after.input_stock

Keeps-trans : {a b c : Industry} → Keeps a b → Keeps b c → Keeps a c
Keeps-trans h k = record {
  cid = k.cid ∙ h.cid;
  recipe = k.recipe ∙ h.recipe;
  stocks = λ aligned. k.stocks (h.stocks aligned);
}

pub consume-Keeps :
    (cycles : ℕ) (requirements : List Requirement) (work : Work)
    → Keeps work.industry (consume cycles requirements work).industry
unfolding consume
consume-Keeps cycles [] work = record { cid = refl; recipe = refl; stocks = λ h. h }
consume-Keeps cycles (r ∷ requirements) work =
    Keeps-trans
      (record {
        cid = refl;
        recipe = refl;
        stocks = Aligned-take_stock 0 r.stock_index (cycles * r.amount) work.industry.input_stock;
      })
      (consume-Keeps cycles requirements (consume_one cycles r work))

pub output_stock-consume :
    (cycles : ℕ) (requirements : List Requirement) (work : Work)
    → (consume cycles requirements work).industry.output_stock ≡ work.industry.output_stock
unfolding consume
output_stock-consume cycles [] work = refl
output_stock-consume cycles (r ∷ requirements) work =
    output_stock-consume cycles requirements (consume_one cycles r work)

pub input_stock-produce :
    (cycles : ℕ) (outputs : List Output) (work : Work)
    → (produce cycles outputs work).industry.input_stock ≡ work.industry.input_stock
unfolding produce
input_stock-produce cycles [] work = refl
input_stock-produce cycles (output ∷ outputs) work =
    input_stock-produce cycles outputs (produce_one cycles output work)

pub produce-Keeps :
    (cycles : ℕ) (outputs : List Output) (work : Work)
    → Keeps work.industry (produce cycles outputs work).industry
unfolding produce
produce-Keeps cycles [] work = record { cid = refl; recipe = refl; stocks = λ h. h }
produce-Keeps cycles (output ∷ outputs) work =
    Keeps-trans (record { cid = refl; recipe = refl; stocks = λ h. h })
      (produce-Keeps cycles outputs (produce_one cycles output work))
