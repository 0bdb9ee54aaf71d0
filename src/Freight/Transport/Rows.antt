-- ===== src/Freight/Transport/Rows.antt =====
-- companion/tpf2mp/freight_transport.py, lines 12 to 154: the checks of the rows, and the first loop,
-- which stages all of them before anything of the state is changed.
use tpf2mp.Base.{
  ℕ, ◌+◌, ◌-◌, String, Bool, true, false, not, ◌&&◌, ◌||◌, Option, none, some, List, [], ◌∷◌, any,
  leb, ltb, ◌==◌, str_eq, if◌then◌else◌, Result, ok, err, ◌>>=◌, ◌>>◌, raise_if,
}
use tpf2mp.Base.Dict.{Dict, lookup, count_of}
use tpf2mp.Freight.Records.{
  Output, Industry, Hop, Contract, Line, State, max_amount, FreightError, malformed_row,
  source_does_not_produce, unknown_destination, stock_refuses, contract_changed, moved_backwards,
  exceeds_output,
}
use tpf2mp.Freight.Store.{is_stock}

abbrev pub from_industry : Contract → Bool
from_industry contract = elim contract.multihop [ none ↦ true | some hop ↦ hop.source_is_industry ]

abbrev pub to_industry : Contract → Bool
to_industry contract = elim contract.multihop [
  | none ↦ true
  | some hop ↦ hop.destination_is_industry
]

abbrev hop_ok : Option Hop → Bool
hop_ok none = true
hop_ok (some hop) = ltb hop.leg_index hop.leg_count && leb hop.leg_count 16

-- The long condition of a malformed row, after its texts.
unfoldable pub row_ok : Line → Bool
row_ok row =
    let contract = row.contract in
    not (str_eq contract.source_industry_cid contract.destination_industry_cid)
    && ltb contract.destination_stock_index 32
    && leb row.delivered_units row.boarded_units
    && leb row.boarded_units max_amount
    && hop_ok contract.multihop

-- `_identity(cursor) == _identity(row)`
abbrev pub same_hop : Option Hop → Option Hop → Bool
same_hop none none = true
same_hop (some a) (some b) =
    str_eq a.path_digest b.path_digest
    && a.leg_index == b.leg_index
    && a.leg_count == b.leg_count
    && (a.source_is_industry && b.source_is_industry
        || not a.source_is_industry && not b.source_is_industry)
    && (a.destination_is_industry && b.destination_is_industry
        || not a.destination_is_industry && not b.destination_is_industry)
    && str_eq a.source_station_group_cid b.source_station_group_cid
    && str_eq a.destination_station_group_cid b.destination_station_group_cid
same_hop _ _ = false

unfoldable pub same_identity : Contract → Contract → Bool
same_identity a b =
    str_eq a.contract_digest b.contract_digest
    && str_eq a.source_industry_cid b.source_industry_cid
    && str_eq a.destination_industry_cid b.destination_industry_cid
    && a.destination_stock_index == b.destination_stock_index
    && str_eq a.cargo_type b.cargo_type
    && same_hop a.multihop b.multihop

-- `_output_matches(industries.get(source_cid), cargo_type)`
abbrev output_matches : String → Option Industry → Bool
output_matches cargo none = false
output_matches cargo (some industry) =
    any (λ (output : Output). str_eq output.cargo_type cargo) industry.recipe.outputs

-- The checks of the destination, where it is an industry.
abbrev check_destination : Contract → Option Industry → Result FreightError (Unit {0})
check_destination contract none = err unknown_destination
check_destination contract (some industry) =
    raise_if
      (not
        (any (is_stock contract.destination_stock_index contract.cargo_type) industry.input_stock))
      stock_refuses

-- The counts of a cursor; a line without one starts at 0.
abbrev pub prior : Option Line → ℕ × ℕ
prior none = (0, 0)
prior (some cursor) = (cursor.boarded_units, cursor.delivered_units)

abbrev same_contract : Line → Option Line → Bool
same_contract row none = true
same_contract row (some cursor) = same_identity cursor.contract row.contract

abbrev moved_cursor : Line → Option Line → Line
moved_cursor row none = row
moved_cursor row (some cursor) = record cursor {
  boarded_units = row.boarded_units;
  delivered_units = row.delivered_units;
}

abbrev has_cursor : Option Line → Bool
has_cursor none = false
has_cursor (some cursor) = true

pub record Staged : Type 0 where
  pub line_cid : String
  pub contract : Contract
  pub cursor : Line
  pub boarded_delta : ℕ
  pub delivered_delta : ℕ
  pub persist_cursor : Bool

abbrev pub staged_of : State → String × Line → Staged
staged_of state (line_cid, row) =
    let cursor = lookup line_cid state.transport_cursors in
    record {
      line_cid = line_cid;
      contract = row.contract;
      cursor = moved_cursor row cursor;
      boarded_delta = row.boarded_units - (prior cursor).0;
      delivered_delta = row.delivered_units - (prior cursor).1;
      persist_cursor = has_cursor cursor || ltb 0 row.boarded_units || ltb 0 row.delivered_units;
    }

-- `int(source.get("outputStock", {}).get(cargo_type, 0))`
abbrev pub available : Dict Industry → String → String → ℕ
available industries cid cargo = elim (lookup cid industries) [
  | none ↦ 0
  | some industry ↦ count_of cargo industry.output_stock
]

-- What the lines staged so far take from each source of each cargo.
abbrev pub Aggregate : Type 0
Aggregate = String → String → ℕ

abbrev pub add_claim : String → String → ℕ → Aggregate → Aggregate
add_claim cid cargo n aggregate =
    λ s c. aggregate s c + (if str_eq cid s && str_eq cargo c then n else 0)

module _ (texts_ok : String → Line → Bool) (state : State) where
  -- The checks of one row, up to its cursor.
  unfoldable pub check_line : String × Line → Result FreightError (Unit {0})
  unfolding row_ok same_identity
  check_line (line_cid, row) =
      let contract = row.contract in
      let cursor = lookup line_cid state.transport_cursors in
      raise_if (not (texts_ok line_cid row && row_ok row)) malformed_row
      >> raise_if
          (from_industry contract
            && not (
                output_matches contract.cargo_type
                  (lookup contract.source_industry_cid state.industries)))
          source_does_not_produce
      >> (if to_industry contract
          then check_destination contract
              (lookup contract.destination_industry_cid state.industries)
          else ok tt)
      >> raise_if (not (same_contract row cursor)) contract_changed
      >> raise_if
          (ltb row.boarded_units (prior cursor).0 || ltb row.delivered_units (prior cursor).1)
          moved_backwards

  -- The aggregate over all lines of one source must be there.
  unfoldable pub reserve : Staged → Aggregate → Result FreightError Aggregate
  reserve staged aggregate =
      let source = staged.contract.source_industry_cid in
      let cargo = staged.contract.cargo_type in
      let next = add_claim source cargo staged.boarded_delta aggregate in
      if not (from_industry staged.contract)
      then ok aggregate
      else if ltb (available state.industries source cargo) (next source cargo)
      then err exceeds_output
      else ok next

  -- The first loop.
  unfoldable pub stage : Aggregate → List (String × Line) → Result FreightError (List Staged)
  unfolding check_line reserve
  stage aggregate [] = ok []
  stage aggregate (line ∷ lines) = do
    check_line line
    next ← reserve (staged_of state line) aggregate
    rest ← stage next lines
    ok (staged_of state line ∷ rest)
