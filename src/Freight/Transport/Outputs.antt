-- ===== src/Freight/Transport/Outputs.antt =====
-- The source stocks of `apply_transport` in freight_transport.py.
use tpf2mp.Base.{
  ℕ, ◌+◌, ◌-◌, ◌≤◌, ◌≡◌, refl, ap, ◌∙◌, String, Bool, true, false, not, ◌&&◌, Option, none, some,
  List, [], ◌∷◌, arith, sum_by, sum_by-map, str_eq, if◌then◌else◌, Result, ok, err, ◌>>=◌,
  Option-cases, inl, inr, eq_iff,
}
use tpf2mp.Base.Dict.{Dict, lookup, insert, count_of, lookup-insert}
use tpf2mp.Base.Sort.{leb_str, sort_rows, sum_by-sort_rows}
use tpf2mp.Freight.Records.{Industry, Hop, Line, State, FreightError, TransportSummary}
use tpf2mp.Freight.Store.{fill_stock}
use tpf2mp.Freight.Transport.{
  Staged, staged_of, available, take_output, give_input, filled_industry, commit_one, commit_all,
  first_commit, Commit, committed, stage, apply_transport,
}
use tpf2mp.Freight.Transport.Staging.{claim, stage-map, stage-within}

available-take_output :
    (cid cargo s c : String) (n : ℕ) (industries : Dict Industry)
    → available (take_output cid cargo n industries) s c
      ≡ available industries s c - (if str_eq cid s && str_eq cargo c then n else 0)
available-take_output cid cargo s c n industries = elim (Option-cases (lookup cid industries)) [
  | inl absent ↦ rw (take_output, absent) (ground (arith, eq_iff cid s))
  | inr (industry, present) ↦
      let left = count_of cargo industry.output_stock - n in
      rw (take_output, present)
        (ground (
          arith,
          eq_iff cid s,
          eq_iff cargo c,
          present,
          lookup-insert cid s
              (record industry { output_stock = insert cargo left industry.output_stock })
              industries,
          lookup-insert cargo c left industry.output_stock,
        ))
]

output_stock-filled_industry :
    (industry : Industry) (index : ℕ) (cargo : String) (n : ℕ)
    → (filled_industry industry index cargo n).output_stock ≡ industry.output_stock
output_stock-filled_industry industry index cargo n =
    elim (Option-cases (fill_stock index cargo n industry.input_stock)) [
      | inl refused ↦ rw (filled_industry, refused) refl
      | inr (found, filled) ↦ rw (filled_industry, filled) refl
    ]

available-give_input :
    (cid : String) (index : ℕ) (cargo : String) (n : ℕ) (industries : Dict Industry) (s c : String)
    → available (give_input cid index cargo n industries) s c ≡ available industries s c
available-give_input cid index cargo n industries s c =
    elim (Option-cases (lookup cid industries)) [
      | inl absent ↦ rw (give_input, absent) refl
      | inr (industry, present) ↦
          rw (give_input, present)
            (ground (
              arith,
              eq_iff cid s,
              present,
              lookup-insert cid s (filled_industry industry index cargo n) industries,
              output_stock-filled_industry industry index cargo n,
            ))
    ]

available-commit_one :
    (staged : Staged) (commit : Commit) (s c : String)
    → available (commit_one staged commit).industries s c
      ≡ available commit.industries s c - claim s c staged
available-commit_one staged commit s c =
    let contract = staged.contract in
    let sent =
      take_output contract.source_industry_cid contract.cargo_type staged.boarded_delta
        commit.industries in
    ground (
      arith,
      available-take_output contract.source_industry_cid contract.cargo_type s c
          staged.boarded_delta commit.industries,
      available-give_input contract.destination_industry_cid contract.destination_stock_index
          contract.cargo_type staged.delivered_delta sent s c,
      available-give_input contract.destination_industry_cid contract.destination_stock_index
          contract.cargo_type staged.delivered_delta commit.industries s c,
    )

-- Where the claims are covered, each is taken in full.
available-commit_all :
    (staged : List Staged) (commit : Commit) (s c : String)
    → sum_by (claim s c) staged ≤ available commit.industries s c
    → available (commit_all staged commit).industries s c + sum_by (claim s c) staged
      ≡ available commit.industries s c
unfolding commit_all
available-commit_all [] commit s c h = omega arith
available-commit_all (first ∷ staged) commit s c h =
    let once = available-commit_one first commit s c in
    omega
      (arith, once, available-commit_all staged (commit_one first commit) s c (omega (arith, once)))

-- Whether a contract takes its cargo from an industry's output stock.
abbrev from_stock : Option Hop → Bool
from_stock none = true
from_stock (some hop) = hop.source_is_industry

-- What the cursor of a line counts as boarded, 0 for a line without one.
abbrev boarded_before : State → String → ℕ
boarded_before state line_cid = elim (lookup line_cid state.transport_cursors) [
  | none ↦ 0
  | some cursor ↦ cursor.boarded_units
]

-- What a row of the snapshot takes from a source of a cargo: the units that the row counts as boarded
-- less those that the cursor of its line counts, where the source and the cargo are the row's.
abbrev pub boarded_since : State → String → String → String × Line → ℕ
boarded_since state s c (line_cid, row) =
    if from_stock row.contract.multihop
      && str_eq row.contract.source_industry_cid s
      && str_eq row.contract.cargo_type c
    then row.boarded_units - boarded_before state line_cid
    else 0

claim-boarded_since :
    (state : State) (s c line_cid : String) (row : Line)
    → claim s c (staged_of state (line_cid, row)) ≡ boarded_since state s c (line_cid, row)
claim-boarded_since state s c line_cid row =
    elim (Option-cases (lookup line_cid state.transport_cursors)) [
      | inl fresh ↦ elim (Option-cases row.contract.multihop) [
        | inl direct ↦ rw (fresh, direct) (ground arith)
        | inr (hop, leg) ↦ rw (fresh, leg) (ground arith)
      ]
      | inr (cursor, known) ↦ elim (Option-cases row.contract.multihop) [
        | inl direct ↦ rw (known, direct) (ground arith)
        | inr (hop, leg) ↦ rw (known, leg) (ground arith)
      ]
    ]

sum_by-boarded_since :
    (state : State) (s c : String) (lines : List (String × Line))
    → sum_by (λ line. claim s c (staged_of state line)) lines
      ≡ sum_by (boarded_since state s c) lines
sum_by-boarded_since state s c [] = refl
sum_by-boarded_since state s c ((line_cid, row) ∷ lines) =
    omega (arith, claim-boarded_since state s c line_cid row, sum_by-boarded_since state s c lines)

-- What a transport does to the sources, on every outcome.
abbrev pub Transported :
    State → Dict Line → Result FreightError (State × Option TransportSummary) → Type 0
Transported state lines (err e) = state.ready ≡ true
Transported state lines (ok (after, none)) = (state.ready ≡ false) × (after ≡ state)
Transported state lines (ok (after, some summary)) =
    (s c : String)
    → available after.industries s c + sum_by (boarded_since state s c) lines
      ≡ available state.industries s c

module _ (texts_ok : String → Line → Bool) (state : State) (lines : Dict Line) where
  abbrev rows : Dict Line
  rows = sort_rows (λ a b. leb_str a.0 b.0) lines

  staged_taken :
      (staged : List Staged) (s c : String)
      → stage texts_ok state (λ s c. 0) rows ≡ ok staged
      → available
            (commit_all
              (sort_rows (λ a b. leb_str a.line_cid b.line_cid) staged)
              (first_commit state)).industries
            s
            c
          + sum_by (boarded_since state s c) lines
        ≡ available state.industries s c
  staged_taken staged s c h =
      let ordered = sort_rows (λ (a b : Staged). leb_str a.line_cid b.line_cid) staged in
      let all_rows : sum_by (claim s c) staged ≡ sum_by (boarded_since state s c) rows =
        ap (sum_by (claim s c)) (stage-map texts_ok state (λ s c. 0) rows staged h)
        ∙ sum_by-map (claim s c) (staged_of state) rows
        ∙ sum_by-boarded_since state s c rows in
      let same_rows = sum_by-sort_rows (λ a b. leb_str a.0 b.0) (boarded_since state s c) lines in
      let same_claims =
        sum_by-sort_rows (λ (a b : Staged). leb_str a.line_cid b.line_cid) (claim s c) staged in
      let covered = stage-within texts_ok state (λ s c. 0) rows staged s c h (omega arith) in
      let taken =
        available-commit_all ordered (first_commit state) s c
          (omega (arith, same_claims, covered)) in
      omega (arith, taken, all_rows, same_rows, same_claims)

  -- A transport that succeeds takes from every source of every cargo exactly what the lines boarded
  -- there since their cursors. It does nothing to a state that is not ready, and fails only on one
  -- that is.
  pub apply_transport_lem : Transported state lines (apply_transport texts_ok state lines)
  unfolding apply_transport
  apply_transport_lem = go state.ready refl (stage texts_ok state (λ s c. 0) rows) refl
    where
      go :
          (is_ready : Bool)
          → state.ready ≡ is_ready
          → (staging : Result FreightError (List Staged))
          → stage texts_ok state (λ s c. 0) rows ≡ staging
          → Transported state lines (
              if not is_ready
              then ok (state, none)
              else staging >>= λ staged.
                  let commit =
                    commit_all
                      (sort_rows (λ a b. leb_str a.line_cid b.line_cid) staged)
                      (first_commit state) in
                  ok (committed state commit, some commit.summary))
      go false idle staging h = (idle, refl)
      go true ready (err e) h = ready
      go true ready (ok staged) h = λ s c. staged_taken staged s c h
