-- ===== src/Freight/Transport/Commits.antt =====
-- companion/tpf2mp/freight_transport.py, lines 156 to 185: the second loop, which moves the cargo.
use tpf2mp.Base.{ℕ, ◌+◌, ◌-◌, String, none, some, List, [], ◌∷◌, if◌then◌else◌}
use tpf2mp.Base.Dict.{Dict, lookup, insert, count_of}
use tpf2mp.Freight.Records.{Industry, Line, TransportSummary, State, saturating_add_at}
use tpf2mp.Freight.Store.{fill_stock}
use tpf2mp.Freight.Transport.Rows.{from_industry, to_industry, Staged}

-- What the second loop changes.
pub record Commit : Type 0 where
  pub industries : Dict Industry
  pub cursors : Dict Line
  pub total_transported : Dict ℕ
  pub total_delivered : Dict ℕ
  pub summary : TransportSummary

abbrev pub take_output : String → String → ℕ → Dict Industry → Dict Industry
take_output cid cargo n industries = elim (lookup cid industries) [
  | none ↦ industries
  | some industry ↦
      insert cid
        (record industry {
          output_stock =
              insert cargo (count_of cargo industry.output_stock - n) industry.output_stock;
        })
        industries
]

abbrev pub filled_industry : Industry → ℕ → String → ℕ → Industry
filled_industry industry index cargo n = elim (fill_stock index cargo n industry.input_stock) [
  | none ↦ industry
  | some (stocks, total) ↦ record industry { input_stock = stocks }
]

abbrev pub give_input : String → ℕ → String → ℕ → Dict Industry → Dict Industry
give_input cid index cargo n industries = elim (lookup cid industries) [
  | none ↦ industries
  | some industry ↦ insert cid (filled_industry industry index cargo n) industries
]

unfoldable pub commit_summary : Staged → TransportSummary → TransportSummary
commit_summary staged summary =
    let cargo = staged.contract.cargo_type in
    let n = staged.delivered_delta in
    let arrives = to_industry staged.contract in
    record {
      lines = if staged.persist_cursor then summary.lines + 1 else summary.lines;
      boarded = saturating_add_at cargo staged.boarded_delta summary.boarded;
      delivered =
          if arrives then saturating_add_at cargo n summary.delivered else summary.delivered;
      transferred =
          if arrives then summary.transferred else saturating_add_at cargo n summary.transferred;
    }

abbrev pub commit_one : Staged → Commit → Commit
commit_one staged commit =
    let contract = staged.contract in
    let cargo = contract.cargo_type in
    let sent =
      if from_industry contract
      then take_output contract.source_industry_cid cargo staged.boarded_delta commit.industries
      else commit.industries in
    let arrived =
      if to_industry contract
      then give_input contract.destination_industry_cid contract.destination_stock_index cargo
          staged.delivered_delta sent
      else sent in
    record {
      industries = arrived;
      cursors =
          if staged.persist_cursor
          then insert staged.line_cid staged.cursor commit.cursors
          else commit.cursors;
      total_transported = saturating_add_at cargo staged.boarded_delta commit.total_transported;
      total_delivered =
          if to_industry contract
          then saturating_add_at cargo staged.delivered_delta commit.total_delivered
          else commit.total_delivered;
      summary = commit_summary staged commit.summary;
    }

unfoldable pub commit_all : List Staged → Commit → Commit
unfolding commit_summary
commit_all [] commit = commit
commit_all (staged ∷ rest) commit = commit_all rest (commit_one staged commit)

abbrev pub first_commit : State → Commit
first_commit state = record {
  industries = state.industries;
  cursors = state.transport_cursors;
  total_transported = state.total_transported;
  total_delivered = state.total_delivered;
  summary = record { lines = 0; boarded = []; delivered = []; transferred = [] };
}

abbrev pub committed : State → Commit → State
committed state commit = record state {
  industries = commit.industries;
  transport_cursors = commit.cursors;
  total_transported = commit.total_transported;
  total_delivered = commit.total_delivered;
  last_transport = some commit.summary;
}
