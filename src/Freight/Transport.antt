-- ===== src/Freight/Transport.antt =====
-- companion/tpf2mp/freight_transport.py: the cargo that lines have carried since the last snapshot.
-- `texts_ok` stands
-- for the prefix and the patterns of a row's texts, which are calls of `startswith` and `re`.
mod Rows
mod Commits
pub mod Staging
pub mod Outputs
pub mod Cursors
unfoldable pub use Rows.*
unfoldable pub use Commits.*
use tpf2mp.Base.{
  ℕ, ◌+◌, ◌-◌, ◌≤◌, min, String, Bool, true, false, not, ◌&&◌, ◌||◌, Option, none, some, List, [],
  ◌∷◌, any, leb, ltb, ◌==◌, str_eq, if◌then◌else◌, Result, ok, err, ◌>>=◌, ◌>>◌, raise_if,
}
use tpf2mp.Base.Dict.{Dict, lookup, insert, count_of}
use tpf2mp.Base.Sort.{leb_str, sort_rows}
use tpf2mp.Freight.Records.{
  Output, Industry, Hop, Contract, Line, TransportSummary, State, saturating_add_at, max_amount,
  FreightError, malformed_row, source_does_not_produce, unknown_destination, stock_refuses,
  contract_changed, moved_backwards, exceeds_output,
}
use tpf2mp.Freight.Store.{is_stock, fill_stock}

-- `apply_transport`, with the new state; `none` is the summary `skipped`.
unfoldable pub apply_transport :
    (String → Line → Bool)
    → State
    → Dict Line
    → Result FreightError (State × Option TransportSummary)
unfolding stage commit_all sort_rows
apply_transport texts_ok state cargo_lines =
    if not state.ready
    then ok (state, none)
    else stage texts_ok state (λ s c. 0) (sort_rows (λ a b. leb_str a.0 b.0) cargo_lines)
      >>= λ staged.
          let commit =
            commit_all (sort_rows (λ a b. leb_str a.line_cid b.line_cid) staged)
              (first_commit state) in
          ok (committed state commit, some commit.summary)
