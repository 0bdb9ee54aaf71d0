-- ===== src/Freight/Transport/Cursors.antt =====
-- The cursors of `apply_transport` in freight_transport.py.
use tpf2mp.Base.{
  ◌≤◌, ◌≡◌, refl, String, Bool, true, false, not, List, [], ◌∷◌, All, arith, Option, none, some,
  eq_iff, if◌then◌else◌, Result, ok, err, ◌>>=◌,
}
use tpf2mp.Base.Dict.{Dict, lookup, lookup-insert}
use tpf2mp.Base.Sort.{leb_str, sort_rows, All-sort_rows}
use tpf2mp.Freight.Records.{Line, State, FreightError, TransportSummary}
use tpf2mp.Freight.Transport.{
  Staged, prior, commit_one, commit_all, first_commit, Commit, committed, stage, apply_transport,
}
use tpf2mp.Freight.Transport.Staging.{Grows, stage-Grows}

-- The first dict's counts are at most the second's; a line without a cursor counts 0.
abbrev pub NotAbove : Dict Line → Dict Line → Type 0
NotAbove before after =
    (c : String)
    → ((prior (lookup c before)).0 ≤ (prior (lookup c after)).0)
      × ((prior (lookup c before)).1 ≤ (prior (lookup c after)).1)

abbrev pub Onward : State → Result FreightError (State × Option TransportSummary) → Type 0
Onward state (err e) = Unit
Onward state (ok (after, summary)) = NotAbove state.transport_cursors after.transport_cursors

module _ (texts_ok : String → Line → Bool) (state : State) where
  commit_one-NotAbove :
      (staged : Staged) (commit : Commit)
      → Grows texts_ok state staged
      → NotAbove state.transport_cursors commit.cursors
      → NotAbove state.transport_cursors (commit_one staged commit).cursors
  commit_one-NotAbove staged commit g h c = ground (
    arith,
    g,
    h c,
    eq_iff staged.line_cid c,
    lookup-insert staged.line_cid c staged.cursor commit.cursors,
  )

  commit_all-NotAbove :
      (staged : List Staged) (commit : Commit)
      → All (Grows texts_ok state) staged
      → NotAbove state.transport_cursors commit.cursors
      → NotAbove state.transport_cursors (commit_all staged commit).cursors
  unfolding commit_all
  commit_all-NotAbove [] commit g h = h
  commit_all-NotAbove (first ∷ staged) commit g h =
      commit_all-NotAbove staged (commit_one first commit) g.1
        (commit_one-NotAbove first commit g.0 h)

  -- No transport that succeeds lowers what any line's cursor counts, or loses a cursor's count.
  pub apply_transport-Onward :
      (lines : Dict Line) → Onward state (apply_transport texts_ok state lines)
  unfolding apply_transport
  apply_transport-Onward lines = go state.ready (stage texts_ok state (λ s c. 0) rows) refl
    where
      rows : Dict Line
      rows = sort_rows (λ a b. leb_str a.0 b.0) lines

      go :
          (is_ready : Bool) (staging : Result FreightError (List Staged))
          → stage texts_ok state (λ s c. 0) rows ≡ staging
          → Onward state (
              if not is_ready
              then ok (state, none)
              else staging >>= λ staged.
                  let commit =
                    commit_all
                      (sort_rows (λ a b. leb_str a.line_cid b.line_cid) staged)
                      (first_commit state) in
                  ok (committed state commit, some commit.summary))
      go false staging h = λ c. (omega arith, omega arith)
      go true (err e) h = tt
      go true (ok staged) h =
          commit_all-NotAbove (sort_rows (λ a b. leb_str a.line_cid b.line_cid) staged)
            (first_commit state)
            (All-sort_rows (λ a b. leb_str a.line_cid b.line_cid) (Grows texts_ok state) staged
              (stage-Grows texts_ok state (λ s c. 0) rows staged h))
            (λ c. (omega arith, omega arith))
