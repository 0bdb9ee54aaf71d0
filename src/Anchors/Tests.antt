-- ===== src/Anchors/Tests.antt =====
-- Runs of the anchor history.
use tpf2mp.Base.{ℕ, ◌≡◌, refl, String, true, false, List, [], ◌∷◌}
use tpf2mp.Base.Sort.{sort_rows}
use tpf2mp.Anchors.{
  Message, no_history, index, index_all, reindex, refresh, index_range, checkpoint_outcome,
  work_after,
}
use tpf2mp.Anchors.Incremental.{host_of, full}
use tpf2mp.Anchors.Stream.{Step, appended, refreshed, run, refresh_lem}

abbrev message : String → ℕ → Message
message action boundary = record {
  kind = "commit";
  origin_peer = "red";
  action_type = action;
  success = true;
  boundary_seq = boundary;
  has_save = true;
  has_metadata = false;
}

abbrev steps : List Step
steps =
    appended (message "track.build" 0)
    ∷ refreshed
    ∷ appended (message "network.checkpoint_outcome" 1)
    ∷ appended (message "recovery.save_receipt" 1)
    ∷ []

refresh_lem_example :
    refresh
      (host_of "red" (run "red" steps ([], no_history)).0)
      (run "red" steps ([], no_history)).1
    ≡ full "red" (run "red" steps ([], no_history)).0
refresh_lem_example = refresh_lem "red" steps

-- The checkpoint's outcome is commit 2, and the receipt after it is no work.
outcomes : checkpoint_outcome 1 (full "red" (run "red" steps ([], no_history)).0) ≡ 2
unfolding reindex index_all index refresh index_range sort_rows
outcomes = refl

idle : work_after 2 (full "red" (run "red" steps ([], no_history)).0) ≡ false
unfolding reindex index_all index refresh index_range sort_rows
idle = refl
