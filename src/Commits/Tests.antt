-- ===== src/Commits/Tests.antt =====
-- Runs of the commit index.
use tpf2mp.Base.{◌≡◌, refl, List, [], ◌∷◌}
use tpf2mp.Commits.{
  new_index, climb, advance, ensure, remember, last_contiguous, Event, arrived, asked, run,
}
use tpf2mp.Commits.Contiguous.{IsEnd, last_contiguous_lem}

abbrev events : List Event
events = asked ∷ arrived 4 ∷ arrived 3 ∷ arrived 7 ∷ []

-- Commits 1 and 2 were there; with 3 and 4 the sequence is unbroken up to 4, and 7 waits for 5 and 6.
catches_up :
    (last_contiguous
      (run events (2 ∷ 1 ∷ [], new_index)).0
      (run events (2 ∷ 1 ∷ [], new_index)).1).0
    ≡ 4
unfolding run ensure remember advance climb
catches_up = refl

last_contiguous_lem_example :
    IsEnd
      (run events (2 ∷ 1 ∷ [], new_index)).0
      (last_contiguous
        (run events (2 ∷ 1 ∷ [], new_index)).0
        (run events (2 ∷ 1 ∷ [], new_index)).1).0
last_contiguous_lem_example = last_contiguous_lem (2 ∷ 1 ∷ []) events
