-- ===== src/Anchors/Stream.antt =====
-- `refresh` of anchor_history.py along a history that grows.
use mathlib.Core.Path.{subst, sym}
use tpf2mp.Base.{◌≡◌, refl, ap, ◌∙◌, String, List, [], ◌∷◌, ◌++◌}
use tpf2mp.Anchors.{Message, History, no_history, reindex, refresh}
use tpf2mp.Anchors.Incremental.{append_assoc, host_of, full, refresh-full}

-- What happens: the host commits a message, or the index is refreshed for a query.
pub data Step : Type 0 where
  appended : Message → Step
  refreshed : Step

append_nil : (xs : List Message) → xs ++ [] ≡ xs
append_nil [] = refl
append_nil (x ∷ xs) = ap (λ l. x ∷ l) (append_nil xs)

module _ (peer : String) where
  abbrev happen : Step → List Message × History → List Message × History
  happen (appended m) (messages, h) = (messages ++ m ∷ [], h)
  happen refreshed (messages, h) = (messages, refresh (host_of peer messages) h)

  abbrev pub run : List Step → List Message × History → List Message × History
  run [] world = world
  run (step ∷ steps) world = run steps (happen step world)

  -- The index is that of some first messages.
  abbrev Behind : List Message × History → Type 0
  Behind (messages, h) =
      (before : List Message) × (after : List Message) × (messages ≡ before ++ after)
      × (h ≡ full peer before)

  refresh-Behind :
      (messages : List Message) (h : History)
      → Behind (messages, h)
      → refresh (host_of peer messages) h ≡ full peer messages
  refresh-Behind messages h (before, after, e, f) =
      ap (refresh (host_of peer messages)) f
      ∙ subst (λ all. refresh (host_of peer all) (full peer before) ≡ full peer all) (sym e)
          (refresh-full peer before after)

  happen-Behind :
      (step : Step) (world : List Message × History) → Behind world → Behind (happen step world)
  happen-Behind (appended m) (messages, h) (before, after, e, f) =
      (before, after ++ m ∷ [], ap (λ l. l ++ m ∷ []) e ∙ append_assoc before after (m ∷ []), f)
  happen-Behind refreshed (messages, h) behind =
      (messages, [], sym (append_nil messages), refresh-Behind messages h behind)

  run-Behind :
      (steps : List Step) (world : List Message × History) → Behind world → Behind (run steps world)
  run-Behind [] world h = h
  run-Behind (step ∷ steps) world h =
      run-Behind steps (happen step world) (happen-Behind step world h)

  nothing_yet : no_history ≡ full peer []
  unfolding reindex
  nothing_yet = refl

  -- After any commits and refreshes, from an index that has seen nothing, a refresh makes the index of
  -- the whole history.
  pub refresh_lem :
      (steps : List Step)
      → refresh (host_of peer (run steps ([], no_history)).0) (run steps ([], no_history)).1
        ≡ full peer (run steps ([], no_history)).0
  refresh_lem steps =
      refresh-Behind (run steps ([], no_history)).0 (run steps ([], no_history)).1
        (run-Behind steps ([], no_history) ([], [], refl, nothing_yet))
