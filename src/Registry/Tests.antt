-- ===== src/Registry/Tests.antt =====
-- Runs of the registry index.
use tpf2mp.Base.{◌≡◌, refl, none, some, [], ◌∷◌}
use tpf2mp.Base.Sort.{sort_rows}
use tpf2mp.Registry.{Trackers, Entry, scan, pending_items, pending}
use tpf2mp.Registry.Cached.{Reaches, start, next, settled, asked, pending_items_lem}

abbrev early : Trackers
early = (5, "pending") ∷ (3, "pending") ∷ []

abbrev entry : Entry
entry = record { length = 2; keys = 3 ∷ 5 ∷ [] }

abbrev late : Trackers
late = (5, "pending") ∷ (3, "complete") ∷ []

asks : (pending_items early none).1 ≡ entry
unfolding pending_items scan sort_rows
asks = refl

reached : Reaches (late, some (pending_items early none).1)
reached =
    next (next (start early) (asked early none))
      (settled early (some (pending_items early none).1) 3 "complete" refl)

pending_items_lem_example : (pending_items late (some (pending_items early none).1)).0 ≡ scan late
pending_items_lem_example = pending_items_lem late (some (pending_items early none).1) reached

oldest : pending late (some entry) ≡ some 5
unfolding pending_items scan sort_rows
oldest = refl
