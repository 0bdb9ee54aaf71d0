-- ===== src/Anchors.antt =====
-- companion/tpf2mp/anchor_history.py: the index over the host's ordered commits, which grows with them.
-- The host's `commits` are an association list of sequence numbers and messages. A boundary that is
-- not above 0 is ignored wherever it stands, so a negative one has no counterpart here.
pub mod Incremental
pub mod Stream
mod Tests
use tpf2mp.Base.{
  ℕ, zero, suc, ◌+◌, ◌-◌, max, String, Bool, true, false, not, ◌&&◌, ◌||◌, Option, none, some, List,
  [], ◌∷◌, map, all, any, keep, length, ltb, leb, ◌==◌, str_eq, if◌then◌else◌, or_else,
}
use tpf2mp.Base.Sort.{sort_rows}

-- What a message's action says; an absent text is empty.
pub record Message : Type 0 where
  pub kind : String
  pub origin_peer : String
  pub action_type : String
  pub success : Bool
  pub boundary_seq : ℕ
  pub has_save : Bool
  pub has_metadata : Bool

-- A dict with numbers as keys, and `d.get(k)`, `d[k] = v`.
abbrev pub get {ℓ} : {V : Type ℓ} → ℕ → List (ℕ × V) → Option V
get k [] = none
get k ((j, v) ∷ d) = let rest = get k d in if j == k then some v else rest

abbrev pub put {ℓ} : {V : Type ℓ} → ℕ → V → List (ℕ × V) → List (ℕ × V)
put k v [] = (k, v) ∷ []
put k v ((j, w) ∷ d) = let rest = put k v d in if j == k then (j, v) ∷ d else (j, w) ∷ rest

abbrev pub Receipts : Type 0
Receipts = List ((ℕ × String) × Message)

abbrev pub put_receipt : ℕ → String → Message → Receipts → Receipts
put_receipt b p m [] = ((b, p), m) ∷ []
put_receipt b p m ((k, n) ∷ d) =
    let rest = put_receipt b p m d in if k.0 == b && str_eq k.1 p then (k, m) ∷ d else (k, n) ∷ rest

abbrev pub get_receipt : ℕ → String → Receipts → Option Message
get_receipt b p [] = none
get_receipt b p ((k, n) ∷ d) =
    let rest = get_receipt b p d in if k.0 == b && str_eq k.1 p then some n else rest

pub record History : Type 0 where
  pub indexed_through : ℕ
  pub known_count : ℕ
  pub checkpoint_outcomes : List (ℕ × ℕ)
  pub receipts : Receipts
  pub local_boundaries : List ℕ
  pub last_non_receipt_commit : ℕ

-- `__init__` and `_reset`
abbrev pub no_history : History
no_history = record {
  indexed_through = 0;
  known_count = 0;
  checkpoint_outcomes = [];
  receipts = [];
  local_boundaries = [];
  last_non_receipt_commit = 0;
}

-- The three parts of `_index`, after `indexed_through`; `peer` is the host's own.
abbrev index_outcome : ℕ → Message → History → History
index_outcome sequence message history =
    if str_eq message.action_type "network.checkpoint_outcome"
      && message.success
      && ltb 0 message.boundary_seq
    then record history {
      checkpoint_outcomes =
          put message.boundary_seq
            (max sequence (or_else (get message.boundary_seq history.checkpoint_outcomes) 0))
            history.checkpoint_outcomes;
    }
    else history

abbrev index_receipt : String → Message → History → History
index_receipt peer message history =
    if ltb 0 message.boundary_seq && not (str_eq message.origin_peer "") && message.has_save
    then record history {
      receipts = put_receipt message.boundary_seq message.origin_peer message history.receipts;
      local_boundaries =
          if str_eq message.origin_peer peer
          then message.boundary_seq ∷ history.local_boundaries
          else history.local_boundaries;
    }
    else history

abbrev index_rest : String → ℕ → Message → History → History
index_rest peer sequence message history =
    if str_eq message.action_type "recovery.save_receipt"
    then index_receipt peer message history
    else if str_eq message.kind "commit"
    then record history { last_non_receipt_commit = max history.last_non_receipt_commit sequence }
    else history

unfoldable pub index : String → ℕ → Message → History → History
index peer sequence message history =
    let reached = record history { indexed_through = max history.indexed_through sequence } in
    index_rest peer sequence message (index_outcome sequence message reached)

-- The commits in order, each indexed.
unfoldable pub index_all : String → List (ℕ × Message) → History → History
unfolding index
index_all peer [] history = history
index_all peer ((sequence, message) ∷ commits) history =
    index_all peer commits (index peer sequence message history)

abbrev pub index_found : String → ℕ → Option Message → History → History
index_found peer sequence none history = history
index_found peer sequence (some message) history = index peer sequence message history

-- `for sequence in range(first, first + count)`
unfoldable pub index_range : String → List (ℕ × Message) → ℕ → ℕ → History → History
unfolding index
index_range peer commits first zero history = history
index_range peer commits first (suc count) history =
    index_range peer commits (first + 1) count (index_found peer first (get first commits) history)

-- What the index reads of the host.
pub record Host : Type 0 where
  pub peer : String
  pub commits : List (ℕ × Message)
  pub next_seq : ℕ

abbrev pub by_sequence : List (ℕ × Message) → List (ℕ × Message)
by_sequence commits = sort_rows (λ a b. leb a.0 b.0) commits

-- The index of the whole history.
unfoldable pub reindex : Host → History
unfolding index_all sort_rows
reindex host = index_all host.peer (by_sequence host.commits) no_history

-- `added != expected_last - indexed_through`, or one of the two is negative.
abbrev pub out_of_step : Host → History → Bool
out_of_step host history =
    let expected_last = host.next_seq - 1 in
    ltb (length host.commits) history.known_count
    || ltb expected_last history.indexed_through
    || not (expected_last - history.indexed_through == length host.commits - history.known_count)

unfoldable pub refresh : Host → History → History
unfolding reindex index_range
refresh host history =
    let indexed =
      if out_of_step host history
      then reindex host
      else index_range host.peer host.commits (history.indexed_through + 1)
          (host.next_seq - 1 - history.indexed_through) history in
    record indexed { known_count = length host.commits }

-- The queries, after their refresh.
abbrev pub checkpoint_outcome : ℕ → History → ℕ
checkpoint_outcome boundary history = or_else (get boundary history.checkpoint_outcomes) 0

abbrev pub work_after : ℕ → History → Bool
work_after outcome_sequence history = ltb outcome_sequence history.last_non_receipt_commit

abbrev pub receipt : ℕ → String → History → Option Message
receipt boundary peer history = get_receipt boundary peer history.receipts
