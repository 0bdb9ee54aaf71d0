-- ===== src/Anchors/Incremental.antt =====
-- Lemmas on `_index` and `refresh` of anchor_history.py: ranges of numbered commits and the whole scan.
use mathlib.Core.Path.{sym}
use tpf2mp.Base.{
  ℕ, suc, ◌+◌, ◌-◌, ◌≡◌, max, refl, ap, ◌∙◌, String, false, some, List, [], ◌∷◌, ◌++◌, arith,
  length, length-append, leb,
}
use tpf2mp.Base.Sort.{sort_rows, insert_row}
use tpf2mp.Anchors.{
  Message, History, no_history, get, index, index_all, index_found, index_range, Host, by_sequence,
  reindex, out_of_step, refresh,
}

-- Messages under the sequence numbers from k on.
abbrev pub numbered : ℕ → List Message → List (ℕ × Message)
numbered k [] = []
numbered k (m ∷ messages) = (k, m) ∷ numbered (suc k) messages

length-numbered : (k : ℕ) (messages : List Message) → length (numbered k messages) ≡ length messages
length-numbered k [] = refl
length-numbered k (m ∷ messages) = ap suc (length-numbered (suc k) messages)

get-numbered :
    (k n : ℕ) (before after : List Message) (m : Message)
    → n ≡ k + length before
    → get n (numbered k (before ++ m ∷ after)) ≡ some m
get-numbered k n [] after m h = ground arith
get-numbered k n (x ∷ before) after m h = ground (arith, get-numbered (suc k) n before after m)

pub append_assoc : (xs ys zs : List Message) → (xs ++ ys) ++ zs ≡ xs ++ (ys ++ zs)
append_assoc [] ys zs = refl
append_assoc (x ∷ xs) ys zs = ap (λ l. x ∷ l) (append_assoc xs ys zs)

insert_row-first :
    (k : ℕ) (m : Message) (messages : List Message)
    → insert_row (λ a b. leb a.0 b.0) (k, m) (numbered (suc k) messages)
      ≡ (k, m) ∷ numbered (suc k) messages
unfolding insert_row
insert_row-first k m [] = refl
insert_row-first k m (x ∷ messages) = ground arith

by_sequence-numbered :
    (k : ℕ) (messages : List Message) → by_sequence (numbered k messages) ≡ numbered k messages
unfolding sort_rows
by_sequence-numbered k [] = refl
by_sequence-numbered k (m ∷ messages) =
    ap (insert_row (λ a b. leb a.0 b.0) (k, m)) (by_sequence-numbered (suc k) messages)
    ∙ insert_row-first k m messages

module _ (peer : String) where
  index_all-append :
      (k : ℕ) (xs ys : List Message) (h : History)
      → index_all peer (numbered k (xs ++ ys)) h
        ≡ index_all peer (numbered (k + length xs) ys) (index_all peer (numbered k xs) h)
  unfolding index_all
  index_all-append k [] ys h = ap (λ n. index_all peer (numbered n ys) h) (omega arith)
  index_all-append k (x ∷ xs) ys h =
      index_all-append (suc k) xs ys (index peer k x h)
      ∙ ap
          (λ n.
            index_all peer (numbered n ys)
              (index_all peer (numbered (suc k) xs) (index peer k x h)))
          (omega arith)

  index_range-numbered :
      (first : ℕ) (before after : List Message) (h : History)
      → first ≡ suc (length before)
      → index_range peer (numbered 1 (before ++ after)) first (length after) h
        ≡ index_all peer (numbered first after) h
  unfolding index_range index_all
  index_range-numbered first before [] h e = refl
  index_range-numbered first before (m ∷ after) h e =
      let here = get-numbered 1 first before after m (omega arith) in
      let next = index peer first m h in
      ap
        (λ o.
          index_range peer (numbered 1 (before ++ m ∷ after)) (first + 1) (length after)
            (index_found peer first o h))
        here
      ∙ ap (λ messages. index_range peer (numbered 1 messages) (first + 1) (length after) next)
          (sym (append_assoc before (m ∷ []) after))
      ∙ index_range-numbered (first + 1) (before ++ m ∷ []) after next
          (omega (arith, length-append before (m ∷ [])))
      ∙ ap (λ n. index_all peer (numbered n after) next) (omega arith)

  through-index :
      (sequence : ℕ) (m : Message) (h : History)
      → (index peer sequence m h).indexed_through ≡ max h.indexed_through sequence
  unfolding index
  through-index sequence m h = ground arith

  through-index_all :
      (k : ℕ) (messages : List Message) (h : History)
      → h.indexed_through ≡ k
      → (index_all peer (numbered (suc k) messages) h).indexed_through ≡ k + length messages
  unfolding index_all
  through-index_all k [] h e = omega arith
  through-index_all k (m ∷ messages) h e = omega (
    arith,
    through-index_all (suc k) messages (index peer (suc k) m h)
        (omega (arith, through-index (suc k) m h)),
  )

  abbrev counted : ℕ → History → History
  counted n h = record h { known_count = n }

  index-counted :
      (n sequence : ℕ) (m : Message) (h : History)
      → index peer sequence m (counted n h) ≡ counted n (index peer sequence m h)
  unfolding index
  index-counted n sequence m h = ground arith

  index_all-counted :
      (n : ℕ) (commits : List (ℕ × Message)) (h : History)
      → index_all peer commits (counted n h) ≡ counted n (index_all peer commits h)
  unfolding index_all
  index_all-counted n [] h = refl
  index_all-counted n ((sequence, m) ∷ commits) h =
      ap (index_all peer commits) (index-counted n sequence m h)
      ∙ index_all-counted n commits (index peer sequence m h)

  -- A host that has numbered its commits from 1 on.
  abbrev pub host_of : List Message → Host
  host_of messages = record {
    peer = peer;
    commits = numbered 1 messages;
    next_seq = suc (length messages);
  }

  -- The index of all messages.
  abbrev pub full : List Message → History
  full messages = counted (length messages) (reindex (host_of messages))

  reindex-numbered :
      (messages : List Message)
      → reindex (host_of messages) ≡ index_all peer (numbered 1 messages) no_history
  unfolding reindex
  reindex-numbered messages =
      ap (λ commits. index_all peer commits no_history) (by_sequence-numbered 1 messages)

  in_step :
      (before after : List Message) (h : History)
      → h.known_count ≡ length before
      → h.indexed_through ≡ length before
      → out_of_step (host_of (before ++ after)) h ≡ false
  in_step before after h known through =
      ground
        (arith, known, through, length-append before after, length-numbered 1 (before ++ after))

  through-full : (messages : List Message) → (full messages).indexed_through ≡ length messages
  through-full messages =
      let whole : (0 + length messages) ≡ length messages = omega arith in
      ap (λ (h : History). h.indexed_through) (reindex-numbered messages)
      ∙ through-index_all 0 messages no_history refl
      ∙ whole

  pub refresh-full :
      (before after : List Message)
      → refresh (host_of (before ++ after)) (full before) ≡ full (before ++ after)
  unfolding refresh
  refresh-full before after =
      let messages = before ++ after in
      let known = length before in
      let h = full before in
      let through = through-full before in
      let step = in_step before after h refl through in
      let count : suc (length messages) - 1 - h.indexed_through ≡ length after =
        omega (arith, through, length-append before after) in
      let ranged : index_range peer (numbered 1 messages) (h.indexed_through + 1)
            (suc (length messages) - 1 - h.indexed_through) h
          ≡ counted known (index_all peer (numbered 1 messages) no_history) =
        ap (λ n. index_range peer (numbered 1 messages) (h.indexed_through + 1) n h) count
        ∙ index_range-numbered (h.indexed_through + 1) before after h (omega (arith, through))
        ∙ ap (λ n. index_all peer (numbered n after) h) (omega (arith, through))
        ∙ ap (λ i. index_all peer (numbered (1 + known) after) (counted known i))
            (reindex-numbered before)
        ∙ index_all-counted known (numbered (1 + known) after)
            (index_all peer (numbered 1 before) no_history)
        ∙ ap (counted known) (sym (index_all-append 1 before after no_history)) in
      rw step (
        ap (counted (length (numbered 1 messages))) ranged
        ∙ ap (λ n. counted n (index_all peer (numbered 1 messages) no_history))
            (length-numbered 1 messages)
        ∙ ap (counted (length messages)) (sym (reindex-numbered messages)))
