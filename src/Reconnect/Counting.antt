-- ===== src/Reconnect/Counting.antt =====
-- companion/tpf2mp/reconnect.py, lines 68 to 175: outages are counted once when they begin and once when
-- they end.
use tpf2mp.Reconnect.{new_coordinator, Syncing, Last, Waiting, Coordinator, World, ReconnectHost}
use tpf2mp.Reconnect.Operations.{
  disconnected, started, synchronizing, replaying, ready, readied, expire, expired, timed_out,
  time_out_all, is_watched,
}
use tpf2mp.Base.{
  ℕ, ◌+◌, ◌≡◌, refl, String, Option, none, some, List, [], ◌∷◌, arith, length, Bool-cases, inl, inr,
}
use tpf2mp.Base.Dict.{Dict, lookup, insert, remove}
use tpf2mp.Base.Keys.{HasKeysOnce, insert-HasKeysOnce, remove-HasKeysOnce}
use tpf2mp.Base.Sort.{sorted}

length-insert_new :
    (k : String) (v : Waiting) (d : Dict Waiting)
    → lookup k d ≡ none
    → length (insert k v d) ≡ length d + 1
length-insert_new k v [] h = omega arith
length-insert_new k v ((j, w) ∷ d) h = ground (arith, length-insert_new k v d)

length-insert_old :
    (k : String) (v w : Waiting) (d : Dict Waiting)
    → lookup k d ≡ some w
    → length (insert k v d) ≡ length d
length-insert_old k v w [] h = absurd (cc)
length-insert_old k v w ((j, u) ∷ d) h = ground (arith, length-insert_old k v w d)

length-remove :
    (k : String) (w : Waiting) (d : Dict Waiting)
    → lookup k d ≡ some w
    → length (remove k d) + 1 ≡ length d
length-remove k w [] h = absurd (cc)
length-remove k w ((j, u) ∷ d) h = ground (arith, length-remove k w d)

length-remove-none :
    (k : String) (d : Dict Waiting) → lookup k d ≡ none → length (remove k d) ≡ length d
length-remove-none k [] h = refl
length-remove-none k ((j, u) ∷ d) h = ground (arith, length-remove-none k d)

-- No peer waits twice, and every outage that began has ended in a recovery or a timeout or goes on.
pub record IsCounted (c : Coordinator) : Type 0 where
  pub once : HasKeysOnce c.waiting
  pub counts : c.events ≡ c.recoveries + c.timeouts + length c.waiting

started-IsCounted :
    (c : Coordinator) (peer reason : String) (now : ℕ) (o : Option Waiting)
    → lookup peer c.waiting ≡ o
    → IsCounted c
    → IsCounted (started c peer reason now o)
started-IsCounted c peer reason now (some item) found h = h
started-IsCounted c peer reason now none missing h = record {
  once = insert-HasKeysOnce peer _ c.waiting h.once;
  counts = omega (arith, h.counts, length-insert_new peer _ c.waiting missing);
}

-- Neither the syncing peers nor the last outcomes are counted.
recounted :
    (c : Coordinator) (syncing : Dict Syncing) (last : Dict Last)
    → IsCounted c
    → IsCounted (record c { syncing = syncing; last = last })
recounted c syncing last h = record { once = h.once; counts = h.counts }

disconnected-IsCounted :
    (w : World) (peer reason : String) (now : ℕ)
    → IsCounted w.coordinator
    → IsCounted (disconnected w peer reason now).0.coordinator
unfolding disconnected
disconnected-IsCounted w peer reason now h = elim (Bool-cases (is_watched w.host peer)) [
  | inl e ↦ rw e (
      recounted (started w.coordinator peer reason now (lookup peer w.coordinator.waiting)) _ _
        (started-IsCounted w.coordinator peer reason now _ refl h))
  | inr e ↦ rw e h
]

replaying-IsCounted :
    (c : Coordinator) (peer : String) (o : Option Waiting)
    → lookup peer c.waiting ≡ o
    → IsCounted c
    → IsCounted (record c { waiting = replaying peer o c.waiting })
replaying-IsCounted c peer none missing h = record { once = h.once; counts = h.counts }
replaying-IsCounted c peer (some item) found h = record {
  once = insert-HasKeysOnce peer _ c.waiting h.once;
  counts = omega (
    arith,
    h.counts,
    length-insert_old peer (record item { status = "replaying" }) item c.waiting found,
  );
}

synchronizing-IsCounted :
    (w : World) (peer : String) (from_seq now : ℕ)
    → IsCounted w.coordinator
    → IsCounted (synchronizing w peer from_seq now).coordinator
unfolding synchronizing
synchronizing-IsCounted w peer from_seq now h =
    let c = w.coordinator in
    recounted (record c { waiting = replaying peer (lookup peer c.waiting) c.waiting }) _ c.last
      (replaying-IsCounted c peer (lookup peer c.waiting) refl h)

-- A coordinator after the two pops of `ready`.
abbrev dropped : Coordinator → String → Coordinator
dropped c peer = record c { waiting = remove peer c.waiting; syncing = remove peer c.syncing }

readied-IsCounted :
    (c : Coordinator) (host : ReconnectHost) (peer : String) (through_seq now : ℕ)
    (o : Option Waiting) (s : Option Syncing)
    → lookup peer c.waiting ≡ o
    → IsCounted c
    → IsCounted
        (readied
          (record { coordinator = dropped c peer; host = host })
          peer
          through_seq
          now
          o
          s).coordinator
readied-IsCounted c host peer through_seq now (some item) s found h = record {
  once = remove-HasKeysOnce peer c.waiting h.once;
  counts = omega (arith, h.counts, length-remove peer item c.waiting found);
}
readied-IsCounted c host peer through_seq now none none found h = record {
  once = remove-HasKeysOnce peer c.waiting h.once;
  counts = omega (arith, h.counts, length-remove-none peer c.waiting found);
}
readied-IsCounted c host peer through_seq now none (some item) found h = record {
  once = remove-HasKeysOnce peer c.waiting h.once;
  counts = omega (arith, h.counts, length-remove-none peer c.waiting found);
}

ready-IsCounted :
    (w : World) (peer : String) (through_seq now : ℕ)
    → IsCounted w.coordinator
    → IsCounted (ready w peer through_seq now).coordinator
unfolding ready
ready-IsCounted w peer through_seq now h =
    readied-IsCounted w.coordinator _ peer through_seq now (lookup peer w.coordinator.waiting)
      (lookup peer w.coordinator.syncing) refl h

pub timed_out-IsCounted :
    (c : Coordinator) (peer : String) (now : ℕ) (o : Option Waiting)
    → lookup peer c.waiting ≡ o
    → IsCounted c
    → IsCounted (timed_out c peer now o)
timed_out-IsCounted c peer now none missing h = h
timed_out-IsCounted c peer now (some item) found h = record {
  once = remove-HasKeysOnce peer c.waiting h.once;
  counts = omega (arith, h.counts, length-remove peer item c.waiting found);
}

pub time_out_all-IsCounted :
    (c : Coordinator) (peers : List String) (now : ℕ)
    → IsCounted c
    → IsCounted (time_out_all c peers now)
unfolding time_out_all
time_out_all-IsCounted c [] now h = h
time_out_all-IsCounted c (peer ∷ peers) now h =
    time_out_all-IsCounted (timed_out c peer now (lookup peer c.waiting)) peers now
      (timed_out-IsCounted c peer now (lookup peer c.waiting) refl h)

-- The worlds that a session can reach; between the operations the host may change in any way.
pub data Reached (second grace : ℕ) : World → Type 0 where
  begins :
      (host : ReconnectHost)
      → Reached second grace (record { coordinator = new_coordinator second grace; host = host })
  host_changes :
      {w : World} (host : ReconnectHost)
      → Reached second grace w
      → Reached second grace (record w { host = host })
  disconnects :
      {w : World} (peer reason : String) (now : ℕ)
      → Reached second grace w
      → Reached second grace (disconnected w peer reason now).0
  synchronizes :
      {w : World} (peer : String) (from_seq now : ℕ)
      → Reached second grace w
      → Reached second grace (synchronizing w peer from_seq now)
  readies :
      {w : World} (peer : String) (through_seq now : ℕ)
      → Reached second grace w
      → Reached second grace (ready w peer through_seq now)
  expires : {w : World} (now : ℕ) → Reached second grace w → Reached second grace (expire w now).0.0

-- In every world that a session reaches, no peer waits twice, and the outages that have begun are those
-- that ended in a recovery, those that ended in a timeout and those that go on.
pub Reached-IsCounted :
    (second grace : ℕ) (w : World) → Reached second grace w → IsCounted w.coordinator
unfolding new_coordinator expire
Reached-IsCounted second grace w (begins host) = record { once = λ c. omega arith; counts = refl }
Reached-IsCounted second grace w (host_changes host r) = Reached-IsCounted second grace _ r
Reached-IsCounted second grace w (disconnects {w = v} peer reason now r) =
    disconnected-IsCounted v peer reason now (Reached-IsCounted second grace v r)
Reached-IsCounted second grace w (synchronizes {w = v} peer from_seq now r) =
    synchronizing-IsCounted v peer from_seq now (Reached-IsCounted second grace v r)
Reached-IsCounted second grace w (readies {w = v} peer through_seq now r) =
    ready-IsCounted v peer through_seq now (Reached-IsCounted second grace v r)
Reached-IsCounted second grace w (expires {w = v} now r) =
    time_out_all-IsCounted v.coordinator (sorted (expired now v.coordinator.waiting)) now
      (Reached-IsCounted second grace v r)
