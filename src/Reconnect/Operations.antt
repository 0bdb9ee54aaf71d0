-- ===== src/Reconnect/Operations.antt =====
-- companion/tpf2mp/reconnect.py, lines 68 to 175: what changes the state.
use tpf2mp.Reconnect.{
  Waiting, Syncing, Coordinator, Pending, ReconnectHost, Effect, emergency_pause, fault_session,
  World, is_active, synchronize_vehicles,
}
use tpf2mp.Base.{
  ℕ, ◌+◌, ◌-◌, min, ◌*◌, String, Bool, not, ◌&&◌, ◌||◌, Option, none, some, List, [], ◌∷◌, map, any,
  leb, if◌then◌else◌, str_eq,
}
use tpf2mp.Base.Dict.{Dict, lookup, insert, remove}
use tpf2mp.Base.Sort.{sorted}
use tpf2mp.Base.Text.{◌<>◌}

abbrev is_in : String → List String → Bool
is_in name names = any (λ n. str_eq n name) names

-- The first early return of `disconnected`.
abbrev pub is_watched : ReconnectHost → String → Bool
is_watched host peer =
    host.require_connected_peers
    && not (str_eq peer host.own_peer)
    && is_in peer host.required_peers

-- `str(reason)[:240] or "connection-lost"`
abbrev pub reason_or_lost : String → String
reason_or_lost reason = if str_eq reason "" then "connection-lost" else reason

-- `if peer not in self.waiting`, by what the dict has for the peer.
abbrev pub started : Coordinator → String → String → ℕ → Option Waiting → Coordinator
started c peer reason now (some item) = c
started c peer reason now none = record c {
  events = c.events + 1;
  waiting =
      insert peer
        (record {
          status = "waiting";
          reason = reason_or_lost reason;
          started_at = now;
          grace_deadline = now + c.grace;
        })
        c.waiting;
}

unfoldable pub disconnected : World → String → String → ℕ → World × List Effect
disconnected w peer reason now = if not (is_watched w.host peer) then (w, []) else (
  record {
    coordinator =
        record (started w.coordinator peer reason now (lookup peer w.coordinator.waiting)) {
          syncing = remove peer w.coordinator.syncing;
        };
    host = record w.host { clock_health = remove peer w.host.clock_health };
  },
  emergency_pause ("peer-disconnected:" <> peer) ∷ [],
)

abbrev pub replaying : String → Option Waiting → Dict Waiting → Dict Waiting
replaying peer none waiting = waiting
replaying peer (some item) waiting = insert peer (record item { status = "replaying" }) waiting

unfoldable pub synchronizing : World → String → ℕ → ℕ → World
synchronizing w peer from_seq now =
    let c = w.coordinator in
    record w {
      coordinator = record c {
        syncing = insert peer (record { from_seq = from_seq; started_at = now }) c.syncing;
        waiting = replaying peer (lookup peer c.waiting) c.waiting;
      };
    }

abbrev pub reset_to : ℕ → Pending → Pending
reset_to deadline tracker =
    if str_eq tracker.status "pending" then record tracker { deadline = deadline } else tracker

abbrev reset_rendezvous : ℕ → Option Pending → Option Pending
reset_rendezvous deadline none = none
reset_rendezvous deadline (some rendezvous) =
    if str_eq rendezvous.status "complete"
      || str_eq rendezvous.status "faulted"
      || str_eq rendezvous.status "superseded"
    then some rendezvous
    else some (record rendezvous { deadline = deadline })

unfoldable pub reset_pending_deadlines : ReconnectHost → ℕ → ReconnectHost
reset_pending_deadlines host now = record host {
  trackers = map (reset_to (now + host.completion_timeout)) host.trackers;
  clock_controls =
      map (reset_to (now + min host.completion_timeout (10 * host.second))) host.clock_controls;
  clock_rendezvous = reset_rendezvous (now + host.rendezvous_timeout) host.clock_rendezvous;
}

-- The two branches at the end of `ready`, by what was popped.
abbrev pub readied : World → String → ℕ → ℕ → Option Waiting → Option Syncing → World
readied w peer through_seq now (some item) syncing = record {
  coordinator = record w.coordinator {
    recoveries = w.coordinator.recoveries + 1;
    last =
        insert peer
          (record {
            status = "recovered";
            reason = some item.reason;
            duration = now - item.started_at;
            through_seq = some through_seq;
          })
          w.coordinator.last;
  };
  host = reset_pending_deadlines w.host now;
}
readied w peer through_seq now none (some item) = record w {
  coordinator = record w.coordinator {
    last =
        insert peer
          (record {
            status = "initial-sync";
            reason = none;
            duration = now - item.started_at;
            through_seq = some through_seq;
          })
          w.coordinator.last;
  };
}
readied w peer through_seq now none none = w

abbrev pub popped : World → String → World
popped w peer = record w {
  coordinator = record w.coordinator {
    waiting = remove peer w.coordinator.waiting;
    syncing = remove peer w.coordinator.syncing;
  };
}

unfoldable pub ready : World → String → ℕ → ℕ → World
unfolding reset_pending_deadlines
ready w peer through_seq now =
    let before = synchronize_vehicles w now in
    let after = synchronize_vehicles (popped before peer) now in
    readied after peer through_seq now (lookup peer w.coordinator.waiting)
      (lookup peer w.coordinator.syncing)

-- `[peer for peer, item in self.waiting.items() if now >= float(item["graceDeadline"])]`
abbrev pub expired : ℕ → Dict Waiting → List String
expired now [] = []
expired now ((peer, item) ∷ waiting) =
    let rest = expired now waiting in if leb item.grace_deadline now then peer ∷ rest else rest

-- One round of the loop; every peer that it visits is there.
abbrev pub timed_out : Coordinator → String → ℕ → Option Waiting → Coordinator
timed_out c peer now none = c
timed_out c peer now (some item) = record c {
  waiting = remove peer c.waiting;
  syncing = remove peer c.syncing;
  timeouts = c.timeouts + 1;
  last =
      insert peer
        (record {
          status = "timed-out";
          reason = some item.reason;
          duration = now - item.started_at;
          through_seq = none;
        })
        c.last;
}

unfoldable pub time_out_all : Coordinator → List String → ℕ → Coordinator
time_out_all c [] now = c
time_out_all c (peer ∷ peers) now =
    time_out_all (timed_out c peer now (lookup peer c.waiting)) peers now

abbrev pub fault_for : List String → List Effect
fault_for [] = []
fault_for peers = fault_session "clock" peers ∷ []

-- The fault names the expired peers; the result is `active` after it.
unfoldable pub expire : World → ℕ → (World × Bool) × List Effect
unfolding time_out_all
expire w now =
    let peers = sorted (expired now w.coordinator.waiting) in
    let c = time_out_all w.coordinator peers now in
    ((record w { coordinator = c }, is_active c), fault_for peers)
