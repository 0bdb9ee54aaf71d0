-- ===== src/Reconnect.antt =====
-- companion/tpf2mp/reconnect.py: the grace of a peer that has lost its connection. Times are numbers of
-- clock ticks, of which `host.second` make a second. The calls of `synchronization.emergency_pause` and
-- `fault_session` are the effects that an operation returns; the vehicle rounds and their deadline
-- registry are those of Deadlines. The texts that `str(reason)[:240]` shortens are given shortened.
pub mod Operations
pub mod Counting
pub mod Expiry
mod Tests
use tpf2mp.Deadlines.{Tracker, Registry, synchronize}
use tpf2mp.Base.{
  ℕ, ◌+◌, ◌-◌, ◌*◌, min, max, String, Bool, true, false, not, ◌||◌, Option, none, some, List, [],
  ◌∷◌, if◌then◌else◌, str_eq, ◌&&◌, ltb, ◌==◌,
}
use tpf2mp.Base.Sort.{sort_rows, leb_str}
use tpf2mp.Base.Dict.{Dict}

pub record Waiting : Type 0 where
  pub status : String
  pub reason : String
  pub started_at : ℕ
  pub grace_deadline : ℕ

pub record Syncing : Type 0 where
  pub from_seq : ℕ
  pub started_at : ℕ

pub record Last : Type 0 where
  pub status : String
  pub reason : Option String
  pub duration : ℕ
  pub through_seq : Option ℕ

pub record Coordinator : Type 0 where
  pub grace : ℕ
  pub waiting : Dict Waiting
  pub syncing : Dict Syncing
  pub last : Dict Last
  pub events : ℕ
  pub recoveries : ℕ
  pub timeouts : ℕ

-- A tracker of the host's other registries.
pub record Pending : Type 0 where
  pub status : String
  pub deadline : ℕ

-- The four registries whose deadlines are one completion timeout stand in one list.
pub record ReconnectHost : Type 0 where
  pub second : ℕ
  pub require_connected_peers : Bool
  pub own_peer : String
  pub required_peers : List String
  pub completion_timeout : ℕ
  pub rendezvous_timeout : ℕ
  pub pause_is_active : Bool
  pub clock_effective_speed : ℕ
  pub clock_requested_speed : ℕ
  pub clock_health : Dict ℕ
  pub trackers : List Pending
  pub clock_controls : List Pending
  pub clock_rendezvous : Option Pending
  pub vehicles : Registry × List Tracker

pub data Effect : Type 0 where
  emergency_pause : String → Effect
  fault_session : String → List String → Effect

pub record World : Type 0 where
  pub coordinator : Coordinator
  pub host : ReconnectHost

-- `__init__`, with the grace between ten seconds and ten minutes.
unfoldable pub new_coordinator : ℕ → ℕ → Coordinator
new_coordinator second grace = record {
  grace = max (10 * second) (min (600 * second) grace);
  waiting = [];
  syncing = [];
  last = [];
  events = 0;
  recoveries = 0;
  timeouts = 0;
}

-- `bool(self.waiting)`
abbrev pub is_active : Coordinator → Bool
is_active c = elim c.waiting [ [] ↦ false | _ ∷ _ ↦ true ]

-- `status`, whose dicts stand in the order of their keys.
pub record WaitingView : Type 0 where
  pub item : Waiting
  pub seconds_remaining : ℕ

pub record Status : Type 0 where
  pub grace : ℕ
  pub active : Bool
  pub waiting_peers : Dict WaitingView
  pub synchronizing_peers : Dict Syncing
  pub events : ℕ
  pub recoveries : ℕ
  pub timeouts : ℕ
  pub last : Dict Last
  pub resume_required : Bool

abbrev pub by_key {ℓ} : {V : Type ℓ} → Dict V → Dict V
by_key = sort_rows (λ a b. leb_str a.0 b.0)

abbrev pub waiting_views : ℕ → Dict Waiting → Dict WaitingView
waiting_views now [] = []
waiting_views now ((peer, item) ∷ waiting) =
    (peer, record { item = item; seconds_remaining = item.grace_deadline - now })
    ∷ waiting_views now waiting

unfoldable pub status : World → ℕ → Status
status w now =
    let c = w.coordinator in
    record {
      grace = c.grace;
      active = is_active c;
      waiting_peers = waiting_views now (by_key c.waiting);
      synchronizing_peers = by_key c.syncing;
      events = c.events;
      recoveries = c.recoveries;
      timeouts = c.timeouts;
      last = by_key c.last;
      resume_required =
          is_active c
          || (ltb 0 c.recoveries
              && (w.host.clock_effective_speed == 0)
              && ltb 0 w.host.clock_requested_speed);
    }

-- `synchronize` of the vehicle deadlines, where `pause_active` asks the pause and this coordinator.
abbrev pub synchronize_vehicles : World → ℕ → World
synchronize_vehicles w now = record w {
  host = record w.host {
    vehicles = synchronize (w.host.pause_is_active || is_active w.coordinator) now w.host.vehicles;
  };
}
