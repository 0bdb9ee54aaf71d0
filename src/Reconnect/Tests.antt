-- ===== src/Reconnect/Tests.antt =====
-- companion/tpf2mp/reconnect.py, run on one peer whose connection is lost.
use tpf2mp.Reconnect.{ReconnectHost, World, Waiting, fault_session, new_coordinator}
use tpf2mp.Reconnect.Operations.{disconnected, ready, expire, reset_pending_deadlines}
use tpf2mp.Reconnect.Counting.{IsCounted, begins, disconnects, Reached-IsCounted}
use tpf2mp.Reconnect.Expiry.{expire_lem}
use tpf2mp.Base.{◌<◌, ◌≤◌, ◌≡◌, refl, String, true, false, none, some, List, [], ◌∷◌}
use tpf2mp.Base.Dict.{lookup}
use tpf2mp.Base.Keys.{occurs}
use tpf2mp.Base.Sort.{sorted, sort_rows, insert_row}

abbrev host : ReconnectHost
host = record {
  second = 10;
  require_connected_peers = true;
  own_peer = "host";
  required_peers = "host" ∷ "anna" ∷ [];
  completion_timeout = 300;
  rendezvous_timeout = 600;
  pause_is_active = false;
  clock_effective_speed = 0;
  clock_requested_speed = 1;
  clock_health = ("anna", 5) ∷ [];
  trackers = record { status = "pending"; deadline = 7 } ∷ [];
  clock_controls = [];
  clock_rendezvous = none;
  vehicles = (record { timeout = 100; pause_started_at = none }, []);
}

abbrev start : World
start = record { coordinator = new_coordinator 10 1200; host = host }

-- The connection is lost at the tick 40, and the grace is two minutes.
abbrev lost : World
lost = (disconnected start "anna" "" 40).0

anna_waits :
    lookup "anna" lost.coordinator.waiting
    ≡ some (record {
      status = "waiting";
      reason = "connection-lost";
      started_at = 40;
      grace_deadline = 1240;
    })
unfolding disconnected new_coordinator
anna_waits = refl

anna_is_back :
    (ready lost "anna" 9 100).host.trackers ≡ record { status = "pending"; deadline = 400 } ∷ []
unfolding disconnected new_coordinator ready reset_pending_deadlines
anna_is_back = refl

anna_is_late : (expire lost 1240).1 ≡ fault_session "clock" ("anna" ∷ []) ∷ []
unfolding disconnected new_coordinator expire sorted sort_rows insert_row
anna_is_late = refl

Reached-IsCounted_example : IsCounted lost.coordinator
Reached-IsCounted_example = Reached-IsCounted 10 1200 lost (disconnects "anna" "" 40 (begins host))

expire_lem_example :
    ((p : String) (item : Waiting)
      → lookup p lost.coordinator.waiting ≡ some item
      → (1240 < item.grace_deadline
          → lookup p (expire lost 1240).0.0.coordinator.waiting ≡ some item)
        × (item.grace_deadline ≤ 1240
            → (lookup p (expire lost 1240).0.0.coordinator.waiting ≡ none)
              × ((peers : List String) × ((expire lost 1240).1 ≡ fault_session "clock" peers ∷ [])
                  × (0 < occurs p peers))))
    × ((p : String)
        → lookup p lost.coordinator.waiting ≡ none
        → lookup p (expire lost 1240).0.0.coordinator.waiting ≡ none)
expire_lem_example =
    expire_lem lost 1240 (Reached-IsCounted 10 1200 lost (disconnects "anna" "" 40 (begins host)))
