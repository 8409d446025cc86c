-- ===== src/Breaker/Examples.antt =====
-- breaker/breaker.go: the theorems at a breaker with a health check.
use go_guard_lib.Prelude.{
  ℕ, ◌≡◌, refl, Bool, true, false, some, List, [], ◌∷◌, length, ltb, if◌then◌else◌, arith,
}
use go_guard_lib.Engine.{state_open}
use go_guard_lib.Errors.{Err}
use go_guard_lib.Ibreaker
use go_guard_lib.Ibreaker.{context_done}
use go_guard_lib.Health
use go_guard_lib.Health.{start_loop, run_loop}
use go_guard_lib.Breaker.{Config, Breaker, new, health_target, success, failure}
use go_guard_lib.Breaker.Permits.{
  Clients, Op, acquires, settles, op_run, IsAccounted, op_run-IsAccounted,
}
use go_guard_lib.Breaker.Prober.{IsWatched, Event, does, exits, event_run, new-event_run-IsWatched}
use go_guard_lib.Breaker.Recovery.{healthy, recovered, probes-recover}

abbrev a_check : Health.Config
a_check = record {
  interval = 10;
  max_interval = 100;
  timeout = 5;
  success_threshold = 2;
  max_open = 1000;
  max_open_off = false;
  trust_health = true;
}

abbrev a_config : Config
a_config = record {
  name = "db";
  failure_threshold = 5000;
  min_samples = 2;
  sampling_window = 1000;
  bucket_duration = 100;
  sleep_window = 50;
  max_inflight = 2;
  wait_timeout = 0;
  retry_budget = 0;
  dry_run = false;
  health = some a_check;
}

abbrev a_breaker : Breaker
a_breaker = new a_config 7 100

abbrev ops : List Op
ops =
    acquires false 101
    ∷ acquires false 102
    ∷ settles 0 failure 103
    ∷ settles 0 (success 4) 104
    ∷ settles 1 failure 105
    ∷ acquires false 106
    ∷ []

abbrev no_clients : Clients
no_clients = record { breaker = a_breaker; done_flags = [] }

op_run-IsAccounted_example : IsAccounted (op_run no_clients ops)
unfolding new Ibreaker.new_breaker Ibreaker.set_health_gate
op_run-IsAccounted_example = op_run-IsAccounted no_clients ops refl

abbrev all_count : Err → Bool
all_count e = true

abbrev events : List Event
events =
    does (acquires false 101)
    ∷ does (acquires false 102)
    ∷ does (settles 0 failure 103)
    ∷ does (settles 1 failure 104)
    ∷ exits
    ∷ []

new-event_run-IsWatched_example :
    IsWatched (event_run (record { breaker = new a_config 7 100; done_flags = [] }) events).breaker
new-event_run-IsWatched_example = new-event_run-IsWatched a_config 7 100 events

abbrev open_breaker : Breaker
open_breaker = record a_breaker {
  inner = record a_breaker.inner { state = state_open; last_failure = 104 };
}

abbrev two_probes : List ℕ
two_probes = 120 ∷ 130 ∷ []

probes-recover_example :
    (run_loop
      (health_target a_check)
      open_breaker
      (start_loop (health_target a_check) open_breaker)
      (healthy two_probes)).0.inner.state
    ≡ (if ltb (length two_probes) 2 then state_open else recovered true)
probes-recover_example = probes-recover a_check open_breaker two_probes refl (omega arith)
