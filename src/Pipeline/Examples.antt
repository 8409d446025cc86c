-- ===== src/Pipeline/Examples.antt =====
-- pipeline/pipeline.go: the theorems on an order of two steps, a reservation that can be undone and a
-- charge.
use Prim.Native.String.{String}
use go_guard_lib.Prelude.{
  ℕ, suc, ◌+◌, ◌*◌, ◌≤◌, ◌≡◌, refl, Bool, true, false, if◌then◌else◌, ◌==◌, Option, none, some,
  List, [], ◌∷◌, length, get_elem?, arith,
}
use go_guard_lib.Errors.{Err, plain, permanent_error, any_link, is_permanent, live, CtxErr}
use go_guard_lib.Breaker.{returned}
use go_guard_lib.Retry.{Policy, default_retryable}
use go_guard_lib.Dlq.Memory.{MemoryStore, new_memory_store, read}
use go_guard_lib.Dlq.Memory.Promised.{memory_store}
use go_guard_lib.Pipeline.{Step, Pipeline, Checkpoint, load, loaded}
use go_guard_lib.Pipeline.Run.{
  Attempt, Around, Surroundings, Event, ran, Run, fresh, in_checkpoint, advance, resume_each,
  compensate,
}
use go_guard_lib.Pipeline.Run.Once.{runs, hit}
use go_guard_lib.Pipeline.Run.Well.{ran_well}
use go_guard_lib.Pipeline.Run.Resume.{resume_each-runs}
use go_guard_lib.Pipeline.Run.Undone.{
  undos, undone_well, owed, backward_from, compensate-undos, compensate_complete,
}
use go_guard_lib.Pipeline.Execute.{Input, execute, ended, handler}
use go_guard_lib.Pipeline.Execute.Safe.{live_run, execute-done, handler-resumes}
use go_guard_lib.Pipeline.Rewind.{rewind, rewound_to, step_index}
use go_guard_lib.Pipeline.Rewind.Resumes.{is_named, rewind-resumes}

abbrev no_retries : Policy
no_retries = record { max_retries = 0; backoff = none; retryable = default_retryable }

abbrev a_step : String → Bool → Step
a_step name compensates = record {
  name = name;
  dependency = "";
  breaker = none;
  health_url = "";
  retry = no_retries;
  retries = 0;
  has_run = true;
  has_http = false;
  save_as = "";
  compensates = compensates;
}

abbrev order_steps : List Step
order_steps = a_step "reserve" true ∷ a_step "charge" false ∷ []

abbrev order : Pipeline
order = record { name = "order"; version = "1"; steps = order_steps; saga = true; owned = [] }

abbrev attempt : Option Err → ℕ → Attempt
attempt e n = record { refused = none; ends = returned e }

abbrev around : Option Err → Around
around e = record {
  attempts = attempt e;
  ctx_ended = λ n. false;
  wait_ended = λ n. false;
  change = λ s. s;
  ctx = live;
  at = 5;
  persisted = none;
}

-- Only the step at index 1 ends with the error.
abbrev charge_ends : Option Err → Surroundings
charge_ends e = record {
  forward = λ i. around (if i == 1 then e else none);
  backward = λ i. around none;
  turning = none;
}

abbrev hidden : Err → String
hidden e = "an error"

abbrev outage : Surroundings
outage = charge_ends (some (plain 7))

abbrev recovery : Surroundings
recovery = charge_ends none

abbrev start : Checkpoint
start = record {
  v = 1;
  pipeline = "order";
  version = "1";
  completed = [];
  phase = "forward";
  compensated = [];
  failed_step = "";
  fail_reason = "";
  epoch = 0;
  state = [];
}

abbrev two_goes : Checkpoint × List Event
two_goes = resume_each hidden order start (outage ∷ recovery ∷ [])

resume_each-runs_example :
    (hit 0 (length two_goes.0.completed) 1 ≤ ran_well 1 two_goes.1)
    × (runs 1 two_goes.1 ≤ hit 0 (suc (length two_goes.0.completed)) 1 * 2)
    × (0 ≤ length two_goes.0.completed)
resume_each-runs_example = resume_each-runs hidden order start (outage ∷ recovery ∷ []) 1

-- The charge is tried twice, the reservation made once.
two_goes-events : two_goes.1 ≡ ran 1 none ∷ ran 1 (some (plain 7)) ∷ ran 0 none ∷ []
unfolding resume_each is_permanent go_guard_lib.Errors.is_open
two_goes-events = refl

abbrev a_message : Input
a_message = record {
  id = "m1";
  source = record { kind = "kafka"; name = "orders"; partition = 0; offset = 4 };
  key = none;
  value = some (1 ∷ 2 ∷ []);
  headers = [];
  order_key = "";
}

abbrev draws : ℕ → String
draws n = "token"

abbrev no_records : MemoryStore
no_records = new_memory_store (record { max_records = 0; max_bytes = some 0; max_record_bytes = 0 })

abbrev encode_length : Checkpoint → List ℕ
encode_length c = suc (length c.completed) ∷ []

execute-done_example :
    (runs 1 (live_run hidden order recovery).0.events ≡ 1)
    × (ran_well 1 (live_run hidden order recovery).0.events ≡ 1)
    × ((execute (memory_store draws) hidden encode_length order recovery no_records a_message 9).0
        ≡ no_records)
unfolding execute
execute-done_example =
    execute-done (memory_store draws) hidden encode_length order recovery no_records a_message 9 1
      refl (omega arith)

abbrev deferred_at : Checkpoint
deferred_at = in_checkpoint (live_run hidden order outage).0

abbrev decode_deferred : List ℕ → Option Checkpoint
decode_deferred bs = some deferred_at

abbrev resumed : Run × Option Err
resumed = advance hidden order recovery (fresh false deferred_at)

handler-resumes_example :
    (handler hidden decode_deferred order recovery (some (encode_length deferred_at))
      ≡ ended resumed.0 resumed.1)
    × (ran_well 0 (live_run hidden order outage).0.events + ran_well 0 resumed.0.events
        ≡ hit 0 (length resumed.0.cp.completed) 0)
    × (runs 0 (live_run hidden order outage).0.events + runs 0 resumed.0.events
        ≤ hit 0 (suc (length resumed.0.cp.completed)) 0
          + hit (length deferred_at.completed) (suc (length deferred_at.completed)) 0)
handler-resumes_example =
    handler-resumes hidden encode_length decode_deferred order outage recovery 0
      (λ e. ground (arith, e)) refl

-- The charge has failed for good.
abbrev turned_back : Checkpoint
turned_back = record start {
  completed = record { step = "reserve"; at = 5 } ∷ [];
  phase = "compensating";
  failed_step = "charge";
  fail_reason = "declined";
}

compensate-undos_example :
    (undos 0 (compensate order recovery (fresh false turned_back)).0.events ≤ owed order [] 1 0)
    × (backward_from 0 (compensate order recovery (fresh false turned_back)).0.events ≡ true)
compensate-undos_example = compensate-undos order recovery turned_back 0

compensate_complete_example :
    undone_well 0 (compensate order recovery (fresh false turned_back)).0.events ≡ owed order [] 1 0
unfolding compensate
compensate_complete_example = compensate_complete order recovery turned_back 0 refl

abbrev gone : Checkpoint
gone = record turned_back { compensated = "reserve" ∷ [] }

abbrev decode_gone : List ℕ → Option Checkpoint
decode_gone [] = none
decode_gone (n ∷ ns) = if n == 1 then some (rewound_to 0 gone) else some gone

abbrev again : Run
again = (advance hidden order recovery (fresh false (rewound_to 0 gone))).0

rewind-resumes_example :
    (rewind decode_gone encode_length order (some (2 ∷ [])) "reserve"
      ≡ read (encode_length (rewound_to 0 gone)))
    × (load decode_gone order (some (encode_length (rewound_to 0 gone)))
        ≡ loaded (rewound_to 0 gone))
    × (is_named "reserve" (get_elem? order.steps 0) ≡ true)
    × (1 ≤ runs 0 again.events)
    × (ran_well 0 again.events ≡ hit 0 (length again.cp.completed) 0)
    × (runs 0 again.events ≤ hit 0 (suc (length again.cp.completed)) 0)
unfolding load step_index rewound_to
rewind-resumes_example =
    rewind-resumes hidden decode_gone encode_length order (some (2 ∷ [])) "reserve" gone 0 refl refl
      (omega arith) refl (λ e. ground (arith, e)) refl recovery 0

abbrev every_step : Step → Bool
every_step st = true
