-- ===== src/Examples/Services.antt =====
-- The theorems about the stops, exits and starts of crates/services/src/services.rs at a service of
-- one process.
use rind.Prelude.{
  ℕ, suc, ◌≡◌, ◌≢◌, refl, arith, Bool, true, false, none, some, [], ◌∷◌, List, All, nat_eq,
  get_elem?,
}
use rind.Set
use rind.Text.{Text, codes, text_eq}
use rind.Error.{CoreResult, ok}
use rind.Services.{
  ServiceMetadata, Service, ServiceRuntime, active, one, on_failure, RestartPolicy, always, system,
  new, graceful, ChildInstance,
}
use rind.Services.Instances.{new_instance, find_by_pid, pid, pids, has_pid, as_many, is_active}
use rind.Services.Stopping.{stop_service, timeout_sweep}
use rind.Services.Stopping.Swept.{Killed, stop_service-timeout_sweep}
use rind.Services.Exits.{handle_child_exit, found_at, exit_found, exit_at, exit_action, after_exit}
use rind.Services.Exits.Restarts.{restarts, Answers, handle_child_exit-restarts}
use rind.Services.Starting.{
  start_service, start_unless, spawn_all, spawn_each, started_with, set_first, is_inactive,
  first_is_live,
}
use rind.Services.Runs.{Outside, here, next, by_itself, starts, start_again, exit_service, Drift}
use rind.Services.Runs.Retries.{restart_never_exhausted}
use rind.Services.Runs.Stuck.{singleton_restarts_once}
use rind.Services.Order.{Pending, rounds}
use rind.Services.Order.Resolved.{Starts, IsReady, rounds_lem}
use rind.Examples.Values.{ids}
use mathlib.Core.Option

abbrev outside : Outside
outside = record {
  codec = ids;
  launch = λ run ctx. ok (record { user = none; handle = record { pid = some 7 }; timer = none });
  resolve = λ run. run;
  message = λ e. [];
  facets = none;
  exists = λ path. false;
  registry_key = codes "a";
}

abbrev pub described : RestartPolicy → ServiceMetadata
described policy = record {
  name = codes "a";
  run = one (record { exec = codes "a"; args = []; variable = none; files = none });
  space = system;
  singleton = true;
  cleanup = false;
  user_source = none;
  restart = some policy;
  cgroup = none;
  namespaces = none;
}

abbrev pub blank : ServiceRuntime
blank = record { pid_map = []; stopping_map = []; watchdog_fds = []; watchdog_pids = [] }

abbrev pub process : ChildInstance
process = record {
  key = [];
  user = none;
  handle = some (record { pid = some 7 });
  state = active;
  retry_count = 0;
  stop_time = none;
  manually_stopped = false;
}

abbrev pub service : RestartPolicy → Service
service policy = record {
  metadata = described policy;
  instances = process ∷ [];
  last_state = active;
}

abbrev begun : Service
begun = start_again outside blank (new (described (on_failure 2)))

begun_found : find_by_pid 7 begun.instances ≡ some 0
unfolding start_service start_unless spawn_all spawn_each started_with set_first is_inactive
    find_by_pid new_instance pid has_pid new first_is_live as_many Option.bind
begun_found = refl

begun_at : get_elem? begun.instances 0 ≡ some process
unfolding start_service start_unless spawn_all spawn_each started_with set_first is_inactive
    new_instance new first_is_live as_many Option.bind
begun_at = refl

begun_policy : begun.metadata.restart ≡ some (on_failure 2)
unfolding start_service start_unless spawn_all spawn_each started_with is_inactive new first_is_live
    as_many
begun_policy = refl

one≢zero : ◌≢◌ {A = ℕ} 1 0
one≢zero e = omega arith

restart_never_exhausted_example :
    (process.retry_count ≡ 0)
    × (restarts (handle_child_exit true outside.exists outside.registry_key 7 1 begun blank).0.0
        ≡ true)
restart_never_exhausted_example =
    restart_never_exhausted outside (described (on_failure 2)) begun
      (next here (by_itself (starts blank refl))) 2 7 1 0 process begun_policy (omega arith)
      one≢zero begun_found begun_at refl true blank

has_process_seven : Set.contains 7 (pids (process ∷ [])) ≡ true
unfolding Set.contains pids pid Option.bind
has_process_seven = refl

stop_service-timeout_sweep_example : Killed 7 (
    timeout_sweep 16 5
      (stop_service 10 graceful none none none none false (service (always true)) blank).1)
stop_service-timeout_sweep_example =
    stop_service-timeout_sweep 10 16 5 7 graceful none false (service (always true)) blank
      has_process_seven (omega arith)

process_found : found_at 7 (process ∷ []) ≡ some (0, process)
unfolding find_by_pid pid has_pid Option.bind
process_found = refl

handle_child_exit-restarts_example :
    Answers true
      (handle_child_exit true outside.exists (codes "a") 7 1 (service (on_failure 2)) blank).0
handle_child_exit-restarts_example =
    handle_child_exit-restarts true outside.exists (codes "a") 7 1 0 process
      (service (on_failure 2)) blank process_found

process_pid : has_pid 7 (pid process) ≡ true
unfolding has_pid pid Option.bind
process_pid = refl

spawned :
    (spawn_all ids outside.launch outside.resolve outside.message none
      (codes "a")
      none
      (exit_service outside true 7 1 blank (service (always true)))
      blank).0
    ≡ ok (process ∷ [])
unfolding spawn_all spawn_each is_inactive new_instance as_many handle_child_exit exit_found exit_at
    exit_action after_exit find_by_pid pid has_pid Option.bind
spawned = refl

singleton_restarts_once_example :
    let restarted =
      start_again outside blank (exit_service outside true 7 1 blank (service (always true))) in
    (is_active restarted.instances ≡ true)
    × ((now : ServiceRuntime)
        → start_service ids outside.launch outside.resolve outside.message none
            (codes "a")
            restarted
            now
          ≡ (restarted, now, []))
singleton_restarts_once_example =
    singleton_restarts_once outside (service (always true))
      (start_again outside blank (exit_service outside true 7 1 blank (service (always true))))
      process true 7 1 blank blank (process ∷ []) refl refl process_pid refl spawned Drift.here

abbrev waiting : List Pending
waiting =
    record { name = codes "b"; after = codes "a" ∷ []; has_start_on = false }
    ∷ record { name = codes "d"; after = codes "c" ∷ []; has_start_on = false }
    ∷ []

abbrev counts : Text → ℕ → CoreResult (Unit {0}) × ℕ
counts name n = (ok tt, suc n)

abbrev idle : Text → ℕ → Bool
idle name n = false

rounds_lem_example :
    (left : List Pending) × (ended : List Text) × (last : ℕ) × (rounds idle counts 3 waiting
        (codes "a" ∷ [])
        0
      ≡ some (left, ended, last))
    × Starts idle counts waiting (codes "a" ∷ []) 0 left ended last
    × All (λ p. ¬ IsReady ended p) left
rounds_lem_example = rounds_lem idle counts 3 waiting (codes "a" ∷ []) 0 (omega arith)
