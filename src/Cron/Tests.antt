-- ===== src/Cron/Tests.antt =====
-- Runs of src/amberclaw/cron, and its theorems at them.
use amber_claw.Base.{
  ℕ, ◌+◌, ◌≡◌, refl, ◌⊎◌, inl, inr, Bool, true, false, Option, none, some, String, raise, List, [],
  ◌∷◌, map, All, arith, length, filter, if◌then◌else◌,
}
use amber_claw.Base.Json.{find}
use amber_claw.Base.Key.{text_key, ◌==◌, truthy}
use amber_claw.Cron.Types.{
  CronJob, CronSchedule, Croniter, at, every, agent_turn, new_state, compute_next_run,
  validate_schedule_for_add, tz_without_cron,
}
use amber_claw.Cron.Store.{
  write_job, write_jobs, save_store, read_schedule, read_payload, read_state, read_job, read_jobs,
  load_store,
}
use amber_claw.Cron.Store.RoundTrip.{load_store-save_store}
use amber_claw.Cron.Service
use amber_claw.Cron.Service.{
  CronService, Message, File, Run, jobs, update, recompute, next_wake, finished, execute_job,
  execute_all, is_due, on_timer, cancelled_timer, arm_timer, add_job, remove_job, enable_job,
  run_job, start, stop, insert_sooner, sort_sooner, list_jobs,
}
use amber_claw.Cron.Service.Timer.{IsSynced, settle}
use amber_claw.Cron.Service.Earliest.{IsEarliest, on_timer-settle}
use amber_claw.Cron.Service.Progress.{IsLawful, is_later, on_timer-progress}
use amber_claw.Cron.Service.OneShot.{
  Call, begin, tick, insert, remove, switch, run_now, step, run, run-one_shot,
}

program : Unit {0}
unfolding truthy find compute_next_run validate_schedule_for_add write_job write_jobs save_store
    read_schedule read_payload read_state read_job read_jobs load_store Service.load_store
    Service.save_store update recompute next_wake finished execute_job execute_all on_timer
    cancelled_timer arm_timer add_job remove_job enable_job run_job start stop insert_sooner
    sort_sooner list_jobs step run
program = tt

-- A `croniter` of every minute.
abbrev minutely : Croniter
minutely expr tz now = some (now + 60000)

minutely-IsLawful : IsLawful minutely
minutely-IsLawful expr tz now n e = ground (arith, e)

abbrev hourly : CronSchedule
hourly = record { kind = every; at_ms = none; every_ms = some 3600000; expr = none; tz = none }

abbrev once : CronSchedule
once = record { kind = at; at_ms = some 40; every_ms = none; expr = none; tz = none }

abbrev job : String → CronSchedule → ℕ → Bool → CronJob
job id schedule next delete_after_run = record {
  id = id;
  name = id;
  enabled = true;
  schedule = schedule;
  payload = record {
    kind = agent_turn;
    message = "go";
    deliver = false;
    channel = none;
    to = some "me";
  };
  state = record new_state { next_run_at_ms = some next };
  created_at_ms = 1;
  updated_at_ms = 2;
  delete_after_run = delete_after_run;
}

abbrev message : Message
message = record { message = "go"; deliver = false; channel = none; to = some "me" }

abbrev stored : List CronJob
stored = job "a" hourly 50 false ∷ job "b" once 40 false ∷ job "c" once 90 true ∷ []

abbrev service : CronService
service = record {
  store = some stored;
  loads = 1;
  file = none;
  last_mtime = 0;
  timer = none;
  running = true;
}

-- Each run takes ten milliseconds, and that of the second job fails.
abbrev runs : String → Run
runs id = record {
  started = 60;
  ended = 70;
  read = 70;
  failure = if id == "b" then some "no network" else none;
}

abbrev plans : List CronJob → List (Bool × Option ℕ)
plans [] = []
plans (j ∷ js) = (j.enabled, j.state.next_run_at_ms) ∷ plans js

ticked :
    plans (jobs (on_timer minutely 60 runs 7 service))
    ≡ (true, some 3600070) ∷ (false, none) ∷ (true, some 90) ∷ []
unfolding program
ticked = refl

armed : (on_timer minutely 60 runs 7 service).timer ≡ some 90
unfolding program
armed = refl

zone_refused :
    (add_job minutely
      (λ z. true)
      "d"
      5
      "d"
      (record hourly { tz = some "UTC" })
      message
      false
      8
      service).1
    ≡ raise tz_without_cron
unfolding program
zone_refused = refl

disabled_last :
    map (λ j. j.id) (list_jobs true (enable_job minutely "b" false 61 62 9 service).0).1
    ≡ "a" ∷ "c" ∷ "b" ∷ []
unfolding program
disabled_last = refl

-- The file has been written by somebody else: the tick loads it once for itself and once more when it
-- deletes the second job, which loses the new time of the first.
abbrev changed : CronService
changed = record service {
  file = some (record {
    content = some (save_store (job "a" hourly 50 false ∷ job "b" once 40 true ∷ []));
    mtime = 9;
  });
  last_mtime = 5;
}

due_again : map (is_due 60) (jobs (on_timer minutely 60 runs 11 changed)) ≡ true ∷ []
unfolding program
due_again = refl

load_store-save_store_example : load_store (save_store stored) ≡ some stored
load_store-save_store_example = load_store-save_store stored

on_timer-settle_example :
    let s' = on_timer minutely 60 runs 7 service in
    (jobs s' ≡ settle minutely 60 runs (jobs service))
    × (((service.running ≡ true) × IsEarliest s'.timer (jobs s'))
        ⊎ ((service.running ≡ false) × (s'.timer ≡ none)))
    × IsSynced s'
on_timer-settle_example =
    on_timer-settle minutely 60 runs 7 service (refl, refl) (refl, (refl, (refl, tt)))

on_timer-progress_example :
    let s' = on_timer minutely 60 runs 7 service in
    All (λ j. is_due 60 j ≡ false) (jobs s') × (is_later 60 s'.timer ≡ true)
on_timer-progress_example =
    on_timer-progress minutely 60 runs 7 service minutely-IsLawful (λ id. omega arith) (refl, refl)
      (refl, (refl, (refl, tt)))

-- Of the two jobs that are due, the one that was running when the tick was cancelled is due still.
still_due : length (filter (is_due 60) (jobs (cancelled_timer minutely 60 runs 1 service))) ≡ 1
unfolding program
still_due = refl

abbrev calls : List Call
calls =
    switch "b" true 80 80 12
    ∷ begin 85 13
    ∷ run_now "b" true (runs "b") 14
    ∷ tick 95 runs 15
    ∷ remove "a" 16
    ∷ insert "d" 99 "d" hourly message false 17
    ∷ []

run-one_shot_example :
    All
      (λ j. ((j.id == "b") ≡ false) ⊎ (is_due 5000 j ≡ false))
      (jobs (run minutely (λ z. true) calls (on_timer minutely 60 runs 7 service)))
run-one_shot_example =
    run-one_shot minutely (λ z. true) "b" 60 5000 runs 7 calls service (refl, refl)
      (refl, (refl, (refl, tt))) (inl refl, (inr (refl, refl, refl), (inl refl, tt)))
      (omega arith, (omega arith, (tt, (tt, (tt, (refl, tt))))))
