-- ===== src/Cron/Service.antt =====
-- `CronService` of src/amberclaw/cron/service.py. The store in memory and the file are both state: each
-- load from the file makes new objects, which `loads` counts, so that a job taken from an older store
-- changes that store only. Clock readings, the times that the file system gives the file and the
-- outcomes of jobs are arguments. What other tasks do while a tick runs its jobs is in `cancelled_timer`.
use amber_claw.Base.{
  take, ℕ, ◌+◌, ◌-◌, Bool, true, false, not, ◌&&◌, Option, none, some, String, Result, ok, raise,
  leb, ltb, min, if◌then◌else◌, List, [], ◌∷◌, ◌++◌, filter, map, length, any,
}
use amber_claw.Base.Dict.{is_some, get_or}
use amber_claw.Base.Json.{Json}
use amber_claw.Base.Key.{text_key, ◌==◌}
use amber_claw.Cron.Store
use amber_claw.Cron.Types
use amber_claw.Cron.Types.{
  CronJob, CronJobState, CronSchedule, CronPayload, agent_turn, Croniter, compute_next_run,
  validate_schedule_for_add, is_at, ok_, error,
}
pub mod Timer
pub mod Earliest
pub mod Progress
pub mod Spent
pub mod OneShot
pub mod Cancelled

-- The file: its content, if it parses as JSON, and its modification time.
pub record File : Type 0 where
  pub content : Option Json
  pub mtime : ℕ

pub record CronService : Type 0 where
  pub store : Option (List CronJob)
  pub loads : ℕ
  pub file : Option File
  pub last_mtime : ℕ
  pub timer : Option ℕ
  pub running : Bool

abbrev pub same_time : ℕ → ℕ → Bool
same_time a b = leb a b && leb b a

abbrev parsed : Option Json → List CronJob
parsed none = []
parsed (some j) = get_or [] (Store.load_store j)

abbrev jobs_in : Option File → List CronJob
jobs_in none = []
jobs_in (some f) = parsed f.content

abbrev is_stale : ℕ → Option File → Bool
is_stale seen none = false
is_stale seen (some f) = not (same_time f.mtime seen)

-- `_load_store`. The time of the file that it loads is not kept.
unfoldable pub load_store : CronService → CronService
load_store s =
    if is_some s.store && not (is_stale s.last_mtime s.file)
    then s
    else record s { store = some (jobs_in s.file); loads = s.loads + 1 }

abbrev saved : ℕ → Option (List CronJob) → CronService → CronService
saved stamp none s = s
saved stamp (some js) s = record s {
  file = some (record { content = some (Store.save_store js); mtime = stamp });
  last_mtime = stamp;
}

-- `stamp` is the modification time that the write gives the file.
unfoldable pub save_store : ℕ → CronService → CronService
save_store stamp s = saved stamp s.store s

abbrev pub jobs : CronService → List CronJob
jobs s = get_or [] s.store

-- A time of 0 counts as none.
abbrev pub wake_of : Option ℕ → Option ℕ
wake_of none = none
wake_of (some n) = if leb n 0 then none else some n

abbrev pub earlier : Option ℕ → Option ℕ → Option ℕ
earlier none b = b
earlier (some a) none = some a
earlier (some a) (some b) = some (min a b)

unfoldable pub next_wake : List CronJob → Option ℕ
next_wake [] = none
next_wake (j ∷ js) =
    let rest = next_wake js in
    if j.enabled then earlier (wake_of j.state.next_run_at_ms) rest else rest

abbrev pub get_next_wake_ms : CronService → Option ℕ
get_next_wake_ms s = next_wake (jobs s)

-- The timer is the time at which it ticks.
unfoldable pub arm_timer : CronService → CronService
arm_timer s = record s { timer = if s.running then get_next_wake_ms s else none }

abbrev pub with_next : Option ℕ → CronJob → CronJob
with_next n j = record j { state = record j.state { next_run_at_ms = n } }

-- The change of the first stored object with an ID; the IDs of a store are taken to be distinct.
unfoldable pub update : String → (CronJob → CronJob) → List CronJob → List CronJob
update id f [] = []
update id f (j ∷ js) = let rest = update id f js in if j.id == id then f j ∷ js else j ∷ rest

unfoldable pub recompute : Croniter → ℕ → List CronJob → List CronJob
recompute croniter now [] = []
recompute croniter now (j ∷ js) =
    (if j.enabled then with_next (compute_next_run croniter j.schedule now) j else j)
    ∷ recompute croniter now js

abbrev recompute_next_runs : Croniter → ℕ → CronService → CronService
recompute_next_runs croniter now s = record s { store = some (recompute croniter now (jobs s)) }

unfoldable pub start : Croniter → ℕ → ℕ → CronService → CronService
start croniter now stamp s =
    arm_timer (
      save_store stamp
        (recompute_next_runs croniter now (load_store (record s { running = true }))))

unfoldable pub stop : CronService → CronService
stop s = record s { running = false; timer = none }

-- One execution: the clock at its start and at its two later readings, and the error if there is one.
pub record Run : Type 0 where
  pub started : ℕ
  pub ended : ℕ
  pub read : ℕ
  pub failure : Option String

-- The fields that `_execute_job` writes before it looks at the schedule.
abbrev noted : Run → CronJob → CronJob
noted r j = record j {
  state = record j.state {
    last_status = some (if is_some r.failure then error else ok_);
    last_error = r.failure;
    last_run_at_ms = some r.started;
  };
  updated_at_ms = r.ended;
}

unfoldable pub finished : Croniter → Run → CronJob → CronJob
finished croniter r j =
    if is_at j.schedule.kind
    then if j.delete_after_run
      then noted r j
      else record (with_next none (noted r j)) { enabled = false }
    else with_next (compute_next_run croniter j.schedule r.read) (noted r j)

abbrev without : String → List CronJob → List CronJob
without id = filter (λ j. not (j.id == id))

-- `_execute_job` on an object of the store that was current after `gen` loads.
unfoldable pub execute_job : Croniter → ℕ → Run → CronJob → CronService → CronService
execute_job croniter gen r j s =
    let s' =
      if same_time s.loads gen
      then record s { store = some (update j.id (finished croniter r) (jobs s)) }
      else s in
    let s'' = load_store s' in
    if is_at j.schedule.kind && j.delete_after_run
    then record s'' { store = some (without j.id (jobs s'')) }
    else s'

abbrev is_due_at : ℕ → Option ℕ → Bool
is_due_at now none = false
is_due_at now (some n) = ltb 0 n && leb n now

abbrev pub is_due : ℕ → CronJob → Bool
is_due now j = j.enabled && is_due_at now j.state.next_run_at_ms

unfoldable pub execute_all :
    Croniter → ℕ → (String → Run) → List CronJob → CronService → CronService
execute_all croniter gen runs [] s = s
execute_all croniter gen runs (j ∷ js) s =
    execute_all croniter gen runs js (execute_job croniter gen (runs j.id) j s)

-- `now` is the reading that finds the due jobs; `runs` gives the execution of each of them. This is a tick
-- during which no other task arms the timer.
unfoldable pub on_timer : Croniter → ℕ → (String → Run) → ℕ → CronService → CronService
on_timer croniter now runs stamp s =
    let s' = load_store s in
    arm_timer
      (save_store stamp (execute_all croniter s'.loads runs (filter (is_due now) (jobs s')) s'))

-- A tick in which another task arms the timer while the job after the first `n` due ones runs: that cancels
-- the task of the tick, as `_timer_task` is the tick itself. This is the state that the other task finds; the
-- rest of the tick does not take place.
unfoldable pub cancelled_timer : Croniter → ℕ → (String → Run) → ℕ → CronService → CronService
cancelled_timer croniter now runs n s =
    let s' = load_store s in
    execute_all croniter s'.loads runs (take n (filter (is_due now) (jobs s'))) s'

-- The arguments of `add_job` that make the payload.
pub record Message : Type 0 where
  pub message : String
  pub deliver : Bool
  pub channel : Option String
  pub to : Option String

abbrev agent_payload : Message → CronPayload
agent_payload m = record {
  kind = agent_turn;
  message = m.message;
  deliver = m.deliver;
  channel = m.channel;
  to = m.to;
}

abbrev added : Croniter → String → ℕ → String → CronSchedule → Message → Bool → CronJob
added croniter id now name schedule message delete_after_run = record {
  id = id;
  name = name;
  enabled = true;
  schedule = schedule;
  payload = agent_payload message;
  state = record Types.new_state { next_run_at_ms = compute_next_run croniter schedule now };
  created_at_ms = now;
  updated_at_ms = now;
  delete_after_run = delete_after_run;
}

abbrev append_valid :
    CronJob
    → ℕ
    → CronService
    → Result Types.Error (Unit {0})
    → CronService × Result Types.Error CronJob
append_valid j stamp s (raise e) = (s, raise e)
append_valid j stamp s (ok _) =
    (arm_timer (save_store stamp (record s { store = some (jobs s ++ j ∷ []) })), ok j)

-- `id` is the start of a new UUID.
unfoldable pub add_job :
    Croniter
    → (String → Bool)
    → String
    → ℕ
    → String
    → CronSchedule
    → Message
    → Bool
    → ℕ
    → CronService
    → CronService × Result Types.Error CronJob
add_job croniter known id now name schedule message delete_after_run stamp s =
    append_valid (added croniter id now name schedule message delete_after_run) stamp (load_store s)
      (validate_schedule_for_add known schedule)

unfoldable pub remove_job : String → ℕ → CronService → CronService × Bool
remove_job id stamp s =
    let s' = load_store s in
    let left = without id (jobs s') in
    let removed = ltb (length left) (length (jobs s')) in
    let s'' = record s' { store = some left } in
    (if removed then arm_timer (save_store stamp s'') else s'', removed)

abbrev switched : Croniter → Bool → ℕ → ℕ → CronJob → CronJob
switched croniter on updated read j =
    with_next (if on then compute_next_run croniter j.schedule read else none)
      (record j { enabled = on; updated_at_ms = updated })

abbrev pub find : String → List CronJob → Option CronJob
find id [] = none
find id (j ∷ js) = let rest = find id js in if j.id == id then some j else rest

unfoldable pub enable_job : Croniter → String → Bool → ℕ → ℕ → ℕ → CronService → CronService × Bool
enable_job croniter id on updated read stamp s =
    let s' = load_store s in
    if is_some (find id (jobs s'))
    then (
      arm_timer (
          save_store stamp
            (record s' { store = some (update id (switched croniter on updated read) (jobs s')) })),
      true,
    )
    else (s', false)

abbrev run_found : Croniter → Bool → Run → ℕ → CronService → Option CronJob → CronService × Bool
run_found croniter force r stamp s none = (s, false)
run_found croniter force r stamp s (some j) =
    if not force && not j.enabled
    then (s, false)
    else (arm_timer (save_store stamp (execute_job croniter s.loads r j s)), true)

unfoldable pub run_job : Croniter → String → Bool → Run → ℕ → CronService → CronService × Bool
run_job croniter id force r stamp s =
    let s' = load_store s in run_found croniter force r stamp s' (find id (jobs s'))

abbrev before : Option ℕ → Option ℕ → Bool
before (some a) (some b) = leb a b
before (some a) none = true
before none (some b) = false
before none none = true

abbrev pub sooner : CronJob → CronJob → Bool
sooner j k = before (wake_of j.state.next_run_at_ms) (wake_of k.state.next_run_at_ms)

-- `sorted` by the next run is stable; a job without one comes last.
unfoldable pub insert_sooner : CronJob → List CronJob → List CronJob
insert_sooner j [] = j ∷ []
insert_sooner j (k ∷ ks) = if sooner j k then j ∷ k ∷ ks else k ∷ insert_sooner j ks

unfoldable pub sort_sooner : List CronJob → List CronJob
sort_sooner [] = []
sort_sooner (j ∷ js) = insert_sooner j (sort_sooner js)

unfoldable pub list_jobs : Bool → CronService → CronService × List CronJob
list_jobs include_disabled s =
    let s' = load_store s in
    (s', sort_sooner (if include_disabled then jobs s' else filter (λ j. j.enabled) (jobs s')))

-- The dictionary of `status`.
pub record Status : Type 0 where
  pub enabled : Bool
  pub count : ℕ
  pub next_wake_at_ms : Option ℕ

unfoldable pub status : CronService → CronService × Status
status s =
    let s' = load_store s in
    (
      s',
      record {
        enabled = s'.running;
        count = length (jobs s');
        next_wake_at_ms = get_next_wake_ms s';
      },
    )
