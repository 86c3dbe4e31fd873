-- ===== src/Cron/Store.antt =====
-- The file of cron/service.py: `_save_store` writes the jobs as JSON, `_load_store` reads them. A value
-- of another type than its field fails to load here, as a missing key does.
use amber_claw.Base.{
  ℕ, ◌≡◌, refl, Bool, true, false, Option, none, some, String, List, [], ◌∷◌, if◌then◌else◌,
}
use amber_claw.Base.Json.{
  Json, Items, Members, null, bool, number, text, array, object, nil, cons, end, member, find,
  ◌>>=◌, members, as_text, as_bool, as_number, or_null, get_default, opt_number, opt_text,
}
use amber_claw.Base.Key.{text_key, ◌==◌}
use amber_claw.Cron.Types
use amber_claw.Cron.Types.{
  CronSchedule, CronPayload, CronJobState, CronJob, ScheduleKind, PayloadKind, Status, at, every,
  cron, system_event, agent_turn, ok_, error, skipped,
}
pub mod RoundTrip

abbrev write_kind : ScheduleKind → Json
write_kind at = text "at"
write_kind every = text "every"
write_kind cron = text "cron"

abbrev write_payload_kind : PayloadKind → Json
write_payload_kind system_event = text "system_event"
write_payload_kind agent_turn = text "agent_turn"

abbrev write_status : Option Status → Json
write_status none = null
write_status (some ok_) = text "ok"
write_status (some error) = text "error"
write_status (some skipped) = text "skipped"

abbrev write_schedule : CronSchedule → Json
write_schedule s = object (
    member "kind" (write_kind s.kind) (
      member "atMs" (opt_number s.at_ms) (
        member "everyMs" (opt_number s.every_ms)
          (member "expr" (opt_text s.expr) (member "tz" (opt_text s.tz) end)))))

abbrev write_payload : CronPayload → Json
write_payload p = object (
    member "kind" (write_payload_kind p.kind) (
      member "message" (text p.message) (
        member "deliver" (bool p.deliver)
          (member "channel" (opt_text p.channel) (member "to" (opt_text p.to) end)))))

abbrev write_state : CronJobState → Json
write_state s = object (
    member "nextRunAtMs" (opt_number s.next_run_at_ms) (
      member "lastRunAtMs" (opt_number s.last_run_at_ms) (
        member "lastStatus" (write_status s.last_status)
          (member "lastError" (opt_text s.last_error) end))))

unfoldable pub write_job : CronJob → Json
write_job j = object (
    member "id" (text j.id) (
      member "name" (text j.name) (
        member "enabled" (bool j.enabled) (
          member "schedule" (write_schedule j.schedule) (
            member "payload" (write_payload j.payload) (
              member "state" (write_state j.state) (
                member "createdAtMs" (number j.created_at_ms) (
                  member "updatedAtMs" (number j.updated_at_ms)
                    (member "deleteAfterRun" (bool j.delete_after_run) end)))))))))

unfoldable pub write_jobs : List CronJob → Items
write_jobs [] = nil
write_jobs (j ∷ js) = cons (write_job j) (write_jobs js)

-- The `data` of `_save_store`.
unfoldable pub save_store : List CronJob → Json
save_store js = object (member "version" (number 1) (member "jobs" (array (write_jobs js)) end))

abbrev read_kind : Json → Option ScheduleKind
read_kind j = as_text j >>= λ s.
    if s == "at"
    then some at
    else if s == "every"
    then some every
    else if s == "cron"
    then some cron
    else none

abbrev read_payload_kind : Json → Option PayloadKind
read_payload_kind j = as_text j >>= λ s.
    if s == "system_event"
    then some system_event
    else if s == "agent_turn"
    then some agent_turn
    else none

abbrev read_status : Json → Option Status
read_status j = as_text j >>= λ s.
    if s == "ok"
    then some ok_
    else if s == "error"
    then some error
    else if s == "skipped"
    then some skipped
    else none

-- `d[key]` on members.
abbrev need : String → Members → Option Json
need key ms = find key ms

-- `d.get(key)`, null where it is missing.
abbrev may : {A : Type 0} → (Json → Option A) → String → Members → Option (Option A)
may read key ms = get_default (or_null read) none (find key ms)

unfoldable pub read_schedule : Json → Option CronSchedule
read_schedule j = do
  ms ← members j
  k ← need "kind" ms
  kind ← read_kind k
  at_ms ← may as_number "atMs" ms
  every_ms ← may as_number "everyMs" ms
  expr ← may as_text "expr" ms
  tz ← may as_text "tz" ms
  some (record { kind = kind; at_ms = at_ms; every_ms = every_ms; expr = expr; tz = tz })

unfoldable pub read_payload : Json → Option CronPayload
read_payload j = do
  ms ← members j
  kind ← get_default read_payload_kind agent_turn (find "kind" ms)
  message ← get_default as_text "" (find "message" ms)
  deliver ← get_default as_bool false (find "deliver" ms)
  channel ← may as_text "channel" ms
  to ← may as_text "to" ms
  some (record { kind = kind; message = message; deliver = deliver; channel = channel; to = to })

unfoldable pub read_state : Json → Option CronJobState
read_state j = do
  ms ← members j
  next ← may as_number "nextRunAtMs" ms
  last ← may as_number "lastRunAtMs" ms
  status ← may read_status "lastStatus" ms
  failure ← may as_text "lastError" ms
  some (record {
    next_run_at_ms = next;
    last_run_at_ms = last;
    last_status = status;
    last_error = failure;
  })

unfoldable pub read_job : Json → Option CronJob
read_job j = do
  ms ← members j
  i ← need "id" ms
  id ← as_text i
  n ← need "name" ms
  name ← as_text n
  enabled ← get_default as_bool true (find "enabled" ms)
  s ← need "schedule" ms
  schedule ← read_schedule s
  p ← need "payload" ms
  payload ← read_payload p
  state ← get_default read_state Types.new_state (find "state" ms)
  created ← get_default as_number 0 (find "createdAtMs" ms)
  updated ← get_default as_number 0 (find "updatedAtMs" ms)
  delete ← get_default as_bool false (find "deleteAfterRun" ms)
  some (record {
    id = id;
    name = name;
    enabled = enabled;
    schedule = schedule;
    payload = payload;
    state = state;
    created_at_ms = created;
    updated_at_ms = updated;
    delete_after_run = delete;
  })

unfoldable pub read_jobs : Items → Option (List CronJob)
read_jobs nil = some []
read_jobs (cons j js) = do job ← read_job j; jobs ← read_jobs js; some (job ∷ jobs)

abbrev items : Json → Option Items
items (array xs) = some xs
items _ = none

-- What `_load_store` makes of the file's content; `none` is an exception.
unfoldable pub load_store : Json → Option (List CronJob)
load_store j = do ms ← members j; xs ← get_default items nil (find "jobs" ms); read_jobs xs
