-- ===== src/Cron/Store/RoundTrip.antt =====
-- Saving and loading the jobs of cron/service.py.
use amber_claw.Base.{◌≡◌, refl, Option, none, some, String, List, [], ◌∷◌, ℕ}
use amber_claw.Base.Json.{find, or_null, as_number, as_text, opt_number, opt_text}
use amber_claw.Base.Key.{text_key}
use amber_claw.Cron.Types.{
  CronSchedule, CronPayload, CronJobState, CronJob, ScheduleKind, PayloadKind, Status, at, every,
  cron, system_event, agent_turn, ok_, error, skipped,
}
use amber_claw.Cron.Store.{
  write_schedule, write_payload, write_state, write_job, write_jobs, save_store, read_schedule,
  read_payload, read_state, read_job, read_jobs, load_store, read_kind, write_kind,
  read_payload_kind, write_payload_kind, read_status, write_status,
}

read_kind-write_kind : (k : ScheduleKind) → read_kind (write_kind k) ≡ some k
read_kind-write_kind at = refl
read_kind-write_kind every = refl
read_kind-write_kind cron = refl

or_null-number : (o : Option ℕ) → or_null as_number (opt_number o) ≡ some o
or_null-number none = refl
or_null-number (some n) = refl

or_null-text : (o : Option String) → or_null as_text (opt_text o) ≡ some o
or_null-text none = refl
or_null-text (some s) = refl

read_schedule-write_schedule : (s : CronSchedule) → read_schedule (write_schedule s) ≡ some s
unfolding read_schedule find
read_schedule-write_schedule s = simp (read_kind-write_kind, or_null-number, or_null-text)

read_payload_kind-write_payload_kind :
    (k : PayloadKind) → read_payload_kind (write_payload_kind k) ≡ some k
read_payload_kind-write_payload_kind system_event = refl
read_payload_kind-write_payload_kind agent_turn = refl

or_null-write_status : (o : Option Status) → or_null read_status (write_status o) ≡ some o
or_null-write_status none = refl
or_null-write_status (some ok_) = refl
or_null-write_status (some error) = refl
or_null-write_status (some skipped) = refl

read_payload-write_payload : (p : CronPayload) → read_payload (write_payload p) ≡ some p
unfolding read_payload find
read_payload-write_payload p = simp (read_payload_kind-write_payload_kind, or_null-text)

read_state-write_state : (s : CronJobState) → read_state (write_state s) ≡ some s
unfolding read_state find
read_state-write_state s = simp (or_null-number, or_null-text, or_null-write_status)

read_job-write_job : (j : CronJob) → read_job (write_job j) ≡ some j
unfolding read_job write_job find
read_job-write_job j =
    simp (read_schedule-write_schedule, read_payload-write_payload, read_state-write_state)

read_jobs-write_jobs : (js : List CronJob) → read_jobs (write_jobs js) ≡ some js
unfolding read_jobs write_jobs
read_jobs-write_jobs [] = refl
read_jobs-write_jobs (j ∷ js) = simp (read_job-write_job, read_jobs-write_jobs js)

-- Loading the file that saving wrote gives back the jobs, every field of them, in their order.
pub load_store-save_store : (js : List CronJob) → load_store (save_store js) ≡ some js
unfolding load_store save_store find
load_store-save_store js = read_jobs-write_jobs js
