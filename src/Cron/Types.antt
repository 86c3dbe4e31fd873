-- ===== src/Cron/Types.antt =====
-- src/amberclaw/cron/types.py, and the schedules of cron/service.py. Times are milliseconds; `croniter`
-- is a parameter that gives the next time of an expression in a time zone after a time, or nothing
-- where it raises.
use amber_claw.Base.{
  ℕ, ◌+◌, Bool, true, false, not, ◌&&◌, Option, none, some, String, Result, ok, raise, leb, ltb,
  if◌then◌else◌,
}
use amber_claw.Base.Key.{text_key, truthy}

pub data ScheduleKind : Type 0 where
  at every cron : ScheduleKind

pub record CronSchedule : Type 0 where
  pub kind : ScheduleKind
  pub at_ms : Option ℕ
  pub every_ms : Option ℕ
  pub expr : Option String
  pub tz : Option String

pub data PayloadKind : Type 0 where
  system_event agent_turn : PayloadKind

pub record CronPayload : Type 0 where
  pub kind : PayloadKind
  pub message : String
  pub deliver : Bool
  pub channel : Option String
  pub to : Option String

pub data Status : Type 0 where
  ok_ error skipped : Status

pub record CronJobState : Type 0 where
  pub next_run_at_ms : Option ℕ
  pub last_run_at_ms : Option ℕ
  pub last_status : Option Status
  pub last_error : Option String

abbrev pub new_state : CronJobState
new_state = record {
  next_run_at_ms = none;
  last_run_at_ms = none;
  last_status = none;
  last_error = none;
}

pub record CronJob : Type 0 where
  pub id : String
  pub name : String
  pub enabled : Bool
  pub schedule : CronSchedule
  pub payload : CronPayload
  pub state : CronJobState
  pub created_at_ms : ℕ
  pub updated_at_ms : ℕ
  pub delete_after_run : Bool

abbrev pub Croniter : Type 0
Croniter = String → Option String → ℕ → Option ℕ

-- `at_ms if at_ms and at_ms > now_ms else None`
abbrev pub later : ℕ → Option ℕ → Option ℕ
later now none = none
later now (some n) = if ltb 0 n && ltb now n then some n else none

-- A missing interval and one of 0 give no run.
abbrev pub after : ℕ → Option ℕ → Option ℕ
after now none = none
after now (some n) = if leb n 0 then none else some (now + n)

abbrev pub next_of : Croniter → Option String → Option String → ℕ → Option ℕ
next_of croniter none tz now = none
next_of croniter (some e) tz now = if truthy e then croniter e tz now else none

abbrev compute : Croniter → ScheduleKind → CronSchedule → ℕ → Option ℕ
compute croniter at s now = later now s.at_ms
compute croniter every s now = after now s.every_ms
compute croniter cron s now = next_of croniter s.expr s.tz now

unfoldable pub compute_next_run : Croniter → CronSchedule → ℕ → Option ℕ
compute_next_run croniter s now = compute croniter s.kind s now

pub data Error : Type 0 where
  tz_without_cron unknown_timezone : Error

abbrev given : Option String → Bool
given none = false
given (some s) = truthy s

abbrev pub is_cron : ScheduleKind → Bool
is_cron cron = true
is_cron _ = false

abbrev pub is_at : ScheduleKind → Bool
is_at at = true
is_at _ = false

abbrev zone_of : (String → Bool) → Option String → Bool
zone_of known none = true
zone_of known (some z) = known z

-- `known` is whether `ZoneInfo` knows a name.
unfoldable pub validate_schedule_for_add : (String → Bool) → CronSchedule → Result Error (Unit {0})
validate_schedule_for_add known s =
    if given s.tz && not (is_cron s.kind)
    then raise tz_without_cron
    else if given s.tz && not (zone_of known s.tz)
    then raise unknown_timezone
    else ok tt
