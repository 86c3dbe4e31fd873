-- ===== src/Heartbeat/Engine.antt =====
-- `HeartbeatEngine` of src/amberclaw/heartbeat/engine.py and `ProcessIsolationManager` of heartbeat/isolation.py.
-- Times are numbers of seconds; a round is one pass of the monitor's loop, which waits only at its end. The
-- tasks that an isolation cancels are not state of the manager.
use amber_claw.Base.{
  ℕ, ◌+◌, ◌*◌, Bool, true, false, not, ◌&&◌, ◌||◌, Option, none, some, String, ltb, if◌then◌else◌,
  List, [], ◌∷◌, map,
}
use amber_claw.Base.Dict
use amber_claw.Base.Dict.{Dict, is_some, values}
use amber_claw.Base.Json.{Json}
use amber_claw.Base.Key.{text_key, ◌==◌}
pub mod Silence
pub mod Zombies
mod Tests

pub record HeartbeatStatus : Type 0 where
  pub process_id : String
  pub is_alive : Bool
  pub last_ping : ℕ
  pub metadata : Dict String Json

pub record HeartbeatEngine : Type 0 where
  pub check_interval_seconds : ℕ
  pub running : Bool
  pub statuses : Dict String HeartbeatStatus

unfoldable pub register_process : String → ℕ → HeartbeatEngine → HeartbeatEngine
register_process id now e = record e {
  statuses =
      Dict.set id (record { process_id = id; is_alive = true; last_ping = now; metadata = [] })
        e.statuses;
}

-- `metadata.update`
abbrev pub update_all : Dict String Json → Dict String Json → Dict String Json
update_all [] d = d
update_all (entry ∷ more) d = update_all more (Dict.set entry.0 entry.1 d)

abbrev pub pinged : ℕ → Dict String Json → HeartbeatStatus → HeartbeatStatus
pinged now metadata st = record st {
  is_alive = true;
  last_ping = now;
  metadata = update_all metadata st.metadata;
}

abbrev pub ping_found :
    String → ℕ → Dict String Json → HeartbeatEngine → Option HeartbeatStatus → HeartbeatEngine
ping_found id now metadata e none = e
ping_found id now metadata e (some st) = record e {
  statuses = Dict.set id (pinged now metadata st) e.statuses;
}

-- No metadata is no entry.
unfoldable pub ping : String → ℕ → Dict String Json → HeartbeatEngine → HeartbeatEngine
ping id now metadata e = ping_found id now metadata e (Dict.get id e.statuses)

unfoldable pub visit : ℕ → ℕ → HeartbeatStatus → HeartbeatStatus
visit now interval st =
    if not st.is_alive
    then st
    else if ltb (st.last_ping + interval * 3) now
    then record st { is_alive = false }
    else st

abbrev pub visit_all : ℕ → ℕ → Dict String HeartbeatStatus → Dict String HeartbeatStatus
visit_all now interval [] = []
visit_all now interval (entry ∷ d) =
    (entry.0, visit now interval entry.1) ∷ visit_all now interval d

-- The body of the monitor's loop.
unfoldable pub monitor : ℕ → HeartbeatEngine → HeartbeatEngine
monitor now e =
    if e.running
    then record e { statuses = visit_all now e.check_interval_seconds e.statuses }
    else e

unfoldable pub start : HeartbeatEngine → HeartbeatEngine
start e = if e.running then e else record e { running = true }

unfoldable pub stop : HeartbeatEngine → HeartbeatEngine
stop e = record e { running = false }

pub record IsolationRecord : Type 0 where
  pub process_id : String
  pub isolated_at : ℕ
  pub reason : String

pub record ProcessIsolationManager : Type 0 where
  pub timeout : ℕ
  pub isolated : Dict String IsolationRecord

unfoldable pub check_for_zombies :
    ℕ → Dict String HeartbeatStatus → ProcessIsolationManager → List String
check_for_zombies now [] m = []
check_for_zombies now (entry ∷ d) m =
    let rest = check_for_zombies now d m in
    if Dict.has entry.0 m.isolated
    then rest
    else if ltb (entry.1.last_ping + m.timeout) now
    then entry.0 ∷ rest
    else rest

unfoldable pub isolate_process :
    String → ℕ → String → ProcessIsolationManager → ProcessIsolationManager × IsolationRecord
isolate_process id now reason m =
    let r : IsolationRecord = record { process_id = id; isolated_at = now; reason = reason } in
    (record m { isolated = Dict.set id r m.isolated }, r)

unfoldable pub is_isolated : String → ProcessIsolationManager → Bool
is_isolated id m = Dict.has id m.isolated

unfoldable pub release : String → ProcessIsolationManager → ProcessIsolationManager × Bool
release id m = (record m { isolated = Dict.remove id m.isolated }, is_some (Dict.get id m.isolated))

unfoldable pub get_isolated_records : ProcessIsolationManager → List IsolationRecord
get_isolated_records m = values m.isolated
