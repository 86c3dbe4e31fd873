-- ===== src/Heartbeat/Engine/Tests.antt =====
-- The engine of heartbeat/engine.py and the isolation of heartbeat/isolation.py at work.
use amber_claw.Base.{◌+◌, ◌*◌, ◌≡◌, refl, true, false, not, ◌&&◌, some, List, [], ◌∷◌, any}
use amber_claw.Base.Dict
use amber_claw.Base.Dict.{Dict}
use amber_claw.Base.Key.{text_key}
use amber_claw.Heartbeat.Engine.{
  HeartbeatStatus, HeartbeatEngine, ProcessIsolationManager, register_process, ping, visit, monitor,
  start, stop, check_for_zombies, isolate_process, is_isolated, release,
}
use amber_claw.Heartbeat.Engine.Silence.{
  Call, registering, pinging, checking, starting, stopping, run, is_late, run-found,
}

program : Unit {0}
unfolding Dict.get Dict.set Dict.remove register_process ping visit monitor start stop
    check_for_zombies isolate_process is_isolated release
program = tt

abbrev idle : HeartbeatEngine
idle = record { check_interval_seconds = 5; running = false; statuses = [] }

abbrev engine : HeartbeatEngine
engine = run (registering "a" 0 ∷ registering "b" 0 ∷ starting ∷ []) idle

abbrev first : HeartbeatStatus
first = record { process_id = "a"; is_alive = true; last_ping = 0; metadata = [] }

-- `b` pings, `a` does not.
abbrev calls : List Call
calls = checking 15 ∷ pinging "b" 14 [] ∷ checking 20 ∷ []

found_dead : Dict.get "a" (run calls engine).statuses ≡ some (record first { is_alive = false })
unfolding program
found_dead = refl

-- A ping brings a process back.
revived :
    Dict.get "a" (run (pinging "a" 21 [] ∷ []) (run calls engine)).statuses
    ≡ some (record first { last_ping = 21 })
unfolding program
revived = refl

-- A stopped engine finds nobody.
stopped : (run (checking 99 ∷ []) (run (stopping ∷ []) engine)).statuses ≡ engine.statuses
unfolding program
stopped = refl

abbrev ward : ProcessIsolationManager
ward = record { timeout = 30; isolated = [] }

zombies : check_for_zombies 44 (run calls engine).statuses ward ≡ "a" ∷ []
unfolding program
zombies = refl

abbrev warded : ProcessIsolationManager
warded = (isolate_process "a" 44 "silent" ward).0

released :
    (is_isolated "a" warded ≡ true)
    × ((release "a" warded).1 ≡ true)
    × ((release "b" warded).1 ≡ false)
unfolding program
released = (refl, refl, refl)

run-found_example :
    Dict.get "a" (run calls engine).statuses
    ≡ some (record first {
      is_alive =
          first.is_alive
          && not (any (is_late (first.last_ping + engine.check_interval_seconds * 3)) calls);
    })
unfolding program
run-found_example = run-found "a" calls engine first refl refl (tt, (refl, (tt, tt)))
