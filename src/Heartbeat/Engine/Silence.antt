-- ===== src/Heartbeat/Engine/Silence.antt =====
-- Processes that fall silent, to heartbeat/engine.py.
use amber_claw.Base.{
  ℕ, ◌+◌, ◌*◌, ◌≡◌, refl, sym, ap, ◌∙◌, Bool, true, false, not, ◌&&◌, ◌||◌, Option, none, some,
  String, ltb, List, [], ◌∷◌, any, All, Bool-cases, inl, inr, arith,
}
use amber_claw.Base.Dict
use amber_claw.Base.Dict.{Dict, is_some, get-set, get-set_self}
use amber_claw.Base.Json.{Json}
use amber_claw.Base.Key.{text_key, ◌==◌}
use amber_claw.Heartbeat.Engine.{
  HeartbeatStatus, HeartbeatEngine, register_process, ping, ping_found, visit, visit_all, monitor,
  start, stop,
}

pub data Call : Type 0 where
  registering : String → ℕ → Call
  pinging : String → ℕ → Dict String Json → Call
  checking : ℕ → Call
  starting stopping : Call

abbrev pub step : Call → HeartbeatEngine → HeartbeatEngine
step (registering id now) e = register_process id now e
step (pinging id now metadata) e = ping id now metadata e
step (checking now) e = monitor now e
step starting e = start e
step stopping e = stop e

abbrev pub run : List Call → HeartbeatEngine → HeartbeatEngine
run [] e = e
run (c ∷ cs) e = run cs (step c e)

-- Nothing from the process, and the engine goes on.
abbrev pub IsSilent : String → Call → Type 0
IsSilent id (registering other now) = (other == id) ≡ false
IsSilent id (pinging other now metadata) = (other == id) ≡ false
IsSilent id (checking now) = Unit
IsSilent id starting = Unit
IsSilent id stopping = ⊥

-- A round later than the time.
abbrev pub is_late : ℕ → Call → Bool
is_late t (registering other now) = false
is_late t (pinging other now metadata) = false
is_late t (checking now) = ltb t now
is_late t starting = false
is_late t stopping = false

-- The status when the process is found dead or not.
abbrev pub found : Bool → HeartbeatStatus → HeartbeatStatus
found dead st = record st { is_alive = st.is_alive && not dead }

found-not_dead : (st : HeartbeatStatus) → found false st ≡ st
found-not_dead st = ap (λ b. record st { is_alive = b }) (kept st.is_alive)
  where
    kept : (b : Bool) → b && not false ≡ b
    kept b = ground arith

get-visit_all :
    (id : String) (now interval : ℕ) (d : Dict String HeartbeatStatus) (st : HeartbeatStatus)
    → Dict.get id d ≡ some st
    → Dict.get id (visit_all now interval d) ≡ some (visit now interval st)
unfolding Dict.get
get-visit_all id now interval [] st h = ground (arith, h)
get-visit_all id now interval (entry ∷ d) st h = elim (Bool-cases (entry.0 == id)) [
  | inl same ↦ rw same (ap (here now interval) (rw same at h))
  | inr other ↦ rw other (get-visit_all id now interval d st (rw other at h))
]
  where
    here : ℕ → ℕ → Option HeartbeatStatus → Option HeartbeatStatus
    here now interval none = none
    here now interval (some x) = some (visit now interval x)

visit-found :
    (now interval : ℕ) (st : HeartbeatStatus)
    → visit now interval st ≡ found (ltb (st.last_ping + interval * 3) now) st
unfolding visit
visit-found now interval st = elim (Bool-cases st.is_alive) [
  | inl alive ↦ elim (Bool-cases (ltb (st.last_ping + interval * 3) now)) [
    | inl late ↦ rw (alive, late) refl
    | inr early ↦ rw (alive, early) refl
  ]
  | inr dead ↦ rw dead refl
]

-- One call that is not about the process.
step-found :
    (id : String) (c : Call) (e : HeartbeatEngine) (st : HeartbeatStatus)
    → e.running ≡ true
    → Dict.get id e.statuses ≡ some st
    → IsSilent id c
    → ((step c e).running ≡ true)
      × ((step c e).check_interval_seconds ≡ e.check_interval_seconds)
      × (Dict.get id (step c e).statuses
          ≡ some (found (is_late (st.last_ping + e.check_interval_seconds * 3) c) st))
unfolding register_process ping monitor start
step-found id (registering other now) e st on h silent =
    (on, refl, get-set other id _ e.statuses ∙ rw silent (h ∙ ap some (sym (found-not_dead st))))
step-found id (pinging other now metadata) e st on h silent = unheard (Dict.get other e.statuses)
  where
    unheard :
        (o : Option HeartbeatStatus)
        → ((ping_found other now metadata e o).running ≡ true)
          × ((ping_found other now metadata e o).check_interval_seconds ≡ e.check_interval_seconds)
          × (Dict.get id (ping_found other now metadata e o).statuses ≡ some (found false st))
    unheard none = (on, refl, h ∙ ap some (sym (found-not_dead st)))
    unheard (some x) = (
      on,
      refl,
      get-set other id _ e.statuses ∙ rw silent (h ∙ ap some (sym (found-not_dead st))),
    )
step-found id (checking now) e st on h silent = rw on (
  refl,
  refl,
  get-visit_all id now e.check_interval_seconds e.statuses st h
      ∙ ap some (visit-found now e.check_interval_seconds st),
)
step-found id starting e st on h silent = rw on (refl, refl, h ∙ ap some (sym (found-not_dead st)))
step-found id stopping e st on h silent = absurd silent

-- While the engine runs and nothing comes from a process, it is marked dead exactly if one of the rounds of
-- the monitor comes more than three intervals after its last ping; whatever other processes do, its status
-- changes in nothing else, and dead it stays.
pub run-found :
    (id : String) (cs : List Call) (e : HeartbeatEngine) (st : HeartbeatStatus)
    → e.running ≡ true
    → Dict.get id e.statuses ≡ some st
    → All (IsSilent id) cs
    → Dict.get id (run cs e).statuses
      ≡ some (record st {
        is_alive =
            st.is_alive && not (any (is_late (st.last_ping + e.check_interval_seconds * 3)) cs);
      })
run-found id [] e st on h silent = h ∙ ap some (sym (found-not_dead st))
run-found id (c ∷ cs) e st on h silent =
    let (on', same, next) = step-found id c e st on h silent.0 in
    let limit = st.last_ping + e.check_interval_seconds * 3 in
    let late = is_late limit c in
    run-found id cs (step c e) (found late st) on' next silent.1
    ∙ ap
        (λ i. some (record st {
          is_alive = st.is_alive && not late && not (any (is_late (st.last_ping + i * 3)) cs);
        }))
        same
    ∙ ap (λ b. some (record st { is_alive = b })) (either st.is_alive late (any (is_late limit) cs))
  where
    either : (a b c : Bool) → a && not b && not c ≡ a && not (b || c)
    either true true c = refl
    either true false c = refl
    either false true c = refl
    either false false c = refl
