-- ===== src/Heartbeat/Engine/Zombies.antt =====
-- Zombies and their isolation in heartbeat/isolation.py.
use amber_claw.Base.{
  ℕ, ◌+◌, ◌≡◌, refl, ap, ◌∙◌, Bool, true, false, some, String, ltb, if◌then◌else◌, List, [], ◌∷◌,
  All, Bool-cases, inl, inr,
}
use amber_claw.Base.Dict
use amber_claw.Base.Dict.{Dict, is_some, get-set, get-set_self}
use amber_claw.Base.Key.{text_key, ◌==◌}
use amber_claw.Heartbeat.Engine.{
  HeartbeatStatus, ProcessIsolationManager, check_for_zombies, isolate_process,
}

-- Isolates all of them.
abbrev pub isolate_all :
    ℕ → String → List String → ProcessIsolationManager → ProcessIsolationManager
isolate_all now reason [] m = m
isolate_all now reason (id ∷ ids) m = isolate_all now reason ids (isolate_process id now reason m).0

has-isolate_all :
    (k : String) (now : ℕ) (reason : String) (ids : List String) (m : ProcessIsolationManager)
    → Dict.has k m.isolated ≡ true
    → Dict.has k (isolate_all now reason ids m).isolated ≡ true
unfolding isolate_process
has-isolate_all k now reason [] m h = h
has-isolate_all k now reason (id ∷ ids) m h =
    has-isolate_all k now reason ids (isolate_process id now reason m).0
      (ap is_some (get-set id k _ m.isolated) ∙ kept (id == k))
  where
    kept :
        (same : Bool)
        → is_some (
            if same
            then some (record { process_id = id; isolated_at = now; reason = reason })
            else Dict.get k m.isolated)
          ≡ true
    kept true = refl
    kept false = h

isolate_all-isolated :
    (now : ℕ) (reason : String) (ids : List String) (m : ProcessIsolationManager)
    → All (λ k. Dict.has k (isolate_all now reason ids m).isolated ≡ true) ids
unfolding isolate_process
isolate_all-isolated now reason [] m = tt
isolate_all-isolated now reason (id ∷ ids) m = (
  has-isolate_all id now reason ids (isolate_process id now reason m).0
      (ap is_some (get-set_self id _ m.isolated)),
  isolate_all-isolated now reason ids (isolate_process id now reason m).0,
)

isolate_all-timeout :
    (now : ℕ) (reason : String) (ids : List String) (m : ProcessIsolationManager)
    → (isolate_all now reason ids m).timeout ≡ m.timeout
unfolding isolate_process
isolate_all-timeout now reason [] m = refl
isolate_all-timeout now reason (id ∷ ids) m =
    isolate_all-timeout now reason ids (isolate_process id now reason m).0

none_left :
    (now : ℕ) (d : Dict String HeartbeatStatus) (m m' : ProcessIsolationManager)
    → m'.timeout ≡ m.timeout
    → ((k : String) → Dict.has k m.isolated ≡ true → Dict.has k m'.isolated ≡ true)
    → All (λ k. Dict.has k m'.isolated ≡ true) (check_for_zombies now d m)
    → check_for_zombies now d m' ≡ []
unfolding check_for_zombies
none_left now [] m m' same kept h = refl
none_left now (entry ∷ d) m m' same kept h = elim (Bool-cases (Dict.has entry.0 m.isolated)) [
  | inl before ↦ rw (kept entry.0 before) (none_left now d m m' same kept (rw before at h))
  | inr fresh ↦ elim (Bool-cases (ltb (entry.1.last_ping + m.timeout) now)) [
    | inl late ↦
        let both : All (λ k. Dict.has k m'.isolated ≡ true) (entry.0 ∷ check_for_zombies now d m) =
          rw (fresh, late) at h in
        rw both.0 (none_left now d m m' same kept both.1)
    | inr early ↦
        let rest = none_left now d m m' same kept (rw (fresh, early) at h) in
        elim (Bool-cases (Dict.has entry.0 m'.isolated)) [
          | inl now_in ↦ rw now_in rest
          | inr still ↦ rw (still, ap (λ t. ltb (entry.1.last_ping + t) now) same ∙ early) rest
        ]
  ]
]

-- Once all the zombies that a check finds have been isolated, a check at the same time finds none.
pub isolate_all-none :
    (now : ℕ) (reason : String) (d : Dict String HeartbeatStatus) (m : ProcessIsolationManager)
    → check_for_zombies now d (isolate_all now reason (check_for_zombies now d m) m) ≡ []
isolate_all-none now reason d m =
    let ids = check_for_zombies now d m in
    none_left now d m (isolate_all now reason ids m) (isolate_all-timeout now reason ids m)
      (λ k h. has-isolate_all k now reason ids m h) (isolate_all-isolated now reason ids m)
