-- ===== src/Cron/Service/Earliest.antt =====
-- The time for which a tick of cron/service.py arms the timer.
use amber_claw.Base.{
  ℕ, ◌≤◌, ◌<◌, ◌≡◌, refl, sym, ap, ◌∙◌, subst, Bool, true, false, ◌&&◌, ◌⊎◌, Option, none, some,
  String, leb, ltb, min, if◌then◌else◌, List, [], ◌∷◌, any, Bool-cases, inl, inr, arith,
}
use amber_claw.Base.Dict.{get_or}
use amber_claw.Cron.Types.{CronJob, Croniter}
use amber_claw.Cron.Service.{
  CronService, Run, jobs, on_timer, next_wake, wake_of, earlier, same_time,
}
use amber_claw.Cron.Service.Timer.{IsSynced, IsDistinct, settle, on_timer-next_wake}

-- The time at which a job asks to be run, 0 for none.
abbrev pub asked_time : CronJob → ℕ
asked_time j = if j.enabled then get_or 0 j.state.next_run_at_ms else 0

abbrev pub asks_before : ℕ → CronJob → Bool
asks_before t j = ltb 0 (asked_time j) && ltb (asked_time j) t

abbrev pub asks_at : ℕ → CronJob → Bool
asks_at t j = same_time (asked_time j) t

-- A time that one of the jobs asks for and none asks before; or none, if none of them asks.
abbrev pub IsEarliest : Option ℕ → List CronJob → Type 0
IsEarliest none js = any (λ j. ltb 0 (asked_time j)) js ≡ false
IsEarliest (some t) js = (0 < t) × (any (asks_at t) js ≡ true) × (any (asks_before t) js ≡ false)

none-before :
    (t : ℕ) (js : List CronJob)
    → any (λ j. ltb 0 (asked_time j)) js ≡ false
    → any (asks_before t) js ≡ false
none-before t [] h = refl
none-before t (j ∷ js) h = ground (arith, none-before t js)

before-earlier :
    (t u : ℕ) (js : List CronJob)
    → t ≤ u
    → any (asks_before u) js ≡ false
    → any (asks_before t) js ≡ false
before-earlier t u [] le h = refl
before-earlier t u (j ∷ js) le h = ground (arith, before-earlier t u js)

-- One more job, whose wake-up is `w`.
earlier-IsEarliest :
    (j : CronJob) (js : List CronJob) (w r : Option ℕ)
    → wake_of (some (asked_time j)) ≡ w
    → IsEarliest r js
    → IsEarliest (earlier w r) (j ∷ js)
earlier-IsEarliest j js none none e h = ground (arith, e, h)
earlier-IsEarliest j js none (some t) e h = ground (arith, e, h)
earlier-IsEarliest j js (some t) none e h = ground (arith, e, h, none-before t js h)
earlier-IsEarliest j js (some t) (some u) e h = elim (Bool-cases (leb t u)) [
  | inl le ↦
      let first : t ≡ min t u = ground (arith, le) in
      subst (λ m. IsEarliest (some m) (j ∷ js)) first
        (ground (arith, e, h, le, before-earlier t u js))
  | inr gt ↦
      let second : u ≡ min t u = ground (arith, gt) in
      subst (λ m. IsEarliest (some m) (j ∷ js)) second (ground (arith, e, h, gt))
]

asked_wake :
    (on : Bool) (o : Option ℕ)
    → wake_of (some (if on then get_or 0 o else 0)) ≡ (if on then wake_of o else none)
asked_wake true none = refl
asked_wake true (some n) = refl
asked_wake false o = refl

either_wake :
    (on : Bool) (w r : Option ℕ)
    → earlier (if on then w else none) r ≡ (if on then earlier w r else r)
either_wake true w r = refl
either_wake false w r = refl

next_wake-IsEarliest : (js : List CronJob) → IsEarliest (next_wake js) js
unfolding next_wake
next_wake-IsEarliest [] = refl
next_wake-IsEarliest (j ∷ js) =
    subst (λ o. IsEarliest o (j ∷ js))
      (either_wake j.enabled (wake_of j.state.next_run_at_ms) (next_wake js))
      (earlier-IsEarliest j js (if j.enabled then wake_of j.state.next_run_at_ms else none)
        (next_wake js) (asked_wake j.enabled j.state.next_run_at_ms) (next_wake-IsEarliest js))

-- While the store is loaded, nobody else writes the file, the IDs are distinct and no other call of the
-- service comes while the tick runs its jobs, a tick finishes every job that is due exactly once, deletes
-- those to be deleted and leaves all others as they are. A running service then has its timer at the
-- earliest time that an enabled job asks for, or at none if none of them asks; a stopped one has no timer.
pub on_timer-settle :
    (croniter : Croniter) (now : ℕ) (runs : String → Run) (stamp : ℕ) (s : CronService)
    → IsSynced s
    → IsDistinct (jobs s)
    → let s' = on_timer croniter now runs stamp s in
      (jobs s' ≡ settle croniter now runs (jobs s))
      × (((s.running ≡ true) × IsEarliest s'.timer (jobs s'))
          ⊎ ((s.running ≡ false) × (s'.timer ≡ none)))
      × IsSynced s'
on_timer-settle croniter now runs stamp s synced distinct =
    let (done, armed, again) = on_timer-next_wake croniter now runs stamp s synced distinct in
    (done, timed armed done (Bool-cases s.running), again)
  where
    after : CronService
    after = on_timer croniter now runs stamp s

    timed :
        after.timer ≡ (if s.running then next_wake (settle croniter now runs (jobs s)) else none)
        → jobs after ≡ settle croniter now runs (jobs s)
        → (s.running ≡ true) ⊎ (s.running ≡ false)
        → ((s.running ≡ true) × IsEarliest after.timer (jobs after))
          ⊎ ((s.running ≡ false) × (after.timer ≡ none))
    timed armed done (inl on) = inl (
      on,
      subst (λ o. IsEarliest o (jobs after)) (sym armed)
          (subst
            (λ b.
              IsEarliest (if b then next_wake (settle croniter now runs (jobs s)) else none)
                (jobs after))
            (sym on)
            (subst (IsEarliest (next_wake (settle croniter now runs (jobs s)))) (sym done)
              (next_wake-IsEarliest (settle croniter now runs (jobs s))))),
    )
    timed armed done (inr off) = inr (
      off,
      armed ∙ ap (λ b. if b then next_wake (settle croniter now runs (jobs s)) else none) off,
    )
