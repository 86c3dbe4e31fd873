-- ===== src/Cron/Service/Progress.antt =====
-- After a tick of the timer of cron/service.py nothing is due any more.
use amber_claw.Base.{
  ℕ, ◌≤◌, ◌<◌, ◌≡◌, refl, ap, ◌∙◌, ltb, Bool, true, false, Option, none, some, String, List, [],
  ◌∷◌, arith, All, if◌then◌else◌, Bool-cases, inl, inr,
}
use amber_claw.Cron.Types.{
  CronJob, CronSchedule, Croniter, compute_next_run, is_at, at, every, cron, ScheduleKind, next_of,
  after,
}
use amber_claw.Cron.Service.{
  CronService, Run, jobs, finished, is_due, is_due_at, on_timer, next_wake, wake_of, earlier,
}
use amber_claw.Cron.Service.Timer.{IsSynced, IsDistinct, settle, goes, on_timer-next_wake}
use amber_claw.Base.Key.{text_key, truthy}

-- `croniter` gives a time after the one it starts from.
abbrev pub IsLawful : Croniter → Type 0
IsLawful croniter =
    (expr : String) (tz : Option String) (now n : ℕ) → croniter expr tz now ≡ some n → now < n

abbrev NotDueAt : ℕ → Option ℕ → Type 0
NotDueAt now o = is_due_at now o ≡ false

after-not_due : (now read : ℕ) (o : Option ℕ) → now ≤ read → NotDueAt now (after read o)
after-not_due now read none h = refl
after-not_due now read (some n) h = ground arith

found-not_due :
    (now read : ℕ) (o : Option ℕ) → now ≤ read → ((n : ℕ) → o ≡ some n → read < n) → NotDueAt now o
found-not_due now read none h later_than = refl
found-not_due now read (some n) h later_than = ground (arith, later_than n refl)

next_of-not_due :
    (croniter : Croniter) (now read : ℕ) (expr tz : Option String)
    → IsLawful croniter
    → now ≤ read
    → NotDueAt now (next_of croniter expr tz read)
next_of-not_due croniter now read none tz lawful h = refl
next_of-not_due croniter now read (some e) tz lawful h = elim (Bool-cases (truthy e)) [
  | inl t ↦ rw t (found-not_due now read (croniter e tz read) h (lawful e tz read))
  | inr f ↦ rw f refl
]

recomputed-not_due :
    (croniter : Croniter) (now read : ℕ) (s : CronSchedule) (k : ScheduleKind)
    → s.kind ≡ k
    → is_at k ≡ false
    → IsLawful croniter
    → now ≤ read
    → NotDueAt now (compute_next_run croniter s read)
unfolding compute_next_run
recomputed-not_due croniter now read s at e k lawful h = ground arith
recomputed-not_due croniter now read s every e k lawful h =
    rw e (after-not_due now read s.every_ms h)
recomputed-not_due croniter now read s cron e k lawful h =
    rw e (next_of-not_due croniter now read s.expr s.tz lawful h)

pub finished-not_due :
    (croniter : Croniter) (now : ℕ) (r : Run) (j : CronJob)
    → IsLawful croniter
    → now ≤ r.read
    → goes j ≡ false
    → is_due now (finished croniter r j) ≡ false
unfolding finished
finished-not_due croniter now r j lawful h stays = elim (Bool-cases (is_at j.schedule.kind)) [
  | inl e ↦ ground (arith, e)
  | inr e ↦
      ground (
        arith,
        e,
        recomputed-not_due croniter now r.read j.schedule j.schedule.kind refl e lawful h,
      )
]

settle-not_due :
    (croniter : Croniter) (now : ℕ) (runs : String → Run) (js : List CronJob)
    → IsLawful croniter
    → ((id : String) → now ≤ (runs id).read)
    → All (λ j. is_due now j ≡ false) (settle croniter now runs js)
settle-not_due croniter now runs [] lawful h = tt
settle-not_due croniter now runs (j ∷ js) lawful h = elim (Bool-cases (is_due now j)) [
  | inr e ↦ rw e (e, settle-not_due croniter now runs js lawful h)
  | inl e ↦ rw e (elim (Bool-cases (goes j)) [
    | inl g ↦ rw g (settle-not_due croniter now runs js lawful h)
    | inr k ↦ rw k (
      finished-not_due croniter now (runs j.id) j lawful (h j.id) k,
      settle-not_due croniter now runs js lawful h,
    )
  ])
]

wake_of-late : (now t : ℕ) (o : Option ℕ) → NotDueAt now o → wake_of o ≡ some t → now < t
wake_of-late now t none h e = ground arith
wake_of-late now t (some n) h e = ground arith

earlier-late :
    (now t : ℕ) (a b : Option ℕ)
    → ((x : ℕ) → a ≡ some x → now < x)
    → ((x : ℕ) → b ≡ some x → now < x)
    → earlier a b ≡ some t
    → now < t
earlier-late now t none b f g e = g t e
earlier-late now t (some a) none f g e = f t e
earlier-late now t (some a) (some b) f g e = ground (arith, f a refl, g b refl)

next_wake-late :
    (now t : ℕ) (js : List CronJob)
    → All (λ j. is_due now j ≡ false) js
    → next_wake js ≡ some t
    → now < t
unfolding next_wake
next_wake-late now t [] h e = ground arith
next_wake-late now t (j ∷ js) h e = elim (Bool-cases j.enabled) [
  | inl on ↦
      earlier-late now t (wake_of j.state.next_run_at_ms) (next_wake js)
        (λ x. wake_of-late now x j.state.next_run_at_ms (ground (arith, on, h.0)))
        (λ x. next_wake-late now x js h.1) (ground (arith, on, e))
  | inr off ↦ next_wake-late now t js h.1 (ground (arith, off, e))
]

-- No timer, or one that ticks after the time.
abbrev pub is_later : ℕ → Option ℕ → Bool
is_later now none = true
is_later now (some t) = ltb now t

-- With a `croniter` that gives times after the one it starts from, clocks that do not go back, distinct
-- IDs, a loaded store, nobody else writing the file and no other call of the service while the tick runs
-- its jobs, no enabled job is due after a tick at the time that the tick read, and the timer, if the tick
-- arms one, ticks only after that time: the service does not spin.
pub on_timer-progress :
    (croniter : Croniter) (now : ℕ) (runs : String → Run) (stamp : ℕ) (s : CronService)
    → IsLawful croniter
    → ((id : String) → now ≤ (runs id).read)
    → IsSynced s
    → IsDistinct (jobs s)
    → let s' = on_timer croniter now runs stamp s in
      All (λ j. is_due now j ≡ false) (jobs s') × (is_later now s'.timer ≡ true)
on_timer-progress croniter now runs stamp s lawful clock h d = (
  rw (spec.0) calm,
  ap (is_later now) spec.1 ∙ late s.running (next_wake (settle croniter now runs (jobs s))) refl,
)
  where
    spec :
        let s' = on_timer croniter now runs stamp s in
        (jobs s' ≡ settle croniter now runs (jobs s))
        × (s'.timer ≡ (if s.running then next_wake (settle croniter now runs (jobs s)) else none))
        × IsSynced s'
    spec = on_timer-next_wake croniter now runs stamp s h d

    calm : All (λ j. is_due now j ≡ false) (settle croniter now runs (jobs s))
    calm = settle-not_due croniter now runs (jobs s) lawful clock

    late :
        (b : Bool) (o : Option ℕ)
        → next_wake (settle croniter now runs (jobs s)) ≡ o
        → is_later now (if b then o else none) ≡ true
    late false o e = refl
    late true none e = refl
    late true (some t) e =
        ground (arith, next_wake-late now t (settle croniter now runs (jobs s)) calm e)
