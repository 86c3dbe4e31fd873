-- ===== src/Cron/Service/Timer.antt =====
-- A tick of the timer of cron/service.py: the loop over the due jobs against one pass over all jobs.
use amber_claw.Base.{
  ℕ, ◌≡◌, refl, sym, ap, ◌∙◌, Bool, true, false, ◌&&◌, Option, none, some, String, List, [], ◌∷◌,
  arith, filter, any, if◌then◌else◌, Bool-cases, inl, inr,
}
use amber_claw.Base.Dict.{is_some, get_or}
use amber_claw.Base.Key.{text_key, ◌==◌, ==_refl}
use amber_claw.Cron.Types.{CronJob, Croniter, is_at}
use amber_claw.Cron.Service.{
  CronService, Run, is_stale, jobs, load_store, save_store, arm_timer, update, without, finished,
  execute_job, execute_all, is_due, on_timer, next_wake, same_time,
}

-- The store is in memory and the file is as it was last written.
abbrev pub IsSynced : CronService → Type 0
IsSynced s = (is_some s.store ≡ true) × (is_stale s.last_mtime s.file ≡ false)

abbrev pub has_id : String → List CronJob → Bool
has_id id = any (λ j. j.id == id)

abbrev pub IsDistinct : List CronJob → Type 0
IsDistinct [] = Unit {0}
IsDistinct (j ∷ js) = (has_id j.id js ≡ false) × IsDistinct js

abbrev pub goes : CronJob → Bool
goes j = is_at j.schedule.kind && j.delete_after_run

-- What a tick makes of the jobs: those that are due are finished, or go if they are to be deleted, and
-- all others stay as they are.
abbrev pub settle : Croniter → ℕ → (String → Run) → List CronJob → List CronJob
settle croniter now runs [] = []
settle croniter now runs (j ∷ js) =
    let rest = settle croniter now runs js in
    if is_due now j
    then if goes j then rest else finished croniter (runs j.id) j ∷ rest
    else j ∷ rest

-- One execution on the list of jobs.
abbrev pub one : Croniter → Run → CronJob → List CronJob → List CronJob
one croniter r j js =
    let js' = update j.id (finished croniter r) js in if goes j then without j.id js' else js'

abbrev pub each : Croniter → (String → Run) → List CronJob → List CronJob → List CronJob
each croniter runs [] js = js
each croniter runs (d ∷ ds) js = each croniter runs ds (one croniter (runs d.id) d js)

pub finished-id : (croniter : Croniter) (r : Run) (j : CronJob) → (finished croniter r j).id ≡ j.id
unfolding finished
finished-id croniter r j = ground arith

without-absent : (id : String) (js : List CronJob) → has_id id js ≡ false → without id js ≡ js
without-absent id [] h = refl
without-absent id (j ∷ js) h = elim (Bool-cases (j.id == id)) [
  | inl e ↦ ground (arith, e)
  | inr e ↦ rw e (ap (λ x. j ∷ x) (without-absent id js (ground (arith, e))))
]

one-other :
    (croniter : Croniter) (r : Run) (d k : CronJob) (js : List CronJob)
    → (k.id == d.id) ≡ false
    → one croniter r d (k ∷ js) ≡ k ∷ one croniter r d js
unfolding update
one-other croniter r d k js h = elim (Bool-cases (goes d)) [
  | inl e ↦ rw (e, h, h) refl
  | inr e ↦ rw (e, h) refl
]

==-flip : (a b : String) → (a == b) ≡ false → (b == a) ≡ false
==-flip a b h = ground (arith, text_key.same_key_iff a b, text_key.same_key_iff b a)

pub each-other :
    (croniter : Croniter) (runs : String → Run) (k : CronJob) (ds js : List CronJob)
    → has_id k.id ds ≡ false
    → each croniter runs ds (k ∷ js) ≡ k ∷ each croniter runs ds js
each-other croniter runs k [] js h = refl
each-other croniter runs k (d ∷ ds) js h =
    ap (each croniter runs ds)
      (one-other croniter (runs d.id) d k js (==-flip d.id k.id (ground arith)))
    ∙ each-other croniter runs k ds (one croniter (runs d.id) d js) (ground arith)

pub one_self :
    (croniter : Croniter) (r : Run) (j : CronJob) (js : List CronJob)
    → has_id j.id js ≡ false
    → one croniter r j (j ∷ js) ≡ (if goes j then js else finished croniter r j ∷ js)
unfolding update
one_self croniter r j js h = elim (Bool-cases (goes j)) [
  | inl e ↦ rw (e, ==_refl j.id, finished-id croniter r j, ==_refl j.id) (without-absent j.id js h)
  | inr e ↦ rw (e, ==_refl j.id) refl
]

pub has_id-filter :
    (id : String) (p : CronJob → Bool) (js : List CronJob)
    → has_id id js ≡ false
    → has_id id (filter p js) ≡ false
has_id-filter id p [] h = refl
has_id-filter id p (j ∷ js) h = elim (Bool-cases (p j)) [
  | inl e ↦ rw e (ground (arith, has_id-filter id p js))
  | inr e ↦ rw e (has_id-filter id p js (ground arith))
]

each-settle :
    (croniter : Croniter) (now : ℕ) (runs : String → Run) (js : List CronJob)
    → IsDistinct js
    → each croniter runs (filter (is_due now) js) js ≡ settle croniter now runs js
each-settle croniter now runs [] h = refl
each-settle croniter now runs (j ∷ js) h = elim (Bool-cases (is_due now j)) [
  | inr e ↦ rw e (
      each-other croniter runs j (filter (is_due now) js) js
        (has_id-filter j.id (is_due now) js h.0)
      ∙ ap (λ x. j ∷ x) (each-settle croniter now runs js h.1))
  | inl e ↦ rw e (
      ap (each croniter runs (filter (is_due now) js)) (one_self croniter (runs j.id) j js h.0)
      ∙ elim (Bool-cases (goes j)) [
        | inl g ↦ rw g (each-settle croniter now runs js h.1)
        | inr k ↦ rw k (
            each-other croniter runs (finished croniter (runs j.id) j) (filter (is_due now) js) js
              (rw (finished-id croniter (runs j.id) j) (has_id-filter j.id (is_due now) js h.0))
            ∙ ap (λ x. finished croniter (runs j.id) j ∷ x) (each-settle croniter now runs js h.1))
      ])
]

-- The service with other jobs in memory.
abbrev pub with_jobs : List CronJob → CronService → CronService
with_jobs js s = record s { store = some js }

pub load_store-IsSynced : (s : CronService) → IsSynced s → load_store s ≡ s
unfolding load_store
load_store-IsSynced s h = rw (h.0, h.1) refl

same_time_refl : (n : ℕ) → same_time n n ≡ true
same_time_refl n = ground arith

pub execute_job-IsSynced :
    (croniter : Croniter) (r : Run) (j : CronJob) (s : CronService)
    → IsSynced s
    → execute_job croniter s.loads r j s ≡ with_jobs (one croniter r j (jobs s)) s
unfolding execute_job
execute_job-IsSynced croniter r j s h = elim (Bool-cases (goes j)) [
  | inl g ↦
      rw
        (
          same_time_refl s.loads,
          g,
          load_store-IsSynced (with_jobs (update j.id (finished croniter r) (jobs s)) s)
              (refl, h.1),
        )
        refl
  | inr k ↦ rw (same_time_refl s.loads, k) refl
]

with_jobs-jobs : (s : CronService) → is_some s.store ≡ true → with_jobs (jobs s) s ≡ s
with_jobs-jobs s h = store_lem s.store refl h
  where
    store_lem :
        (o : Option (List CronJob)) → s.store ≡ o → is_some o ≡ true → with_jobs (get_or [] o) s ≡ s
    store_lem none e found = ground arith
    store_lem (some js) e found = rw (e) refl

pub execute_all-IsSynced :
    (croniter : Croniter) (runs : String → Run) (ds : List CronJob) (s : CronService)
    → IsSynced s
    → execute_all croniter s.loads runs ds s ≡ with_jobs (each croniter runs ds (jobs s)) s
unfolding execute_all
execute_all-IsSynced croniter runs [] s h = sym (with_jobs-jobs s h.0)
execute_all-IsSynced croniter runs (d ∷ ds) s h =
    ap (execute_all croniter s.loads runs ds) (execute_job-IsSynced croniter (runs d.id) d s h)
    ∙ execute_all-IsSynced croniter runs ds (with_jobs (one croniter (runs d.id) d (jobs s)) s)
        (refl, h.1)

-- The tick against the one pass, with the timer by `next_wake`.
pub on_timer-next_wake :
    (croniter : Croniter) (now : ℕ) (runs : String → Run) (stamp : ℕ) (s : CronService)
    → IsSynced s
    → IsDistinct (jobs s)
    → let s' = on_timer croniter now runs stamp s in
      (jobs s' ≡ settle croniter now runs (jobs s))
      × (s'.timer ≡ (if s.running then next_wake (settle croniter now runs (jobs s)) else none))
      × IsSynced s'
unfolding on_timer arm_timer save_store
on_timer-next_wake croniter now runs stamp s h d =
    rw
      (
        load_store-IsSynced s h,
        execute_all-IsSynced croniter runs (filter (is_due now) (jobs s)) s h,
        each-settle croniter now runs (jobs s) d,
      )
      (refl, refl, (refl, ground arith))
