-- ===== src/Cron/Service/Spent.antt =====
-- One-shot jobs of cron/service.py that have run: no change of the jobs plans them anew.
use amber_claw.Base.{
  ℕ, ◌≤◌, ◌≡◌, refl, ◌∙◌, Bool, true, false, Option, none, some, String, List, [], ◌∷◌, ◌++◌, arith,
  filter, All, Bool-cases, if_both, inl, inr, ◌⊎◌,
}
use amber_claw.Base.Key.{text_key, ◌==◌}
use amber_claw.Cron.Types.{
  CronJob, CronSchedule, Croniter, compute_next_run, is_at, later, at, every, cron, ScheduleKind,
}
use amber_claw.Cron.Service.{Run, update, finished, recompute, switched, with_next}
use amber_claw.Cron.Service.Timer.{goes, one, each}

-- The job has another ID, or is a one-shot job whose time has passed and which waits for no run.
abbrev pub IsSpent : String → ℕ → CronJob → Type 0
IsSpent id clock j =
    ((j.id == id) ≡ false)
    ⊎ ((is_at j.schedule.kind ≡ true)
        × (later clock j.schedule.at_ms ≡ none)
        × (j.state.next_run_at_ms ≡ none))

later_mono : (c now : ℕ) (o : Option ℕ) → c ≤ now → later c o ≡ none → later now o ≡ none
later_mono c now none h e = refl
later_mono c now (some n) h e = ground arith

compute-at :
    (croniter : Croniter) (now : ℕ) (s : CronSchedule) (k : ScheduleKind)
    → s.kind ≡ k
    → is_at k ≡ true
    → compute_next_run croniter s now ≡ later now s.at_ms
unfolding compute_next_run
compute-at croniter now s at e h = rw e refl
compute-at croniter now s every e h = ground arith
compute-at croniter now s cron e h = ground arith

pub with_next-IsSpent :
    (croniter : Croniter) (id : String) (c now : ℕ) (j : CronJob)
    → c ≤ now
    → IsSpent id c j
    → IsSpent id c (with_next (compute_next_run croniter j.schedule now) j)
with_next-IsSpent croniter id c now j h (inl other) = inl other
with_next-IsSpent croniter id c now j h (inr (k, past, calm)) = inr (
  k,
  past,
  compute-at croniter now j.schedule j.schedule.kind refl k
      ∙ later_mono c now j.schedule.at_ms h past,
)

finished-IsSpent :
    (croniter : Croniter) (id : String) (c : ℕ) (r : Run) (j : CronJob)
    → IsSpent id c j
    → IsSpent id c (finished croniter r j)
unfolding finished
finished-IsSpent croniter id c r j (inl other) = inl (ground arith)
finished-IsSpent croniter id c r j (inr (k, past, calm)) = elim (Bool-cases j.delete_after_run) [
  | inl d ↦ rw (k, d) (inr (k, past, calm))
  | inr d ↦ rw (k, d) (inr (k, past, refl))
]

pub switched-IsSpent :
    (croniter : Croniter) (id : String) (c : ℕ) (on : Bool) (updated read : ℕ) (j : CronJob)
    → c ≤ read
    → IsSpent id c j
    → IsSpent id c (switched croniter on updated read j)
switched-IsSpent croniter id c on updated read j h (inl other) = inl other
switched-IsSpent croniter id c false updated read j h (inr (k, past, calm)) = inr (k, past, refl)
switched-IsSpent croniter id c true updated read j h (inr (k, past, calm)) = inr (
  k,
  past,
  compute-at croniter read j.schedule j.schedule.kind refl k
      ∙ later_mono c read j.schedule.at_ms h past,
)

module _ (P : CronJob → Type 0) where
  pub All-update :
      (id : String) (f : CronJob → CronJob) (js : List CronJob)
      → ((j : CronJob) → P j → P (f j))
      → All P js
      → All P (update id f js)
  unfolding update
  All-update id f [] keeps h = tt
  All-update id f (j ∷ js) keeps h = elim (Bool-cases (j.id == id)) [
    | inl e ↦ rw e (keeps j h.0, h.1)
    | inr e ↦ rw e (h.0, All-update id f js keeps h.1)
  ]

  pub All-filter : (p : CronJob → Bool) (js : List CronJob) → All P js → All P (filter p js)
  All-filter p [] h = tt
  All-filter p (j ∷ js) h = elim (Bool-cases (p j)) [
    | inl e ↦ rw e (h.0, All-filter p js h.1)
    | inr e ↦ rw e (All-filter p js h.1)
  ]

  pub All-recompute :
      (croniter : Croniter) (now : ℕ) (js : List CronJob)
      → ((j : CronJob) → P j → P (with_next (compute_next_run croniter j.schedule now) j))
      → All P js
      → All P (recompute croniter now js)
  unfolding recompute
  All-recompute croniter now [] keeps h = tt
  All-recompute croniter now (j ∷ js) keeps h = (
    if_both P j.enabled (with_next (compute_next_run croniter j.schedule now) j) j (keeps j h.0)
        h.0,
    All-recompute croniter now js keeps h.1,
  )

  pub All-append : (js : List CronJob) (j : CronJob) → All P js → P j → All P (js ++ j ∷ [])
  All-append [] j h g = (g, tt)
  All-append (k ∷ js) j h g = (h.0, All-append js j h.1 g)

pub one-IsSpent :
    (croniter : Croniter) (id : String) (c : ℕ) (r : Run) (d : CronJob) (js : List CronJob)
    → All (IsSpent id c) js
    → All (IsSpent id c) (one croniter r d js)
one-IsSpent croniter id c r d js h = elim (Bool-cases (goes d)) [
  | inl e ↦ rw e (All-filter (IsSpent id c) _ _ updated)
  | inr e ↦ rw e updated
]
  where
    updated : All (IsSpent id c) (update d.id (finished croniter r) js)
    updated =
        All-update (IsSpent id c) d.id (finished croniter r) js (finished-IsSpent croniter id c r) h

pub each-IsSpent :
    (croniter : Croniter) (id : String) (c : ℕ) (runs : String → Run) (ds js : List CronJob)
    → All (IsSpent id c) js
    → All (IsSpent id c) (each croniter runs ds js)
each-IsSpent croniter id c runs [] js h = h
each-IsSpent croniter id c runs (d ∷ ds) js h =
    each-IsSpent croniter id c runs ds _ (one-IsSpent croniter id c (runs d.id) d js h)
