-- ===== src/Cron/Service/OneShot.antt =====
-- One-shot jobs of cron/service.py over the calls of a process.
use amber_claw.Base.{
  ℕ, ◌≤◌, ◌≡◌, refl, Bool, true, false, not, ◌&&◌, Option, none, some, String, Result, ok, raise,
  List, [], ◌∷◌, arith, ltb, length, filter, All, if◌then◌else◌, Bool-cases, if_both, inl, inr, ◌⊎◌,
}
use amber_claw.Base.Dict.{is_some}
use amber_claw.Base.Key.{text_key, ◌==◌}
use amber_claw.Cron.Types
use amber_claw.Cron.Types.{
  CronJob, CronSchedule, CronPayload, Croniter, compute_next_run, is_at, later, at, every, cron,
  ScheduleKind, validate_schedule_for_add,
}
use amber_claw.Cron.Service.{
  CronService, Message, Run, jobs, save_store, arm_timer, without, finished, is_due, recompute,
  on_timer, switched, find, run_found, added, append_valid, start, stop, add_job, remove_job,
  enable_job, run_job, next_wake,
}
use amber_claw.Cron.Service.Timer.{
  IsSynced, IsDistinct, settle, on_timer-next_wake, goes, with_jobs, load_store-IsSynced,
  execute_job-IsSynced, execute_all-IsSynced,
}
use amber_claw.Cron.Service.Spent.{
  IsSpent, with_next-IsSpent, switched-IsSpent, one-IsSpent, each-IsSpent, All-update, All-filter,
  All-recompute, All-append,
}

-- The service is in step with the file, and the jobs are spent.
abbrev pub Holds : String → ℕ → CronService → Type 0
Holds id c s = IsSynced s × All (IsSpent id c) (jobs s)

saved-Holds :
    (id : String) (c stamp : ℕ) (js : List CronJob) (s : CronService)
    → All (IsSpent id c) js
    → Holds id c (arm_timer (save_store stamp (with_jobs js s)))
unfolding arm_timer save_store
saved-Holds id c stamp js s h = ((refl, ground arith), h)

-- The calls of the service, with what they read and the time that a write gives the file.
pub data Call : Type 0 where
  begin : ℕ → ℕ → Call
  halt : Call
  tick : ℕ → (String → Run) → ℕ → Call
  insert : String → ℕ → String → CronSchedule → Message → Bool → ℕ → Call
  remove : String → ℕ → Call
  switch : String → Bool → ℕ → ℕ → ℕ → Call
  run_now : String → Bool → Run → ℕ → Call

-- The call reads clocks of `c` or later where it plans runs, and gives no new job the ID.
abbrev pub IsLater : String → ℕ → Call → Type 0
IsLater id c (begin now stamp) = c ≤ now
IsLater id c (insert new now name schedule message delete_after_run stamp) = (new == id) ≡ false
IsLater id c (switch other on updated read stamp) = c ≤ read
IsLater id c _ = Unit {0}

module _ (croniter : Croniter) (known : String → Bool) where
  unfoldable pub step : Call → CronService → CronService
  step (begin now stamp) s = start croniter now stamp s
  step halt s = stop s
  step (tick now runs stamp) s = on_timer croniter now runs stamp s
  step (insert id now name schedule message delete_after_run stamp) s =
      (add_job croniter known id now name schedule message delete_after_run stamp s).0
  step (remove id stamp) s = (remove_job id stamp s).0
  step (switch id on updated read stamp) s = (enable_job croniter id on updated read stamp s).0
  step (run_now id force r stamp) s = (run_job croniter id force r stamp s).0

  unfoldable pub run : List Call → CronService → CronService
  run [] s = s
  run (k ∷ ks) s = run ks (step k s)

  start-Holds :
      (id : String) (c now stamp : ℕ) (s : CronService)
      → c ≤ now
      → Holds id c s
      → Holds id c (start croniter now stamp s)
  unfolding start
  start-Holds id c now stamp s h g = rw (load_store-IsSynced (record s { running = true }) g.0) (
      saved-Holds id c stamp (recompute croniter now (jobs s)) (record s { running = true })
        (All-recompute (IsSpent id c) croniter now (jobs s)
          (λ j. with_next-IsSpent croniter id c now j h) g.1))

  on_timer-Holds :
      (id : String) (c now : ℕ) (runs : String → Run) (stamp : ℕ) (s : CronService)
      → Holds id c s
      → Holds id c (on_timer croniter now runs stamp s)
  unfolding on_timer
  on_timer-Holds id c now runs stamp s g =
      rw
        (
          load_store-IsSynced s g.0,
          execute_all-IsSynced croniter runs (filter (is_due now) (jobs s)) s g.0,
        )
        (saved-Holds id c stamp _ s
          (each-IsSpent croniter id c runs (filter (is_due now) (jobs s)) (jobs s) g.1))

  append_valid-Holds :
      (id : String) (c stamp : ℕ) (j : CronJob) (s : CronService)
      (r : Result Types.Error (Unit {0}))
      → (j.id == id) ≡ false
      → Holds id c s
      → Holds id c (append_valid j stamp s r).0
  append_valid-Holds id c stamp j s (raise e) h g = g
  append_valid-Holds id c stamp j s (ok _) h g =
      saved-Holds id c stamp _ s (All-append (IsSpent id c) (jobs s) j g.1 (inl h))

  add_job-Holds :
      (id new : String) (c now : ℕ) (name : String) (schedule : CronSchedule) (message : Message)
      (delete_after_run : Bool) (stamp : ℕ) (s : CronService)
      → (new == id) ≡ false
      → Holds id c s
      → Holds id c (add_job croniter known new now name schedule message delete_after_run stamp s).0
  unfolding add_job
  add_job-Holds id new c now name schedule message delete_after_run stamp s h g =
      rw (load_store-IsSynced s g.0) (
        append_valid-Holds id c stamp
          (added croniter new now name schedule message delete_after_run) s
          (validate_schedule_for_add known schedule) h g)

  remove_job-Holds :
      (id other : String) (c stamp : ℕ) (s : CronService)
      → Holds id c s
      → Holds id c (remove_job other stamp s).0
  unfolding remove_job
  remove_job-Holds id other c stamp s g = rw (load_store-IsSynced s g.0) (
      if_both (Holds id c) (ltb (length (without other (jobs s))) (length (jobs s)))
        (arm_timer (save_store stamp (with_jobs (without other (jobs s)) s)))
        (with_jobs (without other (jobs s)) s)
        (saved-Holds id c stamp (without other (jobs s)) s left) ((refl, g.0.1), left))
    where
      left : All (IsSpent id c) (without other (jobs s))
      left = All-filter (IsSpent id c) _ (jobs s) g.1

  enable_job-Holds :
      (id other : String) (c : ℕ) (on : Bool) (updated read stamp : ℕ) (s : CronService)
      → c ≤ read
      → Holds id c s
      → Holds id c (enable_job croniter other on updated read stamp s).0
  unfolding enable_job
  enable_job-Holds id other c on updated read stamp s h g =
      rw (load_store-IsSynced s g.0) (elim (Bool-cases (is_some (find other (jobs s)))) [
        | inl e ↦ rw e (
            saved-Holds id c stamp _ s (
              All-update (IsSpent id c) other (switched croniter on updated read) (jobs s)
                (λ j. switched-IsSpent croniter id c on updated read j h) g.1))
        | inr e ↦ rw e g
      ])

  run_found-Holds :
      (id : String) (c : ℕ) (force : Bool) (r : Run) (stamp : ℕ) (s : CronService)
      (o : Option CronJob)
      → Holds id c s
      → Holds id c (run_found croniter force r stamp s o).0
  run_found-Holds id c force r stamp s none g = g
  run_found-Holds id c force r stamp s (some j) g = elim (Bool-cases (not force && not j.enabled)) [
    | inl e ↦ rw e g
    | inr e ↦
        rw (e, execute_job-IsSynced croniter r j s g.0)
          (saved-Holds id c stamp _ s (one-IsSpent croniter id c r j (jobs s) g.1))
  ]

  run_job-Holds :
      (id other : String) (c : ℕ) (force : Bool) (r : Run) (stamp : ℕ) (s : CronService)
      → Holds id c s
      → Holds id c (run_job croniter other force r stamp s).0
  unfolding run_job
  run_job-Holds id other c force r stamp s g =
      rw (load_store-IsSynced s g.0) (run_found-Holds id c force r stamp s (find other (jobs s)) g)

  step-Holds :
      (id : String) (c : ℕ) (k : Call) (s : CronService)
      → IsLater id c k
      → Holds id c s
      → Holds id c (step k s)
  unfolding step stop
  step-Holds id c (begin now stamp) s h g = start-Holds id c now stamp s h g
  step-Holds id c halt s h g = g
  step-Holds id c (tick now runs stamp) s h g = on_timer-Holds id c now runs stamp s g
  step-Holds id c (insert new now name schedule message delete_after_run stamp) s h g =
      add_job-Holds id new c now name schedule message delete_after_run stamp s h g
  step-Holds id c (remove other stamp) s h g = remove_job-Holds id other c stamp s g
  step-Holds id c (switch other on updated read stamp) s h g =
      enable_job-Holds id other c on updated read stamp s h g
  step-Holds id c (run_now other force r stamp) s h g = run_job-Holds id other c force r stamp s g

  run-Holds :
      (id : String) (c : ℕ) (ks : List Call) (s : CronService)
      → All (IsLater id c) ks
      → Holds id c s
      → Holds id c (run ks s)
  unfolding run
  run-Holds id c [] s h g = g
  run-Holds id c (k ∷ ks) s h g = run-Holds id c ks (step k s) h.1 (step-Holds id c k s h.0 g)

  never_due :
      (id : String) (c now : ℕ) (js : List CronJob)
      → All (IsSpent id c) js
      → All (λ j. ((j.id == id) ≡ false) ⊎ (is_due now j ≡ false)) js
  never_due id c now [] h = tt
  never_due id c now (j ∷ js) (inl other, h) = (inl other, never_due id c now js h)
  never_due id c now (j ∷ js) (inr (k, past, calm), h) =
      (inr (ground (arith, calm)), never_due id c now js h)

  -- The job has another ID, or is a one-shot job whose time has come and that is due.
  abbrev pub IsRipe : String → ℕ → CronJob → Type 0
  IsRipe id now j =
      ((j.id == id) ≡ false)
      ⊎ ((is_at j.schedule.kind ≡ true)
          × (later now j.schedule.at_ms ≡ none)
          × (is_due now j ≡ true))

  settled-IsSpent :
      (id : String) (now : ℕ) (r : Run) (j : CronJob)
      → IsRipe id now j
      → goes j ≡ false
      → IsSpent id now (finished croniter r j)
  unfolding finished
  settled-IsSpent id now r j (inl other) stays = inl (ground (arith, other))
  settled-IsSpent id now r j (inr (k, past, due)) stays = rw (k, delete_lem) (inr (k, past, refl))
    where
      delete_lem : j.delete_after_run ≡ false
      delete_lem = ground (arith, k, stays)

  left-IsSpent :
      (id : String) (now : ℕ) (j : CronJob)
      → IsRipe id now j
      → is_due now j ≡ false
      → IsSpent id now j
  left-IsSpent id now j (inl other) h = inl other
  left-IsSpent id now j (inr (k, past, due)) h = ground (arith, due, h)

  settle-IsSpent :
      (id : String) (now : ℕ) (runs : String → Run) (js : List CronJob)
      → All (IsRipe id now) js
      → All (IsSpent id now) (settle croniter now runs js)
  settle-IsSpent id now runs [] h = tt
  settle-IsSpent id now runs (j ∷ js) h = elim (Bool-cases (is_due now j)) [
    | inr e ↦ rw e (left-IsSpent id now j h.0 e, settle-IsSpent id now runs js h.1)
    | inl e ↦ rw e (elim (Bool-cases (goes j)) [
      | inl g ↦ rw g (settle-IsSpent id now runs js h.1)
      | inr k ↦ rw k (settled-IsSpent id now (runs j.id) j h.0 k, settle-IsSpent id now runs js h.1)
    ])
  ]

  -- A one-shot job that a tick has run is never due again, whatever calls follow, re-enabling and
  -- restarting included, while clocks do not go back behind that tick, no new job gets its ID and nobody
  -- else writes the file.
  pub run-one_shot :
      (id : String) (now later_on : ℕ) (runs : String → Run) (stamp : ℕ) (ks : List Call)
      (s : CronService)
      → IsSynced s
      → IsDistinct (jobs s)
      → All (IsRipe id now) (jobs s)
      → All (IsLater id now) ks
      → All
          (λ j. ((j.id == id) ≡ false) ⊎ (is_due later_on j ≡ false))
          (jobs (run ks (on_timer croniter now runs stamp s)))
  run-one_shot id now later_on runs stamp ks s synced distinct ripe calls =
      never_due id now later_on _
        (run-Holds id now ks (on_timer croniter now runs stamp s) calls
          (ticked.2, rw (ticked.0) (settle-IsSpent id now runs (jobs s) ripe))).1
    where
      ticked :
          let s' = on_timer croniter now runs stamp s in
          (jobs s' ≡ settle croniter now runs (jobs s))
          × (s'.timer ≡ (if s.running then next_wake (settle croniter now runs (jobs s)) else none))
          × IsSynced s'
      ticked = on_timer-next_wake croniter now runs stamp s synced distinct
