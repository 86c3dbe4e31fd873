-- ===== src/Security/Abac/Elevation.antt =====
-- Just-in-time elevations of security/abac.py end.
use amber_claw.Base.{
  ℕ, ◌+◌, ◌≤◌, ◌≡◌, sym, ◌∙◌, ◌≢◌, false, some, String, List, [], ◌∷◌, arith, min, max, All,
  Option-cases, inl, inr, ltb,
}
use amber_claw.Base.Dict
use amber_claw.Base.Dict.{get-set_ne, get-set_self, get-remove}
use amber_claw.Base.Key.{pair_key}
use amber_claw.Security.Abac.{
  JitElevationToken, JustInTimeElevationManager, grant_elevation, is_elevated, revoke_elevation,
}

-- Every grant under a key has expired by `deadline`.
abbrev pub EndsBy : String × String → ℕ → JustInTimeElevationManager → Type 0
EndsBy key deadline m =
    (token : JitElevationToken)
    → Dict.get key m.active_grants ≡ some token
    → token.expires_at ≤ deadline

pub data Call : Type 0 where
  grant : ℕ → String → String → ℕ → String → String → Call
  check : ℕ → String → String → Call
  revoke : String → String → Call

unfoldable pub step : Call → JustInTimeElevationManager → JustInTimeElevationManager
step (grant now subject scope minutes reason approver) m =
    (grant_elevation now subject scope minutes reason approver m).0
step (check now subject scope) m = (is_elevated now subject scope m).0
step (revoke subject scope) m = (revoke_elevation subject scope m).0

unfoldable pub run : List Call → JustInTimeElevationManager → JustInTimeElevationManager
run [] m = m
run (c ∷ cs) m = run cs (step c m)

-- The call does not grant the key anew.
abbrev pub NoGrant : String × String → Call → Type 0
NoGrant key (grant now subject scope minutes reason approver) = (subject, scope) ≢ key
NoGrant key (check now subject scope) = Unit {0}
NoGrant key (revoke subject scope) = Unit {0}

drop-EndsBy :
    (key k : String × String) (deadline : ℕ) (m : JustInTimeElevationManager)
    → EndsBy key deadline m
    → EndsBy key deadline (record { active_grants = Dict.remove k m.active_grants })
drop-EndsBy key k deadline m h token found =
    ground (arith, get-remove k key m.active_grants, h token)

step-EndsBy :
    (key : String × String) (deadline : ℕ) (c : Call) (m : JustInTimeElevationManager)
    → NoGrant key c
    → EndsBy key deadline m
    → EndsBy key deadline (step c m)
unfolding step grant_elevation is_elevated revoke_elevation
step-EndsBy key deadline (grant now subject scope minutes reason approver) m other h token found =
    h token (sym (get-set_ne (subject, scope) key _ m.active_grants other) ∙ found)
step-EndsBy key deadline (check now subject scope) m other h token found =
    ground (arith, drop-EndsBy key (subject, scope) deadline m h token, h token)
step-EndsBy key deadline (revoke subject scope) m other h token found =
    ground (arith, drop-EndsBy key (subject, scope) deadline m h token, h token)

run-EndsBy :
    (key : String × String) (deadline : ℕ) (cs : List Call) (m : JustInTimeElevationManager)
    → All (NoGrant key) cs
    → EndsBy key deadline m
    → EndsBy key deadline (run cs m)
unfolding run
run-EndsBy key deadline [] m other h = h
run-EndsBy key deadline (c ∷ cs) m other h =
    run-EndsBy key deadline cs (step c m) other.1 (step-EndsBy key deadline c m other.0 h)

ended :
    (t : ℕ) (subject scope : String) (m : JustInTimeElevationManager)
    → EndsBy (subject, scope) t m
    → (is_elevated t subject scope m).1 ≡ false
unfolding is_elevated
ended t subject scope m h = elim (Option-cases (Dict.get (subject, scope) m.active_grants)) [
  | inl absent ↦ rw (absent, is_elevated)
  | inr (token, found) ↦ ground (arith, found, h token found)
]

elevated_at :
    (t : ℕ) (subject scope : String) (token : JitElevationToken) (m : JustInTimeElevationManager)
    → Dict.get (subject, scope) m.active_grants ≡ some token
    → (is_elevated t subject scope m).1 ≡ ltb t token.expires_at
unfolding is_elevated
elevated_at t subject scope token m found = rw (found, is_elevated) (ground arith)

-- A grant at `now` elevates for at least one minute and at most an hour: right after it the check
-- passes exactly before the end of the bounded duration, and an hour later it fails, whatever calls
-- other than a new grant for the same subject and scope came between.
pub grant_elevation-ends :
    (now later minutes : ℕ) (subject scope reason approver : String) (cs : List Call)
    (m : JustInTimeElevationManager)
    → All (NoGrant (subject, scope)) cs
    → let m' = (grant_elevation now subject scope minutes reason approver m).0 in
      ((is_elevated later subject scope m').1 ≡ ltb later (now + min 60 (max 1 minutes)))
      × ((is_elevated (now + 60 + later) subject scope (run cs m')).1 ≡ false)
unfolding grant_elevation is_elevated
grant_elevation-ends now later minutes subject scope reason approver cs m other = (
  elevated_at later subject scope token m' (get-set_self (subject, scope) token m.active_grants),
  ended (now + 60 + later) subject scope (run cs m') (λ token found.
      omega (arith, run-EndsBy (subject, scope) (now + 60) cs m' other start token found)),
)
  where
    token : JitElevationToken
    token = record {
      subject_id = subject;
      scope = scope;
      granted_at = now;
      expires_at = now + min 60 (max 1 minutes);
      approver_id = approver;
      reason = reason;
    }

    m' : JustInTimeElevationManager
    m' = record { active_grants = Dict.set (subject, scope) token m.active_grants }

    start : EndsBy (subject, scope) (now + 60) m'
    start t found = ground (arith, get-set_self (subject, scope) token m.active_grants)
