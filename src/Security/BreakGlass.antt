-- ===== src/Security/BreakGlass.antt =====
-- `BreakGlassManager` of src/amberclaw/security/tokens.py: emergency elevations. Clocks are numbers of
-- seconds, a reason is its list of code points, a new UUID is an argument; audit records are output.
use amber_claw.Base.{
  ℕ, ◌+◌, ◌*◌, Bool, true, false, not, ◌&&◌, ◌||◌, Option, none, some, String, Result, ok, raise,
  ltb, min, max, if◌then◌else◌, List, [], length,
}
use amber_claw.Base.Dict
use amber_claw.Base.Dict.{Dict}
use amber_claw.Base.Key.{text_key}
use amber_claw.Base.Text.{Text, strip}
pub mod Ends
mod Tests

pub record BreakGlassElevation : Type 0 where
  pub elevation_id : String
  pub user_id : String
  pub reason : Text
  pub approved_by : String
  pub granted_at : ℕ
  pub expires_at : ℕ
  pub is_active : Bool

pub record BreakGlassManager : Type 0 where
  pub elevations : Dict String BreakGlassElevation

pub data Error : Type 0 where
  reason_too_short : Error

abbrev pub actual_minutes : ℕ → ℕ
actual_minutes duration = min (max duration 5) 120

abbrev pub elevation : ℕ → String → String → Text → ℕ → String → BreakGlassElevation
elevation now id user reason minutes approver = record {
  elevation_id = id;
  user_id = user;
  reason = reason;
  approved_by = approver;
  granted_at = now;
  expires_at = now + actual_minutes minutes * 60;
  is_active = true;
}

unfoldable pub request_break_glass :
    ℕ
    → String
    → String
    → Text
    → ℕ
    → String
    → BreakGlassManager
    → BreakGlassManager × Result Error BreakGlassElevation
request_break_glass now id user reason duration_minutes approver m =
    if ltb (length (strip reason)) 10
    then (m, raise reason_too_short)
    else let e = elevation now id user reason duration_minutes approver in
      (record { elevations = Dict.set id e m.elevations }, ok e)

abbrev pub deactivated : BreakGlassElevation → BreakGlassElevation
deactivated e = record e { is_active = false }

abbrev verify_entry :
    ℕ → String → BreakGlassManager → Option BreakGlassElevation → BreakGlassManager × Bool
verify_entry now id m none = (m, false)
verify_entry now id m (some e) =
    if not e.is_active
    then (m, false)
    else if ltb e.expires_at now
    then (record { elevations = Dict.set id (deactivated e) m.elevations }, false)
    else (m, true)

-- An elevation that has expired is switched off.
unfoldable pub verify_elevation : ℕ → String → BreakGlassManager → BreakGlassManager × Bool
verify_elevation now id m = verify_entry now id m (Dict.get id m.elevations)

abbrev revoke_entry :
    String → BreakGlassManager → Option BreakGlassElevation → BreakGlassManager × Bool
revoke_entry id m none = (m, false)
revoke_entry id m (some e) =
    if e.is_active
    then (record { elevations = Dict.set id (deactivated e) m.elevations }, true)
    else (m, false)

unfoldable pub revoke_break_glass : String → BreakGlassManager → BreakGlassManager × Bool
revoke_break_glass id m = revoke_entry id m (Dict.get id m.elevations)
