-- ===== src/Security/BreakGlass/Ends.antt =====
-- Emergency elevations of security/tokens.py end.
use amber_claw.Base.{
  ℕ, ◌+◌, ◌*◌, ◌≤◌, ◌<◌, ◌≡◌, refl, sym, ap, ◌∙◌, subst, true, false, not, Option, none, some,
  String, raise, is_ok, leb, ltb, min, max, List, [], ◌∷◌, length, All, Bool-cases, if_both, inl,
  inr, ◌⊎◌, arith,
}
use amber_claw.Base.Dict
use amber_claw.Base.Dict.{get-set, get-set_self}
use amber_claw.Base.Key.{text_key, ◌==◌}
use amber_claw.Base.Text.{Text, strip}
use amber_claw.Security.BreakGlass.{
  BreakGlassElevation, BreakGlassManager, reason_too_short, elevation, request_break_glass,
  deactivated, verify_entry, verify_elevation, revoke_entry, revoke_break_glass,
}

pub data Call : Type 0 where
  request : ℕ → String → String → Text → ℕ → String → Call
  verify : ℕ → String → Call
  revoke : String → Call
  clear : Call

unfoldable pub step : Call → BreakGlassManager → BreakGlassManager
step (request now id user reason minutes approver) m =
    (request_break_glass now id user reason minutes approver m).0
step (verify now id) m = (verify_elevation now id m).0
step (revoke id) m = (revoke_break_glass id m).0
step clear m = record { elevations = [] }

unfoldable pub run : List Call → BreakGlassManager → BreakGlassManager
run [] m = m
run (k ∷ ks) m = run ks (step k m)

-- The call makes no elevation with this ID.
abbrev pub IsFresh : String → Call → Type 0
IsFresh id (request now new user reason minutes approver) = (new == id) ≡ false
IsFresh id _ = Unit {0}

-- Nothing, or an elevation that is off or ends by the time.
abbrev EndsBy : ℕ → Option BreakGlassElevation → Type 0
EndsBy t none = Unit {0}
EndsBy t (some e) = (e.is_active ≡ false) ⊎ (e.expires_at ≤ t)

abbrev Ends : String → ℕ → BreakGlassManager → Type 0
Ends id t m = EndsBy t (Dict.get id m.elevations)

-- Nothing, or an elevation that is off.
abbrev IsOff : Option BreakGlassElevation → Type 0
IsOff none = Unit {0}
IsOff (some e) = e.is_active ≡ false

-- What a property of the entry keeps: other IDs, and switching off.
module _ (P : Option BreakGlassElevation → Type 0) (gone : P none)
    (off : (e : BreakGlassElevation) → P (some e) → P (some (deactivated e))) where
  abbrev Kept {ℓ} : {B : Type ℓ} → String → BreakGlassManager × B → Type 0
  Kept id x = P (Dict.get id x.0.elevations)

  set-other :
      (id k : String) (e : BreakGlassElevation) (m : BreakGlassManager)
      → (k ≡ id → P (some e))
      → P (Dict.get id m.elevations)
      → P (Dict.get id (Dict.set k e m.elevations))
  set-other id k e m new h = elim (Bool-cases (k == id)) [
    | inl same ↦ rw (get-set, same) (new ((text_key.same_key_iff k id).0 same))
    | inr other ↦ rw (get-set, other) h
  ]

  off-kept :
      (id k : String) (e : BreakGlassElevation) (m : BreakGlassManager)
      → Dict.get k m.elevations ≡ some e
      → P (Dict.get id m.elevations)
      → P (Dict.get id (Dict.set k (deactivated e) m.elevations))
  off-kept id k e m found h =
      set-other id k (deactivated e) m
        (λ same. off e (subst P (ap (λ i. Dict.get i m.elevations) (sym same) ∙ found) h)) h

  verify-kept :
      (id k : String) (now : ℕ) (m : BreakGlassManager) (o : Option BreakGlassElevation)
      → Dict.get k m.elevations ≡ o
      → P (Dict.get id m.elevations)
      → P (Dict.get id (verify_entry now k m o).0.elevations)
  verify-kept id k now m none found h = h
  verify-kept id k now m (some e) found h =
      if_both (Kept id) (not e.is_active) (m, false) _ h
        (if_both (Kept id) (ltb e.expires_at now) _ (m, true) (off-kept id k e m found h) h)

  revoke-kept :
      (id k : String) (m : BreakGlassManager) (o : Option BreakGlassElevation)
      → Dict.get k m.elevations ≡ o
      → P (Dict.get id m.elevations)
      → P (Dict.get id (revoke_entry k m o).0.elevations)
  revoke-kept id k m none found h = h
  revoke-kept id k m (some e) found h =
      if_both (Kept id) e.is_active _ (m, false) (off-kept id k e m found h) h

  step-kept :
      (id : String) (k : Call) (m : BreakGlassManager)
      → IsFresh id k
      → P (Dict.get id m.elevations)
      → P (Dict.get id (step k m).elevations)
  unfolding step request_break_glass verify_elevation revoke_break_glass Dict.get
  step-kept id (request now new user reason minutes approver) m fresh h =
      if_both (Kept id) (ltb (length (strip reason)) 10) (m, raise reason_too_short) _ h
        (set-other id new _ m (λ same. ground (arith, fresh, (text_key.same_key_iff new id).1 same))
          h)
  step-kept id (verify now k) m fresh h = verify-kept id k now m (Dict.get k m.elevations) refl h
  step-kept id (revoke k) m fresh h = revoke-kept id k m (Dict.get k m.elevations) refl h
  step-kept id clear m fresh h = gone

  run-kept :
      (id : String) (ks : List Call) (m : BreakGlassManager)
      → All (IsFresh id) ks
      → P (Dict.get id m.elevations)
      → P (Dict.get id (run ks m).elevations)
  unfolding run
  run-kept id [] m fresh h = h
  run-kept id (k ∷ ks) m fresh h = run-kept id ks (step k m) fresh.1 (step-kept id k m fresh.0 h)

ended :
    (id : String) (t now : ℕ) (m : BreakGlassManager) (o : Option BreakGlassElevation)
    → EndsBy t o
    → t < now
    → (verify_entry now id m o).1 ≡ false
ended id t now m none h later = refl
ended id t now m (some e) h later = ground arith

refused :
    (id : String) (now : ℕ) (m : BreakGlassManager) (o : Option BreakGlassElevation)
    → IsOff o
    → (verify_entry now id m o).1 ≡ false
refused id now m none h = refl
refused id now m (some e) h = ground arith

revoked-IsOff :
    (id : String) (m : BreakGlassManager) (o : Option BreakGlassElevation)
    → Dict.get id m.elevations ≡ o
    → IsOff (Dict.get id (revoke_entry id m o).0.elevations)
revoked-IsOff id m none found = rw found tt
revoked-IsOff id m (some e) found = elim (Bool-cases e.is_active) [
  | inl a ↦ rw (a, get-set_self) refl
  | inr a ↦ rw (a, found) a
]

-- An emergency elevation needs a reason of ten characters; it is then valid at once exactly up to the end
-- of the duration asked for, taken to between 5 and 120 minutes. More than two hours after its request, and
-- from the moment it is revoked, it is not, whatever calls come between, as long as none gets its ID.
pub request_break_glass-ends :
    (now t later : ℕ) (id user : String) (reason : Text) (minutes : ℕ) (approver : String)
    (ks ls : List Call) (m : BreakGlassManager)
    → All (IsFresh id) ks
    → All (IsFresh id) ls
    → let (m', result) = request_break_glass now id user reason minutes approver m in
      (is_ok result ≡ leb 10 (length (strip reason)))
      × ((length (strip reason) < 10)
          ⊎ (((verify_elevation t id m').1 ≡ leb t (now + min (max minutes 5) 120 * 60))
              × ((verify_elevation (now + 7201 + later) id (run ks m')).1 ≡ false)
              × ((verify_elevation t id (run ls (revoke_break_glass id (run ks m')).0)).1 ≡ false)))
unfolding request_break_glass verify_elevation revoke_break_glass
request_break_glass-ends now t later id user reason minutes approver ks ls m fresh fresh' =
    elim (Bool-cases (ltb (length (strip reason)) 10)) [
      | inl short ↦ rw short (ground (arith, short), inl (ground (arith, short)))
      | inr long ↦ rw long (ground (arith, long), inr (valid, over, revoked))
    ]
  where
    e : BreakGlassElevation
    e = elevation now id user reason minutes approver

    m' : BreakGlassManager
    m' = record { elevations = Dict.set id e m.elevations }

    found : Dict.get id m'.elevations ≡ some e
    found = get-set_self id e m.elevations

    valid :
        (verify_entry t id m' (Dict.get id m'.elevations)).1
        ≡ leb t (now + min (max minutes 5) 120 * 60)
    valid = ap (λ o. (verify_entry t id m' o).1) found ∙ ground arith

    over :
        (verify_entry (now + 7201 + later) id (run ks m') (Dict.get id (run ks m').elevations)).1
        ≡ false
    over =
        ended id (now + 7200) (now + 7201 + later) (run ks m') (Dict.get id (run ks m').elevations)
          (run-kept (EndsBy (now + 7200)) tt (λ x h. inl refl) id ks m' fresh
            (subst (EndsBy (now + 7200)) (sym found) (inr (omega arith))))
          (omega arith)

    revoked :
        let n = (revoke_entry id (run ks m') (Dict.get id (run ks m').elevations)).0 in
        (verify_entry t id (run ls n) (Dict.get id (run ls n).elevations)).1 ≡ false
    revoked = refused id t _ _ (
        run-kept IsOff tt (λ x h. refl) id ls _ fresh'
          (revoked-IsOff id (run ks m') (Dict.get id (run ks m').elevations) refl))
