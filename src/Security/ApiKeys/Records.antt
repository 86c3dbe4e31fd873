-- ===== src/Security/ApiKeys/Records.antt =====
-- The records behind the calls of `APIKeyManager`, src/amberclaw/security/tokens.py.
use amber_claw.Base.{
  ℕ, ◌≡◌, refl, false, Option, some, String, List, [], ◌∷◌, All, Bool-cases, Option-cases, inl, inr,
  ◌⊎◌,
}
use amber_claw.Base.Dict
use amber_claw.Base.Dict.{
  Dict, IsDict, set-IsDict, All-set, All-get, All-any, All-absent, All-map, IsDict-get, values,
}
use amber_claw.Base.Key.{text_key, ◌==◌}
use amber_claw.Base.Text.{Text}
use amber_claw.Security.ApiKeys.{
  ApiKeyRecord, ApiKeyManager, Draw, new_record, create_api_key, deactivated, rotate_api_key,
  revoke_api_key,
}

pub data Call : Type 0 where
  create : ℕ → Draw → String → List String → Text → Option ℕ → Call
  rotate : ℕ → Draw → String → Option ℕ → Call
  revoke : String → Call
  clear : Call

module _ (hash : Text → Text → Text) where
  unfoldable pub step : Call → ApiKeyManager → ApiKeyManager
  step (create now d owner scopes name days) m =
      (create_api_key hash now d owner scopes name days m).0
  step (rotate now d id days) m = (rotate_api_key hash now d id days m).0
  step (revoke id) m = (revoke_api_key hash id m).0
  step clear m = record { records = [] }

  unfoldable pub run : List Call → ApiKeyManager → ApiKeyManager
  run [] m = m
  run (k ∷ ks) m = run ks (step k m)

-- The UUID that a call may use is allowed.
abbrev pub Draws : (Draw → Type 0) → Call → Type 0
Draws Fresh (create now d owner scopes name days) = Fresh d
Draws Fresh (rotate now d id days) = Fresh d
Draws Fresh _ = Unit {0}

-- Entries that are made by the calls keep a property that new records have and deactivation keeps.
module _ (hash : Text → Text → Text) (P : String × ApiKeyRecord → Type 0) (Fresh : Draw → Type 0)
    (new : (now : ℕ) (d : Draw) (owner : String) (scopes : List String) (name : Text)
        (days : Option ℕ)
      → Fresh d
      → P (d.key_id, new_record hash now d owner scopes name days))
    (off : (id : String) (r : ApiKeyRecord) → P (id, r) → P (id, deactivated hash r)) where
  abbrev pub Holds : ApiKeyManager → Type 0
  Holds m = IsDict m.records × All P m.records

  create-Holds :
      (now : ℕ) (d : Draw) (owner : String) (scopes : List String) (name : Text) (days : Option ℕ)
      (m : ApiKeyManager)
      → Fresh d
      → Holds m
      → Holds (create_api_key hash now d owner scopes name days m).0
  unfolding create_api_key
  create-Holds now d owner scopes name days m f h = (
    set-IsDict d.key_id _ m.records h.0,
    All-set P d.key_id _ m.records h.0 (new now d owner scopes name days f)
        (All-any P d.key_id m.records h.1),
  )

  off-Holds :
      (id : String) (r : ApiKeyRecord) (m : ApiKeyManager)
      → Dict.get id m.records ≡ some r
      → Holds m
      → Holds (record { records = Dict.set id (deactivated hash r) m.records })
  off-Holds id r m found h = (
    set-IsDict id _ m.records h.0,
    All-set P id _ m.records h.0 (off id r (All-get P id r m.records h.1 found))
        (All-any P id m.records h.1),
  )

  rotate-Holds :
      (now : ℕ) (d : Draw) (id : String) (days : Option ℕ) (m : ApiKeyManager)
      → Fresh d
      → Holds m
      → Holds (rotate_api_key hash now d id days m).0
  unfolding rotate_api_key
  rotate-Holds now d id days m f h = elim (Option-cases (Dict.get id m.records)) [
    | inl absent ↦ rw absent h
    | inr (r, found) ↦ rw found (elim (Bool-cases r.is_active) [
      | inl a ↦ rw a (create-Holds now d r.owner_id r.scopes _ days _ f (off-Holds id r m found h))
      | inr a ↦ rw a h
    ])
  ]

  revoke-Holds : (id : String) (m : ApiKeyManager) → Holds m → Holds (revoke_api_key hash id m).0
  unfolding revoke_api_key
  revoke-Holds id m h = elim (Option-cases (Dict.get id m.records)) [
    | inl absent ↦ rw absent h
    | inr (r, found) ↦ rw found (off-Holds id r m found h)
  ]

  pub run-Holds :
      (ks : List Call) (m : ApiKeyManager) → All (Draws Fresh) ks → Holds m → Holds (run hash ks m)
  unfolding run step
  run-Holds [] m f h = h
  run-Holds (create now d owner scopes name days ∷ ks) m f h =
      run-Holds ks _ f.1 (create-Holds now d owner scopes name days m f.0 h)
  run-Holds (rotate now d id days ∷ ks) m f h =
      run-Holds ks _ f.1 (rotate-Holds now d id days m f.0 h)
  run-Holds (revoke id ∷ ks) m f h = run-Holds ks _ f.1 (revoke-Holds id m h)
  run-Holds (clear ∷ ks) m f h = run-Holds ks _ f.1 (tt, tt)

abbrev pub no_keys : ApiKeyManager
no_keys = record { records = [] }

-- Each record stands under its own ID.
abbrev pub IsKeyed : String × ApiKeyRecord → Type 0
IsKeyed e = e.0 ≡ e.1.key_id

-- ... and is not active if it has this one.
abbrev pub IsOff : String → String × ApiKeyRecord → Type 0
IsOff id e = IsKeyed e × (((e.0 == id) ≡ false) ⊎ (e.1.is_active ≡ false))

module _ (hash : Text → Text → Text) where
  pub run-IsKeyed :
      (ks : List Call)
      → IsDict (run hash ks no_keys).records × All IsKeyed (run hash ks no_keys).records
  run-IsKeyed ks =
      run-Holds hash IsKeyed (λ d. Unit {0}) (λ now d owner scopes name days f. refl) (λ id r h. h)
        ks no_keys (any_draws ks) (tt, tt)
    where
      any_draws : (xs : List Call) → All (Draws (λ d. Unit {0})) xs
      any_draws [] = tt
      any_draws (create now d owner scopes name days ∷ xs) = (tt, any_draws xs)
      any_draws (rotate now d id days ∷ xs) = (tt, any_draws xs)
      any_draws (revoke id ∷ xs) = (tt, any_draws xs)
      any_draws (clear ∷ xs) = (tt, any_draws xs)
