-- ===== src/Security/ApiKeys/Retired.antt =====
-- Keys that are revoked or rotated away in `APIKeyManager`, src/amberclaw/security/tokens.py.
use amber_claw.Base.{
  ℕ, ◌≡◌, refl, sym, ap, ◌∙◌, subst, Bool, true, false, Option, none, some, String, Result, ok,
  raise, List, [], ◌∷◌, ◌++◌, All, Bool-cases, Option-cases, inl, inr, ◌⊎◌, arith,
}
use amber_claw.Base.Dict
use amber_claw.Base.Dict.{
  Dict, IsDict, set-IsDict, All-set, All-get, All-any, All-absent, All-map, IsDict-get, values,
}
use amber_claw.Base.Key.{text_key, ◌==◌}
use amber_claw.Base.Text.{Text}
use amber_claw.Security.ApiKeys.{
  ApiKeyRecord, ApiKeyManager, Draw, Error, create_api_key, verify_api_key, deactivated,
  rotate_api_key, revoke_api_key, rotated,
}
use amber_claw.Security.ApiKeys.Records.{
  Call, Draws, create, step, run, run-Holds, no_keys, IsKeyed, IsOff, run-IsKeyed,
}
use amber_claw.Security.ApiKeys.Access.{verified}

-- Does a verification give the record with this ID?
abbrev pub gives : String → Result Error ApiKeyRecord → Bool
gives id (ok r) = r.key_id == id
gives id (raise e) = false

module _ (hash : Text → Text → Text) where
  keyed_or_IsOff :
      (id : String) (d : Dict String ApiKeyRecord)
      → All IsKeyed d
      → All (λ e. ((e.0 == id) ≡ true) ⊎ IsOff id e) d
  keyed_or_IsOff id d k = All-map IsKeyed (λ e. ((e.0 == id) ≡ true) ⊎ IsOff id e) d judge_entry k
    where
      judge_entry : (e : String × ApiKeyRecord) → IsKeyed e → ((e.0 == id) ≡ true) ⊎ IsOff id e
      judge_entry e k = elim (Bool-cases (e.0 == id)) [
        | inl same ↦ inl same
        | inr other ↦ inr (k, inl other)
      ]

  deactivated-IsOff :
      (id : String) (r : ApiKeyRecord) (m : ApiKeyManager)
      → Dict.get id m.records ≡ some r
      → IsDict m.records × All IsKeyed m.records
      → let d = Dict.set id (deactivated hash r) m.records in IsDict d × All (IsOff id) d
  deactivated-IsOff id r m found h = (
    set-IsDict id _ m.records h.0,
    All-set (IsOff id) id _ m.records h.0 (All-get IsKeyed id r m.records h.1 found, inr refl)
        (keyed_or_IsOff id m.records h.1),
  )

  absent-IsOff :
      (id : String) (m : ApiKeyManager)
      → Dict.get id m.records ≡ none
      → IsDict m.records × All IsKeyed m.records
      → IsDict m.records × All (IsOff id) m.records
  absent-IsOff id m absent h =
      (h.0, All-absent (IsOff id) id m.records absent (keyed_or_IsOff id m.records h.1))

  revoked-IsOff :
      (id : String) (m : ApiKeyManager)
      → IsDict m.records × All IsKeyed m.records
      → let d = (revoke_api_key hash id m).0.records in IsDict d × All (IsOff id) d
  unfolding revoke_api_key
  revoked-IsOff id m h = elim (Option-cases (Dict.get id m.records)) [
    | inl absent ↦ rw absent (absent-IsOff id m absent h)
    | inr (r, found) ↦ rw found (deactivated-IsOff id r m found h)
  ]

  later-IsOff :
      (id : String) (ks : List Call) (m : ApiKeyManager)
      → All (Draws (λ d. (d.key_id == id) ≡ false)) ks
      → IsDict m.records × All (IsOff id) m.records
      → IsDict (run hash ks m).records × All (IsOff id) (run hash ks m).records
  later-IsOff id ks m fresh h =
      run-Holds hash (IsOff id) (λ d. (d.key_id == id) ≡ false)
        (λ now d owner scopes name days f. (refl, inl f)) (λ i r g. (g.0, inr refl)) ks m fresh h

  inactive-IsOff :
      (id : String) (r : ApiKeyRecord) (m : ApiKeyManager) (d : Dict String ApiKeyRecord)
      → Dict.get id m.records ≡ some r
      → r.is_active ≡ false
      → All IsKeyed d
      → All (λ e. Dict.get e.0 m.records ≡ some e.1) d
      → All (IsOff id) d
  inactive-IsOff id r m [] found off k g = tt
  inactive-IsOff id r m (e ∷ d) found off k g = (
    (
      k.0,
      elim (Bool-cases (e.0 == id)) [
        | inl same ↦ inr (
            ground (
              arith,
              sym g.0
                  ∙ ap (λ i. Dict.get i m.records) ((text_key.same_key_iff e.0 id).0 same)
                  ∙ found,
              off,
            ))
        | inr other ↦ inl other
      ],
    ),
    inactive-IsOff id r m d found off k.1 g.1,
  )

  -- Rotating away an active key retires it, as does a key that is not there or no longer active.
  rotated-IsOff :
      (now : ℕ) (d : Draw) (id : String) (days : Option ℕ) (m : ApiKeyManager)
      → (d.key_id == id) ≡ false
      → IsDict m.records × All IsKeyed m.records
      → let e = (rotate_api_key hash now d id days m).0.records in IsDict e × All (IsOff id) e
  unfolding rotate_api_key create_api_key run step
  rotated-IsOff now d id days m other h = elim (Option-cases (Dict.get id m.records)) [
    | inl absent ↦ rw absent (absent-IsOff id m absent h)
    | inr (r, found) ↦ rw found (elim (Bool-cases r.is_active) [
      | inl a ↦ rw a (
          later-IsOff id (create now d r.owner_id r.scopes (r.name ++ rotated) days ∷ []) _
            (other, tt) (deactivated-IsOff id r m found h))
      | inr a ↦ rw a (h.0, inactive-IsOff id r m m.records found a h.1 (IsDict-get m.records h.0))
    ])
  ]

  refused :
      (id : String) (now : ℕ) (raw : Text) (scope : Option String) (m : ApiKeyManager)
      → All (IsOff id) m.records
      → gives id (verify_api_key hash now raw scope m) ≡ false
  refused id now raw scope m h = outcome (verify_api_key hash now raw scope m) refl
    where
      Off : ApiKeyRecord → Type 0
      Off r = ((r.key_id == id) ≡ false) ⊎ (r.is_active ≡ false)

      off : All (λ e. Off e.1) m.records
      off =
          All-map (IsOff id) (λ e. Off e.1) m.records
            (λ e o. subst (λ i. ((i == id) ≡ false) ⊎ (e.1.is_active ≡ false)) o.0 o.1) h

      outcome :
          (o : Result Error ApiKeyRecord)
          → verify_api_key hash now raw scope m ≡ o
          → gives id o ≡ false
      outcome (raise e) found = refl
      outcome (ok r) found =
          let (o, opens) = verified hash Off now raw scope m r off found in
          elim o [ inl other ↦ other | inr inactive ↦ ground (arith, inactive, opens.0) ]

  -- Once a key has been revoked or rotated away no raw key is ever accepted as it, at any time and for
  -- any scope, whatever keys are made, rotated and revoked later under other IDs.
  pub revoke_api_key-final :
      (before ks : List Call) (id : String) (n now : ℕ) (d : Draw) (days : Option ℕ) (raw : Text)
      (scope : Option String)
      → (d.key_id == id) ≡ false
      → All (Draws (λ x. (x.key_id == id) ≡ false)) ks
      → let m = run hash before no_keys in
        (gives id (verify_api_key hash now raw scope (run hash ks (revoke_api_key hash id m).0))
          ≡ false)
        × (gives id (
              verify_api_key hash now raw scope (run hash ks (rotate_api_key hash n d id days m).0))
            ≡ false)
  revoke_api_key-final before ks id n now d days raw scope other fresh = (
    refused id now raw scope _ (later-IsOff id ks _ fresh (revoked-IsOff id m keyed)).1,
    refused id now raw scope _
        (later-IsOff id ks _ fresh (rotated-IsOff n d id days m other keyed)).1,
  )
    where
      m : ApiKeyManager
      m = run hash before no_keys

      keyed : IsDict m.records × All IsKeyed m.records
      keyed = run-IsKeyed hash before
