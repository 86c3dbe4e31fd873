-- ===== src/Security/ApiKeys/Access.antt =====
-- Who gets in with a key of `APIKeyManager`, src/amberclaw/security/tokens.py.
use amber_claw.Base.{
  ℕ, ◌≡◌, sym, ap, ◌∙◌, subst, true, false, ◌&&◌, Option, some, String, ok, List, [], ◌∷◌, filter,
  take, All, Bool-cases, inl, inr, arith,
}
use amber_claw.Base.Dict
use amber_claw.Base.Dict.{
  Dict, IsDict, set-IsDict, All-set, All-get, All-any, All-absent, All-map, IsDict-get, values,
}
use amber_claw.Base.Key.{text_key}
use amber_claw.Base.Text.{Text, text_eq, starts}
use amber_claw.Security.ApiKeys.{
  ApiKeyRecord, ApiKeyManager, judge, first_match, verify_api_key, has_expired, lacks_scope, live,
}
use amber_claw.Security.ApiKeys.Records.{Call, run, no_keys, IsKeyed, run-IsKeyed}

judge_ok :
    (hash : Text → Text → Text) (now : ℕ) (scope : Option String) (x r : ApiKeyRecord)
    → judge hash now scope x ≡ ok r
    → (x ≡ r) × (has_expired now x.expires_at ≡ false) × (lacks_scope scope x.scopes ≡ false)
judge_ok hash now scope x r h = ground arith

-- A record that verification returns.
module _ (hash : Text → Text → Text) (Q : ApiKeyRecord → Type 0) where
  -- The raw key opens the record at the time, for the scope.
  abbrev pub Opens : ℕ → Text → Option String → ApiKeyRecord → Type 0
  Opens now raw scope r =
      (r.is_active ≡ true)
      × (text_eq (hash raw r.salt) r.hashed_key ≡ true)
      × (has_expired now r.expires_at ≡ false)
      × (lacks_scope scope r.scopes ≡ false)

  matched :
      (now : ℕ) (raw : Text) (scope : Option String) (p : Text) (d : Dict String ApiKeyRecord)
      (r : ApiKeyRecord)
      → All (λ e. Q e.1) d
      → first_match hash now raw scope
          (filter (λ x. text_eq x.key_prefix p && x.is_active) (values d))
        ≡ ok r
      → Q r × Opens now raw scope r
  unfolding first_match
  matched now raw scope p [] r h found = ground (arith, found)
  matched now raw scope p (e ∷ d) r h found =
      elim (Bool-cases (text_eq e.1.key_prefix p && e.1.is_active)) [
        | inr other ↦ matched now raw scope p d r h.1 (rw other at found)
        | inl same ↦ elim (Bool-cases (text_eq (hash raw e.1.salt) e.1.hashed_key)) [
          | inr miss ↦ matched now raw scope p d r h.1 (rw miss at (rw same at found))
          | inl hit ↦ judged e.1 h.0 (ground (arith, same)) hit (rw hit at (rw same at found))
        ]
      ]
    where
      judged :
          (x : ApiKeyRecord)
          → Q x
          → x.is_active ≡ true
          → text_eq (hash raw x.salt) x.hashed_key ≡ true
          → judge hash now scope x ≡ ok r
          → Q r × Opens now raw scope r
      judged x q a hit found =
          let (same, alive, allowed) = judge_ok hash now scope x r found in
          subst (λ y. Q y × Opens now raw scope y) same (q, (a, hit, alive, allowed))

  pub verified :
      (now : ℕ) (raw : Text) (scope : Option String) (m : ApiKeyManager) (r : ApiKeyRecord)
      → All (λ e. Q e.1) m.records
      → verify_api_key hash now raw scope m ≡ ok r
      → Q r × Opens now raw scope r
  unfolding verify_api_key
  verified now raw scope m r h found = elim (Bool-cases (starts live raw)) [
    | inl good ↦ matched now raw scope (take 12 raw) m.records r h (rw good at found)
    | inr bad ↦ ground (arith, bad, found)
  ]

module _ (hash : Text → Text → Text) where
  -- A key that verification accepts is stored under its ID as it is returned, is active and has not
  -- expired, its digest is that of the raw key, and it has the scope that is asked for, whatever calls
  -- made the keys.
  pub verify_api_key_sound :
      (ks : List Call) (now : ℕ) (raw : Text) (scope : Option String) (r : ApiKeyRecord)
      → verify_api_key hash now raw scope (run hash ks no_keys) ≡ ok r
      → (Dict.get r.key_id (run hash ks no_keys).records ≡ some r)
        × (r.is_active ≡ true)
        × (text_eq (hash raw r.salt) r.hashed_key ≡ true)
        × (has_expired now r.expires_at ≡ false)
        × (lacks_scope scope r.scopes ≡ false)
  verify_api_key_sound ks now raw scope r found =
      let (here, opens) =
        verified hash (λ x. Dict.get x.key_id m.records ≡ some x) now raw scope m r stored found in
      (here, opens.0, opens.1, opens.2, opens.3)
    where
      m : ApiKeyManager
      m = run hash ks no_keys

      both :
          (d : Dict String ApiKeyRecord)
          → All IsKeyed d
          → All (λ e. Dict.get e.0 m.records ≡ some e.1) d
          → All (λ e. Dict.get e.1.key_id m.records ≡ some e.1) d
      both [] k g = tt
      both (e ∷ d) k g = (ap (λ i. Dict.get i m.records) (sym k.0) ∙ g.0, both d k.1 g.1)

      stored : All (λ e. Dict.get e.1.key_id m.records ≡ some e.1) m.records
      stored = both m.records (run-IsKeyed hash ks).1 (IsDict-get m.records (run-IsKeyed hash ks).0)
