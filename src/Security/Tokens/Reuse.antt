-- ===== src/Security/Tokens/Reuse.antt =====
-- Presenting a refresh token of security/tokens.py again: it fails, and its family is revoked.
use amber_claw.Base.{
  ℕ, ◌≡◌, refl, sym, ap, ◌∙◌, subst, true, false, not, ◌&&◌, ◌||◌, Option, none, some, String,
  is_ok, List, [], ◌∷◌, All, Bool-cases, inl, inr, arith,
}
use amber_claw.Base.Dict
use amber_claw.Base.Dict.{get_or, get-set_self}
use amber_claw.Base.Key.{text_key, ◌==◌, ==_refl, contains, truthy}
use amber_claw.Security.Tokens.{
  Claims, Jwt, TokenRevocationStore, RefreshTokenManager, Ids, Readings, add, revoke_jti,
  is_jti_revoked, jti_entry, revoke_session, revoke_family, is_family_revoked, is_session_revoked,
  family_tokens, or_else, refresh_claims, create_token_pair, compromise, redeem, rotate_decoded,
  rotate_refresh_token,
}
use amber_claw.Security.Tokens.Rotation.{
  Call, issue, rotate, revoke_token, check_token, end_session, end_family, clear_tokens,
  clear_revocations, step, run, IsFresh, IsSpent, run-IsSpent, contains-discard_self,
  replace-IsSpent, with_store,
}

-- What a token says does not depend on when it is read.
abbrev pub IsStable : Jwt → Type 0
IsStable jwt =
    (token : String) (now later : ℕ) (c d : Claims)
    → jwt.decode now token ≡ some c
    → jwt.decode later token ≡ some d
    → c ≡ d

-- The token may not have been revoked with its family.
abbrev pub IsRevoked : String → RefreshTokenManager → Type 0
IsRevoked family m = contains family m.store.revoked_families ≡ true

-- The store of revocations is not emptied.
abbrev pub Keeps : Call → Type 0
Keeps clear_revocations = ⊥
Keeps _ = Unit {0}

-- A token that carries what the code asks of a refresh token.
abbrev pub IsRefresh : Claims → Type 0
IsRefresh c =
    ((c.kind == "refresh") ≡ true)
    × (truthy c.jti ≡ true)
    × (truthy c.family_id ≡ true)
    × (truthy c.sub ≡ true)

contains-add_self : (x : String) (xs : List String) → contains x (add x xs) ≡ true
unfolding add contains
contains-add_self x xs = ground (arith, ==_refl x)

contains-add_keep :
    (x j : String) (xs : List String) → contains j xs ≡ true → contains j (add x xs) ≡ true
unfolding add contains
contains-add_keep x j xs h = ground arith

module _ (jwt : Jwt) where
  redeem_spent :
      (r : Readings) (ids : Ids) (c : Claims) (m : RefreshTokenManager)
      → IsSpent c.jti c.family_id m
      → redeem jwt r ids c m ≡ compromise c (with_store (is_jti_revoked r.check c.jti m.store).0 m)
  unfolding redeem
  redeem_spent r ids c m h = elim (Bool-cases (is_jti_revoked r.check c.jti m.store).1) [
    | inl e ↦ rw e refl
    | inr e ↦ rw (e, h) refl
  ]

  spent_refused :
      (r : Readings) (ids : Ids) (m : RefreshTokenManager) (c : Claims)
      → IsSpent c.jti c.family_id m
      → is_ok (rotate_decoded jwt r ids m (some c)).1 ≡ false
  spent_refused r ids m c h = ground (arith, redeem_spent r ids c m h)

  revoked_refused :
      (r : Readings) (ids : Ids) (m : RefreshTokenManager) (c : Claims)
      → IsRevoked c.family_id m
      → is_ok (rotate_decoded jwt r ids m (some c)).1 ≡ false
  unfolding is_family_revoked
  revoked_refused r ids m c h = ground (arith, h)

  -- A rotation that succeeds has come through the guards.
  passed :
      (r : Readings) (ids : Ids) (m : RefreshTokenManager) (c : Claims)
      → is_ok (rotate_decoded jwt r ids m (some c)).1 ≡ true
      → rotate_decoded jwt r ids m (some c) ≡ redeem jwt r ids c m
  passed r ids m c h = ground arith

  redeemed-IsSpent :
      (r : Readings) (ids : Ids) (m : RefreshTokenManager) (c : Claims)
      → (ids.refresh_jti == c.jti) ≡ false
      → is_ok (redeem jwt r ids c m).1 ≡ true
      → IsSpent c.jti c.family_id (redeem jwt r ids c m).0
  unfolding redeem
  redeemed-IsSpent r ids m c other h =
      elim (Bool-cases (
        (is_jti_revoked r.check c.jti m.store).1
        || not (contains c.jti (family_tokens c.family_id m)))) [
          | inl e ↦ ground (arith, e)
          | inr e ↦ rw e (
              replace-IsSpent jwt c.jti c.family_id r ids c
                (with_store (is_jti_revoked r.check c.jti m.store).0 m) other
                (rw get-set_self (contains-discard_self c.jti (family_tokens c.family_id m))))
        ]

  rotated-IsSpent :
      (r : Readings) (ids : Ids) (m : RefreshTokenManager) (c : Claims)
      → (ids.refresh_jti == c.jti) ≡ false
      → is_ok (rotate_decoded jwt r ids m (some c)).1 ≡ true
      → IsSpent c.jti c.family_id (rotate_decoded jwt r ids m (some c)).0
  rotated-IsSpent r ids m c other h =
      rw (passed r ids m c h) (redeemed-IsSpent r ids m c other (rw (passed r ids m c h) at h))

  -- A refresh token is used once: after a rotation that succeeded every further one with the same
  -- token raises, whatever calls come between, as long as no new pair gets the identifier of the token.
  pub rotate_refresh_token-once :
      (r later : Readings) (ids ids' : Ids) (token : String) (c : Claims) (ks : List Call)
      (m : RefreshTokenManager)
      → IsStable jwt
      → jwt.decode r.decode token ≡ some c
      → (ids.refresh_jti == c.jti) ≡ false
      → All (IsFresh c.jti) ks
      → is_ok (rotate_refresh_token jwt r ids token m).1 ≡ true
      → is_ok
          (rotate_refresh_token jwt later ids' token
            (run jwt ks (rotate_refresh_token jwt r ids token m).0)).1
        ≡ false
  unfolding rotate_refresh_token
  rotate_refresh_token-once r later ids ids' token c ks m stable read other fresh done =
      again (jwt.decode later.decode token) refl
    where
      m' : RefreshTokenManager
      m' = (rotate_decoded jwt r ids m (jwt.decode r.decode token)).0

      spent : IsSpent c.jti c.family_id m'
      spent =
          subst
            (λ o.
              is_ok (rotate_decoded jwt r ids m o).1 ≡ true
              → IsSpent c.jti c.family_id (rotate_decoded jwt r ids m o).0)
            (sym read) (rotated-IsSpent r ids m c other) done

      again :
          (o : Option Claims)
          → jwt.decode later.decode token ≡ o
          → is_ok (rotate_decoded jwt later ids' (run jwt ks m') o).1 ≡ false
      again none e = refl
      again (some d) e = spent_refused later ids' (run jwt ks m') d (
          subst (λ x. IsSpent x.jti x.family_id (run jwt ks m'))
            (stable token r.decode later.decode c d read e)
            (run-IsSpent jwt c.jti c.family_id ks m' fresh spent))

  unrevoked :
      (now : ℕ) (jti : String) (st : TokenRevocationStore)
      → Dict.get jti st.revoked_jtis ≡ none
      → (is_jti_revoked now jti st ≡ (st, false))
  unfolding is_jti_revoked
  unrevoked now jti st h = ap (jti_entry now jti st) h

  accepted :
      (r : Readings) (ids : Ids) (m : RefreshTokenManager) (c : Claims)
      → IsRefresh c
      → contains c.family_id m.store.revoked_families ≡ false
      → (truthy c.session_id && contains c.session_id m.store.revoked_sessions) ≡ false
      → Dict.get c.jti m.store.revoked_jtis ≡ none
      → contains c.jti (family_tokens c.family_id m) ≡ true
      → is_ok (rotate_decoded jwt r ids m (some c)).1 ≡ true
  unfolding is_family_revoked is_session_revoked redeem
  accepted r ids m c (kind, jti, family, sub) families session unseen active =
      ground (arith, unrevoked r.check c.jti m.store unseen, families, session, active)

  -- A new pair's refresh token can be rotated exactly once: if it can still be read, its identifier is
  -- new, user and IDs are not empty and neither family nor session is revoked, the first rotation
  -- succeeds; and after it every further one raises, whatever calls come between, as long as no other
  -- pair gets the identifier.
  pub create_token_pair-once :
      (now : ℕ) (ids next ids' : Ids) (r later : Readings) (user role : String)
      (scopes : List String) (session given : String) (ks : List Call) (m : RefreshTokenManager)
      → let (m', pair) = create_token_pair jwt now ids user role scopes session given m in
        let c =
          refresh_claims m now ids user role scopes
            (or_else session ids.session)
            (or_else given ids.family) in
        IsStable jwt
        → jwt.decode r.decode pair.refresh_token ≡ some c
        → truthy user ≡ true
        → truthy ids.refresh_jti ≡ true
        → truthy (or_else given ids.family) ≡ true
        → contains c.family_id m.store.revoked_families ≡ false
        → contains c.session_id m.store.revoked_sessions ≡ false
        → Dict.get ids.refresh_jti m.store.revoked_jtis ≡ none
        → (next.refresh_jti == ids.refresh_jti) ≡ false
        → All (IsFresh ids.refresh_jti) ks
        → let first = rotate_refresh_token jwt r next pair.refresh_token m' in
          (is_ok first.1 ≡ true)
          × (is_ok (rotate_refresh_token jwt later ids' pair.refresh_token (run jwt ks first.0)).1
              ≡ false)
  unfolding create_token_pair rotate_refresh_token
  create_token_pair-once now ids next ids' r later user role scopes session given ks m stable read u
        j f families sessions unseen other fresh =
      (
        first,
        rotate_refresh_token-once r later next ids' token c ks m' stable read other fresh first,
      )
    where
      m' : RefreshTokenManager
      m' = (create_token_pair jwt now ids user role scopes session given m).0

      token : String
      token = (create_token_pair jwt now ids user role scopes session given m).1.refresh_token

      c : Claims
      c =
          refresh_claims m now ids user role scopes (or_else session ids.session)
            (or_else given ids.family)

      active : contains ids.refresh_jti (family_tokens c.family_id m') ≡ true
      active =
          ap (λ o. contains ids.refresh_jti (get_or [] o))
            (get-set_self c.family_id (add ids.refresh_jti (family_tokens c.family_id m))
              m.active_family_tokens)
          ∙ contains-add_self ids.refresh_jti (family_tokens c.family_id m)

      first : is_ok (rotate_refresh_token jwt r next token m').1 ≡ true
      first =
          ap (λ o. is_ok (rotate_decoded jwt r next m' o).1) read
          ∙ accepted r next m' c (==_refl {K = String} "refresh", j, f, u) families
              (ground (arith, sessions)) unseen active

  create-IsRevoked :
      (family : String) (now : ℕ) (ids : Ids) (user role : String) (scopes : List String)
      (session given : String) (m : RefreshTokenManager)
      → IsRevoked family m
      → IsRevoked family (create_token_pair jwt now ids user role scopes session given m).0
  unfolding create_token_pair
  create-IsRevoked family now ids user role scopes session given m h = h

  check_families :
      (now : ℕ) (jti : String) (st : TokenRevocationStore) (o : Option ℕ)
      → (jti_entry now jti st o).0.revoked_families ≡ st.revoked_families
  check_families now jti st none = refl
  check_families now jti st (some exp) = ground arith

  check-IsRevoked :
      (family : String) (now : ℕ) (jti : String) (m : RefreshTokenManager)
      → IsRevoked family m
      → IsRevoked family (with_store (is_jti_revoked now jti m.store).0 m)
  unfolding is_jti_revoked
  check-IsRevoked family now jti m h =
      ap (contains family) (check_families now jti m.store (Dict.get jti m.store.revoked_jtis)) ∙ h

  redeem-IsRevoked :
      (family : String) (r : Readings) (ids : Ids) (c : Claims) (m : RefreshTokenManager)
      → IsRevoked family m
      → IsRevoked family (redeem jwt r ids c m).0
  unfolding redeem revoke_family revoke_jti
  redeem-IsRevoked family r ids c m h =
      elim (Bool-cases (
        (is_jti_revoked r.check c.jti m.store).1
        || not (contains c.jti (family_tokens c.family_id m)))) [
          | inl e ↦
              rw e
                (contains-add_keep c.family_id family _ (check-IsRevoked family r.check c.jti m h))
          | inr e ↦ rw e (
              create-IsRevoked family r.issue ids c.sub c.role c.scopes c.session_id c.family_id _
                (check-IsRevoked family r.check c.jti m h))
        ]

  decoded-IsRevoked :
      (family : String) (r : Readings) (ids : Ids) (m : RefreshTokenManager) (o : Option Claims)
      → IsRevoked family m
      → IsRevoked family (rotate_decoded jwt r ids m o).0
  decoded-IsRevoked family r ids m none h = h
  decoded-IsRevoked family r ids m (some c) h = ground (arith, redeem-IsRevoked family r ids c m h)

  step-IsRevoked :
      (family : String) (k : Call) (m : RefreshTokenManager)
      → Keeps k
      → IsRevoked family m
      → IsRevoked family (step jwt k m)
  unfolding step rotate_refresh_token revoke_jti revoke_session revoke_family
  step-IsRevoked family (issue now ids user role scopes session given) m k h =
      create-IsRevoked family now ids user role scopes session given m h
  step-IsRevoked family (rotate r ids token) m k h =
      decoded-IsRevoked family r ids m (jwt.decode r.decode token) h
  step-IsRevoked family (revoke_token now cleaned jti exp) m k h = h
  step-IsRevoked family (check_token now jti) m k h = check-IsRevoked family now jti m h
  step-IsRevoked family (end_session id) m k h = h
  step-IsRevoked family (end_family id) m k h =
      contains-add_keep id family m.store.revoked_families h
  step-IsRevoked family clear_tokens m k h = h
  step-IsRevoked family clear_revocations m k h = absurd k

  run-IsRevoked :
      (family : String) (ks : List Call) (m : RefreshTokenManager)
      → All Keeps ks
      → IsRevoked family m
      → IsRevoked family (run jwt ks m)
  unfolding run
  run-IsRevoked family [] m k h = h
  run-IsRevoked family (x ∷ ks) m k h =
      run-IsRevoked family ks (step jwt x m) k.1 (step-IsRevoked family x m k.0 h)

  compromised :
      (r : Readings) (ids : Ids) (m : RefreshTokenManager) (c : Claims)
      → IsRefresh c
      → (truthy c.session_id && contains c.session_id m.store.revoked_sessions) ≡ false
      → IsSpent c.jti c.family_id m
      → IsRevoked c.family_id (rotate_decoded jwt r ids m (some c)).0
  unfolding is_family_revoked is_session_revoked revoke_family
  compromised r ids m c (kind, jti, family, sub) session spent =
      elim (Bool-cases (contains c.family_id m.store.revoked_families)) [
        | inl e ↦ ground (arith, e)
        | inr e ↦ ground (
          arith,
          e,
          redeem_spent r ids c m spent,
          contains-add_self c.family_id (is_jti_revoked r.check c.jti m.store).0.revoked_families,
        )
      ]

  -- A refresh token that is no longer active but is presented again, its session not being revoked,
  -- revokes its family: this call raises, and from then on, whatever calls but the emptying of the
  -- revocation store come between, so does every rotation of a token of the family, be it new or old.
  pub rotate_refresh_token-reuse :
      (r later : Readings) (ids ids' : Ids) (token other : String) (c d : Claims) (ks : List Call)
      (m : RefreshTokenManager)
      → jwt.decode r.decode token ≡ some c
      → IsRefresh c
      → (truthy c.session_id && contains c.session_id m.store.revoked_sessions) ≡ false
      → IsSpent c.jti c.family_id m
      → All Keeps ks
      → jwt.decode later.decode other ≡ some d
      → d.family_id ≡ c.family_id
      → let m' = (rotate_refresh_token jwt r ids token m).0 in
        (is_ok (rotate_refresh_token jwt r ids token m).1 ≡ false)
        × (is_ok (rotate_refresh_token jwt later ids' other (run jwt ks m')).1 ≡ false)
  unfolding rotate_refresh_token
  rotate_refresh_token-reuse r later ids ids' token other c d ks m read claims session spent keeps
        read' family =
      (
        ap (λ o. is_ok (rotate_decoded jwt r ids m o).1) read ∙ spent_refused r ids m c spent,
        ap (λ o. is_ok (rotate_decoded jwt later ids' (run jwt ks m') o).1) read'
            ∙ revoked_refused later ids' (run jwt ks m') d (
                subst (λ f. IsRevoked f (run jwt ks m')) (sym family)
                  (run-IsRevoked c.family_id ks m' keeps (
                    subst (λ o. IsRevoked c.family_id (rotate_decoded jwt r ids m o).0) (sym read)
                      (compromised r ids m c claims session spent)))),
      )
    where
      m' : RefreshTokenManager
      m' = (rotate_decoded jwt r ids m (jwt.decode r.decode token)).0
