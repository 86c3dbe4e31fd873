-- ===== src/Security/Tokens/Rotation.antt =====
-- A refresh token of security/tokens.py is used once.
use amber_claw.Base.{
  ℕ, ◌≡◌, refl, ap, ◌∙◌, false, not, ◌||◌, Option, none, some, String, List, [], ◌∷◌, All,
  Bool-cases, inl, inr, arith,
}
use amber_claw.Base.Dict
use amber_claw.Base.Dict.{get_or, get-set, get-remove}
use amber_claw.Base.Key.{text_key, ◌==◌, contains}
use amber_claw.Security.Tokens.{
  Claims, Jwt, TokenRevocationStore, empty_store, RefreshTokenManager, Ids, Readings, add, discard,
  revoke_jti, is_jti_revoked, revoke_session, revoke_family, family_tokens, or_else,
  create_token_pair, replace, redeem, rotate_decoded, rotate_refresh_token,
}

-- The calls of the manager and its store.
pub data Call : Type 0 where
  issue : ℕ → Ids → String → String → List String → String → String → Call
  rotate : Readings → Ids → String → Call
  revoke_token : ℕ → ℕ → String → Option ℕ → Call
  check_token : ℕ → String → Call
  end_session : String → Call
  end_family : String → Call
  clear_tokens : Call
  clear_revocations : Call

abbrev pub with_store : TokenRevocationStore → RefreshTokenManager → RefreshTokenManager
with_store st m = record m { store = st }

module _ (jwt : Jwt) where
  unfoldable pub step : Call → RefreshTokenManager → RefreshTokenManager
  step (issue now ids user role scopes session family) m =
      (create_token_pair jwt now ids user role scopes session family m).0
  step (rotate r ids token) m = (rotate_refresh_token jwt r ids token m).0
  step (revoke_token now cleaned jti exp) m = with_store (revoke_jti now cleaned jti exp m.store) m
  step (check_token now jti) m = with_store (is_jti_revoked now jti m.store).0 m
  step (end_session id) m = with_store (revoke_session id m.store) m
  step (end_family id) m = with_store (revoke_family id m.store) m
  step clear_tokens m = record m { active_family_tokens = [] }
  step clear_revocations m = with_store empty_store m

  unfoldable pub run : List Call → RefreshTokenManager → RefreshTokenManager
  run [] m = m
  run (k ∷ ks) m = run ks (step k m)

-- The call makes no token with this identifier.
abbrev pub IsFresh : String → Call → Type 0
IsFresh jti (issue now ids user role scopes session family) = (ids.refresh_jti == jti) ≡ false
IsFresh jti (rotate r ids token) = (ids.refresh_jti == jti) ≡ false
IsFresh jti _ = Unit {0}

-- The identifier is not among the active ones of the family.
abbrev pub IsSpent : String → String → RefreshTokenManager → Type 0
IsSpent jti family m = contains jti (family_tokens family m) ≡ false

contains-add :
    (x j : String) (xs : List String)
    → (x == j) ≡ false
    → contains j xs ≡ false
    → contains j (add x xs) ≡ false
unfolding add contains
contains-add x j xs other h = ground (arith, other)

contains-discard :
    (x j : String) (xs : List String) → contains j xs ≡ false → contains j (discard x xs) ≡ false
unfolding discard contains
contains-discard x j [] h = refl
contains-discard x j (y ∷ ys) h = elim (Bool-cases (y == x)) [
  | inl e ↦ rw e (contains-discard x j ys (ground arith))
  | inr e ↦ rw e (ground (arith, contains-discard x j ys))
]

pub contains-discard_self : (x : String) (xs : List String) → contains x (discard x xs) ≡ false
unfolding discard contains
contains-discard_self x [] = refl
contains-discard_self x (y ∷ ys) = elim (Bool-cases (y == x)) [
  | inl e ↦ rw e (contains-discard_self x ys)
  | inr e ↦ rw (e, e) (contains-discard_self x ys)
]

-- The identifier is not in the entry of a family.
abbrev pub Lacks : String → String → Dict.Dict String (List String) → Type 0
Lacks jti family d = contains jti (get_or [] (Dict.get family d)) ≡ false

pub set-Lacks :
    (jti family k : String) (xs : List String) (d : Dict.Dict String (List String))
    → (k ≡ family → contains jti xs ≡ false)
    → Lacks jti family d
    → Lacks jti family (Dict.set k xs d)
set-Lacks jti family k xs d new h = elim (Bool-cases (k == family)) [
  | inl e ↦ rw (get-set, e) (new ((text_key.same_key_iff k family).0 e))
  | inr e ↦ rw (get-set, e) h
]

remove-Lacks :
    (jti family k : String) (d : Dict.Dict String (List String))
    → Lacks jti family d
    → Lacks jti family (Dict.remove k d)
unfolding contains
remove-Lacks jti family k d h = elim (Bool-cases (k == family)) [
  | inl e ↦ rw (get-remove, e) refl
  | inr e ↦ rw (get-remove, e) h
]

module _ (jwt : Jwt) (jti family : String) where
  create-IsSpent :
      (now : ℕ) (ids : Ids) (user role : String) (scopes : List String) (session given : String)
      (m : RefreshTokenManager)
      → (ids.refresh_jti == jti) ≡ false
      → IsSpent jti family m
      → IsSpent jti family (create_token_pair jwt now ids user role scopes session given m).0
  unfolding create_token_pair
  create-IsSpent now ids user role scopes session given m other h =
      set-Lacks jti family (or_else given ids.family) _ m.active_family_tokens
        (λ e.
          contains-add ids.refresh_jti jti (family_tokens (or_else given ids.family) m) other
            (ap (λ k. contains jti (family_tokens k m)) e ∙ h))
        h

  pub replace-IsSpent :
      (r : Readings) (ids : Ids) (c : Claims) (m : RefreshTokenManager)
      → (ids.refresh_jti == jti) ≡ false
      → Lacks jti family (
          Dict.set c.family_id (discard c.jti (family_tokens c.family_id m)) m.active_family_tokens)
      → IsSpent jti family (replace jwt r ids c m).0
  replace-IsSpent r ids c m other h =
      create-IsSpent r.issue ids c.sub c.role c.scopes c.session_id c.family_id _ other h

  redeem-IsSpent :
      (r : Readings) (ids : Ids) (c : Claims) (m : RefreshTokenManager)
      → (ids.refresh_jti == jti) ≡ false
      → IsSpent jti family m
      → IsSpent jti family (redeem jwt r ids c m).0
  unfolding redeem
  redeem-IsSpent r ids c m other h =
      elim (Bool-cases (
        (is_jti_revoked r.check c.jti m.store).1
        || not (contains c.jti (family_tokens c.family_id m)))) [
          | inl e ↦ rw e (remove-Lacks jti family c.family_id m.active_family_tokens h)
          | inr e ↦ rw e (
              replace-IsSpent r ids c (with_store (is_jti_revoked r.check c.jti m.store).0 m) other
                (set-Lacks jti family c.family_id _ m.active_family_tokens
                  (λ k.
                    contains-discard c.jti jti (family_tokens c.family_id m)
                      (ap (λ f. contains jti (family_tokens f m)) k ∙ h))
                  h))
        ]

  decoded-IsSpent :
      (r : Readings) (ids : Ids) (m : RefreshTokenManager) (o : Option Claims)
      → (ids.refresh_jti == jti) ≡ false
      → IsSpent jti family m
      → IsSpent jti family (rotate_decoded jwt r ids m o).0
  decoded-IsSpent r ids m none other h = h
  decoded-IsSpent r ids m (some c) other h = ground (arith, redeem-IsSpent r ids c m other h)

  step-IsSpent :
      (k : Call) (m : RefreshTokenManager)
      → IsFresh jti k
      → IsSpent jti family m
      → IsSpent jti family (step jwt k m)
  unfolding step rotate_refresh_token contains Dict.get
  step-IsSpent (issue now ids user role scopes session given) m other h =
      create-IsSpent now ids user role scopes session given m other h
  step-IsSpent (rotate r ids token) m other h =
      decoded-IsSpent r ids m (jwt.decode r.decode token) other h
  step-IsSpent clear_tokens m other h = refl
  step-IsSpent (revoke_token now cleaned id exp) m other h = h
  step-IsSpent (check_token now id) m other h = h
  step-IsSpent (end_session id) m other h = h
  step-IsSpent (end_family id) m other h = h
  step-IsSpent clear_revocations m other h = h

  pub run-IsSpent :
      (ks : List Call) (m : RefreshTokenManager)
      → All (IsFresh jti) ks
      → IsSpent jti family m
      → IsSpent jti family (run jwt ks m)
  unfolding run
  run-IsSpent [] m other h = h
  run-IsSpent (k ∷ ks) m other h =
      run-IsSpent ks (step jwt k m) other.1 (step-IsSpent k m other.0 h)
