-- ===== src/Security/Tokens.antt =====
-- `TokenRevocationStore` and `RefreshTokenManager` of src/amberclaw/security/tokens.py. Clocks are
-- numbers of seconds. The `jose` library that signs and reads tokens is a parameter, new UUIDs are
-- arguments. A claim that is missing reads as the empty text, which the code's tests treat alike. Log
-- and audit records are output.
use amber_claw.Base.{
  ℕ, ◌+◌, ◌*◌, Bool, true, false, not, ◌&&◌, ◌||◌, Option, none, some, String, Result, ok, raise,
  ltb, if◌then◌else◌, List, [], ◌∷◌, filter,
}
use amber_claw.Base.Dict
use amber_claw.Base.Dict.{Dict, get_or}
use amber_claw.Base.Key.{text_key, ◌==◌, contains, truthy}
pub mod Rotation
pub mod Reuse
mod Tests

pub record Claims : Type 0 where
  pub sub : String
  pub role : String
  pub scopes : List String
  pub session_id : String
  pub family_id : String
  pub kind : String
  pub jti : String
  pub exp : ℕ

-- `jwt.encode` and `jwt.decode` with the manager's key: `none` is a `JWTError`, at that time.
pub record Jwt : Type 0 where
  pub encode : Claims → String
  pub decode : ℕ → String → Option Claims

pub record TokenPair : Type 0 where
  pub access_token : String
  pub refresh_token : String
  pub expires_in : ℕ
  pub refresh_expires_in : ℕ

pub record TokenRevocationStore : Type 0 where
  pub revoked_jtis : Dict String ℕ
  pub revoked_sessions : List String
  pub revoked_families : List String

abbrev pub empty_store : TokenRevocationStore
empty_store = record { revoked_jtis = []; revoked_sessions = []; revoked_families = [] }

-- `set.add` and `set.discard`
unfoldable pub add : String → List String → List String
add x xs = if contains x xs then xs else x ∷ xs

unfoldable pub discard : String → List String → List String
discard x xs = filter (λ y. not (y == x)) xs

-- `_cleanup`
unfoldable pub cleanup : ℕ → TokenRevocationStore → TokenRevocationStore
cleanup now s = record s { revoked_jtis = filter (λ e. not (ltb e.1 now)) s.revoked_jtis }

-- The clock is read where no expiry is given, and by `_cleanup`.
unfoldable pub revoke_jti : ℕ → ℕ → String → Option ℕ → TokenRevocationStore → TokenRevocationStore
unfolding cleanup
revoke_jti now cleaned jti expires_at s =
    let exp = get_or (now + 7 * 86400) expires_at in
    cleanup cleaned (record s { revoked_jtis = Dict.set jti exp s.revoked_jtis })

abbrev jti_entry : ℕ → String → TokenRevocationStore → Option ℕ → TokenRevocationStore × Bool
jti_entry now jti s none = (s, false)
jti_entry now jti s (some exp) =
    if ltb exp now
    then (record s { revoked_jtis = Dict.remove jti s.revoked_jtis }, false)
    else (s, true)

unfoldable pub is_jti_revoked : ℕ → String → TokenRevocationStore → TokenRevocationStore × Bool
is_jti_revoked now jti s = jti_entry now jti s (Dict.get jti s.revoked_jtis)

unfoldable pub revoke_session : String → TokenRevocationStore → TokenRevocationStore
revoke_session id s = record s { revoked_sessions = add id s.revoked_sessions }

unfoldable pub is_session_revoked : String → TokenRevocationStore → Bool
is_session_revoked id s = contains id s.revoked_sessions

unfoldable pub revoke_family : String → TokenRevocationStore → TokenRevocationStore
revoke_family id s = record s { revoked_families = add id s.revoked_families }

unfoldable pub is_family_revoked : String → TokenRevocationStore → Bool
is_family_revoked id s = contains id s.revoked_families

pub record RefreshTokenManager : Type 0 where
  pub access_expire_minutes : ℕ
  pub refresh_expire_days : ℕ
  pub store : TokenRevocationStore
  pub active_family_tokens : Dict String (List String)

abbrev pub family_tokens : String → RefreshTokenManager → List String
family_tokens family m = get_or [] (Dict.get family m.active_family_tokens)

-- The four UUIDs that a pair may need.
pub record Ids : Type 0 where
  pub session : String
  pub family : String
  pub access_jti : String
  pub refresh_jti : String

-- `a or b`
abbrev pub or_else : String → String → String
or_else a b = if truthy a then a else b

abbrev access_claims :
    RefreshTokenManager → ℕ → Ids → String → String → List String → String → Claims
access_claims m now ids user_id role scopes session = record {
  sub = user_id;
  role = role;
  scopes = scopes;
  session_id = session;
  family_id = "";
  kind = "access";
  jti = ids.access_jti;
  exp = now + m.access_expire_minutes * 60;
}

abbrev pub refresh_claims :
    RefreshTokenManager → ℕ → Ids → String → String → List String → String → String → Claims
refresh_claims m now ids user_id role scopes session family = record {
  sub = user_id;
  role = role;
  scopes = scopes;
  session_id = session;
  family_id = family;
  kind = "refresh";
  jti = ids.refresh_jti;
  exp = now + m.refresh_expire_days * 86400;
}

-- An empty session or family ID stands for none.
unfoldable pub create_token_pair :
    Jwt
    → ℕ
    → Ids
    → String
    → String
    → List String
    → String
    → String
    → RefreshTokenManager
    → RefreshTokenManager × TokenPair
create_token_pair jwt now ids user_id role scopes session_id family_id m =
    let session = or_else session_id ids.session in
    let family = or_else family_id ids.family in
    (
      record m {
        active_family_tokens =
            Dict.set family (add ids.refresh_jti (family_tokens family m)) m.active_family_tokens;
      },
      record {
        access_token = jwt.encode (access_claims m now ids user_id role scopes session);
        refresh_token = jwt.encode (refresh_claims m now ids user_id role scopes session family);
        expires_in = m.access_expire_minutes * 60;
        refresh_expires_in = m.refresh_expire_days * 86400;
      },
    )

-- `PermissionError`, the last two of them `SecurityCompromiseError`.
pub data Error : Type 0 where
  invalid_token not_refresh malformed session_revoked family_revoked reuse_detected : Error

-- The clock readings of a rotation, in their order.
pub record Readings : Type 0 where
  pub decode : ℕ
  pub check : ℕ
  pub revoke : ℕ
  pub clean : ℕ
  pub issue : ℕ

-- The end of the rotation: the old token goes, a new pair comes.
abbrev pub replace :
    Jwt
    → Readings
    → Ids
    → Claims
    → RefreshTokenManager
    → RefreshTokenManager × Result Error TokenPair
replace jwt r ids c m =
    let m' = record m {
      store = revoke_jti r.revoke r.clean c.jti none m.store;
      active_family_tokens =
          Dict.set c.family_id (discard c.jti (family_tokens c.family_id m)) m.active_family_tokens;
    } in
    let (m'', pair) =
      create_token_pair jwt r.issue ids c.sub c.role c.scopes c.session_id c.family_id m' in
    (m'', ok pair)

-- A token that comes back takes its whole family with it.
abbrev pub compromise : Claims → RefreshTokenManager → RefreshTokenManager × Result Error TokenPair
compromise c m = (
  record m {
    store = revoke_family c.family_id m.store;
    active_family_tokens = Dict.remove c.family_id m.active_family_tokens;
  },
  raise reuse_detected,
)

-- From the check for reuse on.
unfoldable pub redeem :
    Jwt
    → Readings
    → Ids
    → Claims
    → RefreshTokenManager
    → RefreshTokenManager × Result Error TokenPair
redeem jwt r ids c m =
    let (store, revoked) = is_jti_revoked r.check c.jti m.store in
    let m' = record m { store = store } in
    if revoked || not (contains c.jti (family_tokens c.family_id m'))
    then compromise c m'
    else replace jwt r ids c m'

abbrev rotate_decoded :
    Jwt
    → Readings
    → Ids
    → RefreshTokenManager
    → Option Claims
    → RefreshTokenManager × Result Error TokenPair
rotate_decoded jwt r ids m none = (m, raise invalid_token)
rotate_decoded jwt r ids m (some c) =
    if not (c.kind == "refresh")
    then (m, raise not_refresh)
    else if not (truthy c.jti) || not (truthy c.family_id) || not (truthy c.sub)
    then (m, raise malformed)
    else if is_family_revoked c.family_id m.store
    then (m, raise family_revoked)
    else if truthy c.session_id && is_session_revoked c.session_id m.store
    then (m, raise session_revoked)
    else redeem jwt r ids c m

unfoldable pub rotate_refresh_token :
    Jwt
    → Readings
    → Ids
    → String
    → RefreshTokenManager
    → RefreshTokenManager × Result Error TokenPair
rotate_refresh_token jwt r ids token m = rotate_decoded jwt r ids m (jwt.decode r.decode token)
