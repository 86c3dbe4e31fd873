-- ===== src/Security/ApiKeys.antt =====
-- `APIKeyManager` of src/amberclaw/security/tokens.py. A key is its list of code points, a digest a text; the
-- salted hash is a parameter, new random texts are arguments, clocks are numbers of seconds.
use amber_claw.Base.{
  ℕ, ◌+◌, ◌*◌, Bool, true, false, not, ◌&&◌, ◌||◌, Option, none, some, String, Result, ok, raise,
  leb, ltb, if◌then◌else◌, List, [], ◌∷◌, ◌++◌, filter, take,
}
use amber_claw.Base.Dict
use amber_claw.Base.Dict.{Dict, values}
use amber_claw.Base.Key.{text_key, ◌==◌, contains, truthy}
use amber_claw.Base.Text.{Text, text_eq, starts}
pub mod Records
pub mod Access
pub mod Retired
mod Tests

pub record ApiKeyRecord : Type 0 where
  pub key_id : String
  pub key_prefix : Text
  pub hashed_key : Text
  pub salt : Text
  pub owner_id : String
  pub scopes : List String
  pub name : Text
  pub created_at : ℕ
  pub expires_at : Option ℕ
  pub is_active : Bool

pub record ApiKeyManager : Type 0 where
  pub records : Dict String ApiKeyRecord

pub data Error : Type 0 where
  bad_format invalid_key expired missing_scope not_found : Error

-- `ak_live_`
abbrev pub live : Text
live = b'a' ∷ b'k' ∷ b'_' ∷ b'l' ∷ b'i' ∷ b'v' ∷ b'e' ∷ b'_' ∷ []

-- ` (Rotated)`
abbrev pub rotated : Text
rotated = 32 ∷ 40 ∷ b'R' ∷ b'o' ∷ b't' ∷ b'a' ∷ b't' ∷ b'e' ∷ b'd' ∷ 41 ∷ []

-- No days, and 0 days, are no expiry.
abbrev pub expiry : ℕ → Option ℕ → Option ℕ
expiry now none = none
expiry now (some days) = if leb days 0 then none else some (now + days * 86400)

-- `scopes or ["*"]`
abbrev pub default_scopes : List String → List String
default_scopes [] = "*" ∷ []
default_scopes (x ∷ xs) = x ∷ xs

-- The new UUID and the two random texts.
pub record Draw : Type 0 where
  pub key_id : String
  pub entropy : Text
  pub salt : Text

abbrev pub raw_key : Draw → Text
raw_key d = live ++ d.entropy

abbrev pub has_expired : ℕ → Option ℕ → Bool
has_expired now none = false
has_expired now (some t) = ltb t now

-- An empty scope is no requirement.
abbrev pub lacks_scope : Option String → List String → Bool
lacks_scope none scopes = false
lacks_scope (some s) scopes = truthy s && not (contains "*" scopes) && not (contains s scopes)

module _ (hash : Text → Text → Text) where
  abbrev pub new_record : ℕ → Draw → String → List String → Text → Option ℕ → ApiKeyRecord
  new_record now d owner scopes name days = record {
    key_id = d.key_id;
    key_prefix = take 12 (raw_key d);
    hashed_key = hash (raw_key d) d.salt;
    salt = d.salt;
    owner_id = owner;
    scopes = default_scopes scopes;
    name = name;
    created_at = now;
    expires_at = expiry now days;
    is_active = true;
  }

  unfoldable pub create_api_key :
      ℕ
      → Draw
      → String
      → List String
      → Text
      → Option ℕ
      → ApiKeyManager
      → ApiKeyManager × (ApiKeyRecord × Text)
  create_api_key now d owner scopes name days m =
      let r = new_record now d owner scopes name days in
      (record { records = Dict.set d.key_id r m.records }, (r, raw_key d))

  abbrev pub judge : ℕ → Option String → ApiKeyRecord → Result Error ApiKeyRecord
  judge now scope r =
      if has_expired now r.expires_at
      then raise expired
      else if lacks_scope scope r.scopes
      then raise missing_scope
      else ok r

  -- The loop over the records with the prefix.
  unfoldable pub first_match :
      ℕ → Text → Option String → List ApiKeyRecord → Result Error ApiKeyRecord
  first_match now raw scope [] = raise invalid_key
  first_match now raw scope (r ∷ rs) =
      let rest = first_match now raw scope rs in
      if text_eq (hash raw r.salt) r.hashed_key then judge now scope r else rest

  unfoldable pub verify_api_key :
      ℕ → Text → Option String → ApiKeyManager → Result Error ApiKeyRecord
  verify_api_key now raw scope m =
      if not (starts live raw)
      then raise bad_format
      else first_match now raw scope
          (filter (λ r. text_eq r.key_prefix (take 12 raw) && r.is_active) (values m.records))

  abbrev pub deactivated : ApiKeyRecord → ApiKeyRecord
  deactivated r = record r { is_active = false }

  abbrev rotate_record :
      ℕ
      → Draw
      → String
      → Option ℕ
      → ApiKeyManager
      → Option ApiKeyRecord
      → ApiKeyManager × Result Error (ApiKeyRecord × Text)
  rotate_record now d id days m none = (m, raise not_found)
  rotate_record now d id days m (some r) =
      if not r.is_active
      then (m, raise not_found)
      else let (m', new) =
          create_api_key now d r.owner_id r.scopes (r.name ++ rotated) days
            (record { records = Dict.set id (deactivated r) m.records }) in
        (m', ok new)

  unfoldable pub rotate_api_key :
      ℕ
      → Draw
      → String
      → Option ℕ
      → ApiKeyManager
      → ApiKeyManager × Result Error (ApiKeyRecord × Text)
  rotate_api_key now d id days m = rotate_record now d id days m (Dict.get id m.records)

  abbrev revoke_record : String → ApiKeyManager → Option ApiKeyRecord → ApiKeyManager × Bool
  revoke_record id m none = (m, false)
  revoke_record id m (some r) = (record { records = Dict.set id (deactivated r) m.records }, true)

  unfoldable pub revoke_api_key : String → ApiKeyManager → ApiKeyManager × Bool
  revoke_api_key id m = revoke_record id m (Dict.get id m.records)
