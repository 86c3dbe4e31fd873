-- ===== src/Security/Tokens/Tests.antt =====
-- Refresh tokens of src/amberclaw/security/tokens.py at work.
use amber_claw.Base.{
  ◌≡◌, refl, false, true, none, some, String, raise, is_ok, List, [], ◌∷◌, ℕ, if◌then◌else◌,
}
use amber_claw.Base.Dict
use amber_claw.Base.Key.{text_key, ◌==◌, contains, truthy}
use amber_claw.Security.Tokens.{
  Claims, Jwt, empty_store, RefreshTokenManager, Ids, Readings, reuse_detected, add, discard,
  cleanup, revoke_jti, is_jti_revoked, revoke_session, is_session_revoked, revoke_family,
  is_family_revoked, refresh_claims, create_token_pair, redeem, rotate_refresh_token,
}
use amber_claw.Security.Tokens.Rotation.{Call, issue, rotate, check_token, end_session, step, run}
use amber_claw.Security.Tokens.Reuse.{IsStable, create_token_pair-once, rotate_refresh_token-reuse}

program : Unit {0}
unfolding Dict.get Dict.set Dict.remove contains truthy add discard cleanup revoke_jti
    is_jti_revoked revoke_session is_session_revoked revoke_family is_family_revoked
    create_token_pair redeem rotate_refresh_token step run
program = tt

abbrev empty : RefreshTokenManager
empty = record {
  access_expire_minutes = 15;
  refresh_expire_days = 7;
  store = empty_store;
  active_family_tokens = [];
}

abbrev ids : String → Ids
ids jti = record { session = "s"; family = "f"; access_jti = "a"; refresh_jti = jti }

abbrev claims : String → Claims
claims jti = refresh_claims empty 100 (ids jti) "ann" "user" [] "s" "f"

-- Tokens that are their identifiers, read without their expiry.
abbrev plain : Jwt
plain = record {
  encode = λ c. c.jti;
  decode = λ now t.
      if t == "r1" then some (claims "r1") else if t == "r2" then some (claims "r2") else none;
}

plain-IsStable : IsStable plain
plain-IsStable t now later c d p q = cc

abbrev readings : ℕ → Readings
readings t = record { decode = t; check = t; revoke = t; clean = t; issue = t }

abbrev started : RefreshTokenManager
started = (create_token_pair plain 100 (ids "r1") "ann" "user" [] "" "" empty).0

abbrev rotated : RefreshTokenManager
rotated = (rotate_refresh_token plain (readings 200) (ids "r2") "r1" started).0

replayed :
    (rotate_refresh_token plain (readings 300) (ids "r3") "r1" rotated).1 ≡ raise reuse_detected
unfolding program
replayed = refl

abbrev calls : List Call
calls =
    issue 210 (ids "r4") "bob" "user" [] "" "g"
    ∷ check_token 220 "r1"
    ∷ rotate (readings 230) (ids "r5") "r2"
    ∷ end_session "t"
    ∷ []

create_token_pair-once_example :
    let first = rotate_refresh_token plain (readings 200) (ids "r2") "r1" started in
    (is_ok first.1 ≡ true)
    × (is_ok (rotate_refresh_token plain (readings 400) (ids "r6") "r1" (run plain calls first.0)).1
        ≡ false)
unfolding create_token_pair
create_token_pair-once_example =
    create_token_pair-once plain 100 (ids "r1") (ids "r2") (ids "r6") (readings 200) (readings 400)
      "ann" "user" [] "" "" calls empty plain-IsStable (unfold program in refl)
      (unfold program in refl) (unfold program in refl) (unfold program in refl)
      (unfold program in refl) (unfold program in refl) (unfold program in refl) refl
      (refl, (tt, (refl, (tt, tt))))

-- The old token comes back: the new one is lost as well.
rotate_refresh_token-reuse_example :
    let m' = (rotate_refresh_token plain (readings 300) (ids "r7") "r1" rotated).0 in
    (is_ok (rotate_refresh_token plain (readings 300) (ids "r7") "r1" rotated).1 ≡ false)
    × (is_ok (rotate_refresh_token plain (readings 310) (ids "r8") "r2" (run plain calls m')).1
        ≡ false)
rotate_refresh_token-reuse_example =
    rotate_refresh_token-reuse plain (readings 300) (readings 310) (ids "r7") (ids "r8") "r1" "r2"
      (claims "r1") (claims "r2") calls rotated refl
      (refl, (unfold program in refl), (unfold program in refl), (unfold program in refl))
      (unfold program in refl) (unfold program in refl) (tt, (tt, (tt, (tt, tt)))) refl refl
