-- ===== src/Security/ApiKeys/Tests.antt =====
-- API keys of src/amberclaw/security/tokens.py at work.
use amber_claw.Base.{
  ◌≡◌, refl, false, true, Option, none, some, String, Result, raise, is_ok, List, [], ◌∷◌, ◌++◌, ℕ,
}
use amber_claw.Base.Dict
use amber_claw.Base.Key.{text_key, contains, truthy}
use amber_claw.Base.Text.{Text, text_eq, same_code, starts}
use amber_claw.Security.ApiKeys.{
  ApiKeyRecord, Error, Draw, new_record, create_api_key, first_match, verify_api_key,
  rotate_api_key, revoke_api_key, raw_key, invalid_key, has_expired, lacks_scope, expired,
}
use amber_claw.Security.ApiKeys.Records.{Call, create, rotate, step, run, no_keys}
use amber_claw.Security.ApiKeys.Access.{verify_api_key_sound}
use amber_claw.Security.ApiKeys.Retired.{gives, revoke_api_key-final}

program : Unit {0}
unfolding Dict.get Dict.set contains truthy text_eq same_code starts create_api_key first_match
    verify_api_key rotate_api_key revoke_api_key step run
program = tt

-- A digest that keeps its text.
abbrev plain : Text → Text → Text
plain raw salt = salt ++ 58 ∷ raw

abbrev draw : String → ℕ → Draw
draw id c = record { key_id = id; entropy = c ∷ c ∷ c ∷ c ∷ c ∷ []; salt = 1 ∷ c ∷ [] }

abbrev made : List Call
made =
    create 100 (draw "k1" 7) "ann" ("read" ∷ []) (b'm' ∷ []) (some 30)
    ∷ create 100 (draw "k2" 8) "bob" [] [] none
    ∷ rotate 200 (draw "k3" 9) "k2" (some 1)
    ∷ []

abbrev key_of : Draw → Option String → ℕ → Result Error ApiKeyRecord
key_of d scope now = verify_api_key plain now (raw_key d) scope (run plain made no_keys)

rotated_away : key_of (draw "k2" 8) none 300 ≡ raise invalid_key
unfolding program
rotated_away = refl

out_of_date : key_of (draw "k3" 9) none 100000 ≡ raise expired
unfolding program
out_of_date = refl

-- A key that is asked for with no scopes at all has all of them.
any_scope : is_ok (key_of (draw "k3" 9) (some "admin") 300) ≡ true
unfolding program
any_scope = refl

abbrev first : ApiKeyRecord
first = new_record plain 100 (draw "k1" 7) "ann" ("read" ∷ []) (b'm' ∷ []) (some 30)

verify_api_key_sound_example :
    (Dict.get "k1" (run plain made no_keys).records ≡ some first)
    × (first.is_active ≡ true)
    × (text_eq (plain (raw_key (draw "k1" 7)) first.salt) first.hashed_key ≡ true)
    × (has_expired 300 first.expires_at ≡ false)
    × (lacks_scope (some "read") first.scopes ≡ false)
verify_api_key_sound_example =
    verify_api_key_sound plain made 300 (raw_key (draw "k1" 7)) (some "read") first
      (unfold program in refl)

revoke_api_key-final_example :
    let m = run plain made no_keys in
    (gives "k1" (
        verify_api_key plain 400 (raw_key (draw "k1" 7)) none (
          run plain
            (create 350 (draw "k5" 7) "eve" [] [] none ∷ [])
            (revoke_api_key plain "k1" m).0))
      ≡ false)
    × (gives "k1" (
          verify_api_key plain 400 (raw_key (draw "k1" 7)) none (
            run plain
              (create 350 (draw "k5" 7) "eve" [] [] none ∷ [])
              (rotate_api_key plain 310 (draw "k4" 6) "k1" none m).0))
        ≡ false)
revoke_api_key-final_example =
    revoke_api_key-final plain made (create 350 (draw "k5" 7) "eve" [] [] none ∷ []) "k1" 310 400
      (draw "k4" 6) none (raw_key (draw "k1" 7)) none refl (refl, tt)
