-- ===== src/Security/BreakGlass/Tests.antt =====
-- Emergency elevations of src/amberclaw/security/tokens.py at work.
use amber_claw.Base.{
  ◌≡◌, refl, ◌+◌, ◌*◌, ◌<◌, ◌⊎◌, false, true, is_ok, leb, min, max, [], ◌∷◌, length,
}
use amber_claw.Base.Dict
use amber_claw.Base.Key.{text_key}
use amber_claw.Base.Text.{Text, strip, lstrip, rstrip, is_space, same_code}
use amber_claw.Security.BreakGlass.{
  BreakGlassManager, request_break_glass, verify_elevation, revoke_break_glass,
}
use amber_claw.Security.BreakGlass.Ends.{request, verify, step, run, request_break_glass-ends}

program : Unit {0}
unfolding Dict.get Dict.set strip lstrip rstrip is_space same_code request_break_glass
    verify_elevation revoke_break_glass step run
program = tt

abbrev empty : BreakGlassManager
empty = record { elevations = [] }

-- `outage: db1`, between spaces.
abbrev why : Text
why = 32 ∷ b'o' ∷ b'u' ∷ b't' ∷ b'a' ∷ b'g' ∷ b'e' ∷ 58 ∷ 32 ∷ b'd' ∷ b'b' ∷ 49 ∷ 32 ∷ []

abbrev granted : BreakGlassManager
granted = (request_break_glass 1000 "bg1" "ann" why 3 "bob" empty).0

-- Three minutes count as five.
at_the_end : (verify_elevation 1300 "bg1" granted).1 ≡ true
unfolding program
at_the_end = refl

after_the_end : (verify_elevation 1301 "bg1" granted).1 ≡ false
unfolding program
after_the_end = refl

too_short :
    is_ok (request_break_glass 1000 "bg1" "ann" (32 ∷ b'n' ∷ b'o' ∷ []) 3 "bob" empty).1 ≡ false
unfolding program
too_short = refl

request_break_glass-ends_example :
    (is_ok (request_break_glass 1000 "bg1" "ann" why 3 "bob" empty).1 ≡ leb 10 (length (strip why)))
    × ((length (strip why) < 10)
        ⊎ (((verify_elevation 1200 "bg1" granted).1 ≡ leb 1200 (1000 + min (max 3 5) 120 * 60))
            × ((verify_elevation (1000 + 7201 + 0) "bg1" (run (verify 1250 "bg1" ∷ []) granted)).1
                ≡ false)
            × ((verify_elevation 1200 "bg1" (
                  run
                    (request 1100 "bg2" "eve" why 30 "bob" ∷ [])
                    (revoke_break_glass "bg1" (run (verify 1250 "bg1" ∷ []) granted)).0)).1
                ≡ false)))
request_break_glass-ends_example =
    request_break_glass-ends 1000 1200 0 "bg1" "ann" why 3 "bob" (verify 1250 "bg1" ∷ [])
      (request 1100 "bg2" "eve" why 30 "bob" ∷ []) empty (tt, tt) (refl, tt)
