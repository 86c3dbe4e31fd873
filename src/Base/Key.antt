-- ===== src/Base/Key.antt =====
-- Keys of dictionaries and members of lists: a test of sameness with its law, for texts and pairs of
-- texts, membership, and Python's truth of a text.
use text.Mathlib.Text.{◌==◌ as same_text}
use text.Mathlib.TextEquality.{eq_iff}
use amber_claw.Base.{
  ◌≡◌, refl, ◌↔◌, Bool, true, false, not, ◌&&◌, ◌||◌, String, List, [], ◌∷◌, arith,
}

pub record Key {ℓ} (K : Type ℓ) : Type ℓ where
  pub same_key : K → K → Bool
  pub same_key_iff : (j k : K) → (same_key j k ≡ true) ↔ (j ≡ k)

abbrev pub pair_same : String × String → String × String → Bool
pair_same p q = same_text p.0 q.0 && same_text p.1 q.1

pub pair_same_iff : (p q : String × String) → (pair_same p q ≡ true) ↔ (p ≡ q)
pair_same_iff (a, b) (c, d) = ground (arith, eq_iff a c, eq_iff b d)

instance abbrev pub text_key : Key String
text_key = record { same_key = same_text; same_key_iff = eq_iff }

instance abbrev pub pair_key : Key (String × String)
pair_key = record { same_key = pair_same; same_key_iff = pair_same_iff }

module _ {ℓ} {K : Type ℓ} ⦃key : Key K⦄ where
  infix 50 ◌==◌
  abbrev pub ◌==◌ : K → K → Bool
  j == k = key.same_key j k

  pub ==_refl : (k : K) → (k == k) ≡ true
  ==_refl k = (key.same_key_iff k k).1 refl

  -- `k in ks`
  unfoldable pub contains : K → List K → Bool
  contains k [] = false
  contains k (j ∷ ks) = j == k || contains k ks

-- A non-empty text is true.
unfoldable pub truthy : String → Bool
truthy s = not (s == "")
