-- ===== src/Base/Perms.antt =====
-- Rearranged lists under a Boolean filter.
use mathlib.Core.List.{Perm, Permᴰ}
use mathlib.Core.List.Permᴰ
use mathlib.Core.Path.{refl, subst, subst₂}
use mathlib.Core.Logic.{∥∥₁_map}
use mathlib.Core.Bool.{Bool, true, false}
use mathlib.Core.List.{List, ◌∷◌}
use amber_claw.Base.Lists.{filter, keep_if}

module _ {ℓ} {A : Type ℓ} where
  keep-Permᴰ :
      (b : Bool) (a : A) {xs ys : List A} → Permᴰ xs ys → Permᴰ (keep_if b a xs) (keep_if b a ys)
  keep-Permᴰ true a s = Permᴰ.cons refl s
  keep-Permᴰ false a s = s

  keep-swap :
      (b c : Bool) (a d : A) (xs : List A)
      → Permᴰ (keep_if b a (keep_if c d xs)) (keep_if c d (keep_if b a xs))
  keep-swap true true a d xs = Permᴰ.swap refl refl
  keep-swap true false a d xs = Permᴰ.refl (a ∷ xs)
  keep-swap false c a d xs = Permᴰ.refl (keep_if c d xs)

  filter-Permᴰ : (p : A → Bool) {xs ys : List A} → Permᴰ xs ys → Permᴰ (filter p xs) (filter p ys)
  filter-Permᴰ p Permᴰ.nil = Permᴰ.nil
  filter-Permᴰ p (Permᴰ.cons {a} {b} {l₁} {l₂} e s) =
      subst (λ x. Permᴰ (keep_if (p a) a (filter p l₁)) (keep_if (p x) x (filter p l₂))) e
        (keep-Permᴰ (p a) a (filter-Permᴰ p s))
  filter-Permᴰ p (Permᴰ.swap {a} {b} {a'} {b'} {l} e f) =
      subst₂
        (λ x y.
          Permᴰ (keep_if (p a) a (keep_if (p b) b (filter p l)))
            (keep_if (p y) y (keep_if (p x) x (filter p l))))
        e f (keep-swap (p a) (p b) a b (filter p l))
  filter-Permᴰ p (Permᴰ.trans s t) = Permᴰ.trans (filter-Permᴰ p s) (filter-Permᴰ p t)

  pub filter-perm : (p : A → Bool) {xs ys : List A} → Perm xs ys → Perm (filter p xs) (filter p ys)
  filter-perm p {xs} {ys} s = ∥∥₁_map {B = Permᴰ (filter p xs) (filter p ys)} s (filter-Permᴰ p)
