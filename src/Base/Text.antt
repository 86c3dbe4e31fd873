-- ===== src/Base/Text.antt =====
-- Python's text methods over lists of code points: `lower` (of ASCII letters), `in`, `rfind`,
-- slices and `strip`.
use amber_claw.Base.{
  ℕ, zero, suc, ◌+◌, ◌-◌, ◌≤◌, ◌<◌, ◌≡◌, Bool, true, false, ◌&&◌, ◌||◌, Option, none, some, List,
  [], ◌∷◌, leb, length, not, any, refl, ap, ◌∙◌, take, drop, if◌then◌else◌, arith,
}

abbrev pub Text : Type 0
Text = List ℕ

unfoldable pub same_code : ℕ → ℕ → Bool
same_code a b = leb a b && leb b a

unfoldable pub lower : Text → Text
lower [] = []
lower (c ∷ cs) = (if leb b'A' c && leb c b'Z' then c + 32 else c) ∷ lower cs

unfoldable pub text_eq : Text → Text → Bool
text_eq [] [] = true
text_eq [] (d ∷ ds) = false
text_eq (c ∷ cs) [] = false
text_eq (c ∷ cs) (d ∷ ds) = same_code c d && text_eq cs ds

-- `text.startswith(part)`, the part first.
unfoldable pub starts : Text → Text → Bool
starts [] cs = true
starts (p ∷ ps) [] = false
starts (p ∷ ps) (c ∷ cs) = same_code p c && starts ps cs

-- `part in text`
unfoldable pub occurs : Text → Text → Bool
occurs part [] = starts part []
occurs part (c ∷ cs) = starts part (c ∷ cs) || occurs part cs

-- `text[i:j]`
unfoldable pub slice : ℕ → ℕ → Text → Text
slice i j cs = take (j - i) (drop i cs)

-- The code points that `strip` removes.
unfoldable pub is_space : ℕ → Bool
is_space c =
    same_code c 32
    || (leb 9 c && leb c 13)
    || (leb 28 c && leb c 31)
    || same_code c 133
    || same_code c 160
    || same_code c 5760
    || (leb 8192 c && leb c 8202)
    || same_code c 8232
    || same_code c 8233
    || same_code c 8239
    || same_code c 8287
    || same_code c 12288

unfoldable pub lstrip : Text → Text
lstrip [] = []
lstrip (c ∷ cs) = let rest = lstrip cs in if is_space c then rest else c ∷ cs

-- Space at the end is dropped from the right.
unfoldable pub keep_last : ℕ → Text → Text
keep_last c [] = if is_space c then [] else c ∷ []
keep_last c (d ∷ ds) = c ∷ d ∷ ds

unfoldable pub rstrip : Text → Text
unfolding keep_last
rstrip [] = []
rstrip (c ∷ cs) = keep_last c (rstrip cs)

unfoldable pub strip : Text → Text
strip cs = rstrip (lstrip cs)

-- The search of `rfind` from offset `k` above `start` downwards: `k` offsets are left to try.
unfoldable pub rfind_from : Text → ℕ → ℕ → Text → Option ℕ
rfind_from part start zero cs = none
rfind_from part start (suc k) cs =
    let rest = rfind_from part start k cs in
    if starts part (drop (start + k) cs) then some (start + k) else rest

-- `text.rfind(part, start, stop)`, for `stop` within the text; -1 is `none`.
unfoldable pub rfind : Text → ℕ → ℕ → Text → Option ℕ
unfolding rfind_from
rfind part start stop cs = rfind_from part start (stop + 1 - (start + length part)) cs

rfind_from_bounds :
    (part : Text) (start k : ℕ) (cs : Text) (i : ℕ)
    → rfind_from part start k cs ≡ some i
    → (start ≤ i) × (i < start + k)
unfolding rfind_from
rfind_from_bounds part start zero cs i e = ground arith
rfind_from_bounds part start (suc k) cs i e = ground (arith, rfind_from_bounds part start k cs i)

-- A part that is found lies between the two bounds.
pub rfind_bounds :
    (part : Text) (start stop : ℕ) (cs : Text) (i : ℕ)
    → rfind part start stop cs ≡ some i
    → (start ≤ i) × (i + length part ≤ stop)
unfolding rfind
rfind_bounds part start stop cs i e =
    omega (arith, rfind_from_bounds part start (stop + 1 - (start + length part)) cs i e)

abbrev pub is_nil : Text → Bool
is_nil [] = true
is_nil (c ∷ cs) = false

-- Does the offset hold something other than white space?
unfoldable pub has_ink : ℕ → Text → Bool
has_ink i [] = false
has_ink zero (c ∷ cs) = not (is_space c)
has_ink (suc i) (c ∷ cs) = has_ink i cs

abbrev pub inked : Text → Bool
inked = any (λ c. not (is_space c))

pub has_ink_lt : (i : ℕ) (cs : Text) → has_ink i cs ≡ true → i < length cs
unfolding has_ink
has_ink_lt i [] h = ground arith
has_ink_lt zero (c ∷ cs) h = omega arith
has_ink_lt (suc i) (c ∷ cs) h = omega (arith, has_ink_lt i cs h)

has_ink-inked : (i : ℕ) (cs : Text) → has_ink i cs ≡ true → inked cs ≡ true
unfolding has_ink
has_ink-inked i [] h = h
has_ink-inked zero (c ∷ cs) h = ground arith
has_ink-inked (suc i) (c ∷ cs) h = ground (arith, has_ink-inked i cs h)

has_ink-drop : (p i : ℕ) (cs : Text) → has_ink i (drop p cs) ≡ has_ink (p + i) cs
unfolding has_ink
has_ink-drop zero i cs = ap (λ k. has_ink k cs) (omega arith)
has_ink-drop (suc p) i [] = refl
has_ink-drop (suc p) i (c ∷ cs) = has_ink-drop p i cs ∙ ap (λ k. has_ink k (c ∷ cs)) next
  where
    next : suc (p + i) ≡ suc p + i
    next = omega arith

has_ink-take : (n i : ℕ) (cs : Text) → i < n → has_ink i (take n cs) ≡ has_ink i cs
unfolding has_ink
has_ink-take zero i cs h = ground arith
has_ink-take (suc n) i [] h = refl
has_ink-take (suc n) zero (c ∷ cs) h = refl
has_ink-take (suc n) (suc i) (c ∷ cs) h = has_ink-take n i cs (omega arith)

-- A slice that takes in an offset with ink has ink.
slice-inked :
    (p e i : ℕ) (cs : Text) → p ≤ i → i < e → has_ink i cs ≡ true → inked (slice p e cs) ≡ true
unfolding slice
slice-inked p e i cs low high h = has_ink-inked (i - p) (take (e - p) (drop p cs)) (
    has_ink-take (e - p) (i - p) (drop p cs) (omega arith)
    ∙ has_ink-drop p (i - p) cs
    ∙ ap (λ k. has_ink k cs) (omega arith)
    ∙ h)

lstrip-inked : (cs : Text) → inked cs ≡ true → inked (lstrip cs) ≡ true
unfolding lstrip
lstrip-inked [] h = h
lstrip-inked (c ∷ cs) h = ground (arith, lstrip-inked cs)

rstrip-inked : (cs : Text) → inked cs ≡ true → is_nil (rstrip cs) ≡ false
unfolding rstrip keep_last
rstrip-inked [] h = ground arith
rstrip-inked (c ∷ cs) h = ground (arith, rstrip-inked cs)

-- Stripping the slice leaves something.
pub strip-slice :
    (p e i : ℕ) (cs : Text)
    → p ≤ i
    → i < e
    → has_ink i cs ≡ true
    → is_nil (strip (slice p e cs)) ≡ false
unfolding strip
strip-slice p e i cs low high h =
    rstrip-inked (lstrip (slice p e cs))
      (lstrip-inked (slice p e cs) (slice-inked p e i cs low high h))

pub strip-ink : (i : ℕ) (cs : Text) → has_ink i cs ≡ true → is_nil (strip cs) ≡ false
unfolding strip
strip-ink i cs h = rstrip-inked (lstrip cs) (lstrip-inked cs (has_ink-inked i cs h))
