-- ===== src/Cache/Resilience/Index.antt =====
-- The tag index of cache/resilience.py: who stays listed under a tag when entries come and go.
use amber_claw.Base.{
  ◌≡◌, ◌≢◌, refl, Bool, true, false, not, ◌&&◌, ◌||◌, String, List, [], ◌∷◌, ◌++◌, arith,
  if◌then◌else◌, Bool-cases, inl, inr, ap, ◌∙◌,
}
use amber_claw.Base.Dict
use amber_claw.Base.Dict.{Dict, get-set, get-remove, get_or}
use amber_claw.Base.Key.{text_key, ◌==◌, contains}
use amber_claw.Cache.Resilience.{discard, add, is_empty, keys_of, untag, add_tags}

abbrev pub listed : String → String → Dict String (List String) → Bool
listed k tag index = contains k (keys_of tag index)

contains-discard :
    (j k : String) (ks : List String) → j ≢ k → contains k (discard j ks) ≡ contains k ks
unfolding contains
contains-discard j k [] other = refl
contains-discard j k (i ∷ ks) other =
    ground
      (arith, contains-discard j k ks other, text_key.same_key_iff i j, text_key.same_key_iff i k)

contains-append :
    (k : String) (xs ys : List String) → contains k (xs ++ ys) ≡ contains k xs || contains k ys
unfolding contains
contains-append k [] ys = refl
contains-append k (x ∷ xs) ys = ground (arith, contains-append k xs ys)

contains-add : (j k : String) (ks : List String) → contains k (add j ks) ≡ contains k ks || j == k
unfolding contains
contains-add j k ks = ground (arith, contains-append k ks (j ∷ []), text_key.same_key_iff j k)

-- An empty set lists nobody.
contains-is_empty : (k : String) (ks : List String) → is_empty ks ≡ true → contains k ks ≡ false
unfolding contains
contains-is_empty k [] e = refl
contains-is_empty k (j ∷ ks) e = ground arith

pub contains_none : (k : String) → contains k [] ≡ false
unfolding contains
contains_none k = refl

abbrev drop_one : Bool → String → String → Dict String (List String) → Dict String (List String)
drop_one prunes k t index =
    let ks = discard k (keys_of t index) in
    if not (Dict.has t index)
    then index
    else if prunes && is_empty ks
    then Dict.remove t index
    else Dict.set t ks index

listed-drop_one :
    (prunes : Bool) (k j t tag : String) (index : Dict String (List String))
    → k ≢ j
    → listed j tag (drop_one prunes k t index) ≡ listed j tag index
listed-drop_one prunes k j t tag index other = elim (Bool-cases (t == tag)) [
  | inl same ↦ ground (
    arith,
    same,
    contains_none j,
    get-set t tag (discard k (keys_of t index)) index,
    get-remove t tag index,
    ap (λ x. keys_of x index) ((text_key.same_key_iff t tag).0 same),
    contains-discard k j (keys_of t index) other,
    contains-is_empty j (discard k (keys_of t index)),
  )
  | inr differs ↦
      ground
        (arith, differs, get-set t tag (discard k (keys_of t index)) index, get-remove t tag index)
]

-- Taking one key off its tags leaves the others listed.
pub listed-untag :
    (prunes : Bool) (k j tag : String) (ts : List String) (index : Dict String (List String))
    → k ≢ j
    → listed j tag (untag prunes k ts index) ≡ listed j tag index
unfolding untag
listed-untag prunes k j tag [] index other = refl
listed-untag prunes k j tag (t ∷ ts) index other =
    listed-untag prunes k j tag ts (drop_one prunes k t index) other
    ∙ listed-drop_one prunes k j t tag index other

listed-set :
    (k j t tag : String) (index : Dict String (List String))
    → listed j tag (Dict.set t (add k (keys_of t index)) index)
      ≡ listed j tag index || (t == tag && k == j)
listed-set k j t tag index = elim (Bool-cases (t == tag)) [
  | inl same ↦ ground (
    arith,
    same,
    get-set t tag (add k (keys_of t index)) index,
    ap (λ x. keys_of x index) ((text_key.same_key_iff t tag).0 same),
    contains-add k j (keys_of t index),
  )
  | inr differs ↦ ground (arith, differs, get-set t tag (add k (keys_of t index)) index)
]

-- Listing a key under tags adds it there and nothing else.
pub listed-add_tags :
    (k j tag : String) (ts : List String) (index : Dict String (List String))
    → listed j tag (add_tags k ts index) ≡ listed j tag index || (contains tag ts && k == j)
unfolding add_tags contains
listed-add_tags k j tag [] index = ground arith
listed-add_tags k j tag (t ∷ ts) index = ground (
  arith,
  listed-add_tags k j tag ts (Dict.set t (add k (keys_of t index)) index),
  listed-set k j t tag index,
)
