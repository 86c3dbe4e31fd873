-- ===== src/Base/Dict.antt =====
-- Python's `dict` as an association list in insertion order: a write to a present key keeps its
-- place, a new key goes to the end.
use amber_claw.Base.{
  ◌+◌, ◌≤◌, ◌≡◌, ◌≢◌, refl, Bool, true, false, Option, none, some, List, [], ◌∷◌, ◌++◌, arith,
  length, sym, ap, ◌∙◌, subst, if◌then◌else◌, map, All, Bool-cases, inl, inr, ◌⊎◌,
}
use amber_claw.Base.Key.{Key, ◌==◌, ==_refl}

abbrev pub Dict {ℓ κ} : Type ℓ → Type κ → Type (ℓ ⊔ κ)
Dict K V = List (K × V)

abbrev pub is_some {ℓ} : {A : Type ℓ} → Option A → Bool
is_some none = false
is_some (some _) = true

abbrev pub get_or {ℓ} : {A : Type ℓ} → A → Option A → A
get_or d none = d
get_or d (some a) = a

module _ {ℓ κ} {K : Type ℓ} {V : Type κ} where
  abbrev pub values : Dict K V → List V
  values = map (λ e. e.1)

  abbrev pub keys : Dict K V → List K
  keys = map (λ e. e.0)

module _ {ℓ κ} {K : Type ℓ} {V : Type κ} ⦃key : Key K⦄ where
  -- `d.get(k)`
  unfoldable pub get : K → Dict K V → Option V
  get k [] = none
  get k (entry ∷ d) = if entry.0 == k then some entry.1 else get k d

  -- `d[k] = v`
  unfoldable pub set : K → V → Dict K V → Dict K V
  set k v [] = (k, v) ∷ []
  set k v (entry ∷ d) = if entry.0 == k then (entry.0, v) ∷ d else entry ∷ set k v d

  -- `d.pop(k, None)`, on keys that are distinct
  unfoldable pub remove : K → Dict K V → Dict K V
  remove k [] = []
  remove k (entry ∷ d) = if entry.0 == k then remove k d else entry ∷ remove k d

  -- `k in d`
  abbrev pub has : K → Dict K V → Bool
  has k d = is_some (get k d)

  pub get-set :
      (k j : K) (v : V) (d : Dict K V) → get j (set k v d) ≡ (if k == j then some v else get j d)
  unfolding get set
  get-set k j v [] = refl
  get-set k j v (entry ∷ d) = ground (
    arith,
    get-set k j v d,
    key.same_key_iff entry.0 k,
    key.same_key_iff entry.0 j,
    key.same_key_iff k j,
  )

  pub get-set_self : (k : K) (v : V) (d : Dict K V) → get k (set k v d) ≡ some v
  get-set_self k v d = simp (get-set, ==_refl)

  pub get-set_ne : (k j : K) (v : V) (d : Dict K V) → k ≢ j → get j (set k v d) ≡ get j d
  get-set_ne k j v d other = ground (arith, get-set k j v d, key.same_key_iff k j)

  pub get-remove :
      (k j : K) (d : Dict K V) → get j (remove k d) ≡ (if k == j then none else get j d)
  unfolding get remove
  get-remove k j [] = ground arith
  get-remove k j (entry ∷ d) = ground (
    arith,
    get-remove k j d,
    key.same_key_iff entry.0 k,
    key.same_key_iff entry.0 j,
    key.same_key_iff k j,
  )

  pub length-set-le : (k : K) (v : V) (d : Dict K V) → length (set k v d) ≤ length d + 1
  unfolding set
  length-set-le k v [] = omega arith
  length-set-le k v (entry ∷ d) = ground (arith, length-set-le k v d)

  pub length-remove-le : (k : K) (d : Dict K V) → length (remove k d) ≤ length d
  unfolding remove
  length-remove-le k [] = omega arith
  length-remove-le k (entry ∷ d) = ground (arith, length-remove-le k d)

-- No key stands twice.
module _ {ℓ κ} {K : Type ℓ} {V : Type κ} ⦃key : Key K⦄ where
  abbrev pub IsDict : Dict K V → Type (ℓ ⊔ κ)
  IsDict [] = Unit
  IsDict (entry ∷ d) = (get entry.0 d ≡ none) × IsDict d

  pub set-IsDict : (k : K) (v : V) (d : Dict K V) → IsDict d → IsDict (set k v d)
  unfolding set get
  set-IsDict k v [] h = (refl, tt)
  set-IsDict k v (entry ∷ d) h = elim (Bool-cases (entry.0 == k)) [
    | inl e ↦ rw e h
    | inr e ↦ rw e (
      ground (
        arith,
        get-set k entry.0 v d,
        h.0,
        e,
        key.same_key_iff k entry.0,
        key.same_key_iff entry.0 k,
      ),
      set-IsDict k v d h.1,
    )
  ]

-- What holds of every entry.
module _ {ℓ κ μ} {K : Type ℓ} {V : Type κ} ⦃key : Key K⦄ (P : K × V → Type μ) where
  pub All-absent :
      (k : K) (d : Dict K V) → get k d ≡ none → All (λ e. ((e.0 == k) ≡ true) ⊎ P e) d → All P d
  unfolding get
  All-absent k [] h g = tt
  All-absent k (e ∷ d) h (inl same, g) = ground (arith, h, same)
  All-absent k (e ∷ d) h (inr p, g) = elim (Bool-cases (e.0 == k)) [
    | inl same ↦ ground (arith, h, same)
    | inr other ↦ (p, All-absent k d (rw other at h) g)
  ]

  -- A write needs what the other entries have, and the new entry.
  pub All-set :
      (k : K) (v : V) (d : Dict K V)
      → IsDict d
      → P (k, v)
      → All (λ e. ((e.0 == k) ≡ true) ⊎ P e) d
      → All P (set k v d)
  unfolding set
  All-set k v [] u p h = (p, tt)
  All-set k v (e ∷ d) u p h = elim (Bool-cases (e.0 == k)) [
    | inl same ↦
        let here : e.0 ≡ k = (key.same_key_iff e.0 k).0 same in
        rw same (
          subst (λ x. P (x, v)) (sym here) p,
          All-absent k d (ap (λ x. get x d) (sym here) ∙ u.0) h.1,
        )
    | inr other ↦ rw other (All-kept e other h.0, All-set k v d u.1 p h.1)
  ]
    where
      All-kept : (x : K × V) → (x.0 == k) ≡ false → ((x.0 == k) ≡ true) ⊎ P x → P x
      All-kept x other (inl same) = ground (arith, other, same)
      All-kept x other (inr q) = q

  pub All-get : (k : K) (v : V) (d : Dict K V) → All P d → get k d ≡ some v → P (k, v)
  unfolding get
  All-get k v [] h found = ground (arith, found)
  All-get k v (e ∷ d) h found = elim (Bool-cases (e.0 == k)) [
    | inl same ↦ subst P (here same) h.0
    | inr other ↦ All-get k v d h.1 (rw other at found)
  ]
    where
      here : (e.0 == k) ≡ true → e ≡ (k, v)
      here same = ground (arith, found, same, key.same_key_iff e.0 k)

  pub All-any : (k : K) (d : Dict K V) → All P d → All (λ e. ((e.0 == k) ≡ true) ⊎ P e) d
  All-any k [] h = tt
  All-any k (e ∷ d) h = (inr h.0, All-any k d h.1)

module _ {ℓ μ ν} {A : Type ℓ} where
  pub All-map :
      (P : A → Type μ) (Q : A → Type ν) (xs : List A) → ((a : A) → P a → Q a) → All P xs → All Q xs
  All-map P Q [] f h = tt
  All-map P Q (x ∷ xs) f h = (f x h.0, All-map P Q xs f h.1)

module _ {ℓ κ} {K : Type ℓ} {V : Type κ} ⦃key : Key K⦄ where
  get_cons :
      (x e : K × V) (d : Dict K V)
      → get x.0 d ≡ none
      → get e.0 d ≡ some e.1
      → get e.0 (x ∷ d) ≡ some e.1
  unfolding get
  get_cons x e d absent found = elim (Bool-cases (x.0 == e.0)) [
    | inl same ↦
        ground (arith, sym absent ∙ ap (λ k. get k d) ((key.same_key_iff x.0 e.0).0 same) ∙ found)
    | inr other ↦ rw other found
  ]

  -- Every entry is what a lookup of its key finds.
  pub IsDict-get : (d : Dict K V) → IsDict d → All (λ e. get e.0 d ≡ some e.1) d
  unfolding get
  IsDict-get [] h = tt
  IsDict-get (x ∷ d) h = (
    ground (arith, ==_refl x.0),
    All-map (λ e. get e.0 d ≡ some e.1) (λ e. get e.0 (x ∷ d) ≡ some e.1) d
        (λ e found. get_cons x e d h.0 found) (IsDict-get d h.1),
  )

  -- A new key goes to the end.
  pub set-absent : (k : K) (v : V) (d : Dict K V) → get k d ≡ none → set k v d ≡ d ++ (k, v) ∷ []
  unfolding get set
  set-absent k v [] h = refl
  set-absent k v (e ∷ d) h = elim (Bool-cases (e.0 == k)) [
    | inl same ↦ ground (arith, h, same)
    | inr other ↦ rw other (ap (λ x. e ∷ x) (set-absent k v d (rw other at h)))
  ]
