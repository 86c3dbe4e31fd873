-- ===== src/Governance/Audit/Tamper.antt =====
-- What the hash chain of governance/audit.py protects: a changed record shows, or is a collision.
use amber_claw.Base.{
  ℕ, ◌+◌, ◌≡◌, ◌≢◌, ◌⊎◌, refl, sym, ap, ◌∙◌, Bool, true, false, Option, none, some, List, [], ◌∷◌,
  ◌++◌, arith, Bool-cases, inl, inr, any, length, map,
}
use mathlib.Core.List.{append_assoc}
use mathlib.Core.Path.{ap₂}
use amber_claw.Base.Text.{Text, text_eq, same_code}
use amber_claw.Governance.Audit.{
  AuditRecord, Line, entry, genesis, bar, show, show_target, calculate_hash, verify_from,
  verify_chain, hashed_text,
}
use amber_claw.Governance.Audit.Chain.{verify_from_iff, text_eq_iff}

abbrev pub has_bar : Text → Bool
has_bar = any (same_code bar)

abbrev keep : Option Text → Bool → Text → Option Text
keep none true cs = some cs
keep none false cs = none
keep (some r) b cs = some r

-- What stands after the last bar.
unfoldable after_bar : Text → Option Text
after_bar [] = none
after_bar (c ∷ cs) = keep (after_bar cs) (same_code bar c) cs

after_bar-none : (cs : Text) → has_bar cs ≡ false → after_bar cs ≡ none
unfolding after_bar
after_bar-none [] h = refl
after_bar-none (c ∷ cs) h = elim (Bool-cases (same_code bar c)) [
  | inl e ↦ ground (arith, e)
  | inr e ↦ rw (after_bar-none cs (ground (arith, e)), e) refl
]

after_bar-append : (ds cs : Text) → has_bar cs ≡ false → after_bar (ds ++ bar ∷ cs) ≡ some cs
unfolding after_bar same_code
after_bar-append [] cs h = rw (after_bar-none cs h) refl
after_bar-append (d ∷ ds) cs h = rw (after_bar-append ds cs h) refl

-- All but the previous hash.
abbrev body : AuditRecord → Text
body r =
    show r.index
    ++ bar ∷ r.timestamp
    ++ bar ∷ r.action
    ++ bar ∷ r.actor_id
    ++ bar ∷ show_target r.target_id
    ++ bar ∷ r.details

hashed_text-body : (r : AuditRecord) → hashed_text r ≡ body r ++ bar ∷ r.previous_hash
unfolding hashed_text
hashed_text-body r = simp append_assoc

-- The hashed text determines the previous hash, where hashes have no bar.
hashed_text-previous :
    (r q : AuditRecord)
    → has_bar r.previous_hash ≡ false
    → has_bar q.previous_hash ≡ false
    → hashed_text r ≡ hashed_text q
    → r.previous_hash ≡ q.previous_hash
hashed_text-previous r q h g e = cc found
  where
    found : some r.previous_hash ≡ some q.previous_hash
    found =
        sym (after_bar-append (body r) r.previous_hash h)
        ∙ ap after_bar (sym (hashed_text-body r) ∙ e ∙ hashed_text-body q)
        ∙ after_bar-append (body q) q.previous_hash g

-- The file of a list of records, and the texts that its hashes are taken of.
abbrev pub entries : List AuditRecord → List Line
entries = map entry

abbrev pub texts : List AuditRecord → List Text
texts = map hashed_text

-- The hash that the next record has to name.
abbrev pub head_hash : Text → List AuditRecord → Text
head_hash p [] = p
head_hash p (r ∷ rs) = head_hash r.hash rs

abbrev pub NoBar : Text → Type 0
NoBar t = has_bar t ≡ false

module _ (sha256 : Text → Text) where
  -- At some place the records of the two files have different hashed texts with one digest.
  abbrev pub Clash : List AuditRecord → List AuditRecord → Type 0
  Clash [] qs = ⊥
  Clash (r ∷ rs) [] = ⊥
  Clash (r ∷ rs) (q ∷ qs) =
      ((hashed_text r ≢ hashed_text q) × (sha256 (hashed_text r) ≡ sha256 (hashed_text q)))
      ⊎ Clash rs qs

  text_eq-ne : (a b : Text) → text_eq a b ≡ false → a ≢ b
  text_eq-ne a b h e = ground (arith, text_eq_iff a b)

  -- Two records with the same hash after chains that agree.
  agree_at :
      (r q : AuditRecord) (p p' : Text) (rs qs : List AuditRecord)
      → NoBar p
      → NoBar p'
      → r.previous_hash ≡ p
      → q.previous_hash ≡ p'
      → calculate_hash sha256 r ≡ calculate_hash sha256 q
      → texts rs ≡ texts qs
      → ((p ≡ p') × (texts (r ∷ rs) ≡ texts (q ∷ qs))) ⊎ Clash (r ∷ rs) (q ∷ qs)
  unfolding calculate_hash
  agree_at r q p p' rs qs h g er eq same rest =
      elim (Bool-cases (text_eq (hashed_text r) (hashed_text q))) [
        | inl e ↦
            let t = (text_eq_iff (hashed_text r) (hashed_text q)).0 e in
            inl (
              sym er ∙ hashed_text-previous r q (ap has_bar er ∙ h) (ap has_bar eq ∙ g) t ∙ eq,
              ap₂ (λ x xs. x ∷ xs) t rest,
            )
        | inr n ↦ inr (inl (text_eq-ne (hashed_text r) (hashed_text q) n, same))
      ]

  chains_agree :
      (i k : ℕ) (p p' : Text) (rs qs : List AuditRecord)
      → ((t : Text) → NoBar (sha256 t))
      → NoBar p
      → NoBar p'
      → length rs ≡ length qs
      → verify_from sha256 i p (entries rs) ≡ true
      → verify_from sha256 k p' (entries qs) ≡ true
      → head_hash p rs ≡ head_hash p' qs
      → ((p ≡ p') × (texts rs ≡ texts qs)) ⊎ Clash rs qs
  unfolding calculate_hash
  chains_agree i k p p' [] [] hex h g len v w same = inl (same, refl)
  chains_agree i k p p' [] (q ∷ qs) hex h g len v w same = absurd (omega arith)
  chains_agree i k p p' (r ∷ rs) [] hex h g len v w same = absurd (omega arith)
  chains_agree i k p p' (r ∷ rs) (q ∷ qs) hex h g len v w same =
      elim (chains_agree (i + 1) (k + 1) (calculate_hash sha256 r) (calculate_hash sha256 q) rs qs
        hex (hash-NoBar r) (hash-NoBar q) (omega arith) one.3 two.3
        (ap (λ x. head_hash x rs) (sym one.2) ∙ same ∙ ap (λ x. head_hash x qs) two.2)) [
          | inl (e, rest) ↦ agree_at r q p p' rs qs h g one.1 two.1 e rest
          | inr c ↦ inr (inr c)
        ]
    where
      one :
          (r.index ≡ i)
          × (r.previous_hash ≡ p)
          × (r.hash ≡ calculate_hash sha256 r)
          × (verify_from sha256 (i + 1) (calculate_hash sha256 r) (entries rs) ≡ true)
      one = (verify_from_iff sha256 i p r (entries rs)).0 v

      two :
          (q.index ≡ k)
          × (q.previous_hash ≡ p')
          × (q.hash ≡ calculate_hash sha256 q)
          × (verify_from sha256 (k + 1) (calculate_hash sha256 q) (entries qs) ≡ true)
      two = (verify_from_iff sha256 k p' q (entries qs)).0 w

      hash-NoBar : (x : AuditRecord) → NoBar (calculate_hash sha256 x)
      hash-NoBar x = hex (hashed_text x)

  -- Where a digest never holds a bar, as a hexadecimal one does not: of two files of equally many
  -- records that both verify and end in the same hash, either every hashed text of one is the
  -- corresponding one of the other, or at some place the two files hold records whose hashed texts differ
  -- and have one digest.
  pub verify_chain-tamper :
      (rs qs : List AuditRecord)
      → ((t : Text) → NoBar (sha256 t))
      → length rs ≡ length qs
      → verify_chain sha256 (some (entries rs)) ≡ true
      → verify_chain sha256 (some (entries qs)) ≡ true
      → head_hash genesis rs ≡ head_hash genesis qs
      → (texts rs ≡ texts qs) ⊎ Clash rs qs
  unfolding verify_chain same_code
  verify_chain-tamper rs qs hex len v w same =
      elim (chains_agree 0 0 genesis genesis rs qs hex genesis-NoBar genesis-NoBar len v w same) [
        | inl (e, rest) ↦ inl rest
        | inr c ↦ inr c
      ]
    where
      genesis-NoBar : NoBar genesis
      genesis-NoBar = refl
