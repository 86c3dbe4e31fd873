-- ===== src/Governance/Audit/Chain.antt =====
-- Logs that governance/audit.py has written verify.
use amber_claw.Base.{
  ℕ, ◌+◌, ◌≡◌, refl, ◌↔◌, sym, ap, ◌∙◌, true, false, Option, none, some, List, [], ◌∷◌, ◌++◌, arith,
  All,
}
use amber_claw.Base.Text.{Text, text_eq, same_code}
use amber_claw.Governance.Audit.{
  AuditRecord, Line, entry, blank, broken, genesis, calculate_hash, last_record, next_index,
  last_hash, draft, log_action, verify_from, verify_chain, hashed_text,
}

pub text_eq_iff : (a b : Text) → (text_eq a b ≡ true) ↔ (a ≡ b)
unfolding text_eq same_code
text_eq_iff [] [] = ground arith
text_eq_iff [] (d ∷ ds) = ground arith
text_eq_iff (c ∷ cs) [] = ground arith
text_eq_iff (c ∷ cs) (d ∷ ds) = ground (arith, text_eq_iff cs ds)

-- A call of `log_action`.
pub record Call : Type 0 where
  pub timestamp : Text
  pub actor : Text
  pub action : Text
  pub details : Text
  pub target : Option Text

module _ (sha256 : Text → Text) where
  unfoldable pub log_all : (Text → Text) → List Call → List Line → List Line
  log_all reread [] ls = ls
  log_all reread (c ∷ cs) ls =
      log_all reread cs
        (log_action sha256 reread c.timestamp c.actor c.action c.details c.target ls).0

  pub verify_from_iff :
      (i : ℕ) (p : Text) (r : AuditRecord) (ls : List Line)
      → (verify_from sha256 i p (entry r ∷ ls) ≡ true) ↔ (
          (r.index ≡ i)
          × (r.previous_hash ≡ p)
          × (r.hash ≡ calculate_hash sha256 r)
          × (verify_from sha256 (i + 1) (calculate_hash sha256 r) ls ≡ true))
  unfolding verify_from same_code
  verify_from_iff i p r ls =
      ground (arith, text_eq_iff r.previous_hash p, text_eq_iff r.hash (calculate_hash sha256 r))

  -- The record goes on where the last one stops.
  abbrev Follows : Option AuditRecord → AuditRecord → Type 0
  Follows last r =
      (r.index ≡ next_index last)
      × (r.previous_hash ≡ last_hash last)
      × (r.hash ≡ calculate_hash sha256 r)

  verified_nil : (k : ℕ) (q : Text) → verify_from sha256 k q [] ≡ true
  unfolding verify_from
  verified_nil k q = refl

  verify_from_blank :
      (k : ℕ) (q : Text) (ls : List Line)
      → verify_from sha256 k q (blank ∷ ls) ≡ verify_from sha256 k q ls
  unfolding verify_from
  verify_from_blank k q ls = refl

  verify_from_broken :
      (k : ℕ) (q : Text) (ls : List Line) → verify_from sha256 k q (broken ∷ ls) ≡ false
  unfolding verify_from
  verify_from_broken k q ls = refl

  verify_from-append :
      (i : ℕ) (p : Text) (ls : List Line) (last : Option AuditRecord) (r : AuditRecord)
      → next_index last ≡ i
      → last_hash last ≡ p
      → verify_from sha256 i p ls ≡ true
      → Follows (last_record ls last) r
      → verify_from sha256 i p (ls ++ entry r ∷ []) ≡ true
  unfolding last_record
  verify_from-append i p [] last r ei ep ok follows =
      (verify_from_iff i p r []).1
        (follows.0 ∙ ei, follows.1 ∙ ep, follows.2, verified_nil (i + 1) (calculate_hash sha256 r))
  verify_from-append i p (blank ∷ ls) last r ei ep ok follows =
      verify_from_blank i p (ls ++ entry r ∷ [])
      ∙ verify_from-append i p ls last r ei ep (sym (verify_from_blank i p ls) ∙ ok) follows
  verify_from-append i p (broken ∷ ls) last r ei ep ok follows =
      ground (arith, verify_from_broken i p ls)
  verify_from-append i p (entry e ∷ ls) last r ei ep ok follows =
      let (index, previous, hash, rest) = (verify_from_iff i p e ls).0 ok in
      (verify_from_iff i p e (ls ++ entry r ∷ [])).1 (
        index,
        previous,
        hash,
        verify_from-append (i + 1) (calculate_hash sha256 e) ls (some e) r (ap (λ k. k + 1) index)
            hash rest follows,
      )

  -- Reading the details of the call back from a file gives the sorted text that was hashed.
  abbrev pub KeepsDetails : (Text → Text) → Call → Type 0
  KeepsDetails reread c = reread c.details ≡ c.details

  log_action-verify_chain :
      (reread : Text → Text) (c : Call) (ls : List Line)
      → KeepsDetails reread c
      → verify_chain sha256 (some ls) ≡ true
      → verify_chain sha256
          (some (log_action sha256 reread c.timestamp c.actor c.action c.details c.target ls).0)
        ≡ true
  unfolding verify_chain log_action calculate_hash hashed_text
  log_action-verify_chain reread c ls kept ok =
      verify_from-append 0 genesis ls none _ refl refl ok
        (refl, refl, ap (λ t. sha256 (hashed_text (record d { details = t }))) (sym kept))
    where
      d : AuditRecord
      d = draft c.timestamp c.actor c.action c.target c.details (last_record ls none)

  -- A file that verifies still does after any further entries, and so does one that they start, if the
  -- details of each have the same sorted text when they are read back from a file.
  pub log_all-verify_chain :
      (reread : Text → Text) (cs : List Call) (ls : List Line)
      → All (KeepsDetails reread) cs
      → verify_chain sha256 (some ls) ≡ true
      → verify_chain sha256 (some (log_all reread cs ls)) ≡ true
  unfolding log_all
  log_all-verify_chain reread [] ls kept ok = ok
  log_all-verify_chain reread (c ∷ cs) ls kept ok =
      log_all-verify_chain reread cs _ kept.1 (log_action-verify_chain reread c ls kept.0 ok)
