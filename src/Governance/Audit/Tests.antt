-- ===== src/Governance/Audit/Tests.antt =====
-- The audit log of src/amberclaw/governance/audit.py at work.
use amber_claw.Base.{
  ◌≡◌, ◌⊎◌, refl, false, true, not, none, some, List, [], ◌∷◌, ◌++◌, ℕ, filter, length, Bool-cases,
  if◌then◌else◌, inl, inr,
}
use amber_claw.Base.Text.{Text, text_eq, same_code}
use amber_claw.Governance.Audit.{
  AuditRecord, Line, blank, broken, bar, genesis, digits, show, hashed_text, calculate_hash,
  last_record, log_action, verify_from, verify_chain,
}
use amber_claw.Governance.Audit.Chain.{Call, log_all, log_all-verify_chain}
use amber_claw.Governance.Audit.Tamper.{NoBar, texts, Clash, verify_chain-tamper}
use amber_claw.Governance.Audit.Query.{AuditQuery, text_lt, query_lines, query_files, query}

program : Unit {0}
unfolding text_eq same_code digits show hashed_text calculate_hash last_record log_action
    verify_from verify_chain log_all text_lt query_lines query_files query
program = tt

-- A digest that drops the bars.
abbrev digest : Text → Text
digest = filter (λ c. not (same_code bar c))

digest-NoBar : (t : Text) → NoBar (digest t)
digest-NoBar [] = refl
digest-NoBar (c ∷ cs) = elim (Bool-cases (same_code bar c)) [
  | inl e ↦ rw e (digest-NoBar cs)
  | inr e ↦ rw (e, e) (digest-NoBar cs)
]

abbrev call : ℕ → Call
call n = record {
  timestamp = 50 ∷ n ∷ [];
  actor = b'a' ∷ [];
  action = b'r' ∷ b'u' ∷ b'n' ∷ [];
  details = 123 ∷ 125 ∷ [];
  target = none;
}

-- What Python gives back for keys that are numbers: `{9, 10}` in the order of texts.
abbrev reread : Text → Text
reread ts = if text_eq ts (b'9' ∷ b'1' ∷ b'0' ∷ []) then b'1' ∷ b'0' ∷ b'9' ∷ [] else ts

abbrev log : List Line
log = log_all digest reread (call 49 ∷ call 50 ∷ []) (blank ∷ [])

log_verifies : verify_chain digest (some log) ≡ true
unfolding program
log_verifies = refl

-- A line that does not parse starts the indices anew and breaks the chain for good.
broken_log :
    verify_chain digest (some (log_all digest reread (call 51 ∷ []) (log ++ broken ∷ []))) ≡ false
unfolding program
broken_log = refl

-- With keys that are numbers a log that was written verifies no more.
unsorted_log :
    verify_chain digest (
      some (log_all digest reread (record (call 51) { details = b'9' ∷ b'1' ∷ b'0' ∷ [] } ∷ []) []))
    ≡ false
unfolding program
unsorted_log = refl

abbrev shifted : Text → Text → AuditRecord
shifted actor action = record {
  index = 0;
  timestamp = 49 ∷ [];
  action = action;
  actor_id = actor;
  target_id = none;
  details = [];
  previous_hash = genesis;
  hash = [];
}

-- Two records with different fields and one hashed text: `run|a` by `b`, and `run` by `a|b`.
shifted_text :
    hashed_text (shifted (98 ∷ []) (b'r' ∷ 124 ∷ 97 ∷ []))
    ≡ hashed_text (shifted (97 ∷ 124 ∷ 98 ∷ []) (b'r' ∷ []))
unfolding program
shifted_text = refl

log_all-verify_chain_example :
    verify_chain digest (some (log_all digest reread (call 51 ∷ call 52 ∷ []) log)) ≡ true
log_all-verify_chain_example =
    log_all-verify_chain digest reread (call 51 ∷ call 52 ∷ []) log
      (unfold program in refl, (unfold program in refl, tt)) (unfold program in refl)

-- The record of one call by the actor.
abbrev single : Text → Text → List AuditRecord
single actor action = (log_action digest reread (50 ∷ 49 ∷ []) actor action [] none []).1 ∷ []

abbrev one : List AuditRecord
one = single (98 ∷ []) (b'r' ∷ 124 ∷ 97 ∷ [])

-- Other fields with the same hashed text.
abbrev other : List AuditRecord
other = single (97 ∷ 124 ∷ 98 ∷ []) (b'r' ∷ [])

verify_chain-tamper_example : (texts one ≡ texts other) ⊎ Clash digest one other
verify_chain-tamper_example =
    verify_chain-tamper digest one other digest-NoBar refl (unfold program in refl)
      (unfold program in refl) (unfold program in refl)

abbrev by_ann : AuditQuery
by_ann = record {
  action = none;
  actor_id = some (b'a' ∷ []);
  start_time = some (50 ∷ 50 ∷ []);
  end_time = none;
  limit = 0;
}

one_at_least : length (query by_ann (log ∷ log ∷ [])) ≡ 1
unfolding program
one_at_least = refl
