-- ===== src/Governance/Audit/Query.antt =====
-- `AuditLogger.query` of src/amberclaw/governance/audit.py: the nested loops over the files of the
-- folder, newest first, and their lines.
use amber_claw.Base.{
  ℕ, ◌+◌, ◌<◌, ◌≡◌, sym, ap, ◌∙◌, Bool, true, false, not, Option, none, some, List, [], ◌∷◌, ◌++◌,
  arith, leb, ltb, length, max, take, take-eq_self, take-append, length-append, if◌then◌else◌,
  Bool-cases, inl, inr,
}
use mathlib.Core.Path.{ap₂}
use mathlib.Core.List.{append_assoc, append-nil}
use amber_claw.Base.Text.{Text, text_eq}
use amber_claw.Governance.Audit.{AuditRecord, Line, entry, blank, broken}

pub record AuditQuery : Type 0 where
  pub action : Option Text
  pub actor_id : Option Text
  pub start_time : Option Text
  pub end_time : Option Text
  pub limit : ℕ

-- The order of texts by code points, `a < b`.
unfoldable pub text_lt : Text → Text → Bool
text_lt a [] = false
text_lt [] (d ∷ ds) = true
text_lt (c ∷ cs) (d ∷ ds) =
    let rest = text_lt cs ds in if ltb c d then true else if ltb d c then false else rest

-- `query.field and test`: an empty text or none sets no condition.
abbrev pub fails : (Text → Bool) → Option Text → Bool
fails test none = false
fails test (some []) = false
fails test (some (c ∷ cs)) = test (c ∷ cs)

-- The record is passed over.
abbrev pub skips : AuditQuery → AuditRecord → Bool
skips query r =
    if fails (λ a. not (text_eq r.action a)) query.action
    then true
    else if fails (λ a. not (text_eq r.actor_id a)) query.actor_id
    then true
    else if fails (λ t. text_lt r.timestamp t) query.start_time
    then true
    else fails (λ t. text_lt t r.timestamp) query.end_time

-- Did the loop return, and with which records.
abbrev pub Progress : Type 0
Progress = Bool × List AuditRecord

-- The lines of one file. A line that does not parse is passed over.
unfoldable pub query_lines : AuditQuery → List AuditRecord → List Line → Progress
query_lines query records [] = (false, records)
query_lines query records (blank ∷ ls) = query_lines query records ls
query_lines query records (broken ∷ ls) = query_lines query records ls
query_lines query records (entry r ∷ ls) =
    let found = records ++ r ∷ [] in
    let skipped = query_lines query records ls in
    let more = query_lines query found ls in
    if skips query r
    then skipped
    else if leb query.limit (length found)
    then (true, found)
    else more

abbrev next_file : Progress → (List AuditRecord → List AuditRecord) → List AuditRecord
next_file (true, records) rest = records
next_file (false, records) rest = rest records

-- The files in the order of the loop.
unfoldable pub query_files : AuditQuery → List AuditRecord → List (List Line) → List AuditRecord
query_files query records [] = records
query_files query records (f ∷ fs) =
    next_file (query_lines query records f) (λ found. query_files query found fs)

unfoldable pub query : AuditQuery → List (List Line) → List AuditRecord
query q files = query_files q [] files

-- The records of a file that pass.
abbrev pub matching : AuditQuery → List Line → List AuditRecord
matching q [] = []
matching q (entry r ∷ ls) = if skips q r then matching q ls else r ∷ matching q ls
matching q (blank ∷ ls) = matching q ls
matching q (broken ∷ ls) = matching q ls

abbrev pub all_matching : AuditQuery → List (List Line) → List AuditRecord
all_matching q [] = []
all_matching q (f ∷ fs) = matching q f ++ all_matching q fs

-- The loop looks at the limit after it has taken a record.
abbrev pub cap : AuditQuery → ℕ
cap q = max 1 q.limit

found_append :
    (acc : List AuditRecord) (r : AuditRecord) (m : List AuditRecord)
    → acc ++ r ∷ m ≡ (acc ++ r ∷ []) ++ m
found_append acc r m = simp append_assoc

length-found : (acc : List AuditRecord) (r : AuditRecord) → length (acc ++ r ∷ []) ≡ length acc + 1
length-found acc r = omega (arith, length-append acc (r ∷ []))

-- What the loop over a file leaves, in terms of the records that pass.
abbrev outcome : AuditQuery → List AuditRecord → List AuditRecord → Progress
outcome q acc m = (leb (cap q) (length acc + length m), take (cap q) (acc ++ m))

full :
    (q : AuditQuery) (found m : List AuditRecord)
    → length found ≡ cap q
    → (true, found) ≡ outcome q found m
full q found m h = ap₂ (λ b rs. (b, rs)) (ground arith) (sym same)
  where
    same : take (cap q) (found ++ m) ≡ found
    same = take-append (cap q) found m (omega arith) ∙ take-eq_self (cap q) found (omega arith)

query_lines_lem :
    (q : AuditQuery) (acc : List AuditRecord) (ls : List Line)
    → length acc < cap q
    → query_lines q acc ls ≡ outcome q acc (matching q ls)
unfolding query_lines
query_lines_lem q acc [] h = ap₂ (λ b rs. (b, rs)) (ground arith) (sym same)
  where
    same : take (cap q) (acc ++ []) ≡ acc
    same = ap (take (cap q)) (append-nil acc) ∙ take-eq_self (cap q) acc (omega arith)
query_lines_lem q acc (blank ∷ ls) h = query_lines_lem q acc ls h
query_lines_lem q acc (broken ∷ ls) h = query_lines_lem q acc ls h
query_lines_lem q acc (entry r ∷ ls) h = elim (Bool-cases (skips q r)) [
  | inl e ↦ rw e (query_lines_lem q acc ls h)
  | inr e ↦ rw e (elim (Bool-cases (leb q.limit (length (acc ++ r ∷ [])))) [
    | inl done ↦ rw done (full q (acc ++ r ∷ []) m (ground (arith, done, size)) ∙ regroup)
    | inr more ↦
        rw more (query_lines_lem q (acc ++ r ∷ []) ls (ground (arith, more, size)) ∙ regroup)
  ])
]
  where
    m : List AuditRecord
    m = matching q ls

    size : length (acc ++ r ∷ []) ≡ length acc + 1
    size = length-found acc r

    regroup : outcome q (acc ++ r ∷ []) m ≡ outcome q acc (r ∷ m)
    regroup =
        ap₂ (λ b rs. (b, rs)) (ap (leb (cap q)) (omega (arith, size)))
          (ap (take (cap q)) (sym (found_append acc r m)))

query_files_lem :
    (q : AuditQuery) (acc : List AuditRecord) (fs : List (List Line))
    → length acc < cap q
    → query_files q acc fs ≡ take (cap q) (acc ++ all_matching q fs)
unfolding query_files
query_files_lem q acc [] h =
    sym (ap (take (cap q)) (append-nil acc) ∙ take-eq_self (cap q) acc (omega arith))
query_files_lem q acc (f ∷ fs) h =
    ap (λ p. next_file p (λ found. query_files q found fs)) (query_lines_lem q acc f h)
    ∙ elim (Bool-cases (leb (cap q) (length acc + length (matching q f)))) [
      | inl done ↦ rw done (
          sym (
            take-append (cap q) (acc ++ matching q f) (all_matching q fs)
              (ground (arith, done, size)))
          ∙ regroup)
      | inr more ↦ rw more (
          ap (λ found. query_files q found fs)
            (take-eq_self (cap q) (acc ++ matching q f) (ground (arith, more, size)))
          ∙ query_files_lem q (acc ++ matching q f) fs (ground (arith, more, size))
          ∙ regroup)
    ]
  where
    size : length (acc ++ matching q f) ≡ length acc + length (matching q f)
    size = length-append acc (matching q f)

    regroup :
        take (cap q) ((acc ++ matching q f) ++ all_matching q fs)
        ≡ take (cap q) (acc ++ (matching q f ++ all_matching q fs))
    regroup = ap (take (cap q)) (append_assoc acc (matching q f) (all_matching q fs))

-- The query returns, in the order of the files and their lines, the first `limit` records that pass
-- every condition, and one record where the limit is 0 and there is one: lines that do not parse
-- neither stop it nor count.
pub query_lem :
    (q : AuditQuery) (fs : List (List Line)) → query q fs ≡ take (cap q) (all_matching q fs)
unfolding query
query_lem q fs = query_files_lem q [] fs (omega arith)
