-- ===== src/Governance/Audit.antt =====
-- `AuditLogger` of src/amberclaw/governance/audit.py: the hash chain of a day's log file. The digest,
-- `hashlib.sha256` in hexadecimal, is a parameter. The details of a record stand as their JSON text with
-- sorted keys, the form in which they are hashed; Python's `json` is a parameter that gives the sorted text of
-- what is read back from a file, which is another one where keys are numbers. A text is its list of code
-- points.
use amber_claw.Base.{
  ℕ, zero, suc, ◌+◌, ◌/◌, ◌%◌, Bool, true, false, not, ◌&&◌, Option, none, some, List, [], ◌∷◌,
  ◌++◌, ltb, if◌then◌else◌,
}
use amber_claw.Base.Text.{Text, text_eq, same_code}
pub mod Chain
pub mod Tamper
pub mod Query
mod Tests

pub record AuditRecord : Type 0 where
  pub index : ℕ
  pub timestamp : Text
  pub action : Text
  pub actor_id : Text
  pub target_id : Option Text
  pub details : Text
  pub previous_hash : Text
  pub hash : Text

-- A line of the file: a record, white space, or anything that does not parse.
pub data Line : Type 0 where
  entry : AuditRecord → Line
  blank : Line
  broken : Line

-- `|` is the code point 124.
abbrev pub bar : ℕ
bar = 124

-- The decimal digits, on fuel of which a number needs less than itself and one.
unfoldable pub digits : ℕ → ℕ → Text → Text
digits zero n acc = acc
digits (suc fuel) n acc =
    let rest = digits fuel (n / 10) ((48 + n % 10) ∷ acc) in
    if ltb n 10 then (48 + n) ∷ acc else rest

-- `str(n)`
unfoldable pub show : ℕ → Text
show n = digits (n + 1) n []

-- An f-string writes `None` for a target that is missing.
abbrev pub show_target : Option Text → Text
show_target none = b'N' ∷ b'o' ∷ b'n' ∷ b'e' ∷ []
show_target (some t) = t

-- The text that `_calculate_hash` hashes.
unfoldable pub hashed_text : AuditRecord → Text
hashed_text r =
    show r.index
    ++ bar ∷ r.timestamp
    ++ bar ∷ r.action
    ++ bar ∷ r.actor_id
    ++ bar ∷ show_target r.target_id
    ++ bar ∷ r.details
    ++ bar ∷ r.previous_hash

-- 64 times the digit 0.
abbrev pub zeros : ℕ → Text
zeros zero = []
zeros (suc n) = 48 ∷ zeros n

abbrev pub genesis : Text
genesis = zeros 64

-- `_get_last_record`: the last line that is not white space, if it parses.
unfoldable pub last_record : List Line → Option AuditRecord → Option AuditRecord
last_record [] last = last
last_record (entry r ∷ ls) last = last_record ls (some r)
last_record (blank ∷ ls) last = last_record ls last
last_record (broken ∷ ls) last = last_record ls none

abbrev pub next_index : Option AuditRecord → ℕ
next_index none = 0
next_index (some r) = r.index + 1

abbrev pub last_hash : Option AuditRecord → Text
last_hash none = genesis
last_hash (some r) = r.hash

-- The record before it is hashed.
abbrev pub draft : Text → Text → Text → Option Text → Text → Option AuditRecord → AuditRecord
draft timestamp actor action target details last = record {
  index = next_index last;
  timestamp = timestamp;
  action = action;
  actor_id = actor;
  target_id = target;
  details = details;
  previous_hash = last_hash last;
  hash = [];
}

module _ (sha256 : Text → Text) where
  unfoldable pub calculate_hash : AuditRecord → Text
  calculate_hash r = sha256 (hashed_text r)

  -- `timestamp` is the clock's reading; the file is the one of its day. The hash is that of the details as
  -- they are given; what the line holds is read back from the file, by `reread`.
  unfoldable pub log_action :
      (Text → Text) → Text → Text → Text → Text → Option Text → List Line → List Line × AuditRecord
  log_action reread timestamp actor action details target ls =
      let d = draft timestamp actor action target details (last_record ls none) in
      let r = record d { hash = calculate_hash d } in
      (ls ++ entry (record r { details = reread details }) ∷ [], r)

  -- The loop of `verify_chain`.
  unfoldable pub verify_from : ℕ → Text → List Line → Bool
  verify_from index previous [] = true
  verify_from index previous (blank ∷ ls) = verify_from index previous ls
  verify_from index previous (broken ∷ ls) = false
  verify_from index previous (entry r ∷ ls) =
      let rest = verify_from (index + 1) (calculate_hash r) ls in
      if not (same_code r.index index)
      then false
      else if not (text_eq r.previous_hash previous)
      then false
      else if not (text_eq r.hash (calculate_hash r))
      then false
      else rest

  -- `none` is a file that does not exist.
  unfoldable pub verify_chain : Option (List Line) → Bool
  verify_chain none = true
  verify_chain (some ls) = verify_from 0 genesis ls
