-- ===== src/Session.antt =====
-- Conversations: `Session` of src/amberclaw/session/manager.py, `MemoryStore.consolidate` of
-- src/amberclaw/agent/memory.py, and the command `/new` of `_process_message` in src/amberclaw/agent/loop.py.
-- Messages are processed one at a time; only a consolidation in the background waits for the model while
-- others go on, and what it then finds appended is an argument. Every message has a role, as the code that
-- appends them sees to. Times are left out.
use amber_claw.Base.{
  filter, ℕ, ◌-◌, ◌/◌, Bool, true, false, not, ◌&&◌, ◌||◌, Option, none, some, String, leb,
  if◌then◌else◌, List, [], ◌∷◌, ◌++◌, map, length, take, drop,
}
use amber_claw.Base.Dict.{get_or, is_some}
use amber_claw.Base.Json
use amber_claw.Base.Json.{
  Json, Items, Members, null, bool, number, text, array, object, nil, cons, end, member,
}
use amber_claw.Base.Key.{text_key, ◌==◌, truthy}
pub mod Window
pub mod Archive
pub mod Missed
pub mod Failure
pub mod Conserve
mod Tests

-- The keys that `get_history` reads; `none` is a missing key.
pub record Message : Type 0 where
  pub role : String
  pub content : Option Json
  pub tool_calls : Option Json
  pub tool_call_id : Option Json
  pub name : Option Json

pub record Session : Type 0 where
  pub key : String
  pub messages : List Message
  pub last_consolidated : ℕ

-- `Session(key=...)`
abbrev pub new_session : String → Session
new_session key = record { key = key; messages = []; last_consolidated = 0 }

-- `add_message`, and the appending at the end of a turn
unfoldable pub append : List Message → Session → Session
append ms s = record s { messages = s.messages ++ ms }

-- `xs[-n:]`, which is the whole list if `n` is 0
unfoldable pub last_n {ℓ} : {A : Type ℓ} → ℕ → List A → List A
last_n n xs = if leb n 0 then xs else drop (length xs - n) xs

abbrev pub is_user : Message → Bool
is_user m = m.role == "user"

-- From the first message of the user on; all of them if there is none.
unfoldable pub find_user : List Message → Option (List Message)
find_user [] = none
find_user (m ∷ ms) = let rest = find_user ms in if is_user m then some (m ∷ ms) else rest

abbrev pub from_user : List Message → List Message
from_user ms = get_or ms (find_user ms)

-- A missing content is written as the empty text.
abbrev pub history_entry : Message → Message
history_entry m = record m { content = some (get_or (text "") m.content) }

unfoldable pub get_history : ℕ → Session → List Message
get_history max_messages s =
    map history_entry (from_user (last_n max_messages (drop s.last_consolidated s.messages)))

unfoldable pub clear : Session → Session
clear s = record s { messages = []; last_consolidated = 0 }

-- The files of `MemoryStore`; the history as the entries that were appended.
pub record MemoryStore : Type 0 where
  pub memory_file : Option String
  pub history_file : List String

abbrev pub read_long_term : MemoryStore → String
read_long_term m = get_or "" m.memory_file

-- A write that succeeds is `none`; one that raises leaves the file as it says. The result says if it went well.
abbrev pub write_long_term : Option (Option String) → String → MemoryStore → MemoryStore × Bool
write_long_term none content m = (record m { memory_file = some content }, true)
write_long_term (some left) content m = (record m { memory_file = left }, false)

abbrev pub append_history : Option (List String) → String → MemoryStore → MemoryStore × Bool
append_history none entry m = (record m { history_file = m.history_file ++ entry ∷ [] }, true)
append_history (some left) entry m = (record m { history_file = left }, false)

-- What the model answers: an exception, no tool call, or the arguments of its first one.
pub data Reply : Type 0 where
  failed no_call : Reply
  call : Json → Reply

-- The model's answer to messages and the current memory, `loads` and `dumps` of `json`, `rstrip` of a text, and
-- what becomes of the two writes.
pub record Model : Type 0 where
  pub chat : List Message → String → Reply
  pub loads : String → Option Json
  pub dumps : Json → String
  pub rstrip : String → String
  pub history_write : Option (List String)
  pub memory_write : Option (Option String)

-- Python's truth of a JSON value.
unfoldable pub is_true : Json → Bool
is_true null = false
is_true (bool b) = b
is_true (number n) = not (leb n 0)
is_true (text s) = truthy s
is_true (array nil) = false
is_true (array (cons j js)) = true
is_true (object end) = false
is_true (object (member k v ms)) = true

abbrev pub as_entry : Model → Json → String
as_entry llm (text s) = s
as_entry llm j = llm.dumps j

-- The value if it is there and true.
abbrev pub given : Option Json → Option Json
given none = none
given (some j) = if is_true j then some j else none

-- Messages without content, or with an empty one, have no line in the prompt.
abbrev pub has_content : Message → Bool
has_content m = is_some (given m.content)

abbrev pub prompt_messages : List Message → List Message
prompt_messages = filter has_content

abbrev pub note_history : Model → Option Json → MemoryStore → MemoryStore × Bool
note_history llm none m = (m, true)
note_history llm (some j) m = append_history llm.history_write (llm.rstrip (as_entry llm j)) m

-- The memory is compared with what it was before the call.
abbrev pub note_memory : Model → String → Option Json → MemoryStore → MemoryStore × Bool
note_memory llm current none m = (m, true)
note_memory llm current (some j) m =
    if as_entry llm j == current
    then (m, true)
    else write_long_term llm.memory_write (as_entry llm j) m

-- Arguments that are a text are parsed; of a list the first object counts.
abbrev pub parsed : Model → Json → Option Json
parsed llm (text s) = llm.loads s
parsed llm j = some j

abbrev pub unpacked : Option Json → Option Members
unpacked (some (object ms)) = some ms
unpacked (some (array (cons (object ms) rest))) = some ms
unpacked _ = none

abbrev pub arguments : Model → Reply → Option Members
arguments llm failed = none
arguments llm no_call = none
arguments llm (call j) = unpacked (parsed llm j)

-- Whether the two writes went well, the memory after each, and the session on failure and on success.
abbrev pub concluded :
    Bool → Bool → MemoryStore → MemoryStore → Session → Session → (MemoryStore × Session) × Bool
concluded false kept m m' s s' = ((m, s), false)
concluded true false m m' s s' = ((m', s), false)
concluded true true m m' s s' = ((m', s'), true)

-- After the call: `extra` has come in meanwhile. A write that raises ends it before the session is marked.
abbrev pub archived :
    Model
    → Bool
    → ℕ
    → List Message
    → Option Members
    → MemoryStore × Session
    → (MemoryStore × Session) × Bool
archived llm archive_all keep_count extra none (m, s) = ((m, append extra s), false)
archived llm archive_all keep_count extra (some args) (m, s) =
    let s' = append extra s in
    let (m', noted) = note_history llm (given (Json.find "history_entry" args)) m in
    let (m'', kept) =
      note_memory llm (read_long_term m) (given (Json.find "memory_update" args)) m' in
    concluded noted kept m' m'' s'
      (record s' { last_consolidated = if archive_all then 0 else length s'.messages - keep_count })

unfoldable pub archive :
    Model
    → Bool
    → ℕ
    → List Message
    → List Message
    → MemoryStore × Session
    → (MemoryStore × Session) × Bool
archive llm archive_all keep_count extra old_messages (m, s) =
    archived llm archive_all keep_count extra
      (arguments llm (llm.chat (prompt_messages old_messages) (read_long_term m))) (m, s)

-- `xs[:-n]`, which is empty if `n` is 0
unfoldable pub but_last {ℓ} : {A : Type ℓ} → ℕ → List A → List A
but_last n xs = if leb n 0 then [] else take (length xs - n) xs

-- `session.messages[session.last_consolidated : -keep_count]`
abbrev pub old_messages : ℕ → Session → List Message
old_messages keep_count s = drop s.last_consolidated (but_last keep_count s.messages)

unfoldable pub consolidate :
    Model → Bool → ℕ → List Message → MemoryStore × Session → (MemoryStore × Session) × Bool
consolidate llm archive_all memory_window extra (m, s) =
    let keep_count = memory_window / 2 in
    if archive_all
    then archive llm true 0 extra s.messages (m, s)
    else if leb (length s.messages) keep_count
    then ((m, s), true)
    else if leb (length s.messages - s.last_consolidated) 0
    then ((m, s), true)
    else if leb (length (old_messages keep_count s)) 0
    then ((m, s), true)
    else archive llm false keep_count extra (old_messages keep_count s) (m, s)

-- `/new`: the messages that are not consolidated yet go to the memory through a session of their own.
unfoldable pub start_new : Model → MemoryStore × Session → (MemoryStore × Session) × Bool
start_new llm (m, s) =
    let snapshot = drop s.last_consolidated s.messages in
    let temp = record (new_session s.key) { messages = snapshot } in
    let ((m', _), done) = consolidate llm true 50 [] (m, temp) in
    if leb (length snapshot) 0
    then ((m, clear s), true)
    else if done
    then ((m', clear s), true)
    else ((m', s), false)
