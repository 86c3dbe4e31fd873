-- ===== src/Session/Tests.antt =====
-- Conversations of session/manager.py and agent/memory.py at work.
use amber_claw.Base.{
  ◌-◌, ◌≤◌, ◌≡◌, refl, true, false, any, none, some, String, List, [], ◌∷◌, ◌++◌, map, length, drop,
  take, count_if, arith,
}
use amber_claw.Base.Json
use amber_claw.Base.Json.{Json, null, text, object, array, cons, nil, member, end}
use amber_claw.Base.Key.{text_key, truthy}
use amber_claw.Session.{
  Message, Session, MemoryStore, Model, no_call, call, Reply, new_session, append, last_n, is_user,
  find_user, history_entry, get_history, clear, is_true, archive, but_last, old_messages,
  consolidate, start_new,
}
use amber_claw.Session.Window.{opens, get_history-suffix}
use amber_claw.Session.Archive.{pending}
use amber_claw.Session.Missed.{consolidate-missed}
use amber_claw.Session.Conserve.{Call, hear, summarize, restart}

program : Unit {0}
unfolding append last_n find_user get_history clear is_true truthy Json.find archive but_last
    consolidate start_new
program = tt

abbrev said : String → String → Message
said role content = record {
  role = role;
  content = some (text content);
  tool_calls = none;
  tool_call_id = none;
  name = none;
}

-- A model that files what it is given, and one that never answers.
abbrev diligent : Model
diligent = record {
  chat = λ ms memory.
      call (
        object
          (member "history_entry" (text "talked") (member "memory_update" (text "facts") end)));
  loads = λ s. none;
  dumps = λ j. "";
  rstrip = λ s. s;
  history_write = none;
  memory_write = none;
}

abbrev silent : Model
silent = record diligent { chat = λ ms memory. no_call }

-- One whose long-term memory cannot be written.
abbrev full : Model
full = record diligent { memory_write = some none }

-- A model that says the same to two messages and nothing to others.
abbrev brief : List Message → String → Reply
brief (m ∷ n ∷ []) memory = diligent.chat [] memory
brief _ memory = no_call

abbrev no_memory : MemoryStore
no_memory = record { memory_file = none; history_file = [] }

abbrev talk : Session
talk = record {
  key = "cli:1";
  messages =
      said "user" "a"
      ∷ said "assistant" "b"
      ∷ said "tool" "c"
      ∷ said "user" "d"
      ∷ said "assistant" "e"
      ∷ [];
  last_consolidated = 1;
}

aligned : get_history 4 talk ≡ said "user" "d" ∷ said "assistant" "e" ∷ []
unfolding program
aligned = refl

-- A limit of 0 messages is no limit.
no_limit : get_history 0 talk ≡ get_history 5 talk
unfolding program
no_limit = refl

filed : consolidate diligent false 4 [] (no_memory, talk) ≡ (
  (
    record { memory_file = some "facts"; history_file = "talked" ∷ [] },
    record talk { last_consolidated = 3 },
  ),
  true,
)
unfolding program
filed = refl

-- The message `d` is marked, but the model was not given it: `f` came in during the call.
skipped :
    (consolidate diligent false 4 (said "user" "f" ∷ []) (no_memory, talk)).0.1.last_consolidated
    ≡ 4
unfolding program
skipped = refl

refused : start_new silent (no_memory, talk) ≡ ((no_memory, talk), false)
unfolding program
refused = refl

renewed : (start_new diligent (no_memory, talk)).0.1 ≡ new_session "cli:1"
unfolding program
renewed = refl

get_history-suffix_example :
    let h = get_history 4 talk in
    let range = last_n 4 (drop talk.last_consolidated talk.messages) in
    (h ≡ map history_entry (drop (length talk.messages - length h) talk.messages))
    × (length h ≤ 4)
    × (length h ≤ length talk.messages - talk.last_consolidated)
    × (count_if is_user h ≡ count_if is_user range)
    × (opens h ≡ any is_user range)
get_history-suffix_example = get_history-suffix 4 talk (omega arith)

consolidate-missed_example :
    let extra = said "user" "f" ∷ [] in
    let r = consolidate diligent false 4 extra (no_memory, talk) in
    let s' = r.0.1 in
    (s'.messages ≡ talk.messages ++ extra)
    × (length (pending s') ≡ 2)
    × (take s'.last_consolidated s'.messages
        ≡ (take talk.last_consolidated talk.messages ++ old_messages 2 talk)
          ++ take (length extra) (drop (length talk.messages - 2) s'.messages))
    × (consolidate (record diligent { chat = brief }) false 4 extra (no_memory, talk) ≡ r)
unfolding program
consolidate-missed_example =
    consolidate-missed diligent brief 4 (said "user" "f" ∷ []) no_memory talk refl refl refl

-- The entry is in the history though the consolidation has failed, and nothing is marked.
filed_only :
    consolidate full false 4 [] (no_memory, talk)
    ≡ ((record { memory_file = none; history_file = "talked" ∷ [] }, talk), false)
unfolding program
filed_only = refl

abbrev calls : List Call
calls =
    summarize diligent 4
    ∷ hear (said "user" "f" ∷ said "assistant" "g" ∷ [])
    ∷ restart silent
    ∷ restart diligent
    ∷ hear (said "user" "h" ∷ [])
    ∷ []
