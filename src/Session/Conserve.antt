-- ===== src/Session/Conserve.antt =====
-- Where the messages of a conversation go that agent/memory.py consolidates and `/new` clears.
use amber_claw.Base.{ℕ, ◌/◌, ◌≡◌, false, if◌then◌else◌, List, [], ◌∷◌, ◌++◌}
use amber_claw.Base.Json
use amber_claw.Session.Archive.{IsWithin, pending}
use amber_claw.Session.{
  Message, Session, MemoryStore, Model, append, given, prompt_messages, old_messages, consolidate,
  start_new,
}

-- What happens to a conversation while no consolidation runs in the background: messages are appended, a
-- consolidation runs with the window, `/new` is called; each time with the model's answers of that time.
pub data Call : Type 0 where
  hear : List Message → Call
  summarize : Model → ℕ → Call
  restart : Model → Call

abbrev pub step : Call → MemoryStore × Session → MemoryStore × Session
step (hear ms) (m, s) = (m, append ms s)
step (summarize llm window) st = (consolidate llm false window [] st).0
step (restart llm) st = (start_new llm st).0

abbrev pub run : List Call → MemoryStore × Session → MemoryStore × Session
run [] st = st
run (c ∷ cs) st = run cs (step c st)

abbrev pub heard : List Call → List Message
heard [] = []
heard (hear ms ∷ cs) = ms ++ heard cs
heard (summarize llm window ∷ cs) = heard cs
heard (restart llm ∷ cs) = heard cs

-- The messages that a consolidation, or `/new`, that succeeds takes from those that wait.
abbrev pub taken : Call → MemoryStore × Session → List Message
taken (hear ms) st = []
taken (summarize llm window) (m, s) =
    if (consolidate llm false window [] (m, s)).1 then old_messages (window / 2) s else []
taken (restart llm) (m, s) = if (start_new llm (m, s)).1 then pending s else []

abbrev pub taken_all : List Call → MemoryStore × Session → List Message
taken_all [] st = []
taken_all (c ∷ cs) st = taken c st ++ taken_all cs (step c st)

-- Those of them that stand in its prompt.
abbrev pub prompted_all : List Call → MemoryStore × Session → List Message
prompted_all [] st = []
prompted_all (c ∷ cs) st = prompt_messages (taken c st) ++ prompted_all cs (step c st)

abbrev Keeps : List Message → MemoryStore × Session → List Message → MemoryStore × Session → Type 0
Keeps given st out st' = (pending st.1 ++ given ≡ out ++ pending st'.1) × IsWithin st'.1
