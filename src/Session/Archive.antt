-- ===== src/Session/Archive.antt =====
-- One consolidation of agent/memory.py: what it gives to the model, what it marks, and when it fails.
use amber_claw.Base.{
  ℕ, ◌-◌, ◌/◌, ◌≤◌, ◌<◌, ◌≡◌, refl, Bool, true, false, not, ◌||◌, Option, none, some, leb,
  if◌then◌else◌, List, [], length, take, drop, length-take, length-drop, Bool-cases, inl, inr,
  arith,
}
use amber_claw.Base.Json
use amber_claw.Base.Json.{Members}
use amber_claw.Session.{
  Message, Session, MemoryStore, Model, append, read_long_term, given, note_history, note_memory,
  concluded, archived, archive, but_last, old_messages, consolidate,
}

-- What is consolidated is there.
abbrev pub IsWithin : Session → Type 0
IsWithin s = s.last_consolidated ≤ length s.messages

abbrev pub pending : Session → List Message
pending s = drop s.last_consolidated s.messages

-- Whether a consolidation that waits for the model has anything to do, and what it does.
module _ (llm : Model) where
  abbrev pub is_due : ℕ → Session → Bool
  is_due window s = not (leb (length (old_messages (window / 2) s)) 0)

  old_messages_none :
      (keep : ℕ) (s : Session)
      → leb (length s.messages) keep || leb (length s.messages - s.last_consolidated) 0 ≡ true
      → length (old_messages keep s) ≤ 0
  unfolding but_last
  old_messages_none keep s h = elim (Bool-cases (leb keep 0)) [
    | inl e ↦ rw e (omega (arith, length-drop s.last_consolidated nothing))
    | inr e ↦ rw e (
        ground (
          arith,
          h,
          length-drop s.last_consolidated (take (length s.messages - keep) s.messages),
          length-take (length s.messages - keep) s.messages (omega arith),
        ))
  ]
    where
      nothing : List Message
      nothing = []

  pub consolidate-due :
      (window : ℕ) (extra : List Message) (m : MemoryStore) (s : Session)
      → consolidate llm false window extra (m, s) ≡ (
          if is_due window s
          then archive llm false (window / 2) extra (old_messages (window / 2) s) (m, s)
          else ((m, s), true))
  unfolding consolidate
  consolidate-due window extra m s =
      elim (Bool-cases
        (leb (length s.messages) (window / 2) || leb (length s.messages - s.last_consolidated) 0)) [
          | inl e ↦ ground (arith, e, old_messages_none (window / 2) s e)
          | inr e ↦ ground (arith, e)
        ]

  concluded-done :
      (noted kept : Bool) (m m' : MemoryStore) (s s' : Session)
      → (concluded noted kept m m' s s').1 ≡ true
      → (concluded noted kept m m' s s').0.1 ≡ s'
  concluded-done false kept m m' s s' done = ground (arith, done)
  concluded-done true false m m' s s' done = ground (arith, done)
  concluded-done true true m m' s s' done = refl

  pub archived-done :
      (keep : ℕ) (extra : List Message) (o : Option Members) (m : MemoryStore) (s : Session)
      → let ((m', s'), done) = archived llm false keep extra o (m, s) in
        done ≡ true
        → s'
          ≡ record (append extra s) { last_consolidated = length (append extra s).messages - keep }
  archived-done keep extra none m s done = ground (arith, done)
  archived-done keep extra (some args) m s done =
      let noted = note_history llm (given (Json.find "history_entry" args)) m in
      let kept =
        note_memory llm (read_long_term m) (given (Json.find "memory_update" args)) noted.0 in
      concluded-done noted.1 kept.1 noted.0 kept.0 (append extra s) _ done

  -- The places of the messages of a consolidation that is due.
  pub due-bounds :
      (window : ℕ) (s : Session)
      → is_due window s ≡ true
      → (0 < window / 2)
        × (s.last_consolidated < length s.messages - window / 2)
        × (old_messages (window / 2) s
            ≡ drop s.last_consolidated (take (length s.messages - window / 2) s.messages))
  unfolding but_last
  due-bounds window s due = elim (Bool-cases (leb (window / 2) 0)) [
    | inl e ↦ absurd (no_room e)
    | inr e ↦ (ground (arith, e), room e, rw e refl)
  ]
    where
      keep : ℕ
      keep = window / 2

      cut : List Message
      cut = take (length s.messages - keep) s.messages

      cut-length : length cut ≡ length s.messages - keep
      cut-length = length-take (length s.messages - keep) s.messages (omega arith)

      nothing : List Message
      nothing = []

      no_room : leb keep 0 ≡ true → ⊥
      no_room e = ground (arith, e, length-drop s.last_consolidated nothing, (rw e at due))

      room : leb keep 0 ≡ false → s.last_consolidated < length s.messages - keep
      room e = ground (arith, length-drop s.last_consolidated cut, cut-length, (rw e at due))
