-- ===== src/Session/Missed.antt =====
-- Messages that come in while a consolidation of agent/memory.py waits for the model.
use amber_claw.Base.{
  ℕ, ◌+◌, ◌-◌, ◌/◌, ◌<◌, ◌≡◌, refl, sym, ap, ◌∙◌, true, false, String, List, ◌++◌, length, take,
  drop, length-append, length-drop, take-append, take-add, drop-take_swap, arith,
}
use amber_claw.Session.{
  Message, Session, MemoryStore, Model, Reply, append, read_long_term, prompt_messages, arguments,
  archive, old_messages, consolidate,
}
use amber_claw.Session.Archive.{pending, is_due, consolidate-due, archived-done, due-bounds}

module _ (llm : Model) where
  -- The prompt is all that the model's answer goes by.
  consolidate-chat :
      (other : List Message → String → Reply) (window : ℕ) (extra : List Message) (m : MemoryStore)
      (s : Session)
      → other (prompt_messages (old_messages (window / 2) s)) (read_long_term m)
        ≡ llm.chat (prompt_messages (old_messages (window / 2) s)) (read_long_term m)
      → consolidate (record llm { chat = other }) false window extra (m, s)
        ≡ consolidate llm false window extra (m, s)
  unfolding consolidate archive
  consolidate-chat other window extra m s same = rw same refl

  -- If there is something to consolidate when the call starts and it succeeds after `extra` has come in, then
  -- all but the last `window / 2` of the messages that are there at the end are marked as consolidated. Of
  -- these only `old_messages`, which end before the last `window / 2` that were there at the start, have a
  -- part in it: with another model that answers the same to the prompt of those of them with content, the
  -- result is the same. As many more messages as have come in are marked without that.
  pub consolidate-missed :
      (other : List Message → String → Reply) (window : ℕ) (extra : List Message) (m : MemoryStore)
      (s : Session)
      → is_due llm window s ≡ true
      → other (prompt_messages (old_messages (window / 2) s)) (read_long_term m)
        ≡ llm.chat (prompt_messages (old_messages (window / 2) s)) (read_long_term m)
      → (consolidate llm false window extra (m, s)).1 ≡ true
      → let keep = window / 2 in
        let r = consolidate llm false window extra (m, s) in
        let s' = r.0.1 in
        (s'.messages ≡ s.messages ++ extra)
        × (length (pending s') ≡ keep)
        × (take s'.last_consolidated s'.messages
            ≡ (take s.last_consolidated s.messages ++ old_messages keep s)
              ++ take (length extra) (drop (length s.messages - keep) s'.messages))
        × (consolidate (record llm { chat = other }) false window extra (m, s) ≡ r)
  unfolding append archive
  consolidate-missed other window extra m s due same done = (
    ap (λ x. x.messages) after,
    ap (λ x. length (pending x)) after ∙ left,
    ap (λ x. take x.last_consolidated x.messages) after
        ∙ marked
        ∙ ap
            (λ x.
              (take s.last_consolidated s.messages ++ old_messages keep s)
              ++ take (length extra) (drop n x.messages))
            (sym after),
    consolidate-chat other window extra m s same,
  )
    where
      keep : ℕ
      keep = window / 2

      marking : Session
      marking = record (append extra s) { last_consolidated = length (s.messages ++ extra) - keep }

      reached :
          consolidate llm false window extra (m, s)
          ≡ archive llm false keep extra (old_messages keep s) (m, s)
      reached = consolidate-due llm window extra m s ∙ rw due refl

      after : (consolidate llm false window extra (m, s)).0.1 ≡ marking
      after =
          ap (λ r. r.0.1) reached
          ∙ archived-done llm keep extra
              (arguments llm (llm.chat (prompt_messages (old_messages keep s)) (read_long_term m)))
              m s (ap (λ r. r.1) (sym reached) ∙ done)

      n : ℕ
      n = length s.messages - keep

      b :
          (0 < keep)
          × (s.last_consolidated < length s.messages - keep)
          × (old_messages keep s ≡ drop s.last_consolidated (take n s.messages))
      b = due-bounds llm window s due

      mark : length (s.messages ++ extra) - keep ≡ n + length extra
      mark = omega (arith, length-append s.messages extra, b.1)

      sum : n ≡ s.last_consolidated + (n - s.last_consolidated)
      sum = omega (arith, b.1)

      seen : take n s.messages ≡ take s.last_consolidated s.messages ++ old_messages keep s
      seen =
          ap (λ k. take k s.messages) sum
          ∙ take-add s.last_consolidated (n - s.last_consolidated) s.messages
          ∙ ap (λ l. take s.last_consolidated s.messages ++ l)
              (sym (b.2 ∙ drop-take_swap s.last_consolidated n s.messages))

      marked :
          take (length (s.messages ++ extra) - keep) (s.messages ++ extra)
          ≡ (take s.last_consolidated s.messages ++ old_messages keep s)
            ++ take (length extra) (drop n (s.messages ++ extra))
      marked =
          ap (λ k. take k (s.messages ++ extra)) mark
          ∙ take-add n (length extra) (s.messages ++ extra)
          ∙ ap (λ l. l ++ take (length extra) (drop n (s.messages ++ extra)))
              (take-append n s.messages extra (omega arith) ∙ seen)

      left : length (drop (length (s.messages ++ extra) - keep) (s.messages ++ extra)) ≡ keep
      left = omega (
        arith,
        length-drop (length (s.messages ++ extra) - keep) (s.messages ++ extra),
        length-append s.messages extra,
        b.0,
        b.1,
      )
