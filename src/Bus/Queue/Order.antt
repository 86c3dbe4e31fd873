-- ===== src/Bus/Queue/Order.antt =====
-- The order and the bounds of the local queues of bus/queue.py.
use mathlib.Core.List.{append_assoc, append-nil}
use amber_claw.Base.{
  ◌+◌, ◌≤◌, length, length-append, ◌≡◌, refl, ◌∙◌, ap, sym, inl, inr, Bool, true, false, not, ◌&&◌,
  Option, none, some, List, [], ◌∷◌, ◌++◌, arith, if◌then◌else◌, Bool-cases,
}
use amber_claw.Bus.Queue.{
  Topic, inbound, outbound, system_events, MessageBus, Call, send, hear, take_one, take_letter,
  full, pop, queue, with_queue, push_to_dlq, publish, receive, consume, consume_dead_letter_queue,
  step, run,
}

abbrev pub same_topic : Topic → Topic → Bool
same_topic inbound inbound = true
same_topic outbound outbound = true
same_topic system_events system_events = true
same_topic _ _ = false

same_topic-path : (u t : Topic) → same_topic u t ≡ true → u ≡ t
same_topic-path inbound inbound h = refl
same_topic-path outbound outbound h = refl
same_topic-path system_events system_events h = refl
same_topic-path inbound outbound h = ground arith
same_topic-path inbound system_events h = ground arith
same_topic-path outbound inbound h = ground arith
same_topic-path outbound system_events h = ground arith
same_topic-path system_events inbound h = ground arith
same_topic-path system_events outbound h = ground arith

module _ {M : Type 0} where
  abbrev one : Option M → List M
  one none = []
  one (some m) = m ∷ []

  -- The messages that a call puts into the local queue of a topic.
  abbrev stored : Topic → Bool → Topic → M → MessageBus M → List M
  stored t relayed u m b =
      if same_topic u t && (not relayed && not (full b.maxsize (queue u b))) then m ∷ [] else []

  abbrev put_by : Topic → Call M → MessageBus M → List M
  put_by t (send relayed u m) b = stored t relayed u m b
  put_by t (hear relayed u m) b = stored t relayed u m b
  put_by t (take_one u) b = []
  put_by t take_letter b = []

  -- The messages that a call takes out of the local queue of a topic.
  abbrev taken_by : Topic → Call M → MessageBus M → List M
  taken_by t (take_one u) b = if same_topic u t then one (consume u b).1 else []
  taken_by t _ b = []

  unfoldable pub accepted : Topic → List (Call M) → MessageBus M → List M
  accepted t [] b = []
  accepted t (c ∷ cs) b = put_by t c b ++ accepted t cs (step c b)

  unfoldable pub consumed : Topic → List (Call M) → MessageBus M → List M
  consumed t [] b = []
  consumed t (c ∷ cs) b = taken_by t c b ++ consumed t cs (step c b)

  queue-with_queue :
      (t u : Topic) (ms : List M) (b : MessageBus M)
      → queue t (with_queue u ms b) ≡ (if same_topic u t then ms else queue t b)
  queue-with_queue inbound inbound ms b = refl
  queue-with_queue inbound outbound ms b = refl
  queue-with_queue inbound system_events ms b = refl
  queue-with_queue outbound inbound ms b = refl
  queue-with_queue outbound outbound ms b = refl
  queue-with_queue outbound system_events ms b = refl
  queue-with_queue system_events inbound ms b = refl
  queue-with_queue system_events outbound ms b = refl
  queue-with_queue system_events system_events ms b = refl

  queue-push_to_dlq :
      (t u : Topic) (m : M) (b : MessageBus M) → queue t (push_to_dlq m u b) ≡ queue t b
  unfolding push_to_dlq
  queue-push_to_dlq inbound u m b = ground arith
  queue-push_to_dlq outbound u m b = ground arith
  queue-push_to_dlq system_events u m b = ground arith

  queue-publish :
      (relayed : Bool) (t u : Topic) (m : M) (b : MessageBus M)
      → queue t (publish relayed u m b) ≡ queue t b ++ stored t relayed u m b
  unfolding publish
  queue-publish true t u m b = ground (arith, append-nil (queue t b))
  queue-publish false t u m b = elim (Bool-cases (full b.maxsize (queue u b))) [
    | inl e ↦ rw e (ground (arith, queue-push_to_dlq t u m b, append-nil (queue t b)))
    | inr e ↦ rw e (elim (Bool-cases (same_topic u t)) [
      | inl s ↦ ground (
        arith,
        s,
        queue-with_queue t u (queue u b ++ m ∷ []) b,
        ap (λ x. queue x b ++ m ∷ []) (same_topic-path u t s),
      )
      | inr s ↦
          ground (arith, s, queue-with_queue t u (queue u b ++ m ∷ []) b, append-nil (queue t b))
    ])
  ]

  pop_lem : (ms : List M) → one (pop ms).1 ++ (pop ms).0 ≡ ms
  pop_lem [] = refl
  pop_lem (m ∷ ms) = refl

  queue-consume :
      (t u : Topic) (b : MessageBus M)
      → taken_by t (take_one u) b ++ queue t (consume u b).0 ≡ queue t b
  unfolding consume
  queue-consume t u b = elim (Bool-cases (same_topic u t)) [
    | inl s ↦ ground (
      arith,
      s,
      queue-with_queue t u (pop (queue u b)).0 b,
      pop_lem (queue u b),
      ap (λ x. queue x b) (same_topic-path u t s),
    )
    | inr s ↦ ground (arith, s, queue-with_queue t u (pop (queue u b)).0 b)
  ]

  queue-step :
      (t : Topic) (c : Call M) (b : MessageBus M)
      → taken_by t c b ++ queue t (step c b) ≡ queue t b ++ put_by t c b
  unfolding step receive consume_dead_letter_queue
  queue-step t (send relayed u m) b = queue-publish relayed t u m b
  queue-step t (hear relayed u m) b = queue-publish relayed t u m b
  queue-step t (take_one u) b = queue-consume t u b ∙ sym (append-nil (queue t b))
  queue-step inbound take_letter b = sym (append-nil (queue inbound b))
  queue-step outbound take_letter b = sym (append-nil (queue outbound b))
  queue-step system_events take_letter b = sym (append-nil (queue system_events b))

  -- No accepted message is lost, doubled or overtaken: after any calls, the messages consumed from a
  -- topic's queue, followed by those still in it, are the ones that were in it, followed by those put
  -- into it, in their order.
  pub queue-run :
      (t : Topic) (cs : List (Call M)) (b : MessageBus M)
      → consumed t cs b ++ queue t (run cs b) ≡ queue t b ++ accepted t cs b
  unfolding run consumed accepted
  queue-run t [] b = sym (append-nil (queue t b))
  queue-run t (c ∷ cs) b =
      append_assoc (taken_by t c b) _ _
      ∙ ap (λ ms. taken_by t c b ++ ms) (queue-run t cs (step c b))
      ∙ sym (append_assoc (taken_by t c b) _ _)
      ∙ ap (λ ms. ms ++ accepted t cs (step c b)) (queue-step t c b)
      ∙ append_assoc (queue t b) _ _

  put_by-room :
      (t : Topic) (c : Call M) (b : MessageBus M)
      → 1 ≤ b.maxsize
      → length (queue t b) ≤ b.maxsize
      → length (queue t b) + length (put_by t c b) ≤ b.maxsize
  unfolding full
  put_by-room t (send relayed u m) b big few = elim (Bool-cases (same_topic u t)) [
    | inl s ↦ ground (arith, s, ap (λ x. length (queue x b)) (same_topic-path u t s))
    | inr s ↦ ground (arith, s)
  ]
  put_by-room t (hear relayed u m) b big few = elim (Bool-cases (same_topic u t)) [
    | inl s ↦ ground (arith, s, ap (λ x. length (queue x b)) (same_topic-path u t s))
    | inr s ↦ ground (arith, s)
  ]
  put_by-room t (take_one u) b big few = omega arith
  put_by-room t take_letter b big few = omega arith

  step-maxsize : (c : Call M) (b : MessageBus M) → (step c b).maxsize ≡ b.maxsize
  unfolding step publish receive push_to_dlq consume consume_dead_letter_queue
  step-maxsize (send relayed inbound m) b = ground arith
  step-maxsize (send relayed outbound m) b = ground arith
  step-maxsize (send relayed system_events m) b = ground arith
  step-maxsize (hear relayed inbound m) b = ground arith
  step-maxsize (hear relayed outbound m) b = ground arith
  step-maxsize (hear relayed system_events m) b = ground arith
  step-maxsize (take_one inbound) b = refl
  step-maxsize (take_one outbound) b = refl
  step-maxsize (take_one system_events) b = refl
  step-maxsize take_letter b = refl

  -- With a positive maximum, a local queue that is within it stays within it, whatever is sent, heard
  -- and consumed.
  pub run-maxsize :
      (t : Topic) (cs : List (Call M)) (b : MessageBus M)
      → 1 ≤ b.maxsize
      → length (queue t b) ≤ b.maxsize
      → length (queue t (run cs b)) ≤ b.maxsize
  unfolding run
  run-maxsize t [] b big few = few
  run-maxsize t (c ∷ cs) b big few = omega (
    arith,
    run-maxsize t cs (step c b) (omega (arith, step-maxsize c b)) within,
    step-maxsize c b,
  )
    where
      within : length (queue t (step c b)) ≤ (step c b).maxsize
      within = omega (
        arith,
        put_by-room t c b big few,
        step-maxsize c b,
        ap length (queue-step t c b),
        length-append (taken_by t c b) (queue t (step c b)),
        length-append (queue t b) (put_by t c b),
      )
