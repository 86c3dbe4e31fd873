-- ===== src/Bus/Queue.antt =====
-- src/amberclaw/bus/queue.py: the message bus between channels and agents, with bounded local queues, a
-- dead-letter queue and Redis. The three message queues have the same methods, which take the topic
-- here. What Redis does with a publication is an argument; a message is of any type and survives the
-- printing and parsing that Redis needs.
use amber_claw.Base.{
  ℕ, ◌+◌, Bool, true, false, not, ◌&&◌, Option, none, some, List, [], ◌∷◌, ◌++◌, ltb, leb, length,
  if◌then◌else◌,
}
pub mod Order

pub data Topic : Type 0 where
  inbound outbound system_events : Topic

-- `asyncio.Queue.full`: a maximum of 0 is none.
unfoldable pub full {ℓ} : {A : Type ℓ} → ℕ → List A → Bool
full maxsize items = ltb 0 maxsize && leb maxsize (length items)

-- `asyncio.Queue.get` on the items: a wait where there are none.
abbrev pub pop {ℓ} : {A : Type ℓ} → List A → List A × Option A
pop [] = ([], none)
pop (x ∷ xs) = (xs, some x)

-- The reason of a dead letter names the queue that was full.
pub record DeadLetter (M : Type 0) : Type 0 where
  pub item : M
  pub reason : Topic

pub record MessageBus (M : Type 0) : Type 0 where
  pub maxsize : ℕ
  pub inbound_queue : List M
  pub outbound_queue : List M
  pub event_queue : List M
  pub dead_letter_queue : List (DeadLetter M)

module _ {M : Type 0} where
  abbrev pub new_bus : ℕ → MessageBus M
  new_bus maxsize = record {
    maxsize = maxsize;
    inbound_queue = [];
    outbound_queue = [];
    event_queue = [];
    dead_letter_queue = [];
  }

  abbrev pub queue : Topic → MessageBus M → List M
  queue inbound b = b.inbound_queue
  queue outbound b = b.outbound_queue
  queue system_events b = b.event_queue

  abbrev pub with_queue : Topic → List M → MessageBus M → MessageBus M
  with_queue inbound ms b = record b { inbound_queue = ms }
  with_queue outbound ms b = record b { outbound_queue = ms }
  with_queue system_events ms b = record b { event_queue = ms }

  -- `put_nowait` raises on a full queue, and the letter is dropped.
  unfoldable pub push_to_dlq : M → Topic → MessageBus M → MessageBus M
  push_to_dlq m reason b =
      let letter : DeadLetter M = record { item = m; reason = reason } in
      if full b.maxsize b.dead_letter_queue
      then b
      else record b { dead_letter_queue = b.dead_letter_queue ++ letter ∷ [] }

  -- `relayed` is whether there is a Redis client whose publication succeeds.
  unfoldable pub publish : Bool → Topic → M → MessageBus M → MessageBus M
  publish relayed t m b =
      if relayed
      then b
      else if full b.maxsize (queue t b)
      then push_to_dlq m t b
      else with_queue t (queue t b ++ m ∷ []) b

  -- The body of `_redis_listener_loop` for a message of a channel.
  unfoldable pub receive : Bool → Topic → M → MessageBus M → MessageBus M
  receive relayed t m b = publish relayed t m b

  -- `none` is a wait for a message, which changes nothing.
  unfoldable pub consume : Topic → MessageBus M → MessageBus M × Option M
  consume t b = let (ms, m) = pop (queue t b) in (with_queue t ms b, m)

  unfoldable pub consume_dead_letter_queue : MessageBus M → MessageBus M × Option (DeadLetter M)
  consume_dead_letter_queue b =
      let (ls, l) = pop b.dead_letter_queue in (record b { dead_letter_queue = ls }, l)

-- The calls of channels, of agents and of the listener.
pub data Call (M : Type 0) : Type 0 where
  send : Bool → Topic → M → Call M
  hear : Bool → Topic → M → Call M
  take_one : Topic → Call M
  take_letter : Call M

module _ {M : Type 0} where
  unfoldable pub step : Call M → MessageBus M → MessageBus M
  step (send relayed t m) b = publish relayed t m b
  step (hear relayed t m) b = receive relayed t m b
  step (take_one t) b = (consume t b).0
  step take_letter b = (consume_dead_letter_queue b).0

  unfoldable pub run : List (Call M) → MessageBus M → MessageBus M
  run [] b = b
  run (c ∷ cs) b = run cs (step c b)
