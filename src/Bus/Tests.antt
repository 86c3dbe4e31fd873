-- ===== src/Bus/Tests.antt =====
-- Runs of src/amberclaw/bus, and its theorems at them.
use amber_claw.Base.{ℕ, ◌≡◌, refl, true, false, List, [], ◌∷◌, ◌++◌}
use amber_claw.Bus.Queue.{
  inbound, outbound, Call, send, hear, take_one, new_bus, queue, full, push_to_dlq, publish,
  receive, consume, consume_dead_letter_queue, step, run,
}
use amber_claw.Bus.Queue.Order.{accepted, consumed, queue-run}

program : Unit {0}
unfolding full push_to_dlq publish receive consume consume_dead_letter_queue step run accepted
    consumed
program = tt

-- Two messages fit, two overflow, and one is read.
abbrev calls : List (Call ℕ)
calls =
    send false inbound 1
    ∷ send false inbound 2
    ∷ send false inbound 3
    ∷ send false outbound 4
    ∷ send false inbound 5
    ∷ take_one inbound
    ∷ send false inbound 6
    ∷ []

inbound_left : queue inbound (run calls (new_bus 2)) ≡ 2 ∷ 6 ∷ []
unfolding program
inbound_left = refl

letters_left :
    (run calls (new_bus 2)).dead_letter_queue
    ≡ record { item = 3; reason = inbound } ∷ record { item = 5; reason = inbound } ∷ []
unfolding program
letters_left = refl

queue-run_example :
    consumed inbound calls (new_bus 2) ++ queue inbound (run calls (new_bus 2))
    ≡ queue inbound (new_bus 2) ++ accepted inbound calls (new_bus 2)
queue-run_example = queue-run inbound calls (new_bus 2)

abbrev relayed_calls : List (Call ℕ)
relayed_calls = send true inbound 1 ∷ hear true inbound 1 ∷ hear true inbound 1 ∷ []

-- While Redis takes every publication, what is sent and what is heard from it is in no local queue.
relayed : run relayed_calls (new_bus 2) ≡ new_bus 2
unfolding program
relayed = refl
