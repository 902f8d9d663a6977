-- ===== src/EventStore/Tests.antt =====
-- A log that is empty at first.
use agent_company_factory.Prelude.{ℕ, ◌≡◌, refl, Option, none, some, List, [], ◌∷◌, map, arith}
use agent_company_factory.EventStore.Store.{
  Event, Stream, EventStore, enqueue_event, deliver_event, broadcast_event, NewEvent, store_event,
  append, matches, read,
}
use agent_company_factory.EventStore.Streams.{open_stream, next_new, advance, advance_stream}
use agent_company_factory.EventStore.Tailing.{
  Op, appending, opening, advancing, apply_op, run, IsOrdered, run-IsOrdered,
}

abbrev empty_log : EventStore
empty_log = record {
  rows = [];
  last_row = 0;
  max_payload_bytes = 100;
  subscribers = [];
  notified = [];
  streams = λ _. none;
}

empty_log-IsOrdered : IsOrdered empty_log
empty_log-IsOrdered = record { rows = tt; last = omega arith; streams = λ k t h. ground (arith, h) }

abbrev note_of : ℕ → NewEvent
note_of n = record {
  kind = n;
  payload = 120 ∷ [];
  actor = none;
  correlation = none;
  ts_company = n;
  ts_real = n;
}

-- The second event comes while the stream is still handing out its backlog.
abbrev calls : List Op
calls =
    appending (note_of 1)
    ∷ opening 0 0 5
    ∷ advancing 0
    ∷ appending (note_of 2)
    ∷ advancing 0
    ∷ appending (note_of 3)
    ∷ advancing 0
    ∷ []

run-IsOrdered_example : IsOrdered (run (λ _ text. some text) calls empty_log)
run-IsOrdered_example = run-IsOrdered (λ _ text. some text) calls empty_log empty_log-IsOrdered

abbrev keys_of : Option Stream → List ℕ
keys_of none = []
keys_of (some t) = map (λ (e : Event). e.id) t.yielded

-- The stream hands out the first and the third.
second_missing : keys_of ((run (λ _ text. some text) calls empty_log).streams 0) ≡ 1 ∷ 3 ∷ []
unfolding run apply_op append store_event broadcast_event deliver_event enqueue_event open_stream
    read matches advance_stream advance next_new
second_missing = refl
