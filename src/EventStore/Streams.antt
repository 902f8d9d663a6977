-- ===== src/EventStore/Streams.antt =====
-- `stream` of modules/event_store/store.py as a machine: it reads its backlog when it starts, hands it out,
-- registers only then, and goes on with what its queue receives.
use agent_company_factory.Prelude.{
  leb, if◌then◌else◌, ℕ, true, false, Option, none, some, List, [], ◌∷◌, ◌++◌,
}
use agent_company_factory.Prelude.Action.{Result, ok, err}
use agent_company_factory.EventStore.Store.{Event, Stream, EventError, EventStore, Filter, read}
use agent_company_factory.Orchestrator.Model.{at}

abbrev pub backlog_limit : ℕ
backlog_limit = 10000

abbrev pub since_filter : ℕ → Filter
since_filter since = record {
  since = some since;
  until = none;
  kinds = [];
  actor = none;
  correlation = none;
}

-- The identifier of the last event of a list, or `n`.
abbrev pub last_of_ids : ℕ → List Event → ℕ
last_of_ids n [] = n
last_of_ids n (e ∷ l) = last_of_ids e.id l

abbrev pub events_of : Result EventError (List Event) → List Event
events_of (ok l) = l
events_of (err _) = []

-- The start of a stream.
unfoldable pub open_stream : ℕ → ℕ → ℕ → EventStore → EventStore
unfolding read
open_stream k since buffer s =
    let backlog = events_of (read (since_filter since) backlog_limit s) in
    record s {
      streams =
          at k
            (some (record {
              since = since;
              backlog = backlog;
              registered = false;
              buffer = buffer;
              queue = [];
              drops = 0;
              last_id = last_of_ids since backlog;
              yielded = [];
            }))
            s.streams;
    }

-- The events of the queue that are new, as far as the first of them.
unfoldable pub next_new : ℕ → List Event → Option (Event × List Event)
next_new last [] = none
next_new last (e ∷ l) = let later = next_new last l in if leb e.id last then later else some (e, l)

-- The next event that the consumer gets, if one is there.
unfoldable pub advance : Stream → Stream
unfolding next_new
advance t = elim t.backlog [
  | e ∷ rest ↦ record t { backlog = rest; yielded = t.yielded ++ e ∷ [] }
  | [] ↦ elim (next_new t.last_id t.queue) [
    | none ↦ record t { backlog = []; registered = true; queue = [] }
    | some (e, rest) ↦ record t {
      backlog = [];
      registered = true;
      queue = rest;
      last_id = e.id;
      yielded = t.yielded ++ e ∷ [];
    }
  ]
]

unfoldable pub advance_stream : ℕ → EventStore → EventStore
unfolding advance
advance_stream k s = elim (s.streams k) [
  | none ↦ s
  | some t ↦ record s { streams = at k (some (advance t)) s.streams }
]

-- The `finally` of a stream that is closed.
unfoldable pub close_stream : ℕ → EventStore → EventStore
close_stream k s = record s { streams = at k none s.streams }
