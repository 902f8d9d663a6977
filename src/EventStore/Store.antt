-- ===== src/EventStore/Store.antt =====
-- `append`, `read`, `subscribe` and `unsubscribe` of modules/event_store/store.py. A kind is a number; the
-- check of a payload by its model is a parameter.
use agent_company_factory.Prelude.{
  ltb, leb, ◌==◌, if◌then◌else◌, is_id, length, select, exists, ℕ, zero, suc, ◌+◌, Bool, true, not,
  ◌&&◌, Option, none, some, List, [], ◌∷◌, ◌++◌, map,
}
use agent_company_factory.Prelude.Action.{Result, ok, err, Action}
use agent_company_factory.Orchestrator.Model.{Text}
use agent_company_factory.Orchestrator.Send.{utf8_length}

pub record Event : Type 0 where
  pub id : ℕ
  pub kind : ℕ
  pub payload : Text
  pub actor : Option ℕ
  pub correlation : Option ℕ
  pub ts_company : ℕ
  pub ts_real : ℕ

-- A call of `stream` with its `_StreamSubscription`: what is left of the backlog, whether the
-- subscription is registered, its queue with the events dropped, the last identifier, and what the
-- consumer has been given.
pub record Stream : Type 0 where
  pub since : ℕ
  pub backlog : List Event
  pub registered : Bool
  pub buffer : ℕ
  pub queue : List Event
  pub drops : ℕ
  pub last_id : ℕ
  pub yielded : List Event

pub data EventError : Type 0 where
  payload_validation_error payload_too_large limit_not_positive : EventError

-- The table with its last key, the subscribers with what they were called with, and the streams.
pub record EventStore : Type 0 where
  pub rows : List Event
  pub last_row : ℕ
  pub max_payload_bytes : ℕ
  pub subscribers : List ℕ
  pub notified : List (ℕ × Event)
  pub streams : ℕ → Option Stream

-- `_StreamSubscription._enqueue`: a full queue drops its oldest event.
unfoldable pub enqueue_event : Event → Stream → Stream
enqueue_event e t =
    if leb t.buffer (length t.queue)
    then (elim t.queue [
      | [] ↦ record t { drops = t.drops + 1 }
      | _ ∷ rest ↦ record t { queue = rest ++ e ∷ []; drops = t.drops + 1 }
    ])
    else record t { queue = t.queue ++ e ∷ [] }

-- What a stream sees of a new event.
unfoldable pub deliver_event : Event → Option Stream → Option Stream
unfolding enqueue_event
deliver_event e none = none
deliver_event e (some t) = some (if t.registered then enqueue_event e t else t)

-- `_broadcast`
unfoldable pub broadcast_event : Event → EventStore → EventStore
unfolding deliver_event
broadcast_event e s = record s {
  notified = s.notified ++ map (λ c. (c, e)) s.subscribers;
  streams = λ k. deliver_event e (s.streams k);
}

pub record NewEvent : Type 0 where
  pub kind : ℕ
  pub payload : Text
  pub actor : Option ℕ
  pub correlation : Option ℕ
  pub ts_company : ℕ
  pub ts_real : ℕ

abbrev pub event_of : ℕ → Text → NewEvent → Event
event_of k text q = record {
  id = k;
  kind = q.kind;
  payload = text;
  actor = q.actor;
  correlation = q.correlation;
  ts_company = q.ts_company;
  ts_real = q.ts_real;
}

-- The INSERT and the broadcast.
unfoldable pub store_event : Event → EventStore → EventStore
unfolding broadcast_event
store_event e s = broadcast_event e (record s { rows = s.rows ++ e ∷ []; last_row = e.id })

-- `EventStore.append`; `validated` is the text of the checked payload, if it passes.
unfoldable pub append : (ℕ → Text → Option Text) → NewEvent → Action EventStore EventError Event
unfolding store_event
append validated q s = elim (validated q.kind q.payload) [
  | none ↦ (err payload_validation_error, s)
  | some text ↦
      if ltb s.max_payload_bytes (utf8_length text)
      then (err payload_too_large, s)
      else (ok (event_of (s.last_row + 1) text q), store_event (event_of (s.last_row + 1) text q) s)
]

-- The filters of `read`; no kinds at all stand for every kind.
pub record Filter : Type 0 where
  pub since : Option ℕ
  pub until : Option ℕ
  pub kinds : List ℕ
  pub actor : Option ℕ
  pub correlation : Option ℕ

abbrev pub equals_if_given : Option ℕ → Option ℕ → Bool
equals_if_given none _ = true
equals_if_given (some k) o = is_id o k

unfoldable pub matches : Filter → Event → Bool
matches f e =
    (elim f.since [ none ↦ true | some n ↦ ltb n e.id ])
    && (elim f.until [ none ↦ true | some n ↦ leb e.id n ])
    && (elim f.kinds [ [] ↦ true | k ∷ more ↦ exists (λ j. j == e.kind) (k ∷ more) ])
    && equals_if_given f.actor e.actor
    && equals_if_given f.correlation e.correlation

abbrev pub first_of : ℕ → List Event → List Event
first_of zero l = []
first_of (suc n) [] = []
first_of (suc n) (e ∷ l) = e ∷ first_of n l

-- `EventStore.read`; the rows stand in the order of their keys.
unfoldable pub read : Filter → ℕ → EventStore → Result EventError (List Event)
unfolding matches
read f limit s =
    if limit == 0 then err limit_not_positive else ok (first_of limit (select (matches f) s.rows))

-- `EventStore.subscribe`
unfoldable pub subscribe : ℕ → EventStore → EventStore
subscribe fresh s = record s { subscribers = s.subscribers ++ fresh ∷ [] }

-- `EventStore.unsubscribe`
unfoldable pub unsubscribe : ℕ → EventStore → EventStore
unsubscribe k s = record s { subscribers = select (λ j. not (j == k)) s.subscribers }
