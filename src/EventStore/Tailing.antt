-- ===== src/EventStore/Tailing.antt =====
-- The log with all its streams, under every series of calls.
use mathlib.Core.Path.{subst}
use agent_company_factory.Prelude.{
  ltb, leb, ◌==◌, if◌then◌else◌, Bool-cases, length, ℕ, ◌+◌, ◌≤◌, ◌<◌, ◌≡◌, refl, sym, ◌∙◌, inl,
  inr, Bool, true, false, Option, none, some, List, [], ◌∷◌, ◌++◌, arith,
}
use agent_company_factory.Prelude.Action.{Result, ok, err}
use agent_company_factory.EventStore.Store.{
  Event, Stream, EventError, payload_validation_error, payload_too_large, EventStore, enqueue_event,
  deliver_event, broadcast_event, NewEvent, event_of, store_event, append, read,
}
use agent_company_factory.EventStore.Streams.{
  backlog_limit, since_filter, last_of_ids, events_of, open_stream, advance, advance_stream,
  close_stream,
}
use agent_company_factory.EventStore.Order.{
  Ascends, Ascends-append, last_append, read-Ascends, IsTailing, advance-IsTailing,
}
use agent_company_factory.Orchestrator.Model.{Text, at}
use agent_company_factory.Orchestrator.Send.{utf8_length}

-- The calls, with what they draw from outside.
pub data Op : Type 0 where
  appending : NewEvent → Op
  opening : (stream since buffer : ℕ) → Op
  advancing closing : (stream : ℕ) → Op

unfoldable pub apply_op : (ℕ → Text → Option Text) → Op → EventStore → EventStore
unfolding append open_stream advance_stream close_stream
apply_op validated (appending q) s = (append validated q s).1
apply_op validated (opening k since buffer) s = open_stream k since buffer s
apply_op validated (advancing k) s = advance_stream k s
apply_op validated (closing k) s = close_stream k s

unfoldable pub run : (ℕ → Text → Option Text) → List Op → EventStore → EventStore
unfolding apply_op
run validated [] s = s
run validated (op ∷ l) s = run validated l (apply_op validated op s)

abbrev pub AreTailing : (ℕ → Option Stream) → Type 0
AreTailing streams = (k : ℕ) (t : Stream) → streams k ≡ some t → IsTailing t

pub record IsOrdered (s : EventStore) : Type 0 where
  pub rows : Ascends 0 s.rows
  pub last : last_of_ids 0 s.rows ≤ s.last_row
  pub streams : AreTailing s.streams

enqueue-IsTailing : (e : Event) (t : Stream) → IsTailing t → IsTailing (enqueue_event e t)
unfolding enqueue_event
enqueue-IsTailing e t w = elim (Bool-cases (leb t.buffer (length t.queue))) [
  | inl q ↦ rw q (go t.queue)
  | inr q ↦ rw q (record { ascends = w.ascends; before = w.before })
]
  where
    go :
        (l : List Event)
        → IsTailing (elim l [
          | [] ↦ record t { drops = t.drops + 1 }
          | _ ∷ rest ↦ record t { queue = rest ++ e ∷ []; drops = t.drops + 1 }
        ])
    go [] = record { ascends = w.ascends; before = w.before }
    go (x ∷ rest) = record { ascends = w.ascends; before = w.before }

either-IsTailing :
    (b : Bool) (t u : Stream) → IsTailing t → IsTailing u → IsTailing (if b then t else u)
either-IsTailing true t u v w = v
either-IsTailing false t u v w = w

delivered :
    (e : Event) (o : Option Stream) (t : Stream)
    → ((u : Stream) → o ≡ some u → IsTailing u)
    → deliver_event e o ≡ some t
    → IsTailing t
unfolding deliver_event
delivered e none t w h = ground arith
delivered e (some u) t w h =
    let z : (if u.registered then enqueue_event e u else u) ≡ t = ground arith in
    subst IsTailing z (
      either-IsTailing u.registered (enqueue_event e u) u (enqueue-IsTailing e u (w u refl))
        (w u refl))

at_tailing :
    (k : ℕ) (o : Option Stream) (streams : ℕ → Option Stream)
    → ((u : Stream) → o ≡ some u → IsTailing u)
    → AreTailing streams
    → AreTailing (at k o streams)
at_tailing k o streams w v j t h = elim (Bool-cases (j == k)) [
  | inl q ↦ w t (sym (ground (arith, q)) ∙ h)
  | inr q ↦ v j t (sym (ground (arith, q)) ∙ h)
]

store_event-IsOrdered :
    (e : Event) (s : EventStore) → IsOrdered s → s.last_row < e.id → IsOrdered (store_event e s)
unfolding store_event broadcast_event
store_event-IsOrdered e s w h = record {
  rows = Ascends-append 0 s.rows (e ∷ []) w.rows (omega (arith, w.last, h), tt);
  last = omega (arith, last_append 0 s.rows (e ∷ []));
  streams = λ k t q. delivered e (s.streams k) t (w.streams k) q;
}

append-IsOrdered :
    (validated : ℕ → Text → Option Text) (q : NewEvent) (s : EventStore)
    → IsOrdered s
    → IsOrdered (append validated q s).1
unfolding append
append-IsOrdered validated q s w = go (validated q.kind q.payload)
  where
    go :
        (o : Option Text)
        → IsOrdered (
            let out : Result EventError Event × EventStore = elim o [
              | none ↦ (err payload_validation_error, s)
              | some text ↦
                  if ltb s.max_payload_bytes (utf8_length text)
                  then (err payload_too_large, s)
                  else (
                    ok (event_of (s.last_row + 1) text q),
                    store_event (event_of (s.last_row + 1) text q) s,
                  )
            ] in
            out.1)
    go none = w
    go (some text) = elim (Bool-cases (ltb s.max_payload_bytes (utf8_length text))) [
      | inl z ↦ rw z w
      | inr z ↦ rw z (store_event-IsOrdered (event_of (s.last_row + 1) text q) s w (omega arith))
    ]

open_stream-IsOrdered :
    (k since buffer : ℕ) (s : EventStore) → IsOrdered s → IsOrdered (open_stream k since buffer s)
unfolding open_stream
open_stream-IsOrdered k since buffer s w =
    let fresh : Stream = record {
      since = since;
      backlog = events_of (read (since_filter since) backlog_limit s);
      registered = false;
      buffer = buffer;
      queue = [];
      drops = 0;
      last_id = last_of_ids since (events_of (read (since_filter since) backlog_limit s));
      yielded = [];
    } in
    let tailing : IsTailing fresh = record {
      ascends = read-Ascends since s w.rows;
      before = omega arith;
    } in
    record {
      rows = w.rows;
      last = w.last;
      streams =
          at_tailing k (some fresh) s.streams (λ u q. subst IsTailing (ground (arith, q)) tailing)
            w.streams;
    }

advance_stream-IsOrdered : (k : ℕ) (s : EventStore) → IsOrdered s → IsOrdered (advance_stream k s)
unfolding advance_stream
advance_stream-IsOrdered k s w = go (s.streams k) (w.streams k)
  where
    go :
        (o : Option Stream)
        → ((t : Stream) → o ≡ some t → IsTailing t)
        → IsOrdered (elim o [
          | none ↦ s
          | some t ↦ record s { streams = at k (some (advance t)) s.streams }
        ])
    go none v = w
    go (some t) v = record {
      rows = w.rows;
      last = w.last;
      streams =
          at_tailing k (some (advance t)) s.streams
            (λ u q. subst IsTailing (ground (arith, q)) (advance-IsTailing t (v t refl))) w.streams;
    }

close_stream-IsOrdered : (k : ℕ) (s : EventStore) → IsOrdered s → IsOrdered (close_stream k s)
unfolding close_stream
close_stream-IsOrdered k s w = record {
  rows = w.rows;
  last = w.last;
  streams = at_tailing k none s.streams (λ u q. ground (arith, q)) w.streams;
}

apply_op-IsOrdered :
    (validated : ℕ → Text → Option Text) (op : Op) (s : EventStore)
    → IsOrdered s
    → IsOrdered (apply_op validated op s)
unfolding apply_op
apply_op-IsOrdered validated (appending q) s w = append-IsOrdered validated q s w
apply_op-IsOrdered validated (opening k since buffer) s w = open_stream-IsOrdered k since buffer s w
apply_op-IsOrdered validated (advancing k) s w = advance_stream-IsOrdered k s w
apply_op-IsOrdered validated (closing k) s w = close_stream-IsOrdered k s w

-- In every series of appends and of starts, steps and ends of streams, the rows of the log keep
-- ascending keys, and the events that a stream has handed out, with the rest of its backlog, ascend from
-- the key at which it started: none comes twice or out of order.
pub run-IsOrdered :
    (validated : ℕ → Text → Option Text) (ops : List Op) (s : EventStore)
    → IsOrdered s
    → IsOrdered (run validated ops s)
unfolding run
run-IsOrdered validated [] s w = w
run-IsOrdered validated (op ∷ l) s w =
    run-IsOrdered validated l (apply_op validated op s) (apply_op-IsOrdered validated op s w)
