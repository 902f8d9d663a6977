-- ===== src/EventStore/Order.antt =====
-- What a stream hands out comes in the order of the log.
use mathlib.Core.Path.{subst}
use agent_company_factory.Prelude.{
  Bool-cases, select, ℕ, zero, suc, ◌≤◌, ◌<◌, ◌≡◌, refl, sym, ap, inl, inr, Bool, true, Option,
  none, some, List, [], ◌∷◌, ◌++◌, arith,
}
use agent_company_factory.EventStore.Store.{Event, Stream, EventStore, matches, first_of, read}
use agent_company_factory.EventStore.Streams.{
  backlog_limit, since_filter, last_of_ids, events_of, next_new, advance,
}

-- Every identifier is above the one before it, and the first above `n`.
abbrev pub Ascends : ℕ → List Event → Type 0
Ascends n [] = Unit
Ascends n (e ∷ l) = (n < e.id) × Ascends e.id l

Ascends-weaken : (n m : ℕ) (l : List Event) → m ≤ n → Ascends n l → Ascends m l
Ascends-weaken n m [] h w = tt
Ascends-weaken n m (e ∷ l) h w = (omega (arith, w.0), w.1)

pub Ascends-append :
    (n : ℕ) (a b : List Event) → Ascends n a → Ascends (last_of_ids n a) b → Ascends n (a ++ b)
Ascends-append n [] b v w = w
Ascends-append n (e ∷ a) b v w = (v.0, Ascends-append e.id a b v.1 w)

pub last_append :
    (n : ℕ) (a b : List Event) → last_of_ids n (a ++ b) ≡ last_of_ids (last_of_ids n a) b
last_append n [] b = refl
last_append n (e ∷ a) b = last_append e.id a b

append_assoc : (a : List Event) (e : Event) (b : List Event) → (a ++ e ∷ []) ++ b ≡ a ++ e ∷ b
append_assoc [] e b = refl
append_assoc (x ∷ a) e b = ap (λ (l : List Event). x ∷ l) (append_assoc a e b)

Ascends-select : (p : Event → Bool) (n : ℕ) (l : List Event) → Ascends n l → Ascends n (select p l)
Ascends-select p n [] w = tt
Ascends-select p n (e ∷ l) w = elim (Bool-cases (p e)) [
  | inl q ↦ rw q (w.0, Ascends-select p e.id l w.1)
  | inr q ↦
      rw q (Ascends-weaken e.id n (select p l) (omega (arith, w.0)) (Ascends-select p e.id l w.1))
]

-- A selection of rows above `since` ascends from `since`.
Ascends-since :
    (p : Event → Bool) (since n : ℕ) (l : List Event)
    → ((e : Event) → p e ≡ true → since < e.id)
    → Ascends n l
    → Ascends since (select p l)
Ascends-since p since n [] h w = tt
Ascends-since p since n (e ∷ l) h w = elim (Bool-cases (p e)) [
  | inl q ↦ rw q (h e q, Ascends-select p e.id l w.1)
  | inr q ↦ rw q (Ascends-since p since e.id l h w.1)
]

Ascends-first : (k n : ℕ) (l : List Event) → Ascends n l → Ascends n (first_of k l)
Ascends-first zero n l w = tt
Ascends-first (suc k) n [] w = tt
Ascends-first (suc k) n (e ∷ l) w = (w.0, Ascends-first k e.id l w.1)

above_since : (since : ℕ) (e : Event) → matches (since_filter since) e ≡ true → since < e.id
unfolding matches
above_since since e h = ground arith

pub read-Ascends :
    (since : ℕ) (s : EventStore)
    → Ascends 0 s.rows
    → Ascends since (events_of (read (since_filter since) backlog_limit s))
unfolding read
read-Ascends since s w =
    Ascends-first backlog_limit since (select (matches (since_filter since)) s.rows)
      (Ascends-since (matches (since_filter since)) since 0 s.rows (above_since since) w)

-- What was handed out and what is left of the backlog ascend, and end before what is still to come.
pub record IsTailing (t : Stream) : Type 0 where
  pub ascends : Ascends t.since (t.yielded ++ t.backlog)
  pub before : last_of_ids t.since (t.yielded ++ t.backlog) ≤ t.last_id

next_above :
    (last : ℕ) (l rest : List Event) (e : Event) → next_new last l ≡ some (e, rest) → last < e.id
unfolding next_new
next_above last [] rest e h = ground arith
next_above last (x ∷ l) rest e h = ground (arith, next_above last l rest e)

pub append_nil : (l : List Event) → l ++ [] ≡ l
append_nil [] = refl
append_nil (x ∷ l) = ap (λ (y : List Event). x ∷ y) (append_nil l)

pub advance-IsTailing : (t : Stream) → IsTailing t → IsTailing (advance t)
unfolding advance
advance-IsTailing t w = go t.backlog w.ascends w.before
  where
    from_queue :
        (o : Option (Event × List Event))
        → next_new t.last_id t.queue ≡ o
        → Ascends t.since (t.yielded ++ [])
        → last_of_ids t.since (t.yielded ++ []) ≤ t.last_id
        → IsTailing (elim o [
          | none ↦ record t { backlog = []; registered = true; queue = [] }
          | some (e, rest) ↦ record t {
            backlog = [];
            registered = true;
            queue = rest;
            last_id = e.id;
            yielded = t.yielded ++ e ∷ [];
          }
        ])
    from_queue none q a b = record { ascends = a; before = b }
    from_queue (some (e, rest)) q a b =
        let later = next_above t.last_id t.queue rest e q in
        let y = subst (λ l. Ascends t.since l) (append_nil t.yielded) a in
        let z = subst (λ l. last_of_ids t.since l ≤ t.last_id) (append_nil t.yielded) b in
        record {
          ascends =
              subst (λ l. Ascends t.since l) (sym (append_nil (t.yielded ++ e ∷ [])))
                (Ascends-append t.since t.yielded (e ∷ []) y (omega (arith, z, later), tt));
          before =
              subst (λ l. last_of_ids t.since l ≤ e.id) (sym (append_nil (t.yielded ++ e ∷ [])))
                (omega (arith, last_append t.since t.yielded (e ∷ [])));
        }

    go :
        (l : List Event)
        → Ascends t.since (t.yielded ++ l)
        → last_of_ids t.since (t.yielded ++ l) ≤ t.last_id
        → IsTailing (elim l [
          | e ∷ rest ↦ record t { backlog = rest; yielded = t.yielded ++ e ∷ [] }
          | [] ↦ elim (next_new t.last_id t.queue) [
            | none ↦ record t { backlog = []; registered = true; queue = [] }
            | some (e, rest) ↦ record t {
              backlog = [];
              registered = true;
              queue = rest;
              last_id = e.id;
              yielded = t.yielded ++ e ∷ [];
            }
          ]
        ])
    go (e ∷ rest) a b = record {
      ascends = subst (λ l. Ascends t.since l) (sym (append_assoc t.yielded e rest)) a;
      before =
          subst (λ l. last_of_ids t.since l ≤ t.last_id) (sym (append_assoc t.yielded e rest)) b;
    }
    go [] a b = from_queue (next_new t.last_id t.queue) refl a b
