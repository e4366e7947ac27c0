-- ===== src/Graph/Reach.antt =====
-- What holds of the graph after any events, in any order.
use dpcpp_trace.Prelude.{
  ℕ, ◌≤◌, ◌≡◌, refl, sym, ap, ◌∙◌, inl, inr, false, Option, none, some, List, [], ◌∷◌, ◌++◌, arith,
  ◌==◌, Bool-cases, Option-cases, All, All-append,
}
use dpcpp_trace.Graph.{
  GraphEvent, TraceType, Event, GraphData, empty_graph, count, update_last, update_or_keep,
  new_event, add_event, tp_callback,
}

-- The numbers of the events, the latest first; and that none stands twice.
abbrev pub ids_of : List GraphEvent → List ℕ
ids_of [] = []
ids_of (e ∷ es) = ids_of es ++ e.id ∷ []

ids_of-append : (es : List GraphEvent) (e : GraphEvent) → ids_of (es ++ e ∷ []) ≡ e.id ∷ ids_of es
ids_of-append [] e = refl
ids_of-append (d ∷ es) e = ap (λ ids. ids ++ d.id ∷ []) (ids_of-append es e)

abbrev pub NoDup : List ℕ → Type 0
NoDup [] = Unit {0}
NoDup (i ∷ ids) = (count i ids ≡ false) × NoDup ids

-- The times of an event lie behind its creation and not in the future.
abbrev pub IsAfter : ℕ → ℕ → Option ℕ → Type 0
IsAfter create now none = Unit {0}
IsAfter create now (some t) = (create ≤ t) × (t ≤ now)

abbrev pub IsTimed : ℕ → GraphEvent → Type 0
IsTimed now e =
    (e.time_create ≤ now)
    × IsAfter e.time_create now e.time_start
    × IsAfter e.time_create now e.time_end

pub record WellFormed (now : ℕ) (s : GraphData) : Type 0 where
  pub same_ids : s.ids ≡ ids_of s.graph
  pub distinct : NoDup s.ids
  pub timed : All (IsTimed now) s.graph

pub data Reach : ℕ → GraphData → Type 0 where
  start : Reach 0 empty_graph
  next :
      {now : ℕ} {s : GraphData} (kind : TraceType) (event : Event) (later : ℕ)
      → Reach now s
      → now ≤ later
      → Reach later (tp_callback kind event later s)

IsAfter-later :
    (create now later : ℕ) (o : Option ℕ)
    → now ≤ later
    → IsAfter create now o
    → IsAfter create later o
IsAfter-later create now later none h t = tt
IsAfter-later create now later (some x) h t = (t.0, omega arith)

later-IsTimed : (now later : ℕ) (e : GraphEvent) → now ≤ later → IsTimed now e → IsTimed later e
later-IsTimed now later e h (c, s, t) = (
  omega arith,
  IsAfter-later e.time_create now later e.time_start h s,
  IsAfter-later e.time_create now later e.time_end h t,
)

all_later :
    (now later : ℕ) (es : List GraphEvent)
    → now ≤ later
    → All (IsTimed now) es
    → All (IsTimed later) es
all_later now later [] h t = tt
all_later now later (e ∷ es) h (t, ts) =
    (later-IsTimed now later e h t, all_later now later es h ts)

-- A change that keeps an event's number and its times in order.
record Keeps (now : ℕ) (f : GraphEvent → GraphEvent) : Type 0 where
  same_id : (e : GraphEvent) → (f e).id ≡ e.id
  keeps_timed : (e : GraphEvent) → IsTimed now e → IsTimed now (f e)

-- What is left after a change, if the event was there.
abbrev Updated : ℕ → List GraphEvent → Option (List GraphEvent) → Type 0
Updated now es none = Unit {0}
Updated now es (some es') =
    (ids_of es' ≡ ids_of es) × (All (IsTimed now) es → All (IsTimed now) es')

update_last-Updated :
    (now id : ℕ) (f : GraphEvent → GraphEvent) (es : List GraphEvent)
    → Keeps now f
    → Updated now es (update_last id f es)
unfolding update_last
update_last-Updated now id f [] k = tt
update_last-Updated now id f (e ∷ es) k = elim (Option-cases (update_last id f es)) [
  | inl missing ↦ elim (Bool-cases (e.id == id)) [
    | inl here ↦
        rw (update_last, missing, here)
          (ap (λ i. ids_of es ++ i ∷ []) (k.same_id e), λ t. (k.keeps_timed e t.0, t.1))
    | inr other ↦ rw (update_last, missing, other) tt
  ]
  | inr (es', found) ↦
      let ih : Updated now es (some es') = rw found at (update_last-Updated now id f es k) in
      rw (update_last, found) (ap (λ ids. ids ++ e.id ∷ []) ih.0, λ t. (t.0, ih.1 t.1))
]

update_or_keep-WellFormed :
    (now id : ℕ) (f : GraphEvent → GraphEvent) (s : GraphData)
    → Keeps now f
    → WellFormed now s
    → WellFormed now (update_or_keep id f s)
update_or_keep-WellFormed now id f s k w = elim (Option-cases (update_last id f s.graph)) [
  | inl missing ↦ rw (update_or_keep, missing) w
  | inr (graph, found) ↦
      let u : Updated now s.graph (some graph) =
        rw found at (update_last-Updated now id f s.graph k) in
      rw (update_or_keep, found)
        (record { same_ids = w.same_ids ∙ sym u.0; distinct = w.distinct; timed = u.1 w.timed })
]

new_event-IsTimed :
    (kind : TraceType) (event : Event) (now : ℕ) → IsTimed now (new_event kind event now)
unfolding new_event
new_event-IsTimed TraceType.node_create event now = (omega arith, tt, tt)
new_event-IsTimed TraceType.edge_create event now = (omega arith, tt, tt)
new_event-IsTimed TraceType.task_begin event now = (omega arith, tt, tt)
new_event-IsTimed TraceType.task_end event now = (omega arith, tt, tt)

id-new_event :
    (kind : TraceType) (event : Event) (now : ℕ) → (new_event kind event now).id ≡ event.unique_id
unfolding new_event
id-new_event TraceType.node_create event now = refl
id-new_event TraceType.edge_create event now = refl
id-new_event TraceType.task_begin event now = refl
id-new_event TraceType.task_end event now = refl

add_event-WellFormed :
    (kind : TraceType) (event : Event) (now : ℕ) (s : GraphData)
    → WellFormed now s
    → WellFormed now (add_event kind event now s)
unfolding add_event
add_event-WellFormed kind event now s w = elim (Bool-cases (count event.unique_id s.ids)) [
  | inl seen ↦ rw (add_event, seen) w
  | inr new ↦
      let e : GraphEvent = new_event kind event now in
      rw (add_event, new)
        (record {
          same_ids = sym (
              ids_of-append s.graph e
              ∙ ap (λ i. i ∷ ids_of s.graph) (id-new_event kind event now)
              ∙ ap (λ ids. event.unique_id ∷ ids) (sym w.same_ids));
          distinct = (new, w.distinct);
          timed =
              All-append (IsTimed now) s.graph (e ∷ []) w.timed
                (new_event-IsTimed kind event now, tt);
        })
]

Keeps-start : (now : ℕ) → Keeps now (λ e. record e { time_start = some now })
Keeps-start now = record {
  same_id = λ e. refl;
  keeps_timed = λ e t. (t.0, (t.0, omega arith), t.2);
}

Keeps-end : (now : ℕ) → Keeps now (λ e. record e { time_end = some now })
Keeps-end now = record { same_id = λ e. refl; keeps_timed = λ e t. (t.0, t.1, (t.0, omega arith)) }

tp_callback-WellFormed :
    (kind : TraceType) (event : Event) (now : ℕ) (s : GraphData)
    → WellFormed now s
    → WellFormed now (tp_callback kind event now s)
unfolding tp_callback
tp_callback-WellFormed TraceType.task_begin event now s w =
    update_or_keep-WellFormed now event.unique_id _ s (Keeps-start now) w
tp_callback-WellFormed TraceType.task_end event now s w =
    add_event-WellFormed TraceType.task_end event now _
      (update_or_keep-WellFormed now event.unique_id _ s (Keeps-end now) w)
tp_callback-WellFormed TraceType.node_create event now s w =
    add_event-WellFormed TraceType.node_create event now s w
tp_callback-WellFormed TraceType.edge_create event now s w =
    add_event-WellFormed TraceType.edge_create event now s w

-- Whatever calls the framework makes, of whatever kind and in whatever order, if their clock readings
-- do not run backwards in the order in which they take the lock: the set of numbers is that of the
-- events in the graph, no number stands twice, and an event's start and end, where it has them, lie
-- between its creation and the latest reading.
pub Reach-WellFormed : (now : ℕ) (s : GraphData) → Reach now s → WellFormed now s
Reach-WellFormed now s start = record { same_ids = refl; distinct = tt; timed = tt }
Reach-WellFormed now s (next kind event later r h) =
    let w = Reach-WellFormed _ _ r in
    tp_callback-WellFormed kind event later _ (record {
      same_ids = w.same_ids;
      distinct = w.distinct;
      timed = all_later _ later _ h w.timed;
    })
