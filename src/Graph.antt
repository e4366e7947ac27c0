-- ===== src/Graph.antt =====
-- lib/graph_dump/graph_dump.cpp: the graph of a SYCL program's nodes and edges, event by event.
pub mod Reach
use dpcpp_trace.Prelude.{
  ℕ, Bool, true, false, ◌||◌, Option, none, some, List, [], ◌∷◌, ◌++◌, ◌==◌, if◌then◌else◌, Bytes,
}
use dpcpp_trace.Trace.Api.{Codec}
use dpcpp_trace.Trace.Read.{write_frames}

-- tools/schemas/graph.proto
pub data EventType : Type 0 where
  node edge : EventType

pub record GraphEvent : Type 0 where
  pub type : EventType
  pub id : ℕ
  pub time_create : ℕ
  pub time_start : Option ℕ
  pub time_end : Option ℕ
  pub start_node : Option ℕ
  pub end_node : Option ℕ
  pub metadata : List (Bytes × Bytes)

-- The callback's kinds that are registered.
pub data TraceType : Type 0 where
  node_create edge_create task_begin task_end : TraceType

-- What the framework says of an event: its numbers, and the texts of its metadata.
pub record Event : Type 0 where
  pub unique_id : ℕ
  pub source_id : ℕ
  pub target_id : ℕ
  pub metadata : List (Bytes × Bytes)

-- `GraphGlobalData`: the events in the order in which they were pushed, and the set of their numbers.
pub record GraphData : Type 0 where
  pub graph : List GraphEvent
  pub ids : List ℕ

abbrev pub empty_graph : GraphData
empty_graph = record { graph = []; ids = [] }

-- `ids.count(id) > 0`
unfoldable pub count : ℕ → List ℕ → Bool
count id [] = false
count id (i ∷ ids) = i == id || count id ids

-- `findById` looks from the back, and what is found is changed; `none` is `rend()`.
unfoldable pub update_last :
    ℕ → (GraphEvent → GraphEvent) → List GraphEvent → Option (List GraphEvent)
update_last id f [] = none
update_last id f (e ∷ graph) = elim (update_last id f graph) [
  | some graph' ↦ some (e ∷ graph')
  | none ↦ if e.id == id then some (f e ∷ graph) else none
]

abbrev pub update_or_keep : ℕ → (GraphEvent → GraphEvent) → GraphData → GraphData
update_or_keep id f s = elim (update_last id f s.graph) [
  | none ↦ s
  | some graph ↦ record s { graph = graph }
]

-- The message of an event that is seen for the first time. Its type stays 0, a node, for a `task_end`.
unfoldable pub new_event : TraceType → Event → ℕ → GraphEvent
new_event kind event now =
    let base : GraphEvent = record {
      type = EventType.node;
      id = event.unique_id;
      time_create = now;
      time_start = none;
      time_end = none;
      start_node = none;
      end_node = none;
      metadata = event.metadata;
    } in
    elim kind [
      | TraceType.edge_create ↦ record base {
        type = EventType.edge;
        start_node = some event.source_id;
        end_node = some event.target_id;
      }
      | _ ↦ base
    ]

-- The part behind the tests of the kinds.
unfoldable pub add_event : TraceType → Event → ℕ → GraphData → GraphData
add_event kind event now s = elim (count event.unique_id s.ids) [
  | true ↦ s
  | false ↦ record {
    graph = s.graph ++ new_event kind event now ∷ [];
    ids = event.unique_id ∷ s.ids;
  }
]

-- `tpCallback` under its lock, `now` microseconds from the start. Only `task_begin` returns early.
unfoldable pub tp_callback : TraceType → Event → ℕ → GraphData → GraphData
tp_callback TraceType.task_begin event now s =
    update_or_keep event.unique_id (λ e. record e { time_start = some now }) s
tp_callback TraceType.task_end event now s =
    add_event TraceType.task_end event now
      (update_or_keep event.unique_id (λ e. record e { time_end = some now }) s)
tp_callback kind event now s = add_event kind event now s

-- `dumpGraph`: the bytes of the trace file.
unfoldable pub dump_graph : Codec GraphEvent → GraphData → Bytes
dump_graph codec s = write_frames codec s.graph
