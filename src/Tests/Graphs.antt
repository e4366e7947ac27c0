-- ===== src/Tests/Graphs.antt =====
-- A node is created, and its task begins and ends.
use dpcpp_trace.Prelude.{[], arith}
use dpcpp_trace.Graph.{TraceType, Event, GraphData, empty_graph, tp_callback}
use dpcpp_trace.Graph.Reach.{start, next, WellFormed, Reach-WellFormed}

abbrev five : Event
five = record { unique_id = 5; source_id = 0; target_id = 0; metadata = [] }

abbrev after_begin : GraphData
after_begin =
    tp_callback TraceType.task_begin five 7 (tp_callback TraceType.node_create five 3 empty_graph)

Reach-WellFormed_example : WellFormed 9 (tp_callback TraceType.task_end five 9 after_begin)
Reach-WellFormed_example = Reach-WellFormed 9 (tp_callback TraceType.task_end five 9 after_begin) (
    next TraceType.task_end five 9
      (next TraceType.task_begin five 7 (next TraceType.node_create five 3 start (omega arith))
        (omega arith))
      (omega arith))
