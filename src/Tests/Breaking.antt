-- ===== src/Tests/Breaking.antt =====
-- Breakpoints of a small process, casts, and the filter on a small machine.
use dpcpp_trace.Prelude.{
  ℕ, zero, suc, ◌+◌, ◌≡◌, refl, ◌⊎◌, Bool, true, false, not, none, some, List, [], ◌∷◌, arith, ltb,
  ◌==◌, if◌then◌else◌, drop,
}
use dpcpp_trace.HostDebugger.{StateType, LldbReason, Lldb}
use dpcpp_trace.HostDebugger.Breakpoints.{
  Breakpoints, breakpoint_at, create_software_breakpoint, remove_software_breakpoint,
}
use dpcpp_trace.HostDebugger.Live.{
  BreakpointLaws, has_id, Session, begun, create, remove, live-has_id,
}
use dpcpp_trace.HostDebugger.Cast.{RttiHierarchy, dyn_cast, IsA, dyn_cast-IsA}
use dpcpp_trace.Tracer.Launch.{Verdict, ret_allow, SockFilter, load_nr, jump_eq, ret, Bpf}

-- Ids are given in order, and `gone` tells which ones were removed.
record World : Type 0 where
  next_id : ℕ
  gone : ℕ → Bool

abbrev is_live : ℕ → World → Bool
is_live id w = if ltb id w.next_id then not (w.gone id) else false

abbrev created : World → World
created w = record {
  next_id = w.next_id + 1;
  gone = λ i. if i == w.next_id then false else w.gone i;
}

abbrev lldb : Lldb World
lldb = record {
  find_thread_by_id = λ id w. none;
  get_thread_at_index = λ index w. none;
  get_size = λ w. 0;
  get_id = λ thread w. 0;
  register_infos = λ thread. [];
  read_register_value = λ thread num w. none;
  write_register_value = λ thread num value w. w;
  get_state = λ w. StateType.other_state;
  get_reason = λ thread w. LldbReason.reason_none;
  get_value = λ thread w. 0;
  try_lock = λ w. true;
  read_process_memory = λ addr len w. none;
  write_process_memory = λ addr bytes w. w;
  create_breakpoint = λ addr w. if addr == 0 then (none, w) else (some w.next_id, created w);
  remove_breakpoint_by_id = λ id w. record w { gone = λ i. if i == id then true else w.gone i };
  wait_for_process_to_stop = λ w. (StateType.other_state, w);
  set_selected_thread_by_id = λ id w. w;
  resume_synchronous = λ w. (true, w);
  set_resume_signal = λ thread signal w. w;
  queue_step = λ thread w. (true, w);
  arch_name = λ w. [];
}

lldb_created_new :
    (a id : ℕ) (w : World) → (lldb.create_breakpoint a w).0 ≡ some id → is_live id w ≡ false
lldb_created_new a id w h = ground arith

lldb_created_live :
    (a id : ℕ) (w : World)
    → (lldb.create_breakpoint a w).0 ≡ some id
    → (other : ℕ)
    → is_live other (lldb.create_breakpoint a w).1 ≡ (if other == id then true else is_live other w)
lldb_created_live a id w h other = ground arith

lldb_not_created :
    (a : ℕ) (w : World)
    → (lldb.create_breakpoint a w).0 ≡ none
    → (other : ℕ) → is_live other (lldb.create_breakpoint a w).1 ≡ is_live other w
lldb_not_created a w h other = ground arith

lldb_removed :
    (id : ℕ) (w : World) (other : ℕ)
    → is_live other (lldb.remove_breakpoint_by_id id w)
      ≡ (if other == id then false else is_live other w)
lldb_removed id w other = ground arith

abbrev lldb_laws : BreakpointLaws lldb
lldb_laws = record {
  live = is_live;
  created_new = lldb_created_new;
  created_live = lldb_created_live;
  not_created = lldb_not_created;
  removed = lldb_removed;
}

abbrev fresh_world : World
fresh_world = record { next_id = 1; gone = λ i. true }

none_live : (id : ℕ) → is_live id fresh_world ≡ false
none_live id = ground arith

abbrev one_set : Breakpoints World
one_set = create_software_breakpoint lldb 64 (record { breakpoints = []; world = fresh_world })

one_set-Session : Session lldb lldb_laws one_set
unfolding breakpoint_at
one_set-Session = create 64 (begun fresh_world none_live) refl

live-has_id_example :
    is_live 1 (remove_software_breakpoint lldb 64 one_set).world
    ≡ has_id 1 (remove_software_breakpoint lldb 64 one_set).breakpoints
live-has_id_example = live-has_id lldb lldb_laws (remove 64 one_set-Session) 1

dyn_cast-IsA_example :
    ((dyn_cast RttiHierarchy.tracer RttiHierarchy.host_debugger ≡ some RttiHierarchy.tracer)
      × IsA RttiHierarchy.host_debugger RttiHierarchy.tracer)
    ⊎ ((dyn_cast RttiHierarchy.tracer RttiHierarchy.host_debugger ≡ none)
        × (¬ IsA RttiHierarchy.host_debugger RttiHierarchy.tracer))
dyn_cast-IsA_example = dyn_cast-IsA RttiHierarchy.tracer RttiHierarchy.host_debugger

-- What each end of a program does with an accumulator, the whole program first.
pub get_or_allow : ℕ → List (ℕ → Verdict) → ℕ → Verdict
get_or_allow i [] a = ret_allow
get_or_allow zero (f ∷ fs) a = f a
get_or_allow (suc i) (f ∷ fs) a = get_or_allow i fs a

pub behave : ℕ → SockFilter → List (ℕ → Verdict) → ℕ → Verdict
behave nr load_nr rest a = get_or_allow 0 rest nr
behave nr (jump_eq k t f) rest a = get_or_allow (if a == k then t else f) rest a
behave nr (ret v) rest a = v

pub behaviours : ℕ → List SockFilter → List (ℕ → Verdict)
behaviours nr [] = []
behaviours nr (x ∷ p) = let rest = behaviours nr p in behave nr x rest ∷ rest

get_or_allow-drop :
    (nr n : ℕ) (p : List SockFilter) (a : ℕ)
    → get_or_allow n (behaviours nr p) a ≡ get_or_allow 0 (behaviours nr (drop n p)) a
unfolding get_or_allow behaviours
get_or_allow-drop nr zero p a = refl
get_or_allow-drop nr (suc n) [] a = refl
get_or_allow-drop nr (suc n) (x ∷ p) a = get_or_allow-drop nr n p a

pub machine_jump :
    (nr a k yes_by no_by : ℕ) (p : List SockFilter)
    → get_or_allow 0 (behaviours nr (jump_eq k yes_by no_by ∷ p)) a
      ≡ get_or_allow 0 (behaviours nr (drop (if a == k then yes_by else no_by) p)) a
unfolding get_or_allow behaviours behave
machine_jump nr a k yes_by no_by p = get_or_allow-drop nr (if a == k then yes_by else no_by) p a

pub machine_load :
    (nr a : ℕ) (p : List SockFilter)
    → get_or_allow 0 (behaviours nr (load_nr ∷ p)) a ≡ get_or_allow 0 (behaviours nr p) nr
unfolding get_or_allow behaviours behave
machine_load nr a p = refl

pub machine_ret :
    (nr a : ℕ) (v : Verdict) (p : List SockFilter)
    → get_or_allow 0 (behaviours nr (ret v ∷ p)) a ≡ v
unfolding get_or_allow behaviours behave
machine_ret nr a v p = refl

abbrev pub machine : Bpf
machine = record {
  execute = λ nr p a. get_or_allow 0 (behaviours nr p) a;
  execute_load = machine_load;
  execute_jump = machine_jump;
  execute_ret = machine_ret;
}
