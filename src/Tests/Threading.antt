-- ===== src/Tests/Threading.antt =====
-- Two threads that create, call and end; and the race between naming a thread and what it does.
use dpcpp_trace.Prelude.{
  ℕ, ◌≤◌, ◌<◌, ◌≡◌, refl, ◌↔◌, false, none, some, List, [], ◌∷◌, map, arith, Bytes, length, All,
  codes,
}
use native.Mathlib.Decide.{dec_lt}
use dpcpp_trace.Trace.Api.{ApiCall, Codec, Fits}
use dpcpp_trace.Trace.Stream.{opened}
use dpcpp_trace.Trace.Read.{records, write_frames, parse_trace_file}
use dpcpp_trace.Record.Recorder.{Environment, begin_call}
use dpcpp_trace.Record.Args.{collect_args}
use dpcpp_trace.Record.Calls.{call_of}
use dpcpp_trace.Record.Dispatch.{other}
use dpcpp_trace.Record.Threads.{
  TracePoint, function_with_args_begin, function_with_args_end, other_point, Site, Process,
  thread_file, run_callbacks, deinit,
}
use dpcpp_trace.Record.Points.{calls_of}
use dpcpp_trace.Record.Interleaving.{points_of, Apart, run_callbacks-calls_of}
use dpcpp_trace.Interception.{
  Pthread, ThreadNames, real_pthread_create, child_name, name_thread, pthread_create,
  set_main_thread_name,
}
use dpcpp_trace.Interception.Names.{
  new_process, Created, main_only, create, names_distinct, pthread_create-shares,
}
use dpcpp_trace.RoundTrip.Threads.{named_site, Apart-names, parse_trace_file-threads}
use dpcpp_trace.Tests.Recording.{environment, zeros}
use dpcpp_trace.Tests.Launching.{unary, unary-Decimal}

abbrev glibc_setname : Bytes → Bytes → Bytes
glibc_setname old new = elim (dec_lt (length new) 16) [ yes _ ↦ new | no _ ↦ old ]

glibc_short : (old new : Bytes) → length new < 16 → glibc_setname old new ≡ new
unfolding dec_lt
glibc_short old new h = ground arith

glibc_long : (old new : Bytes) → 16 ≤ length new → glibc_setname old new ≡ old
unfolding dec_lt
glibc_long old new h = ground arith

abbrev glibc : Pthread
glibc = record {
  initial_name = λ creator. creator;
  initial_name_inherited = λ creator. refl;
  setname = glibc_setname;
  setname_short = glibc_short;
  setname_long = glibc_long;
}

-- The main thread with one child and one grandchild.
abbrev family : ThreadNames
family =
    pthread_create glibc unary 1
      (pthread_create glibc unary 0 (set_main_thread_name glibc (new_process (codes "app"))))

family-Created : Created glibc unary family
unfolding pthread_create set_main_thread_name child_name dec_lt
family-Created =
    create (create (main_only (codes "app")) 0 (omega arith) (omega arith) (omega arith)) 1
      (omega arith) (omega arith) (omega arith)

family_names : (family.names 0 ≡ codes "main") × (family.names 2 ≡ codes "main__")
unfolding pthread_create set_main_thread_name dec_lt
family_names = (refl, refl)

names_distinct_example : ◌≡◌ {A = ℕ} 1 1
unfolding pthread_create
names_distinct_example =
    names_distinct glibc unary unary-Decimal family-Created 1 1 (omega arith) (omega arith) refl

pthread_create-shares_example :
    ((pthread_create glibc unary 2 family).names 3 ≡ (pthread_create glibc unary 2 family).names 2)
    ↔ (16 ≤ length (child_name glibc unary 2 family))
unfolding pthread_create set_main_thread_name
pthread_create-shares_example = pthread_create-shares glibc unary 2 family (omega arith)

-- A child that creates a thread before it has its own name: both end up as `main_`.
raced :
    let started =
      real_pthread_create glibc 0 (set_main_thread_name glibc (new_process (codes "app"))) in
    let nested = pthread_create glibc unary 1 started in
    let s = name_thread glibc unary 0 1 nested in s.names 1 ≡ s.names 2
unfolding pthread_create name_thread real_pthread_create set_main_thread_name dec_lt
raced = refl

-- The function, its result and its times, eight bytes each being one here.
abbrev plain_call : ℕ → ℕ → ℕ → ℕ → ApiCall
plain_call f value begin end = record {
  function_id = f;
  time_start = begin;
  time_end = end;
  return_value = value;
  args = [];
  small_outputs = [];
  mem_obj_outputs = [];
}

abbrev parse_plain : Bytes → ApiCall
parse_plain (f ∷ value ∷ begin ∷ end ∷ _) = plain_call f value begin end
parse_plain _ = plain_call 0 0 0 0

abbrev plain_codec : Codec ApiCall
plain_codec = record {
  serialize = λ c. c.function_id ∷ c.return_value ∷ c.time_start ∷ c.time_end ∷ [];
  parse = parse_plain;
}

abbrev plain_environment : Environment
plain_environment = record environment { codec = plain_codec }

-- The child's call stands inside one of the main thread, which then makes another.
abbrev nested_calls : List (ℕ × TracePoint)
nested_calls =
    (0, function_with_args_begin 110)
    ∷ (1, function_with_args_end 111 5 9 zeros 0 (other []))
    ∷ (1, function_with_args_begin 120)
    ∷ (1, other_point)
    ∷ (1, function_with_args_end 130 6 3 zeros 1 (other []))
    ∷ (0, function_with_args_end 140 7 4 zeros 2 (other []))
    ∷ (0, function_with_args_begin 150)
    ∷ (0, function_with_args_end 151 8 5 zeros 0 (other []))
    ∷ []

abbrev family_site : Site
family_site = named_site glibc unary unary-Decimal family-Created plain_environment 100 false

abbrev empty_process : Process
empty_process = record { handlers = λ t. none; trace = λ name. [] }

nested_calls_child :
    calls_of family_site 1 none (points_of 1 nested_calls) ≡ plain_call 3 1 20 30 ∷ []
unfolding calls_of points_of call_of begin_call collect_args
nested_calls_child = refl

fits : (f value begin end : ℕ) → Fits plain_codec (plain_call f value begin end)
fits f value begin end = record { parse-serialize = refl; size_fits = omega arith }

all_created : All (λ (e : ℕ × TracePoint). e.0 < family.count) nested_calls
unfolding pthread_create set_main_thread_name
all_created = omega arith

nested-Apart : Apart family_site 1 nested_calls
unfolding pthread_create set_main_thread_name
nested-Apart =
    Apart-names glibc unary unary-Decimal family-Created plain_environment 100 false 1 nested_calls
      (omega arith) all_created

run_callbacks-calls_of_example :
    (q : Process) × (run_callbacks family_site nested_calls empty_process ≡ some q)
    × ((deinit family_site 0 q).trace (thread_file family_site 1)
        ≡ write_frames plain_codec (calls_of family_site 1 none (points_of 1 nested_calls)))
unfolding pthread_create set_main_thread_name
run_callbacks-calls_of_example =
    run_callbacks-calls_of family_site 1 0 nested_calls empty_process nested-Apart
      (λ e.
        names_distinct glibc unary unary-Decimal family-Created 0 1 (omega arith) (omega arith) e)
      refl

parse_trace_file-threads_example :
    (q : Process) × (run_callbacks family_site nested_calls empty_process ≡ some q)
    × (parse_trace_file plain_codec 7
          (family.names 1)
          (opened ((deinit family_site 0 q).trace (thread_file family_site 1)))
        ≡ records (
            map
              (λ c. (family.names 1, c))
              (calls_of family_site 1 none (points_of 1 nested_calls))))
unfolding pthread_create set_main_thread_name
parse_trace_file-threads_example =
    parse_trace_file-threads glibc unary unary-Decimal family-Created plain_environment 100 false 1
      0 7 nested_calls empty_process (omega arith) (omega arith) all_created refl refl
      (rw nested_calls_child (fits 3 1 20 30, tt))
