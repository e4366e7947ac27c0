-- ===== src/Tracer/Launch.antt =====
-- lib/utils/Tracer.cpp: the start of a traced child, and the filter that stops it at its calls.
use dpcpp_trace.Prelude.{
  ℕ, ◌≡◌, Bool, true, false, not, Option, none, some, List, [], ◌∷◌, ◌++◌, map, ◌==◌, if◌then◌else◌,
  Bytes, drop, codes,
}
use dpcpp_trace.Tracer.{System}
use dpcpp_trace.Tracer.Worker.{
  success, signal, fail, exited, WaitMacros, wait, Kernel, Handlers, ended, threw, running, worker,
}

-- `SECCOMP_RET_…`, and the statements and jumps that the filter uses.
pub data Verdict : Type 0 where
  ret_trace ret_allow : Verdict

pub data SockFilter : Type 0 where
  load_nr : SockFilter
  jump_eq : ℕ → ℕ → ℕ → SockFilter
  ret : Verdict → SockFilter

-- The kernel's machine for such programs, from a program and what the accumulator holds, for the call
-- of a number: a load replaces the accumulator, a jump skips by its outcome, a return ends.
pub record Bpf : Type 0 where
  pub execute : ℕ → List SockFilter → ℕ → Verdict
  pub execute_load : (nr a : ℕ) (p : List SockFilter) → execute nr (load_nr ∷ p) a ≡ execute nr p nr
  pub execute_jump :
      (nr a k yes_by no_by : ℕ) (p : List SockFilter)
      → execute nr (jump_eq k yes_by no_by ∷ p) a
        ≡ execute nr (drop (if a == k then yes_by else no_by) p) a
  pub execute_ret : (nr a : ℕ) (v : Verdict) (p : List SockFilter) → execute nr (ret v ∷ p) a ≡ v

-- What the child does before it runs the program, and what it may end in.
pub data ChildAction : Type 0 where
  ptrace_traceme : ChildAction
  set_no_new_privs : ChildAction
  set_seccomp : List SockFilter → ChildAction
  raise_sigstop : ChildAction
  run_child : ChildAction
  exit_zero : ChildAction
  throw_errno : ChildAction

module _ (sys : System) where
  unfoldable pub filter : List SockFilter
  filter =
      load_nr
      ∷ jump_eq sys.nr_newfstatat 0 1
      ∷ ret ret_trace
      ∷ jump_eq sys.nr_openat 0 1
      ∷ ret ret_trace
      ∷ jump_eq sys.nr_stat 0 1
      ∷ ret ret_trace
      ∷ ret ret_allow
      ∷ []

  -- `traceMe`, by whether the two `prctl` succeed; the flag says whether it returns.
  unfoldable pub trace_me : Bool → Bool → List ChildAction × Bool
  unfolding filter
  trace_me privs seccomp =
      if not privs
      then (ptrace_traceme ∷ set_no_new_privs ∷ throw_errno ∷ [], false)
      else if not seccomp
      then (ptrace_traceme ∷ set_no_new_privs ∷ set_seccomp filter ∷ throw_errno ∷ [], false)
      else (ptrace_traceme ∷ set_no_new_privs ∷ set_seccomp filter ∷ raise_sigstop ∷ [], true)

  -- The child's side of `fork`.
  unfoldable pub fork_child : Bool → Bool → List ChildAction
  unfolding trace_me
  fork_child privs seccomp =
      let (actions, returns) = trace_me privs seccomp in
      actions ++ (if returns then run_child ∷ exit_zero ∷ [] else [])

-- The arguments and the environment as `execve` takes them: `none` is the null pointer at the end.
unfoldable pub exec_vector : List Bytes → List (Option Bytes)
exec_vector texts = map some texts ++ none ∷ []

-- The tracer: `mExitCode`, and the process that `mWorker` serves once it is set.
pub record NativeTracer (W : Type 0) : Type 0 where
  pub exit_code : ℕ
  pub traced : Option W

-- How the parent's side of `fork` ends.
pub data Forked (W : Type 0) : Type 0 where
  forked : NativeTracer W → Forked W
  wait_failed : Forked W
  exited_immediately : Forked W
  option_failed : Forked W

module _ {W : Type 0} (m : WaitMacros) (k : Kernel W) (set_options : W → Option W) where
  -- The parent waits for the child's stop, and asks to be told of the filter's.
  unfoldable pub fork_parent : NativeTracer W → W → Forked W
  fork_parent t w =
      let stop = k.waitpid w in
      elim (wait m stop.0).type [
        | fail ↦ wait_failed
        | signal ↦ exited_immediately
        | exited ↦ exited_immediately
        | success ↦ elim (set_options stop.1) [
          | none ↦ option_failed
          | some w' ↦ forked (record t { traced = some w' })
        ]
      ]

-- How `start` ends: with the tracer and the handlers' state, by an exception, or not within the bound.
pub data Started (S W : Type 0) : Type 0 where
  started : NativeTracer W → S → Started S W
  start_threw : Started S W
  still_running : Started S W

module _ {S W : Type 0} (sys : System) (m : WaitMacros) (k : Kernel W) (h : Handlers S) (rounds : ℕ)
    (junk : Bytes) where
  -- `start` runs the worker in the caller's thread; without one it does nothing.
  unfoldable pub start_worker : ℕ → NativeTracer W → S → Started S W
  start_worker stops t s = elim t.traced [
    | none ↦ started t s
    | some w ↦ elim (worker sys m k h rounds junk stops s w) [
      | ended code s' w' ↦ started (record { exit_code = code; traced = some w' }) s'
      | threw ↦ start_threw
      | running ↦ still_running
    ]
  ]

-- `wait`
unfoldable pub wait_code : {W : Type 0} → NativeTracer W → ℕ
wait_code t = t.exit_code

-- `onFileOpen`, `onStat`, and the handlers of a tracer that was given none.
unfoldable pub set_on_file_open :
    {S : Type 0} → (Bytes → S → S × List Bytes) → Handlers S → Handlers S
set_on_file_open handler h = record h { on_file_open = handler }

unfoldable pub set_on_stat : {S : Type 0} → (Bytes → S → S × List Bytes) → Handlers S → Handlers S
set_on_stat handler h = record h { on_stat = handler }

unfoldable pub default_handlers : {S : Type 0} → Handlers S
default_handlers = record { on_stat = λ name s. (s, []); on_file_open = λ name s. (s, []) }

-- What the child of `launch` runs: `execve` either does not return, or gives -1 and the child exits
-- with it; the text is what `strerror` says.
pub data Executed : Type 0 where
  replaced : Bytes → List (Option Bytes) → List (Option Bytes) → Executed
  exec_failed : Bytes → ℕ → Executed

unfoldable pub run_executable : Option Bytes → Bytes → List Bytes → List Bytes → Executed
unfolding exec_vector
run_executable none executable args env = replaced executable (exec_vector args) (exec_vector env)
run_executable (some error) executable args env =
    exec_failed (codes "Unexpected error while running executable: " ++ error) 255
