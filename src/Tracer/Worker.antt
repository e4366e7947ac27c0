-- ===== src/Tracer/Worker.antt =====
-- lib/utils/Tracer.cpp: what a stop of the child means, and the loop that serves its system calls.
use dpcpp_trace.Prelude.{
  ℕ, zero, suc, ◌*◌, ◌/◌, ◌^◌, Bool, true, false, ◌||◌, Option, none, some, List, [], ◌∷◌, ◌==◌,
  if◌then◌else◌, Bytes,
}
use Prim.Native.Nat.{bit_or}
use dpcpp_trace.Tracer.{
  Ptrace, System, Written, written, failed, pending, read_string, write_string,
}

pub data ResultType : Type 0 where
  success signal fail exited : ResultType

pub record WaitResult : Type 0 where
  pub type : ResultType
  pub code : ℕ
  pub status : ℕ

-- The macros that take a status apart, and the numbers of signals.
pub record WaitMacros : Type 0 where
  pub wifexited : ℕ → Bool
  pub wexitstatus : ℕ → ℕ
  pub wifsignaled : ℕ → Bool
  pub wtermsig : ℕ → ℕ
  pub wifstopped : ℕ → Bool
  pub wstopsig : ℕ → ℕ
  pub wifcontinued : ℕ → Bool
  pub sigterm : ℕ
  pub sigsegv : ℕ
  pub sigint : ℕ
  pub sigill : ℕ
  pub sigabrt : ℕ
  pub sigfpe : ℕ
  pub sigtrap : ℕ
  pub ptrace_event_seccomp : ℕ

module _ (m : WaitMacros) where
  abbrev pub is_fatal : ℕ → Bool
  is_fatal sig =
      sig == m.sigterm
      || sig == m.sigsegv
      || sig == m.sigint
      || sig == m.sigill
      || sig == m.sigabrt
      || sig == m.sigfpe

  -- `wait`: what `waitpid` gives, `none` for -1, as a result.
  unfoldable pub wait : Option ℕ → WaitResult
  wait none = record { type = fail; code = 0; status = 0 }
  wait (some status) =
      if m.wifexited status
      then record { type = exited; code = m.wexitstatus status; status = status }
      else if m.wifsignaled status
      then record { type = signal; code = m.wtermsig status; status = status }
      else if m.wifstopped status
      then record {
        type = if is_fatal (m.wstopsig status) then signal else success;
        code = m.wstopsig status;
        status = status;
      }
      else if m.wifcontinued status
      then record { type = success; code = 0; status = status }
      else record { type = fail; code = 0; status = status }

  unfoldable pub is_seccomp : WaitResult → Bool
  is_seccomp r = r.status / 2 ^ 8 == bit_or m.sigtrap (m.ptrace_event_seccomp * 2 ^ 8)

pub record Regs : Type 0 where
  pub rdi : ℕ
  pub rsi : ℕ

-- What else the kernel does: it lets the child run on, reports its next stop, and shows its registers.
pub record Kernel (W : Type 0) : Type 0 where
  pub ptrace : Ptrace W
  pub cont : W → Option W
  pub waitpid : W → Option ℕ × W
  pub get_regs : W → Option Regs

-- The handlers, with what they keep in `S`: from the name of a file, the new state and the files that
-- `replaceFilename` is called with, in order.
pub record Handlers (S : Type 0) : Type 0 where
  pub on_stat : Bytes → S → S × List Bytes
  pub on_file_open : Bytes → S → S × List Bytes

-- How a call is served; `unread` is no result of the program: the bound on the rounds was met.
pub data Served (S W : Type 0) : Type 0 where
  handled : S → W → Served S W
  thrown : Served S W
  unread : Served S W

-- How the worker ends; `running` is no result of the program.
pub data Ending (S W : Type 0) : Type 0 where
  ended : ℕ → S → W → Ending S W
  threw : Ending S W
  running : Ending S W

module _ {S W : Type 0} (sys : System) (m : WaitMacros) (k : Kernel W) (h : Handlers S) where
  module _ (rounds : ℕ) (junk : Bytes) where
    -- The calls of `replaceFilename` for one register.
    unfoldable pub replace_all : ℕ → List Bytes → W → Written W
    replace_all reg [] w = written w
    replace_all reg (file ∷ files) w = elim (write_string k.ptrace sys junk reg file w) [
      | written w' ↦ replace_all reg files w'
      | failed ↦ failed
      | pending ↦ pending
    ]

    -- One case of the switch: the file's name is read, and its handler called.
    unfoldable pub file_call : ℕ → ℕ → (Bytes → S → S × List Bytes) → S → W → Served S W
    file_call reg addr handler s w = elim (read_string k.ptrace rounds addr w) [
      | none ↦ unread
      | some filename ↦
          let result = handler filename s in
          elim (replace_all reg result.1 w) [
            | written w' ↦ handled result.0 w'
            | failed ↦ thrown
            | pending ↦ unread
          ]
    ]

    unfoldable pub handle_call : ℕ → Regs → S → W → Served S W
    handle_call call regs s w =
        if call == sys.nr_stat
        then file_call (8 * sys.rdi) regs.rdi h.on_stat s w
        else if call == sys.nr_newfstatat
        then file_call (8 * sys.rsi) regs.rsi h.on_stat s w
        else if call == sys.nr_openat
        then file_call (8 * sys.rsi) regs.rsi h.on_file_open s w
        else handled s w

    unfoldable pub serve_call : S → W → Served S W
    serve_call s w = elim (k.get_regs w) [
      | none ↦ thrown
      | some regs ↦ handle_call (k.ptrace.peek_user (8 * sys.orig_rax) w) regs s w
    ]

    -- `mWorker`, with a bound on the stops.
    unfoldable pub worker : ℕ → S → W → Ending S W
    worker zero s w = running
    worker (suc stops) s w = elim (k.cont w) [
      | none ↦ threw
      | some w₁ ↦
          let stop = k.waitpid w₁ in
          let res = wait m stop.0 in
          elim res.type [
            | fail ↦ threw
            | signal ↦ ended res.code s stop.1
            | exited ↦ ended res.code s stop.1
            | success ↦ elim (is_seccomp m res) [
              | false ↦ worker stops s stop.1
              | true ↦ elim (serve_call s stop.1) [
                | handled s' w' ↦ worker stops s' w'
                | thrown ↦ threw
                | unread ↦ running
              ]
            ]
          ]
    ]
