-- ===== src/Tracer/Run.antt =====
-- A run of a traced child: the stops that the tracer sees, and the files that the child opens.
use dpcpp_trace.Prelude.{
  ℕ, suc, ◌*◌, ◌/◌, ◌^◌, ◌≡◌, ◌≢◌, ◌⊎◌, true, false, some, List, [], ◌∷◌, Bytes,
}
use Prim.Native.Nat.{bit_or}
use dpcpp_trace.Tracer.{System, read_string}
use dpcpp_trace.Tracer.Worker.{WaitMacros, is_fatal, Regs, Kernel}

-- The two calls that ask for a file's status, and where its name is.
abbrev pub IsStat : System → Regs → ℕ → ℕ → Type 0
IsStat sys regs call addr =
    ((call ≡ sys.nr_stat) × (addr ≡ regs.rdi)) ⊎ ((call ≡ sys.nr_newfstatat) × (addr ≡ regs.rsi))

module _ (m : WaitMacros) where
  -- A child that has exited, one stopped by a signal that is not fatal, and one stopped at a system call.
  pub record ExitStop (status code : ℕ) : Type 0 where
    pub exit_status : m.wifexited status ≡ true
    pub exit_code : m.wexitstatus status ≡ code

  pub record HarmlessStop (status : ℕ) : Type 0 where
    pub not_exited : m.wifexited status ≡ false
    pub not_signaled : m.wifsignaled status ≡ false
    pub stopped : m.wifstopped status ≡ true
    pub harmless : is_fatal m (m.wstopsig status) ≡ false

  abbrev pub seccomp_mark : ℕ
  seccomp_mark = bit_or m.sigtrap (m.ptrace_event_seccomp * 2 ^ 8)

  module _ {W : Type 0} (sys : System) (k : Kernel W) (rounds : ℕ) where
    -- A run of the child from a state on: the names of the files that it opens, and its exit code. It
    -- may be stopped by signals and at other system calls in between; names are read from the memory.
    pub data Run : W → List Bytes → ℕ → Type 0 where
      exits :
          {w w₁ w₂ : W} {status code : ℕ}
          → k.cont w ≡ some w₁
          → k.waitpid w₁ ≡ (some status, w₂)
          → ExitStop status code
          → Run w [] code
      passes :
          {w w₁ w₂ : W} {status code : ℕ} {names : List Bytes}
          → k.cont w ≡ some w₁
          → k.waitpid w₁ ≡ (some status, w₂)
          → HarmlessStop status
          → status / 2 ^ 8 ≢ seccomp_mark
          → Run w₂ names code
          → Run w names code
      opens :
          {w w₁ w₂ : W} {status code : ℕ} {names : List Bytes} (regs : Regs) (name : Bytes)
          → k.cont w ≡ some w₁
          → k.waitpid w₁ ≡ (some status, w₂)
          → HarmlessStop status
          → status / 2 ^ 8 ≡ seccomp_mark
          → k.get_regs w₂ ≡ some regs
          → k.ptrace.peek_user (8 * sys.orig_rax) w₂ ≡ sys.nr_openat
          → read_string k.ptrace rounds regs.rsi w₂ ≡ some name
          → Run w₂ names code
          → Run w (name ∷ names) code
      stats :
          {w w₁ w₂ : W} {status code : ℕ} {names : List Bytes} (regs : Regs) (addr : ℕ)
          (name : Bytes)
          → k.cont w ≡ some w₁
          → k.waitpid w₁ ≡ (some status, w₂)
          → HarmlessStop status
          → status / 2 ^ 8 ≡ seccomp_mark
          → k.get_regs w₂ ≡ some regs
          → IsStat sys regs (k.ptrace.peek_user (8 * sys.orig_rax) w₂) addr
          → read_string k.ptrace rounds addr w₂ ≡ some name
          → Run w₂ names code
          → Run w names code
      other_call :
          {w w₁ w₂ : W} {status code call : ℕ} {names : List Bytes} (regs : Regs)
          → k.cont w ≡ some w₁
          → k.waitpid w₁ ≡ (some status, w₂)
          → HarmlessStop status
          → status / 2 ^ 8 ≡ seccomp_mark
          → k.get_regs w₂ ≡ some regs
          → k.ptrace.peek_user (8 * sys.orig_rax) w₂ ≡ call
          → call ≢ sys.nr_stat
          → call ≢ sys.nr_newfstatat
          → call ≢ sys.nr_openat
          → Run w₂ names code
          → Run w names code

    -- The stops of a run.
    unfoldable pub count_stops : {w : W} {names : List Bytes} {code : ℕ} → Run w names code → ℕ
    count_stops (exits c p e) = 1
    count_stops (passes c p e n r) = suc (count_stops r)
    count_stops (opens regs name c p e n g a d r) = suc (count_stops r)
    count_stops (stats regs addr name c p e n g a d r) = suc (count_stops r)
    count_stops (other_call regs c p e n g a x y z r) = suc (count_stops r)
