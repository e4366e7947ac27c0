-- ===== src/Tracer/Files.antt =====
-- src/record.cpp and the tracer: the files that a child opens, as `record` lists them.
use dpcpp_trace.Prelude.{
  ℕ, suc, ◌+◌, ◌*◌, ◌/◌, ◌^◌, ◌≡◌, refl, ap, ◌∙◌, ◌≢◌, inl, inr, some, List, [], ◌∷◌, ◌++◌,
  append-nil, append_assoc, arith, Bytes,
}
use dpcpp_trace.Tracer.{System, read_string}
use dpcpp_trace.Tracer.Worker.{
  success, exited, WaitMacros, wait, is_seccomp, Regs, Kernel, Handlers, handled, replace_all,
  file_call, handle_call, serve_call, Ending, ended, worker,
}
use dpcpp_trace.Tracer.Redirect.{Distinct, handle_call-FileCall}
use dpcpp_trace.Tracer.Run.{
  IsStat, ExitStop, HarmlessStop, seccomp_mark, Run, exits, passes, opens, stats, other_call,
  count_stops,
}

one-add : (n : ℕ) → 1 + n ≡ suc n
one-add n = omega arith

suc-add : (a b : ℕ) → suc a + b ≡ suc (a + b)
suc-add a b = omega arith

-- The handlers of `record`: an opened file is added to `files`; the default handler of `stat` does nothing.
abbrev pub record_handlers : Handlers (List Bytes)
record_handlers = record {
  on_stat = λ file_name files. (files, []);
  on_file_open = λ file_name files. (files ++ file_name ∷ [], []);
}

module _ (m : WaitMacros) where
  exit_lem :
      (status code : ℕ)
      → ExitStop m status code
      → wait m (some status) ≡ record { type = exited; code = code; status = status }
  unfolding wait
  exit_lem status code e = ground arith

  pub harmless_lem :
      (status : ℕ)
      → HarmlessStop m status
      → wait m (some status) ≡ record { type = success; code = m.wstopsig status; status = status }
  unfolding wait
  harmless_lem status e = ground arith

  module _ {W : Type 0} (sys : System) (k : Kernel W) (rounds : ℕ) where
    module _ (junk : Bytes) where
      abbrev work : ℕ → List Bytes → W → Ending (List Bytes) W
      work = worker sys m k record_handlers rounds junk

      pass_stop :
          (n : ℕ) (files : List Bytes) (w w₁ w₂ : W) (status : ℕ)
          → k.cont w ≡ some w₁
          → k.waitpid w₁ ≡ (some status, w₂)
          → HarmlessStop m status
          → status / 2 ^ 8 ≢ seccomp_mark m
          → work (suc n) files w ≡ work n files w₂
      unfolding worker is_seccomp
      pass_stop n files w w₁ w₂ status c p e ne = ground (arith, harmless_lem status e)

      pass_call :
          (n : ℕ) (files files' : List Bytes) (w w₁ w₂ : W) (status : ℕ)
          → k.cont w ≡ some w₁
          → k.waitpid w₁ ≡ (some status, w₂)
          → HarmlessStop m status
          → status / 2 ^ 8 ≡ seccomp_mark m
          → serve_call sys m k record_handlers rounds junk files w₂ ≡ handled files' w₂
          → work (suc n) files w ≡ work n files' w₂
      unfolding worker is_seccomp
      pass_call n files files' w w₁ w₂ status c p e eq s = ground (arith, harmless_lem status e)

      open_call :
          (regs : Regs) (name : Bytes) (files : List Bytes) (w : W)
          → Distinct sys
          → k.get_regs w ≡ some regs
          → k.ptrace.peek_user (8 * sys.orig_rax) w ≡ sys.nr_openat
          → read_string k.ptrace rounds regs.rsi w ≡ some name
          → serve_call sys m k record_handlers rounds junk files w ≡ handled (files ++ name ∷ []) w
      unfolding serve_call file_call replace_all
      open_call regs name files w d got call named =
          rw
            (
              serve_call,
              got,
              call,
              handle_call-FileCall sys k record_handlers rounds junk m regs sys.nr_openat
                  (8 * sys.rsi) regs.rsi record_handlers.on_file_open files w d
                  (inr (inr (refl, refl, refl, refl))),
              file_call,
              named,
            )
            refl

      stat_call :
          (regs : Regs) (addr : ℕ) (name : Bytes) (files : List Bytes) (w : W)
          → Distinct sys
          → k.get_regs w ≡ some regs
          → IsStat sys regs (k.ptrace.peek_user (8 * sys.orig_rax) w) addr
          → read_string k.ptrace rounds addr w ≡ some name
          → serve_call sys m k record_handlers rounds junk files w ≡ handled files w
      unfolding serve_call file_call replace_all
      stat_call regs addr name files w d got (inl (call, place)) named =
          rw
            (
              serve_call,
              got,
              call,
              handle_call-FileCall sys k record_handlers rounds junk m regs sys.nr_stat
                  (8 * sys.rdi) addr record_handlers.on_stat files w d
                  (inl (refl, refl, place, refl)),
              file_call,
              named,
            )
            refl
      stat_call regs addr name files w d got (inr (call, place)) named =
          rw
            (
              serve_call,
              got,
              call,
              handle_call-FileCall sys k record_handlers rounds junk m regs sys.nr_newfstatat
                  (8 * sys.rsi) addr record_handlers.on_stat files w d
                  (inr (inl (refl, refl, place, refl))),
              file_call,
              named,
            )
            refl

      unknown_call :
          (regs : Regs) (call : ℕ) (files : List Bytes) (w : W)
          → k.get_regs w ≡ some regs
          → k.ptrace.peek_user (8 * sys.orig_rax) w ≡ call
          → call ≢ sys.nr_stat
          → call ≢ sys.nr_newfstatat
          → call ≢ sys.nr_openat
          → serve_call sys m k record_handlers rounds junk files w ≡ handled files w
      unfolding serve_call handle_call
      unknown_call regs call files w got same x y z =
          rw (serve_call, got, same, handle_call) (ground arith)

      last_stop :
          (n : ℕ) (files : List Bytes) (w w₁ w₂ : W) (status code : ℕ)
          → k.cont w ≡ some w₁
          → k.waitpid w₁ ≡ (some status, w₂)
          → ExitStop m status code
          → work (suc n) files w ≡ ended code files w₂
      unfolding worker
      last_stop n files w w₁ w₂ status code c p e = ground (arith, exit_lem status code e)

      -- However the child runs until it exits, stopped by signals that are not fatal and at system
      -- calls whose file names can be read within the bound: the worker of `record` ends after as
      -- many stops as the run has, with the child's exit code, and the names of the files opened, in
      -- order and with repetitions, are added to those that were listed. The numbers of the three
      -- system calls that name files differ.
      pub worker_files :
          {w : W} {names : List Bytes} {code : ℕ} (files : List Bytes) (more : ℕ)
          (run : Run m sys k rounds w names code)
          → Distinct sys
          → (w' : W) × (worker sys m k record_handlers rounds junk
                (count_stops m sys k rounds run + more)
                files
                w
              ≡ ended code (files ++ names) w')
      unfolding count_stops
      worker_files files more (exits {w₂} c p e) d =
          (w₂, rw (one-add more, append-nil files) (last_stop more files _ _ _ _ _ c p e))
      worker_files files more (passes c p e ne r) d =
          let (w', done) = worker_files files more r d in
          (
            w',
            rw (suc-add (count_stops m sys k rounds r) more)
                (pass_stop (count_stops m sys k rounds r + more) files _ _ _ _ c p e ne ∙ done),
          )
      worker_files files more (opens {code} {names} regs name c p e eq got call named r) d =
          let (w', done) = worker_files (files ++ name ∷ []) more r d in
          (
            w',
            rw (suc-add (count_stops m sys k rounds r) more) (
                pass_call (count_stops m sys k rounds r + more) files _ _ _ _ _ c p e eq
                  (open_call regs name files _ d got call named)
                ∙ done
                ∙ ap (λ l. ended code l w') (append_assoc files (name ∷ []) names)),
          )
      worker_files files more (stats regs addr name c p e eq got call named r) d =
          let (w', done) = worker_files files more r d in
          (
            w',
            rw (suc-add (count_stops m sys k rounds r) more) (
                pass_call (count_stops m sys k rounds r + more) files files _ _ _ _ c p e eq
                  (stat_call regs addr name files _ d got call named)
                ∙ done),
          )
      worker_files files more (other_call regs c p e eq got call x y z r) d =
          let (w', done) = worker_files files more r d in
          (
            w',
            rw (suc-add (count_stops m sys k rounds r) more) (
                pass_call (count_stops m sys k rounds r + more) files files _ _ _ _ c p e eq
                  (unknown_call regs _ files _ got call x y z)
                ∙ done),
          )
