-- ===== src/Tracer/Redirect.antt =====
-- A file that a handler asks for is the one that the child's system call names afterwards.
use dpcpp_trace.Prelude.{
  ℕ, suc, ◌*◌, ◌≡◌, ap, ◌≢◌, ◌⊎◌, inl, inr, some, List, [], ◌∷◌, arith, Bytes, length,
}
use dpcpp_trace.Tracer.{System, read_string, written}
use dpcpp_trace.Tracer.Memory.{Mapped}
use dpcpp_trace.Tracer.Rounds.{NoZero}
use dpcpp_trace.Tracer.Stack.{Room, read_string-write_string}
use dpcpp_trace.Tracer.Worker.{
  WaitMacros, Regs, Kernel, Handlers, handled, replace_all, file_call, handle_call, serve_call,
}

-- The system calls that name a file: where the pointer to the name is, and whose handler it is.
abbrev pub FileCall :
    {S : Type 0} → System → Handlers S → Regs → ℕ → ℕ → ℕ → (Bytes → S → S × List Bytes) → Type 0
FileCall sys h regs call reg addr handler =
    ((call ≡ sys.nr_stat) × (reg ≡ 8 * sys.rdi) × (addr ≡ regs.rdi) × (handler ≡ h.on_stat))
    ⊎ ((call ≡ sys.nr_newfstatat) × (reg ≡ 8 * sys.rsi) × (addr ≡ regs.rsi) × (handler ≡ h.on_stat))
    ⊎ ((call ≡ sys.nr_openat)
        × (reg ≡ 8 * sys.rsi)
        × (addr ≡ regs.rsi)
        × (handler ≡ h.on_file_open))

pub record Distinct (sys : System) : Type 0 where
  pub stat_newfstatat : sys.nr_stat ≢ sys.nr_newfstatat
  pub stat_openat : sys.nr_stat ≢ sys.nr_openat
  pub newfstatat_openat : sys.nr_newfstatat ≢ sys.nr_openat

module _ {S W : Type 0} (sys : System) (k : Kernel W) (h : Handlers S) (rounds : ℕ)
    (junk : Bytes) where
  pub handle_call-FileCall :
      (m : WaitMacros) (regs : Regs) (call reg addr : ℕ) (handler : Bytes → S → S × List Bytes)
      (s : S) (w : W)
      → Distinct sys
      → FileCall sys h regs call reg addr handler
      → handle_call sys m k h rounds junk call regs s w
        ≡ file_call sys m k h rounds junk reg addr handler s w
  unfolding handle_call
  handle_call-FileCall m regs call reg addr handler s w d (inl (a, b, c, e)) =
      rw (c, b, e) (ground arith)
  handle_call-FileCall m regs call reg addr handler s w d (inr (inl (a, b, c, e))) =
      let n = d.stat_newfstatat in rw (c, b, e) (ground arith)
  handle_call-FileCall m regs call reg addr handler s w d (inr (inr (a, b, c, e))) =
      let n = d.stat_openat in let o = d.newfstatat_openat in rw (c, b, e) (ground arith)

  -- Let the child be stopped at one of the three calls that name a file, whose numbers differ; let
  -- `readString` read the name in the given rounds, and the handler of the call ask for one file,
  -- without a zero byte in its name. If the place below the stack is mapped with eight bytes to spare
  -- (and the buffer of `writeString` holds any eight bytes), the call is served, the handler's state
  -- is the one that it gave, and the register that named the file points to the name of the new one.
  pub serve_call-redirects :
      (m : WaitMacros) (lo hi : ℕ) (c : Mapped k.ptrace lo hi) (regs : Regs) (reg addr : ℕ)
      (handler : Bytes → S → S × List Bytes) (name file : Bytes) (s s' : S) (w : W)
      → Distinct sys
      → FileCall sys h regs (k.ptrace.peek_user (8 * sys.orig_rax) w) reg addr handler
      → k.get_regs w ≡ some regs
      → read_string k.ptrace rounds addr w ≡ some name
      → handler name s ≡ (s', file ∷ [])
      → NoZero file
      → Room k.ptrace lo hi c sys junk file reg w
      → (w' : W) × (serve_call sys m k h rounds junk s w ≡ handled s' w')
        × (read_string k.ptrace (suc (length file)) (k.ptrace.peek_user reg w') w' ≡ some file)
  unfolding serve_call file_call replace_all
  serve_call-redirects m lo hi c regs reg addr handler name file s s' w d f got named asked z room =
      let (w', done, place, back) =
        read_string-write_string k.ptrace lo hi c sys junk file reg w z room in
      let replaced : replace_all sys m k h rounds junk reg (file ∷ []) w ≡ written w' =
        ground arith in
      (
        w',
        rw
            (
              serve_call,
              got,
              handle_call-FileCall m regs (k.ptrace.peek_user (8 * sys.orig_rax) w) reg addr handler
                  s w d f,
              file_call,
              named,
              asked,
              replaced,
            )
            (ap (λ t. handled t.0 w') asked),
        back,
      )
