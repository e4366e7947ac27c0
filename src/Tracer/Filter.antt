-- ===== src/Tracer/Filter.antt =====
-- Which system calls the filter of lib/utils/Tracer.cpp stops at, and what the worker does at them.
use dpcpp_trace.Prelude.{
  ℕ, ◌≡◌, refl, ◌∙◌, ◌⊎◌, inl, inr, List, ◌∷◌, arith, ◌==◌, if◌then◌else◌, ==_iff, Bool-cases,
  Bytes,
}
use dpcpp_trace.Tracer.{System}
use dpcpp_trace.Tracer.Worker.{WaitMacros, Kernel, Handlers, Regs, handled, handle_call}
use dpcpp_trace.Tracer.Launch.{Verdict, ret_trace, ret_allow, SockFilter, jump_eq, ret, Bpf, filter}

module _ (sys : System) (bpf : Bpf) where
  -- One test of the filter, and what stands behind it.
  test_number :
      (nr k : ℕ) (v : Verdict) (p : List SockFilter)
      → bpf.execute nr (jump_eq k 0 1 ∷ ret v ∷ p) nr ≡ (if nr == k then v else bpf.execute nr p nr)
  test_number nr k v p = elim (Bool-cases (nr == k)) [
    | inl e ↦ rw (bpf.execute_jump nr nr k 0 1 (ret v ∷ p), e) (bpf.execute_ret nr nr v p)
    | inr e ↦ rw (bpf.execute_jump nr nr k 0 1 (ret v ∷ p), e) refl
  ]

  filter_value :
      (nr a : ℕ)
      → bpf.execute nr (filter sys) a ≡ (
          if nr == sys.nr_newfstatat
          then ret_trace
          else if nr == sys.nr_openat
          then ret_trace
          else if nr == sys.nr_stat
          then ret_trace
          else ret_allow)
  unfolding filter
  filter_value nr a = rw (
    bpf.execute_load nr a,
    test_number nr sys.nr_newfstatat,
    test_number nr sys.nr_openat,
    test_number nr sys.nr_stat,
    bpf.execute_ret nr nr,
  )

  -- The calls that the worker has a case for.
  abbrev pub IsServed : ℕ → Type 0
  IsServed nr = (nr ≡ sys.nr_newfstatat) ⊎ (nr ≡ sys.nr_openat) ⊎ (nr ≡ sys.nr_stat)

  -- On a machine that loads, jumps and returns as documented, whatever the accumulator holds at first,
  -- the filter stops the child at each of the three calls that the worker serves; it lets the child
  -- pass at every other call, and at those the worker would have changed nothing.
  pub filter-handle_call :
      {S W : Type 0} (m : WaitMacros) (k : Kernel W) (h : Handlers S) (rounds : ℕ) (junk : Bytes)
      (regs : Regs) (s : S) (w : W) (nr a : ℕ)
      → ((bpf.execute nr (filter sys) a ≡ ret_trace) × IsServed nr)
        ⊎ ((bpf.execute nr (filter sys) a ≡ ret_allow)
            × (¬ IsServed nr)
            × (handle_call sys m k h rounds junk nr regs s w ≡ handled s w))
  unfolding handle_call
  filter-handle_call m k h rounds junk regs s w nr a = elim (Bool-cases (nr == sys.nr_newfstatat)) [
    | inl e ↦ inl (filter_value nr a ∙ rw e refl, inl ((==_iff nr _).0 e))
    | inr e ↦ elim (Bool-cases (nr == sys.nr_openat)) [
      | inl f ↦ inl (filter_value nr a ∙ rw (e, f) refl, inr (inl ((==_iff nr _).0 f)))
      | inr f ↦ elim (Bool-cases (nr == sys.nr_stat)) [
        | inl g ↦ inl (filter_value nr a ∙ rw (e, f, g) refl, inr (inr ((==_iff nr _).0 g)))
        | inr g ↦
            inr (filter_value nr a ∙ rw (e, f, g) refl, λ served. ground arith, rw (g, e, f) refl)
      ]
    ]
  ]
