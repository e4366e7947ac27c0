-- ===== src/Replay/Table/Answers.antt =====
-- The steps of the calls: each one answers, and leaves the trace and the files alone.
use dpcpp_trace.Prelude.{
  ℕ, zero, suc, ◌+◌, ◌≤◌, ◌≡◌, refl, ap, ◌≢◌, inl, inr, Bool, true, false, List, [], ◌∷◌, arith,
  ◌==◌, if◌then◌else◌, Option-cases, Bytes, length, take, le_bytes, le_value,
}
use dpcpp_trace.Trace.Api.{ApiCall}
use native.Mathlib.Decide.{ℕ_discrete}
use dpcpp_trace.Trace.Stream.{Stream, opened, unopened, read}
use dpcpp_trace.Replay.Memory.{store}
use dpcpp_trace.Replay.Plugin.{
  Plugin, Outcome, ok, exited, fault, M, ◌>>=◌, Runtime, new_int, new_chars, write_at, u32_at,
}
use dpcpp_trace.Replay.Platform.{
  replay_get_info, copy_count, write_count, write_entries, fill_handles,
}
use dpcpp_trace.Replay.Objects.{subscript, mem_context, copy_context}
use dpcpp_trace.Replay.Kernels.{kernel_program, copy_program}
use dpcpp_trace.Replay.Enqueue.{open_mem_file, copy_mem_file, copy_saved, read_size}
use dpcpp_trace.Replay.Table.Adequate.{HasOutput, HasCount, Lands}

-- What no answer changes: the trace and the files. The heap only grows.
pub record Same (s s' : Plugin) : Type 0 where
  pub trace : s'.trace ≡ s.trace
  pub is_open : s'.is_open ≡ s.is_open
  pub trace_file : s'.trace_file ≡ s.trace_file
  pub mem_file : s'.mem_file ≡ s.mem_file
  pub brk : s.brk ≤ s'.brk

-- The outcome is a return of `v`, from the state `s` on.
abbrev pub Answers : {A : Type 0} → Plugin → A → Outcome A → Type 0
Answers s v (ok a s') = (a ≡ v) × Same s s'
Answers s v exited = ⊥
Answers s v fault = ⊥

-- An answer as the state that it ends in.
pub answered :
    {A : Type 0} (s : Plugin) (v : A) (o : Outcome A)
    → Answers s v o
    → (s' : Plugin) × (o ≡ ok v s') × Same s s'
answered s v (ok a s') (e, same) = (s', ap (λ x. ok x s') e, same)
answered s v exited h = elim h [ ]
answered s v fault h = elim h [ ]

pub Answers-trans :
    {A : Type 0} (s s' : Plugin) (v : A) (o : Outcome A)
    → Same s s'
    → Answers s' v o
    → Answers s v o
Answers-trans s s' v (ok a t) same h = ground arith
Answers-trans s s' v exited same h = elim h [ ]
Answers-trans s s' v fault same h = elim h [ ]

-- A step that answers, and then the rest.
pub after :
    {A B : Type 0} (s : Plugin) (a : A) (v : B) (m : M A) (f : A → M B)
    → Answers s a (m s)
    → ((s' : Plugin) → Same s s' → Answers s' v (f a s'))
    → Answers s v ((m >>= f) s)
after s a v m f h k =
    let (s', e, same) = answered s a (m s) h in
    rw (e, ◌>>=◌) (Answers-trans s s' v (f a s') same (k s' same))

pub new_int_answers : (s : Plugin) → Answers s s.brk (new_int s)
unfolding new_int
new_int_answers s = ground arith

new_chars_answers : (n : ℕ) (s : Plugin) → Answers s s.brk (new_chars n s)
unfolding new_chars
new_chars_answers n s = ground arith

Same-refl : (s : Plugin) → Same s s
Same-refl s = ground arith

pub write_at_answers : (p : ℕ) (bs : Bytes) (s : Plugin) → p ≢ 0 → Answers s tt (write_at p bs s)
unfolding write_at
write_at_answers p [] s h = ground arith
write_at_answers p (b ∷ bs) s h = ground arith

pub replay_get_info_answers :
    (call : ApiCall) (value size : ℕ) (s : Plugin)
    → HasOutput call
    → Lands value size
    → Answers s tt (replay_get_info call value size s)
unfolding replay_get_info
replay_get_info_answers call value size s (out, rest, e) h =
    ground (arith, e, write_at_answers (if value == 0 then size else value) out s)

pub fill_handles_answers : (n p : ℕ) (s : Plugin) → p ≢ 0 → Answers s tt (fill_handles n p s)
unfolding fill_handles
fill_handles_answers zero p s h = ground arith
fill_handles_answers (suc n) p s h = after s s.brk tt new_int _ (new_int_answers s) λ s₁ _.
    after s₁ tt tt (write_at p (le_bytes 8 s.brk)) _ (write_at_answers p (le_bytes 8 s.brk) s₁ h)
      λ s₂ _. fill_handles_answers n (p + 8) s₂ (omega arith)

pub u32_at_ok :
    (out : Bytes) (s : Plugin) → 4 ≤ length out → u32_at out s ≡ ok (le_value (take 4 out)) s
unfolding u32_at
u32_at_ok out s h = ground arith

pub write_count_answers :
    (call : ApiCall) (p : ℕ) (s : Plugin)
    → (p ≢ 0 → HasCount call)
    → Answers s tt (write_count call p s)
unfolding write_count copy_count
write_count_answers call p s h = elim (ℕ_discrete p 0) [
  | yes null ↦ ground arith
  | no there ↦
      let (out, rest, e, long) = h there in
      ground (
        arith,
        e,
        u32_at_ok out s long,
        write_at_answers p (le_bytes 4 (le_value (take 4 out))) s there,
      )
]

pub write_entries_answers : (n p : ℕ) (s : Plugin) → Answers s tt (write_entries n p s)
unfolding write_entries
write_entries_answers n p s = ground (arith, fill_handles_answers n p s)

pub open_mem_file_ok :
    (name : Bytes) (s : Plugin) → (file : Stream) × (open_mem_file name s ≡ ok file s)
unfolding open_mem_file
open_mem_file_ok name s = elim (Option-cases (s.mem_file name)) [
  | inl e ↦ (unopened, ground (arith, e))
  | inr (bs, e) ↦ (opened bs, ground (arith, e))
]

pub copy_mem_file_answers :
    (rt : Runtime) (name : Bytes) (p size : ℕ) (s : Plugin)
    → p ≢ 0
    → Answers s tt (copy_mem_file rt name p size s)
unfolding copy_mem_file
copy_mem_file_answers rt name p size s h =
    let (file, e) = open_mem_file_ok name s in
    ground (arith, e, write_at_answers p (read size (read_size rt.junk file).1).0 s h)

pub copy_context_answers :
    (b : Bool) (mem p : ℕ) (s : Plugin) → (b ≡ true → p ≢ 0) → Answers s tt (copy_context b mem p s)
unfolding copy_context mem_context
copy_context_answers false mem p s h = ground arith
copy_context_answers true mem p s h =
    let (context, m) = subscript mem s.mem_contexts in
    let t = record s { mem_contexts = m } in
    Answers-trans s t tt _ (ground arith) (write_at_answers p (le_bytes 8 context) t (h refl))

pub copy_program_answers :
    (b : Bool) (kernel p : ℕ) (s : Plugin)
    → (b ≡ true → p ≢ 0)
    → Answers s tt (copy_program b kernel p s)
unfolding copy_program kernel_program
copy_program_answers false kernel p s h = ground arith
copy_program_answers true kernel p s h =
    let (program, m) = subscript kernel s.kernel_programs in
    let t = record s { kernel_programs = m } in
    Answers-trans s t tt _ (ground arith) (write_at_answers p (le_bytes 8 program) t (h refl))

pub copy_saved_answers :
    (rt : Runtime) (names : List Bytes) (p size : ℕ) (s : Plugin)
    → p ≢ 0
    → Answers s tt (copy_saved rt names p size s)
unfolding copy_saved
copy_saved_answers rt [] p size s h = ground arith
copy_saved_answers rt (name ∷ names) p size s h = copy_mem_file_answers rt name p size s h

-- A write through a pointer that is there, with the memory that it leaves.
pub write_at_ok :
    (p : ℕ) (bs : Bytes) (s : Plugin)
    → p ≢ 0
    → write_at p bs s ≡ ok tt (record s { memory = store p bs s.memory })
unfolding write_at store
write_at_ok p [] s h = refl
write_at_ok p (b ∷ bs) s h = ground arith
