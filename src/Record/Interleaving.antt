-- ===== src/Record/Interleaving.antt =====
-- lib/plugin_record/record.cpp: threads of one process record side by side.
use dpcpp_trace.Prelude.{
  ℕ, ◌≡◌, refl, sym, ap, ◌∙◌, ◌≢◌, inl, inr, false, Option, none, some, List, [], ◌∷◌, ◌++◌, map,
  append-nil, arith, ◌==◌, if◌then◌else◌, ==_refl, Option-cases, All,
}
use native.Mathlib.Decide.{ℕ_discrete}
use mathlib.Core.List.{append_cancel_right}
use dpcpp_trace.Trace.Api.{Fits}
use dpcpp_trace.Trace.Stream.{opened}
use dpcpp_trace.Trace.Read.{records, write_frames, parse_trace_file}
use dpcpp_trace.Trace.Read.Complete.{parse_trace_file-write_frames}
use dpcpp_trace.Record.Recorder.{Recorder}
use dpcpp_trace.Record.Threads.{
  TracePoint, Site, Process, thread_file, trace_ext, record_callback, run_callbacks, deinit,
}
use dpcpp_trace.Record.Callbacks.{flush_lem, append_to_self, append_to_other}
use dpcpp_trace.Record.Points.{calls_of, Flushed, Written, foreign, own_point}

ne→== : (a b : ℕ) → a ≢ b → (a == b) ≡ false
ne→== a b h = ground arith

-- The trace points of one thread, in order.
unfoldable pub points_of : ℕ → List (ℕ × TracePoint) → List TracePoint
points_of i [] = []
points_of i ((t, x) ∷ es) = let rest = points_of i es in if t == i then x ∷ rest else rest

module _ (site : Site) where
  open site use {environment, names}

  run_step :
      (t : ℕ) (x : TracePoint) (es : List (ℕ × TracePoint)) (p q : Process)
      → record_callback site t x p ≡ some q
      → run_callbacks site ((t, x) ∷ es) p ≡ run_callbacks site es q
  unfolding run_callbacks
  run_step t x es p q h = rw (h, run_callbacks) refl

  -- Of the threads that call back, no other has the name of `i`.
  abbrev pub Apart : ℕ → List (ℕ × TracePoint) → Type 0
  Apart i = All (λ (e : ℕ × TracePoint). names e.0 ≡ names i → e.0 ≡ i)

  same_name : (t i : ℕ) → thread_file site t ≡ thread_file site i → names t ≡ names i
  same_name t i h = append_cancel_right (names t) (names i) trace_ext h

  -- The points of other threads do not show.
  run_points :
      (i : ℕ) (es : List (ℕ × TracePoint)) (p : Process) (o : Option Recorder)
      → Apart i es
      → p.handlers i ≡ o
      → Flushed site o
      → (q : Process) × (o' : Option Recorder) × (run_callbacks site es p ≡ some q)
        × (q.handlers i ≡ o')
        × Flushed site o'
        × (Written site i o' [] q ≡ Written site i o (points_of i es) p)
  unfolding points_of
  run_points i [] p o apart e ready = (p, o, unfold run_callbacks in refl, e, ready, refl)
  run_points i ((t, x) ∷ es) p o (apart, later) e ready = elim (ℕ_discrete t i) [
    | yes here ↦
        let (q, o₁, step, e₁, ready₁, adds) = own_point site i x p o e ready in
        let (q', o₂, rest, e₂, ready₂, more) = run_points i es q o₁ later e₁ ready₁ in
        (
          q',
          o₂,
          rw here (run_step i x es p q step) ∙ rest,
          e₂,
          ready₂,
          more ∙ adds (points_of i es) ∙ rw (here, ==_refl i) refl,
        )
    | no away ↦
        let (q, step, same, left) =
          foreign site i t x p away (λ h. away (apart (same_name t i h))) in
        let (q', o₂, rest, e₂, ready₂, more) = run_points i es q o later (same ∙ e) ready in
        (q', o₂, run_step t x es p q step ∙ rest, e₂, ready₂, more ∙ rw (left, ne→== t i away) refl)
  ]

  no_bytes_left : (o : Option Recorder) (r : Recorder) → o ≡ some r → Flushed site o → r.os ≡ []
  no_bytes_left none r h ready = absurd (cc)
  no_bytes_left (some r') r h ready = ground arith

  -- The end of the process writes nothing more.
  deinit_keeps :
      (i u : ℕ) (q : Process) (o : Option Recorder)
      → (names u ≡ names i → u ≡ i)
      → q.handlers i ≡ o
      → Flushed site o
      → (deinit site u q).trace (thread_file site i) ≡ q.trace (thread_file site i)
  unfolding deinit
  deinit_keeps i u q o apart e ready = elim (Option-cases (q.handlers u)) [
    | inl h ↦ rw (h, deinit) refl
    | inr (r, h) ↦
        rw (h, deinit, flush_lem site u q r h)
          (elim (ℕ_discrete u i) [
            | yes here ↦
                let empty : r.os ≡ [] =
                  no_bytes_left o r (sym e ∙ ap q.handlers (sym here) ∙ h) ready in
                rw (here, append_to_self (thread_file site i) r.os q.trace, empty, append-nil) refl
            | no away ↦
                append_to_other (thread_file site u) (thread_file site i) r.os q.trace
                  (λ same. away (apart (same_name u i same)))
          ])
  ]

  -- Let callbacks run on any threads in any order, for calls of any function but
  -- piextDeviceSelectBinary, where no other of these threads has thread `i`'s name, nor has the thread
  -- `u` on which the process then ends, and where `i` has no handler yet. No callback throws, and in
  -- the end the file of `i` holds what it held before and then the frames of the calls that `i`'s own
  -- trace points tell of, in order.
  pub run_callbacks-calls_of :
      (i u : ℕ) (es : List (ℕ × TracePoint)) (p : Process)
      → Apart i es
      → (names u ≡ names i → u ≡ i)
      → p.handlers i ≡ none
      → (q : Process) × (run_callbacks site es p ≡ some q)
        × ((deinit site u q).trace (thread_file site i)
            ≡ p.trace (thread_file site i)
              ++ write_frames environment.codec (calls_of site i none (points_of i es)))
  unfolding write_frames calls_of
  run_callbacks-calls_of i u es p apart last e =
      let (q, o, runs, handler, ready, adds) = run_points i es p none apart e tt in
      (q, runs, deinit_keeps i u q o last handler ready ∙ rw append-nil at adds)

  -- From there to the printer: if the file was empty, and every one of those calls is given back by
  -- the serializer and leaves room in 32 bits for its size and one, the file is parsed into exactly
  -- those calls, in order, under the thread's name.
  pub parse_trace_file-run_callbacks :
      (i u junk : ℕ) (es : List (ℕ × TracePoint)) (p : Process)
      → Apart i es
      → (names u ≡ names i → u ≡ i)
      → p.handlers i ≡ none
      → p.trace (thread_file site i) ≡ []
      → All (Fits environment.codec) (calls_of site i none (points_of i es))
      → (q : Process) × (run_callbacks site es p ≡ some q)
        × (parse_trace_file environment.codec junk
              (names i)
              (opened ((deinit site u q).trace (thread_file site i)))
            ≡ records (map (λ c. (names i, c)) (calls_of site i none (points_of i es))))
  parse_trace_file-run_callbacks i u junk es p apart last e empty fit =
      let (q, runs, holds) = run_callbacks-calls_of i u es p apart last e in
      (
        q,
        runs,
        rw (holds, empty)
            (parse_trace_file-write_frames environment.codec junk (names i)
              (calls_of site i none (points_of i es)) fit),
      )
