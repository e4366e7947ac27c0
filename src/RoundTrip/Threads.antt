-- ===== src/RoundTrip/Threads.antt =====
-- From the names of the threads over the recorder's callbacks to the printer's reading.
use dpcpp_trace.Prelude.{ℕ, ◌<◌, ◌≡◌, Bool, none, some, List, [], ◌∷◌, map, Bytes, All, Decimal}
use dpcpp_trace.Trace.Api.{Fits}
use dpcpp_trace.Trace.Stream.{opened}
use dpcpp_trace.Trace.Read.{records, parse_trace_file}
use dpcpp_trace.Record.Recorder.{Environment}
use dpcpp_trace.Record.Threads.{TracePoint, Site, Process, thread_file, run_callbacks, deinit}
use dpcpp_trace.Record.Points.{calls_of}
use dpcpp_trace.Record.Interleaving.{points_of, Apart, parse_trace_file-run_callbacks}
use dpcpp_trace.Interception.{Pthread, ThreadNames}
use dpcpp_trace.Interception.Names.{Created, names_distinct}

module _ (pthread : Pthread) (to_string : ℕ → Bytes) (decimal : Decimal to_string) {s : ThreadNames}
    (created : Created pthread to_string s) where
  -- A process whose threads have these names.
  abbrev pub named_site : Environment → ℕ → Bool → Site
  named_site env start skips = record {
    environment = env;
    names = s.names;
    start_time = start;
    skips_memory = skips;
  }

  -- No two threads have one name, so none has that of `i`.
  pub Apart-names :
      (env : Environment) (start : ℕ) (skips : Bool) (i : ℕ) (es : List (ℕ × TracePoint))
      → i < s.count
      → All (λ (e : ℕ × TracePoint). e.0 < s.count) es
      → Apart (named_site env start skips) i es
  Apart-names env start skips i [] small all = tt
  Apart-names env start skips i (e ∷ es) small (h, all) = (
    λ same. names_distinct pthread to_string decimal created e.0 i h small same,
    Apart-names env start skips i es small all,
  )

  -- Let threads be created one creation after the other, with names and counters below the limits,
  -- let the recorder's callbacks run on them in any order, for calls of any function but
  -- piextDeviceSelectBinary, and let the process end on any of them. No callback throws; and of every
  -- thread that has no handler and no trace before, whose calls are given back by the serializer and
  -- leave room in 32 bits for their size and one, the printer reads from the file under the thread's
  -- name exactly the calls that its own trace points tell of, in order.
  pub parse_trace_file-threads :
      (env : Environment) (start : ℕ) (skips : Bool) (i u junk : ℕ) (es : List (ℕ × TracePoint))
      (p : Process)
      → i < s.count
      → u < s.count
      → All (λ (e : ℕ × TracePoint). e.0 < s.count) es
      → p.handlers i ≡ none
      → p.trace (thread_file (named_site env start skips) i) ≡ []
      → All (Fits env.codec) (calls_of (named_site env start skips) i none (points_of i es))
      → (q : Process) × (run_callbacks (named_site env start skips) es p ≡ some q)
        × (parse_trace_file env.codec junk (s.names i) (
              opened (
                (deinit (named_site env start skips) u q).trace
                  (thread_file (named_site env start skips) i)))
            ≡ records (
                map
                  (λ c. (s.names i, c))
                  (calls_of (named_site env start skips) i none (points_of i es))))
  parse_trace_file-threads env start skips i u junk es p hi hu all none_yet empty fit =
      parse_trace_file-run_callbacks (named_site env start skips) i u junk es p
        (Apart-names env start skips i es hi all)
        (names_distinct pthread to_string decimal created u i hu hi) none_yet empty fit
