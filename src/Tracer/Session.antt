-- ===== src/Tracer/Session.antt =====
-- lib/utils/Tracer.cpp from `fork` over `start` to `wait`, with the handlers of src/record.cpp.
use dpcpp_trace.Prelude.{ℕ, ◌+◌, ◌≡◌, refl, Option, some, List, [], arith, Bytes}
use dpcpp_trace.Tracer.{System}
use dpcpp_trace.Tracer.Worker.{WaitMacros, Kernel, ended, worker}
use dpcpp_trace.Tracer.Redirect.{Distinct}
use dpcpp_trace.Tracer.Run.{HarmlessStop, Run, count_stops}
use dpcpp_trace.Tracer.Files.{record_handlers, harmless_lem, worker_files}
use dpcpp_trace.Tracer.Launch.{NativeTracer, forked, fork_parent, started, start_worker, wait_code}

module _ {W : Type 0} (m : WaitMacros) (k : Kernel W) (set_options : W → Option W) where
  fork_ready :
      (t : NativeTracer W) (w w₁ w₂ : W) (status : ℕ)
      → k.waitpid w ≡ (some status, w₁)
      → HarmlessStop m status
      → set_options w₁ ≡ some w₂
      → fork_parent m k set_options t w ≡ forked (record t { traced = some w₂ })
  unfolding fork_parent
  fork_ready t w w₁ w₂ status p e o = ground (arith, harmless_lem m status e)

  module _ (sys : System) (rounds : ℕ) (junk : Bytes) where
    start_ended :
        (stops code : ℕ) (t : NativeTracer W) (files : List Bytes) (w w' : W)
        → t.traced ≡ some w
        → worker sys m k record_handlers rounds junk stops [] w ≡ ended code files w'
        → start_worker sys m k record_handlers rounds junk stops t []
          ≡ started (record { exit_code = code; traced = some w' }) files
    unfolding start_worker
    start_ended stops code t files w w' e h = ground arith

    -- Let the forked child stop by a signal that is not fatal, let the tracer's options be taken, and
    -- let the child then run until it exits, stopped by such signals and at system calls whose file
    -- names can be read within the bound; the numbers of the three calls that name files differ. Then
    -- `fork` leaves a tracer that `start` serves to the end within as many stops as the run has,
    -- the recorder has listed exactly the files that the child opened, in order and with
    -- repetitions, and `wait` gives the child's exit code.
    pub start_worker-Run :
        (t : NativeTracer W) (w w₁ w₂ : W) (status code more : ℕ) (names : List Bytes)
        (run : Run m sys k rounds w₂ names code)
        → k.waitpid w ≡ (some status, w₁)
        → HarmlessStop m status
        → set_options w₁ ≡ some w₂
        → Distinct sys
        → (t₁ : NativeTracer W) × (t₂ : NativeTracer W) × (fork_parent m k set_options t w
            ≡ forked t₁)
          × (start_worker sys m k record_handlers rounds junk
                (count_stops m sys k rounds run + more)
                t₁
                []
              ≡ started t₂ names)
          × (wait_code t₂ ≡ code)
    unfolding wait_code
    start_worker-Run t w w₁ w₂ status code more names run p e o d =
        let (w', done) = worker_files m sys k rounds junk [] more run d in
        (
          _,
          _,
          fork_ready t w w₁ w₂ status p e o,
          start_ended (count_stops m sys k rounds run + more) code _ names w₂ w' refl done,
          refl,
        )
