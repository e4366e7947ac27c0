-- ===== src/Commands/Record.antt =====
-- src/record.cpp: what `record` leaves in the output directory, and how it starts the program.
use dpcpp_trace.Prelude.{not, ◌&&◌, none, some, List, [], ◌∷◌, ◌++◌, if◌then◌else◌, Bytes, codes}
use dpcpp_trace.Options.{Options}
use dpcpp_trace.Commands.{
  Host, text, flag, texts, Object, JsonCodec, set_key, Launch, found, not_found, undefined, which,
}

-- How the command goes on: the output is in place and the program can be launched, or it has ended.
-- `recorded` has the files that were written, with their paths.
pub data RecordResult : Type 0 where
  recorded : List (Bytes × Bytes) → Launch → RecordResult
  terminated : RecordResult
  exit_failure : RecordResult
  no_executable : RecordResult
  undefined_path : RecordResult

-- The file of the environment, an entry to a line.
unfoldable pub env_lines : List Bytes → Bytes
env_lines [] = []
env_lines (entry ∷ env) = entry ++ (10 ∷ env_lines env)

module _ (host : Host) where
  -- The configuration that `replay` needs.
  unfoldable pub replay_config : Options → Bytes → Object
  replay_config opts executable =
      let mode = if opts.record_skip_mem_objs then codes "traceOnly" else codes "default" in
      set_key (codes "arguments") (texts opts.arguments) (
        set_key (codes "executable") (text executable) (
          set_key (codes "command") (text opts.input) (
            set_key (codes "recordMode") (text mode) (
              set_key (codes "hasROCmPlugin") (flag (host.can_load_library (codes "libpi_rocm.so")))
                (set_key (codes "hasCUDAPlugin")
                  (flag (host.can_load_library (codes "libpi_cuda.so")))
                  (set_key (codes "hasLevelZeroPlugin")
                    (flag (host.can_load_library (codes "libpi_level_zero.so")))
                    (set_key (codes "hasOpenCLPlugin")
                      (flag (host.can_load_library (codes "libpi_opencl.so"))) [])))))))

  -- `LD_LIBRARY_PATH` with the library's directory before what the process has.
  abbrev pub library_path : Options → Bytes
  library_path opts =
      codes "LD_LIBRARY_PATH="
      ++ (host.join (host.join (host.parent_path opts.executable_path) (codes "..")) (codes "lib")
          ++ codes ":")

  unfoldable pub record_env : Options → List Bytes
  record_env opts =
      let own : Bytes = elim (host.getenv (codes "LD_LIBRARY_PATH")) [
        | none ↦ []
        | some path ↦ path
      ] in
      opts.env_vars
      ++ (codes "XPTI_TRACE_ENABLE=1"
          ∷ codes "XPTI_FRAMEWORK_DISPATCHER=libxptifw.so"
          ∷ codes "LD_PRELOAD=libsystem_intercept.so"
          ∷ codes "XPTI_SUBSCRIBERS=libgraph_dump.so,libplugin_record.so"
          ∷ (library_path opts ++ own)
          ∷ (codes "DPCPP_TRACE_DATA_PATH=" ++ opts.output)
          ∷ (if opts.record_skip_mem_objs then codes "DPCPP_TRACE_SKIP_MEM_OBJECTS=1" ∷ [] else []))

module _ (host : Host) (json : JsonCodec) where
  unfoldable pub record_launch : Options → Bytes → RecordResult
  unfolding replay_config record_env
  record_launch opts executable =
      recorded
        ((host.join opts.output (codes "env"), env_lines opts.env_vars)
          ∷ (
            host.join opts.output (codes "replay_config.json"),
            json.dump (replay_config host opts executable),
          )
          ∷ [])
        (record {
          executable = executable;
          args = opts.input ∷ opts.arguments;
          env = record_env host opts;
        })

  -- `record` up to the launch.
  unfoldable pub record_command : Options → RecordResult
  record_command opts =
      if host.exists opts.output && not opts.record_override_trace
      then terminated
      else if not (host.create_directory opts.output)
      then terminated
      else if not (host.create_directory (host.join opts.output (codes "buffers")))
      then exit_failure
      else if host.exists opts.input
      then record_launch opts opts.input
      else elim (which host opts.input) [
        | found executable ↦ record_launch opts executable
        | not_found ↦ no_executable
        | undefined ↦ undefined_path
      ]
