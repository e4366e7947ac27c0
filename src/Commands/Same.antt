-- ===== src/Commands/Same.antt =====
-- What `record` was asked to run is what `replay` runs, from the directory that it left.
use dpcpp_trace.Prelude.{
  ◌≡◌, refl, sym, inl, inr, true, false, Option, some, List, [], ◌∷◌, arith, if◌then◌else◌,
  Bool-cases, Bytes, same_text, codes, same_text_refl,
}
use dpcpp_trace.Options.{Options}
use dpcpp_trace.Commands.{
  Host, JsonCodec, Object, find, set_key, get_text, get_flag, get_texts, Launch,
}
use dpcpp_trace.Commands.Record.{recorded, env_lines, replay_config, record_launch, record_command}
use dpcpp_trace.Commands.Replay.{
  prepared, Plugins, trace_path, read_plugins, replay_program, replay_env, prepare,
}

-- What the commands rely on of nlohmann's JSON, for an object: it is read back, maybe in another order.
abbrev pub ReadBack : JsonCodec → Object → Type 0
ReadBack json object =
    (object' : Object) × (json.parse (json.dump object) ≡ some object')
    × ((key : Bytes) → find key object' ≡ find key object)

-- The file that has a path, of those that were written.
abbrev pub file_at : Bytes → List (Bytes × Bytes) → Option Bytes
file_at path files = find path files

module _ (host : Host) (json : JsonCodec) (opts : Options) where
  abbrev config_path : Bytes
  config_path = host.join opts.output (codes "replay_config.json")

  record-config :
      (files : List (Bytes × Bytes)) (launch : Launch)
      → record_command host json opts ≡ recorded files launch
      → (files
          ≡ (host.join opts.output (codes "env"), env_lines opts.env_vars)
            ∷ (config_path, json.dump (replay_config host opts launch.executable))
            ∷ [])
        × (launch.args ≡ opts.input ∷ opts.arguments)
  unfolding record_command record_launch
  record-config files launch h = ground arith

  -- What a configuration that was read back says.
  module _ (executable : Bytes) (object : Object)
      (same : (key : Bytes) → find key object ≡ find key (replay_config host opts executable)) where
    recorded_mode :
        get_text (codes "recordMode") object
        ≡ some (if opts.record_skip_mem_objs then codes "traceOnly" else codes "default")
    unfolding get_text replay_config set_key find
    recorded_mode = rw (get_text, same (codes "recordMode")) refl

    recorded_plugins : (plugins : Plugins) × (read_plugins object ≡ some plugins)
    unfolding read_plugins get_flag replay_config set_key find
    recorded_plugins = (
      record {
        has_opencl = host.can_load_library (codes "libpi_opencl.so");
        has_level_zero = host.can_load_library (codes "libpi_level_zero.so");
        has_cuda = host.can_load_library (codes "libpi_cuda.so");
        has_rocm = host.can_load_library (codes "libpi_rocm.so");
      },
      rw
          (
            read_plugins,
            get_flag,
            same (codes "hasOpenCLPlugin"),
            same (codes "hasLevelZeroPlugin"),
            same (codes "hasCUDAPlugin"),
            same (codes "hasROCmPlugin"),
          )
          refl,
    )

    recorded_program :
        (host' : Host) (ropts : Options)
        → replay_program host' json ropts false false object
          ≡ inr (executable, opts.input ∷ opts.arguments)
    unfolding replay_program get_text get_texts replay_config set_key find
    recorded_program host' ropts =
        rw
          (
            replay_program,
            get_text,
            get_texts,
            same (codes "executable"),
            same (codes "command"),
            same (codes "arguments"),
          )
          refl

  -- A program was recorded, and is replayed from the directory that was written: the input is that
  -- directory, its configuration is the file that `record` wrote, which has another path than the
  -- file of the environment, JSON is read back as it was written, and the launch is not only printed.
  -- Then the same executable is launched with the same arguments, and no files are replaced.
  pub prepare-record_command :
      (files : List (Bytes × Bytes)) (launch : Launch) (host' : Host) (ropts : Options)
      → record_command host json opts ≡ recorded files launch
      → ReadBack json (replay_config host opts launch.executable)
      → same_text (host.join opts.output (codes "env")) config_path ≡ false
      → host'.is_directory ropts.input ≡ true
      → host'.contents (host'.join ropts.input (codes "replay_config.json"))
        ≡ file_at config_path files
      → ropts.print_only ≡ false
      → (launch' : Launch) × (prepare host' json ropts ≡ prepared launch' false)
        × (launch'.executable ≡ launch.executable)
        × (launch'.args ≡ launch.args)
  unfolding prepare trace_path find
  prepare-record_command files launch host' ropts h (object, read, same) apart dir stored launched =
      let (written, args) = record-config files launch h in
      let there : file_at config_path files
          ≡ some (json.dump (replay_config host opts launch.executable)) =
        rw (written, apart, same_text_refl config_path) refl in
      let (plugins, flags) = recorded_plugins launch.executable object same in
      (
        record {
          executable = launch.executable;
          args = opts.input ∷ opts.arguments;
          env = replay_env host' ropts ropts.input false plugins;
        },
        elim (Bool-cases opts.record_skip_mem_objs) [
          | inl skip ↦ ground (
            arith,
            there,
            read,
            recorded_mode launch.executable object same,
            recorded_program launch.executable object same host' ropts,
            flags,
          )
          | inr keep ↦ ground (
            arith,
            there,
            read,
            recorded_mode launch.executable object same,
            recorded_program launch.executable object same host' ropts,
            flags,
          )
        ],
        refl,
        sym args,
      )
