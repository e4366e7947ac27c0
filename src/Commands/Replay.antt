-- ===== src/Commands/Replay.antt =====
-- src/replay.cpp and src/debug.cpp: how a program is started again from what was recorded.
use dpcpp_trace.Prelude.{
  ℕ, ◌⊎◌, inl, inr, Bool, true, false, not, ◌&&◌, ◌||◌, Option, none, some, List, [], ◌∷◌, ◌++◌,
  ◌==◌, if◌then◌else◌, Bytes, drop, same_text, codes, starts_with,
}
use dpcpp_trace.Options.{Options, is_empty}
use dpcpp_trace.Commands.{
  Host, Object, JsonCodec, find, get_text, get_flag, get_texts, Launch, found, not_found, undefined,
  which,
}

-- The exceptions, and a PATH that is not set.
pub data Failure : Type 0 where
  no_executable undefined_path bad_config no_cli_for_packed : Failure

-- How the preparation ends; a launch comes with whether files are replaced, which only `replay` does.
pub data Prepared : Type 0 where
  prepared : Launch → Bool → Prepared
  printed : Bytes → Prepared
  refused : Failure → Prepared

-- Where the trace is, and whether the program is on the command line.
unfoldable pub trace_path : Host → Options → Bytes × Bool
trace_path host opts =
    if host.is_directory opts.input then (opts.input, false) else (opts.output, true)

-- What the configuration says of the plugins.
pub record Plugins : Type 0 where
  pub has_opencl : Bool
  pub has_level_zero : Bool
  pub has_cuda : Bool
  pub has_rocm : Bool

unfoldable pub read_plugins : Object → Option Plugins
read_plugins config = elim (get_flag (codes "hasOpenCLPlugin") config) [
  | none ↦ none
  | some a ↦ elim (get_flag (codes "hasLevelZeroPlugin") config) [
    | none ↦ none
    | some b ↦ elim (get_flag (codes "hasCUDAPlugin") config) [
      | none ↦ none
      | some c ↦ elim (get_flag (codes "hasROCmPlugin") config) [
        | none ↦ none
        | some d ↦ some (record { has_opencl = a; has_level_zero = b; has_cuda = c; has_rocm = d })
      ]
    ]
  ]
]

abbrev pub overrides : Plugins → List Bytes
overrides p =
    (if p.has_opencl then codes "SYCL_OVERRIDE_PI_OPENCL=libplugin_replay.so" ∷ [] else [])
    ++ ((if p.has_level_zero
          then codes "SYCL_OVERRIDE_PI_LEVEL_ZERO=libplugin_replay.so" ∷ []
          else [])
        ++ ((if p.has_cuda then codes "SYCL_OVERRIDE_PI_CUDA=libplugin_replay.so" ∷ [] else [])
            ++ (if p.has_rocm then codes "SYCL_OVERRIDE_PI_ROCM=libplugin_replay.so" ∷ [] else [])))

-- The lines that `std::getline` gives; a last line counts if it is not empty.
abbrev pub add_to_line : ℕ → List Bytes → List Bytes
add_to_line c [] = (c ∷ []) ∷ []
add_to_line c (line ∷ lines) = (c ∷ line) ∷ lines

unfoldable pub get_lines : Bytes → List Bytes
get_lines [] = []
get_lines (c ∷ cs) = if c == 10 then [] ∷ get_lines cs else add_to_line c (get_lines cs)

-- The loop over the packed environment: the library path, and the other entries.
unfoldable pub packed_env : List Bytes → Bytes → Bytes × List Bytes
packed_env [] full = (full, [])
packed_env (line ∷ lines) full = elim (starts_with (codes "LD_LIBRARY_PATH=") line) [
  | true ↦ packed_env lines (full ++ drop 16 line)
  | false ↦ let (path, env) = packed_env lines full in (path, line ∷ env)
]

abbrev pub allowed_env_var : Bytes → Bool
allowed_env_var var = not (starts_with (codes "LD_LIBRARY_PATH") var)

unfoldable pub allowed : List Bytes → List Bytes
allowed [] = []
allowed (e ∷ env) = if allowed_env_var e then e ∷ allowed env else allowed env

abbrev Option-bind : {A B : Type 0} → Option A → (A → Option B) → Option B
Option-bind none f = none
Option-bind (some a) f = f a

module _ (host : Host) where
  abbrev pub library_prefix : Options → Bytes
  library_prefix opts =
      codes "LD_LIBRARY_PATH="
      ++ (host.join (host.join (host.parent_path opts.executable_path) (codes "..")) (codes "lib")
          ++ codes ":")

  -- The environment; a file of the packed environment that cannot be opened has no lines.
  unfoldable pub replay_env : Options → Bytes → Bool → Plugins → List Bytes
  replay_env opts path packed plugins =
      let parts : Bytes × List Bytes = elim packed [
        | true ↦ elim (host.contents (host.join path (codes "env"))) [
          | none ↦ (library_prefix opts, [])
          | some lines ↦ packed_env (get_lines lines) (library_prefix opts)
        ]
        | false ↦ elim (host.getenv (codes "LD_LIBRARY_PATH")) [
          | none ↦ (library_prefix opts, allowed opts.env_vars)
          | some own ↦ (library_prefix opts ++ own, allowed opts.env_vars)
        ]
      ] in
      parts.1
      ++ (codes "LD_PRELOAD=libsystem_intercept.so"
          ∷ (overrides plugins ++ parts.0 ∷ (codes "DPCPP_TRACE_DATA_PATH=" ++ path) ∷ []))

module _ (host : Host) (json : JsonCodec) where
  -- The executable and its arguments.
  unfoldable pub replay_program : Options → Bool → Bool → Object → Failure ⊎ (Bytes × List Bytes)
  replay_program opts has_cli packed config = elim has_cli [
    | true ↦
        if host.exists opts.input
        then inr (opts.input, opts.input ∷ opts.arguments)
        else elim (which host opts.input) [
          | found executable ↦ inr (executable, opts.input ∷ opts.arguments)
          | not_found ↦ inl no_executable
          | undefined ↦ inl undefined_path
        ]
    | false ↦
        elim (if packed
          then some (host.join (host.join opts.input (codes "pack")) (codes "0"))
          else get_text (codes "executable") config) [
            | none ↦ inl bad_config
            | some executable ↦ elim (get_text (codes "command") config) [
              | none ↦ inl bad_config
              | some command ↦ elim (get_texts (codes "arguments") config) [
                | none ↦ inl bad_config
                | some arguments ↦ inr (executable, command ∷ arguments)
              ]
            ]
          ]
  ]

  abbrev pub print_plugins : Plugins → Bytes
  print_plugins p =
      (if p.has_opencl then codes "SYCL_OVERRIDE_PI_OPENCL=libplugin_replay.so \\\n" else [])
      ++ ((if p.has_level_zero
            then codes "SYCL_OVERRIDE_PI_LEVEL_ZERO=libplugin_replay.so \\\n"
            else [])
          ++ ((if p.has_cuda then codes "SYCL_OVERRIDE_PI_CUDA=libplugin_replay.so \\\n" else [])
              ++ (if p.has_rocm
                  then codes "SYCL_OVERRIDE_PI_ROCM=libplugin_replay.so \\\n"
                  else [])))

  -- The arguments behind the first one.
  unfoldable pub print_args : List Bytes → Bytes
  print_args [] = []
  print_args (arg ∷ args) = codes " " ++ (arg ++ (codes " " ++ print_args args))

  -- What `--print-only` shows.
  unfoldable pub print_launch : Options → Bytes → Plugins → Bytes → List Bytes → Bytes
  print_launch opts path plugins executable args =
      codes "DPCPP_TRACE_DATA_PATH="
      ++ (path
          ++ (codes " \\\n"
              ++ (library_prefix host opts
                  ++ (codes "$LD_LIBRARY_PATH \\\n"
                      ++ (codes "LD_PRELOAD=libsystem_intercept.so \\\n"
                          ++ (print_plugins plugins
                              ++ (executable ++ (print_args (drop 1 args) ++ codes "\n"))))))))

  -- The same steps in both commands, up to the launch.
  unfoldable pub prepare : Options → Prepared
  prepare opts =
      let (path, has_cli) = trace_path host opts in
      elim (Option-bind (host.contents (host.join path (codes "replay_config.json"))) json.parse) [
        | none ↦ refused bad_config
        | some config ↦ elim (get_text (codes "recordMode") config) [
          | none ↦ refused bad_config
          | some mode ↦
              let packed = same_text mode (codes "full") in
              if has_cli && packed
              then refused no_cli_for_packed
              else elim (replay_program opts has_cli packed config) [
                | inl failure ↦ refused failure
                | inr (executable, args) ↦ elim (read_plugins config) [
                  | none ↦ refused bad_config
                  | some plugins ↦
                      if opts.print_only
                      then printed (print_launch opts path plugins executable args)
                      else prepared
                          (record {
                            executable = executable;
                            args = args;
                            env = replay_env host opts path packed plugins;
                          })
                          packed
                ]
              ]
        ]
      ]

  -- `debug` behind the loading of the host debugger: the program is launched under it, and no files
  -- are replaced.
  unfoldable pub debug_command : Options → Prepared
  debug_command opts = elim (prepare opts) [
    | prepared launch packed ↦ prepared launch false
    | ended ↦ ended
  ]

-- `findSuitableReplacement`, over the items of the file map in the order of their keys: a library is
-- found by its name anywhere in a key, another file by its own key. `none` is the empty text.
unfoldable pub contains : Bytes → Bytes → Bool
contains part [] = starts_with part []
contains part (c ∷ cs) = starts_with part (c ∷ cs) || contains part cs

unfoldable pub find_library : Bytes → List (Bytes × Bytes) → Option Bytes
find_library name [] = none
find_library name ((cand, value) ∷ items) =
    if contains name cand then some value else find_library name items

unfoldable pub find_suitable_replacement :
    Host → Bytes → List (Bytes × Bytes) → Bytes → Option Bytes
find_suitable_replacement host path file_map name =
    let packed : Option Bytes = elim (contains (codes ".so") name) [
      | true ↦ find_library (host.file_name name) file_map
      | false ↦ find name file_map
    ] in
    elim packed [
      | none ↦ none
      | some value ↦ some (host.join (host.join path (codes "pack")) value)
    ]

-- The handler of an opened file, and of one whose status is asked for: the files to put in its place.
unfoldable pub replay_handler : Host → Bytes → List (Bytes × Bytes) → Bytes → List Bytes
replay_handler host path file_map name = elim (find_suitable_replacement host path file_map name) [
  | none ↦ []
  | some replacement ↦ if is_empty replacement then [] else replacement ∷ []
]
