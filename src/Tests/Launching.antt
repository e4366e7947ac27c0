-- ===== src/Tests/Launching.antt =====
-- A program that is recorded, packed and replayed on a small machine.
use dpcpp_trace.Prelude.{
  Decimal, ℕ, zero, suc, ◌+◌, ◌≡◌, refl, ap, ◌≢◌, inl, inr, true, false, ◌||◌, none, some, List, [],
  ◌∷◌, ◌++◌, arith, if◌then◌else◌, Bytes, length, take, replicate, All, length-replicate, same_text,
  codes, starts_with,
}
use dpcpp_trace.Options.{Options, initial}
use dpcpp_trace.Commands.{Host, JsonCodec, Object, Launch, which, find}
use dpcpp_trace.Commands.Which.{directories, search_path, which-search_path}
use dpcpp_trace.Commands.Record.{
  recorded, env_lines, replay_config, record_env, record_launch, record_command,
}
use dpcpp_trace.Commands.Replay.{
  prepared, Plugins, prepare, replay_env, overrides, library_prefix, contains,
  find_suitable_replacement,
}
use dpcpp_trace.Commands.Environment.{
  count_library_paths, replay_env_recorded, record-library_paths,
}
use dpcpp_trace.Commands.Same.{prepare-record_command}
use dpcpp_trace.Commands.Pack.{pack_files, first_copy}
use dpcpp_trace.Commands.Copies.{DistinctNames, Has}
use dpcpp_trace.Commands.Packed.{pack_files-replaced}

-- Paths are joined by a slash; every file is there, and no directory but "out".
abbrev machine : Host
machine = record {
  exists = λ path. same_text path (codes "/app") || same_text path (codes "/bin/app");
  is_directory = λ path. same_text path (codes "out");
  is_regular_file = λ path. true;
  create_directory = λ path. true;
  contents = λ path. none;
  getenv = λ name. if same_text name (codes "PATH") then some (codes "/usr:/bin") else none;
  can_load_library = λ name. true;
  join = λ path name. path ++ (b'/' ∷ name);
  parent_path = λ path. codes "/opt/bin";
  file_name = λ path. path;
  stem = λ path. codes "x";
}

which-search_path_example :
    which machine (codes "app")
    ≡ search_path machine (codes "app") (directories (codes "/usr:/bin"))
which-search_path_example = which-search_path machine (codes "app") (codes "/usr:/bin") refl

abbrev record_options : Options
record_options =
    record (initial (codes "/opt/bin/dpcpp_trace")
      (codes "A=1" ∷ codes "LD_LIBRARY_PATH=/l" ∷ [])) {
        input = codes "/app";
        output = codes "out";
        arguments = codes "-v" ∷ [];
      }

-- A codec that knows one object, the configuration of this record.
abbrev one_object : Object → JsonCodec
one_object object = record { dump = λ o. codes "{}"; parse = λ bytes. some object }

abbrev json : JsonCodec
json = one_object []

abbrev launched : Launch
launched = record {
  executable = codes "/app";
  args = codes "/app" ∷ codes "-v" ∷ [];
  env = record_env machine record_options;
}

abbrev written : List (Bytes × Bytes)
written =
    (codes "out/env", env_lines record_options.env_vars)
    ∷ (codes "out/replay_config.json", codes "{}")
    ∷ []

run_of_record : record_command machine json record_options ≡ recorded written launched
unfolding record_command record_launch
run_of_record = refl

record-library_paths_example :
    (count_library_paths (record_env machine record_options) ≡ 1 + 1)
    × (take 2 (record_env machine record_options) ≡ record_options.env_vars)
unfolding starts_with
record-library_paths_example =
    record-library_paths machine json record_options written launched run_of_record

-- The machine afterwards: the files are there.
abbrev later : Host
later = record machine { contents = λ path. find path written }

abbrev config : Object
config = replay_config machine record_options (codes "/app")

abbrev json_of_config : JsonCodec
json_of_config = one_object config

abbrev replay_options : Options
replay_options = record record_options { input = codes "out"; output = [] }

abbrev launched_by_config : Launch
launched_by_config = record launched { env = record_env machine record_options }

run_of_record_by_config :
    record_command machine json_of_config record_options ≡ recorded written launched_by_config
unfolding record_command record_launch
run_of_record_by_config = refl

prepare-record_command_example :
    (launch' : Launch) × (prepare later json_of_config replay_options ≡ prepared launch' false)
    × (launch'.executable ≡ codes "/app")
    × (launch'.args ≡ codes "/app" ∷ codes "-v" ∷ [])
unfolding find replay_config
prepare-record_command_example =
    prepare-record_command machine json_of_config record_options written launched_by_config later
      replay_options run_of_record_by_config (config, refl, λ key. refl) refl refl refl refl

abbrev all_plugins : Plugins
all_plugins = record { has_opencl = true; has_level_zero = true; has_cuda = true; has_rocm = true }

replay_env_recorded_example :
    replay_env later replay_options (codes "out") true all_plugins
    ≡ (codes "A=1" ∷ [])
      ++ (codes "LD_PRELOAD=libsystem_intercept.so"
          ∷ (overrides all_plugins
              ++ (library_prefix later replay_options ++ codes "/l")
                ∷ (codes "DPCPP_TRACE_DATA_PATH=" ++ codes "out")
                ∷ []))
unfolding find starts_with
replay_env_recorded_example =
    replay_env_recorded later replay_options (codes "out") all_plugins record_options.env_vars refl
      (omega arith)

-- Numbers in unary: as many ones.
abbrev pub unary : ℕ → Bytes
unary n = replicate n b'1'

ones : (n : ℕ) → All (λ c. c ≢ b'_') (unary n)
ones zero = tt
ones (suc n) = (omega arith, ones n)

pub unary-Decimal : Decimal unary
unary-Decimal = record {
  injective = λ a b e. omega (
    arith,
    ap (length {A = ℕ}) e,
    length-replicate {A = ℕ} a b'1',
    length-replicate {A = ℕ} b b'1',
  );
  no_underscore = ones;
}

abbrev opened : List Bytes
opened = codes "/dev/null" ∷ codes "/etc/a" ∷ codes "/etc/b" ∷ codes "/etc/a" ∷ []

pack_files-replaced_example :
    DistinctNames (pack_files machine unary opened (first_copy (codes "/app"))).copies
    × (copy : Bytes) × (find_suitable_replacement machine
          (codes "out")
          (pack_files machine unary opened (first_copy (codes "/app"))).replay_map
          (codes "/etc/a")
        ≡ some (codes "out/pack/" ++ copy))
    × Has
        (codes "/etc/a", copy)
        (pack_files machine unary opened (first_copy (codes "/app"))).copies
unfolding starts_with contains
pack_files-replaced_example =
    pack_files-replaced machine unary unary-Decimal (codes "/app") opened (codes "/etc/a")
      (codes "out") (pack_files machine unary opened (first_copy (codes "/app"))).replay_map machine
      (omega arith) (inr (inl refl)) (refl, refl) refl (λ key. refl)
