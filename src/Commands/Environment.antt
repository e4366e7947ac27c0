-- ===== src/Commands/Environment.antt =====
-- The environment that `record` keeps and starts the program with, and what `replay` and `debug` make of it.
use dpcpp_trace.Prelude.{
  ℕ, ◌+◌, ◌≡◌, refl, ap, ◌∙◌, ◌≢◌, inl, inr, Bool, true, false, some, List, [], ◌∷◌, ◌++◌,
  append-nil, append_assoc, arith, ◌==◌, if◌then◌else◌, Bool-cases, Option-cases, Bytes, length,
  take, drop, All, take-append, codes, starts_with,
}
use dpcpp_trace.Options.{Options}
use dpcpp_trace.Commands.{Host, JsonCodec, Launch}
use dpcpp_trace.Commands.Record.{recorded, env_lines, record_env, record_launch, record_command}
use dpcpp_trace.Commands.Replay.{
  prepared, Plugins, get_lines, packed_env, allowed, overrides, library_prefix, replay_env, prepare,
}

abbrev is_library_path : Bytes → Bool
is_library_path = starts_with (codes "LD_LIBRARY_PATH=")

-- The entries for the library path, counted, taken away, and their values in a row.
abbrev pub count_library_paths : List Bytes → ℕ
count_library_paths [] = 0
count_library_paths (e ∷ env) = (if is_library_path e then 1 else 0) + count_library_paths env

abbrev pub other_entries : List Bytes → List Bytes
other_entries [] = []
other_entries (e ∷ env) = if is_library_path e then other_entries env else e ∷ other_entries env

abbrev pub library_values : List Bytes → Bytes
library_values [] = []
library_values (e ∷ env) =
    if is_library_path e then drop 16 e ++ library_values env else library_values env

-- An entry that is one line, and not an empty one at that.
abbrev pub OneLine : Bytes → Type 0
OneLine = All (λ c. c ≢ 10)

count-append :
    (xs ys : List Bytes)
    → count_library_paths (xs ++ ys) ≡ count_library_paths xs + count_library_paths ys
count-append [] ys = omega arith
count-append (x ∷ xs) ys = omega (arith, count-append xs ys)

get_lines-entry :
    (entry : Bytes) (rest : Bytes)
    → OneLine entry
    → get_lines (entry ++ (10 ∷ rest)) ≡ entry ∷ get_lines rest
unfolding get_lines
get_lines-entry [] rest h = refl
get_lines-entry (c ∷ entry) rest (h, hs) =
    let other : (c == 10) ≡ false = ground arith in
    rw (get_lines, other, get_lines-entry entry rest hs) refl

-- The environment is read from its file as it was written, if no entry has a line break.
get_lines-env_lines : (env : List Bytes) → All OneLine env → get_lines (env_lines env) ≡ env
unfolding get_lines env_lines
get_lines-env_lines [] h = refl
get_lines-env_lines (entry ∷ env) (h, hs) =
    get_lines-entry entry (env_lines env) h ∙ ap (λ t. entry ∷ t) (get_lines-env_lines env hs)

packed_env_lem :
    (env : List Bytes) (full : Bytes)
    → packed_env env full ≡ (full ++ library_values env, other_entries env)
unfolding packed_env
packed_env_lem [] full = rw append-nil refl
packed_env_lem (e ∷ env) full = elim (Bool-cases (is_library_path e)) [
  | inl library ↦
      rw (packed_env, library)
        (packed_env_lem env (full ++ drop 16 e)
          ∙ ap (λ t. (t, other_entries env)) (append_assoc full (drop 16 e) (library_values env)))
  | inr other ↦ rw (packed_env, other, packed_env_lem env full) refl
]

count-other_entries : (env : List Bytes) → count_library_paths (other_entries env) ≡ 0
count-other_entries [] = refl
count-other_entries (e ∷ env) = ground (arith, count-other_entries env)

starts_with_front : (p q e : Bytes) → starts_with p e ≡ false → starts_with (p ++ q) e ≡ false
unfolding starts_with
starts_with_front [] q e h = absurd (cc)
starts_with_front (c ∷ p) q [] h = refl
starts_with_front (c ∷ p) q (d ∷ e) h = ground (arith, starts_with_front p q e)

count-allowed : (env : List Bytes) → count_library_paths (allowed env) ≡ 0
unfolding allowed
count-allowed [] = refl
count-allowed (e ∷ env) = elim (Bool-cases (starts_with (codes "LD_LIBRARY_PATH") e)) [
  | inl library ↦ rw (allowed, library) (count-allowed env)
  | inr other ↦
      let ih = count-allowed env in
      rw (allowed, other, starts_with_front (codes "LD_LIBRARY_PATH") (codes "=") e other, ih) refl
]

count-overrides : (p : Plugins) → count_library_paths (overrides p) ≡ 0
unfolding starts_with
count-overrides p = ground arith

-- The parts that the replayed environment is made of, with the library path among them once.
assembled :
    (env : List Bytes) (plugins : Plugins) (value path : Bytes)
    → count_library_paths env ≡ 0
    → count_library_paths (
        env
        ++ (codes "LD_PRELOAD=libsystem_intercept.so"
            ∷ (overrides plugins
                ++ (codes "LD_LIBRARY_PATH=" ++ value)
                  ∷ (codes "DPCPP_TRACE_DATA_PATH=" ++ path)
                  ∷ [])))
      ≡ 1
unfolding starts_with
assembled env plugins value path h = omega (
  arith,
  count-append env (
      codes "LD_PRELOAD=libsystem_intercept.so"
      ∷ (overrides plugins
          ++ (codes "LD_LIBRARY_PATH=" ++ value) ∷ (codes "DPCPP_TRACE_DATA_PATH=" ++ path) ∷ [])),
  count-append (overrides plugins)
      ((codes "LD_LIBRARY_PATH=" ++ value) ∷ (codes "DPCPP_TRACE_DATA_PATH=" ++ path) ∷ []),
  count-overrides plugins,
)

count-replay_env :
    (host : Host) (opts : Options) (path : Bytes) (packed : Bool) (plugins : Plugins)
    → count_library_paths (replay_env host opts path packed plugins) ≡ 1
unfolding replay_env
count-replay_env host opts path false plugins =
    elim (Option-cases (host.getenv (codes "LD_LIBRARY_PATH"))) [
      | inl e ↦
          rw (replay_env, e)
            (assembled (allowed opts.env_vars) plugins _ path (count-allowed opts.env_vars))
      | inr (own, e) ↦
          rw (replay_env, e)
            (assembled (allowed opts.env_vars) plugins _ path (count-allowed opts.env_vars))
    ]
count-replay_env host opts path true plugins =
    elim (Option-cases (host.contents (host.join path (codes "env")))) [
      | inl e ↦ rw (replay_env, e) (assembled [] plugins _ path refl)
      | inr (lines, e) ↦
          rw (replay_env, e, packed_env_lem (get_lines lines) _)
            (assembled (other_entries (get_lines lines)) plugins _ path
              (count-other_entries (get_lines lines)))
    ]

-- Whatever the trace, the options and the process's own environment are: a program that `replay` and
-- `debug` go on to launch has exactly one entry for the library path.
prepare-one_library_path :
    (host : Host) (json : JsonCodec) (opts : Options) (launch : Launch) (packed : Bool)
    → prepare host json opts ≡ prepared launch packed
    → count_library_paths launch.env ≡ 1
unfolding prepare
prepare-one_library_path host json opts launch packed h = grind (arith, count-replay_env)

-- For a packed trace whose file of the environment is what `record` wrote for entries without line
-- breaks: the program gets the recorded entries in their order, without those for the library path;
-- the interceptor and the plugins' replacements; one library path, the library's directory and then
-- the recorded values; and where the trace is.
pub replay_env_recorded :
    (host : Host) (opts : Options) (path : Bytes) (plugins : Plugins) (env : List Bytes)
    → host.contents (host.join path (codes "env")) ≡ some (env_lines env)
    → All OneLine env
    → replay_env host opts path true plugins
      ≡ other_entries env
        ++ (codes "LD_PRELOAD=libsystem_intercept.so"
            ∷ (overrides plugins
                ++ (library_prefix host opts ++ library_values env)
                  ∷ (codes "DPCPP_TRACE_DATA_PATH=" ++ path)
                  ∷ []))
unfolding replay_env
replay_env_recorded host opts path plugins env e h =
    rw (replay_env, e, get_lines-env_lines env h, packed_env_lem env _) refl

count-record_env :
    (host : Host) (opts : Options)
    → count_library_paths (record_env host opts) ≡ count_library_paths opts.env_vars + 1
unfolding record_env starts_with
count-record_env host opts = elim (Bool-cases opts.record_skip_mem_objs) [
  | inl skip ↦ rw (record_env, skip) (count-append opts.env_vars _)
  | inr keep ↦ rw (record_env, keep) (count-append opts.env_vars _)
]

record-record_env :
    (host : Host) (json : JsonCodec) (opts : Options) (files : List (Bytes × Bytes))
    (launch : Launch)
    → record_command host json opts ≡ recorded files launch
    → launch.env ≡ record_env host opts
unfolding record_command record_launch
record-record_env host json opts files launch h = ground arith

-- A program that is recorded is launched with the entries of the own environment first, and one more
-- entry for the library path behind them: with two, the old one first, if the environment had one.
pub record-library_paths :
    (host : Host) (json : JsonCodec) (opts : Options) (files : List (Bytes × Bytes))
    (launch : Launch)
    → record_command host json opts ≡ recorded files launch
    → (count_library_paths launch.env ≡ count_library_paths opts.env_vars + 1)
      × (take (length opts.env_vars) launch.env ≡ opts.env_vars)
unfolding record_env
record-library_paths host json opts files launch h =
    let e = record-record_env host json opts files launch h in
    (
      ap count_library_paths e ∙ count-record_env host opts,
      ap (take (length opts.env_vars)) e ∙ take-append opts.env_vars _,
    )
