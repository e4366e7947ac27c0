-- ===== src/Options.antt =====
-- lib/utils/options.cpp: the command line, by the command that it names.
pub mod Words
pub mod Record
use dpcpp_trace.Prelude.{
  zero, ◌<◌, Bool, true, false, not, ◌&&◌, ◌||◌, Option, none, some, List, [], ◌∷◌, ◌++◌, ◌==◌,
  if◌then◌else◌, Bytes, take, same_text, codes,
}

pub data Mode : Type 0 where
  record_mode replay_mode print_mode info_mode pack_mode unpack_mode debug_mode : Mode

pub data PrintGroupBy : Type 0 where
  none_group thread_group : PrintGroupBy

-- `options`; a mode of `none` was never written.
pub record Options : Type 0 where
  pub executable_path : Bytes
  pub input : Bytes
  pub output : Bytes
  pub arguments : List Bytes
  pub mode : Option Mode
  pub print_group : PrintGroupBy
  pub print_performance_summary : Bool
  pub verbose : Bool
  pub env_vars : List Bytes
  pub record_skip_mem_objs : Bool
  pub record_override_trace : Bool
  pub no_fork : Bool
  pub print_only : Bool
  pub debug_server_only : Bool

-- An exception with its text, `std::terminate`, `exit(EXIT_FAILURE)`, or a null pointer read as a text.
pub data Parsed : Type 0 where
  parsed : Options → Parsed
  runtime_error : Bytes → Parsed
  terminated : Parsed
  exit_failure : Parsed
  undefined : Parsed

-- `opt[0] == '-'`; the first character of an empty argument is the zero behind it.
abbrev pub is_dashed : Bytes → Bool
is_dashed [] = false
is_dashed (c ∷ _) = c == b'-'

abbrev pub is_empty : Bytes → Bool
is_empty [] = true
is_empty (_ ∷ _) = false

abbrev pub is_output : Bytes → Bool
is_output opt = same_text opt (codes "--output") || same_text opt (codes "-o")

-- What a round of a parser's loop does with its option: it goes on, or it ends the loop and the other
-- arguments are the program's own, or it takes the next argument, or it does not come back.
pub data Step : Type 0 where
  next : Options → Step
  extra : Step
  take_value : Parsed → (Bytes → Parsed) → Step
  stop : Parsed → Step

-- `while (i < argc)`, with the round of each parser.
unfoldable pub run : (Bytes → Options → Step) → List Bytes → Options → Parsed
run step [] o = parsed o
run step (opt ∷ []) o = elim (step opt o) [
  | next o' ↦ parsed o'
  | extra ↦ parsed o
  | take_value missing f ↦ missing
  | stop p ↦ p
]
run step (opt ∷ value ∷ rest) o = elim (step opt o) [
  | next o' ↦ run step (value ∷ rest) o'
  | extra ↦ parsed (record o { arguments = o.arguments ++ value ∷ rest })
  | take_value missing f ↦ elim (f value) [
    | parsed o' ↦ run step rest o'
    | runtime_error text ↦ runtime_error text
    | terminated ↦ terminated
    | exit_failure ↦ exit_failure
    | undefined ↦ undefined
  ]
  | stop p ↦ p
]

-- The round of `parseRecordOptions`.
unfoldable pub record_step : Bytes → Options → Step
record_step opt o = elim (not (is_dashed opt) && is_empty o.input) [
  | true ↦ next (record o { input = opt })
  | false ↦ elim (same_text opt (codes "--")) [
    | true ↦ extra
    | false ↦ elim (is_output opt && is_empty o.output) [
      | true ↦
          take_value (runtime_error (codes "--output requires an argument\n"))
            (λ value. parsed (record o { output = value }))
      | false ↦ elim (same_text opt (codes "--override") && not o.record_override_trace) [
        | true ↦ next (record o { record_override_trace = true })
        | false ↦
            elim ((same_text opt (codes "--skip-mem-objects") || same_text opt (codes "-s"))
              && not o.record_skip_mem_objs) [
                | true ↦ next (record o { record_skip_mem_objs = true })
                | false ↦ elim (same_text opt (codes "--no-fork") && not o.no_fork) [
                  | true ↦ next (record o { no_fork = true })
                  | false ↦ stop (runtime_error (codes "unrecognized option " ++ opt))
                ]
              ]
      ]
    ]
  ]
]

-- What `parseRecordOptions` asks for at the end.
abbrev pub require_both : Parsed → Parsed
require_both (parsed o) =
    if is_empty o.input
    then runtime_error (codes "input is required")
    else if is_empty o.output
    then runtime_error (codes "output is required")
    else parsed o
require_both other = other

unfoldable pub parse_record_options : List Bytes → Options → Parsed
parse_record_options args o = require_both (run record_step args o)

-- The round of `parseReplayOptions`; the input may be given again, and what it does not know is skipped.
unfoldable pub replay_step : Bytes → Options → Step
replay_step opt o = elim (is_dashed opt) [
  | false ↦ next (record o { input = opt })
  | true ↦ elim (same_text opt (codes "--")) [
    | true ↦ extra
    | false ↦ elim (is_output opt || same_text opt (codes "-t")) [
      | true ↦ take_value terminated (λ value. parsed (record o { output = value }))
      | false ↦ elim (same_text opt (codes "--no-fork") && not o.no_fork) [
        | true ↦ next (record o { no_fork = true })
        | false ↦
            elim ((same_text opt (codes "--print-only") || same_text opt (codes "-p"))
              && not o.print_only) [ true ↦ next (record o { print_only = true }) | false ↦ next o ]
      ]
    ]
  ]
]

-- What `parseReplayOptions` and `parsePrintOptions` ask for at the end.
abbrev require_input : Parsed → Parsed
require_input (parsed o) = if is_empty o.input then terminated else parsed o
require_input other = other

unfoldable pub parse_replay_options : List Bytes → Options → Parsed
parse_replay_options args o = require_input (run replay_step args o)

-- The round of `parsePrintOptions`; behind a last `--group` stands the null pointer that ends `argv`.
unfoldable pub print_step : Bytes → Options → Step
print_step opt o = elim (is_dashed opt) [
  | false ↦ next (record o { input = opt })
  | true ↦ elim (same_text opt (codes "--group")) [
    | true ↦ take_value undefined (λ group.
        if same_text group (codes "none")
        then parsed (record o { print_group = none_group })
        else if same_text group (codes "thread")
        then parsed (record o { print_group = thread_group })
        else terminated)
    | false ↦ elim (same_text opt (codes "--verbose")) [
      | true ↦ next (record o { verbose = true })
      | false ↦ elim (same_text opt (codes "--perf")) [
        | true ↦ next (record o { print_performance_summary = true })
        | false ↦ next o
      ]
    ]
  ]
]

unfoldable pub parse_print_options : List Bytes → Options → Parsed
parse_print_options args o = require_input (run print_step args o)

-- The round that `parsePackOptions` and `parseUnpackOptions` share.
unfoldable pub pack_step : Bytes → Options → Step
pack_step opt o = elim (is_dashed opt) [
  | false ↦ next (record o { input = opt })
  | true ↦ elim (is_output opt) [
    | true ↦ take_value terminated (λ value. parsed (record o { output = value }))
    | false ↦ next o
  ]
]

unfoldable pub parse_pack_options : List Bytes → Options → Parsed
parse_pack_options [] o = exit_failure
parse_pack_options (arg ∷ args) o = run pack_step (arg ∷ args) o

unfoldable pub debug_step : Bytes → Options → Step
debug_step opt o = elim (is_dashed opt) [
  | false ↦ next (record o { input = opt })
  | true ↦ elim (same_text opt (codes "--server") && not o.debug_server_only) [
    | true ↦ next (record o { debug_server_only = true })
    | false ↦ next o
  ]
]

unfoldable pub parse_debug_options : List Bytes → Options → Parsed
parse_debug_options [] o = exit_failure
parse_debug_options (arg ∷ args) o = run debug_step (arg ∷ args) o

unfoldable pub parse_info_options : List Bytes → Options → Parsed
parse_info_options [] o = parsed o
parse_info_options (_ ∷ _) o = runtime_error (codes "info does not take any arguments")

-- The members before anything is parsed.
abbrev pub initial : Bytes → List Bytes → Options
initial path env = record {
  executable_path = path;
  input = [];
  output = [];
  arguments = [];
  mode = none;
  print_group = none_group;
  print_performance_summary = false;
  verbose = false;
  env_vars = env;
  record_skip_mem_objs = false;
  record_override_trace = false;
  no_fork = false;
  print_only = false;
  debug_server_only = false;
}

-- The command's parser.
unfoldable pub parse_command : Bytes → List Bytes → Options → Parsed
parse_command command args o =
    if same_text command (codes "record")
    then parse_record_options args (record o { mode = some record_mode })
    else if same_text command (codes "replay")
    then parse_replay_options args (record o { mode = some replay_mode })
    else if same_text command (codes "print")
    then parse_print_options args (record o { mode = some print_mode })
    else if same_text command (codes "info")
        || same_text command (codes "--help")
        || same_text command (codes "-h")
    then parse_info_options args (record o { mode = some info_mode })
    else if same_text command (codes "pack")
    then parse_pack_options args (record o { mode = some pack_mode })
    else if same_text command (codes "unpack")
    then parse_pack_options args (record o { mode = some unpack_mode })
    else if same_text command (codes "debug")
    then parse_debug_options args (record o { mode = some debug_mode })
    else parsed o

-- The constructor, on `argv` behind the program's name, and the link to the program, which may not be read.
unfoldable pub options : List Bytes → List Bytes → Option Bytes → Parsed
options [] env link = terminated
options (command ∷ args) env none = runtime_error (codes "Failed to identify location")
options (command ∷ args) env (some path) = parse_command command args (initial path env)
