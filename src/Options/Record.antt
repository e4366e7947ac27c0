-- ===== src/Options/Record.antt =====
-- The command line of `record`.
use dpcpp_trace.Prelude.{
  ◌≡◌, refl, ap, ◌∙◌, true, false, Option, none, some, List, [], ◌∷◌, arith, Bytes, All, codes,
}
use dpcpp_trace.Options.Words.{
  Word, input_word, output_word, override_word, skip_word, no_fork_word, texts, ending, line, Said,
  nothing, say, said, IsWord, Once, Unsaid, heard, heard-said, all_Unsaid, all_new,
}
use dpcpp_trace.Options.{
  next, take_value, Options, Parsed, parsed, runtime_error, record_mode, is_empty, run, record_step,
  parse_record_options, require_both, terminated, exit_failure, undefined, parse_command, options,
  initial,
}

-- The options that they give.
abbrev pub given : Option (List Bytes) → List Bytes
given none = []
given (some arguments) = arguments

abbrev pub recorded : Said → List Bytes → Bytes → List Bytes → Options
recorded s arguments path env = record (initial path env) {
  mode = some record_mode;
  input = s.input;
  output = s.output;
  arguments = arguments;
  record_override_trace = s.override;
  record_skip_mem_objs = s.skip;
  no_fork = s.no_fork;
}

-- Rounds of the loop.
run-next :
    (opt : Bytes) (rest : List Bytes) (o o' : Options)
    → record_step opt o ≡ next o'
    → run record_step (opt ∷ rest) o ≡ run record_step rest o'
unfolding run
run-next opt [] o o' e = rw (run, e) refl
run-next opt (value ∷ rest) o o' e = rw (run, e) refl

run_output :
    (opt x : Bytes) (rest : List Bytes) (o : Options)
    → record_step opt o
      ≡ take_value
          (runtime_error (codes "--output requires an argument\n"))
          (λ value. parsed (record o { output = value }))
    → run record_step (opt ∷ x ∷ rest) o ≡ run record_step rest (record o { output = x })
unfolding run
run_output opt x rest o e = rw (run, e) refl

run_word :
    (w : Word) (rest env : List Bytes) (path : Bytes) (s : Said)
    → IsWord w
    → Unsaid s w
    → run record_step (texts w rest) (recorded s [] path env)
      ≡ run record_step rest (recorded (say w s) [] path env)
unfolding record_step
run_word (input_word x) rest env path s (_, d) u =
    run-next x rest (recorded s [] path env) (recorded (say (input_word x) s) [] path env)
      (rw (record_step, d, u) refl)
run_word (output_word true x) rest env path s h u =
    run_output (codes "--output") x rest (recorded s [] path env) (rw (record_step, u) refl)
run_word (output_word false x) rest env path s h u =
    run_output (codes "-o") x rest (recorded s [] path env) (rw (record_step, u) refl)
run_word override_word rest env path s h u =
    run-next (codes "--override") rest (recorded s [] path env)
      (recorded (say override_word s) [] path env) (rw (record_step, u) refl)
run_word (skip_word true) rest env path s h u =
    run-next (codes "--skip-mem-objects") rest (recorded s [] path env)
      (recorded (say (skip_word true) s) [] path env) (rw (record_step, u) refl)
run_word (skip_word false) rest env path s h u =
    run-next (codes "-s") rest (recorded s [] path env)
      (recorded (say (skip_word false) s) [] path env) (rw (record_step, u) refl)
run_word no_fork_word rest env path s h u =
    run-next (codes "--no-fork") rest (recorded s [] path env)
      (recorded (say no_fork_word s) [] path env) (rw (record_step, u) refl)

run-ending :
    (arguments : Option (List Bytes)) (env : List Bytes) (path : Bytes) (s : Said)
    → run record_step (ending arguments) (recorded s [] path env)
      ≡ parsed (recorded s (given arguments) path env)
unfolding run record_step
run-ending none env path s = refl
run-ending (some []) env path s = refl
run-ending (some (a ∷ more)) env path s = refl

run-line :
    (ws : List Word) (arguments : Option (List Bytes)) (env : List Bytes) (path : Bytes) (s : Said)
    → All IsWord ws
    → Once ws
    → All (Unsaid s) ws
    → run record_step (line ws arguments) (recorded s [] path env)
      ≡ parsed (recorded (heard ws s) (given arguments) path env)
unfolding heard
run-line [] arguments env path s h o u = run-ending arguments env path s
run-line (w ∷ ws) arguments env path s (h, hs) (d, o) (u, us) =
    run_word w (line ws arguments) env path s h u
    ∙ run-line ws arguments env path (say w s) hs o (all_Unsaid w ws s d us)

-- The command line of a record: an input, an output and the three flags, each in any of its spellings,
-- in any order and none of them twice, and behind `--` the program's own arguments, dashed or not. If
-- the input does not begin with a dash, and neither it nor the output is missing or empty, the line is
-- parsed to just what its words say.
pub options-line :
    (ws : List Word) (arguments : Option (List Bytes)) (env : List Bytes) (path : Bytes)
    → All IsWord ws
    → Once ws
    → is_empty (said ws).input ≡ false
    → is_empty (said ws).output ≡ false
    → options (codes "record" ∷ line ws arguments) env (some path)
      ≡ parsed (recorded (said ws) (given arguments) path env)
unfolding options parse_command parse_record_options
options-line ws arguments env path h o i e =
    ap require_both (
      run-line ws arguments env path nothing h o (all_new ws)
      ∙ ap (λ s. parsed (recorded s (given arguments) path env)) (heard-said ws o))
    ∙ rw (i, e) refl

require_both_given :
    (p : Parsed) (o : Options)
    → require_both p ≡ parsed o
    → (is_empty o.input ≡ false) × (is_empty o.output ≡ false)
require_both_given (parsed q) o e = ground arith
require_both_given (runtime_error text) o e = absurd cc
require_both_given terminated o e = absurd cc
require_both_given exit_failure o e = absurd cc
require_both_given undefined o e = absurd cc

-- Whatever the arguments of `record` are: if they are accepted, there are an input and an output.
options-record_given :
    (args env : List Bytes) (link : Option Bytes) (o : Options)
    → options (codes "record" ∷ args) env link ≡ parsed o
    → (is_empty o.input ≡ false) × (is_empty o.output ≡ false)
unfolding options parse_command parse_record_options
options-record_given args env none o e = absurd cc
options-record_given args env (some path) o e =
    require_both_given
      (run record_step args (record (initial path env) { mode = some record_mode })) o e
