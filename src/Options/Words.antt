-- ===== src/Options/Words.antt =====
-- The words of a `record` command line, and what they say together, in whatever order they stand.
use dpcpp_trace.Prelude.{
  ℕ, ◌≡◌, refl, ap, ◌∙◌, ◌≢◌, Bool, true, false, Option, none, some, List, [], ◌∷◌, Bytes, All,
  codes,
}
use dpcpp_trace.Options.{is_dashed, is_empty}

-- The words that a user may write, in the spellings that they have.
pub data Word : Type 0 where
  input_word : Bytes → Word
  output_word : Bool → Bytes → Word
  override_word : Word
  skip_word : Bool → Word
  no_fork_word : Word

abbrev pub spelling : Bool → Bytes → Bytes → Bytes
spelling true long short = long
spelling false long short = short

abbrev pub texts : Word → List Bytes → List Bytes
texts (input_word x) rest = x ∷ rest
texts (output_word long x) rest = spelling long (codes "--output") (codes "-o") ∷ x ∷ rest
texts override_word rest = codes "--override" ∷ rest
texts (skip_word long) rest = spelling long (codes "--skip-mem-objects") (codes "-s") ∷ rest
texts no_fork_word rest = codes "--no-fork" ∷ rest

-- A line of words, and behind a `--` the program's own arguments, if there are any to be given.
abbrev pub ending : Option (List Bytes) → List Bytes
ending none = []
ending (some arguments) = codes "--" ∷ arguments

abbrev pub line : List Word → Option (List Bytes) → List Bytes
line [] arguments = ending arguments
line (w ∷ ws) arguments = texts w (line ws arguments)

-- What such words say together.
pub record Said : Type 0 where
  pub input : Bytes
  pub output : Bytes
  pub override : Bool
  pub skip : Bool
  pub no_fork : Bool

abbrev pub nothing : Said
nothing = record { input = []; output = []; override = false; skip = false; no_fork = false }

abbrev pub say : Word → Said → Said
say (input_word x) s = record s { input = x }
say (output_word long x) s = record s { output = x }
say override_word s = record s { override = true }
say (skip_word long) s = record s { skip = true }
say no_fork_word s = record s { no_fork = true }

abbrev pub said : List Word → Said
said [] = nothing
said (w ∷ ws) = say w (said ws)

-- An input is not empty and does not begin with a dash; an output is not empty.
abbrev pub IsWord : Word → Type 0
IsWord (input_word x) = (is_empty x ≡ false) × (is_dashed x ≡ false)
IsWord (output_word long x) = is_empty x ≡ false
IsWord _ = Unit {0}

-- No two words of one kind, whatever their order.
abbrev pub kind : Word → ℕ
kind (input_word x) = 0
kind (output_word long x) = 1
kind override_word = 2
kind (skip_word long) = 3
kind no_fork_word = 4

abbrev pub Once : List Word → Type 0
Once [] = Unit {0}
Once (w ∷ ws) = All (λ v. kind v ≢ kind w) ws × Once ws

-- What is not said yet.
abbrev pub Unsaid : Said → Word → Type 0
Unsaid s (input_word x) = is_empty s.input ≡ true
Unsaid s (output_word long x) = is_empty s.output ≡ true
Unsaid s override_word = s.override ≡ false
Unsaid s (skip_word long) = s.skip ≡ false
Unsaid s no_fork_word = s.no_fork ≡ false

Unsaid-say : (w v : Word) (s : Said) → kind v ≢ kind w → Unsaid s v → Unsaid (say w s) v
Unsaid-say (input_word x) (input_word y) s d h = absurd (d refl)
Unsaid-say (output_word l x) (output_word m y) s d h = absurd (d refl)
Unsaid-say override_word override_word s d h = absurd (d refl)
Unsaid-say (skip_word l) (skip_word m) s d h = absurd (d refl)
Unsaid-say no_fork_word no_fork_word s d h = absurd (d refl)
Unsaid-say w v s d h = h

pub all_Unsaid :
    (w : Word) (ws : List Word) (s : Said)
    → All (λ v. kind v ≢ kind w) ws
    → All (Unsaid s) ws
    → All (Unsaid (say w s)) ws
all_Unsaid w [] s d h = tt
all_Unsaid w (v ∷ ws) s (d, ds) (h, hs) = (Unsaid-say w v s d h, all_Unsaid w ws s ds hs)

say-say : (w v : Word) (s : Said) → kind v ≢ kind w → say v (say w s) ≡ say w (say v s)
say-say (input_word x) (input_word y) s d = absurd (d refl)
say-say (output_word l x) (output_word m y) s d = absurd (d refl)
say-say override_word override_word s d = refl
say-say (skip_word l) (skip_word m) s d = refl
say-say no_fork_word no_fork_word s d = refl
say-say w v s d = refl

-- The words in the order of the parser.
unfoldable pub heard : List Word → Said → Said
heard [] s = s
heard (w ∷ ws) s = heard ws (say w s)

heard-say :
    (w : Word) (ws : List Word) (s : Said)
    → All (λ v. kind v ≢ kind w) ws
    → heard ws (say w s) ≡ say w (heard ws s)
unfolding heard
heard-say w [] s d = refl
heard-say w (v ∷ ws) s (d, ds) = ap (heard ws) (say-say w v s d) ∙ heard-say w ws (say v s) ds

pub heard-said : (ws : List Word) → Once ws → heard ws nothing ≡ said ws
unfolding heard
heard-said [] o = refl
heard-said (w ∷ ws) (d, o) = heard-say w ws nothing d ∙ ap (say w) (heard-said ws o)

pub all_new : (ws : List Word) → All (Unsaid nothing) ws
all_new [] = tt
all_new (input_word x ∷ ws) = (refl, all_new ws)
all_new (output_word long x ∷ ws) = (refl, all_new ws)
all_new (override_word ∷ ws) = (refl, all_new ws)
all_new (skip_word long ∷ ws) = (refl, all_new ws)
all_new (no_fork_word ∷ ws) = (refl, all_new ws)
