-- ===== src/Commands.antt =====
-- src/: the commands around a program that is recorded or replayed, and what they share.
pub mod Which
pub mod Record
pub mod Replay
pub mod Pack
pub mod Same
pub mod Environment
pub mod Copies
pub mod Packed
use dpcpp_trace.Prelude.{
  ℕ, zero, suc, ◌+◌, ◌-◌, Bool, true, false, not, Option, none, some, List, [], ◌∷◌, ◌==◌,
  if◌then◌else◌, Bytes, length, take, drop, same_text, codes,
}

-- What the commands ask the system: the file system, the process's environment, and std::filesystem's
-- paths as texts. `none` is a file that cannot be opened, or a variable that is not set.
pub record Host : Type 0 where
  pub exists : Bytes → Bool
  pub is_directory : Bytes → Bool
  pub is_regular_file : Bytes → Bool
  pub create_directory : Bytes → Bool
  pub contents : Bytes → Option Bytes
  pub getenv : Bytes → Option Bytes
  pub can_load_library : Bytes → Bool
  pub join : Bytes → Bytes → Bytes
  pub parent_path : Bytes → Bytes
  pub file_name : Bytes → Bytes
  pub stem : Bytes → Bytes

-- The values that the configuration holds, and the object, which has each key once.
pub data Json : Type 0 where
  text : Bytes → Json
  flag : Bool → Json
  texts : List Bytes → Json

abbrev pub Object : Type 0
Object = List (Bytes × Json)

-- nlohmann's writer and reader; `none` is the exception of a text that is no object.
pub record JsonCodec : Type 0 where
  pub dump : Object → Bytes
  pub parse : Bytes → Option Object

-- `object[key]` as a value, and as the target of an assignment.
unfoldable pub find : {V : Type 0} → Bytes → List (Bytes × V) → Option V
find key [] = none
find key ((k, v) ∷ object) = if same_text k key then some v else find key object

unfoldable pub set_key : {V : Type 0} → Bytes → V → List (Bytes × V) → List (Bytes × V)
set_key key value [] = (key, value) ∷ []
set_key key value ((k, v) ∷ object) =
    if same_text k key then (k, value) ∷ object else (k, v) ∷ set_key key value object

-- `get<std::string>()`, `get<bool>()`, and the texts of an array; `none` is the exception of another type.
unfoldable pub get_text : Bytes → Object → Option Bytes
get_text key object = elim (find key object) [ some (text t) ↦ some t | _ ↦ none ]

unfoldable pub get_flag : Bytes → Object → Option Bool
get_flag key object = elim (find key object) [ some (flag b) ↦ some b | _ ↦ none ]

unfoldable pub get_texts : Bytes → Object → Option (List Bytes)
get_texts key object = elim (find key object) [ some (texts ts) ↦ some ts | _ ↦ none ]

-- What is given to the tracer.
pub record Launch : Type 0 where
  pub executable : Bytes
  pub args : List Bytes
  pub env : List Bytes

-- How the search for an executable ends: `undefined` is a PATH that is not set, which is not tested.
pub data Found : Type 0 where
  found : Bytes → Found
  not_found : Found
  undefined : Found

unfoldable pub find_char : ℕ → Bytes → ℕ → Option ℕ
find_char c [] i = none
find_char c (x ∷ xs) i = if x == c then some i else find_char c xs (i + 1)

module _ (host : Host) where
  -- The loop of `which`, with a bound on its rounds.
  unfoldable pub which_loop : ℕ → Bytes → Bytes → ℕ → Found
  which_loop zero path executable last = not_found
  which_loop (suc rounds) path executable last = elim (find_char b':' (drop last path) last) [
    | none ↦
        let cand = host.join (take (length path - last) (drop last path)) executable in
        if host.exists cand then found cand else not_found
    | some next ↦
        let cand = host.join (take (next - last) (drop last path)) executable in
        elim (host.exists cand) [
          | true ↦ found cand
          | false ↦ which_loop rounds path executable (next + 1)
        ]
  ]

  -- Each round but the last passes a separator.
  unfoldable pub which : Bytes → Found
  which executable = elim (host.getenv (codes "PATH")) [
    | none ↦ undefined
    | some path ↦ which_loop (suc (length path)) path executable 0
  ]
