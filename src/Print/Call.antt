-- ===== src/Print/Call.antt =====
-- src/print.cpp `printRecord`: one call with its arguments, in short or with all that is known of it.
use dpcpp_trace.Prelude.{
  ℕ, ◌+◌, Bool, Option, none, some, List, [], ◌∷◌, ◌++◌, map, if◌then◌else◌, Bytes, length,
  replicate, codes,
}
use dpcpp_trace.Print.{duration}
use dpcpp_trace.Print.Args.{Shown, print_call_args}
use dpcpp_trace.Print.Order.{TraceRecord}

-- A line of fixed text, a `{:<18} : {}` with its label, an argument.
pub data RecordLine : Type 0 where
  raw : Bytes → RecordLine
  field : Bytes → Bytes → RecordLine
  argument : Shown → RecordLine

-- `api` is the table that `pi.def` expands to; `to_string` is `std::to_string`, and `{}` of a number.
module _ (to_string : ℕ → Bytes) (api : ℕ → Option Bytes) where
  unfoldable pub get_api_name : ℕ → Bytes
  get_api_name id = elim (api id) [
    | none ↦ codes "UNKNOWN ID : " ++ to_string id
    | some name ↦ name
  ]

  abbrev opening : Bytes
  opening = b'>' ∷ replicate 35 b'~'

  abbrev closing : Bytes
  closing = b'<' ∷ replicate 35 b'~'

  unfoldable pub print_record : Bool → TraceRecord → List RecordLine
  unfolding get_api_name
  print_record verbose (thread, c) =
      (if verbose
        then raw []
          ∷ raw opening
          ∷ raw []
          ∷ field (codes "Thread ID") thread
          ∷ field (codes "Call duration") (to_string (duration c))
          ∷ field (codes "Captured outputs")
              (to_string (length c.small_outputs + length c.mem_obj_outputs))
          ∷ raw []
          ∷ []
        else [])
      ++ (raw (codes "----> " ++ get_api_name c.function_id ++ codes "(")
          ∷ (map argument (print_call_args c.args)
              ++ (raw (codes ") : " ++ to_string c.return_value)
                  ∷ (if verbose then raw [] ∷ raw closing ∷ [] else []))))
