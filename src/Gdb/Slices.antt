-- ===== src/Gdb/Slices.antt =====
-- How a client reads an object that is longer than a packet: part by part.
use dpcpp_trace.Prelude.{
  ℕ, zero, suc, ◌+◌, Option, none, some, [], ◌∷◌, ◌++◌, ◌==◌, if◌then◌else◌, Bytes, length,
}
use dpcpp_trace.Gdb.Transfer.{slice_reply}

-- A client that asks for `len` bytes at a time. A reply with `m` has more behind it, and one with `l`
-- is the last. Any other is an error, also the empty one, by which a server says that it does not
-- support the transfer; and so is an object of more than `n` parts.
unfoldable pub read_parts : ℕ → ℕ → ℕ → Bytes → Option Bytes
read_parts zero offset len text = none
read_parts (suc n) offset len text =
    let rest = read_parts n (offset + len) len text in
    elim (slice_reply (length text) text offset len) [
      | [] ↦ none
      | c ∷ slice ↦
          if c == b'm'
          then elim rest [ none ↦ none | some more ↦ some (slice ++ more) ]
          else if c == b'l'
          then some slice
          else none
    ]
