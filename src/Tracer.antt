-- ===== src/Tracer.antt =====
-- lib/utils/Tracer.cpp: the tracer that watches a child's system calls through ptrace.
pub mod Memory
pub mod Rounds
pub mod Text
pub mod Stack
pub mod Worker
pub mod Redirect
pub mod Run
pub mod Files
pub mod Launch
pub mod Filter
pub mod Session
use dpcpp_trace.Prelude.{
  ℕ, zero, suc, ◌+◌, ◌-◌, ◌*◌, ◌%◌, ◌^◌, Bool, true, false, not, Option, none, some, [], ◌∷◌, ◌++◌,
  ◌==◌, if◌then◌else◌, Bytes, length, drop,
}

-- `ptrace` of a stopped child, whose state is a `W`. A word is its eight bytes, the lowest first; a
-- peek that fails gives -1, all bits set. A poke that fails gives nothing.
pub record Ptrace (W : Type 0) : Type 0 where
  pub peek : ℕ → W → Bytes
  pub poke : ℕ → Bytes → W → Option W
  pub peek_user : ℕ → W → ℕ
  pub poke_user : ℕ → ℕ → W → W

-- Constants of the system's headers: the places of registers among the user's words, PATH_MAX, and
-- the numbers of the system calls that are stopped at.
pub record System : Type 0 where
  pub rsp : ℕ
  pub rdi : ℕ
  pub rsi : ℕ
  pub orig_rax : ℕ
  pub path_max : ℕ
  pub nr_stat : ℕ
  pub nr_newfstatat : ℕ
  pub nr_openat : ℕ

-- One word of `readString`: its bytes before the first zero, and whether there is one.
unfoldable pub scan_word : Bytes → Bytes × Bool
scan_word [] = ([], false)
scan_word (b ∷ bs) = if b == 0 then ([], true) else (b ∷ (scan_word bs).0, (scan_word bs).1)

-- One buffer of `writeString`: `room` bytes of the text, or all of it and a zero, and whether that was
-- its end. Behind the zero the buffer holds what it held before.
unfoldable pub fill_buffer : ℕ → Bytes → Bytes → Bytes × Bool
fill_buffer zero str junk = ([], false)
fill_buffer (suc room) [] junk = (0 ∷ drop 1 junk, true)
fill_buffer (suc room) (c ∷ str) junk =
    let (buf, ended) = fill_buffer room str (drop 1 junk) in (c ∷ buf, ended)

-- How a write ends: with the child's new state, or with an exception. `pending` is no result of the
-- program: the rounds ran out.
pub data Written (W : Type 0) : Type 0 where
  written : W → Written W
  failed : Written W
  pending : Written W

module _ {W : Type 0} (p : Ptrace W) where
  -- `readString`, with a bound on its rounds; `none` if it has not ended by then.
  unfoldable pub read_loop : ℕ → ℕ → W → Bytes → Option Bytes
  read_loop zero addr w result = none
  read_loop (suc rounds) addr w result =
      let word = scan_word (p.peek (addr % 2 ^ 64) w) in
      elim word.1 [
        | true ↦ some (result ++ word.0)
        | false ↦ read_loop rounds (addr + 8) w (result ++ word.0)
      ]

  unfoldable pub read_string : ℕ → ℕ → W → Option Bytes
  read_string rounds addr w = read_loop rounds addr w []

  unfoldable pub write_loop : ℕ → Bytes → ℕ → Bytes → W → Written W
  write_loop zero junk addr str w = pending
  write_loop (suc rounds) junk addr str w =
      let buf = fill_buffer 8 str junk in
      elim (p.poke addr buf.0 w) [
        | none ↦ failed
        | some w' ↦ elim buf.1 [
          | true ↦ written w'
          | false ↦ write_loop rounds junk ((addr + 8) % 2 ^ 64) (drop 8 str) w'
        ]
      ]

  -- Below the red zone, and below that the longest path.
  unfoldable pub file_address : System → W → ℕ
  file_address sys w = (p.peek_user (8 * sys.rsp) w + 2 ^ 64 - (128 + sys.path_max)) % 2 ^ 64

  -- `writeString`; each round but the last takes eight bytes of the text.
  unfoldable pub write_string : System → Bytes → ℕ → Bytes → W → Written W
  unfolding file_address
  write_string sys junk reg str w =
      let addr = file_address sys w in
      elim (write_loop (suc (length str)) junk addr str w) [
        | written w' ↦ written (p.poke_user reg addr w')
        | failed ↦ failed
        | pending ↦ pending
      ]
