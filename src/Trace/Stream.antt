-- ===== src/Trace/Stream.antt =====
-- `std::ifstream` as far as the readers use it: what is left of the file, and the two flags.
use dpcpp_trace.Prelude.{
  ℕ, Bytes, ◌≡◌, ◌-◌, Bool, true, false, ◌||◌, [], ◌++◌, Option, some, none, length, take, drop,
  replicate, leb, ltb, if◌then◌else◌, le_value, le_bytes, arith, length-append, take-append,
  drop-append, le→leb,
}

pub record Stream : Type 0 where
  pub rest : Bytes
  pub eof : Bool
  pub fail : Bool

-- A stream on a file with these bytes, and on a file that could not be opened.
abbrev pub opened : Bytes → Stream
opened bs = record { rest = bs; eof = false; fail = false }

abbrev pub unopened : Stream
unopened = record { rest = []; eof = false; fail = true }

-- `is.read(p, n)`: the bytes stored at `p`. A read that comes up short keeps what it got and sets
-- both flags; on a stream that is not good it stores nothing and fails.
unfoldable pub read : ℕ → Stream → Bytes × Stream
read n s =
    if s.eof || s.fail
    then ([], record s { fail = true })
    else if leb n (length s.rest)
    then (take n s.rest, record s { rest = drop n s.rest })
    else (s.rest, record { rest = []; eof = true; fail = true })

-- Reading a 32-bit word into a variable that held `junk`: bytes that do not arrive keep their old value.
unfoldable pub read_u32 : ℕ → Stream → ℕ × Stream
unfolding read
read_u32 junk s =
    let (got, s') = read 4 s in (le_value (got ++ drop (length got) (le_bytes 4 junk)), s')

-- `data.resize(n)` and a read into it: zeros behind what arrived. Writing past the buffer is a fault.
unfoldable pub fill : ℕ → Bytes → Option Bytes
fill n got = if ltb n (length got) then none else some (got ++ replicate (n - length got) 0)

pub read_whole :
    (front back : Bytes) → read (length front) (opened (front ++ back)) ≡ (front, opened back)
unfolding read
read_whole front back = ground (
  arith,
  length-append front back,
  le→leb (length front) (length (front ++ back)),
  take-append front back,
  drop-append front back,
)
