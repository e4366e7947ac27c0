-- ===== src/Prelude/Int.antt =====
-- Signed words.
use Prim.Native.Nat.{ℕ, ◌-◌, ◌^◌}
use dpcpp_trace.Prelude.Tests.{ltb, if◌then◌else◌}

-- `negsuc n` is -(n + 1).
pub data ℤ : Type 0 where
  pos : ℕ → ℤ
  negsuc : ℕ → ℤ

-- What a word of so many bits stands for in two's complement.
abbrev pub to_signed : ℕ → ℕ → ℤ
to_signed bits w = if ltb w (2 ^ (bits - 1)) then pos w else negsuc (2 ^ bits - 1 - w)
