-- ===== src/Tracer/Memory.antt =====
-- What a poke does to the bytes of a child, and what a peek sees of them.
use dpcpp_trace.Prelude.{
  ℕ, suc, ◌+◌, ◌^◌, ◌≤◌, ◌<◌, ◌≡◌, refl, ◌∙◌, inl, some, [], ◌∷◌, ◌++◌, arith, ◌==◌, if◌then◌else◌,
  ==_refl, Bytes, length,
}
use dpcpp_trace.Replay.Memory.{Memory, poke, store, load, store_outside}
use dpcpp_trace.Tracer.{Ptrace}

-- The memory holds the text from an address on.
abbrev pub Holds : Memory → ℕ → Bytes → Type 0
Holds m a [] = Unit {0}
Holds m a (c ∷ s) = (m a ≡ c) × Holds m (a + 1) s

-- Memories that agree on a text's place hold it both.
pub Holds-agree :
    (m m' : Memory) (a : ℕ) (s : Bytes)
    → ((b : ℕ) → a ≤ b → b < a + length s → m' b ≡ m b)
    → Holds m a s
    → Holds m' a s
Holds-agree m m' a [] same h = tt
Holds-agree m m' a (c ∷ s) same (e, h) = (
  same a (omega arith) (omega arith) ∙ e,
  Holds-agree m m' (a + 1) s (λ b l u. same b (omega arith) (omega arith)) h,
)

pub Holds-store : (a : ℕ) (xs : Bytes) (m : Memory) → Holds (store a xs m) a xs
unfolding store
Holds-store a [] m = tt
Holds-store a (x ∷ xs) m = (
  store_outside xs (a + 1) a (poke a x m) (inl (omega arith)) ∙ rw (==_refl a) refl,
  Holds-store (a + 1) xs (poke a x m),
)

pub Holds-append :
    (m : Memory) (a : ℕ) (xs ys : Bytes)
    → Holds m a xs
    → Holds m (a + length xs) ys
    → Holds m a (xs ++ ys)
Holds-append m a [] ys h k = let e : a + 0 ≡ a = omega arith in rw e at k
Holds-append m a (x ∷ xs) ys (e, h) k =
    let shift : a + suc (length xs) ≡ a + 1 + length xs = omega arith in
    (e, Holds-append m (a + 1) xs ys h (rw shift at k))

pub Holds-front : (m : Memory) (a : ℕ) (xs ys : Bytes) → Holds m a (xs ++ ys) → Holds m a xs
Holds-front m a [] ys h = tt
Holds-front m a (x ∷ xs) ys (e, h) = (e, Holds-front m (a + 1) xs ys h)

-- What the tracer relies on of ptrace, for a child whose addresses from `lo` to `hi` are mapped and
-- can be written: a peek there sees the bytes of the memory; a poke there succeeds, changes its eight
-- bytes and nothing else, and no register; and setting a register changes that one and no memory.
pub record Mapped {W : Type 0} (p : Ptrace W) (lo hi : ℕ) : Type 0 where
  pub byte : W → Memory
  pub in_space : hi ≤ 2 ^ 64
  pub peek_lem : (a : ℕ) (w : W) → lo ≤ a → a + 8 ≤ hi → p.peek a w ≡ load 8 a (byte w)
  pub poke_lem :
      (a : ℕ) (word : Bytes) (w : W)
      → lo ≤ a
      → a + 8 ≤ hi
      → length word ≡ 8
      → (w' : W) × (p.poke a word w ≡ some w')
        × ((b : ℕ) → byte w' b ≡ store a word (byte w) b)
        × ((reg : ℕ) → p.peek_user reg w' ≡ p.peek_user reg w)
  pub poke_user_memory :
      (reg value : ℕ) (w : W) (b : ℕ) → byte (p.poke_user reg value w) b ≡ byte w b
  pub poke_user_lem :
      (reg value other : ℕ) (w : W)
      → p.peek_user other (p.poke_user reg value w)
        ≡ (if reg == other then value else p.peek_user other w)
