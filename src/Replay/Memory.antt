-- ===== src/Replay/Memory.antt =====
-- The address space that the plugin shares with the program: a byte at every address.
use dpcpp_trace.Prelude.{
  ℕ, zero, suc, ◌+◌, ◌≤◌, ◌<◌, ◌≡◌, refl, ap, ◌⊎◌, inl, [], ◌∷◌, arith, ◌==◌, if◌then◌else◌,
  ==_refl, Bytes, length,
}

abbrev pub Memory : Type 0
Memory = ℕ → ℕ

abbrev pub poke : ℕ → ℕ → Memory → Memory
poke p b m = λ a. if a == p then b else m a

-- Consecutive bytes from `p` on.
unfoldable pub store : ℕ → Bytes → Memory → Memory
store p [] m = m
store p (b ∷ bs) m = store (p + 1) bs (poke p b m)

unfoldable pub load : ℕ → ℕ → Memory → Bytes
load zero p m = []
load (suc n) p m = m p ∷ load n (p + 1) m

-- Outside the bytes written, memory is what it was.
pub store_outside :
    (bs : Bytes) (p a : ℕ) (m : Memory) → (a < p) ⊎ (p + length bs ≤ a) → store p bs m a ≡ m a
unfolding store
store_outside [] p a m h = refl
store_outside (b ∷ bs) p a m h = ground (arith, store_outside bs (p + 1) a (poke p b m))

-- What was stored is loaded.
pub load-store : (bs : Bytes) (p : ℕ) (m : Memory) → load (length bs) p (store p bs m) ≡ bs
unfolding load store
load-store [] p m = refl
load-store (b ∷ bs) p m = rw (
  load-store bs (p + 1) (poke p b m),
  store_outside bs (p + 1) p (poke p b m) (inl (omega arith)),
  ==_refl p,
)

-- Bytes elsewhere are loaded as before.
pub load_outside :
    (n : ℕ) (bs : Bytes) (q p : ℕ) (m : Memory)
    → (q + n ≤ p) ⊎ (p + length bs ≤ q)
    → load n q (store p bs m) ≡ load n q m
unfolding load
load_outside zero bs q p m h = refl
load_outside (suc n) bs q p m h =
    ground (arith, store_outside bs p q m, load_outside n bs (q + 1) p m)

pub length-load : (n p : ℕ) (m : Memory) → length (load n p m) ≡ n
unfolding load
length-load zero p m = refl
length-load (suc n) p m = ap suc (length-load n (p + 1) m)
