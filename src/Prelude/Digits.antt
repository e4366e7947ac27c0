-- ===== src/Prelude/Digits.antt =====
-- `std::to_string` as a parameter, and names that it is a part of.
use Prim.Native.Nat.{ℕ}
use mathlib.Core.Path.{◌≡◌, refl}
use mathlib.Core.Logic.{◌≢◌}
use mathlib.Core.List.{[], ◌∷◌, ◌++◌}
use dpcpp_trace.Prelude.Lists.{Bytes, All}

-- What is relied on of `std::to_string`: different numbers have different texts, without an underscore.
pub record Decimal (to_string : ℕ → Bytes) : Type 0 where
  pub injective : (a b : ℕ) → to_string a ≡ to_string b → a ≡ b
  pub no_underscore : (n : ℕ) → All (λ c. c ≢ b'_') (to_string n)

pub split_underscore : (p s : Bytes) → All (λ c. c ≢ b'_') (p ++ (b'_' ∷ s)) → ⊥
split_underscore [] s h = h.0 refl
split_underscore (c ∷ p) s h = split_underscore p s h.1

-- What stands before the last underscore, and what stands behind it.
pub cut_last :
    (p q s t : Bytes)
    → All (λ c. c ≢ b'_') s
    → All (λ c. c ≢ b'_') t
    → p ++ (b'_' ∷ s) ≡ q ++ (b'_' ∷ t)
    → (p ≡ q) × (s ≡ t)
cut_last [] [] s t hs ht e = (refl, cc)
cut_last [] (d ∷ q) s t hs ht e =
    let rest : s ≡ q ++ (b'_' ∷ t) = cc in absurd (split_underscore q t (rw (← rest) hs))
cut_last (c ∷ p) [] s t hs ht e =
    let rest : p ++ (b'_' ∷ s) ≡ t = cc in absurd (split_underscore p s (rw rest ht))
cut_last (c ∷ p) (d ∷ q) s t hs ht e =
    let rest : p ++ (b'_' ∷ s) ≡ q ++ (b'_' ∷ t) = cc in
    let (front, back) = cut_last p q s t hs ht rest in (cc, back)
