-- ===== src/HostDebugger/Block.antt =====
-- Parts of a block of bytes that grows and is written into.
use dpcpp_trace.Prelude.{
  ℕ, ◌+◌, ◌-◌, ◌≤◌, ◌≡◌, refl, sym, ap, ◌∙◌, ◌⊎◌, inl, inr, ◌++◌, arith, leb, Bool-cases, Bytes,
  length, take, drop, replicate, length-append, length-replicate, take-append, length-drop,
  drop-drop, length-take, take-append_le, take-take, drop-append_ge, take-drop_comm,
}
use dpcpp_trace.HostDebugger.Registers.{grow, place, part}

pub length-place :
    (offset : ℕ) (bytes buffer : Bytes)
    → offset + length bytes ≤ length buffer
    → length (place offset bytes buffer) ≡ length buffer
unfolding place
length-place offset bytes buffer h = omega (
  arith,
  length-append (take offset buffer) (bytes ++ drop (offset + length bytes) buffer),
  length-append bytes (drop (offset + length bytes) buffer),
  length-take offset buffer (omega arith),
  length-drop (offset + length bytes) buffer,
)

pub length-grow :
    (size : ℕ) (buffer : Bytes)
    → (size ≤ length (grow size buffer)) × (length buffer ≤ length (grow size buffer))
unfolding grow
length-grow size buffer = ground (
  arith,
  length-append buffer (replicate (size - length buffer) 0),
  length-replicate {A = ℕ} (size - length buffer) 0,
)

pub part-place_self :
    (offset : ℕ) (bytes buffer : Bytes)
    → offset ≤ length buffer
    → part offset (length bytes) (place offset bytes buffer) ≡ bytes
unfolding place
part-place_self offset bytes buffer h =
    let size = length-take offset buffer h in
    let none_left : offset - length (take offset buffer) ≡ 0 = omega arith in
    rw
      (
        place,
        drop-append_ge offset (take offset buffer) (bytes ++ drop (offset + length bytes) buffer)
            (omega arith),
        none_left,
      )
      (take-append bytes (drop (offset + length bytes) buffer))

part_front :
    (o s : ℕ) (xs ys : Bytes) → take (o + s) xs ≡ take (o + s) ys → part o s xs ≡ part o s ys
part_front o s xs ys e = take-drop_comm o s xs ∙ ap (drop o) e ∙ sym (take-drop_comm o s ys)

pub part-grow :
    (o s size : ℕ) (buffer : Bytes)
    → o + s ≤ length buffer
    → part o s (grow size buffer) ≡ part o s buffer
unfolding grow
part-grow o s size buffer h = elim (Bool-cases (leb (length buffer) size)) [
  | inl short ↦
      rw (grow, short)
        (part_front o s (buffer ++ replicate (size - length buffer) 0) buffer
          (take-append_le (o + s) buffer (replicate (size - length buffer) 0) h))
  | inr long ↦ rw (grow, long) refl
]

pub part-place_other :
    (o s p : ℕ) (bytes buffer : Bytes)
    → p + length bytes ≤ length buffer
    → o + s ≤ length buffer
    → (o + s ≤ p) ⊎ (p + length bytes ≤ o)
    → part o s (place p bytes buffer) ≡ part o s buffer
unfolding place
part-place_other o s p bytes buffer fits h (inl below) =
    let size = length-take p buffer (omega arith) in
    part_front o s (place p bytes buffer) buffer (
      take-append_le (o + s) (take p buffer) (bytes ++ drop (p + length bytes) buffer) (omega arith)
      ∙ take-take (o + s) p buffer below)
part-place_other o s p bytes buffer fits h (inr above) =
    let size = length-take p buffer (omega arith) in
    let behind : o - length (take p buffer) - length bytes ≡ o - (p + length bytes) = omega arith in
    let whole : p + length bytes + (o - (p + length bytes)) ≡ o = omega arith in
    ap (take s) (
      drop-append_ge o (take p buffer) (bytes ++ drop (p + length bytes) buffer) (omega arith)
      ∙ drop-append_ge (o - length (take p buffer)) bytes (drop (p + length bytes) buffer)
          (omega arith)
      ∙ ap (λ n. drop n (drop (p + length bytes) buffer)) behind
      ∙ drop-drop (p + length bytes) (o - (p + length bytes)) buffer
      ∙ ap (λ n. drop n buffer) whole)
