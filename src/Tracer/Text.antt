-- ===== src/Tracer/Text.antt =====
-- What `writeString` leaves in the child's memory, and what `readString` makes of it.
use dpcpp_trace.Prelude.{
  ℕ, zero, suc, ◌+◌, ◌%◌, ◌^◌, ◌≤◌, ◌<◌, ◌≡◌, sym, ap, ◌∙◌, ◌⊎◌, inl, inr, true, false, some, [],
  ◌∷◌, ◌++◌, append_assoc, arith, Bytes, length, take, drop, length-drop, take-drop, length-take,
}
use native.Mathlib.Decide.{dec_lt}
use mathlib.Core.Path.{subst}
use dpcpp_trace.Replay.Memory.{store, store_outside}
use dpcpp_trace.Tracer.{Ptrace, scan_word, Written, written, read_loop, write_loop}
use dpcpp_trace.Tracer.Memory.{Holds, Holds-agree, Holds-store, Holds-append, Holds-front, Mapped}
use dpcpp_trace.Tracer.Rounds.{
  NoZero, fill_end, fill_full, scan_end, scan_full, read_stop, read_step, write_stop, write_step,
}

module _ {W : Type 0} (p : Ptrace W) (lo hi : ℕ) (c : Mapped p lo hi) where
  -- A text that stands in mapped memory is read.
  pub read_loop-Holds :
      (rounds addr : ℕ) (w : W) (s acc : Bytes)
      → length s < rounds
      → lo ≤ addr
      → addr + length s + 8 ≤ hi
      → NoZero s
      → Holds (c.byte w) addr (s ++ 0 ∷ [])
      → read_loop p rounds addr w acc ≡ some (acc ++ s)
  unfolding read_loop
  read_loop-Holds zero addr w s acc h l u z k = absurd (omega arith)
  read_loop-Holds (suc rounds) addr w s acc h l u z k =
      let wrap : addr % 2 ^ 64 ≡ addr = omega (arith, c.in_space) in
      let peeked = c.peek_lem addr w l (omega arith) in
      elim (dec_lt (length s) 8) [
        | yes short ↦
            let seen : scan_word (p.peek (addr % 2 ^ 64) w) ≡ (s, true) =
              rw (wrap, peeked) (scan_end 8 addr (c.byte w) s short z k) in
            read_stop p rounds addr w s acc seen
        | no long ↦
            let (scanned, z', k') = scan_full 8 addr (c.byte w) s (omega arith) z k in
            let seen : scan_word (p.peek (addr % 2 ^ 64) w) ≡ (take 8 s, false) =
              rw (wrap, peeked) scanned in
            read_step p rounds addr w (take 8 s) acc seen
            ∙ (read_loop-Holds rounds (addr + 8) w (drop 8 s) (acc ++ take 8 s)
                  (omega (arith, length-drop 8 s)) (omega arith) (omega (arith, length-drop 8 s)) z'
                  k'
                ∙ ap some (append_assoc acc (take 8 s) (drop 8 s))
                ∙ ap (λ t. some (acc ++ t)) (take-drop 8 s))
      ]

  -- What a write leaves: the text and a zero, nothing changed elsewhere, and no register changed.
  abbrev pub Done : W → ℕ → Bytes → Written W → Type 0
  Done w addr s r =
      (w' : W) × (r ≡ written w')
      × Holds (c.byte w') addr (s ++ 0 ∷ [])
      × ((b : ℕ) → (b < addr) ⊎ (addr + length s + 8 ≤ b) → c.byte w' b ≡ c.byte w b)
      × ((reg : ℕ) → p.peek_user reg w' ≡ p.peek_user reg w)

  -- The last round, and one before it.
  write_last :
      (rounds addr : ℕ) (junk s : Bytes) (w : W)
      → length s < 8
      → length junk ≡ 8
      → lo ≤ addr
      → addr + 8 ≤ hi
      → Done w addr s (write_loop p (suc rounds) junk addr s w)
  unfolding write_loop
  write_last rounds addr junk s w short j l u =
      let (tail, filled, size) = fill_end 8 s junk short j in
      let (w', poked, bytes, regs) = c.poke_lem addr (s ++ 0 ∷ tail) w l u size in
      let stored = Holds-store addr (s ++ 0 ∷ tail) (c.byte w) in
      let split : s ++ 0 ∷ tail ≡ (s ++ 0 ∷ []) ++ tail = sym (append_assoc s (0 ∷ []) tail) in
      let held : Holds (store addr (s ++ 0 ∷ tail) (c.byte w)) addr (s ++ 0 ∷ []) =
        Holds-front _ addr (s ++ 0 ∷ []) tail
          (subst (λ t. Holds (store addr (s ++ 0 ∷ tail) (c.byte w)) addr t) split stored) in
      (
        w',
        write_stop p rounds addr junk s (s ++ 0 ∷ tail) w w' filled poked,
        Holds-agree (store addr (s ++ 0 ∷ tail) (c.byte w)) (c.byte w') addr (s ++ 0 ∷ [])
            (λ b x y. bytes b) held,
        λ b outside.
            bytes b
            ∙ store_outside (s ++ 0 ∷ tail) addr b (c.byte w)
                (elim outside [ inl x ↦ inl x | inr x ↦ inr (omega arith) ]),
        regs,
      )

  write_more :
      (rounds addr : ℕ) (junk s : Bytes) (w : W)
      → 8 ≤ length s
      → lo ≤ addr
      → addr + length s + 8 ≤ hi
      → ((w₁ : W)
          → Done w₁ (addr + 8) (drop 8 s) (write_loop p rounds junk (addr + 8) (drop 8 s) w₁))
      → Done w addr s (write_loop p (suc rounds) junk addr s w)
  unfolding write_loop
  write_more rounds addr junk s w long l u ih =
      let size = length-take 8 s long in
      let rest = length-drop 8 s in
      let (w₁, poked, bytes, regs) = c.poke_lem addr (take 8 s) w l (omega arith) size in
      let (w', done, held, same, regs') = ih w₁ in
      let wrap : (addr + 8) % 2 ^ 64 ≡ addr + 8 = omega (arith, c.in_space) in
      let shift : addr + length (take 8 s) ≡ addr + 8 = omega arith in
      let front : Holds (c.byte w') addr (take 8 s) =
        Holds-agree (store addr (take 8 s) (c.byte w)) (c.byte w') addr (take 8 s)
          (λ b x y. same b (inl (omega arith)) ∙ bytes b)
          (Holds-store addr (take 8 s) (c.byte w)) in
      let whole : take 8 s ++ (drop 8 s ++ 0 ∷ []) ≡ s ++ 0 ∷ [] =
        sym (append_assoc (take 8 s) (drop 8 s) (0 ∷ [])) ∙ ap (λ t. t ++ 0 ∷ []) (take-drop 8 s) in
      (
        w',
        write_step p rounds addr junk s (take 8 s) w w₁ (fill_full 8 s junk long) poked
            ∙ ap (λ a. write_loop p rounds junk a (drop 8 s) w₁) wrap
            ∙ done,
        subst (λ t. Holds (c.byte w') addr t) whole
            (Holds-append (c.byte w') addr (take 8 s) (drop 8 s ++ 0 ∷ []) front (rw shift held)),
        λ b outside.
            same b (elim outside [ inl x ↦ inl (omega arith) | inr x ↦ inr (omega arith) ])
            ∙ bytes b
            ∙ store_outside (take 8 s) addr b (c.byte w)
                (elim outside [ inl x ↦ inl x | inr x ↦ inr (omega arith) ]),
        λ reg. regs' reg ∙ regs reg,
      )

  pub write_loop-Done :
      (rounds addr : ℕ) (junk s : Bytes) (w : W)
      → length s < rounds
      → length junk ≡ 8
      → lo ≤ addr
      → addr + length s + 8 ≤ hi
      → Done w addr s (write_loop p rounds junk addr s w)
  write_loop-Done zero addr junk s w h j l u = absurd (omega arith)
  write_loop-Done (suc rounds) addr junk s w h j l u = elim (dec_lt (length s) 8) [
    | yes short ↦ write_last rounds addr junk s w short j l (omega arith)
    | no long ↦ write_more rounds addr junk s w (omega arith) l u (λ w₁.
        write_loop-Done rounds (addr + 8) junk (drop 8 s) w₁ (omega (arith, length-drop 8 s)) j
          (omega arith) (omega (arith, length-drop 8 s)))
  ]
