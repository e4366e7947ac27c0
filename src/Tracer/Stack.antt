-- ===== src/Tracer/Stack.antt =====
-- The place below the child's stack: what `writeString` puts there is read back, and the rest of the
-- child is left alone.
use dpcpp_trace.Prelude.{
  ℕ, suc, ◌+◌, ◌*◌, ◌^◌, ◌≤◌, ◌<◌, ◌≡◌, refl, ◌∙◌, ◌≢◌, ◌⊎◌, inr, some, [], ◌∷◌, ◌++◌, arith, ◌==◌,
  if◌then◌else◌, ==_refl, Bytes, length,
}
use dpcpp_trace.Tracer.{Ptrace, System, written, read_string, file_address, write_string}
use dpcpp_trace.Tracer.Memory.{Holds-agree, Mapped}
use dpcpp_trace.Tracer.Rounds.{NoZero}
use dpcpp_trace.Tracer.Text.{read_loop-Holds, write_loop-Done}

if_other :
    (reg other : ℕ) → other ≢ reg → (a : ℕ) {b d : ℕ} → b ≡ d → (if reg == other then a else b) ≡ d
if_other reg other ne a e = ground arith

module _ {W : Type 0} (p : Ptrace W) (lo hi : ℕ) (c : Mapped p lo hi) (sys : System)
    (junk s : Bytes) (reg : ℕ) (w : W) where
  abbrev address : ℕ
  address = file_address p sys w

  -- The file's place is mapped, and the buffer has its eight bytes.
  pub record Room : Type 0 where
    pub buffer_size : length junk ≡ 8
    pub above : lo ≤ address
    pub below : address + length s + 8 ≤ hi

  -- If the place below the stack is mapped with eight bytes to spare, writing a text without a zero
  -- byte succeeds, the register holds the address of the place, and reading a string from there, in
  -- no more rounds than the text has bytes and one, gives the text.
  pub read_string-write_string :
      NoZero s
      → Room
      → (w' : W) × (write_string p sys junk reg s w ≡ written w')
        × (p.peek_user reg w' ≡ address)
        × (read_string p (suc (length s)) (p.peek_user reg w') w' ≡ some s)
  unfolding write_string read_string
  read_string-write_string z room =
      let (w', done, held, same, regs) =
        write_loop-Done p lo hi c (suc (length s)) address junk s w (omega arith) room.buffer_size
          room.above room.below in
      let w₂ = p.poke_user reg address w' in
      let there : p.peek_user reg w₂ ≡ address =
        c.poke_user_lem reg address reg w' ∙ rw (==_refl reg) refl in
      let held₂ =
        Holds-agree (c.byte w') (c.byte w₂) address (s ++ 0 ∷ [])
          (λ b x y. c.poke_user_memory reg address w' b) held in
      (
        w₂,
        rw (write_string, done) refl,
        there,
        rw (read_string, there)
            (read_loop-Holds p lo hi c (suc (length s)) address w₂ s [] (omega arith) room.above
              room.below z held₂),
      )

  -- If the place below the stack is mapped with eight bytes to spare behind the text, and the buffer of
  -- `writeString` holds any eight bytes, a write of any text comes to its end. It changes no byte of
  -- the child below the place and none from eight bytes behind the text's length on, and no register
  -- but the one that is set.
  -- If also the longest path leaves room for the text and eight bytes, and the stack pointer is not
  -- so low that the place would wrap around, nothing at the red zone or above it is changed.
  pub write_string_bounds :
      Room
      → (w' : W) × (write_string p sys junk reg s w ≡ written w')
        × ((b : ℕ) → (b < address) ⊎ (address + length s + 8 ≤ b) → c.byte w' b ≡ c.byte w b)
        × ((other : ℕ) → other ≢ reg → p.peek_user other w' ≡ p.peek_user other w)
        × (128 + sys.path_max ≤ p.peek_user (8 * sys.rsp) w
            → p.peek_user (8 * sys.rsp) w < 2 ^ 64
            → length s + 8 ≤ sys.path_max
            → (b : ℕ) → p.peek_user (8 * sys.rsp) w ≤ b + 128
            → c.byte w' b ≡ c.byte w b)
  unfolding write_string file_address
  write_string_bounds room =
      let (w', done, held, same, regs) =
        write_loop-Done p lo hi c (suc (length s)) address junk s w (omega arith) room.buffer_size
          room.above room.below in
      let w₂ = p.poke_user reg address w' in
      let outside : (b : ℕ)
          → (b < address) ⊎ (address + length s + 8 ≤ b)
          → c.byte w₂ b ≡ c.byte w b =
        λ b o. c.poke_user_memory reg address w' b ∙ same b o in
      (
        w₂,
        rw (write_string, done) refl,
        outside,
        λ other ne.
            c.poke_user_lem reg address other w' ∙ if_other reg other ne address (regs other),
        λ high fits short b red. outside b (inr (omega arith)),
      )
