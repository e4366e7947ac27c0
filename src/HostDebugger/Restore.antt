-- ===== src/HostDebugger/Restore.antt =====
-- The block of all registers, written back, gives each register what it held.
use dpcpp_trace.Prelude.{
  ℕ, ◌+◌, ◌≤◌, ◌≡◌, refl, sym, ap, ◌∙◌, ◌⊎◌, inl, inr, true, false, Option, none, some, List, [],
  ◌∷◌, arith, leb, le→leb, Bool-cases, Bytes, length, take, length-take,
}
use dpcpp_trace.HostDebugger.{RegisterInfo, Lldb, returned, select_thread}
use dpcpp_trace.HostDebugger.Registers.{
  grow, place, part, registers_loop, write_registers_loop, get_registers_data, write_registers_data,
}
use dpcpp_trace.HostDebugger.Block.{
  length-place, length-grow, part-place_self, part-grow, part-place_other,
}

-- A place that no register of a list lies in, but for contained ones.
abbrev pub Apart : ℕ → ℕ → List (Option RegisterInfo) → Type 0
Apart o s [] = Unit {0}
Apart o s (none ∷ infos) = Apart o s infos
Apart o s (some info ∷ infos) =
    ((info.is_contained ≡ true)
      ⊎ ((o + s ≤ info.byte_offset) ⊎ (info.byte_offset + info.byte_size ≤ o)))
    × Apart o s infos

-- The registers that are not contained in others do not overlap.
abbrev pub Layout : List (Option RegisterInfo) → Type 0
Layout [] = Unit {0}
Layout (none ∷ infos) = Layout infos
Layout (some info ∷ infos) =
    ((info.is_contained ≡ true) ⊎ Apart info.byte_offset info.byte_size infos) × Layout infos

module _ {W : Type 0} (lldb : Lldb W) (thread : ℕ) where
  -- Every register is there, and LLDB reads at least its bytes.
  abbrev pub Readable : ℕ → List (Option RegisterInfo) → W → Type 0
  Readable num [] w = Unit {0}
  Readable num (none ∷ infos) w = ⊥
  Readable num (some info ∷ infos) w =
      ((info.is_contained ≡ true)
        ⊎ ((value : Bytes) × (lldb.read_register_value thread num w ≡ some value)
            × (info.byte_size ≤ length value)))
      × Readable (num + 1) infos w

  -- `w'` after every register has been written as it reads in `w`, one after the other.
  abbrev pub restore : ℕ → List (Option RegisterInfo) → W → W → W
  restore num [] w w' = w'
  restore num (none ∷ infos) w w' = restore (num + 1) infos w w'
  restore num (some info ∷ infos) w w' = restore (num + 1) infos w (elim info.is_contained [
    | true ↦ w'
    | false ↦ elim (lldb.read_register_value thread num w) [
      | none ↦ w'
      | some value ↦ lldb.write_register_value thread num (take info.byte_size value) w'
    ]
  ])

  -- What the loop makes of a buffer: it only grows, keeps what lies apart from the registers, and
  -- restores them.
  record Block (num : ℕ) (infos : List (Option RegisterInfo)) (w : W) (buffer block : Bytes)
      : Type 0 where
    looped : registers_loop lldb thread num infos w buffer ≡ some block
    grown : length buffer ≤ length block
    kept : (o s : ℕ) → o + s ≤ length buffer → Apart o s infos → part o s block ≡ part o s buffer
    restored :
        (w' : W)
        → write_registers_loop lldb thread num infos block w' ≡ returned tt (restore num infos w w')

  contained-Block :
      (num : ℕ) (info : RegisterInfo) (infos : List (Option RegisterInfo)) (w : W)
      (buffer block : Bytes)
      → info.is_contained ≡ true
      → Block (num + 1) infos w buffer block
      → Block num (some info ∷ infos) w buffer block
  unfolding registers_loop write_registers_loop
  contained-Block num info infos w buffer block h b = record {
    looped = rw (registers_loop, h) b.looped;
    grown = b.grown;
    kept = λ o s fits apart. b.kept o s fits apart.1;
    restored = λ w'. rw (write_registers_loop, h) (b.restored w');
  }

  own-Block :
      (num : ℕ) (info : RegisterInfo) (infos : List (Option RegisterInfo)) (w : W)
      (buffer block value : Bytes)
      → info.is_contained ≡ false
      → lldb.read_register_value thread num w ≡ some value
      → info.byte_size ≤ length value
      → Apart info.byte_offset info.byte_size infos
      → Block
          (num + 1)
          infos
          w
          (place info.byte_offset
            (take info.byte_size value)
            (grow (info.byte_offset + info.byte_size) buffer))
          block
      → Block num (some info ∷ infos) w buffer block
  unfolding registers_loop write_registers_loop
  own-Block num info infos w buffer block value h got size apart b =
      let bytes = take info.byte_size value in
      let wide = grow (info.byte_offset + info.byte_size) buffer in
      let (room, more) = length-grow (info.byte_offset + info.byte_size) buffer in
      let full = length-take info.byte_size value size in
      let same = length-place info.byte_offset bytes wide (omega arith) in
      let longer : length wide ≤ length block = omega (arith, b.grown) in
      let own : part info.byte_offset info.byte_size block ≡ bytes =
        b.kept info.byte_offset info.byte_size (omega arith) apart
        ∙ ap (λ n. part info.byte_offset n (place info.byte_offset bytes wide)) (sym full)
        ∙ part-place_self info.byte_offset bytes wide (omega arith) in
      record {
        looped = rw (registers_loop, h, got) b.looped;
        grown = omega arith;
        kept = λ o s fits away.
            b.kept o s (omega arith) away.1
            ∙ part-place_other o s info.byte_offset bytes wide (omega arith) (omega arith)
                (elim away.0 [
                  | inl c ↦ absurd (cc)
                  | inr (inl x) ↦ inl x
                  | inr (inr x) ↦ inr (omega arith)
                ])
            ∙ part-grow o s (info.byte_offset + info.byte_size) buffer fits;
        restored = λ w'.
            let inside : leb (info.byte_offset + info.byte_size) (length block) ≡ true =
              le→leb _ _ (omega arith) in
            rw (write_registers_loop, h, inside, own, got)
              (b.restored (lldb.write_register_value thread num bytes w'));
      }

  registers-Block :
      (num : ℕ) (infos : List (Option RegisterInfo)) (w : W) (buffer : Bytes)
      → Layout infos
      → Readable num infos w
      → (block : Bytes) × Block num infos w buffer block
  unfolding registers_loop write_registers_loop
  registers-Block num [] w buffer l r = (
    buffer,
    record {
      looped = refl;
      grown = omega arith;
      kept = λ o s fits apart. refl;
      restored = λ w'. refl;
    },
  )
  registers-Block num (none ∷ infos) w buffer l r = absurd r
  registers-Block num (some info ∷ infos) w buffer (l, ls) (r, rs) =
      elim (Bool-cases info.is_contained) [
        | inl inner ↦
            let (block, b) = registers-Block (num + 1) infos w buffer ls rs in
            (block, contained-Block num info infos w buffer block inner b)
        | inr outer ↦ elim r [
          | inl inner ↦ absurd (cc)
          | inr (value, got, size) ↦ elim l [
            | inl inner ↦ absurd (cc)
            | inr apart ↦
                let (block, b) =
                  registers-Block (num + 1) infos w
                    (place info.byte_offset (take info.byte_size value)
                      (grow (info.byte_offset + info.byte_size) buffer))
                    ls rs in
                (block, own-Block num info infos w buffer block value outer got size apart b)
          ]
        ]
      ]

-- For a thread whose registers, those contained in others aside, do not overlap in the block and are
-- all read by LLDB: writing the block that was read into any later state of the process has no other
-- effect than writing each register, in turn, with just the bytes that it held when it was read.
pub write_registers_data-get_registers_data :
    {W : Type 0} (lldb : Lldb W) (id thread : ℕ) (w w' : W)
    → select_thread lldb id w ≡ some thread
    → select_thread lldb id w' ≡ some thread
    → Layout (lldb.register_infos thread)
    → Readable lldb thread 0 (lldb.register_infos thread) w
    → (block : Bytes) × (get_registers_data lldb id w ≡ returned block w)
      × (write_registers_data lldb block id w'
          ≡ returned tt (restore lldb thread 0 (lldb.register_infos thread) w w'))
unfolding get_registers_data write_registers_data
write_registers_data-get_registers_data lldb id thread w w' t t' l r =
    let (block, b) = registers-Block lldb thread 0 (lldb.register_infos thread) w [] l r in
    (
      block,
      rw (get_registers_data, t, b.looped) refl,
      rw (write_registers_data, t') (b.restored w'),
    )
