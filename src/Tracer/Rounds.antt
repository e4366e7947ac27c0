-- ===== src/Tracer/Rounds.antt =====
-- The rounds of `readString` and `writeString`: what one word shows, and what it is filled with.
use dpcpp_trace.Prelude.{
  ℕ, zero, suc, ◌+◌, ◌*◌, ◌%◌, ◌^◌, ◌≤◌, ◌<◌, ◌≡◌, refl, ap, ◌∙◌, ◌≢◌, true, false, none, some, [],
  ◌∷◌, ◌++◌, arith, ◌==◌, Bytes, length, take, drop, All, length-drop,
}
use dpcpp_trace.Replay.Memory.{Memory, load}
use dpcpp_trace.Tracer.{Ptrace, scan_word, fill_buffer, written, read_loop, read_string, write_loop}
use dpcpp_trace.Tracer.Memory.{Holds}

-- A text that a C string can hold.
abbrev pub NoZero : Bytes → Type 0
NoZero = All (λ b. b ≢ 0)

pub fill_end :
    (room : ℕ) (str junk : Bytes)
    → length str < room
    → length junk ≡ room
    → (tail : Bytes) × (fill_buffer room str junk ≡ (str ++ 0 ∷ tail, true))
      × (length (str ++ 0 ∷ tail) ≡ room)
unfolding fill_buffer
fill_end zero str junk h k = absurd (omega arith)
fill_end (suc room) [] junk h k = (drop 1 junk, refl, omega (arith, length-drop 1 junk))
fill_end (suc room) (c ∷ str) junk h k =
    let (tail, e, l) =
      fill_end room str (drop 1 junk) (omega arith) (omega (arith, length-drop 1 junk)) in
    (tail, rw (fill_buffer, e) refl, omega (arith, l))

pub fill_full :
    (room : ℕ) (str junk : Bytes)
    → room ≤ length str
    → fill_buffer room str junk ≡ (take room str, false)
unfolding fill_buffer
fill_full zero str junk h = refl
fill_full (suc room) [] junk h = absurd (omega arith)
fill_full (suc room) (c ∷ str) junk h =
    rw (fill_buffer, fill_full room str (drop 1 junk) (omega arith)) refl

pub scan_end :
    (n a : ℕ) (m : Memory) (s : Bytes)
    → length s < n
    → NoZero s
    → Holds m a (s ++ 0 ∷ [])
    → scan_word (load n a m) ≡ (s, true)
unfolding scan_word load
scan_end zero a m s h z k = absurd (omega arith)
scan_end (suc n) a m [] h z (e, k) = rw e refl
scan_end (suc n) a m (c ∷ s) h (z, zs) (e, k) =
    let other : (c == 0) ≡ false = ground arith in
    rw (e, other, scan_end n (a + 1) m s (omega arith) zs k) refl

pub scan_full :
    (n a : ℕ) (m : Memory) (s : Bytes)
    → n ≤ length s
    → NoZero s
    → Holds m a (s ++ 0 ∷ [])
    → (scan_word (load n a m) ≡ (take n s, false))
      × NoZero (drop n s)
      × Holds m (a + n) (drop n s ++ 0 ∷ [])
unfolding scan_word load
scan_full zero a m s h z k = let e : a + 0 ≡ a = omega arith in (refl, z, rw e k)
scan_full (suc n) a m [] h z k = absurd (omega arith)
scan_full (suc n) a m (c ∷ s) h (z, zs) (e, k) =
    let other : (c == 0) ≡ false = ground arith in
    let shift : a + suc n ≡ a + 1 + n = omega arith in
    let (scanned, zs', k') = scan_full n (a + 1) m s (omega arith) zs k in
    (rw (e, other, scanned) refl, zs', rw shift k')

-- The word that a failed peek gives.
abbrev pub all_ones : Bytes
all_ones = 255 ∷ 255 ∷ 255 ∷ 255 ∷ 255 ∷ 255 ∷ 255 ∷ 255 ∷ []

module _ {W : Type 0} (p : Ptrace W) where
  -- The rounds of the two loops, by what a word shows.
  pub read_stop :
      (rounds addr : ℕ) (w : W) (got acc : Bytes)
      → scan_word (p.peek (addr % 2 ^ 64) w) ≡ (got, true)
      → read_loop p (suc rounds) addr w acc ≡ some (acc ++ got)
  unfolding read_loop
  read_stop rounds addr w got acc seen =
      rw (read_loop, ap (λ t. t.1) seen) (ap (λ t. some (acc ++ t.0)) seen)

  pub read_step :
      (rounds addr : ℕ) (w : W) (got acc : Bytes)
      → scan_word (p.peek (addr % 2 ^ 64) w) ≡ (got, false)
      → read_loop p (suc rounds) addr w acc ≡ read_loop p rounds (addr + 8) w (acc ++ got)
  unfolding read_loop
  read_step rounds addr w got acc seen =
      rw (read_loop, ap (λ t. t.1) seen)
        (ap (λ t. read_loop p rounds (addr + 8) w (acc ++ t.0)) seen)

  pub write_stop :
      (rounds addr : ℕ) (junk s buf : Bytes) (w w' : W)
      → fill_buffer 8 s junk ≡ (buf, true)
      → p.poke addr buf w ≡ some w'
      → write_loop p (suc rounds) junk addr s w ≡ written w'
  unfolding write_loop
  write_stop rounds addr junk s buf w w' filled poked = ground arith

  pub write_step :
      (rounds addr : ℕ) (junk s buf : Bytes) (w w' : W)
      → fill_buffer 8 s junk ≡ (buf, false)
      → p.poke addr buf w ≡ some w'
      → write_loop p (suc rounds) junk addr s w
        ≡ write_loop p rounds junk ((addr + 8) % 2 ^ 64) (drop 8 s) w'
  unfolding write_loop
  write_step rounds addr junk s buf w w' filled poked = ground arith

  read_loop-unmapped :
      (rounds addr : ℕ) (w : W) (result : Bytes)
      → ((i : ℕ) → i < rounds → p.peek ((addr + 8 * i) % 2 ^ 64) w ≡ all_ones)
      → read_loop p rounds addr w result ≡ none
  unfolding read_loop scan_word
  read_loop-unmapped zero addr w result h = refl
  read_loop-unmapped (suc rounds) addr w result h =
      let start : addr + 8 * 0 ≡ addr = omega arith in
      let first : p.peek (addr % 2 ^ 64) w ≡ all_ones = rw start at (h 0 (omega arith)) in
      read_step rounds addr w all_ones result (ap scan_word first)
      ∙ (read_loop-unmapped rounds (addr + 8) w (result ++ all_ones) (λ i small.
          let shift : addr + 8 + 8 * i ≡ addr + 8 * suc i = omega arith in
          rw shift (h (suc i) (omega arith))))

  -- A name at an address where every peek fails is never read: as long as the words that are tried
  -- are not mapped, which show as eight bytes 255, `readString` has not ended.
  pub read_string-unmapped :
      (rounds addr : ℕ) (w : W)
      → ((i : ℕ) → i < rounds → p.peek ((addr + 8 * i) % 2 ^ 64) w ≡ all_ones)
      → read_string p rounds addr w ≡ none
  unfolding read_string
  read_string-unmapped rounds addr w h = read_loop-unmapped rounds addr w [] h
