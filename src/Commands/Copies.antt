-- ===== src/Commands/Copies.antt =====
-- The copies that `pack` makes: each has a name of its own, and the map leads to the right one.
use dpcpp_trace.Prelude.{
  Decimal, ℕ, ◌+◌, ◌%◌, ◌^◌, ◌≤◌, ◌<◌, ◌≡◌, refl, ◌∙◌, ◌≢◌, ◌⊎◌, inl, inr, true, false, some, List,
  [], ◌∷◌, ◌++◌, arith, if◌then◌else◌, Bool-cases, Bytes, length, All, same_text, codes,
  same_text_refl, same_text-eq,
}
use dpcpp_trace.Commands.{Host, find, set_key}
use dpcpp_trace.Commands.Pack.{Packing, is_system_file, pack_file, pack_files, first_copy}

-- A pair stands in a list.
abbrev pub Has : Bytes × Bytes → List (Bytes × Bytes) → Type 0
Has p [] = ⊥
Has p (q ∷ qs) = (p ≡ q) ⊎ Has p qs

-- No two copies have the same name.
abbrev pub Fresh : Bytes → List (Bytes × Bytes) → Type 0
Fresh name [] = Unit {0}
Fresh name ((from, to) ∷ copies) = (name ≢ to) × Fresh name copies

abbrev pub DistinctNames : List (Bytes × Bytes) → Type 0
DistinctNames [] = Unit {0}
DistinctNames ((from, to) ∷ copies) = Fresh to copies × DistinctNames copies

cut_unique :
    (p q s t : Bytes)
    → All (λ c. c ≢ b'_') p
    → All (λ c. c ≢ b'_') q
    → p ++ (b'_' ∷ s) ≡ q ++ (b'_' ∷ t)
    → p ≡ q
cut_unique [] [] s t hp hq e = refl
cut_unique [] (d ∷ q) s t hp hq e = absurd (hq.0 (cc))
cut_unique (c ∷ p) [] s t hp hq e = absurd (hp.0 (cc))
cut_unique (c ∷ p) (d ∷ q) s t hp hq e =
    let rest : p ++ (b'_' ∷ s) ≡ q ++ (b'_' ∷ t) = cc in
    let ih = cut_unique p q s t hp.1 hq.1 rest in cc

not_zero : (p s : Bytes) → p ++ (b'_' ∷ s) ≢ codes "0"
not_zero [] s e = absurd (ground arith)
not_zero (c ∷ []) s e = absurd (cc)
not_zero (c ∷ d ∷ p) s e = absurd (cc)

pub find-set_key :
    {V : Type 0} (key k : Bytes) (v : V) (m : List (Bytes × V))
    → find key (set_key k v m) ≡ (if same_text k key then some v else find key m)
unfolding find set_key
find-set_key key k v [] = refl
find-set_key key k v ((j, w) ∷ m) = ground (
  arith,
  same_text-eq j k,
  same_text-eq j key,
  same_text-eq k key,
  same_text_refl k,
  find-set_key key k v m,
)

set_key-copied :
    (cand name : Bytes) (m : List (Bytes × Bytes)) (copies : List (Bytes × Bytes))
    → ((key to : Bytes) → find key m ≡ some to → Has (key, to) copies)
    → (key to : Bytes) → find key (set_key cand name m) ≡ some to
    → Has (key, to) ((cand, name) ∷ copies)
set_key-copied cand name m copies sound key to h = elim (Bool-cases (same_text cand key)) [
  | inl e ↦
      let same = same_text-eq cand key e in
      let value : some name ≡ some to = rw (find-set_key key cand name m, e) at h in
      let target : name ≡ to = cc in inl (rw (same, target) refl)
  | inr e ↦ inr (sound key to (rw (find-set_key key cand name m, e) at h))
]

module _ (host : Host) (to_string : ℕ → Bytes) (decimal : Decimal to_string) where
  -- The names of copies so far: that of the executable, and ones with smaller numbers.
  abbrev pub Numbered : ℕ → Bytes → Type 0
  Numbered counter name =
      (name ≡ codes "0")
      ⊎ ((k : ℕ) × (stem : Bytes) × (k < counter) × (name ≡ to_string k ++ (b'_' ∷ stem)))

  pub record Sound (s : Packing) : Type 0 where
    pub numbered : All (λ (c : Bytes × Bytes). Numbered s.counter c.1) s.copies
    pub distinct : DistinctNames s.copies
    pub copied : (name to : Bytes) → find name s.replay_map ≡ some to → Has (name, to) s.copies

  Fresh-name :
      (counter : ℕ) (stem : Bytes) (copies : List (Bytes × Bytes))
      → All (λ (c : Bytes × Bytes). Numbered counter c.1) copies
      → Fresh (to_string counter ++ (b'_' ∷ stem)) copies
  Fresh-name counter stem [] h = tt
  Fresh-name counter stem ((from, to) ∷ copies) (inl zeroth, h) =
      (λ e. not_zero (to_string counter) stem (e ∙ zeroth), Fresh-name counter stem copies h)
  Fresh-name counter stem ((from, to) ∷ copies) (inr (k, stem', small, named), h) = (
    λ e.
        let same =
          cut_unique (to_string counter) (to_string k) stem stem' (decimal.no_underscore counter)
            (decimal.no_underscore k) (e ∙ named) in
        absurd (omega (arith, decimal.injective counter k same)),
    Fresh-name counter stem copies h,
  )

  Numbered-later :
      (a b : ℕ) (copies : List (Bytes × Bytes))
      → a ≤ b
      → All (λ (c : Bytes × Bytes). Numbered a c.1) copies
      → All (λ (c : Bytes × Bytes). Numbered b c.1) copies
  Numbered-later a b [] l h = tt
  Numbered-later a b (c ∷ copies) l (inl zeroth, h) = (inl zeroth, Numbered-later a b copies l h)
  Numbered-later a b (c ∷ copies) l (inr (k, stem, small, named), h) =
      (inr (k, stem, omega arith, named), Numbered-later a b copies l h)

  -- The file is copied, and its copy stands in the map.
  abbrev pub Selected : Bytes → Type 0
  Selected cand = (is_system_file cand ≡ false) × (host.is_regular_file cand ≡ true)

  pub copy_made :
      (cand : Bytes) (s : Packing)
      → Selected cand
      → pack_file host to_string cand s ≡ record {
        replay_map = set_key cand (to_string s.counter ++ (b'_' ∷ host.stem cand)) s.replay_map;
        copies = (cand, to_string s.counter ++ (b'_' ∷ host.stem cand)) ∷ s.copies;
        counter = (s.counter + 1) % 2 ^ 64;
      }
  unfolding pack_file
  copy_made cand s (a, b) = rw (pack_file, a, b) refl

  pub no_copy :
      (cand : Bytes) (s : Packing)
      → (is_system_file cand ≡ true) ⊎ (host.is_regular_file cand ≡ false)
      → pack_file host to_string cand s ≡ s
  unfolding pack_file
  no_copy cand s h = ground arith

  pub Selected-or_not :
      (cand : Bytes)
      → Selected cand ⊎ ((is_system_file cand ≡ true) ⊎ (host.is_regular_file cand ≡ false))
  Selected-or_not cand = elim (Bool-cases (is_system_file cand)) [
    | inl system ↦ inr (inl system)
    | inr other ↦ elim (Bool-cases (host.is_regular_file cand)) [
      | inl regular ↦ inl (other, regular)
      | inr irregular ↦ inr (inr irregular)
    ]
  ]

  pack_file-Sound :
      (cand : Bytes) (s : Packing)
      → s.counter + 1 < 2 ^ 64
      → Sound s
      → Sound (pack_file host to_string cand s)
        × ((pack_file host to_string cand s).counter ≤ s.counter + 1)
  pack_file-Sound cand s small sound = elim (Selected-or_not cand) [
    | inr skipped ↦ rw (no_copy cand s skipped) (sound, omega arith)
    | inl chosen ↦
        let name : Bytes = to_string s.counter ++ (b'_' ∷ host.stem cand) in
        let next : (s.counter + 1) % 2 ^ 64 ≡ s.counter + 1 = omega arith in
        rw (copy_made cand s chosen, next)
          (
            record {
              numbered = (
                inr (s.counter, host.stem cand, omega arith, refl),
                Numbered-later s.counter (s.counter + 1) s.copies (omega arith) sound.numbered,
              );
              distinct =
                  (Fresh-name s.counter (host.stem cand) s.copies sound.numbered, sound.distinct);
              copied = set_key-copied cand name s.replay_map s.copies sound.copied;
            },
            omega arith,
          )
  ]

  pub pack_files-Sound :
      (files : List Bytes) (s : Packing)
      → s.counter + length files < 2 ^ 64
      → Sound s
      → Sound (pack_files host to_string files s)
  unfolding pack_files
  pack_files-Sound [] s small sound = sound
  pack_files-Sound (cand ∷ files) s small sound =
      let (sound', step) = pack_file-Sound cand s (omega arith) sound in
      pack_files-Sound files (pack_file host to_string cand s) (omega arith) sound'

  only_copy :
      (executable key to : Bytes)
      → find key (first_copy executable).replay_map ≡ some to
      → Has (key, to) (first_copy executable).copies
  unfolding find
  only_copy executable key to h = elim (Bool-cases (same_text executable key)) [
    | inl e ↦ inl (let same = same_text-eq executable key e in ground arith)
    | inr e ↦ absurd (ground arith)
  ]

  pub first_copy-Sound : (executable : Bytes) → Sound (first_copy executable)
  unfolding find
  first_copy-Sound executable = record {
    numbered = (inl refl, tt);
    distinct = (tt, tt);
    copied = λ key to h. only_copy executable key to h;
  }
