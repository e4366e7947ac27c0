-- ===== src/Commands/Which.antt =====
-- lib/utils/utils.cpp: `which` against the search through the directories of PATH.
use dpcpp_trace.Prelude.{
  ℕ, zero, suc, ◌+◌, ◌-◌, ◌≤◌, ◌<◌, ◌≡◌, refl, ap, ◌∙◌, inl, inr, none, some, List, [], ◌∷◌, arith,
  ◌==◌, if◌then◌else◌, Bool-cases, Option-cases, Bytes, length, take, drop, length-drop, codes,
  take_beyond, drop-drop,
}
use dpcpp_trace.Commands.{Host, Found, found, not_found, find_char, which_loop, which}

abbrev prepend : ℕ → List Bytes → List Bytes
prepend c [] = (c ∷ []) ∷ []
prepend c (d ∷ ds) = (c ∷ d) ∷ ds

-- The directories of a PATH: what stands between the colons.
abbrev pub directories : Bytes → List Bytes
directories [] = [] ∷ []
directories (c ∷ path) = if c == b':' then [] ∷ directories path else prepend c (directories path)

find_char-none :
    (path : Bytes) (i : ℕ) → find_char b':' path i ≡ none → directories path ≡ path ∷ []
unfolding find_char
find_char-none [] i h = refl
find_char-none (c ∷ path) i h = ground (arith, find_char-none path (i + 1))

find_char-some :
    (path : Bytes) (i j : ℕ)
    → find_char b':' path i ≡ some j
    → (i ≤ j)
      × (j < i + length path)
      × (directories path ≡ take (j - i) path ∷ directories (drop (suc (j - i)) path))
unfolding find_char
find_char-some [] i j h = absurd (cc)
find_char-some (c ∷ path) i j h = elim (Bool-cases (c == b':')) [
  | inl here ↦
      let same : i ≡ j = ground arith in
      let start : j - i ≡ 0 = omega arith in (omega arith, omega arith, rw (start, here) refl)
  | inr other ↦
      let later : find_char b':' path (i + 1) ≡ some j = ground arith in
      let (l, u, e) = find_char-some path (i + 1) j later in
      let shift : j - i ≡ suc (j - (i + 1)) = omega arith in
      (omega arith, omega arith, rw (other, e, shift) refl)
]

module _ (host : Host) (executable : Bytes) where
  -- The first candidate that exists.
  abbrev pub search_path : List Bytes → Found
  search_path [] = not_found
  search_path (d ∷ ds) =
      if host.exists (host.join d executable)
      then found (host.join d executable)
      else search_path ds

  which_loop-search_path :
      (rounds last : ℕ) (path : Bytes)
      → last ≤ length path
      → length path < last + rounds
      → which_loop host rounds path executable last ≡ search_path (directories (drop last path))
  unfolding which_loop
  which_loop-search_path zero last path l h = absurd (omega arith)
  which_loop-search_path (suc rounds) last path l h =
      elim (Option-cases (find_char b':' (drop last path) last)) [
        | inl e ↦
            let whole : take (length path - last) (drop last path) ≡ drop last path =
              take_beyond (length path - last) (drop last path)
                (omega (arith, length-drop last path)) in
            rw (which_loop, e, whole, find_char-none (drop last path) last e) refl
        | inr (next, e) ↦
            let (l, u, cut) = find_char-some (drop last path) last next e in
            let size = length-drop last path in
            let rest : drop (suc (next - last)) (drop last path) ≡ drop (next + 1) path =
              let sum : last + suc (next - last) ≡ next + 1 = omega arith in
              drop-drop last (suc (next - last)) path ∙ ap (λ n. drop n path) sum in
            let ih = which_loop-search_path rounds (next + 1) path (omega arith) (omega arith) in
            elim (Bool-cases
              (host.exists (host.join (take (next - last) (drop last path)) executable))) [
                | inl here ↦ rw (which_loop, e, cut, here) refl
                | inr absent ↦ rw (which_loop, e, cut, rest, absent) ih
              ]
      ]

  -- Where PATH is set, `which` finds the first of its directories in which the executable exists, and
  -- throws if there is none; an empty directory counts, and so does a PATH without a colon.
  pub which-search_path :
      (path : Bytes)
      → host.getenv (codes "PATH") ≡ some path
      → which host executable ≡ search_path (directories path)
  unfolding which
  which-search_path path e =
      rw (which, e) (which_loop-search_path (suc (length path)) 0 path (omega arith) (omega arith))
