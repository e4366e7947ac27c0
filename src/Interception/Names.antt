-- ===== src/Interception/Names.antt =====
-- The names that the threads of a process are given, from the main thread on.
use dpcpp_trace.Prelude.{
  ℕ, ◌+◌, ◌^◌, ◌≤◌, ◌<◌, ◌≡◌, refl, sym, ap, ◌∙◌, ◌≢◌, ◌↔◌, ◌⊎◌, inl, inr, ◌∷◌, ◌++◌, arith, Bytes,
  length, All, length-append, codes, Decimal, cut_last, split_underscore,
}
use native.Mathlib.Decide.{dec_lt}
use dpcpp_trace.Interception.{
  Pthread, ThreadNames, child_name, pthread_create, set_main_thread_name,
}

-- The process before its constructors ran.
abbrev pub new_process : Bytes → ThreadNames
new_process name = record { count = 1; names = λ i. name; counters = λ i. 0 }

module _ (pthread : Pthread) (to_string : ℕ → Bytes) where
  -- Threads that create threads, one creation after the other, while the names stay below the
  -- system's limit and the counters below the word's.
  pub data Created : ThreadNames → Type 0 where
    main_only : (name : Bytes) → Created (set_main_thread_name pthread (new_process name))
    create :
        {s : ThreadNames}
        → Created s
        → (self : ℕ) → self < s.count
        → length (child_name pthread to_string self s) < 16
        → s.counters self + 1 < 2 ^ 64
        → Created (pthread_create pthread to_string self s)

  record Named (s : ThreadNames) : Type 0 where
    distinct : (i j : ℕ) → i < s.count → j < s.count → s.names i ≡ s.names j → i ≡ j
    unused :
        (i j k : ℕ)
        → i < s.count
        → j < s.count
        → s.counters i ≤ k
        → s.names j ≢ s.names i ++ (b'_' ∷ to_string k)
    parents :
        (j k : ℕ) (parent : Bytes)
        → j < s.count
        → s.names j ≡ parent ++ (b'_' ∷ to_string k)
        → (i : ℕ) × (i < s.count) × (s.names i ≡ parent)

  -- What one creation does to the names and the counters.
  module _ (self : ℕ) (s : ThreadNames) (small : self < s.count) where
    new_thread :
        (pthread_create pthread to_string self s).names s.count
        ≡ pthread.setname
            (pthread.initial_name (s.names self))
            (s.names self ++ (b'_' ∷ to_string (s.counters self)))
    unfolding pthread_create
    new_thread = ground arith

    old_thread :
        (i : ℕ) → i < s.count → (pthread_create pthread to_string self s).names i ≡ s.names i
    unfolding pthread_create
    old_thread i h = ground arith

    counts_up :
        s.counters self + 1 < 2 ^ 64
        → (i : ℕ) → i < s.count
        → s.counters i ≤ (pthread_create pthread to_string self s).counters i
    unfolding pthread_create
    counts_up few i h = ground arith

    counts_on :
        s.counters self + 1 < 2 ^ 64
        → (pthread_create pthread to_string self s).counters self ≡ s.counters self + 1
    unfolding pthread_create
    counts_on few = ground arith

  old_or_new : (i n : ℕ) → i < n + 1 → (i < n) ⊎ (i ≡ n)
  old_or_new i n h = elim (dec_lt i n) [ yes old ↦ inl old | no new ↦ inr (omega arith) ]

  longer : (a t : Bytes) → a ≢ a ++ (b'_' ∷ t)
  longer a t h = absurd (omega (arith, ap length h, length-append a (b'_' ∷ t)))

  -- The invariant over one creation.
  module _ (decimal : Decimal to_string) (self : ℕ) (s : ThreadNames) (named : Named s)
      (small : self < s.count) (short : length (child_name pthread to_string self s) < 16)
      (few : s.counters self + 1 < 2 ^ 64) where
    abbrev next : ThreadNames
    next = pthread_create pthread to_string self s

    own_name : Bytes
    own_name = s.names self ++ (b'_' ∷ to_string (s.counters self))

    given : next.names s.count ≡ own_name
    unfolding own_name child_name
    given = new_thread self s small ∙ pthread.setname_short _ _ short

    kept : (i : ℕ) → i < s.count → next.names i ≡ s.names i
    kept = old_thread self s small

    is_new : (i : ℕ) → i < s.count → s.names i ≢ own_name
    unfolding own_name
    is_new i h = named.unused self i (s.counters self) small h (omega arith)

    cut_own :
        (parent : Bytes) (k : ℕ)
        → own_name ≡ parent ++ (b'_' ∷ to_string k)
        → (s.names self ≡ parent) × (s.counters self ≡ k)
    unfolding own_name
    cut_own parent k h =
        let (front, back) =
          cut_last (s.names self) parent (to_string (s.counters self)) (to_string k)
            (decimal.no_underscore (s.counters self)) (decimal.no_underscore k) h in
        (front, decimal.injective (s.counters self) k back)

    next-distinct :
        (i j : ℕ) → i < s.count + 1 → j < s.count + 1 → next.names i ≡ next.names j → i ≡ j
    next-distinct i j hi hj e = elim (old_or_new i s.count hi) [
      | inl old_i ↦ elim (old_or_new j s.count hj) [
        | inl old_j ↦ named.distinct i j old_i old_j (sym (kept i old_i) ∙ e ∙ kept j old_j)
        | inr new_j ↦ absurd (is_new i old_i (sym (kept i old_i) ∙ e ∙ ap next.names new_j ∙ given))
      ]
      | inr new_i ↦ elim (old_or_new j s.count hj) [
        | inl old_j ↦
            absurd (is_new j old_j (sym (kept j old_j) ∙ sym e ∙ ap next.names new_i ∙ given))
        | inr new_j ↦ new_i ∙ sym new_j
      ]
    ]

    next-unused :
        (i j k : ℕ)
        → i < s.count + 1
        → j < s.count + 1
        → next.counters i ≤ k
        → next.names j ≢ next.names i ++ (b'_' ∷ to_string k)
    next-unused i j k hi hj le e = elim (old_or_new i s.count hi) [
      | inl old_i ↦
          let parent = ap (λ a. a ++ (b'_' ∷ to_string k)) (kept i old_i) in
          elim (old_or_new j s.count hj) [
            | inl old_j ↦
                named.unused i j k old_i old_j (omega (arith, counts_up self s small few i old_i))
                  (sym (kept j old_j) ∙ e ∙ parent)
            | inr new_j ↦
                let (front, back) =
                  cut_own (s.names i) k (sym given ∙ ap next.names (sym new_j) ∙ e ∙ parent) in
                let same : self ≡ i = named.distinct self i small old_i front in
                let on : next.counters i ≡ s.counters self + 1 =
                  ap next.counters (sym same) ∙ counts_on self s small few in
                absurd (omega arith)
          ]
      | inr new_i ↦
          let parent = ap (λ a. next.names a ++ (b'_' ∷ to_string k)) new_i in
          elim (old_or_new j s.count hj) [
            | inl old_j ↦
                let (i', h, at) =
                  named.parents j k (next.names s.count) old_j (sym (kept j old_j) ∙ e ∙ parent) in
                absurd (is_new i' h (at ∙ given))
            | inr new_j ↦
                absurd (
                  longer (next.names s.count) (to_string k)
                    (ap next.names (sym new_j) ∙ e ∙ parent))
          ]
    ]

    next-parents :
        (j k : ℕ) (parent : Bytes)
        → j < s.count + 1
        → next.names j ≡ parent ++ (b'_' ∷ to_string k)
        → (i : ℕ) × (i < s.count + 1) × (next.names i ≡ parent)
    next-parents j k parent hj e = elim (old_or_new j s.count hj) [
      | inl old_j ↦
          let (i, h, at) = named.parents j k parent old_j (sym (kept j old_j) ∙ e) in
          (i, omega arith, kept i h ∙ at)
      | inr new_j ↦
          let (front, back) = cut_own parent k (sym given ∙ ap next.names (sym new_j) ∙ e) in
          (self, omega arith, kept self small ∙ front)
    ]

    next-Named : Named (pthread_create pthread to_string self s)
    unfolding pthread_create
    next-Named = record { distinct = next-distinct; unused = next-unused; parents = next-parents }

  main_plain : All (λ c. c ≢ b'_') (codes "main")
  main_plain = omega arith

  main_alone : (s : ThreadNames) → s.count ≡ 1 → s.names 0 ≡ codes "main" → Named s
  main_alone s one main = record {
    distinct = λ i j hi hj e. omega arith;
    unused = λ i j k hi hj le e. longer (s.names i) (to_string k) (ap s.names (omega arith) ∙ e);
    parents = λ j k parent hj e.
        let zeroth : j ≡ 0 = omega arith in
        let whole : codes "main" ≡ parent ++ (b'_' ∷ to_string k) =
          sym main ∙ ap s.names (sym zeroth) ∙ e in
        absurd (split_underscore parent (to_string k) (rw (← whole) main_plain));
  }

  Created-Named : Decimal to_string → {s : ThreadNames} → Created s → Named s
  unfolding set_main_thread_name
  Created-Named decimal (main_only name) =
      main_alone _ refl (pthread.setname_short name (codes "main") (omega arith))
  Created-Named decimal (create c self small short few) =
      next-Named decimal self _ (Created-Named decimal c) small short few

  -- If decimal texts are what they are relied on to be: after any number of creations, each of which
  -- stayed below the system's limit on names and was over before the new thread created another, no
  -- two threads ever created have the same name.
  pub names_distinct :
      Decimal to_string
      → {s : ThreadNames} → Created s
      → (i j : ℕ) → i < s.count
      → j < s.count
      → s.names i ≡ s.names j
      → i ≡ j
  names_distinct decimal c = (Created-Named decimal c).distinct

  -- Past the limit a new thread has the name of the one that created it, and only there.
  pub pthread_create-shares :
      (self : ℕ) (s : ThreadNames)
      → self < s.count
      → ((pthread_create pthread to_string self s).names s.count
          ≡ (pthread_create pthread to_string self s).names self)
        ↔ (16 ≤ length (child_name pthread to_string self s))
  unfolding child_name
  pthread_create-shares self s small =
      let same = old_thread self s small self small in
      let asked = s.names self ++ (b'_' ∷ to_string (s.counters self)) in
      (
        λ shared. elim (dec_lt (length asked) 16) [
          | yes short ↦ absurd (
              longer (s.names self) (to_string (s.counters self)) (
                sym same
                ∙ sym shared
                ∙ new_thread self s small
                ∙ pthread.setname_short _ asked short))
          | no long ↦ omega arith
        ],
        λ long.
            new_thread self s small
            ∙ pthread.setname_long _ asked long
            ∙ pthread.initial_name_inherited (s.names self)
            ∙ sym same,
      )
