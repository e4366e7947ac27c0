-- ===== src/HostDebugger/Live.antt =====
-- HostDebugger.cpp: which breakpoints the process has, against which ones the debugger knows.
use dpcpp_trace.Prelude.{
  ℕ, ◌≡◌, refl, sym, ap, ◌∙◌, ◌≢◌, inl, inr, Bool, true, false, none, some, List, [], ◌∷◌, arith,
  ◌==◌, if◌then◌else◌, Bool-cases, Option-cases,
}
use dpcpp_trace.HostDebugger.{Lldb}
use dpcpp_trace.HostDebugger.Breakpoints.{
  Breakpoints, breakpoint_at, assign_breakpoint, erase_breakpoint, create_software_breakpoint,
  remove_software_breakpoint,
}

-- What is relied on of LLDB: a creation that succeeds gives an id that was not in use and puts it in
-- use, one that fails changes nothing; a removal takes the id out of use, and no other.
pub record BreakpointLaws {W : Type 0} (lldb : Lldb W) : Type 0 where
  pub live : ℕ → W → Bool
  pub created_new :
      (a id : ℕ) (w : W) → (lldb.create_breakpoint a w).0 ≡ some id → live id w ≡ false
  pub created_live :
      (a id : ℕ) (w : W)
      → (lldb.create_breakpoint a w).0 ≡ some id
      → (other : ℕ)
      → live other (lldb.create_breakpoint a w).1 ≡ (if other == id then true else live other w)
  pub not_created :
      (a : ℕ) (w : W)
      → (lldb.create_breakpoint a w).0 ≡ none
      → (other : ℕ) → live other (lldb.create_breakpoint a w).1 ≡ live other w
  pub removed :
      (id : ℕ) (w : W) (other : ℕ)
      → live other (lldb.remove_breakpoint_by_id id w)
        ≡ (if other == id then false else live other w)

-- Whether an id stands in the map.
unfoldable pub has_id : ℕ → List (ℕ × ℕ) → Bool
has_id id [] = false
has_id id ((a, i) ∷ rest) = if i == id then true else has_id id rest

-- Each id stands in the map once.
abbrev UniqueIds : List (ℕ × ℕ) → Type 0
UniqueIds [] = Unit {0}
UniqueIds ((a, i) ∷ rest) = (has_id i rest ≡ false) × UniqueIds rest

module _ {W : Type 0} (lldb : Lldb W) (laws : BreakpointLaws lldb) where
  -- The debugger's breakpoints are those of the process.
  record Tracked (s : Breakpoints W) : Type 0 where
    unique : UniqueIds s.breakpoints
    same : (id : ℕ) → has_id id s.breakpoints ≡ laws.live id s.world

  has_id-assign :
      (address id other : ℕ) (m : List (ℕ × ℕ))
      → breakpoint_at address m ≡ none
      → has_id other (assign_breakpoint address id m)
        ≡ (if other == id then true else has_id other m)
  unfolding has_id assign_breakpoint breakpoint_at
  has_id-assign address id other [] h = ground arith
  has_id-assign address id other ((a, i) ∷ m) h = ground (arith, has_id-assign address id other m)

  unique-assign :
      (address id : ℕ) (m : List (ℕ × ℕ))
      → breakpoint_at address m ≡ none
      → has_id id m ≡ false
      → UniqueIds m
      → UniqueIds (assign_breakpoint address id m)
  unfolding has_id assign_breakpoint breakpoint_at
  unique-assign address id [] h fresh u = (refl, tt)
  unique-assign address id ((a, i) ∷ m) h fresh u =
      ground (arith, unique-assign address id m, has_id-assign address id i m)

  has_id-at :
      (address id : ℕ) (m : List (ℕ × ℕ)) → breakpoint_at address m ≡ some id → has_id id m ≡ true
  unfolding has_id breakpoint_at
  has_id-at address id [] h = absurd (cc)
  has_id-at address id ((a, i) ∷ m) h = ground (arith, has_id-at address id m)

  has_id-erase_other :
      (address other : ℕ) (m : List (ℕ × ℕ))
      → has_id other m ≡ false
      → has_id other (erase_breakpoint address m) ≡ false
  unfolding has_id erase_breakpoint
  has_id-erase_other address other [] h = refl
  has_id-erase_other address other ((a, i) ∷ m) h =
      ground (arith, has_id-erase_other address other m)

  has_id-erase :
      (address id other : ℕ) (m : List (ℕ × ℕ))
      → breakpoint_at address m ≡ some id
      → UniqueIds m
      → has_id other (erase_breakpoint address m) ≡ (if other == id then false else has_id other m)
  unfolding has_id erase_breakpoint breakpoint_at
  has_id-erase address id other [] h u = absurd (cc)
  has_id-erase address id other ((a, i) ∷ m) h u =
      ground (arith, has_id-erase address id other m, has_id-at address id m)

  unique-erase :
      (address : ℕ) (m : List (ℕ × ℕ)) → UniqueIds m → UniqueIds (erase_breakpoint address m)
  unfolding erase_breakpoint
  unique-erase address [] u = tt
  unique-erase address ((a, i) ∷ m) (h, u) = elim (Bool-cases (a == address)) [
    | inl e ↦ rw e u
    | inr e ↦ rw e (has_id-erase_other address i m h, unique-erase address m u)
  ]

  has_id-assign_over :
      (address id old : ℕ) (m : List (ℕ × ℕ))
      → breakpoint_at address m ≡ some old
      → UniqueIds m
      → old ≢ id
      → has_id old (assign_breakpoint address id m) ≡ false
  unfolding has_id assign_breakpoint breakpoint_at
  has_id-assign_over address id old [] h u ne = absurd (cc)
  has_id-assign_over address id old ((a, i) ∷ m) h u ne =
      ground (arith, has_id-assign_over address id old m, has_id-at address old m)

  create-Tracked :
      (address : ℕ) (s : Breakpoints W)
      → breakpoint_at address s.breakpoints ≡ none
      → Tracked s
      → Tracked (create_software_breakpoint lldb address s)
  unfolding create_software_breakpoint
  create-Tracked address s h t = elim (Option-cases (lldb.create_breakpoint address s.world).0) [
    | inl e ↦
        rw (e, create_software_breakpoint)
          (record {
            unique = t.unique;
            same = λ id. t.same id ∙ sym (laws.not_created address s.world e id);
          })
    | inr (id, e) ↦
        let fresh : has_id id s.breakpoints ≡ false =
          t.same id ∙ laws.created_new address id s.world e in
        rw (e, create_software_breakpoint)
          (record {
            unique = unique-assign address id s.breakpoints h fresh t.unique;
            same = λ other.
                has_id-assign address id other s.breakpoints h
                ∙ ap (λ (b : Bool). if other == id then true else b) (t.same other)
                ∙ sym (laws.created_live address id s.world e other);
          })
  ]

  remove-Tracked :
      (address : ℕ) (s : Breakpoints W)
      → Tracked s
      → Tracked (remove_software_breakpoint lldb address s)
  unfolding remove_software_breakpoint
  remove-Tracked address s t = elim (Option-cases (breakpoint_at address s.breakpoints)) [
    | inl e ↦ rw (e, remove_software_breakpoint) t
    | inr (id, e) ↦
        rw (e, remove_software_breakpoint)
          (record {
            unique = unique-erase address s.breakpoints t.unique;
            same = λ other.
                has_id-erase address id other s.breakpoints e t.unique
                ∙ ap (λ (b : Bool). if other == id then false else b) (t.same other)
                ∙ sym (laws.removed id s.world other);
          })
  ]

  -- Breakpoints are created and removed; none is created where one is.
  pub data Session : Breakpoints W → Type 0 where
    begun :
        (w : W)
        → ((id : ℕ) → laws.live id w ≡ false)
        → Session (record { breakpoints = []; world = w })
    create :
        {s : Breakpoints W} (address : ℕ)
        → Session s
        → breakpoint_at address s.breakpoints ≡ none
        → Session (create_software_breakpoint lldb address s)
    remove :
        {s : Breakpoints W} (address : ℕ)
        → Session s
        → Session (remove_software_breakpoint lldb address s)

  Session-Tracked : {s : Breakpoints W} → Session s → Tracked s
  unfolding has_id
  Session-Tracked (begun w none_live) = record { unique = tt; same = λ id. sym (none_live id) }
  Session-Tracked (create address ses h) = create-Tracked address _ h (Session-Tracked ses)
  Session-Tracked (remove address ses) = remove-Tracked address _ (Session-Tracked ses)

  -- From a process without breakpoints on, whatever was created and removed, failures among it, as
  -- long as none is created at an address that has one: exactly those breakpoints are live in the
  -- process that the debugger's map names.
  pub live-has_id :
      {s : Breakpoints W} → Session s → (id : ℕ) → laws.live id s.world ≡ has_id id s.breakpoints
  live-has_id ses id = sym ((Session-Tracked ses).same id)

  -- A second one at the same address hides the first: it stays live, and the map does not name it.
  create_again-leaks :
      {s : Breakpoints W} (address old id : ℕ)
      → Session s
      → breakpoint_at address s.breakpoints ≡ some old
      → (lldb.create_breakpoint address s.world).0 ≡ some id
      → (laws.live old (create_software_breakpoint lldb address s).world ≡ true)
        × (has_id old (create_software_breakpoint lldb address s).breakpoints ≡ false)
  unfolding create_software_breakpoint
  create_again-leaks {s} address old id ses there made =
      let t = Session-Tracked ses in
      let was_live : laws.live old s.world ≡ true =
        sym (t.same old) ∙ has_id-at address old s.breakpoints there in
      let new = laws.created_new address id s.world made in
      rw (made, create_software_breakpoint)
        (
          laws.created_live address id s.world made old ∙ ground arith,
          has_id-assign_over address id old s.breakpoints there t.unique (λ e. ground arith),
        )
