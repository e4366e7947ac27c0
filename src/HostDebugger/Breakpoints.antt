-- ===== src/HostDebugger/Breakpoints.antt =====
-- HostDebugger.cpp: software breakpoints, by their addresses.
use dpcpp_trace.Prelude.{ℕ, Option, none, some, List, [], ◌∷◌, ◌==◌, if◌then◌else◌}
use dpcpp_trace.HostDebugger.{Lldb}

-- `mBreakpoints`, each address once, and the process.
pub record Breakpoints (W : Type 0) : Type 0 where
  pub breakpoints : List (ℕ × ℕ)
  pub world : W

-- `contains` and `operator[]`, the assignment, and `erase`.
unfoldable pub breakpoint_at : ℕ → List (ℕ × ℕ) → Option ℕ
breakpoint_at address [] = none
breakpoint_at address ((a, id) ∷ rest) =
    if a == address then some id else breakpoint_at address rest

unfoldable pub assign_breakpoint : ℕ → ℕ → List (ℕ × ℕ) → List (ℕ × ℕ)
assign_breakpoint address id [] = (address, id) ∷ []
assign_breakpoint address id ((a, i) ∷ rest) =
    if a == address then (a, id) ∷ rest else (a, i) ∷ assign_breakpoint address id rest

unfoldable pub erase_breakpoint : ℕ → List (ℕ × ℕ) → List (ℕ × ℕ)
erase_breakpoint address [] = []
erase_breakpoint address ((a, i) ∷ rest) =
    if a == address then rest else (a, i) ∷ erase_breakpoint address rest

module _ {W : Type 0} (lldb : Lldb W) where
  -- The target is there.
  unfoldable pub create_software_breakpoint : ℕ → Breakpoints W → Breakpoints W
  create_software_breakpoint address s =
      let created = lldb.create_breakpoint address s.world in
      elim created.0 [
        | none ↦ record s { world = created.1 }
        | some id ↦ record {
          breakpoints = assign_breakpoint address id s.breakpoints;
          world = created.1;
        }
      ]

  unfoldable pub remove_software_breakpoint : ℕ → Breakpoints W → Breakpoints W
  remove_software_breakpoint address s = elim (breakpoint_at address s.breakpoints) [
    | none ↦ s
    | some id ↦ record {
      breakpoints = erase_breakpoint address s.breakpoints;
      world = lldb.remove_breakpoint_by_id id s.world;
    }
  ]
