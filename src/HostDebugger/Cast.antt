-- ===== src/HostDebugger/Cast.antt =====
-- utils/RTTI.hpp `dyn_cast` over the classes that have a `cast` of their own.
use dpcpp_trace.Prelude.{ℕ, ◌≡◌, refl, ◌⊎◌, inl, inr, Option, none, some, ◌==◌, if◌then◌else◌}

-- `RTTIHierarchy`: the classes that have an id, and the parts of an object that a cast may give.
pub data RttiHierarchy : Type 0 where
  abstract_debugger tracer host_debugger : RttiHierarchy

-- `getID`, the class's place in the enumeration.
unfoldable pub get_id : RttiHierarchy → ℕ
get_id abstract_debugger = 0
get_id tracer = 1
get_id host_debugger = 2

-- `cast` of the two bases, which objects of other classes inherit.
unfoldable pub debugger_cast : ℕ → Option RttiHierarchy
unfolding get_id
debugger_cast type = if type == get_id abstract_debugger then some abstract_debugger else none

unfoldable pub tracer_cast : ℕ → Option RttiHierarchy
unfolding get_id
tracer_cast type = if type == get_id tracer then some tracer else none

-- `HostDebugger::cast`
unfoldable pub host_cast : ℕ → Option RttiHierarchy
unfolding get_id
host_cast type =
    if type == get_id abstract_debugger
    then some abstract_debugger
    else if type == get_id tracer
    then some tracer
    else if type == get_id host_debugger
    then some host_debugger
    else none

-- The virtual call, by the object's class: one that only derives a base has the base's `cast`.
unfoldable pub virtual_cast : RttiHierarchy → ℕ → Option RttiHierarchy
unfolding debugger_cast tracer_cast host_cast
virtual_cast abstract_debugger type = debugger_cast type
virtual_cast tracer type = tracer_cast type
virtual_cast host_debugger type = host_cast type

-- `dyn_cast<T>(src)`; `none` is a null pointer.
unfoldable pub dyn_cast : RttiHierarchy → RttiHierarchy → Option RttiHierarchy
unfolding virtual_cast
dyn_cast target source = virtual_cast source (get_id target)

-- The class itself, and what it derives.
abbrev pub IsA : RttiHierarchy → RttiHierarchy → Type 0
IsA abstract_debugger abstract_debugger = Unit {0}
IsA tracer tracer = Unit {0}
IsA host_debugger _ = Unit {0}
IsA _ _ = ⊥

-- A cast gives the part of the class that was asked for if the object is of that class or derives it,
-- and a null pointer if not; it never gives the part of another class.
pub dyn_cast-IsA :
    (target source : RttiHierarchy)
    → ((dyn_cast target source ≡ some target) × IsA source target)
      ⊎ ((dyn_cast target source ≡ none) × (¬ IsA source target))
unfolding dyn_cast
dyn_cast-IsA abstract_debugger abstract_debugger = inl (refl, tt)
dyn_cast-IsA abstract_debugger tracer = inr (refl, λ h. h)
dyn_cast-IsA abstract_debugger host_debugger = inl (refl, tt)
dyn_cast-IsA tracer abstract_debugger = inr (refl, λ h. h)
dyn_cast-IsA tracer tracer = inl (refl, tt)
dyn_cast-IsA tracer host_debugger = inl (refl, tt)
dyn_cast-IsA host_debugger abstract_debugger = inr (refl, λ h. h)
dyn_cast-IsA host_debugger tracer = inr (refl, λ h. h)
dyn_cast-IsA host_debugger host_debugger = inl (refl, tt)
