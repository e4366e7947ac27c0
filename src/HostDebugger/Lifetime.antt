-- ===== src/HostDebugger/Lifetime.antt =====
-- HostDebugger.cpp: `initialize`, and the debugger's constructor and destructor.
use dpcpp_trace.Prelude.{Bool, Option, none, some, if◌then◌else◌, Bytes}

-- LLDB and LLVM, as far as they are set up and taken down; `has_target` and `has_debugger` are the two
-- pointers of the debugger.
pub record LldbSystem (W : Type 0) : Type 0 where
  pub initialize_system : W → Option Bytes × W
  pub initialize_targets : W → W
  pub initialize_plugins : W → W
  pub settings_initialize : W → W
  pub create_instance : W → W
  pub set_async_execution : W → W
  pub has_target : W → Bool
  pub has_debugger : W → Bool
  pub destroy_target : W → W
  pub destroy_instance : W → W

-- The debugger is handed over, or the error is printed and the process exits with EXIT_FAILURE.
pub data Initialized (W : Type 0) : Type 0 where
  initialized : W → Initialized W
  exit_failure : Bytes → Initialized W

module _ {W : Type 0} (lldb : LldbSystem W) where
  -- `HostDebugger::HostDebugger`
  unfoldable pub construct_debugger : W → W
  construct_debugger w = lldb.set_async_execution (lldb.create_instance w)

  -- `initialize`
  unfoldable pub initialize : W → Initialized W
  unfolding construct_debugger
  initialize w =
      let begun = lldb.initialize_system w in
      elim begun.0 [
        | some error ↦ exit_failure error
        | none ↦ initialized (
            construct_debugger (
              lldb.settings_initialize (lldb.initialize_plugins (lldb.initialize_targets begun.1))))
      ]

  -- `HostDebugger::~HostDebugger`, which `deinitialize` calls.
  unfoldable pub destroy_debugger : W → W
  destroy_debugger w =
      let w' = if lldb.has_target w then lldb.destroy_target w else w in
      if lldb.has_debugger w' then lldb.destroy_instance w' else w'
