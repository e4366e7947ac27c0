-- ===== src/HostDebugger/Launch.antt =====
-- HostDebugger.cpp `launch`: the program under a gdb-remote server in a child, and LLDB's connection.
use dpcpp_trace.Prelude.{Bool, true, false, Option, none, some, List, [], ◌∷◌, Bytes, codes}
use dpcpp_trace.HostDebugger.{CallResult, returned, terminated, undefined}

-- LLDB's `ProcessLaunchInfo` as far as it is filled in; the environment is not.
pub record LaunchInfo : Type 0 where
  pub executable_file : Bytes
  pub launch_debug : Bool
  pub stop_at_entry : Bool
  pub separate_group : Bool
  pub launch_arguments : List Bytes
  pub first_is_executable : Bool
  pub arg0 : Bytes

-- The operations of LLDB that `launch` calls one after the other: each says whether it succeeded.
-- `fork` leaves the parent's world; `canonical` throws if there is no such file.
pub record LldbLaunch (W : Type 0) : Type 0 where
  pub canonical : Bytes → W → Option Bytes
  pub create_target : W → Bool × W
  pub fork : LaunchInfo → W → W
  pub get_or_create_module : Bytes → W → Bool × W
  pub create_gdb_remote : W → Bool × W
  pub connect_remote : Bytes → W → Bool × W
  pub wait_for_stop : W → W

-- The server's side, in the child.
pub record LldbServer (V : Type 0) : Type 0 where
  pub launch_process : LaunchInfo → V → Bool × V
  pub tcp_listen : Bytes → V → Bool × V
  pub accept : V → Bool × V
  pub initialize_connection : V → Bool × V
  pub is_connected : V → Bool × V
  pub run_main_loop : V → Bool × V

-- A step that ends the process if it fails.
unfoldable pub or_terminate : {W A : Type 0} → Bool × W → (W → CallResult W A) → CallResult W A
or_terminate (false, w) rest = terminated
or_terminate (true, w) rest = rest w

-- `args.front()` of an empty span is undefined.
unfoldable pub launch_info : Bytes → List Bytes → Option LaunchInfo
launch_info executable [] = none
launch_info executable (first ∷ rest) = some (record {
  executable_file = executable;
  launch_debug = true;
  stop_at_entry = true;
  separate_group = true;
  launch_arguments = first ∷ rest;
  first_is_executable = true;
  arg0 = first;
})

-- The child: the server is launched, listens, is connected and runs; it ends with `exit(0)`.
unfoldable pub serve_child : {V : Type 0} → LldbServer V → LaunchInfo → V → CallResult V (Unit {0})
unfolding or_terminate
serve_child server info v = or_terminate (server.launch_process info v) λ v₁.
    or_terminate (server.tcp_listen (codes "localhost:11111") v₁) λ v₂.
      or_terminate (server.accept v₂) λ v₃. or_terminate (server.initialize_connection v₃) λ v₄.
        or_terminate (server.is_connected v₄)
          λ v₅. or_terminate (server.run_main_loop v₅) λ v₆. returned tt v₆

-- `launch`; what it returns is kept in `mExecutablePath`. An exception is undefined here.
unfoldable pub host_launch :
    {W : Type 0} → LldbLaunch W → Bytes → List Bytes → List Bytes → W → CallResult W Bytes
unfolding or_terminate launch_info
host_launch lldb executable args env w = elim (lldb.canonical executable w) [
  | none ↦ undefined
  | some path ↦ or_terminate (lldb.create_target w) λ w₁. elim (launch_info executable args) [
    | none ↦ undefined
    | some info ↦ or_terminate (lldb.get_or_create_module executable (lldb.fork info w₁)) λ w₂.
        or_terminate (lldb.create_gdb_remote w₂) λ w₃.
          or_terminate (lldb.connect_remote (codes "tcp-connect://localhost:11111") w₃)
            λ w₄. returned path (lldb.wait_for_stop w₄)
  ]
]
