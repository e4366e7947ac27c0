-- ===== src/Tests/Tracing.antt =====
-- A small child: memory and registers as functions, mapped up to 2 ^ 20.
use dpcpp_trace.Prelude.{
  ℕ, ◌+◌, ◌/◌, ◌%◌, ◌^◌, ◌≤◌, ◌<◌, ◌≡◌, refl, ◌≢◌, ◌⊎◌, inr, ◌&&◌, none, some, [], ◌∷◌, arith, ltb,
  ◌==◌, if◌then◌else◌, Bytes,
}
use dpcpp_trace.Replay.Memory.{Memory, store, load}
use dpcpp_trace.Tracer.{
  Ptrace, System, written, read_string, read_loop, scan_word, write_string, file_address,
}
use dpcpp_trace.Tracer.Memory.{Mapped}
use dpcpp_trace.Tracer.Rounds.{all_ones, read_string-unmapped}
use dpcpp_trace.Tracer.Stack.{Room, write_string_bounds}
use dpcpp_trace.Tracer.Worker.{WaitMacros, Regs, Kernel, Handlers, handled, handle_call, serve_call}
use dpcpp_trace.Tracer.Redirect.{Distinct, serve_call-redirects}
use dpcpp_trace.Tracer.Launch.{
  NativeTracer, forked, fork_parent, started, start_worker, wait_code, ret_trace, ret_allow, filter,
}
use dpcpp_trace.Tracer.Filter.{IsServed, filter-handle_call}
use dpcpp_trace.Tests.Breaking.{machine}
use dpcpp_trace.Tracer.Session.{start_worker-Run}
use dpcpp_trace.Tracer.Run.{HarmlessStop, Run, exits, opens, count_stops}
use dpcpp_trace.Tracer.Files.{record_handlers}

record Child : Type 0 where
  memory : Memory
  user : ℕ → ℕ
  opened : ℕ

abbrev child_ptrace : Ptrace Child
child_ptrace = record {
  peek = λ a w. load 8 a w.memory;
  poke = λ a word w. some (record w { memory = store a word w.memory });
  peek_user = λ reg w. w.user reg;
  poke_user =
      λ reg value w. record w { user = λ other. if reg == other then value else w.user other };
}

abbrev child_mapped : Mapped child_ptrace 0 (2 ^ 20)
child_mapped = record {
  byte = λ w. w.memory;
  in_space = omega arith;
  peek_lem = λ a w l u. refl;
  poke_lem =
      λ a word w l u n. (record w { memory = store a word w.memory }, refl, λ b. refl, λ reg. refl);
  poke_user_memory = λ reg value w b. refl;
  poke_user_lem = λ reg value other w. refl;
}

abbrev linux : System
linux = record {
  rsp = 19;
  rdi = 14;
  rsi = 13;
  orig_rax = 15;
  path_max = 4096;
  nr_stat = 4;
  nr_newfstatat = 262;
  nr_openat = 257;
}

-- The stack pointer is 10000; the child is in `openat`, and its file's name is "a" at 64.
abbrev child : Child
child = record {
  memory = λ a. if a == 64 then b'a' else 0;
  user = λ reg. if reg == 152 then 10000 else if reg == 120 then 257 else 0;
  opened = 0;
}

abbrev new_name : Bytes
new_name = b'd' ∷ b'/' ∷ b'0' ∷ []

abbrev rubbish : Bytes
rubbish = 9 ∷ 9 ∷ 9 ∷ 9 ∷ 9 ∷ 9 ∷ 9 ∷ 9 ∷ []

child_room : Room child_ptrace 0 (2 ^ 20) child_mapped linux rubbish new_name 104 child
unfolding file_address
child_room = record { buffer_size = refl; above = omega arith; below = omega arith }

write_string_bounds_example :
    (w' : Child) × (write_string child_ptrace linux rubbish 104 new_name child ≡ written w')
    × ((b : ℕ)
        → (b < file_address child_ptrace linux child)
          ⊎ (file_address child_ptrace linux child + 3 + 8 ≤ b)
        → w'.memory b ≡ child.memory b)
    × ((other : ℕ) → other ≢ 104 → w'.user other ≡ child.user other)
    × (128 + 4096 ≤ 10000
        → 10000 < 2 ^ 64
        → 3 + 8 ≤ 4096
        → (b : ℕ) → 10000 ≤ b + 128
        → w'.memory b ≡ child.memory b)
write_string_bounds_example =
    write_string_bounds child_ptrace 0 (2 ^ 20) child_mapped linux rubbish new_name 104 child
      child_room

abbrev unmapped_ptrace : Ptrace Child
unmapped_ptrace = record child_ptrace { peek = λ a w. all_ones }

read_string-unmapped_example : read_string unmapped_ptrace 3 0 child ≡ none
read_string-unmapped_example = read_string-unmapped unmapped_ptrace 3 0 child (λ i h. refl)

-- As in the headers of x86-64 Linux.
abbrev linux_wait : WaitMacros
linux_wait = record {
  wifexited = λ status. status % 128 == 0;
  wexitstatus = λ status. status / 256 % 256;
  wifsignaled = λ status. ltb 0 (status % 128) && ltb (status % 128) 127;
  wtermsig = λ status. status % 128;
  wifstopped = λ status. status % 256 == 127;
  wstopsig = λ status. status / 256 % 256;
  wifcontinued = λ status. status == 65535;
  sigterm = 15;
  sigsegv = 11;
  sigint = 2;
  sigill = 4;
  sigabrt = 6;
  sigfpe = 8;
  sigtrap = 5;
  ptrace_event_seccomp = 7;
}

-- The child opens one file and exits with code 3.
abbrev kernel : Kernel Child
kernel = record {
  ptrace = child_ptrace;
  cont = λ w. some w;
  waitpid = λ w.
      (some (if w.opened == 0 then 0x70500 + 127 else 0x300), record w { opened = w.opened + 1 });
  get_regs = λ w. some (record { rdi = 0; rsi = 64 });
}

abbrev regs_of_child : Regs
regs_of_child = record { rdi = 0; rsi = 64 }

linux-Distinct : Distinct linux
linux-Distinct = record {
  stat_newfstatat = omega arith;
  stat_openat = omega arith;
  newfstatat_openat = omega arith;
}

name_of_child :
    (n : ℕ) → read_string child_ptrace 2 64 (record child { opened = n }) ≡ some (b'a' ∷ [])
unfolding read_string read_loop scan_word load
name_of_child n = refl

-- The same child with the stop before it runs the program.
abbrev status_of : ℕ → ℕ
status_of stop = if stop == 0 then 0x1300 + 127 else if stop == 1 then 0x70500 + 127 else 0x300

abbrev forking_kernel : Kernel Child
forking_kernel = record kernel {
  waitpid = λ w. (some (status_of w.opened), record w { opened = w.opened + 1 });
}

abbrev ready_child : Child
ready_child = record child { opened = 1 }

abbrev harmless_call : HarmlessStop linux_wait (0x70500 + 127)
harmless_call = record { not_exited = refl; not_signaled = refl; stopped = refl; harmless = refl }

abbrev ready_run : Run linux_wait linux forking_kernel 2 ready_child ((b'a' ∷ []) ∷ []) 3
ready_run =
    opens regs_of_child (b'a' ∷ []) refl refl harmless_call refl refl refl (name_of_child 2)
      (exits refl refl (record { exit_status = refl; exit_code = refl }))

start_worker-Run_example :
    (t₁ : NativeTracer Child) × (t₂ : NativeTracer Child) × (fork_parent linux_wait forking_kernel
        some
        (record { exit_code = 0; traced = none })
        child
      ≡ forked t₁)
    × (start_worker linux linux_wait forking_kernel record_handlers 2 rubbish (2 + 0) t₁ []
        ≡ started t₂ ((b'a' ∷ []) ∷ []))
    × (wait_code t₂ ≡ 3)
unfolding count_stops
start_worker-Run_example =
    start_worker-Run linux_wait forking_kernel some linux 2 rubbish
      (record { exit_code = 0; traced = none }) child ready_child ready_child (0x1300 + 127) 3 0
      ((b'a' ∷ []) ∷ []) ready_run refl
      (record { not_exited = refl; not_signaled = refl; stopped = refl; harmless = refl }) refl
      linux-Distinct

-- A handler that counts the calls, and asks for the same file each time.
abbrev counting : Handlers ℕ
counting = record {
  on_stat = λ name calls. (calls, []);
  on_file_open = λ name calls. (calls + 1, new_name ∷ []);
}

serve_call-redirects_example :
    (w' : Child) × (serve_call linux linux_wait kernel counting 2 rubbish 0 child ≡ handled 1 w')
    × (read_string child_ptrace 4 (child_ptrace.peek_user 104 w') w' ≡ some new_name)
serve_call-redirects_example =
    serve_call-redirects linux kernel counting 2 rubbish linux_wait 0 (2 ^ 20) child_mapped
      regs_of_child 104 64 counting.on_file_open (b'a' ∷ []) new_name 0 1 child linux-Distinct
      (inr (inr (refl, refl, refl, refl))) refl (name_of_child 0) refl (omega arith) child_room

-- `read` has the number 0 and passes.
filter-handle_call_example :
    ((machine.execute 0 (filter linux) 7 ≡ ret_trace) × IsServed linux machine 0)
    ⊎ ((machine.execute 0 (filter linux) 7 ≡ ret_allow)
        × (¬ IsServed linux machine 0)
        × (handle_call linux linux_wait kernel counting 2 rubbish 0 regs_of_child 5 child
            ≡ handled 5 child))
filter-handle_call_example =
    filter-handle_call linux machine linux_wait kernel counting 2 rubbish regs_of_child 5 child 0 7
