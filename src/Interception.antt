-- ===== src/Interception.antt =====
-- lib/system_intercept/threads.cpp: `pthread_create` in front of the system's, which names the thread.
pub mod Names
use dpcpp_trace.Prelude.{
  ℕ, ◌+◌, ◌%◌, ◌^◌, ◌≤◌, ◌<◌, ◌≡◌, ◌∷◌, ◌++◌, ◌==◌, if◌then◌else◌, Bytes, length, codes,
}

-- What is relied on of pthreads: a thread starts under the name of the one that creates it, and
-- `pthread_setname_np` takes a name of at most 15 bytes and refuses a longer one, which leaves the
-- name as it was.
pub record Pthread : Type 0 where
  pub initial_name : Bytes → Bytes
  pub initial_name_inherited : (creator : Bytes) → initial_name creator ≡ creator
  pub setname : Bytes → Bytes → Bytes
  pub setname_short : (old new : Bytes) → length new < 16 → setname old new ≡ new
  pub setname_long : (old new : Bytes) → 16 ≤ length new → setname old new ≡ old

-- The threads that were ever created, by their number: their names, and `threadCouner` of each.
pub record ThreadNames : Type 0 where
  pub count : ℕ
  pub names : ℕ → Bytes
  pub counters : ℕ → ℕ

unfoldable pub update : {A : Type 0} → ℕ → A → (ℕ → A) → ℕ → A
update n a f i = if i == n then a else f i

-- The call of the system's `pthread_create`, as far as it shows in the threads.
unfoldable pub real_pthread_create : Pthread → ℕ → ThreadNames → ThreadNames
unfolding update
real_pthread_create pthread self s = record {
  count = s.count + 1;
  names = update s.count (pthread.initial_name (s.names self)) s.names;
  counters = update s.count 0 s.counters;
}

module _ (pthread : Pthread) (to_string : ℕ → Bytes) where
  unfoldable pub child_name : ℕ → ThreadNames → Bytes
  child_name self s = s.names self ++ (b'_' ∷ to_string (s.counters self))

  -- What stands behind the call: `thread` is the one that was created.
  unfoldable pub name_thread : ℕ → ℕ → ThreadNames → ThreadNames
  unfolding child_name update
  name_thread self thread s = record s {
    names = update thread (pthread.setname (s.names thread) (child_name self s)) s.names;
    counters = update self ((s.counters self + 1) % 2 ^ 64) s.counters;
  }

  -- `pthread_create` of a thread `self`, where the creation succeeds.
  unfoldable pub pthread_create : ℕ → ThreadNames → ThreadNames
  unfolding name_thread real_pthread_create
  pthread_create self s = name_thread self s.count (real_pthread_create pthread self s)

-- `setMainThreadName`, on the only thread there is.
unfoldable pub set_main_thread_name : Pthread → ThreadNames → ThreadNames
unfolding update
set_main_thread_name pthread s = record s {
  names = update 0 (pthread.setname (s.names 0) (codes "main")) s.names;
}
