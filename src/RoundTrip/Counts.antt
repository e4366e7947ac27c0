-- ===== src/RoundTrip/Counts.antt =====
-- record_handler.cpp `handlePlatformsGet` and `handleDevicesGet` against replay.cpp `piPlatformsGet` and
-- `piDevicesGet`: the number of platforms or devices.
use dpcpp_trace.Prelude.{
  AreBytes, ℕ, ◌+◌, ◌*◌, ◌/◌, ◌%◌, ◌<◌, ◌≡◌, refl, sym, ap, ◌∙◌, ◌≢◌, some, List, [], ◌∷◌, ◌++◌,
  append-nil, arith, Bytes, length, drop, drop-append, le_bytes, le_value,
}
use dpcpp_trace.Trace.Api.{ApiCall, Fits}
use dpcpp_trace.Trace.Frame.{write_frame}
use dpcpp_trace.Replay.Memory.{Memory, load, store, load-store, length-load}
use dpcpp_trace.Replay.Plugin.{Plugin, Outcome, ok, Runtime, ApiKind, expect_record}
use dpcpp_trace.Replay.Platform.{
  pi_platforms_get, pi_devices_get, copy_count, write_count, write_entries,
}
use dpcpp_trace.Replay.Table.Answers.{u32_at_ok, write_at_ok}
use dpcpp_trace.Replay.Table.Returns.{expect_record_meets}
use dpcpp_trace.Replay.Table.Session.{Holds, next_record-write_frame}
use dpcpp_trace.Record.Args.{pointer, unsigned}
use dpcpp_trace.Record.Recorder.{Environment, Recorder, Handled, handled, begin_call, finish_call}
use dpcpp_trace.Record.Handlers.{add_output, handle_platforms_get, handle_devices_get}

-- A call recorded with the four bytes at `p` as its first output.
abbrev pub Counted : ApiCall → Memory → ℕ → Type 0
Counted call m p = (rest : List Bytes) × (call.small_outputs ≡ load 4 p m ∷ rest)

le_bytes-le_value : (bs : Bytes) → AreBytes bs → le_bytes (length bs) (le_value bs) ≡ bs
le_bytes-le_value [] h = refl
le_bytes-le_value (b ∷ bs) (h, hs) =
    rw (low b (le_value bs) h, high b (le_value bs) h) (ap (◌∷◌ b) (le_bytes-le_value bs hs))
  where
    low : (b v : ℕ) → b < 256 → (b + 256 * v) % 256 ≡ b
    low b v h = omega arith

    high : (b v : ℕ) → b < 256 → (b + 256 * v) / 256 ≡ v
    high b v h = omega arith

-- The count that is written is the one in the record.
write_count-Counted :
    (call : ApiCall) (m : Memory) (p q : ℕ) (s : Plugin)
    → Counted call m p
    → AreBytes (load 4 p m)
    → q ≢ 0
    → write_count call q s ≡ ok tt (record s { memory = store q (load 4 p m) s.memory })
unfolding write_count copy_count load
write_count-Counted call m p q s (rest, e) b h =
    let out : Bytes = load 4 p m in
    ground (
      arith,
      e,
      u32_at_ok out s (omega (arith, length-load 4 p m)),
      le_bytes-le_value out b,
      write_at_ok q out s h,
    )

-- A count query against such a record.
platforms_get-Counted :
    (rt : Runtime) (call : ApiCall) (m : Memory) (p q array : ℕ) (s s' : Plugin)
    → expect_record rt ApiKind.platforms_get s ≡ ok call s'
    → Counted call m p
    → AreBytes (load 4 p m)
    → q ≢ 0
    → pi_platforms_get rt 0 array q s
      ≡ ok call.return_value (record s' { memory = store q (load 4 p m) s'.memory })
unfolding pi_platforms_get write_entries
platforms_get-Counted rt call m p q array s s' e c b h =
    ground (arith, e, write_count-Counted call m p q s' c b h)

devices_get-Counted :
    (rt : Runtime) (call : ApiCall) (m : Memory) (p q array : ℕ) (s s' : Plugin)
    → expect_record rt ApiKind.devices_get s ≡ ok call s'
    → Counted call m p
    → AreBytes (load 4 p m)
    → q ≢ 0
    → pi_devices_get rt 0 array q s
      ≡ ok call.return_value (record s' { memory = store q (load 4 p m) s'.memory })
unfolding pi_devices_get write_entries
devices_get-Counted rt call m p q array s s' e c b h =
    ground (arith, e, write_count-Counted call m p q s' c b h)

-- The records that the two handlers write.
abbrev pub platforms_call : Recorder → Memory → ℕ → ℕ → ℕ → ℕ → ApiCall
platforms_call r m result n a p =
    add_output m p 4 (begin_call r result (unsigned 4 n ∷ pointer a ∷ pointer p ∷ []))

abbrev pub devices_call : Recorder → Memory → ℕ → ℕ → ℕ → ℕ → ℕ → ℕ → ApiCall
devices_call r m result platform type n a p = add_output m p 4 (
    begin_call r result
      (pointer platform ∷ unsigned 8 type ∷ unsigned 4 n ∷ pointer a ∷ pointer p ∷ []))

add_output-Counted :
    (m : Memory) (p : ℕ) (call : ApiCall)
    → p ≢ 0
    → call.small_outputs ≡ []
    → Counted (add_output m p 4 call) m p
unfolding add_output
add_output-Counted m p call h e = ([], ground (arith, e))

add_output_kept :
    (m : Memory) (p size : ℕ) (call : ApiCall)
    → ((add_output m p size call).return_value ≡ call.return_value)
      × ((add_output m p size call).function_id ≡ call.function_id)
unfolding add_output
add_output_kept m p size call = ground arith

abbrev pub os_of : Handled → Bytes
os_of (handled r) = r.os
os_of _ = []

pub appended :
    (env : Environment) (rt : Runtime) (r r' : Recorder) (call : ApiCall)
    → env.codec ≡ rt.codec
    → finish_call env r call ≡ handled r'
    → drop (length r.os) r'.os ≡ write_frame rt.codec call ++ []
unfolding finish_call
appended env rt r r' call c e =
    let os : r'.os ≡ r.os ++ write_frame env.codec call = sym (ap os_of e) in
    rw (os, append-nil)
      (drop-append r.os (write_frame env.codec call) ∙ ap (λ codec. write_frame codec call) c)

-- What both queries share; `run` is the query, and `base` the record before its output.
Counted-replays :
    (env : Environment) (rt : Runtime) (r r' : Recorder) (m : Memory) (result : ℕ) (base : ApiCall)
    (p q : ℕ) (s : Plugin) (k : ApiKind) (run : Plugin → Outcome ℕ)
    → ((s' : Plugin)
        → expect_record rt k s ≡ ok (add_output m p 4 base) s'
        → Counted (add_output m p 4 base) m p
        → AreBytes (load 4 p m)
        → q ≢ 0
        → run s
          ≡ ok
              (add_output m p 4 base).return_value
              (record s' { memory = store q (load 4 p m) s'.memory }))
    → env.codec ≡ rt.codec
    → finish_call env r (add_output m p 4 base) ≡ handled r'
    → base.small_outputs ≡ []
    → base.return_value ≡ result
    → base.function_id ≡ rt.kind_id k
    → Fits rt.codec (add_output m p 4 base)
    → p ≢ 0
    → q ≢ 0
    → AreBytes (load 4 p m)
    → Holds s (drop (length r.os) r'.os)
    → (t : Plugin) × (run s ≡ ok result t) × (load 4 q t.memory ≡ load 4 p m) × Holds t []
Counted-replays env rt r r' m result base p q s k run body c e empty v i f hp hq b h =
    let call = add_output m p 4 base in
    let (returns, id) = add_output_kept m p 4 base in
    let (s', next, h', brk) =
      next_record-write_frame rt s call [] f (rw (appended env rt r r' call c e) at h) in
    let meets = expect_record_meets rt k s s' call next (id ∙ i) in
    let given = body s' meets (add_output-Counted m p base hp empty) b hq in
    (
      record s' { memory = store q (load 4 p m) s'.memory },
      ground (arith, given, returns, v),
      rw (length-load 4 p m) at (load-store (load 4 p m) q s'.memory),
      h',
    )

-- If the record of a `piPlatformsGet` that returned a count is the next one in the trace, and the
-- serializer gives it back, a count query of the replayed program returns the recorded result,
-- stores the four bytes of the recorded count, and has read that record alone. Both pointers to a
-- count are there, and the recorded program's memory holds bytes.
platforms_count_replays :
    (env : Environment) (rt : Runtime) (r r' : Recorder) (m : Memory) (result n a p q : ℕ)
    (s : Plugin)
    → env.codec ≡ rt.codec
    → handle_platforms_get env r m (some result) n a p ≡ handled r'
    → r.last_function_id ≡ rt.kind_id ApiKind.platforms_get
    → Fits rt.codec (platforms_call r m result n a p)
    → p ≢ 0
    → q ≢ 0
    → AreBytes (load 4 p m)
    → Holds s (drop (length r.os) r'.os)
    → (t : Plugin) × (pi_platforms_get rt 0 0 q s ≡ ok result t)
      × (load 4 q t.memory ≡ load 4 p m)
      × Holds t []
unfolding handle_platforms_get
platforms_count_replays env rt r r' m result n a p q s c e i f hp hq b h =
    let base = begin_call r result (unsigned 4 n ∷ pointer a ∷ pointer p ∷ []) in
    Counted-replays env rt r r' m result base p q s ApiKind.platforms_get
      (pi_platforms_get rt 0 0 q)
      (platforms_get-Counted rt (platforms_call r m result n a p) m p q 0 s) c e
      (unfold begin_call in refl) (unfold begin_call in refl) (unfold begin_call in i) f hp hq b h

-- If the record of a `piDevicesGet` that returned a count is the next one in the trace, and the
-- serializer gives it back, a query of the replayed program for the number of devices returns the
-- recorded result, stores the four bytes of the recorded count, and has read that record alone.
-- Both pointers to a count are there, and the recorded program's memory holds bytes.
devices_count_replays :
    (env : Environment) (rt : Runtime) (r r' : Recorder) (m : Memory)
    (result platform type n a p q : ℕ) (s : Plugin)
    → env.codec ≡ rt.codec
    → handle_devices_get env r m (some result) platform type n a p ≡ handled r'
    → r.last_function_id ≡ rt.kind_id ApiKind.devices_get
    → Fits rt.codec (devices_call r m result platform type n a p)
    → p ≢ 0
    → q ≢ 0
    → AreBytes (load 4 p m)
    → Holds s (drop (length r.os) r'.os)
    → (t : Plugin) × (pi_devices_get rt 0 0 q s ≡ ok result t)
      × (load 4 q t.memory ≡ load 4 p m)
      × Holds t []
unfolding handle_devices_get
devices_count_replays env rt r r' m result platform type n a p q s c e i f hp hq b h =
    let base =
      begin_call r result
        (pointer platform ∷ unsigned 8 type ∷ unsigned 4 n ∷ pointer a ∷ pointer p ∷ []) in
    Counted-replays env rt r r' m result base p q s ApiKind.devices_get (pi_devices_get rt 0 0 q)
      (devices_get-Counted rt (devices_call r m result platform type n a p) m p q 0 s) c e
      (unfold begin_call in refl) (unfold begin_call in refl) (unfold begin_call in i) f hp hq b h
