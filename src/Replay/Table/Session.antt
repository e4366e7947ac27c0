-- ===== src/Replay/Table/Session.antt =====
-- A whole run against the trace of one thread.
use dpcpp_trace.Prelude.{
  ℕ, ◌≡◌, refl, ◌∙◌, ◌≢◌, ◌⊎◌, inl, inr, true, false, some, List, [], ◌∷◌, ◌++◌, map, arith, Bytes,
}
use dpcpp_trace.Trace.Api.{ApiCall, Fits}
use dpcpp_trace.Trace.Stream.{opened}
use dpcpp_trace.Trace.Frame.{write_frame, read_frame-write_frame}
use dpcpp_trace.Trace.Read.{write_frames}
use dpcpp_trace.Replay.Plugin.{
  Plugin, ok, M, ◌>>=◌, done, Runtime, ApiKind, next_record, ensure_trace_opened, get_next_record,
}
use dpcpp_trace.Replay.Table.{Call, call_plugin, expected}
use dpcpp_trace.Replay.Table.Adequate.{Adequate}
use dpcpp_trace.Replay.Table.Answers.{Same}
use dpcpp_trace.Replay.Table.Returns.{call_plugin_returns}

-- The runtime's calls on one thread, in turn, and the results that they are given.
unfoldable pub call_all : Runtime → List Call → M (List ℕ)
call_all rt [] = done []
call_all rt (c ∷ cs) = do
  result ← call_plugin rt c
  results ← call_all rt cs
  done (result ∷ results)

-- The calls are those that were recorded, one by one.
abbrev pub Recorded : Runtime → List Call → List ApiCall → Type 0
Recorded rt [] [] = Unit {0}
Recorded rt (c ∷ cs) (r ∷ rs) =
    ((k : ApiKind) × (expected c ≡ some k) × (r.function_id ≡ rt.kind_id k))
    × Adequate c r
    × Fits rt.codec r
    × Recorded rt cs rs
Recorded rt _ _ = ⊥

-- The thread's trace is open, or is about to be, with these bytes left.
abbrev pub Holds : Plugin → Bytes → Type 0
Holds s bs =
    ((s.is_open ≡ true) × (s.trace ≡ opened bs)) ⊎ ((s.is_open ≡ false) × (s.trace_file ≡ some bs))

pub next_record-write_frame :
    (rt : Runtime) (s : Plugin) (r : ApiCall) (rest : Bytes)
    → Fits rt.codec r
    → Holds s (write_frame rt.codec r ++ rest)
    → (s' : Plugin) × (next_record rt s ≡ ok r s') × Holds s' rest × (s'.brk ≡ s.brk)
unfolding next_record ensure_trace_opened get_next_record
next_record-write_frame rt s r rest f (inl (o, e)) = (
  record s { trace = opened rest },
  ground (arith, read_frame-write_frame rt.codec rt.junk r rest f),
  inl (o, refl),
  refl,
)
next_record-write_frame rt s r rest f (inr (o, e)) = (
  record s { trace = opened rest; is_open = true },
  ground (arith, read_frame-write_frame rt.codec rt.junk r rest f),
  inl (refl, refl),
  refl,
)

-- If the runtime makes the calls whose records the trace holds, in that order, every call returns
-- what it returned when it was recorded, and no byte of the trace is left over. Each record is of
-- the function that its call expects, holds what the call copies, and is given back by the
-- serializer with room for its size; the pointers that a call always writes through are there, and
-- the heap does not begin at the null pointer.
pub call_all_replays :
    (rt : Runtime) (cs : List Call) (rs : List ApiCall) (s : Plugin)
    → Recorded rt cs rs
    → Holds s (write_frames rt.codec rs)
    → s.brk ≢ 0
    → (t : Plugin) × (call_all rt cs s ≡ ok (map (λ r. r.return_value) rs) t) × Holds t []
unfolding call_all write_frames
call_all_replays rt [] [] s m h b = (s, refl, h)
call_all_replays rt (c ∷ cs) [] s m h b = elim m [ ]
call_all_replays rt [] (r ∷ rs) s m h b = elim m [ ]
call_all_replays rt (c ∷ cs) (r ∷ rs) s ((k, e, i), d, f, m) h b =
    let (s', n, h', b') = next_record-write_frame rt s r (write_frames rt.codec rs) f h in
    let (t, returns, same) = call_plugin_returns rt c k s s' r e n i d (omega arith) in
    let (u, later, h'') =
      call_all_replays rt cs rs t m (kept t same h') (omega (arith, same.brk)) in
    (u, ground (arith, returns, later), h'')
  where
    kept :
        {s' : Plugin} (t : Plugin)
        → Same s' t
        → Holds s' (write_frames rt.codec rs)
        → Holds t (write_frames rt.codec rs)
    kept t same (inl (o, e)) = inl (same.is_open ∙ o, same.trace ∙ e)
    kept t same (inr (o, e)) = inr (same.is_open ∙ o, same.trace_file ∙ e)
