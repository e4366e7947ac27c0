-- ===== src/Tests/Replaying.antt =====
-- A replayed program, and one that was recorded and is replayed.
use dpcpp_trace.Prelude.{
  ◌≡◌, refl, inr, true, List, [], ◌∷◌, arith, ◌==◌, if◌then◌else◌, Bytes, codes,
}
use dpcpp_trace.Trace.Api.{ApiCall, Codec}
use dpcpp_trace.Trace.Stream.{opened, read_u32, read, fill}
use dpcpp_trace.Trace.Frame.{write_frame, read_frame}
use dpcpp_trace.Trace.Read.{write_frames}
use dpcpp_trace.Replay.Memory.{Memory}
use dpcpp_trace.Replay.Plugin.{
  ApiKind, Plugin, ok, exited, next_record, ensure_trace_opened, get_next_record,
}
use dpcpp_trace.Replay.Table.{expected, call_plugin, queue_finish, platforms_get}
use dpcpp_trace.Replay.Table.Refuses.{call_plugin_refuses}
use dpcpp_trace.Replay.Table.Answers.{Same}
use dpcpp_trace.Replay.Table.Returns.{call_plugin_returns}
use dpcpp_trace.Replay.Table.Session.{call_all, Holds, Recorded, call_all_replays}
use dpcpp_trace.Record.Recorder.{Environment, Recorder}
use dpcpp_trace.Commands.{find}
use dpcpp_trace.RoundTrip.Kept.{read_call}
use dpcpp_trace.Tests.Fixtures.{
  sample, sample_codec, sample_fits, sample_runtime, plugin_on, two_records, no_mem_file,
}
use dpcpp_trace.Tests.Recording.{environment, recorder}

abbrev replayed : Plugin
replayed = plugin_on (write_frames sample_codec two_records) no_mem_file

-- The plugin once it has read the first record.
abbrev one_read : Plugin
one_read = record replayed {
  trace = opened (write_frames sample_codec (sample 4 5 ∷ []));
  is_open = true;
}

first_is_read : next_record sample_runtime replayed ≡ ok (sample 1 0) one_read
unfolding next_record ensure_trace_opened get_next_record read_frame read_u32 read fill write_frame
    write_frames
first_is_read = refl

call_plugin_refuses_example : call_plugin sample_runtime queue_finish replayed ≡ exited
unfolding expected
call_plugin_refuses_example =
    call_plugin_refuses sample_runtime queue_finish ApiKind.queue_finish replayed one_read
      (sample 1 0) refl first_is_read (omega arith)

call_plugin_returns_example :
    (t : Plugin) × (call_plugin sample_runtime (platforms_get 0 0 500) replayed ≡ ok 0 t)
    × Same one_read t
unfolding expected
call_plugin_returns_example =
    call_plugin_returns sample_runtime (platforms_get 0 0 500) ApiKind.platforms_get replayed
      one_read (sample 1 0) refl first_is_read refl
      (λ h. (2 ∷ 0 ∷ 0 ∷ 0 ∷ [], [], refl, omega arith)) (omega arith)

two-Recorded : Recorded sample_runtime (platforms_get 0 0 500 ∷ queue_finish ∷ []) two_records
unfolding expected
two-Recorded = (
  (ApiKind.platforms_get, refl, refl),
  (λ h. (2 ∷ 0 ∷ 0 ∷ 0 ∷ [], [], refl, omega arith)),
  sample_fits 1 0,
  ((ApiKind.queue_finish, refl, refl), tt, sample_fits 4 5, tt),
)

call_all_replays_example :
    (t : Plugin) × (call_all sample_runtime (platforms_get 0 0 500 ∷ queue_finish ∷ []) replayed
      ≡ ok (0 ∷ 5 ∷ []) t)
    × Holds t []
call_all_replays_example =
    call_all_replays sample_runtime (platforms_get 0 0 500 ∷ queue_finish ∷ []) two_records replayed
      two-Recorded (inr (refl, refl)) (omega arith)

-- A serializer for a single message.
abbrev one_message : ApiCall → Codec ApiCall
one_message c = record { serialize = λ d. 1 ∷ []; parse = λ bs. c }

-- The number 2 at address 100.
abbrev counted : Memory
counted a = if a == 100 then 2 else 0

-- A read of four bytes at address 100, kept in the third file of thread 42.
abbrev read_recorder : Recorder
read_recorder = record recorder { last_function_id = 3 }

abbrev kept_name : Bytes
kept_name = codes "42_3.mem"

abbrev kept_files : List (Bytes × Bytes)
kept_files = (kept_name, 4 ∷ 0 ∷ 0 ∷ 0 ∷ 0 ∷ 0 ∷ 0 ∷ 0 ∷ 2 ∷ 0 ∷ 0 ∷ 0 ∷ []) ∷ []

-- The call that the recorder writes.
abbrev recorded_call : ApiCall
recorded_call = read_call environment read_recorder 0 21 22 1 0 4 100 0 0 300

abbrev read_codec : Codec ApiCall
read_codec = one_message recorded_call

abbrev read_environment : Environment
read_environment = record environment { codec = read_codec }

abbrev read_recorded : Recorder
read_recorded = record read_recorder {
  os = write_frame read_codec recorded_call;
  mem_files = kept_files;
}

abbrev reading : Plugin
reading = plugin_on (write_frame read_codec recorded_call) (λ name. find name kept_files)
