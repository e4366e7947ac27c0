-- ===== src/Commands/Pack.antt =====
-- src/pack.cpp: which files are packed, under which names, and the map that `replay` reads.
use dpcpp_trace.Prelude.{
  ℕ, ◌+◌, ◌%◌, ◌^◌, Bool, not, ◌||◌, none, some, List, [], ◌∷◌, ◌++◌, if◌then◌else◌, Bytes, codes,
  starts_with,
}
use dpcpp_trace.Options.{Options}
use dpcpp_trace.Commands.{Host, Object, text, JsonCodec, set_key, get_text}

-- `replayMap`, the files copied with the names of their copies, the latest first, and the counter.
pub record Packing : Type 0 where
  pub replay_map : List (Bytes × Bytes)
  pub copies : List (Bytes × Bytes)
  pub counter : ℕ

abbrev pub is_system_file : Bytes → Bool
is_system_file cand =
    starts_with (codes "/dev") cand
    || starts_with (codes "/sys") cand
    || starts_with (codes "/proc") cand

-- How the command ends before the archive is written.
pub data Packed : Type 0 where
  packed_with : Packing → Object → Packed
  exit_failure : Packed
  bad_config : Packed

-- The executable is copied first.
abbrev pub first_copy : Bytes → Packing
first_copy executable = record {
  replay_map = (executable, codes "0") ∷ [];
  copies = (executable, codes "0") ∷ [];
  counter = 1;
}

module _ (host : Host) (to_string : ℕ → Bytes) where
  -- A round of the loop over the recorded files.
  unfoldable pub pack_file : Bytes → Packing → Packing
  pack_file cand s =
      if is_system_file cand
      then s
      else if not (host.is_regular_file cand)
      then s
      else let new_file_name = to_string s.counter ++ (b'_' ∷ host.stem cand) in
        record {
          replay_map = set_key cand new_file_name s.replay_map;
          copies = (cand, new_file_name) ∷ s.copies;
          counter = (s.counter + 1) % 2 ^ 64;
        }

  unfoldable pub pack_files : List Bytes → Packing → Packing
  pack_files [] s = s
  pack_files (cand ∷ files) s = pack_files files (pack_file cand s)

  -- `pack`, up to the archive: what is copied into the directory, and the new configuration.
  unfoldable pub pack_command : JsonCodec → List Bytes → Options → Packed
  pack_command json record_files opts =
      if not (host.exists opts.input)
      then exit_failure
      else if host.exists (host.join opts.input (codes "pack"))
      then exit_failure
      else elim (host.contents (host.join opts.input (codes "replay_config.json"))) [
        | none ↦ bad_config
        | some bytes ↦ elim (json.parse bytes) [
          | none ↦ bad_config
          | some config ↦ elim (get_text (codes "executable") config) [
            | none ↦ bad_config
            | some executable ↦
                packed_with (pack_files record_files (first_copy executable))
                  (set_key (codes "recordMode") (text (codes "full")) config)
          ]
        ]
      ]
