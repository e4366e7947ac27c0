-- ===== src/Commands/Packed.antt =====
-- What `pack` copied is what `replay` puts in the place of the recorded files.
use dpcpp_trace.Prelude.{
  Decimal, ℕ, ◌+◌, ◌^◌, ◌<◌, ◌≡◌, refl, ◌⊎◌, inl, inr, false, some, List, [], ◌∷◌, ◌++◌, arith,
  Bool-cases, Bytes, length, same_text, codes, same_text_refl,
}
use dpcpp_trace.Commands.{Host, find}
use dpcpp_trace.Commands.Replay.{contains, find_suitable_replacement}
use dpcpp_trace.Commands.Pack.{Packing, pack_file, pack_files, first_copy}
use dpcpp_trace.Commands.Copies.{
  Has, DistinctNames, find-set_key, Selected, copy_made, no_copy, Selected-or_not, pack_files-Sound,
  first_copy-Sound,
}

module _ (host : Host) (to_string : ℕ → Bytes) (decimal : Decimal to_string) where
  abbrev InMap : Bytes → Packing → Type 0
  InMap name s = (to : Bytes) × (find name s.replay_map ≡ some to)

  -- What is in the map stays there.
  pack_file-InMap :
      (name cand : Bytes) (s : Packing)
      → InMap name s
      → InMap name (pack_file host to_string cand s)
  pack_file-InMap name cand s (to, e) = elim (Selected-or_not host to_string decimal cand) [
    | inr skipped ↦ rw (no_copy host to_string decimal cand s skipped) (to, e)
    | inl chosen ↦
        rw (copy_made host to_string decimal cand s chosen)
          (elim (Bool-cases (same_text cand name)) [
            | inl same ↦ (
              to_string s.counter ++ (b'_' ∷ host.stem cand),
              rw
                  (
                    find-set_key name cand (to_string s.counter ++ (b'_' ∷ host.stem cand))
                        s.replay_map,
                    same,
                  )
                  refl,
            )
            | inr other ↦ (
              to,
              rw
                  (
                    find-set_key name cand (to_string s.counter ++ (b'_' ∷ host.stem cand))
                        s.replay_map,
                    other,
                  )
                  e,
            )
          ])
  ]

  own-InMap :
      (cand : Bytes) (s : Packing)
      → Selected host to_string decimal cand
      → InMap cand (pack_file host to_string cand s)
  own-InMap cand s chosen =
      let name : Bytes = to_string s.counter ++ (b'_' ∷ host.stem cand) in
      rw (copy_made host to_string decimal cand s chosen)
        (name, rw (find-set_key cand cand name s.replay_map, same_text_refl cand) refl)

  pack_files-InMap :
      (name : Bytes) (files : List Bytes) (s : Packing)
      → InMap name s
      → InMap name (pack_files host to_string files s)
  unfolding pack_files
  pack_files-InMap name [] s h = h
  pack_files-InMap name (cand ∷ files) s h =
      pack_files-InMap name files (pack_file host to_string cand s) (pack_file-InMap name cand s h)

  -- A name that stands among the recorded files.
  abbrev Listed : Bytes → List Bytes → Type 0
  Listed name [] = ⊥
  Listed name (cand ∷ files) = (name ≡ cand) ⊎ Listed name files

  Listed-InMap :
      (name : Bytes) (files : List Bytes) (s : Packing)
      → Selected host to_string decimal name
      → Listed name files
      → InMap name (pack_files host to_string files s)
  unfolding pack_files
  Listed-InMap name [] s h l = absurd l
  Listed-InMap name (cand ∷ files) s h (inr l) =
      Listed-InMap name files (pack_file host to_string cand s) h l
  Listed-InMap name (cand ∷ files) s h (inl e) =
      pack_files-InMap name files (pack_file host to_string cand s)
        (rw e (own-InMap cand s (rw e at h)))

  -- For a trace packed from fewer than 2 ^ 64 - 1 recorded files, where different numbers have
  -- different texts without an underscore: no two copies have the same name, so that none is refused
  -- because it is there; and for each recorded file that is regular, whose name does not begin with
  -- the texts `/dev`, `/sys` or `/proc` (as that of `/developer/x` does too), and is not that of a
  -- library, the program that is replayed is given a copy of just that file, if the map is read back
  -- with the same values.
  pub pack_files-replaced :
      (executable : Bytes) (files : List Bytes) (name path : Bytes)
      (file_map : List (Bytes × Bytes)) (host' : Host)
      → length files + 1 < 2 ^ 64
      → Listed name files
      → Selected host to_string decimal name
      → contains (codes ".so") name ≡ false
      → ((key : Bytes)
          → find key file_map
            ≡ find key (pack_files host to_string files (first_copy executable)).replay_map)
      → DistinctNames (pack_files host to_string files (first_copy executable)).copies
        × (copy : Bytes) × (find_suitable_replacement host' path file_map name
            ≡ some (host'.join (host'.join path (codes "pack")) copy))
        × Has (name, copy) (pack_files host to_string files (first_copy executable)).copies
  unfolding find_suitable_replacement
  pack_files-replaced executable files name path file_map host' small listed h plain same =
      let sound =
        pack_files-Sound host to_string decimal files (first_copy executable) (omega arith)
          (first_copy-Sound host to_string decimal executable) in
      let (copy, e) = Listed-InMap name files (first_copy executable) h listed in
      (
        sound.distinct,
        copy,
        rw (find_suitable_replacement, plain, same name, e) refl,
        sound.copied name copy e,
      )
