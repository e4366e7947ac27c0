-- ===== src/Gdb/Threads.antt =====
-- How a client learns the program's threads: `qfThreadInfo` again and again.
use dpcpp_trace.Prelude.{
  ℕ, zero, suc, ◌+◌, ◌%◌, ◌^◌, ◌<◌, ◌≡◌, refl, sym, ap, ◌∙◌, some, List, [], ◌∷◌, ◌++◌, map,
  append-nil, append_assoc, arith, lt→ltb, le→ltb, Bytes, length, get_elem?, length-append, codes,
}
use mathlib.Core.Path.{subst}
use dpcpp_trace.Gdb.Hex.{encode_int, create_response}
use dpcpp_trace.Gdb.Debugger.{Debugger, System, Protocol, replied, thrown, undefined}
use dpcpp_trace.Gdb.Packets.{process_qf_thread_info}

-- A program that stands still: it has the threads `ids`, and asking does not change it.
pub record Threads {W : Type 0} (dbg : Debugger W) (ids : List ℕ) (w : W) : Type 0 where
  pub fewer : length ids < 2 ^ 64
  pub counted : dbg.get_num_threads w ≡ (length ids, w)
  pub named : (i id : ℕ) → get_elem? ids i ≡ some id → dbg.get_thread_id_at_index i w ≡ (id, w)

get_elem?-append :
    (before : List ℕ) (id : ℕ) (after : List ℕ)
    → get_elem? (before ++ id ∷ after) (length before) ≡ some id
get_elem?-append [] id after = refl
get_elem?-append (b ∷ bs) id after = get_elem?-append bs id after

module _ {W : Type 0} (dbg : Debugger W) (sys : System W) where
  -- The replies to `n` packets, one after the other.
  unfoldable pub ask : ℕ → Protocol W → List Bytes × Protocol W
  ask zero p = ([], p)
  ask (suc n) p = elim (process_qf_thread_info dbg sys p) [
    | replied response p' ↦ let (more, last) = ask n p' in (response ∷ more, last)
    | thrown ↦ ([], p)
    | undefined ↦ ([], p)
  ]

  abbrev respond_text : Protocol W → Bytes → Bytes
  respond_text p text = create_response sys.hex2 text p.ack

  one_thread :
      (ids : List ℕ) (i id : ℕ) (p : Protocol W)
      → Threads dbg ids p.world
      → get_elem? ids i ≡ some id
      → i < length ids
      → process_qf_thread_info dbg sys (record p { last_thread_info_index = i })
        ≡ replied
            (respond_text p (codes "m" ++ encode_int 8 id))
            (record p { last_thread_info_index = i + 1 })
  unfolding process_qf_thread_info
  one_thread ids i id p t h small =
      let fewer = t.fewer in
      let wrap : (i + 1) % 2 ^ 64 ≡ i + 1 = omega arith in
      rw
        (
          t.counted,
          process_qf_thread_info,
          lt→ltb i (length ids) small,
          t.counted,
          t.named i id h,
          wrap,
        )
        refl

  last_thread :
      (ids : List ℕ) (p : Protocol W)
      → Threads dbg ids p.world
      → process_qf_thread_info dbg sys (record p { last_thread_info_index = length ids })
        ≡ replied (respond_text p (codes "l")) (record p { last_thread_info_index = 0 })
  unfolding process_qf_thread_info
  last_thread ids p t =
      rw
        (
          t.counted,
          process_qf_thread_info,
          le→ltb (length ids) (length ids) (omega arith),
          t.counted,
        )
        refl

  abbrev replies : List ℕ → Protocol W → List Bytes × Protocol W
  replies ids p = (
    map (λ id. respond_text p (codes "m" ++ encode_int 8 id)) ids
        ++ respond_text p (codes "l") ∷ [],
    record p { last_thread_info_index = 0 },
  )

  ask_none : (p : Protocol W) → ask 0 p ≡ ([], p)
  unfolding ask
  ask_none p = refl

  ask_step :
      (n : ℕ) (p p' : Protocol W) (r : Bytes) (rest : List Bytes × Protocol W)
      → process_qf_thread_info dbg sys p ≡ replied r p'
      → ask n p' ≡ rest
      → ask (suc n) p ≡ (r ∷ rest.0, rest.1)
  unfolding ask
  ask_step n p p' r rest h e = rw (h, e, ask) refl

  remaining :
      (ids : List ℕ) (before after : List ℕ) (p : Protocol W)
      → ids ≡ before ++ after
      → Threads dbg ids p.world
      → ask (suc (length after)) (record p { last_thread_info_index = length before })
        ≡ replies after p
  remaining ids before [] p e t =
      let all : before ≡ ids = sym (e ∙ append-nil before) in
      let nothing : ask 0 (record p { last_thread_info_index = 0 })
          ≡ ([], record p { last_thread_info_index = 0 }) =
        ask_none (record p { last_thread_info_index = 0 }) in
      rw all (
        ask_step 0 (record p { last_thread_info_index = length ids })
          (record p { last_thread_info_index = 0 }) (respond_text p (codes "l"))
          ([], record p { last_thread_info_index = 0 }) (last_thread ids p t) nothing)
  remaining ids before (id ∷ after) p e t =
      let here : get_elem? ids (length before) ≡ some id =
        rw e (get_elem?-append before id after) in
      let next : length (before ++ id ∷ []) ≡ length before + 1 = length-append before (id ∷ []) in
      let small : length before < length ids =
        omega (arith, ap length e, length-append before (id ∷ after)) in
      let rest =
        remaining ids (before ++ id ∷ []) after p (e ∙ sym (append_assoc before (id ∷ []) after))
          t in
      let from_next : ask (suc (length after))
            (record p { last_thread_info_index = length before + 1 })
          ≡ replies after p =
        subst
          (λ i.
            ask (suc (length after)) (record p { last_thread_info_index = i }) ≡ replies after p)
          next rest in
      ask_step (suc (length after)) (record p { last_thread_info_index = length before })
        (record p { last_thread_info_index = length before + 1 })
        (respond_text p (codes "m" ++ encode_int 8 id)) (replies after p)
        (one_thread ids (length before) id p t here small) from_next

  -- The packets that ask for a program's threads, from the first index on, are answered with all of
  -- them, in order, and then with the end of the list; and the next packet begins again. The
  -- program stands still: it has fewer than 2 ^ 64 threads, and asking does not change it.
  pub ask-Threads :
      (ids : List ℕ) (p : Protocol W)
      → Threads dbg ids p.world
      → p.last_thread_info_index ≡ 0
      → ask (suc (length ids)) p ≡ (
        map (λ id. create_response sys.hex2 (codes "m" ++ encode_int 8 id) p.ack) ids
            ++ create_response sys.hex2 (codes "l") p.ack ∷ [],
        record p { last_thread_info_index = 0 },
      )
  ask-Threads ids p t z =
      subst (λ i. ask (suc (length ids)) (record p { last_thread_info_index = i }) ≡ replies ids p)
        (sym z) (remaining ids [] ids p refl t)
