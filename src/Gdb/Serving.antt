-- ===== src/Gdb/Serving.antt =====
-- What the server does with the messages of a whole connection.
use dpcpp_trace.Prelude.{◌≡◌, refl, sym, ap, ◌∙◌, false, List, [], ◌∷◌, ◌++◌, Bytes}
use dpcpp_trace.Gdb.Debugger.{Debugger, System, Protocol, replied}
use dpcpp_trace.Gdb.Dispatch.{
  PacketKind, patterns, first_match, handle_kind, process_packet, answer, serve,
}
use mathlib.Core.Path.{fun_ext}

module _ {W : Type 0} (dbg : Debugger W) (sys : System W) where
  kill_ends :
      (m : Bytes) (rest : List Bytes) (p : Protocol W)
      → first_match dbg sys patterns m ≡ PacketKind.kill
      → serve dbg sys (m ∷ rest) p ≡ ([], replied [] (record p { running = false }))
  unfolding serve process_packet handle_kind
  kill_ends m rest p h = rw (h, serve) refl

  serve_cong :
      (m : Bytes) (rest rest' : List Bytes) (p : Protocol W)
      → serve dbg sys rest ≡ serve dbg sys rest'
      → serve dbg sys (m ∷ rest) p ≡ serve dbg sys (m ∷ rest') p
  unfolding serve
  serve_cong m rest rest' p h = ap (answer dbg sys (process_packet dbg sys m p)) h

  -- What comes behind a `k` packet is not read, whatever came before it.
  pub serve_until_kill :
      (before : List Bytes) (m : Bytes) (behind : List Bytes) (p : Protocol W)
      → first_match dbg sys patterns m ≡ PacketKind.kill
      → serve dbg sys (before ++ m ∷ behind) p ≡ serve dbg sys (before ++ m ∷ []) p
  serve_until_kill [] m behind p h = kill_ends m behind p h ∙ sym (kill_ends m [] p h)
  serve_until_kill (b ∷ bs) m behind p h =
      serve_cong b (bs ++ m ∷ behind) (bs ++ m ∷ []) p
        (fun_ext (λ q. serve_until_kill bs m behind q h))
