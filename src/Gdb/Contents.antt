-- ===== src/Gdb/Contents.antt =====
-- What a client gets for a packet that reads memory, and what becomes of one that writes it.
use dpcpp_trace.Prelude.{
  ℕ, ◌<◌, ◌≡◌, refl, ap, false, Option, none, some, [], ◌∷◌, ◌++◌, arith, ◌==◌, if◌then◌else◌,
  Bytes, length, AreBytes, codes, String, starts_with,
}
use dpcpp_trace.Gdb.Hex.{parse_int, parse_loop, encode, decode, escape, parse_u64, create_response}
use dpcpp_trace.Gdb.Hex.Texts.{decode-encode, unescape, unescape-escape}
use dpcpp_trace.Gdb.Debugger.{Debugger, System, Protocol, replied, respond}
use dpcpp_trace.Gdb.Packets.{group, process_read_memory, process_write_memory}
use dpcpp_trace.Gdb.Dispatch.{PacketKind, patterns, first_match, handle_kind, process_packet}

-- A client asks for memory in one of two formats, by the letter of its packet: `$x` or `$m`, the
-- address, the length, and the checksum.
pub data Format : Type 0 where
  binary : Format
  hexadecimal : Format

abbrev pub letter : Format → ℕ
letter binary = b'x'
letter hexadecimal = b'm'

abbrev pub ask_memory : Format → Bytes → Bytes → Bytes → Bytes
ask_memory format start_text len_text checksum =
    b'$' ∷ letter format ∷ (start_text ++ b',' ∷ (len_text ++ b'#' ∷ checksum))

-- How it reads the text of the reply, by the format that it asked for.
abbrev pub client_reads : Format → Bytes → Option Bytes
client_reads binary text = some (unescape text)
client_reads hexadecimal text = decode text

-- What the server sends in each format.
abbrev sent : Format → Bytes → Bytes
sent binary bs = escape bs
sent hexadecimal bs = encode bs

client_reads-sent :
    (format : Format) (bs : Bytes) → AreBytes bs → client_reads format (sent format bs) ≡ some bs
client_reads-sent binary bs h = ap some (unescape-escape bs)
client_reads-sent hexadecimal bs h = decode-encode bs h

-- The server's choice, for a packet that a client has written.
chosen :
    (format : Format) (start_text len_text checksum bs : Bytes)
    → (if starts_with (codes "$x") (ask_memory format start_text len_text checksum)
        then escape bs
        else encode bs)
      ≡ sent format bs
unfolding starts_with escape encode
chosen binary start_text len_text checksum bs = refl
chosen hexadecimal start_text len_text checksum bs = refl

abbrev pub memory_pattern : String
memory_pattern = "\\+?\\$[mx]([0-9a-f]+),([0-9a-f]+)#[0-9a-fA-F]{2}\\+?"

abbrev pub write_pattern : String
write_pattern = "\\+?\\$[mx]([0-9a-f]+),([0-9a-f]+):([0-9a-f]+)#[0-9a-fA-F]{2}\\+?"

module _ {W : Type 0} (dbg : Debugger W) (sys : System W) where
  -- Let a client ask for memory in one of the two formats, with no acknowledgement before the `$`. If
  -- the packet matches the pattern of memory reads with the address and the length that it was given,
  -- the length is not zero, and the debugger reads some bytes there, the reply is a framed text from
  -- which the client, reading it in the format that it asked for, gets those very bytes; and the
  -- debugger's world is what its reading left.
  pub process_read_memory-client_reads :
      (format : Format) (start_text len_text checksum bs : Bytes) (w : W) (p : Protocol W)
      → sys.ctre_match memory_pattern (ask_memory format start_text len_text checksum)
        ≡ some (start_text ∷ len_text ∷ [])
      → 0 < parse_u64 len_text
      → dbg.read_memory (parse_u64 start_text) (parse_u64 len_text) p.world ≡ (bs, w)
      → AreBytes bs
      → 0 < length bs
      → (text : Bytes) × (process_read_memory dbg sys
            (ask_memory format start_text len_text checksum)
            p
          ≡ replied (create_response sys.hex2 text p.ack) (record p { world = w }))
        × (client_reads format text ≡ some bs)
  unfolding process_read_memory group
  process_read_memory-client_reads format start_text len_text checksum [] w p m positive r h
        some_bytes =
      absurd (omega arith)
  process_read_memory-client_reads format start_text len_text checksum (b ∷ bs) w p m positive r h
        some_bytes =
      let not_zero : (parse_u64 len_text == 0) ≡ false = ground arith in
      (
        sent format (b ∷ bs),
        rw
            (
              process_read_memory,
              m,
              not_zero,
              m,
              r,
              chosen format start_text len_text checksum (b ∷ bs),
            )
            refl,
        client_reads-sent format (b ∷ bs) h,
      )

  write_memory_nothing :
      (packet : Bytes) (p : Protocol W)
      → sys.ctre_match write_pattern packet ≡ none
      → process_write_memory dbg sys packet p ≡ respond dbg sys (codes "OK") p
  unfolding process_write_memory group parse_int parse_loop
  write_memory_nothing packet p h = rw (process_write_memory, h) refl

  -- A packet that asks to write memory is one with an `M`. When such a packet does not match the
  -- pattern that its handler takes it apart with, which wants an `m` or an `x` there, it is answered
  -- with `OK`, and nothing is written.
  pub process_packet_writes_nothing :
      (packet : Bytes) (p : Protocol W)
      → first_match dbg sys patterns packet ≡ PacketKind.write_memory
      → sys.ctre_match write_pattern packet ≡ none
      → process_packet dbg sys packet p ≡ replied (create_response sys.hex2 (codes "OK") p.ack) p
  unfolding process_packet handle_kind
  process_packet_writes_nothing packet p kind h =
      rw (process_packet, kind) (write_memory_nothing packet p h)
