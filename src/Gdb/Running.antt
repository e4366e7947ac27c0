-- ===== src/Gdb/Running.antt =====
-- GDBServerProtocol.cpp: `process_vCont` and `process_c`, which let the program run.
use dpcpp_trace.Prelude.{ℕ, none, some, [], Bytes, codes}
use dpcpp_trace.Gdb.Hex.{parse_u64, parse_i32}
use dpcpp_trace.Gdb.Debugger.{Debugger, System, Protocol, Reply, respond, report_stop}
use dpcpp_trace.Gdb.Packets.{group}

module _ {W : Type 0} (dbg : Debugger W) (sys : System W) where
  -- `resume(signal, tid)`, and the stop that follows.
  abbrev resume_and_report : ℕ → ℕ → Protocol W → Reply W
  resume_and_report signal tid p =
      report_stop dbg sys (record p { world = dbg.resume signal tid p.world })

  abbrev step_and_report : ℕ → ℕ → Protocol W → Reply W
  step_and_report tid signal p =
      report_stop dbg sys (record p { world = dbg.step_instruction tid signal p.world })

  unfoldable pub process_c : Protocol W → Reply W
  process_c p = resume_and_report 0 0 p

  unfoldable pub process_v_cont : Bytes → Protocol W → Reply W
  process_v_cont packet p = elim (sys.ctre_match "\\+?\\$vCont\\?#[0-9a-fA-F]{2}\\+?" packet) [
    | some _ ↦ respond dbg sys (codes "vCont;c;C;t;s;S;r") p
    | none ↦ elim (sys.ctre_match "\\+?\\$vCont;c#[0-9a-fA-F]{2}\\+?" packet) [
      | some _ ↦ resume_and_report 0 0 p
      | none ↦ elim (sys.ctre_match "\\+?\\$vCont;c:([a-f0-9]+)#[0-9a-fA-F]{2}\\+?" packet) [
        | some groups ↦ resume_and_report 0 (parse_u64 (group 0 (some groups))) p
        | none ↦
            elim (sys.ctre_match "\\+?\\$vCont;C([0-9a-f]+):([0-9a-f]+)(?:;c)?#[0-9a-fA-F]{2}\\+?"
              packet) [
                | some groups ↦
                    resume_and_report (parse_i32 (group 0 (some groups)))
                      (parse_u64 (group 1 (some groups))) p
                | none ↦
                    elim (sys.ctre_match "\\+?\\$vCont;s:([0-9a-f]+)#[0-9a-fA-F]{2}\\+?" packet) [
                      | some groups ↦ step_and_report (parse_u64 (group 0 (some groups))) 0 p
                      | none ↦
                          elim (sys.ctre_match
                            "\\+?\\$vCont;S([0-9a-f]+):([0-9a-f]+)(?:;c)?#[0-9a-fA-F]{2}\\+?"
                            packet) [
                              | some groups ↦
                                  step_and_report (parse_u64 (group 1 (some groups)))
                                    (parse_i32 (group 0 (some groups))) p
                              | none ↦ respond dbg sys [] p
                            ]
                    ]
              ]
      ]
    ]
  ]
