-- ===== src/Main.antt =====
-- src/main.cpp: the command that the mode names, and the exit code.
use dpcpp_trace.Prelude.{ℕ, ◌%◌, Bool, Option, none, some, [], ◌++◌, if◌then◌else◌, Bytes, codes}
use dpcpp_trace.Options.{
  Mode, record_mode, replay_mode, print_mode, info_mode, pack_mode, unpack_mode, debug_mode,
  Options, Parsed, parsed, runtime_error, terminated, exit_failure, undefined,
}

-- How a command ends: it returns, throws an error with its text, or ends the process itself.
pub data CommandEnd : Type 0 where
  finished : CommandEnd
  threw_error : Bytes → CommandEnd
  exited_with : ℕ → CommandEnd
  aborted : CommandEnd

-- The seven commands of common.hpp, and whether the debugger was built in.
pub record CommandTable : Type 0 where
  pub has_debugger : Bool
  pub record_ : Options → CommandEnd
  pub replay : Options → CommandEnd
  pub print_trace : Options → CommandEnd
  pub pack : Options → CommandEnd
  pub unpack : Options → CommandEnd
  pub debug : Options → CommandEnd

-- The exit code as the shell sees it, with what is printed on the error stream; or no exit at all.
pub data MainEnd : Type 0 where
  exit_code : ℕ → Bytes → MainEnd
  main_aborted : MainEnd

module _ (commands : CommandTable) where
  -- A mode that was never written selects no command here.
  unfoldable pub dispatch : Option Mode → Options → CommandEnd × Bytes
  dispatch none opts = (finished, [])
  dispatch (some info_mode) opts = (finished, [])
  dispatch (some record_mode) opts = (commands.record_ opts, [])
  dispatch (some print_mode) opts = (commands.print_trace opts, [])
  dispatch (some replay_mode) opts = (commands.replay opts, [])
  dispatch (some pack_mode) opts = (commands.pack opts, [])
  dispatch (some unpack_mode) opts = (commands.unpack opts, [])
  dispatch (some debug_mode) opts =
      if commands.has_debugger
      then (commands.debug opts, [])
      else (finished, codes "dpcpp_trace was build without debugger support")

  -- `return -1`
  unfoldable pub cli_error : Bytes → MainEnd
  cli_error text = exit_code 255 (codes "CLI error: " ++ text)

  unfoldable pub end_main : CommandEnd × Bytes → MainEnd
  unfolding cli_error
  end_main (finished, text) = exit_code 0 text
  end_main (threw_error text, _) = cli_error text
  end_main (exited_with code, _) = exit_code (code % 256) []
  end_main (aborted, _) = main_aborted

  -- `main`, after the options' constructor.
  unfoldable pub main_ : Parsed → MainEnd
  unfolding dispatch end_main cli_error
  main_ (parsed opts) = end_main (dispatch opts.mode opts)
  main_ (runtime_error text) = cli_error text
  main_ terminated = main_aborted
  main_ exit_failure = exit_code 1 []
  main_ undefined = main_aborted
