-- ===== src/Raw/Events.antt =====
-- do_console_raw_update_events.
use libvirt_sandbox.Base.{ltb, if◌then◌else◌, Bool, not, ◌&&◌, Bytes, length}
use libvirt_sandbox.Raw.{Raw}

-- An offset that is not 0.
abbrev pub some_queued : Bytes → Bool
some_queued bs = ltb 0 (length bs)

abbrev local_events : Raw → Raw
local_events r = record r {
  stdin_source =
      if r.local_stdin
      then ltb (length r.to_console) r.to_console_length && not r.local_eof
      else r.stdin_source;
  stdout_source = if r.local_stdout then some_queued r.to_local else r.stdout_source;
  stderr_source = if r.local_stdout then r.stderr_source else some_queued r.to_local;
}

abbrev remote_events : Raw → Raw
remote_events r =
    if r.stream
    then record r {
      console_watch = record {
        readable = ltb (length r.to_local) r.to_local_length;
        writable = some_queued r.to_console;
      };
    }
    else record r {
      input_source = ltb (length r.to_local) r.to_local_length;
      output_source = some_queued r.to_console;
    }

unfoldable pub update_events : Raw → Raw
update_events r = if r.attached then remote_events (local_events r) else r
