-- ===== src/Daemon/Socket.antt =====
-- `remove_stale_socket` of crates/rrjj/src/main.rs, by what the calls on the path answer.
use rrjj.Prelude.{Bool, true, false, String}
use rrjj.Prelude.Action.{Result, ok, err}

-- `std::io::ErrorKind`, as far as the code tells the kinds apart
pub data ErrorKind : Type 0 where
  not_found connection_refused other : ErrorKind

-- The answers of `symlink_metadata` (is it a socket?), `connect` and `remove_file`.
pub record Answers : Type 0 where
  pub is_socket : Result ErrorKind Bool
  pub connect : Result ErrorKind Unit
  pub remove_file : Result ErrorKind Unit

unfoldable pub removed : Result ErrorKind Unit → Result String Unit
removed (ok _) = ok tt
removed (err ErrorKind.not_found) = ok tt
removed (err e) = err "remove"

-- The result, and whether `remove_file` was called.
unfoldable pub probe : Result ErrorKind Unit → Result ErrorKind Unit → Result String Unit × Bool
unfolding removed
probe (ok _) remove_file = (err "control socket is active", false)
probe (err ErrorKind.connection_refused) remove_file = (removed remove_file, true)
probe (err ErrorKind.not_found) remove_file = (removed remove_file, true)
probe (err e) remove_file = (err "probe control socket", false)

unfoldable pub inspect :
    Result ErrorKind Bool
    → Result ErrorKind Unit
    → Result ErrorKind Unit
    → Result String Unit × Bool
unfolding probe
inspect (ok true) connect remove_file = probe connect remove_file
inspect (ok false) connect remove_file = (err "exists and is not a socket", false)
inspect (err ErrorKind.not_found) connect remove_file = (ok tt, false)
inspect (err e) connect remove_file = (err "metadata", false)

unfoldable pub remove_stale_socket : Answers → Result String Unit × Bool
unfolding inspect
remove_stale_socket a = inspect a.is_socket a.connect a.remove_file
