-- ===== src/Main.antt =====
-- source/main.c: the flags, and the search for a port on which the server starts.
pub mod Search
use haze.Base.{
  ℕ, zero, suc, ◌+◌, ◌%◌, ◌^◌, ℤ, pos, negsuc, Option, none, some, List, [], ◌∷◌, Bool, true, false,
  ◌==◌, ◌||◌, int_eq, if◌then◌else◌, length, codes, bytes_eq,
}
use haze.Memory.{M, pure, ◌>>=◌, ◌>>◌}
use haze.Session.{Session}
use haze.Server.Connections.{HazeServer}
use haze.Server.Net
use haze.Server.Net.{Net, NewServer, made, failed, server_new, server_start, server_free}

-- What TraitArgs prints; it returns 1 only for `goes_on`.
pub data Args : Type 0 where
  goes_on too_short version unknown : Args

-- TraitArgs with what stands behind the program's name.
unfoldable pub trait_args : List (List ℕ) → Args
unfolding codes bytes_eq
trait_args [] = goes_on
trait_args (flag ∷ rest) =
    if length flag == 1
    then too_short
    else if bytes_eq flag (codes "-v") || bytes_eq flag (codes "--version")
    then version
    else unknown

-- UV_EADDRINUSE and UV_EACCES
in_use : ℤ
in_use = negsuc 97

no_access : ℤ
no_access = negsuc 12

unfoldable pub is_taken : ℤ → Bool
unfolding in_use no_access
is_taken err = int_eq err in_use || int_eq err no_access

-- How the loop ends: with a server that listens, with `return 1`, in the use of a null pointer, or
-- never.
pub data Start : Type 0 where
  listening : HazeServer → Start
  gave_up crashed no_fuel : Start

module _ {S : Type 0} (bound listens : ℕ → ℤ) (s : Session S) where
  -- A server that no connection has reached.
  abbrev pub quiet : HazeServer → Net S
  quiet server = record { server = server; session = s; conns = []; signals = 0 }

  -- What HazeServerStart returned.
  started : M Start → HazeServer → Option ℤ → M Start
  unfolding server_free is_taken
  started again server none = pure crashed
  started again server (some err) =
      if is_taken err
      then (do left ← server_free (quiet server); again)
      else if int_eq err (pos 0)
      then pure (listening server)
      else (do left ← server_free (quiet server); pure gave_up)

  try_server : M Start → NewServer → M Start
  unfolding started server_start
  try_server again failed = pure gave_up
  try_server again Net.crashed = pure crashed
  try_server again (made server) =
      started again server (server_start server (bound server.port) (listens server.port))

  -- `while (1)`, where uv_tcp_bind and uv_listen answer so for each port; HazeServerNew takes the port
  -- modulo 2 ^ 16.
  unfoldable pub search : ℕ → ℕ → M Start
  unfolding try_server server_new
  search zero port = pure no_fuel
  search (suc fuel) port = do
    server ← server_new none (port % 2 ^ 16)
    try_server (search fuel (port + 1)) server
