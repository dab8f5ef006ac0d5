-- ===== src/Server/Net.antt =====
-- source/server/HazeServer.c: the callbacks that libuv runs on a server, and its start and its end.
-- A connection is named by a number, which stands for the address of its HazeConn.
pub mod Steps
pub mod Sound
pub mod Ledger
pub mod Free
pub mod HangUp
pub mod Broadcast
use haze.Base.{
  ℕ, zero, suc, ◌+◌, ◌*◌, ℤ, pos, Option, none, some, List, [], ◌∷◌, ◌++◌, Bool, true, false, ◌==◌,
  ◌&&◌, if◌then◌else◌, length, codes,
}
use haze.Memory.{M, pure, ◌>>=◌, ◌>>◌, alloc, free}
use haze.Audio.{name_blocks}
use haze.Session.{Session}
use haze.Wire.Mpack.{Writer, Reader}
use haze.Api.{World}
use haze.Server.{Conn, Event, Stop, closed, close_conn, on_read}
use haze.Server.Connections.{HazeServer, add_connection, remove_connection, broadcast, blocks}

-- What HazeServerNew returns, or the use of the loop that uv_loop_new failed to give.
pub data NewServer : Type 0 where
  made : HazeServer → NewServer
  failed crashed : NewServer

-- strdup(addr ? addr : "127.0.0.1")
address_or_local : Option (List ℕ) → List ℕ
unfolding codes
address_or_local none = codes "127.0.0.1"
address_or_local (some addr) = addr

with_loop : List ℕ → ℕ → Bool → Bool → NewServer
with_loop addr port loop copied =
    if loop
    then made (record {
      addr = if copied then some addr else none;
      port = port;
      connections = [];
      conn_cap = 0;
    })
    else crashed

-- HazeServerNew; the block of uv_loop_new is one of the three.
unfoldable pub server_new : Option (List ℕ) → ℕ → M NewServer
unfolding with_loop address_or_local
server_new addr port = do
  ok ← alloc
  if ok
      then (do
        loop ← alloc
        copied ← alloc
        pure (with_loop (address_or_local addr) port loop copied))
      else pure failed

-- HazeServerStart with a context and a server, where uv_tcp_bind and uv_listen give these results;
-- uv_ip4_addr reads the address, which may be null.
unfoldable pub server_start : HazeServer → ℤ → ℤ → Option ℤ
server_start s bound listens = started s.addr bound
  where
    started : Option (List ℕ) → ℤ → Option ℤ
    started none bound = none
    started (some addr) (pos zero) = some listens
    started (some addr) bound = some bound

-- A server with the HazeConns that are not yet freed and the number of its signal handles. The
-- session is the one of its context. In a HazeConn, `sent` are the writes that are under way and
-- `closes` counts the calls of uv_close.
pub record Net (S : Type 0) : Type 0 where
  pub server : HazeServer
  pub session : Session S
  pub conns : List (ℕ × Conn S)
  pub signals : ℕ

-- What libuv answers to haze_on_connect: the status that it reports, and whether uv_tcp_init, uv_accept
-- and uv_read_start succeed.
pub record Accept : Type 0 where
  pub arrives : Bool
  pub inits : Bool
  pub accepts : Bool
  pub reads : Bool

module _ {S : Type 0} where
  unfoldable pub find : List (ℕ × Conn S) → ℕ → Option (Conn S)
  find [] id = none
  find ((i, c) ∷ rest) id = if i == id then some c else find rest id

  unfoldable pub put : List (ℕ × Conn S) → ℕ → Conn S → List (ℕ × Conn S)
  put [] id d = []
  put ((i, c) ∷ rest) id d = if i == id then (i, d) ∷ rest else (i, c) ∷ put rest id d

  unfoldable pub without : List (ℕ × Conn S) → ℕ → List (ℕ × Conn S)
  without [] id = []
  without ((i, c) ∷ rest) id = if i == id then rest else (i, c) ∷ without rest id

  abbrev pub zeroed : Session S → Conn S
  zeroed s = record { buffer = []; cap = 0; session = s; sent = []; jobs = []; closes = 0 }

  registered : ℕ → Net S → M (Net S)
  registered id n = do
    (ok, s) ← add_connection n.server id
    pure (record n { server = s; conns = (id, zeroed n.session) ∷ n.conns })

  connected : Accept → ℕ → Net S → M (Net S)
  unfolding registered close_conn free
  connected o id n =
      if o.inits
      then (if o.accepts && o.reads
          then registered id n
          else pure (record n { conns = (id, close_conn (zeroed n.session)) ∷ n.conns }))
      else (do free 1; pure n)

  -- haze_on_connect, where calloc gives the address `id`. What HazeServerAddConnection returns is not
  -- looked at.
  unfoldable pub on_connect : Accept → ℕ → Net S → M (Net S)
  unfolding connected
  on_connect o id n =
      if o.arrives then (do ok ← alloc; if ok then connected o id n else pure n) else pure n

  -- haze_on_close of a handle whose `data` is the HazeConn `c`.
  unfoldable pub on_close : ℕ → Conn S → Net S → M (Net S)
  unfolding free without remove_connection
  on_close id c n = do
    free (blocks c.cap)
    free 1
    pure (record n { server = remove_connection n.server id; conns = without n.conns id })

  write_ended : Bool → Conn S → Conn S
  unfolding close_conn
  write_ended ok c = if ok then c else if c.closes == 0 then close_conn c else c

  -- haze_on_write_done for the first write under way of the connection `c`.
  unfoldable pub on_write_done : Bool → ℕ → Conn S → List (List ℕ) → Net S → M (Net S)
  unfolding write_ended free put
  on_write_done ok id c rest n = do
    free 2
    pure (record n { conns = put n.conns id (write_ended ok (record c { sent = rest })) })

  pub queue_one : ℕ → List (List ℕ) → List (ℕ × Conn S) → List (ℕ × Conn S)
  queue_one id out [] = []
  queue_one id out ((i, c) ∷ rest) =
      if i == id
      then (i, record c { sent = c.sent ++ out }) ∷ rest
      else (i, c) ∷ queue_one id out rest

  queue_all : List (ℕ × List (List ℕ)) → List (ℕ × Conn S) → List (ℕ × Conn S)
  unfolding queue_one
  queue_all [] conns = conns
  queue_all ((id, out) ∷ outs) conns = queue_all outs (queue_one id out conns)

  -- HazeServerBroadcast: the writes that it starts are under way.
  unfoldable pub net_broadcast : (ℕ → List ℕ → Bool) → List ℕ → Net S → M (Net S)
  unfolding queue_all
  net_broadcast takes bytes n = do
    outs ← broadcast takes n.server.connections bytes
    pure (record n { conns = queue_all outs n.conns })

  -- HazeServerSetupSignals, true where it returns 0.
  unfoldable pub setup_signals : Net S → M (Bool × Net S)
  setup_signals n = do ok ← alloc; pure (ok, if ok then record n { signals = n.signals + 1 } else n)

  -- In HazeServerFree the writes of a connection are cancelled, and haze_on_close runs if it was
  -- closing before; another gets _OnHandleClose, which leaves it as it is.
  close_one : ℕ → Conn S → Net S → M (Net S)
  unfolding on_close free put
  close_one id c n = do
    free (length c.sent * 2)
    if c.closes == 0
        then pure (record n { conns = put n.conns id (record c { sent = [] }) })
        else on_close id c n

  -- The turns of the loop.
  close_walk : List (ℕ × Conn S) → Net S → M (Net S)
  unfolding close_one
  close_walk [] n = pure n
  close_walk ((id, c) ∷ rest) n = do n' ← close_one id c n; close_walk rest n'

  -- HazeServerFree: the HazeConns that are left.
  unfoldable pub server_free : Net S → M (List (ℕ × Conn S))
  unfolding close_walk free
  server_free n = do
    n' ← close_walk n.conns n
    free n.signals
    free 1
    free (name_blocks n.server.addr)
    free 1
    pure n'.conns

module _ {W R S : Type 0} (wr : Writer W) (rd : Reader R) (w : World S) where
  -- haze_on_alloc, and what libuv then reports: UV_ENOBUFS, if it gave nothing.
  pub read_into : (List ℕ → Bool) → Conn S → Event → M (Stop × Conn S)
  unfolding on_read close_conn
  read_into accepts c e = do
    ok ← alloc
    if ok then on_read wr rd w accepts c e else pure (closed, close_conn c)

  -- haze_on_alloc and haze_on_read on the connection `c`, with the session of the context.
  unfoldable pub read_from : (ℕ → List ℕ → Bool) → ℕ → Conn S → Event → Net S → M (Net S)
  unfolding read_into put
  read_from takes id c e n = do
    (stop, d) ← read_into (takes id) (record c { session = n.session }) e
    pure (record n { session = d.session; conns = put n.conns id d })
