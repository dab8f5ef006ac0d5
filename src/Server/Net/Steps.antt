-- ===== src/Server/Net/Steps.antt =====
-- source/server/HazeServer.c: what libuv may do with a server at any time, one callback after the
-- other.
use haze.Base.{ℕ, ◌<◌, ◌≡◌, none, some, List, [], ◌∷◌, Bool}
use haze.Memory.{Heap}
use haze.Wire.Mpack.{Writer, Reader}
use haze.Api.{World}
use haze.Server.{Conn, Event}
use haze.Server.Net.{
  Net, Accept, find, on_connect, on_close, on_write_done, net_broadcast, read_from,
}

-- A server and its allocator.
abbrev pub State : Type 0 → Type 0
State S = Net S × Heap

module _ {W R S : Type 0} (wr : Writer W) (rd : Reader R) (w : World S)
    (takes : ℕ → List ℕ → Bool) where
  -- A callback, under what libuv promises: the address that calloc gives is of no live block; only a
  -- handle that is not closing is read; a write under way is reported once; and haze_on_close comes
  -- once uv_close was called and no write is under way.
  pub data Step (s : State S) : State S → Type 0 where
    connect : (o : Accept) (id : ℕ) → find s.0.conns id ≡ none → Step s (on_connect o id s.0 s.1)
    read :
        (id : ℕ) (c : Conn S) (e : Event)
        → find s.0.conns id ≡ some c
        → c.closes ≡ 0
        → Step s (read_from wr rd w takes id c e s.0 s.1)
    written :
        (ok : Bool) (id : ℕ) (c : Conn S) (bytes : List ℕ) (rest : List (List ℕ))
        → find s.0.conns id ≡ some c
        → c.sent ≡ bytes ∷ rest
        → Step s (on_write_done ok id c rest s.0 s.1)
    close :
        (id : ℕ) (c : Conn S)
        → find s.0.conns id ≡ some c
        → 0 < c.closes
        → c.sent ≡ []
        → Step s (on_close id c s.0 s.1)
    -- HazeServerBroadcast, which is called between two callbacks.
    tell : (bytes : List ℕ) → Step s (net_broadcast takes bytes s.0 s.1)

  -- What libuv can do from a state, in any number of callbacks.
  pub data Reach (s : State S) : State S → Type 0 where
    here : Reach s s
    next : {t u : State S} → Reach s t → Step t u → Reach s u
