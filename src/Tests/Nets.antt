-- ===== src/Tests/Nets.antt =====
-- Tests of a server and its connections.
use haze.Base.{ℕ, ◌+◌, ◌≡◌, ◌↔◌, ◌==◌, refl, arith, none, some, List, [], ◌∷◌, true, false, Bool}
use haze.Memory.{Heap, always, alloc}
use haze.Server.{Conn, arrived, on_read}
use haze.Server.Connections.{times}
use haze.Server.Net.{
  Net, Accept, find, on_connect, on_close, on_write_done, server_free, net_broadcast,
}
use haze.Server.Net.Steps.{State, Reach, connect, written, close, here, next}
use haze.Server.Net.Sound.{IsSound, Reach-IsSound}
use haze.Server.Net.Ledger.{net_blocks, quiet_balanced}
use haze.Server.Net.Free.{left_open, server_free_leaves}
use haze.Server.Net.Broadcast.{broadcast_reaches}
use haze.Server.Net.HangUp.{hang_up_ends}
use haze.Server.Closes.{Closes, on_read_closes}
use haze.Server.Middleware
use haze.Server.Middleware.{is_http, is_http_lem, BeginsWith}
use haze.Tests.Codec.{list_writer, list_reader}
use haze.Tests.Sessions.{world, session}
use haze.Tests.Servers.{conn}

abbrev accepts_all : ℕ → List ℕ → Bool
accepts_all id bytes = true

abbrev takes_all : List ℕ → Bool
takes_all bytes = true

abbrev busy : Conn ℕ
busy = record conn { cap = 1024; sent = (1 ∷ []) ∷ (2 ∷ []) ∷ [] }

-- Two connections, of which one is in the list.
abbrev net : Net ℕ
net = record {
  server = record { addr = some (49 ∷ []); port = 7192; connections = 7 ∷ []; conn_cap = 8 };
  session = session;
  conns = (7, busy) ∷ (9, record conn { closes = 1 }) ∷ [];
  signals = 1;
}

abbrev heap : Heap
heap = record { plan = always true; live = 20 }

net-IsSound : IsSound net
net-IsSound = record { apart = λ c. ground arith; alive = λ c. ground arith; fits = omega arith }

abbrev good : Accept
good = record { arrives = true; inits = true; accepts = true; reads = true }

abbrev Steps : State ℕ → State ℕ → Type 0
Steps s t = Reach list_writer list_reader world accepts_all s t

abbrev joined : State ℕ
joined = on_connect good 5 net heap

abbrev after : State ℕ
after =
    let t : State ℕ = on_write_done false 7 busy ((2 ∷ []) ∷ []) joined.0 joined.1 in
    on_close 9 (record conn { closes = 1 }) t.0 t.1

-- A connection, a write that fails, and a close.
some_steps : Steps (net, heap) after
unfolding find on_connect on_write_done alloc
some_steps =
    next
      (next (next here (connect good 5 refl))
        (written false 7 busy (1 ∷ []) ((2 ∷ []) ∷ []) refl refl))
      (close 9 (record conn { closes = 1 }) refl (omega arith) refl)

Reach-IsSound_example : IsSound after.0
Reach-IsSound_example =
    Reach-IsSound list_writer list_reader world accepts_all net-IsSound some_steps

quiet_balanced_example : net_blocks after.0 + 20 ≡ net_blocks net + after.1.live
unfolding some_steps
quiet_balanced_example =
    quiet_balanced list_writer list_reader world accepts_all some_steps (((tt, tt), tt), tt)
      net-IsSound (omega arith)

server_free_leaves_example :
    ((server_free net heap).0 ≡ (7, record busy { sent = [] }) ∷ [])
    × ((server_free net heap).1.live + net_blocks net ≡ 20 + 1 + 2)
unfolding left_open
server_free_leaves_example = server_free_leaves net heap net-IsSound (omega arith)

hang_up_ends_example :
    (u : State ℕ) × Steps (net, heap) u
    × (find u.0.conns 7 ≡ none)
    × (times u.0.server.connections 7 ≡ 0)
    × (u.1.live + 6 ≡ 20)
    × ((d : ℕ)
        → (7 == d) ≡ false
        → (find u.0.conns d ≡ find net.conns d)
          × (times u.0.server.connections d ≡ times net.server.connections d))
unfolding find
hang_up_ends_example =
    hang_up_ends list_writer list_reader world accepts_all net heap 7 busy net-IsSound refl refl
      (omega arith)

-- "PUT /a"
abbrev put_message : List ℕ
put_message = b'P' ∷ b'U' ∷ b'T' ∷ b' ' ∷ b'/' ∷ b'a' ∷ []

is_http_lem_example :
    (is_http (some put_message) ≡ Middleware.reject) ↔ BeginsWith Middleware.methods put_message
is_http_lem_example = is_http_lem put_message

on_read_closes_example :
    Closes list_writer list_reader world takes_all
      (on_read list_writer list_reader world takes_all conn (arrived (1 ∷ 2 ∷ [])) heap).0
on_read_closes_example =
    on_read_closes list_writer list_reader world takes_all conn (arrived (1 ∷ 2 ∷ [])) heap refl

broadcast_reaches_example :
    find (net_broadcast accepts_all (3 ∷ []) net heap).0.conns 7
    ≡ some (record busy { sent = (1 ∷ []) ∷ (2 ∷ []) ∷ (3 ∷ []) ∷ [] })
unfolding find
broadcast_reaches_example =
    broadcast_reaches accepts_all (3 ∷ []) net heap 7 net-IsSound refl (λ id. refl) (omega arith)
