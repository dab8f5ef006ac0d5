-- ===== src/Server/Connections.antt =====
-- source/server/HazeServer.c: the list of connections, which are named by numbers.
pub mod Ledger
use haze.Base.{
  ℕ, zero, suc, ◌+◌, ◌-◌, ◌*◌, ◌≤◌, ◌<◌, ◌≡◌, refl, Option, List, [], ◌∷◌, ◌++◌, Bool, true, ◌==◌,
  leb, if◌then◌else◌, length, length-append, arith,
}
use haze.Memory.{Heap, M, pure, ◌>>=◌, alloc, realloc}
use haze.Server.{send}

-- The struct HazeServer: its address, and `connections[0 .. conn_len)` with `conn_cap`. The loop and
-- the listening handle are libuv's.
pub record HazeServer : Type 0 where
  pub addr : Option (List ℕ)
  pub port : ℕ
  pub connections : List ℕ
  pub conn_cap : ℕ

grown : ℕ → ℕ
grown zero = 8
grown (suc cap) = suc cap * 2

-- realloc of the array, whose first call allocates.
enlarge : ℕ → M Bool
enlarge zero = alloc
enlarge (suc cap) = realloc

abbrev appended : HazeServer → ℕ → ℕ → HazeServer
appended s c cap = record s { connections = s.connections ++ c ∷ []; conn_cap = cap }

-- HazeServerAddConnection, true where it returns 0.
unfoldable pub add_connection : HazeServer → ℕ → M (Bool × HazeServer)
unfolding enlarge grown
add_connection s c =
    if leb s.conn_cap (length s.connections)
    then (do ok ← enlarge s.conn_cap; pure (ok, if ok then appended s c (grown s.conn_cap) else s))
    else pure (true, appended s c s.conn_cap)

-- The blocks of the array, or of a connection's buffer.
abbrev pub blocks : ℕ → ℕ
blocks zero = 0
blocks (suc cap) = 1

last_of : ℕ → List ℕ → ℕ
last_of c [] = c
last_of c (d ∷ rest) = last_of d rest

but_last : ℕ → List ℕ → List ℕ
but_last c [] = []
but_last c (d ∷ rest) = c ∷ but_last d rest

-- connections[0] = connections[conn_len - 1], and one element less.
swap_out : List ℕ → List ℕ
unfolding last_of but_last
swap_out [] = []
swap_out (d ∷ rest) = last_of d rest ∷ but_last d rest

-- HazeServerRemoveConnection: the first of the elements that is `c` gives way to the last.
unfoldable pub remove_from : List ℕ → ℕ → List ℕ
unfolding swap_out
remove_from [] c = []
remove_from (d ∷ rest) c =
    let behind = remove_from rest c in if d == c then swap_out rest else d ∷ behind

unfoldable pub remove_connection : HazeServer → ℕ → HazeServer
unfolding remove_from
remove_connection s c = record s { connections = remove_from s.connections c }

-- HazeServerBroadcast: what is sent, connection by connection.
unfoldable pub broadcast : (ℕ → List ℕ → Bool) → List ℕ → List ℕ → M (List (ℕ × List (List ℕ)))
unfolding send
broadcast accepts [] bytes = pure []
broadcast accepts (c ∷ rest) bytes = do
  out ← send (accepts c) bytes
  others ← broadcast accepts rest bytes
  pure ((c, out) ∷ others)

-- How often a connection stands in the list.
abbrev pub times : List ℕ → ℕ → ℕ
times [] c = 0
times (d ∷ rest) c = if d == c then suc (times rest c) else times rest c

times-append : (xs ys : List ℕ) (c : ℕ) → times (xs ++ ys) c ≡ times xs c + times ys c
times-append [] ys c = omega arith
times-append (x ∷ xs) ys c = ground (arith, times-append xs ys c)

times-swap :
    (d : ℕ) (rest : List ℕ) (c : ℕ)
    → times (last_of d rest ∷ but_last d rest) c ≡ times (d ∷ rest) c
unfolding last_of but_last
times-swap d [] c = refl
times-swap d (e ∷ rest) c = ground (arith, times-swap e rest c)

times-swap_out : (rest : List ℕ) (c : ℕ) → times (swap_out rest) c ≡ times rest c
unfolding swap_out
times-swap_out [] c = refl
times-swap_out (d ∷ rest) c = times-swap d rest c

-- HazeServerRemoveConnection of a connection that is in the list takes it out once, and keeps every
-- other connection as often as it was there.
pub remove_takes_one :
    (s : HazeServer) (c d : ℕ)
    → 0 < times s.connections c
    → times (remove_connection s c).connections d + (if c == d then 1 else 0)
      ≡ times s.connections d
unfolding remove_connection
remove_takes_one s c d h = go s.connections h
  where
    go :
        (xs : List ℕ)
        → 0 < times xs c
        → times (remove_from xs c) d + (if c == d then 1 else 0) ≡ times xs d
    go [] h = absurd (omega arith)
    go (x ∷ xs) h = ground (arith, go xs, times-swap_out xs d)

-- On every branch of HazeServerAddConnection, whatever the allocator answers, the connections fit
-- into the capacity if they did before; and it succeeds exactly if the connection is in the list
-- once more.
pub add_connection_fits :
    (s : HazeServer) (c : ℕ) (h : Heap)
    → length s.connections ≤ s.conn_cap
    → (length (add_connection s c h).0.1.connections ≤ (add_connection s c h).0.1.conn_cap)
      × (times (add_connection s c h).0.1.connections c ≡ (
          if (add_connection s c h).0.0
          then suc (times s.connections c)
          else times s.connections c))
unfolding add_connection grown
add_connection_fits s c h k = (
  ground (arith, length-append s.connections (c ∷ [])),
  ground (arith, times-append s.connections (c ∷ []) c),
)

-- Taking out a connection, whether it is in the list or not.
pub times-remove_connection :
    (s : HazeServer) (c d : ℕ)
    → times (remove_connection s c).connections d
      ≡ times s.connections d - (if c == d then 1 else 0)
unfolding remove_connection
times-remove_connection s c d = go s.connections
  where
    go : (xs : List ℕ) → times (remove_from xs c) d ≡ times xs d - (if c == d then 1 else 0)
    go [] = ground arith
    go (x ∷ xs) = ground (arith, go xs, times-swap_out xs d)

length-swap : (d : ℕ) (rest : List ℕ) → length (but_last d rest) ≡ length rest
unfolding but_last
length-swap d [] = refl
length-swap d (e ∷ rest) = omega (arith, length-swap e rest)

length-swap_out : (rest : List ℕ) → length (swap_out rest) ≡ length rest
unfolding swap_out
length-swap_out [] = refl
length-swap_out (d ∷ rest) = omega (arith, length-swap d rest)

-- Taking out a connection leaves room for the others.
pub remove_connection_fits :
    (s : HazeServer) (c : ℕ)
    → length s.connections ≤ s.conn_cap
    → length (remove_connection s c).connections ≤ (remove_connection s c).conn_cap
unfolding remove_connection
remove_connection_fits s c h = omega (arith, go s.connections)
  where
    go : (xs : List ℕ) → length (remove_from xs c) ≤ length xs
    go [] = omega arith
    go (x ∷ xs) = ground (arith, go xs, length-swap_out xs)

-- Adding a connection, whether it succeeds or not, leaves the others as they are.
pub times-add_connection :
    (s : HazeServer) (c d : ℕ) (h : Heap)
    → times (add_connection s c h).0.1.connections d
      ≤ times s.connections d + (if c == d then 1 else 0)
unfolding add_connection
times-add_connection s c d h = ground (arith, times-append s.connections (c ∷ []) d)
