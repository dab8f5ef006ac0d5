-- ===== src/Server/Connections/Ledger.antt =====
-- The blocks that the list of connections of source/server/HazeServer.c and its broadcast take.
use haze.Base.{ℕ, zero, suc, ◌+◌, ◌*◌, ◌≡◌, refl, List, [], ◌∷◌, Bool, if◌then◌else◌, length, arith}
use haze.Memory.{Heap, alloc, free, live-alloc, live-realloc}
use haze.Server.{send, copied_to, sent_to}
use haze.Server.Connections.{HazeServer, add_connection, enlarge, grown, blocks, broadcast}

live-enlarge :
    (cap : ℕ) (h : Heap)
    → (enlarge cap h).1.live + blocks cap
      ≡ h.live + (if (enlarge cap h).0 then blocks (grown cap) else blocks cap)
unfolding enlarge grown
live-enlarge zero h = ground (arith, live-alloc h)
live-enlarge (suc cap) h = ground (arith, live-realloc h)

pub live-add_connection :
    (s : HazeServer) (c : ℕ) (h : Heap)
    → (add_connection s c h).1.live + blocks s.conn_cap
      ≡ h.live + blocks (add_connection s c h).0.1.conn_cap
unfolding add_connection
live-add_connection s c h = ground (arith, live-enlarge s.conn_cap h)

pub addr-add_connection :
    (s : HazeServer) (c : ℕ) (h : Heap) → (add_connection s c h).0.1.addr ≡ s.addr
unfolding add_connection
addr-add_connection s c h = ground arith

-- The blocks of the writes that a broadcast starts.
abbrev pub writes : List (ℕ × List (List ℕ)) → ℕ
writes [] = 0
writes ((c, out) ∷ outs) = length out * 2 + writes outs

abbrev pub targets : List (ℕ × List (List ℕ)) → List ℕ
targets [] = []
targets ((c, out) ∷ outs) = c ∷ targets outs

live-send :
    (accepts : List ℕ → Bool) (bytes : List ℕ) (h : Heap)
    → (send accepts bytes h).1.live ≡ h.live + length (send accepts bytes h).0 * 2
unfolding send copied_to sent_to free
live-send accepts bytes h = ground (arith, live-alloc h, live-alloc (alloc h).1)

pub live-broadcast :
    (accepts : ℕ → List ℕ → Bool) (to : List ℕ) (bytes : List ℕ) (h : Heap)
    → (broadcast accepts to bytes h).1.live ≡ h.live + writes (broadcast accepts to bytes h).0
unfolding broadcast
live-broadcast accepts [] bytes h = omega arith
live-broadcast accepts (c ∷ rest) bytes h = omega (
  arith,
  live-send (accepts c) bytes h,
  live-broadcast accepts rest bytes (send (accepts c) bytes h).1,
)

pub targets-broadcast :
    (accepts : ℕ → List ℕ → Bool) (to : List ℕ) (bytes : List ℕ) (h : Heap)
    → targets (broadcast accepts to bytes h).0 ≡ to
unfolding broadcast
targets-broadcast accepts [] bytes h = refl
targets-broadcast accepts (c ∷ rest) bytes h =
    cc (targets-broadcast accepts rest bytes (send (accepts c) bytes h).1)
