-- ===== src/Server/Net/Free.antt =====
-- What HazeServerFree of source/server/HazeServer.c gives back, and what it does not.
use haze.Base.{
  ℕ, ◌+◌, ◌≤◌, ◌≡◌, refl, sym, List, [], ◌∷◌, ◌++◌, append_assoc, append-nil, ◌==◌, if◌then◌else◌,
  arith, Bool-cases, inl, inr,
}
use haze.Memory.{Heap, free}
use haze.Server.{Conn}
use haze.Server.Connections.{times, blocks}
use haze.Server.Net.{Net, put, without, on_close, close_one, close_walk, server_free}
use haze.Server.Net.Sound.{ids, IsSound}
use haze.Server.Net.Ledger.{conn_blocks, all_blocks, net_blocks}

module _ {S : Type 0} where
  -- The connections on which uv_close was not called, without the writes.
  unfoldable pub left_open : List (ℕ × Conn S) → List (ℕ × Conn S)
  left_open [] = []
  left_open ((i, c) ∷ rest) =
      let others = left_open rest in
      if c.closes == 0 then (i, record c { sent = [] }) ∷ others else others

  -- The address is of none of the HazeConns before it.
  put-append :
      (xs ys : List (ℕ × Conn S)) (id : ℕ) (c d : Conn S)
      → times (ids xs) id ≡ 0
      → put (xs ++ (id, c) ∷ ys) id d ≡ xs ++ (id, d) ∷ ys
  unfolding put
  put-append [] ys id c d e = ground arith
  put-append ((i, b) ∷ xs) ys id c d e = grind (arith, put-append xs ys id c d)

  without-append :
      (xs ys : List (ℕ × Conn S)) (id : ℕ) (c : Conn S)
      → times (ids xs) id ≡ 0
      → without (xs ++ (id, c) ∷ ys) id ≡ xs ++ ys
  unfolding without
  without-append [] ys id c e = ground arith
  without-append ((i, b) ∷ xs) ys id c e = grind (arith, without-append xs ys id c)

  times-ids :
      (xs ys : List (ℕ × Conn S)) (id : ℕ)
      → times (ids (xs ++ ys)) id ≡ times (ids xs) id + times (ids ys) id
  times-ids [] ys id = omega arith
  times-ids ((i, c) ∷ xs) ys id = ground (arith, times-ids xs ys id)

  -- The HazeConn that HazeServerFree leaves, if any.
  abbrev left : ℕ → Conn S → List (ℕ × Conn S)
  left id c = left_open ((id, c) ∷ [])

  live-close_one :
      (id : ℕ) (c : Conn S) (n : Net S) (h : Heap)
      → conn_blocks c ≤ h.live
      → (close_one id c n h).1.live + conn_blocks c ≡ h.live + all_blocks (left id c)
  unfolding close_one on_close free left_open
  live-close_one id c n h k = ground arith

  conns-close_one :
      (done rest : List (ℕ × Conn S)) (id : ℕ) (c : Conn S) (n : Net S) (h : Heap)
      → n.conns ≡ done ++ (id, c) ∷ rest
      → times (ids done) id ≡ 0
      → (close_one id c n h).0.conns ≡ (done ++ left id c) ++ rest
  unfolding close_one on_close left_open
  conns-close_one done rest id c n h e new = elim (Bool-cases (c.closes == 0)) [
    | inl t ↦
        rw (t, e, put-append done rest id c (record c { sent = [] }) new)
          (sym (append_assoc done ((id, record c { sent = [] }) ∷ []) rest))
    | inr t ↦ rw (t, e, without-append done rest id c new, append-nil done) (refl)
  ]

  left_open-cons :
      (id : ℕ) (c : Conn S) (rest : List (ℕ × Conn S))
      → left_open ((id, c) ∷ rest) ≡ left id c ++ left_open rest
  unfolding left_open
  left_open-cons id c rest = ground arith

  all_blocks-append :
      (xs ys : List (ℕ × Conn S)) → all_blocks (xs ++ ys) ≡ all_blocks xs + all_blocks ys
  all_blocks-append [] ys = omega arith
  all_blocks-append ((i, c) ∷ xs) ys = omega (arith, all_blocks-append xs ys)

  live-close_walk :
      (xs : List (ℕ × Conn S)) (n : Net S) (h : Heap)
      → all_blocks xs ≤ h.live
      → (close_walk xs n h).1.live + all_blocks xs ≡ h.live + all_blocks (left_open xs)
  unfolding close_walk left_open
  live-close_walk [] n h k = refl
  live-close_walk ((id, c) ∷ rest) n h k =
      let r = close_one id c n h in
      let one = live-close_one id c n h (omega (arith, k)) in
      rw (left_open-cons id c rest) (
        omega (
          arith,
          one,
          all_blocks-append (left id c) (left_open rest),
          live-close_walk rest r.0 r.1 (omega (arith, one, k)),
        ))

  times-left :
      (id : ℕ) (c : Conn S) (rest : List (ℕ × Conn S)) (d : ℕ)
      → times (ids (left id c)) d + times (ids rest) d ≤ times (ids ((id, c) ∷ rest)) d
  unfolding left_open
  times-left id c rest d = ground arith

  conns-close_walk :
      (done xs : List (ℕ × Conn S)) (n : Net S) (h : Heap)
      → n.conns ≡ done ++ xs
      → ((d : ℕ) → times (ids (done ++ xs)) d ≤ 1)
      → (close_walk xs n h).0.conns ≡ done ++ left_open xs
  unfolding close_walk left_open
  conns-close_walk done [] n h e apart = e
  conns-close_walk done ((id, c) ∷ rest) n h e apart =
      let r = close_one id c n h in
      rw (left_open-cons id c rest, sym (append_assoc done (left id c) (left_open rest)))
        (conns-close_walk (done ++ left id c) rest r.0 r.1
          (conns-close_one done rest id c n h e new)
          (λ d. omega (
            arith,
            apart d,
            times-left id c rest d,
            times-ids done ((id, c) ∷ rest) d,
            times-ids (done ++ left id c) rest d,
            times-ids done (left id c) d,
          )))
    where
      new : times (ids done) id ≡ 0
      new = ground (arith, apart id, times-ids done ((id, c) ∷ rest) id)

  -- HazeServerFree with connections that are open leaves exactly those, each with its buffer, and the
  -- array of connections if it was ever allocated; all else that the server holds is given back. Its
  -- connections have addresses of their own and its blocks are among the live ones.
  pub server_free_leaves :
      (n : Net S) (h : Heap)
      → IsSound n
      → net_blocks n ≤ h.live
      → ((server_free n h).0 ≡ left_open n.conns)
        × ((server_free n h).1.live + net_blocks n
            ≡ h.live + blocks n.server.conn_cap + all_blocks (left_open n.conns))
  unfolding server_free free left_open
  server_free_leaves n h s k =
      (conns-close_walk [] n.conns n h refl s.apart, omega (arith, k, live-close_walk n.conns n h))
