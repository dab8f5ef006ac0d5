-- ===== src/Server/Net/Broadcast.antt =====
-- HazeServerBroadcast of source/server/HazeServer.c: which connections get the bytes.
use haze.Base.{
  ℕ, zero, suc, ◌≤◌, ◌≡◌, refl, sym, ap, ◌∙◌, Option, none, some, List, [], ◌∷◌, ◌++◌, append_assoc,
  append-nil, replicate, length, take, take-length, ◌<◌, ◌%◌, Bool, true, ◌==◌, ltb, if◌then◌else◌,
  arith, Bool-cases, inl, inr,
}
use haze.Memory.{Heap, IsAmple, alloc, alloc-IsAmple}
use haze.Wire.Encode.{u32_mod}
use haze.Server.{Conn, send, sent_to, copied_to, buf_of}
use haze.Server.Connections.{times, broadcast}
use haze.Server.Net.{Net, find, queue_one, queue_all, net_broadcast}
use haze.Server.Net.Sound.{IsSound}

-- What a broadcast sends to a connection.
abbrev outs_for : ℕ → List (ℕ × List (List ℕ)) → List (List ℕ)
outs_for d [] = []
outs_for d ((id, out) ∷ outs) = (if id == d then out else []) ++ outs_for d outs

module _ {S : Type 0} where
  -- A connection, if any, with more writes under way.
  abbrev pub with_sent : Option (Conn S) → List (List ℕ) → Option (Conn S)
  with_sent none out = none
  with_sent (some c) out = some (record c { sent = c.sent ++ out })

  with_sent-nil : (o : Option (Conn S)) → with_sent o [] ≡ o
  with_sent-nil none = refl
  with_sent-nil (some c) = rw (append-nil c.sent) (refl)

  with_sent-append :
      (o : Option (Conn S)) (a b : List (List ℕ))
      → with_sent (with_sent o a) b ≡ with_sent o (a ++ b)
  with_sent-append none a b = refl
  with_sent-append (some c) a b = rw (append_assoc c.sent a b) (refl)

  find-queue_one :
      (id : ℕ) (out : List (List ℕ)) (xs : List (ℕ × Conn S)) (d : ℕ)
      → find (queue_one id out xs) d ≡ with_sent (find xs d) (if id == d then out else [])
  unfolding find queue_one
  find-queue_one id out [] d = refl
  find-queue_one id out ((i, c) ∷ rest) d =
      grind
        (arith, find-queue_one id out rest d, with_sent-nil (find rest d), with_sent-nil (some c))

  find-queue_all :
      (outs : List (ℕ × List (List ℕ))) (xs : List (ℕ × Conn S)) (d : ℕ)
      → find (queue_all outs xs) d ≡ with_sent (find xs d) (outs_for d outs)
  unfolding queue_all
  find-queue_all [] xs d = sym (with_sent-nil (find xs d))
  find-queue_all ((id, out) ∷ outs) xs d =
      find-queue_all outs (queue_one id out xs) d
      ∙ ap (λ o. with_sent o (outs_for d outs)) (find-queue_one id out xs d)
      ∙ with_sent-append (find xs d) (if id == d then out else []) (outs_for d outs)

-- With ample memory haze_send gives the bytes to uv_write.
send_all :
    (accepts : List ℕ → Bool) (bytes : List ℕ) (h : Heap)
    → accepts bytes ≡ true
    → length bytes < u32_mod
    → IsAmple h
    → ((send accepts bytes h).0 ≡ bytes ∷ []) × IsAmple (send accepts bytes h).1
unfolding send copied_to sent_to
send_all accepts bytes h t short e =
    let e_len : length bytes % u32_mod ≡ length bytes = omega (arith, short) in
    let whole : buf_of bytes ≡ bytes = ap (λ n. take n bytes) e_len ∙ take-length bytes in
    let (one, e') = alloc-IsAmple h e in
    let (two, e'') = alloc-IsAmple (alloc h).1 e' in rw (whole, one, two, t) (refl, e'')

outs_for-broadcast :
    (takes : ℕ → List ℕ → Bool) (to : List ℕ) (bytes : List ℕ) (h : Heap) (d : ℕ)
    → ((id : ℕ) → takes id bytes ≡ true)
    → length bytes < u32_mod
    → IsAmple h
    → outs_for d (broadcast takes to bytes h).0 ≡ replicate (times to d) bytes
unfolding broadcast
outs_for-broadcast takes [] bytes h d all short e = refl
outs_for-broadcast takes (c ∷ rest) bytes h d all short e =
    let (out, e') = send_all (takes c) bytes h (all c) short e in
    let others = outs_for-broadcast takes rest bytes (send (takes c) bytes h).1 d all short e' in
    elim (Bool-cases (c == d)) [
      | inl t ↦ rw (t, out, others) (refl)
      | inr t ↦ rw (t, others) (refl)
    ]

once_or_not :
    (n : ℕ) (bytes : List ℕ) → n ≤ 1 → replicate n bytes ≡ (if ltb 0 n then bytes ∷ [] else [])
once_or_not zero bytes h = refl
once_or_not (suc zero) bytes h = refl
once_or_not (suc (suc n)) bytes h = absurd (omega arith)

-- HazeServerBroadcast starts one write of the bytes on each connection of the list, behind those that
-- are under way there, and leaves every other connection as it is: on a sound server, where no
-- allocation fails and uv_write takes the bytes, which are fewer than 2 ^ 32.
pub broadcast_reaches :
    {S : Type 0} (takes : ℕ → List ℕ → Bool) (bytes : List ℕ) (n : Net S) (h : Heap) (d : ℕ)
    → IsSound n
    → IsAmple h
    → ((id : ℕ) → takes id bytes ≡ true)
    → length bytes < u32_mod
    → find (net_broadcast takes bytes n h).0.conns d
      ≡ with_sent (find n.conns d) (if ltb 0 (times n.server.connections d) then bytes ∷ [] else [])
unfolding net_broadcast
broadcast_reaches takes bytes n h d s e all short =
    let to : List ℕ = n.server.connections in
    find-queue_all (broadcast takes to bytes h).0 n.conns d
    ∙ ap (with_sent (find n.conns d)) (
        outs_for-broadcast takes to bytes h d all short e
        ∙ once_or_not (times to d) bytes (omega (arith, s.apart d, s.alive d)))
