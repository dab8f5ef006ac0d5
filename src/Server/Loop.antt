-- ===== src/Server/Loop.antt =====
-- haze_on_read's loop over the messages in a connection's buffer ends.
use haze.Base.{
  ℕ, zero, suc, ◌-◌, ◌≤◌, ◌≡◌, ◌≢◌, some, List, [], ◌∷◌, Bool, ◌==◌, ◌||◌, ltb, length, drop, arith,
  Bool-cases, inl, inr,
}
use haze.Memory.{Heap, M}
use haze.Wire.Mpack.{Writer, Reader}
use haze.Api.{World}
use haze.Server
use haze.Server.{
  Served, served, unusable, Stop, drained, closed, no_fuel, Conn, consume, after_dispatch, drain,
  respond, server_dispatch,
}

length-drop : (n : ℕ) (xs : List ℕ) → length (drop n xs) ≡ length xs - n
length-drop zero xs = omega arith
length-drop (suc n) [] = omega arith
length-drop (suc n) (x ∷ xs) = omega (arith, length-drop n xs)

module _ {S : Type 0} where
  -- From a buffer of at most this length the rest of the loop ends.
  abbrev Ends : (Conn S → M (Stop × Conn S)) → ℕ → Type 0
  Ends go k = (c : Conn S) (h : Heap) → length c.buffer ≤ k → (go c h).0.0 ≢ no_fuel

  consume-Ends :
      (n k : ℕ) (go : Conn S → M (Stop × Conn S)) → Ends go k → Ends (consume n go) (suc k)
  unfolding consume
  consume-Ends n k go ends c h b = elim (Bool-cases (n == 0 || ltb (length c.buffer) n)) [
    | inl e ↦ rw e (cc)
    | inr e ↦
        rw e
          (ends (record c { buffer = drop n c.buffer }) h (ground (arith, length-drop n c.buffer)))
  ]

  after_dispatch-Ends :
      (accepts : List ℕ → Bool) (k : ℕ) (go : Conn S → M (Stop × Conn S)) (d : Served S)
      → Ends go k
      → Ends (λ c. after_dispatch accepts go c d) (suc k)
  unfolding after_dispatch
  after_dispatch-Ends accepts k go (served bytes n job s) ends c h b =
      consume-Ends n k go ends _ _ b
  after_dispatch-Ends accepts k go unusable ends c h b = cc
  after_dispatch-Ends accepts k go Server.crashed ends c h b = cc
  after_dispatch-Ends accepts k go Server.endless ends c h b = cc

module _ {W R S : Type 0} (wr : Writer W) (rd : Reader R) (w : World S)
    (accepts : List ℕ → Bool) where
  -- Fuel of the buffer's length is enough for the loop, whatever the messages, the allocator and the
  -- network answer: it ends with an empty buffer, by closing the connection, in undefined behaviour,
  -- or in the loop of RequestParamAppend that goes on as long as allocation fails.
  pub drain_ends :
      (fuel : ℕ) (c : Conn S) (h : Heap)
      → length c.buffer ≤ fuel
      → (drain wr rd w accepts fuel c h).0.0 ≢ no_fuel
  unfolding drain
  drain_ends zero c h b = elim (Bool-cases (length c.buffer == 0)) [
    | inl e ↦ rw e (cc)
    | inr e ↦ absurd (ground arith)
  ]
  drain_ends (suc fuel) c h b = elim (Bool-cases (length c.buffer == 0)) [
    | inl e ↦ rw e (cc)
    | inr e ↦
        let d =
          server_dispatch wr rd w c.session
            (record { bytes = some c.buffer; len = length c.buffer }) h in
        rw e (
          after_dispatch-Ends accepts fuel (drain wr rd w accepts fuel) d.0 (drain_ends fuel) c d.1
            b)
  ]
