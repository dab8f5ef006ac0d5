-- ===== src/Session/Laws.antt =====
-- What sessions hold of memory.
use haze.Base.{
  ℕ, ◌+◌, ◌≤◌, ◌≡◌, refl, Option, none, some, List, [], Bool, true, false, arith, ap, Bool-cases,
  inl, inr,
}
use haze.Memory.{Heap, alloc, free, got, live-alloc}
use haze.Audio.{name_blocks}
use haze.Audio.SampleList.{SampleList, list_new}
use haze.Audio.SampleList.Ledger.{list_blocks, live-list_free}
use haze.Audio.Channels.{ChannelList, channels_new}
use haze.Audio.Channels.Laws.{list_held, live-channels_new, live-channels_free}
use haze.Session.{
  Session, New, made, failed, crashed, session_new, session_free, named_session, given_name,
  chosen_name, with_name, with_samples, with_channels, give_up, free_samples, free_channel_list,
  blank, random_name,
}

abbrev sample_blocks : {S : Type 0} → Option (SampleList S) → ℕ
sample_blocks none = 0
sample_blocks (some l) = list_blocks l + 1

-- The blocks of a session: its struct, its names and its lists.
abbrev pub session_blocks : {S : Type 0} → Session S → ℕ
session_blocks s =
    1
    + name_blocks s.session_name
    + name_blocks s.project_path
    + sample_blocks s.samples
    + list_held s.channels

-- The blocks of what SessionNew returned; where it crashes the struct is there.
abbrev pub new_blocks : {S : Type 0} → New S → ℕ
new_blocks (made s) = session_blocks s
new_blocks failed = 0
new_blocks crashed = 1

module _ {S : Type 0} where
  live-free_samples :
      (o : Option (SampleList S)) (h : Heap)
      → sample_blocks o ≤ h.live
      → (free_samples o h).1.live + sample_blocks o ≡ h.live
  unfolding free_samples
  live-free_samples none h k = omega arith
  live-free_samples (some l) h k = omega (arith, live-list_free l h (omega arith))

live-free_channel_list :
    (o : Option ChannelList) (h : Heap)
    → list_held o ≤ h.live
    → (free_channel_list o h).1.live + list_held o ≡ h.live
unfolding free_channel_list
live-free_channel_list none h k = omega arith
live-free_channel_list (some l) h k = omega (arith, live-channels_free l h (omega arith))

module _ {S : Type 0} where
  pub live-session_free :
      (s : Session S) (h : Heap)
      → session_blocks s ≤ h.live
      → (session_free s h).1.live + session_blocks s ≡ h.live
  unfolding session_free free
  live-session_free s h k =
      let g : Heap =
        (free (name_blocks s.project_path) (free (name_blocks s.session_name) h).1).1 in
      let f = live-free_samples s.samples g (omega arith) in
      omega (
        arith,
        f,
        live-free_channel_list s.channels (free_samples s.samples g).1 (omega (arith, f)),
      )

  live-with_channels :
      (s : Session S) (o : Option ChannelList) (h : Heap)
      → s.channels ≡ none
      → session_blocks s + list_held o ≤ h.live
      → (with_channels s o h).1.live + session_blocks s + list_held o
        ≡ h.live + new_blocks (with_channels s o h).0
  unfolding with_channels give_up
  live-with_channels s none h e k = omega (arith, live-session_free s h (omega arith))
  live-with_channels s (some c) h e k = rw e (omega arith)

  live-with_samples :
      (opens : Bool) (s : Session S) (o : Option (SampleList S)) (h : Heap)
      → s.channels ≡ none
      → s.samples ≡ none
      → session_blocks s + sample_blocks o ≤ h.live
      → (with_samples opens s o h).1.live + session_blocks s + sample_blocks o
        ≡ h.live + new_blocks (with_samples opens s o h).0
  unfolding with_samples give_up
  live-with_samples opens s none h e f k = omega (arith, live-session_free s h (omega arith))
  live-with_samples opens s (some l) h e f k =
      let s' = record s { samples = some l } in
      let c = live-channels_new opens h in
      let w =
        live-with_channels s' (channels_new opens h).0 (channels_new opens h).1 e (ground arith) in
      ground arith

  live-with_name :
      (opens : Bool) (s : Session S) (h : Heap)
      → s.channels ≡ none
      → s.samples ≡ none
      → session_blocks s ≤ h.live
      → (with_name opens s h).1.live + session_blocks s
        ≡ h.live + new_blocks (with_name opens s h).0
  unfolding with_name list_new
  live-with_name opens s h e f k = elim (Bool-cases (alloc h).0) [
    | inr n ↦ rw n (
        omega (
          arith,
          live-alloc h,
          live-with_samples opens s none (alloc h).1 e f (ground (arith, live-alloc h)),
          ap got n,
        ))
    | inl n ↦
        let l : SampleList S = record { samples = []; allocated = false } in
        let one_more : (alloc h).1.live ≡ h.live + 1 = ground (arith, live-alloc h) in
        rw n (
          omega (
            arith,
            one_more,
            live-with_samples opens s (some l) (alloc h).1 e f (omega (arith, one_more)),
          ))
  ]

module _ (S : Type 0) where
  live-named_session :
      (opens : Bool) (now i j : ℕ) (name : Option (List ℕ)) (h : Heap)
      → 1 ≤ h.live
      → (named_session {S = S} opens now i j name h).1.live + 1
        ≡ h.live + new_blocks (named_session {S = S} opens now i j name h).0
  unfolding named_session given_name chosen_name give_up
  live-named_session opens now i j (some name) h k = elim (Bool-cases (alloc h).0) [
    | inr n ↦ rw n (ground (arith, live-alloc h, live-session_free (blank {S = S} now) (alloc h).1))
    | inl n ↦
        let one_more : (alloc h).1.live ≡ h.live + 1 = ground (arith, live-alloc h) in
        rw n (
          omega (
            arith,
            one_more,
            live-with_name opens (record (blank {S = S} now) { session_name = some name })
                (alloc h).1 refl refl (omega (arith, one_more)),
          ))
  ]
  live-named_session opens now i j none h k = elim (Bool-cases (alloc h).0) [
    | inr n ↦ rw n (ground (arith, live-alloc h))
    | inl n ↦
        let one_more : (alloc h).1.live ≡ h.live + 1 = ground (arith, live-alloc h) in
        rw n (
          omega (
            arith,
            one_more,
            live-with_name opens
                (record (blank {S = S} now) { session_name = some (random_name i j) }) (alloc h).1
                refl refl (omega (arith, one_more)),
          ))
  ]

  -- Whatever the allocator and the engine answer, SessionNew leaves as many blocks more as its result
  -- has.
  pub live-session_new :
      (opens : Bool) (now i j : ℕ) (name : Option (List ℕ)) (h : Heap)
      → (session_new {S = S} opens now i j name h).1.live
        ≡ h.live + new_blocks (session_new {S = S} opens now i j name h).0
  unfolding session_new
  live-session_new opens now i j name h = elim (Bool-cases (alloc h).0) [
    | inr n ↦ ground (arith, live-alloc h)
    | inl n ↦
        let one_more : (alloc h).1.live ≡ h.live + 1 = ground (arith, live-alloc h) in
        rw n (
          omega (
            arith,
            one_more,
            live-named_session opens now i j name (alloc h).1 (omega (arith, one_more)),
          ))
  ]

-- The program did not use the null pointer.
abbrev IsDefined : {S : Type 0} → New S → Type 0
IsDefined (made s) = Unit
IsDefined failed = Unit
IsDefined crashed = ⊥

-- SessionFree of a result of SessionNew, if there is one.
abbrev pub close : {S : Type 0} → New S × Heap → Heap
close (made s, h) = (session_free s h).1
close (failed, h) = h
close (crashed, h) = h

module _ {S : Type 0} where
  live-close :
      (r : New S) (h : Heap)
      → IsDefined r
      → new_blocks r ≤ h.live
      → (close (r, h)).live + new_blocks r ≡ h.live
  live-close (made s) h d k = live-session_free s h k
  live-close failed h d k = omega arith
  live-close crashed h d k = absurd d

  with_channels-IsDefined :
      (s : Session S) (o : Option ChannelList) (h : Heap) → IsDefined (with_channels s o h).0
  unfolding with_channels give_up
  with_channels-IsDefined s none h = tt
  with_channels-IsDefined s (some c) h = tt

  with_samples-IsDefined :
      (opens : Bool) (s : Session S) (o : Option (SampleList S)) (h : Heap)
      → IsDefined (with_samples opens s o h).0
  unfolding with_samples give_up
  with_samples-IsDefined opens s none h = tt
  with_samples-IsDefined opens s (some l) h =
      with_channels-IsDefined (record s { samples = some l }) (channels_new opens h).0
        (channels_new opens h).1

  with_name-IsDefined :
      (opens : Bool) (s : Session S) (h : Heap) → IsDefined (with_name opens s h).0
  unfolding with_name
  with_name-IsDefined opens s h =
      with_samples-IsDefined opens s (list_new {S = S} h).0 (list_new {S = S} h).1

module _ (S : Type 0) where
  given_name-IsDefined :
      (opens : Bool) (now : ℕ) (name : List ℕ) (b : Bool) (h : Heap)
      → IsDefined (given_name {S = S} opens now name b h).0
  unfolding given_name give_up
  given_name-IsDefined opens now name false h = tt
  given_name-IsDefined opens now name true h =
      with_name-IsDefined opens (record (blank {S = S} now) { session_name = some name }) h

  session_new-IsDefined :
      (opens : Bool) (now i j : ℕ) (name : List ℕ) (h : Heap)
      → IsDefined (session_new {S = S} opens now i j (some name) h).0
  unfolding session_new named_session
  session_new-IsDefined opens now i j name h = elim (Bool-cases (alloc h).0) [
    | inr n ↦ rw n tt
    | inl n ↦ rw n (given_name-IsDefined opens now name (alloc (alloc h).1).0 (alloc (alloc h).1).1)
  ]

  -- Whatever the allocator and the engine answer, SessionNew with a name and SessionFree of what it
  -- returned leave as many blocks as there were.
  pub sessions_balanced :
      (opens : Bool) (now i j : ℕ) (name : List ℕ) (h : Heap)
      → (close (session_new {S = S} opens now i j (some name) h)).live ≡ h.live
  sessions_balanced opens now i j name h =
      let d = session_new-IsDefined opens now i j name h in
      let n = live-session_new S opens now i j (some name) h in
      omega (
        arith,
        n,
        live-close (session_new {S = S} opens now i j (some name) h).0
            (session_new {S = S} opens now i j (some name) h).1 d (omega (arith, n)),
      )
