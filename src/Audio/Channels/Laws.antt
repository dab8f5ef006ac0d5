-- ===== src/Audio/Channels/Laws.antt =====
-- What the functions on channels do to the list and to memory.
use haze.Base.{
  ℕ, ◌+◌, ◌≤◌, ◌≡◌, refl, Option, none, some, List, [], ◌∷◌, ◌++◌, Bool, true, false, length, arith,
  Bool-cases, Option-cases, inl, inr,
}
use haze.Memory.{Heap, alloc, realloc, free, live-alloc, live-realloc}
use haze.Audio.{ResultAudio, success, failure, owned, is_ok, name_blocks}
use haze.Audio.Channels.{
  Channel, ChannelList, master, channel_name, channel_new, channel_rename, channel_free,
  channels_new, channels_add, channels_free, add_named, add_new, free_channels, with_master,
  with_block,
}

abbrev pub channel_blocks : List Channel → ℕ
channel_blocks [] = 0
channel_blocks (c ∷ rest) = 1 + name_blocks c.chann_name + channel_blocks rest

channel_blocks-append :
    (xs ys : List Channel) → channel_blocks (xs ++ ys) ≡ channel_blocks xs + channel_blocks ys
channel_blocks-append [] ys = omega arith
channel_blocks-append (x ∷ xs) ys = omega (arith, channel_blocks-append xs ys)

-- The blocks of a channel that may be there.
abbrev held : Option Channel → ℕ
held none = 0
held (some c) = 1 + name_blocks c.chann_name

live-channel_new :
    (opens : Bool) (h : Heap) → (channel_new opens h).1.live ≡ h.live + held (channel_new opens h).0
unfolding channel_new free
live-channel_new false h = ground (arith, live-alloc h)
live-channel_new true h = ground (arith, live-alloc h, live-alloc (alloc h).1)

live-rename :
    (c : Channel) (name : List ℕ) (h : Heap)
    → name_blocks c.chann_name ≤ h.live
    → (channel_rename c name h).1.live + name_blocks c.chann_name
      ≡ h.live + name_blocks (channel_rename c name h).0.1.chann_name
unfolding channel_rename free
live-rename c name h k = ground (arith, live-alloc h)

live-add_named :
    (l : ChannelList) (r : ResultAudio) (c : Channel) (h : Heap)
    → 1 + name_blocks c.chann_name ≤ h.live
    → (add_named l (r, c) h).1.live + channel_blocks l.channels + (1 + name_blocks c.chann_name)
      ≡ h.live + channel_blocks (add_named l (r, c) h).0.1.channels
unfolding add_named channel_free free
live-add_named l success c h k = omega (arith, channel_blocks-append l.channels (c ∷ []))
live-add_named l (failure m) c h k = omega arith
live-add_named l (owned m b) c h k = omega arith

live-add_new :
    (l : ChannelList) (o : Option Channel) (h : Heap)
    → held o ≤ h.live
    → (add_new l o h).1.live + channel_blocks l.channels + held o
      ≡ h.live + channel_blocks (add_new l o h).0.1.channels
unfolding add_new
live-add_new l none h k = omega arith
live-add_new l (some c) h k =
    let name = channel_name (length l.channels + 1) in
    let r = live-rename c name h (omega arith) in
    omega (
      arith,
      r,
      live-add_named l (channel_rename c name h).0.0 (channel_rename c name h).0.1
          (channel_rename c name h).1 (omega (arith, r)),
    )

-- On every branch of ChannelListAdd, whatever the allocator and the engine answer, memory gains the
-- blocks that the list gained.
pub live-channels_add :
    (opens : Bool) (l : ChannelList) (h : Heap)
    → (channels_add opens l h).1.live + channel_blocks l.channels
      ≡ h.live + channel_blocks (channels_add opens l h).0.1.channels
unfolding channels_add
live-channels_add opens l h = elim (Bool-cases (realloc h).0) [
  | inr e ↦ ground (arith, live-realloc h)
  | inl e ↦
      let n = live-channel_new opens (realloc h).1 in
      rw e (
        omega (
          arith,
          n,
          live-realloc h,
          live-add_new l (channel_new opens (realloc h).1).0 (channel_new opens (realloc h).1).1
              (omega (arith, n)),
        ))
]

add_named-last :
    (l : ChannelList) (r : ResultAudio) (c : Channel) (h : Heap)
    → is_ok (add_named l (r, c) h).0.0 ≡ true
    → (r ≡ success) × ((add_named l (r, c) h).0.1.channels ≡ l.channels ++ c ∷ [])
unfolding add_named is_ok
add_named-last l success c h e = (refl, refl)
add_named-last l (failure m) c h e = absurd (ground arith)
add_named-last l (owned m b) c h e = absurd (ground arith)

rename_success :
    (c : Channel) (name : List ℕ) (h : Heap)
    → (channel_rename c name h).0.0 ≡ success
    → (channel_rename c name h).0.1.chann_name ≡ some name
unfolding channel_rename
rename_success c name h e = ground arith

-- The list `l'` is `l` with one channel more, named by its position from 1.
unfoldable pub Added : ChannelList → ChannelList → Type 0
Added l l' =
    (c : Channel) × (l'.channels ≡ l.channels ++ c ∷ [])
    × (c.chann_name ≡ some (channel_name (length l.channels + 1)))

add_new-Added :
    (l : ChannelList) (o : Option Channel) (h : Heap)
    → is_ok (add_new l o h).0.0 ≡ true
    → Added l (add_new l o h).0.1
unfolding add_new Added is_ok
add_new-Added l none h e = absurd (ground arith)
add_new-Added l (some c) h e =
    let name = channel_name (length l.channels + 1) in
    let (ok, last) =
      add_named-last l (channel_rename c name h).0.0 (channel_rename c name h).0.1
        (channel_rename c name h).1 e in
    ((channel_rename c name h).0.1, last, rename_success c name h ok)

-- A ChannelListAdd that succeeds puts one channel behind the others, and names it by its position.
pub channels_add-Added :
    (opens : Bool) (l : ChannelList) (h : Heap)
    → is_ok (channels_add opens l h).0.0 ≡ true
    → Added l (channels_add opens l h).0.1
unfolding channels_add is_ok
channels_add-Added opens l h e = elim (Bool-cases (realloc h).0) [
  | inr f ↦ absurd (ground arith)
  | inl f ↦ ground (
    arith,
    add_new-Added l (channel_new opens (realloc h).1).0 (channel_new opens (realloc h).1).1,
  )
]

-- ChannelListFree of a result of ChannelListNew, if there is one.
abbrev pub give_back : Option ChannelList × Heap → Heap
give_back (none, h) = h
give_back (some l, h) = (channels_free l h).1

abbrev pub list_held : Option ChannelList → ℕ
list_held none = 0
list_held (some l) = 2 + channel_blocks l.channels

live-with_master :
    (o : Option Channel) (h : Heap)
    → held o + 2 ≤ h.live
    → (with_master o h).1.live + held o + 2 ≡ h.live + list_held (with_master o h).0
unfolding with_master free
live-with_master none h k = omega arith
live-with_master (some c) h k = omega (arith, live-rename c master h (omega arith))

pub live-channels_new :
    (opens : Bool) (h : Heap)
    → (channels_new opens h).1.live ≡ h.live + list_held (channels_new opens h).0
unfolding channels_new with_block free
live-channels_new opens h = elim (Bool-cases (alloc h).0) [
  | inr e ↦ ground (arith, live-alloc h)
  | inl e ↦ elim (Bool-cases (alloc (alloc h).1).0) [
    | inr f ↦ ground (arith, live-alloc h, live-alloc (alloc h).1)
    | inl f ↦
        let g = (alloc (alloc h).1).1 in
        let n = live-channel_new opens g in
        let one_block : (alloc h).1.live ≡ h.live + 1 = ground (arith, live-alloc h) in
        let two_blocks : g.live ≡ h.live + 2 = ground (arith, live-alloc (alloc h).1) in
        rw (e, f)
          (omega (
            arith,
            n,
            two_blocks,
            live-with_master (channel_new opens g).0 (channel_new opens g).1
                (omega (arith, n, two_blocks)),
          ))
  ]
]

live-free_channels :
    (xs : List Channel) (h : Heap)
    → channel_blocks xs ≤ h.live
    → (free_channels xs h).1.live + channel_blocks xs ≡ h.live
unfolding free_channels channel_free free
live-free_channels [] h k = omega arith
live-free_channels (c ∷ rest) h k =
    omega (arith, live-free_channels rest (channel_free c h).1 (omega arith))

-- ChannelListFree gives back the blocks of the list, its array and its struct.
pub live-channels_free :
    (l : ChannelList) (h : Heap)
    → 2 + channel_blocks l.channels ≤ h.live
    → (channels_free l h).1.live + (2 + channel_blocks l.channels) ≡ h.live
unfolding channels_free free
live-channels_free l h k = omega (arith, live-free_channels l.channels h (omega arith))

-- Whatever the allocator and the engine answer, ChannelListNew and ChannelListFree of what it
-- returned leave as many blocks as there were.
pub channels_balanced : (opens : Bool) (h : Heap) → (give_back (channels_new opens h)).live ≡ h.live
unfolding channels_free free
channels_balanced opens h = elim (Option-cases (channels_new opens h).0) [
  | inl e ↦ ground (arith, live-channels_new opens h)
  | inr (l, e) ↦
      ground
        (arith, live-channels_new opens h, live-free_channels l.channels (channels_new opens h).1)
]
