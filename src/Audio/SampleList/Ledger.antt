-- ===== src/Audio/SampleList/Ledger.antt =====
-- What the functions of source/audio/SampleList.c do to the allocator's blocks.
use haze.Base.{
  ℕ, ◌+◌, ◌≤◌, ◌≡◌, refl, Option, none, some, List, [], ◌∷◌, ◌++◌, Bool, true, false, if◌then◌else◌,
  length, ◌==◌, arith, Bool-cases, Option-cases, inl, inr,
}
use haze.Memory.{Heap, alloc, free, got, live-alloc, live-realloc}
use haze.Audio.{
  ResultAudio, success, failure, owned, message_blocks, err_format, Engine, Sample, new_sample,
  with_name, free_sample, init_from_file, loaded, name_blocks, held_blocks,
}
use haze.Audio.SampleList.{
  SampleList, block, enlarge, numbered, occurrences, import_by_file, import_new, import_loaded,
  store_named, store_numbered, store, place, copy_names, vector_of, list_str, list_free, free_all,
}

live-enlarge :
    (b : Bool) (h : Heap)
    → (enlarge b h).1.live + block b ≡ h.live + block (if (enlarge b h).0 then true else b)
unfolding enlarge
live-enlarge true h = ground (arith, live-realloc h)
live-enlarge false h = ground (arith, live-alloc h)

abbrev own : {S : Type 0} → Option (Sample S) → ℕ
own none = 0
own (some s) = held_blocks s

live-new_sample :
    (S : Type 0) (h : Heap) → (new_sample {S = S} h).1.live ≡ h.live + own (new_sample {S = S} h).0
unfolding new_sample free
live-new_sample S h = ground (arith, live-alloc h, live-alloc (alloc h).1)

-- A sample without a buffer, if any.
abbrev IsBare : {S : Type 0} → Option (Sample S) → Type 0
IsBare none = Unit
IsBare (some s) = s.buf ≡ none

new_sample-IsBare : (S : Type 0) (h : Heap) → IsBare (new_sample {S = S} h).0
unfolding new_sample with_name
new_sample-IsBare S h = elim (Bool-cases (alloc h).0) [
  | inr e ↦ rw e tt
  | inl e ↦ rw e (with_name-IsBare (alloc (alloc h).1).0 (alloc (alloc h).1).1)
]
  where
    with_name-IsBare : (b : Bool) (g : Heap) → IsBare (with_name {S = S} b g).0
    with_name-IsBare true g = refl
    with_name-IsBare false g = tt

-- The blocks of a vector of names.
abbrev pub vector_blocks : Option (List (Option (List ℕ))) → ℕ
vector_blocks none = 0
vector_blocks (some names) = 1 + length names

module _ {S : Type 0} where
  abbrev pub blocks_of : List (Sample S) → ℕ
  blocks_of [] = 0
  blocks_of (s ∷ rest) = held_blocks s + blocks_of rest

  -- The blocks of a list without its struct.
  abbrev pub list_blocks : SampleList S → ℕ
  list_blocks l = blocks_of l.samples + block l.allocated

  blocks_of-append : (xs ys : List (Sample S)) → blocks_of (xs ++ ys) ≡ blocks_of xs + blocks_of ys
  blocks_of-append [] ys = omega arith
  blocks_of-append (x ∷ xs) ys = ground (arith, blocks_of-append xs ys)

  -- The blocks of the result less those of the list are what memory has gained since the sample
  -- took `held_blocks`.
  live-store :
      (l : SampleList S) (s : Sample S) (h : Heap)
      → held_blocks s ≤ h.live
      → (store l s h).1.live + list_blocks l + held_blocks s
        ≡ h.live + list_blocks (store l s h).0.1 + message_blocks (store l s h).0.0
  unfolding store place free_sample free
  live-store l s h k =
      ground (arith, live-enlarge l.allocated h, blocks_of-append l.samples (s ∷ []))

  live-store_numbered :
      (l : SampleList S) (s : Sample S) (name : List ℕ) (b : Bool) (h : Heap)
      → held_blocks s + got b ≤ h.live
      → (store_numbered l s name b h).1.live + list_blocks l + (held_blocks s + got b)
        ≡ h.live
          + list_blocks (store_numbered l s name b h).0.1
          + message_blocks (store_numbered l s name b h).0.0
  unfolding store_numbered free_sample free
  live-store_numbered l s name false h k = omega arith
  live-store_numbered l s name true h k =
      let s' = record s { sample_name = some (numbered name (occurrences l.samples name)) } in
      omega (arith, live-store l s' (free (name_blocks s.sample_name) h).1 (omega arith))

  live-store_named :
      (l : SampleList S) (s : Sample S) (o : Option (List ℕ)) (h : Heap)
      → held_blocks s ≤ h.live
      → (store_named l s o h).1.live + list_blocks l + held_blocks s
        ≡ h.live + list_blocks (store_named l s o h).0.1 + message_blocks (store_named l s o h).0.0
  unfolding store_named
  live-store_named l s none h k = live-store l s h k
  live-store_named l s (some name) h k = elim (Bool-cases (occurrences l.samples name == 0)) [
    | inl z ↦ ground (arith, live-store l s h)
    | inr z ↦ rw z (
        omega (
          arith,
          live-store_numbered l s name (alloc h).0 (alloc h).1 (omega (arith, live-alloc h)),
          live-alloc h,
        ))
  ]

  live-init :
      (eng : Engine S) (s : Sample S) (path : List ℕ) (h : Heap)
      → held_blocks s ≤ h.live
      → s.buf ≡ none
      → (init_from_file eng s path h).1.live + held_blocks s
        ≡ h.live
          + held_blocks (init_from_file eng s path h).0.1
          + message_blocks (init_from_file eng s path h).0.0
  unfolding init_from_file loaded err_format free
  live-init eng s [] h k e = omega arith
  live-init eng s (c ∷ path) h k e = elim (Bool-cases (eng.readable (c ∷ path))) [
    | inr r ↦ ground (arith, live-alloc h)
    | inl r ↦ elim (Option-cases (eng.load (c ∷ path))) [
      | inl o ↦ ground (arith, live-alloc h)
      | inr (sound, o) ↦ ground (arith, live-alloc (free (name_blocks s.sample_name) h).1)
    ]
  ]

  live-import_loaded :
      (l : SampleList S) (r : ResultAudio) (s : Sample S) (h : Heap)
      → held_blocks s ≤ h.live
      → (import_loaded l (r, s) h).1.live + list_blocks l + held_blocks s + message_blocks r
        ≡ h.live
          + list_blocks (import_loaded l (r, s) h).0.1
          + message_blocks (import_loaded l (r, s) h).0.0
  unfolding import_loaded free_sample free
  live-import_loaded l success s h k = ground (arith, live-store_named l s s.sample_name h)
  live-import_loaded l (failure m) s h k = omega arith
  live-import_loaded l (owned m b) s h k = omega arith

  live-import_new :
      (eng : Engine S) (l : SampleList S) (path : List ℕ) (o : Option (Sample S)) (h : Heap)
      → own o ≤ h.live
      → IsBare o
      → (import_new eng l path o h).1.live + list_blocks l + own o
        ≡ h.live
          + list_blocks (import_new eng l path o h).0.1
          + message_blocks (import_new eng l path o h).0.0
  unfolding import_new
  live-import_new eng l path none h k bare = omega arith
  live-import_new eng l path (some s) h k bare =
      let s' = record s { id = length l.samples } in
      let i = live-init eng s' path h (omega arith) bare in
      omega (
        arith,
        i,
        live-import_loaded l (init_from_file eng s' path h).0.0 (init_from_file eng s' path h).0.1
            (init_from_file eng s' path h).1 (omega (arith, i)),
      )

  -- On every branch of SampleListImportByFile, whatever the allocator, the file system and the engine
  -- answer, memory gains the blocks that the list gained and those of the message.
  pub live-import :
      (eng : Engine S) (l : SampleList S) (path : List ℕ) (h : Heap)
      → (import_by_file eng l path h).1.live + list_blocks l
        ≡ h.live
          + list_blocks (import_by_file eng l path h).0.1
          + message_blocks (import_by_file eng l path h).0.0
  unfolding import_by_file
  live-import eng l path h = omega (
    arith,
    live-new_sample S h,
    live-import_new eng l path (new_sample {S = S} h).0 (new_sample {S = S} h).1
        (omega (arith, live-new_sample S h)) (new_sample-IsBare S h),
  )

  live-copy_names :
      (xs : List (Sample S)) (h : Heap)
      → (copy_names xs h).1.live ≡ h.live + length (copy_names xs h).0.1
  unfolding copy_names
  live-copy_names [] h = omega arith
  live-copy_names (x ∷ xs) h = elim (Bool-cases (alloc h).0) [
    | inl e ↦ ground (arith, live-alloc h, live-copy_names xs (alloc h).1)
    | inr e ↦ ground (arith, live-alloc h)
  ]

  -- Whatever the allocator answers, SampleListStr leaves as many blocks more as its result has.
  pub live-list_str :
      (l : SampleList S) (h : Heap)
      → (list_str l h).1.live ≡ h.live + vector_blocks (list_str l h).0
  unfolding list_str vector_of free
  live-list_str l h = elim (Bool-cases (copy_names l.samples (alloc h).1).0.0) [
    | inl e ↦ ground (arith, live-alloc h, live-copy_names l.samples (alloc h).1)
    | inr e ↦ ground (arith, live-alloc h, live-copy_names l.samples (alloc h).1)
  ]

  live-free_all :
      (xs : List (Sample S)) (h : Heap)
      → blocks_of xs ≤ h.live
      → (free_all xs h).1.live + blocks_of xs ≡ h.live
  unfolding free_all free_sample free
  live-free_all [] h k = omega arith
  live-free_all (s ∷ rest) h k = omega (arith, live-free_all rest (free_sample s h).1 (omega arith))

  -- SampleListFree gives back the blocks of the list and its struct.
  pub live-list_free :
      (l : SampleList S) (h : Heap)
      → list_blocks l + 1 ≤ h.live
      → (list_free l h).1.live + list_blocks l + 1 ≡ h.live
  unfolding list_free free
  live-list_free l h k = omega (arith, live-free_all l.samples h (omega arith))
