-- ===== src/Audio/SampleList/Success.antt =====
-- When SampleListImportByFile of audio/SampleList.c succeeds.
use haze.Base.{ℕ, ◌≡◌, refl, some, List, ◌∷◌, true, length, none, Bool-cases, inl, inr, ◌==◌}
use haze.Memory.{Heap, IsAmple, alloc, alloc-IsAmple, realloc-IsAmple, free, free-IsAmple}
use haze.Audio.{
  success, Engine, Sample, new_sample, init_from_file, name_blocks, base_name, fresh_sample, one,
}
use haze.Audio.SampleList.{
  SampleList, import_by_file, import_new, import_loaded, store_named, store_numbered, store, place,
  enlarge, occurrences, numbered,
}

module _ {S : Type 0} where
  store_ok : (l : SampleList S) (s : Sample S) (h : Heap) → IsAmple h → (store l s h).0.0 ≡ success
  unfolding store enlarge place
  store_ok l s h e = elim (Bool-cases l.allocated) [
    | inl a ↦ rw (a, (realloc-IsAmple h e).0) refl
    | inr a ↦ rw (a, (alloc-IsAmple h e).0) refl
  ]

  store_named_ok :
      (l : SampleList S) (s : Sample S) (name : List ℕ) (h : Heap)
      → IsAmple h
      → (store_named l s (some name) h).0.0 ≡ success
  unfolding store_named store_numbered
  store_named_ok l s name h e = elim (Bool-cases (occurrences l.samples name == 0)) [
    | inl first ↦ rw first (store_ok l s h e)
    | inr again ↦
        let (room, ample) = alloc-IsAmple h e in
        rw (again, room)
          (store_ok l (record s { sample_name = some (numbered name (occurrences l.samples name)) })
            (free (name_blocks s.sample_name) (alloc h).1).1
            (free-IsAmple (name_blocks s.sample_name) (alloc h).1 ample))
  ]

  -- With ample memory the import of a file that can be read and loaded succeeds.
  pub import_ok :
      (eng : Engine S) (l : SampleList S) (c : ℕ) (path : List ℕ) (sound : S) (h : Heap)
      → IsAmple h
      → eng.readable (c ∷ path) ≡ true
      → eng.load (c ∷ path) ≡ some sound
      → (import_by_file eng l (c ∷ path) h).0.0 ≡ success
  unfolding import_by_file import_new import_loaded new_sample init_from_file free
  import_ok eng l c path sound h e there sounds =
      let (made, e1) = alloc-IsAmple h e in
      let (named, e2) = alloc-IsAmple (alloc h).1 e1 in
      let (renames, e3) =
        alloc-IsAmple (free 1 (alloc (alloc h).1).1).1 (free-IsAmple 1 (alloc (alloc h).1).1 e2) in
      let s : Sample S = record fresh_sample {
        id = length l.samples;
        handle = some sound;
        buf = none;
        duration = eng.duration sound;
        sample_rate = eng.rate;
        volume = one;
        pitch = one;
        sample_name = some (base_name (c ∷ path) (c ∷ path));
      } in
      rw (made, named, there, sounds, renames)
        (store_named_ok l s (base_name (c ∷ path) (c ∷ path))
          (alloc (free 1 (alloc (alloc h).1).1).1).1 e3)
