-- ===== src/Audio/SampleList/Delete.antt =====
-- SampleListDeleteSampleByName: what it takes out of the list, and what it gives back.
use haze.Base.{
  ℕ, suc, ◌+◌, ◌≤◌, ◌≡◌, refl, none, some, List, [], ◌∷◌, ◌++◌, true, arith, Bool-cases,
  Option-cases, inl, inr,
}
use mathlib.Core.Option
use haze.Memory.{IsAmple, Heap, free}
use haze.Audio.{success, Sample, free_sample, held_blocks}
use haze.Audio.SampleList.{
  SampleList, is_named, occurrences, pick, removed, delete_by_name, get_by_name,
}
use haze.Audio.SampleList.Ledger.{blocks_of, list_blocks}

module _ {S : Type 0} where
  -- SampleListGetSampleByName and SampleListDeleteSampleByName choose the same sample.
  pick-get :
      (xs : List (Sample S)) (name : List ℕ)
      → get_by_name xs name ≡ Option.map (λ p. p.0) (pick xs name)
  unfolding pick get_by_name
  pick-get [] name = refl
  pick-get (x ∷ xs) name = ground (arith, pick-get xs name)

  -- What `pick` takes out of a list.
  pick_lem :
      (xs : List (Sample S)) (name : List ℕ) (s : Sample S) (others : List (Sample S))
      → pick xs name ≡ some (s, others)
      → (before : List (Sample S)) × (after : List (Sample S)) × (xs ≡ before ++ s ∷ after)
        × (others ≡ before ++ after)
        × (occurrences before name ≡ 0)
        × (is_named s.sample_name name ≡ true)
  unfolding pick occurrences
  pick_lem [] name s others e = absurd (ground arith)
  pick_lem (x ∷ xs) name s others e = elim (Bool-cases (is_named x.sample_name name)) [
    | inl m ↦ ([], xs, ground arith, ground arith, refl, ground arith)
    | inr m ↦ elim (Option-cases (pick xs name)) [
      | inl n ↦ absurd (ground arith)
      | inr ((t, rest), n) ↦
          let (before, after, whole, left, none_before, named) = pick_lem xs name t rest n in
          (x ∷ before, after, ground arith, ground arith, ground arith, ground arith)
    ]
  ]

  -- Deleting by a name that SampleListGetSampleByName finds takes out the sample that it finds, the
  -- first of that name; the others keep their order.
  pub delete_finds :
      (l : SampleList S) (name : List ℕ) (s : Sample S) (h : Heap)
      → get_by_name l.samples name ≡ some s
      → (before : List (Sample S)) × (after : List (Sample S)) × (l.samples ≡ before ++ s ∷ after)
        × ((delete_by_name l name h).0 ≡ (success, record l { samples = before ++ after }))
        × (occurrences before name ≡ 0)
        × (is_named s.sample_name name ≡ true)
  unfolding delete_by_name removed
  delete_finds l name s h e = elim (Option-cases (pick l.samples name)) [
    | inl n ↦ absurd (ground (arith, pick-get l.samples name))
    | inr ((t, others), n) ↦
        let (before, after, whole, left, none_before, named) = pick_lem l.samples name t others n in
        let same : t ≡ s = ground (arith, pick-get l.samples name) in
        (before, after, ground arith, ground arith, none_before, ground arith)
  ]

  occurrences-get :
      (xs : List (Sample S)) (name : List ℕ) → occurrences xs name ≡ 0 → get_by_name xs name ≡ none
  unfolding occurrences get_by_name
  occurrences-get [] name e = refl
  occurrences-get (x ∷ xs) name e = ground (arith, occurrences-get xs name)

  pick-occurrences :
      (xs : List (Sample S)) (name : List ℕ) (s : Sample S) (others : List (Sample S))
      → pick xs name ≡ some (s, others)
      → occurrences xs name ≡ suc (occurrences others name)
  unfolding pick occurrences
  pick-occurrences [] name s others e = absurd (ground arith)
  pick-occurrences (x ∷ xs) name s others e = elim (Option-cases (pick xs name)) [
    | inl n ↦ ground arith
    | inr ((t, rest), n) ↦ ground (arith, pick-occurrences xs name t rest)
  ]

  blocks_of-pick :
      (xs : List (Sample S)) (name : List ℕ) (s : Sample S) (others : List (Sample S))
      → pick xs name ≡ some (s, others)
      → blocks_of xs ≡ held_blocks s + blocks_of others
  unfolding pick
  blocks_of-pick [] name s others e = absurd (ground arith)
  blocks_of-pick (x ∷ xs) name s others e = elim (Option-cases (pick xs name)) [
    | inl n ↦ ground arith
    | inr ((t, rest), n) ↦ ground (arith, blocks_of-pick xs name t rest)
  ]

  -- On both branches of SampleListDeleteSampleByName memory loses the blocks that the list loses, if
  -- the list's blocks are live.
  pub live-delete :
      (l : SampleList S) (name : List ℕ) (h : Heap)
      → blocks_of l.samples ≤ h.live
      → (delete_by_name l name h).1.live + list_blocks l
        ≡ h.live + list_blocks (delete_by_name l name h).0.1
  unfolding delete_by_name removed free_sample free
  live-delete l name h k = elim (Option-cases (pick l.samples name)) [
    | inl n ↦ ground arith
    | inr ((t, others), n) ↦ ground (arith, blocks_of-pick l.samples name t others)
  ]

  -- Deletion keeps memory ample.
  pub delete-IsAmple :
      (l : SampleList S) (name : List ℕ) (h : Heap)
      → IsAmple h
      → IsAmple (delete_by_name l name h).1
  unfolding delete_by_name removed free_sample free
  delete-IsAmple l name h e = elim (Option-cases (pick l.samples name)) [
    | inl n ↦ rw n e
    | inr ((x, others), n) ↦ rw n e
  ]
