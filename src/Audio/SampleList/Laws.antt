-- ===== src/Audio/SampleList/Laws.antt =====
-- What importing, deleting and looking up samples by name do to the list and to memory.
use haze.Base.{
  ℕ, suc, ◌+◌, ◌<◌, ◌≡◌, refl, ap, sym, ◌∙◌, subst, Option, none, some, List, [], ◌∷◌, ◌++◌,
  append_assoc, true, false, if◌then◌else◌, length, take, bytes_eq, ◌==◌, arith, Bool-cases, inl,
  inr,
}
use haze.Memory.{Heap, alloc, free}
use haze.Audio.{
  ResultAudio, success, failure, owned, is_ok, Engine, Sample, new_sample, init_from_file,
  name_blocks, base_name,
}
use haze.Audio.SampleList.{
  SampleList, decimal_fuel, numbered, is_named, occurrences, import_by_file, import_new,
  import_loaded, store_named, store_numbered, store, place,
}

-- A number behind the name makes another name.
numbered_other : (name : List ℕ) (n : ℕ) → bytes_eq (numbered name n) name ≡ false
unfolding numbered bytes_eq
numbered_other name n = go name (decimal_fuel n n)
  where
    go : (s d : List ℕ) → bytes_eq (take (length s + 31) (s ++ b' ' ∷ b'#' ∷ d)) s ≡ false
    go [] d = refl
    go (c ∷ s) d = ground (arith, go s d)

module _ {S : Type 0} where
  -- The name under which a file is listed.
  abbrev pub listed_name : List (Sample S) → List ℕ → List ℕ
  listed_name samples name =
      if occurrences samples name == 0 then name else numbered name (occurrences samples name)

  -- `l'` is `l` with one sample more, which has the next index and this name.
  unfoldable pub Imported : SampleList S → SampleList S → List ℕ → Type 0
  Imported l l' name =
      (s : Sample S) × (l'.samples ≡ l.samples ++ s ∷ [])
      × (s.id ≡ length l.samples)
      × (s.sample_name ≡ some (listed_name l.samples name))

  store-place :
      (l : SampleList S) (s : Sample S) (h : Heap)
      → is_ok (store l s h).0.0 ≡ true
      → (store l s h).0.1.samples ≡ l.samples ++ s ∷ []
  unfolding store place is_ok
  store-place l s h e = ground arith

  store_named-Imported :
      (l : SampleList S) (s : Sample S) (name : List ℕ) (h : Heap)
      → s.id ≡ length l.samples
      → s.sample_name ≡ some name
      → is_ok (store_named l s (some name) h).0.0 ≡ true
      → Imported l (store_named l s (some name) h).0.1 name
  unfolding store_named store_numbered Imported is_ok
  store_named-Imported l s name h i n e = elim (Bool-cases (occurrences l.samples name == 0)) [
    | inl z ↦ (s, ground (arith, store-place l s h), i, ground arith)
    | inr z ↦
        let s' = record s { sample_name = some (numbered name (occurrences l.samples name)) } in
        let g = (free (name_blocks s.sample_name) (alloc h).1).1 in
        (s', ground (arith, store-place l s' g), i, ground arith)
  ]

  -- A sample that was loaded keeps its id and is named after the file.
  init_named :
      (eng : Engine S) (s : Sample S) (path : List ℕ) (h : Heap)
      → is_ok (init_from_file eng s path h).0.0 ≡ true
      → ((init_from_file eng s path h).0.0 ≡ success)
        × ((init_from_file eng s path h).0.1.id ≡ s.id)
        × ((init_from_file eng s path h).0.1.sample_name ≡ some (base_name path path))
  unfolding init_from_file is_ok
  init_named eng s [] h e = absurd (ground arith)
  init_named eng s (c ∷ path) h e = (ground arith, ground arith, ground arith)

  import_loaded-Imported :
      (l : SampleList S) (r : ResultAudio) (s : Sample S) (name : List ℕ) (h : Heap)
      → (is_ok r ≡ true → (r ≡ success) × (s.id ≡ length l.samples) × (s.sample_name ≡ some name))
      → is_ok (import_loaded l (r, s) h).0.0 ≡ true
      → Imported l (import_loaded l (r, s) h).0.1 name
  unfolding import_loaded is_ok
  import_loaded-Imported l success s name h k e =
      let (ok, i, n) = k refl in
      subst (λ o. Imported l (store_named l s o h).0.1 name) (sym n)
        (store_named-Imported l s name h i n
          (subst (λ o. is_ok (store_named l s o h).0.0 ≡ true) n e))
  import_loaded-Imported l (failure m) s name h k e = absurd (ground arith)
  import_loaded-Imported l (owned m b) s name h k e = absurd (ground arith)

  import_new-Imported :
      (eng : Engine S) (l : SampleList S) (path : List ℕ) (o : Option (Sample S)) (h : Heap)
      → is_ok (import_new eng l path o h).0.0 ≡ true
      → Imported l (import_new eng l path o h).0.1 (base_name path path)
  unfolding import_new is_ok
  import_new-Imported eng l path none h e = absurd (ground arith)
  import_new-Imported eng l path (some s) h e =
      import_loaded-Imported l _ _ (base_name path path) _
        (init_named eng (record s { id = length l.samples }) path h) e

  -- A successful SampleListImportByFile puts one sample behind the others: its id is the length that
  -- the list had, and its name is the base name of the path, with the number of samples of that
  -- name behind it unless there were none.
  pub import-Imported :
      (eng : Engine S) (l : SampleList S) (path : List ℕ) (h : Heap)
      → is_ok (import_by_file eng l path h).0.0 ≡ true
      → Imported l (import_by_file eng l path h).0.1 (base_name path path)
  unfolding import_by_file
  import-Imported eng l path h e =
      import_new-Imported eng l path (new_sample h).0 (new_sample h).1 e

  occurrences-append :
      (xs : List (Sample S)) (s : Sample S) (name : List ℕ)
      → occurrences (xs ++ s ∷ []) name
        ≡ (if is_named s.sample_name name then suc (occurrences xs name) else occurrences xs name)
  unfolding occurrences
  occurrences-append [] s name = ground arith
  occurrences-append (x ∷ xs) s name = ground (arith, occurrences-append xs s name)

  -- A file whose base name is in the list already is listed under the same name as often as it is
  -- imported: two successful imports in a row give the last two samples one name.
  pub imports_repeat_name :
      (eng : Engine S) (l : SampleList S) (path : List ℕ) (h k : Heap)
      → 0 < occurrences l.samples (base_name path path)
      → is_ok (import_by_file eng l path h).0.0 ≡ true
      → is_ok (import_by_file eng (import_by_file eng l path h).0.1 path k).0.0 ≡ true
      → (s t : Sample S) × ((import_by_file eng
            (import_by_file eng l path h).0.1
            path
            k).0.1.samples
          ≡ l.samples ++ s ∷ t ∷ [])
        × (s.sample_name ≡ t.sample_name)
  unfolding Imported is_named
  imports_repeat_name eng l path h k there e e' =
      let (s, s_in, s_id, s_name) = import-Imported eng l path h e in
      let (t, t_in, t_id, t_name) =
        import-Imported eng (import_by_file eng l path h).0.1 path k e' in
      let name = base_name path path in
      let same : occurrences (import_by_file eng l path h).0.1.samples name
          ≡ occurrences l.samples name =
        ap (λ xs. occurrences xs name) s_in
        ∙ ground (
          arith,
          occurrences-append l.samples s name,
          numbered_other name (occurrences l.samples name),
        ) in
      (
        s,
        t,
        t_in ∙ ap (λ xs. xs ++ t ∷ []) s_in ∙ append_assoc l.samples (s ∷ []) (t ∷ []),
        s_name ∙ sym (t_name ∙ ap (λ n. some (if n == 0 then name else numbered name n)) same),
      )
