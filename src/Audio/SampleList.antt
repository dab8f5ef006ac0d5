-- ===== src/Audio/SampleList.antt =====
-- source/audio/SampleList.c and SampleList.h: the samples of a session.
pub mod Laws
pub mod Ledger
pub mod Delete
pub mod Success
use haze.Base.{
  ℕ, zero, suc, ◌+◌, ◌*◌, ◌/◌, ◌%◌, Option, none, some, List, [], ◌∷◌, ◌++◌, Bool, true, false, ltb,
  if◌then◌else◌, length, take, bytes_eq, ◌==◌,
}
use haze.Memory.{M, pure, ◌>>=◌, ◌>>◌, alloc, realloc, free}
use haze.Audio.{
  ResultAudio, success, failure, is_ok, Reason, invalid_argument, no_sample, no_list_room,
  no_name_room, sample_not_found, Engine, Sample, new_sample, free_sample, init_from_file,
  name_blocks,
}

-- The struct SampleList: `samples[0 .. len)`, none of which is null, and whether the block is there.
pub record SampleList (S : Type 0) : Type 0 where
  pub samples : List (Sample S)
  pub allocated : Bool

-- The decimal digits of a number; `n` itself is fuel enough.
unfoldable pub decimal_fuel : ℕ → ℕ → List ℕ
decimal_fuel zero n = (b'0' + n % 10) ∷ []
decimal_fuel (suc fuel) n =
    let front = decimal_fuel fuel (n / 10) in
    (if ltb n 10 then [] else front) ++ ((b'0' + n % 10) ∷ [])

-- snprintf of "%s #%d" into a block of 32 bytes more than the name.
unfoldable pub numbered : List ℕ → ℕ → List ℕ
unfolding decimal_fuel
numbered name n = take (length name + 31) (name ++ b' ' ∷ b'#' ∷ decimal_fuel n n)

-- `!strcmp(sample_name, name)`; strcmp of a null name is not defined.
unfoldable pub is_named : Option (List ℕ) → List ℕ → Bool
unfolding bytes_eq
is_named none name = false
is_named (some s) name = bytes_eq s name

abbrev pub block : Bool → ℕ
block true = 1
block false = 0

-- realloc of `samples`, whose first call allocates.
enlarge : Bool → M Bool
enlarge true = realloc
enlarge false = alloc

vector_of : Bool × List (Option (List ℕ)) → M (Option (List (Option (List ℕ))))
unfolding free
vector_of (true, names) = pure (some names)
vector_of (false, names) = do free (length names); free 1; pure none

module _ {S : Type 0} where
  abbrev no_samples : SampleList S
  no_samples = record { samples = []; allocated = false }

  -- SampleListNew
  unfoldable pub list_new : M (Option (SampleList S))
  list_new = do ok ← alloc; pure (if ok then some no_samples else none)

  free_all : List (Sample S) → M (Unit {0})
  unfolding free_sample
  free_all [] = pure tt
  free_all (s ∷ rest) = free_sample s >> free_all rest

  -- SampleListFree of a list that is there.
  unfoldable pub list_free : SampleList S → M (Unit {0})
  unfolding free_all free
  list_free l = free_all l.samples >> free (block l.allocated) >> free 1

  -- The samples of this name.
  unfoldable pub occurrences : List (Sample S) → List ℕ → ℕ
  unfolding is_named
  occurrences [] name = 0
  occurrences (s ∷ rest) name =
      let n = occurrences rest name in if is_named s.sample_name name then suc n else n

  place : SampleList S → Sample S → Bool → M (ResultAudio × SampleList S)
  unfolding free_sample
  place l s false = do free_sample s; pure (failure no_list_room, l)
  place l s true = pure (success, record { samples = l.samples ++ s ∷ []; allocated = true })

  store : SampleList S → Sample S → M (ResultAudio × SampleList S)
  unfolding enlarge place
  store l s = do ok ← enlarge l.allocated; place l s ok

  store_numbered : SampleList S → Sample S → List ℕ → Bool → M (ResultAudio × SampleList S)
  unfolding free_sample store numbered free
  store_numbered l s name false = do free_sample s; pure (failure no_name_room, l)
  store_numbered l s name true = do
    free (name_blocks s.sample_name)
    store l (record s { sample_name = some (numbered name (occurrences l.samples name)) })

  -- The sample was loaded and has this name.
  store_named : SampleList S → Sample S → Option (List ℕ) → M (ResultAudio × SampleList S)
  unfolding occurrences store_numbered store
  store_named l s none = store l s
  store_named l s (some name) =
      if occurrences l.samples name == 0
      then store l s
      else (do ok ← alloc; store_numbered l s name ok)

  import_loaded : SampleList S → ResultAudio × Sample S → M (ResultAudio × SampleList S)
  unfolding store_named free_sample
  import_loaded l (success, s) = store_named l s s.sample_name
  import_loaded l (e, s) = do free_sample s; pure (e, l)

  import_new : Engine S → SampleList S → List ℕ → Option (Sample S) → M (ResultAudio × SampleList S)
  unfolding import_loaded init_from_file
  import_new eng l path none = pure (failure no_sample, l)
  import_new eng l path (some s) = do
    r ← init_from_file eng (record s { id = length l.samples }) path
    import_loaded l r

  -- SampleListImportByFile of a list and a path that are there.
  unfoldable pub import_by_file : Engine S → SampleList S → List ℕ → M (ResultAudio × SampleList S)
  unfolding import_new new_sample
  import_by_file eng l path = do s ← new_sample; import_new eng l path s

  -- SampleListLen
  unfoldable pub list_len : Option (SampleList S) → ℕ
  list_len none = 0
  list_len (some l) = length l.samples

  -- The first sample of a name, and the others, in their order, once it is removed.
  unfoldable pub pick : List (Sample S) → List ℕ → Option (Sample S × List (Sample S))
  unfolding is_named
  pick [] name = none
  pick (s ∷ rest) name =
      let behind = pick rest name in
      if is_named s.sample_name name
      then some (s, rest)
      else elim behind [ none ↦ none | some (found, others) ↦ some (found, s ∷ others) ]

  removed : SampleList S → Option (Sample S × List (Sample S)) → M (ResultAudio × SampleList S)
  unfolding free_sample
  removed l none = pure (failure sample_not_found, l)
  removed l (some (s, others)) = do free_sample s; pure (success, record l { samples = others })

  -- SampleListDeleteSampleByName of a list and a name that are there.
  unfoldable pub delete_by_name : SampleList S → List ℕ → M (ResultAudio × SampleList S)
  unfolding pick removed
  delete_by_name l name = removed l (pick l.samples name)

  -- SampleListGetSampleByName of a list and a name that are there.
  unfoldable pub get_by_name : List (Sample S) → List ℕ → Option (Sample S)
  unfolding is_named
  get_by_name [] name = none
  get_by_name (s ∷ rest) name =
      let behind = get_by_name rest name in if is_named s.sample_name name then some s else behind

  -- The names copied by strdup up to the first failure, and whether all were.
  copy_names : List (Sample S) → M (Bool × List (Option (List ℕ)))
  copy_names [] h = ((true, []), h)
  copy_names (s ∷ rest) h =
      let (ok, g) = alloc h in
      let ((all, names), k) = copy_names rest g in
      if ok then ((all, s.sample_name ∷ names), k) else ((false, []), g)

  -- SampleListStr of a list that is there: a null-terminated vector of copies of the names.
  unfoldable pub list_str : SampleList S → M (Option (List (Option (List ℕ))))
  unfolding copy_names vector_of
  list_str l = do ok ← alloc; if ok then (do r ← copy_names l.samples; vector_of r) else pure none
