-- ===== src/Tests/Samples.antt =====
-- Tests of the sample list.
use haze.Base.{ℕ, ◌+◌, ◌≡◌, ◌<◌, refl, arith, List, [], ◌∷◌, ◌++◌, some, none, length, true, false}
use haze.Memory.{Heap, planned, alloc, realloc}
use haze.Audio.{
  Engine, Sample, success, is_ok, message_blocks, base_name, fresh_sample, held_blocks, one,
}
use haze.Audio.SampleList.{
  SampleList, is_named, occurrences, get_by_name, import_by_file, delete_by_name,
}
use haze.Audio.Control.{Decoders, sample_init, clamped}
use haze.Audio.Control.Laws.{rank, sample_init_all_or_nothing, clamped_lem}
use haze.Audio.SampleList.Ledger.{list_blocks, live-import}
use haze.Audio.SampleList.Delete.{delete_finds}
use haze.Tests.{ample, text}

-- An engine whose sounds are numbers and that loads every file.
abbrev pub engine : Engine ℕ
engine = record {
  readable = λ path. true;
  load = λ path. some 5;
  duration = λ s. s;
  rate = 48000;
  starts = λ s. true;
}

abbrev path : List ℕ
path = b'a' ∷ b'/' ∷ text

abbrev pub kick_sample : Sample ℕ
kick_sample = record fresh_sample { handle = some 5; sample_name = some text }

abbrev pub samples : SampleList ℕ
samples = record { samples = kick_sample ∷ []; allocated = true }

abbrev scarce : Heap
scarce = record { plan = planned (true ∷ true ∷ true ∷ false ∷ []); live = 10 }

kick_imported : is_ok (import_by_file engine samples path ample).0.0 ≡ true
unfolding import_by_file is_ok alloc base_name realloc
kick_imported = refl

kick_again :
    is_ok (import_by_file engine (import_by_file engine samples path ample).0.1 path ample).0.0
    ≡ true
unfolding import_by_file is_ok alloc base_name realloc
kick_again = refl

kick_there : 0 < occurrences samples.samples (base_name path path)
unfolding occurrences base_name
kick_there = omega arith

live-import_example :
    (import_by_file engine samples path scarce).1.live + list_blocks samples
    ≡ 10
      + list_blocks (import_by_file engine samples path scarce).0.1
      + message_blocks (import_by_file engine samples path scarce).0.0
live-import_example = live-import engine samples path scarce

kick_found : get_by_name samples.samples text ≡ some kick_sample
unfolding get_by_name
kick_found = refl

delete_finds_example :
    (before : List (Sample ℕ)) × (after : List (Sample ℕ)) × (samples.samples
      ≡ before ++ kick_sample ∷ after)
    × ((delete_by_name samples text ample).0
        ≡ (success, record samples { samples = before ++ after }))
    × (occurrences before text ≡ 0)
    × (is_named kick_sample.sample_name text ≡ true)
delete_finds_example = delete_finds samples text kick_sample ample kick_found

-- Every non-empty piece of data is a sound, and its length names it.
abbrev decoders : Decoders ℕ
decoders = record { decodes = λ bytes. true; sound_of = λ bytes. some (length bytes) }

sample_init_all_or_nothing_example :
    let r = sample_init engine decoders fresh_sample (some text) (some (7 ∷ 8 ∷ [])) ample in
    (r.1.live + 2 ≡ ample.live + (held_blocks r.0.1 + message_blocks r.0.0))
    × (is_ok r.0.0 ≡ true
        → (r.0.1.buf ≡ some (7 ∷ 8 ∷ []))
          × (r.0.1.sample_name ≡ some text)
          × (r.0.1.handle ≡ some 2))
    × (is_ok r.0.0 ≡ false → r.0.1.buf ≡ none)
sample_init_all_or_nothing_example =
    sample_init_all_or_nothing engine decoders fresh_sample (some text) (some (7 ∷ 8 ∷ [])) ample
      refl (omega arith)

-- 2.0f
clamped_lem_example :
    (false ≡ false → rank (clamped 0x40000000) ≡ rank one)
    × (false ≡ true → clamped 0x40000000 ≡ 0x40000000)
clamped_lem_example = clamped_lem 0x40000000 (omega arith)
