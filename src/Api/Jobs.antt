-- ===== src/Api/Jobs.antt =====
-- FnSampleListImportSample of source/api/functions/FnSampleList.c, which the jobs of
-- samplelist/import are meant for.
use haze.Base.{ℕ, ◌≡◌, ap, some, List, ◌∷◌, true}
use haze.Memory.{Heap, IsAmple}
use haze.Audio.{Engine, success, is_ok, base_name}
use haze.Audio.SampleList.{SampleList, import_by_file}
use haze.Audio.SampleList.Laws.{Imported, import-Imported}
use haze.Audio.SampleList.Success.{import_ok}
use haze.Api.{fn_import_sample, import_path}

-- With ample memory, and of a file that can be read and that the engine loads, FnSampleListImportSample
-- with a list succeeds and adds one sample at the end of the list, with the length that the list had
-- for its id, named after the file and, if samples of that name are there, with their number behind
-- it; the others stay as they were.
pub fn_import-Imported :
    {S : Type 0} (eng : Engine S) (l : SampleList S) (c : ℕ) (path : List ℕ) (sound : S) (h : Heap)
    → IsAmple h
    → eng.readable (c ∷ path) ≡ true
    → eng.load (c ∷ path) ≡ some sound
    → (l' : SampleList S) × ((fn_import_sample eng (some l) (some (c ∷ path)) h).0
        ≡ (success, some l'))
      × Imported l l' (base_name (c ∷ path) (c ∷ path))
unfolding fn_import_sample import_path is_ok
fn_import-Imported eng l c path sound h e there sounds =
    let ok = import_ok eng l c path sound h e there sounds in
    (
      (import_by_file eng l (c ∷ path) h).0.1,
      ap (λ r. (r, some (import_by_file eng l (c ∷ path) h).0.1)) ok,
      import-Imported eng l (c ∷ path) h (ap is_ok ok),
    )
