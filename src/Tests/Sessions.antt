-- ===== src/Tests/Sessions.antt =====
-- Tests of sessions and of the dispatcher.
use haze.Base.{ℕ, ◌≡◌, refl, List, [], ◌∷◌, ◌++◌, none, some, true, false, codes}
use haze.Memory.{Heap, planned}
use haze.Audio.{Sample, success, base_name}
use haze.Audio.SampleList.Laws.{Imported}
use haze.Audio.SampleList.{SampleList, occurrences, get_by_name}
use haze.Session.{Session, session_new}
use haze.Session.Laws.{close, sessions_balanced}
use haze.Object.{object, nil}
use haze.Wire.Request.{Request}
use haze.Wire.Response.{Response}
use haze.Api.{World, answered, fn_import_sample, is_method, dispatch}
use haze.Api.Jobs.{fn_import-Imported}
use haze.Api.Laws.{dispatch_answers}
use haze.Api.Effects.{dispatch_removes, remove_request}
use haze.Tests.Samples.{engine, samples, kick_sample}
use haze.Tests.{ample, text}

abbrev pub world : World ℕ
world = record { engine = engine; now = 100; rand_first = 3; rand_second = 20; opens = true }

abbrev pub session : Session ℕ
session = record {
  session_name = some text;
  project_path = none;
  created_at = 90;
  working_time = 0;
  samples = some samples;
  channels = none;
}

-- The fourth allocation fails.
abbrev scarce : Heap
scarce = record { plan = planned (true ∷ true ∷ true ∷ false ∷ []); live = 10 }

sessions_balanced_example : (close (session_new {S = ℕ} true 100 3 20 (some text) scarce)).live ≡ 10
sessions_balanced_example = sessions_balanced ℕ true 100 3 20 text scarce

abbrev ping : List ℕ
ping = b't' ∷ b'e' ∷ b's' ∷ b't' ∷ b'/' ∷ b'p' ∷ b'i' ∷ b'n' ∷ b'g' ∷ []

abbrev request : Request
request = record { type = 0; msgid = 9; method = some ping; parameters = none }

not_import : is_method ping (codes "samplelist/import") ≡ false
unfolding is_method codes
not_import = refl

dispatch_answers_example :
    (x : Response) × ((dispatch world session (some request) ample).0.0 ≡ answered (some x))
    × (x.type ≡ 1)
    × (x.msgid ≡ 9)
dispatch_answers_example = dispatch_answers world session request ping ample refl refl not_import

kick_found : get_by_name samples.samples text ≡ some kick_sample
unfolding get_by_name
kick_found = refl

dispatch_removes_example :
    (before : List (Sample ℕ)) × (after : List (Sample ℕ)) × (samples.samples
      ≡ before ++ kick_sample ∷ after)
    × (occurrences before text ≡ 0)
    × ((dispatch world session (some (remove_request 4 text 4)) ample).0 ≡ (
      answered (some (record { type = 1; msgid = 4; error = none; result = some (object nil 0) })),
      record session { samples = some (record samples { samples = before ++ after }) },
    ))
dispatch_removes_example =
    dispatch_removes world session samples 4 b'k' (b'i' ∷ b'c' ∷ b'k' ∷ []) 4 kick_sample ample refl
      refl kick_found

fn_import-Imported_example :
    (l : SampleList ℕ) × ((fn_import_sample engine (some samples) (some text) ample).0
      ≡ (success, some l))
    × Imported samples l (base_name text text)
fn_import-Imported_example =
    fn_import-Imported engine samples b'k' (b'i' ∷ b'c' ∷ b'k' ∷ []) 5 ample refl refl refl
