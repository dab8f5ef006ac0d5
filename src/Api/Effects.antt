-- ===== src/Api/Effects.antt =====
-- What single requests do to the session.
use haze.Base.{ℕ, ◌+◌, ◌≡◌, refl, ap, ◌∙◌, none, some, List, ◌∷◌, ◌++◌, true, codes, bytes_eq}
use haze.Memory.{Heap, IsAmple, alloc, alloc-IsAmple}
use haze.Audio.{success, Sample, is_ok}
use haze.Audio.SampleList.{SampleList, delete_by_name, get_by_name, occurrences}
use haze.Audio.SampleList.Delete.{delete-IsAmple, delete_finds}
use haze.Session.{Session, session_new}
use haze.Session.Laws.{new_blocks, live-session_new}
use haze.Object
use haze.Object.{Object, object, nil, str, slot, end, expect, get_str}
use haze.Wire.Request.{Request, param_count, param_get}
use haze.Wire.Response
use haze.Wire.Response.{Response, create_nil_result, create_result_audio}
use haze.Api.{
  World, answered, is_method, remove_sample, dispatch, dispatch_named, dispatch_method, with_count,
  with_string, answer, keep, string_of, fn_session_create, fn_remove_sample, remove_named,
}

nil_result_there :
    (id : ℕ) (h : Heap)
    → IsAmple h
    → (create_result_audio id success h).0
      ≡ some (record { type = 1; msgid = id; error = none; result = some (object nil 0) })
unfolding create_result_audio create_nil_result is_ok Object.create_nil Response.new
    Response.set_result Response.set_msgid
nil_result_there id h e =
    let (one, e1) = alloc-IsAmple h e in
    let (two, e2) = alloc-IsAmple (alloc h).1 e1 in rw (one, two) refl

-- The request to remove the sample of this name, in a string object of any size.
abbrev pub remove_request : ℕ → List ℕ → ℕ → Request
remove_request id name size = record {
  type = 0;
  msgid = id;
  method = some (codes "samplelist/remove");
  parameters = some (record { slots = slot (object (str (some name)) size) end; capacity = 8 });
}

module _ {S : Type 0} where
  remove_sample-removed :
      (s : Session S) (l : SampleList S) (id : ℕ) (c : ℕ) (name : List ℕ) (l' : SampleList S)
      (h : Heap)
      → IsAmple h
      → s.samples ≡ some l
      → (delete_by_name l (c ∷ name) h).0 ≡ (success, l')
      → (remove_sample s id (some (c ∷ name)) h).0 ≡ (
        answered
            (some (record { type = 1; msgid = id; error = none; result = some (object nil 0) })),
        record s { samples = some l' },
      )
  unfolding remove_sample fn_remove_sample remove_named keep answer
  remove_sample-removed s l id c name l' h e there gone =
      rw
        (
          there,
          gone,
          nil_result_there id (delete_by_name l (c ∷ name) h).1 (delete-IsAmple l (c ∷ name) h e),
        )
        refl

  remove_request-remove_sample :
      (w : World S) (s : Session S) (id : ℕ) (name : List ℕ) (size : ℕ) (h : Heap)
      → dispatch w s (some (remove_request id name size)) h ≡ remove_sample s id (some name) h
  unfolding dispatch dispatch_named dispatch_method is_method codes bytes_eq with_string with_count
      param_count param_get expect string_of Object.get_str Object.get_type Object.type_eq
  remove_request-remove_sample w s id name size h = refl

  -- With ample memory a samplelist/remove, whose one parameter is a string of any size field, takes
  -- the first sample of that name out of the session's list, if the name is not empty and in the
  -- list, and is answered by nil without an error.
  pub dispatch_removes :
      (w : World S) (s : Session S) (l : SampleList S) (id c : ℕ) (name : List ℕ) (size : ℕ)
      (x : Sample S) (h : Heap)
      → IsAmple h
      → s.samples ≡ some l
      → get_by_name l.samples (c ∷ name) ≡ some x
      → (before : List (Sample S)) × (after : List (Sample S)) × (l.samples ≡ before ++ x ∷ after)
        × (occurrences before (c ∷ name) ≡ 0)
        × ((dispatch w s (some (remove_request id (c ∷ name) size)) h).0 ≡ (
          answered
              (some (record { type = 1; msgid = id; error = none; result = some (object nil 0) })),
          record s { samples = some (record l { samples = before ++ after }) },
        ))
  dispatch_removes w s l id c name size x h e there found =
      let (before, after, whole, gone, none_before, named) = delete_finds l (c ∷ name) x h found in
      (
        before,
        after,
        whole,
        none_before,
        ap (λ r. r.0) (remove_request-remove_sample w s id (c ∷ name) size h)
            ∙ remove_sample-removed s l id c name (record l { samples = before ++ after }) h e there
                gone,
      )

  -- FnSessionCreate with a name and without a session reports success, and leaves live the blocks of
  -- what SessionNew made, which its caller does not get.
  pub create_loses_session :
      (w : World S) (name : List ℕ) (h : Heap)
      → ((fn_session_create w none (some name) h).0 ≡ (true, none))
        × ((fn_session_create w none (some name) h).1.live
            ≡ h.live
              + new_blocks
                  (session_new {S = S} w.opens w.now w.rand_first w.rand_second (some name) h).0)
  unfolding fn_session_create
  create_loses_session w name h =
      (refl, live-session_new S w.opens w.now w.rand_first w.rand_second (some name) h)
