-- ===== src/Api/Laws.antt =====
-- Which requests are answered, with which id, and what becomes of the session.
use haze.Base.{
  ℕ, ◌≡◌, refl, Option, none, some, List, [], ◌∷◌, Bool, true, false, if◌then◌else◌, arith,
  Option-cases, inl, inr, codes, ◌==◌,
}
use haze.Memory.{Heap, M, IsAmple, alloc-IsAmple}
use haze.Audio.{ResultAudio, Engine, err_format, play}
use haze.Audio.SampleList.{SampleList, get_by_name}
use haze.Audio.SampleList.Delete.{delete-IsAmple}
use haze.Session.{Session}
use haze.Object.{obj_str, expect}
use haze.Wire.Encode.{IsInsidePointer}
use haze.Wire.Request.{Request, param_count, param_get}
use haze.Wire.Response.{
  Response, create_string, create_int, create_result, create_error, create_result_audio,
}
use haze.Wire.Response.Answers.{
  Answers, create_string-Answers, create_int-Answers, create_result-Answers, create_error-Answers,
  create_result_audio-Answers,
}
use haze.Api.{
  World, Reply, answered, is_method, answer, keep, with_count, with_string, create_session,
  remove_sample, play_sample, dispatch, dispatch_named, dispatch_method, fn_session_create,
  fn_remove_sample, remove_named, fn_sample_play, play_named, play_found, fn_session_get_name,
  fn_session_get_working_time, string_of,
}

module _ {S : Type 0} where
  -- With ample memory the handler answers with this id, and no string of the response has a size
  -- behind its terminator.
  abbrev pub Responds : ℕ → M (Reply × Session S) → Type 0
  Responds id handle =
      (h : Heap)
      → IsAmple h
      → (r : Response) × ((handle h).0.0 ≡ answered (some r))
        × (r.type ≡ 1)
        × (r.msgid ≡ id)
        × IsInsidePointer r.error
        × IsInsidePointer r.result
        × IsAmple (handle h).1

  keep-Responds :
      (id : ℕ) (s : Session S) (make : M (Option Response))
      → Answers id make
      → Responds id (keep s (answer make))
  unfolding keep answer
  keep-Responds id s make k h e =
      let (r, there, type, same, err, res, ample) = k h e in
      (r, rw there refl, type, same, err, res, ample)

  error-Responds :
      (id : ℕ) (s : Session S) (text : List ℕ)
      → Responds id (keep s (answer (create_error id (some text))))
  error-Responds id s text =
      keep-Responds id s (create_error id (some text)) (create_error-Answers id (some text))

  if-Responds :
      (id : ℕ) (b : Bool) (f g : M (Reply × Session S))
      → Responds id f
      → Responds id g
      → Responds id (if b then f else g)
  if-Responds id true f g k l = k
  if-Responds id false f g k l = l

  with_count-Responds :
      (r : Request) (n : ℕ) (text : List ℕ) (s : Session S) (handle : M (Reply × Session S))
      → Responds r.msgid handle
      → Responds r.msgid (with_count r n text s handle)
  unfolding with_count
  with_count-Responds r n text s handle k =
      if-Responds r.msgid (param_count (some r) == n) _ _ k (error-Responds r.msgid s text)

  with_string-Responds :
      (r : Request) (s : Session S) (handle : Option (List ℕ) → M (Reply × Session S))
      → ((o : Option (List ℕ)) → Responds r.msgid (handle o))
      → Responds r.msgid (with_string r s handle)
  unfolding with_string
  with_string-Responds r s handle k = with_count-Responds r 1 (codes "Expected 1 parameter.") s _ (
      if-Responds r.msgid (expect (param_get (some r) 0) obj_str) _ _
        (k (string_of (param_get (some r) 0)))
        (error-Responds r.msgid s (codes "Expected a string.")))

  failed-Responds :
      (id : ℕ) (s : Session S) (msg : List ℕ)
      → Responds id (keep s (answer (create_result id false (some msg))))
  failed-Responds id s msg =
      keep-Responds id s (create_result id false (some msg))
        (create_result-Answers id false (some msg))

  audio-Responds :
      (id : ℕ) (s : Session S) (res : ResultAudio)
      → Responds id (keep s (answer (create_result_audio id res)))
  audio-Responds id s res =
      keep-Responds id s (create_result_audio id res) (create_result_audio-Answers id res)

  create_session-Responds :
      (w : World S) (s : Session S) (id : ℕ) (o : Option (List ℕ))
      → Responds id (create_session w s id o)
  unfolding create_session fn_session_create
  create_session-Responds w s id none = failed-Responds id s (codes "Invalid session name.")
  create_session-Responds w s id (some name) =
      failed-Responds id s (codes "Session already started!")

  remove-IsAmple :
      (l : Option (SampleList S)) (o : Option (List ℕ)) (h : Heap)
      → IsAmple h
      → IsAmple (fn_remove_sample l o h).1
  unfolding fn_remove_sample remove_named
  remove-IsAmple l none h e = e
  remove-IsAmple l (some []) h e = e
  remove-IsAmple none (some (c ∷ name)) h e = e
  remove-IsAmple (some l) (some (c ∷ name)) h e = delete-IsAmple l (c ∷ name) h e

  remove_sample-Responds :
      (s : Session S) (id : ℕ) (o : Option (List ℕ)) → Responds id (remove_sample s id o)
  unfolding remove_sample
  remove_sample-Responds s id o h e =
      audio-Responds id (record s { samples = (fn_remove_sample s.samples o h).0.1 })
        (fn_remove_sample s.samples o h).0.0 (fn_remove_sample s.samples o h).1
        (remove-IsAmple s.samples o h e)

  play-IsAmple :
      (eng : Engine S) (l : Option (SampleList S)) (o : Option (List ℕ)) (h : Heap)
      → IsAmple h
      → IsAmple (fn_sample_play eng l o h).1
  unfolding fn_sample_play play_named play_found play err_format
  play-IsAmple eng l none h e = e
  play-IsAmple eng l (some []) h e = e
  play-IsAmple eng none (some (c ∷ name)) h e = e
  play-IsAmple eng (some l) (some (c ∷ name)) h e =
      elim (Option-cases (get_by_name l.samples (c ∷ name))) [
        | inl n ↦ rw n e
        | inr (x, n) ↦ ground (arith, alloc-IsAmple h)
      ]

  play_sample-Responds :
      (w : World S) (s : Session S) (id : ℕ) (o : Option (List ℕ))
      → Responds id (play_sample w s id o)
  unfolding play_sample
  play_sample-Responds w s id o h e =
      audio-Responds id s (fn_sample_play w.engine s.samples o h).0
        (fn_sample_play w.engine s.samples o h).1 (play-IsAmple w.engine s.samples o h e)

  dispatch_method-Responds :
      (w : World S) (s : Session S) (r : Request) (m : List ℕ)
      → is_method m (codes "samplelist/import") ≡ false
      → Responds r.msgid (dispatch_method w s r m)
  unfolding dispatch_method
  dispatch_method-Responds w s r m e =
      let id = r.msgid in
      if-Responds id (is_method m (codes "test/ping")) _ _
        (with_count-Responds r 0 (codes "Pong, but those arguments weren't necessary.") s
          (keep s (answer (create_string id (some (codes "pong!")))))
          (keep-Responds id s (create_string id (some (codes "pong!")))
            (create_string-Answers id (some (codes "pong!")))))
        (if-Responds id (is_method m (codes "session/create")) _ _
          (with_string-Responds r s (create_session w s id) (create_session-Responds w s id))
          (if-Responds id (is_method m (codes "session/get_name")) _ _
            (with_count-Responds r 0 (codes "Expected 0 parameters.") s
              (keep s (answer (create_string id (some (fn_session_get_name (some s))))))
              (keep-Responds id s (create_string id (some (fn_session_get_name (some s))))
                (create_string-Answers id (some (fn_session_get_name (some s))))))
            (if-Responds id (is_method m (codes "session/get_working_time")) _ _
              (with_count-Responds r 0 (codes "Expected 0 parameters.") s
                (keep s (answer (create_int id (fn_session_get_working_time w.now (some s)))))
                (keep-Responds id s (create_int id (fn_session_get_working_time w.now (some s)))
                  (create_int-Answers id (fn_session_get_working_time w.now (some s)))))
              (rw e (
                if-Responds id (is_method m (codes "samplelist/remove")) _ _
                  (with_string-Responds r s (remove_sample s id) (remove_sample-Responds s id))
                  (if-Responds id (is_method m (codes "samplelist/play")) _ _
                    (with_string-Responds r s (play_sample w s id) (play_sample-Responds w s id))
                    (error-Responds id s (codes "Method not found."))))))))

  pub dispatch-Responds :
      (w : World S) (s : Session S) (r : Request) (m : List ℕ)
      → r.method ≡ some m
      → is_method m (codes "samplelist/import") ≡ false
      → Responds r.msgid (dispatch w s (some r))
  unfolding dispatch dispatch_named param_count param_get
  dispatch-Responds w s r m named other h e = rw named (dispatch_method-Responds w s r m other h e)

  -- With ample memory DispatchRPCMessage answers each request whose method is not samplelist/import:
  -- there is a response, of type 1 and with the request's id.
  pub dispatch_answers :
      (w : World S) (s : Session S) (r : Request) (m : List ℕ) (h : Heap)
      → IsAmple h
      → r.method ≡ some m
      → is_method m (codes "samplelist/import") ≡ false
      → (x : Response) × ((dispatch w s (some r) h).0.0 ≡ answered (some x))
        × (x.type ≡ 1)
        × (x.msgid ≡ r.msgid)
  dispatch_answers w s r m h e named other =
      let (x, there, type, same, err, res, ample) = dispatch-Responds w s r m named other h e in
      (x, there, type, same)

  -- The handler leaves the session as it is.
  abbrev Keeps : Session S → M (Reply × Session S) → Type 0
  Keeps s handle = (h : Heap) → (handle h).0.1 ≡ s
