-- ===== src/Api.antt =====
-- source/api/Dispatcher.c and source/api/functions/FnSession.c, FnSampleList.c: a request is answered
-- by the function that its method names.
pub mod Laws
pub mod Effects
pub mod Jobs
use haze.Base.{
  ℕ, zero, suc, ◌+◌, ℤ, pos, Option, none, some, List, [], ◌∷◌, Bool, true, false, ◌==◌,
  if◌then◌else◌, bytes_eq, codes,
}
use haze.Memory.{M, pure, ◌>>=◌, ◌>>◌, alloc}
use haze.Object
use haze.Object.{Object, obj_str, expect}
use haze.Audio.{
  ResultAudio, failure, invalid_sample_name, invalid_sample_path, no_sample_list, no_such_sample,
  Engine, Sample, play,
}
use haze.Audio.SampleList.{SampleList, import_by_file, delete_by_name, get_by_name}
use haze.Session
use haze.Session.{Session, New, session_new, session_get_name, session_get_working_time}
use haze.Wire.Request.{Request, param_count, param_get}
use haze.Wire.Response.{
  Response, create_string, create_int, create_result, create_result_audio, create_error,
}

-- What the time, rand and the engine answer.
pub record World (S : Type 0) : Type 0 where
  pub engine : Engine S
  pub now : ℕ
  pub rand_first : ℕ
  pub rand_second : ℕ
  pub opens : Bool

module _ {S : Type 0} where
  -- The Result of FnSessionCreate: success, or the message of a failure.
  unfoldable pub fn_session_create :
      World S → Option (Session S) → Option (List ℕ) → M (Bool × Option (List ℕ))
  unfolding session_new codes
  fn_session_create w s none = pure (false, some (codes "Invalid session name."))
  fn_session_create w none (some name) = do
    lost ← session_new {S = S} w.opens w.now w.rand_first w.rand_second (some name)
    pure (true, none)
  fn_session_create w (some s) (some name) = pure (false, some (codes "Session already started!"))

  -- FnSessionInit reports success for whatever SessionNew returned, if it returned.
  init_result : New S → Option (Bool × Option (List ℕ))
  init_result (Session.made s) = some (true, none)
  init_result Session.failed = some (true, none)
  init_result Session.crashed = none

  -- FnSessionInit, which no function calls.
  unfoldable pub fn_session_init :
      World S → Option (Session S) → M (Option (Bool × Option (List ℕ)))
  unfolding session_new codes init_result
  fn_session_init w none = do
    lost ← session_new {S = S} w.opens w.now w.rand_first w.rand_second none
    pure (init_result lost)
  fn_session_init w (some s) =
      pure (some (false, some (codes "The current session instance has already been created.")))

  import_path : Engine S → Option (SampleList S) → List ℕ → M (ResultAudio × Option (SampleList S))
  unfolding import_by_file
  import_path eng none path = pure (failure no_sample_list, none)
  import_path eng (some l) path = do (r, l') ← import_by_file eng l path; pure (r, some l')

  -- FnSampleListImportSample, for the thread that takes the jobs.
  unfoldable pub fn_import_sample :
      Engine S → Option (SampleList S) → Option (List ℕ) → M (ResultAudio × Option (SampleList S))
  unfolding import_path
  fn_import_sample eng l none = pure (failure invalid_sample_path, l)
  fn_import_sample eng l (some []) = pure (failure invalid_sample_path, l)
  fn_import_sample eng l (some (c ∷ path)) = import_path eng l (c ∷ path)

  -- FnSessionGetName
  unfoldable pub fn_session_get_name : Option (Session S) → List ℕ
  unfolding session_get_name
  fn_session_get_name none = []
  fn_session_get_name (some s) = session_get_name (some s)

  -- FnSessionGetWorkingTime
  unfoldable pub fn_session_get_working_time : ℕ → Option (Session S) → ℤ
  unfolding session_get_working_time
  fn_session_get_working_time now none = pos 0
  fn_session_get_working_time now (some s) = session_get_working_time now s

  remove_named : Option (SampleList S) → List ℕ → M (ResultAudio × Option (SampleList S))
  unfolding delete_by_name
  remove_named none name = pure (failure no_sample_list, none)
  remove_named (some l) name = do (r, l') ← delete_by_name l name; pure (r, some l')

  -- FnSampleListRemoveSample
  unfoldable pub fn_remove_sample :
      Option (SampleList S) → Option (List ℕ) → M (ResultAudio × Option (SampleList S))
  unfolding remove_named
  fn_remove_sample l none = pure (failure invalid_sample_name, l)
  fn_remove_sample l (some []) = pure (failure invalid_sample_name, l)
  fn_remove_sample l (some (c ∷ name)) = remove_named l (c ∷ name)

  play_found : Engine S → Option (Sample S) → M ResultAudio
  unfolding play
  play_found eng none = pure (failure no_such_sample)
  play_found eng (some s) = play eng s

  play_named : Engine S → Option (SampleList S) → List ℕ → M ResultAudio
  unfolding play_found get_by_name
  play_named eng none name = pure (failure no_sample_list)
  play_named eng (some l) name = play_found eng (get_by_name l.samples name)

  -- FnSamplePlay
  unfoldable pub fn_sample_play : Engine S → Option (SampleList S) → Option (List ℕ) → M ResultAudio
  unfolding play_named
  fn_sample_play eng l none = pure (failure invalid_sample_name)
  fn_sample_play eng l (some []) = pure (failure invalid_sample_name)
  fn_sample_play eng l (some (c ∷ name)) = play_named eng l (c ∷ name)

-- The pointer `_payload` of a Job: null, the string that the request's parameter of this index holds,
-- or that string after the request was given back.
pub data Payload : Type 0 where
  null_payload dangling : Payload
  param_string : ℕ → Payload

-- What DispatchRPCMessage does for a request: a response, which is null where an allocation failed;
-- or a job that is pushed, with the message id and its payload; or a use of a null pointer.
pub data Reply : Type 0 where
  answered : Option Response → Reply
  queued : ℕ → Payload → Reply
  crashed : Reply

-- `strcmp(method_name, text) == 0`
unfoldable pub is_method : List ℕ → List ℕ → Bool
unfolding bytes_eq
is_method m text = bytes_eq m text

answer : M (Option Response) → M Reply
answer make = do r ← make; pure (answered r)

-- The string that a parameter holds.
string_of : Option Object → Option (List ℕ)
unfolding Object.get_str
string_of none = none
string_of (some o) = Object.get_str o

-- The pointer that ObjectGetStr gives of the first parameter.
payload_of : Option (List ℕ) → Payload
payload_of none = null_payload
payload_of (some path) = param_string 0

-- The job that is handed to JobQueuePush, which the source declares only.
job_of : ℕ → Option (List ℕ) → Bool → Reply
unfolding payload_of
job_of id path true = queued id (payload_of path)
job_of id path false = crashed

module _ {S : Type 0} where
  -- A reply that leaves the session as it is.
  keep : Session S → M Reply → M (Reply × Session S)
  keep s make = do r ← make; pure (r, s)

  -- The test of the number of parameters.
  with_count : Request → ℕ → List ℕ → Session S → M (Reply × Session S) → M (Reply × Session S)
  unfolding answer keep
  with_count r n text s handle =
      if param_count (some r) == n
      then handle
      else keep s (answer (create_error r.msgid (some text)))

  -- The handlers of one string begin with the same tests.
  with_string :
      Request → Session S → (Option (List ℕ) → M (Reply × Session S)) → M (Reply × Session S)
  unfolding with_count answer keep string_of expect codes
  with_string r s handle = with_count r 1 (codes "Expected 1 parameter.") s (
      if expect (param_get (some r) 0) obj_str
      then handle (string_of (param_get (some r) 0))
      else keep s (answer (create_error r.msgid (some (codes "Expected a string.")))))

  create_session : World S → Session S → ℕ → Option (List ℕ) → M (Reply × Session S)
  unfolding fn_session_create answer keep
  create_session w s id name = do
    (success, msg) ← fn_session_create w (some s) name
    keep s (answer (create_result id success msg))

  import_sample : Session S → ℕ → Option (List ℕ) → M (Reply × Session S)
  unfolding job_of
  import_sample s id path = do ok ← alloc; pure (job_of id path ok, s)

  remove_sample : Session S → ℕ → Option (List ℕ) → M (Reply × Session S)
  unfolding fn_remove_sample answer keep
  remove_sample s id name = do
    (res, l) ← fn_remove_sample s.samples name
    keep (record s { samples = l }) (answer (create_result_audio id res))

  play_sample : World S → Session S → ℕ → Option (List ℕ) → M (Reply × Session S)
  unfolding fn_sample_play answer keep
  play_sample w s id name = do
    res ← fn_sample_play w.engine s.samples name
    keep s (answer (create_result_audio id res))

  -- The chain of tests on the method.
  dispatch_method : World S → Session S → Request → List ℕ → M (Reply × Session S)
  unfolding codes answer keep with_count with_string create_session import_sample remove_sample
      play_sample fn_session_get_name fn_session_get_working_time
  dispatch_method w s r m =
      let id = r.msgid in
      if is_method m (codes "test/ping")
      then with_count r 0 (codes "Pong, but those arguments weren't necessary.") s
          (keep s (answer (create_string id (some (codes "pong!")))))
      else if is_method m (codes "session/create")
      then with_string r s (create_session w s id)
      else if is_method m (codes "session/get_name")
      then with_count r 0 (codes "Expected 0 parameters.") s
          (keep s (answer (create_string id (some (fn_session_get_name (some s))))))
      else if is_method m (codes "session/get_working_time")
      then with_count r 0 (codes "Expected 0 parameters.") s
          (keep s (answer (create_int id (fn_session_get_working_time w.now (some s)))))
      else if is_method m (codes "samplelist/import")
      then with_string r s (import_sample s id)
      else if is_method m (codes "samplelist/remove")
      then with_string r s (remove_sample s id)
      else if is_method m (codes "samplelist/play")
      then with_string r s (play_sample w s id)
      else keep s (answer (create_error id (some (codes "Method not found."))))

  dispatch_named : World S → Session S → Request → Option (List ℕ) → M (Reply × Session S)
  unfolding dispatch_method answer keep codes
  dispatch_named w s r none =
      keep s (answer (create_error r.msgid (some (codes "Method not specified."))))
  dispatch_named w s r (some m) = dispatch_method w s r m

  -- DispatchRPCMessage with a context whose session is there, as ContextNew makes it.
  unfoldable pub dispatch : World S → Session S → Option Request → M (Reply × Session S)
  unfolding dispatch_named answer keep codes
  dispatch w s none = keep s (answer (create_error 0 (some (codes "Invalid context or request."))))
  dispatch w s (some r) = dispatch_named w s r r.method
