-- ===== src/Context.antt =====
-- source/Context.c and source/audio/AudioEngine.c: the parts of an instance, made one after the other.
-- uv_loop_init is called on `_loop`, which is null there, and JobQueueNew is declared only: what they
-- do is a parameter.
pub mod Undo
use haze.Base.{ℕ, ◌+◌, Option, none, some, List, Bool, true, false, if◌then◌else◌}
use haze.Memory.{M, pure, ◌>>=◌, ◌>>◌, alloc, free, got}
use haze.Session
use haze.Session.{Session, New, session_new, session_free}
use haze.Fs.{Paths, paths_new, paths_free}
use haze.Fs.Registry
use haze.Fs.Registry.{FixedWriter, InstanceReg, NewReg, new_registry, registry_free}

-- The struct Context; `engine`, `requests` and `results` say whether these pointers are not null.
pub record Context (S : Type 0) : Type 0 where
  pub session : Option (Session S)
  pub paths : Option Paths
  pub registry : Option InstanceReg
  pub engine : Bool
  pub requests : Bool
  pub results : Bool

-- What ContextNew does: it returns a context or NULL, or uses a null pointer.
pub data NewContext (S : Type 0) : Type 0 where
  made : Context S → NewContext S
  failed crashed : NewContext S

-- What the parts ask of the outside: whether ma_engine_init succeeds, the engine for the channels, the
-- time, rand, HOME, the process id, and fopen; whether uv_loop_init returns from a call with a null
-- pointer; and JobQueueNew, true where it does not return NULL.
pub record Outside : Type 0 where
  pub inits : Bool
  pub opens_channel : Bool
  pub now : ℕ
  pub rand_first : ℕ
  pub rand_second : ℕ
  pub home : Option (List ℕ)
  pub pid : ℕ
  pub opens_file : List ℕ → Bool
  pub null_loop_returns : Bool
  pub queue_new : M Bool

-- AudioEngineNew, true where it does not return NULL.
unfoldable pub engine_new : Bool → M Bool
unfolding free
engine_new inits = do
  ok ← alloc
  if ok then (if inits then pure true else (do free 1; pure false)) else pure false

-- AudioEngineFree of an engine that may be null.
unfoldable pub engine_free : Bool → M (Unit {0})
unfolding free
engine_free there = free (got there)

free_paths : Option Paths → M (Unit {0})
unfolding paths_free
free_paths none = pure tt
free_paths (some p) = paths_free p

free_registry : Option InstanceReg → M (Unit {0})
unfolding registry_free
free_registry none = pure tt
free_registry (some r) = registry_free r

-- JobQueueFree of a queue that is there: its loop runs while `jobs` is null, behind a test that it is
-- not, so nothing is given back.
unfoldable pub job_queue_free : M (Unit {0})
job_queue_free = pure tt

free_queue : Bool → M (Unit {0})
unfolding job_queue_free
free_queue false = pure tt
free_queue true = job_queue_free

module _ {S : Type 0} where
  free_session : Option (Session S) → M (Unit {0})
  unfolding session_free
  free_session none = pure tt
  free_session (some s) = session_free s

  -- ContextFree of a context that is there.
  unfoldable pub context_free : Context S → M (Unit {0})
  unfolding free_queue free_registry free_paths free_session engine_free free
  context_free c =
      free_queue c.results
      >> free_queue c.requests
      >> free_registry c.registry
      >> free_paths c.paths
      >> free_session c.session
      >> engine_free c.engine
      >> free 1

  -- The label `fail`.
  give_up : Context S → M (NewContext S)
  unfolding context_free
  give_up c = do context_free c; pure failed

module _ {S : Type 0} (o : Outside) where
  with_results : Context S → Bool → M (NewContext S)
  unfolding give_up
  with_results c false = give_up c
  with_results c true = pure (made (record c { results = true }))

  with_requests : Context S → Bool → M (NewContext S)
  unfolding give_up with_results
  with_requests c false = give_up c
  with_requests c true = do q ← o.queue_new; with_results (record c { requests = true }) q

  -- uv_loop_init(ctx->_loop), where calloc left `_loop` null, and the queues.
  with_registry : Context S → NewReg → M (NewContext S)
  unfolding give_up with_requests
  with_registry c (Registry.made r file) =
      if o.null_loop_returns
      then (do q ← o.queue_new; with_requests (record c { registry = some r }) q)
      else pure crashed
  with_registry c Registry.failed = give_up c
  with_registry c Registry.crashed = pure crashed

module _ {S W : Type 0} (wr : FixedWriter W) (o : Outside) where
  with_paths : Context S → Session S → Option Paths → M (NewContext S)
  unfolding with_registry give_up new_registry
  with_paths c s none = give_up c
  with_paths c s (some p) = do
    r ← new_registry wr o.opens_file o.pid s p 7192
    with_registry o (record c { paths = some p }) r

  with_session : Context S → New S → M (NewContext S)
  unfolding with_paths give_up paths_new
  with_session c (Session.made s) = do
    p ← paths_new o.home
    with_paths (record c { session = some s }) s p
  with_session c Session.failed = give_up c
  with_session c Session.crashed = pure crashed

module _ (S : Type 0) {W : Type 0} (wr : FixedWriter W) (o : Outside) where
  with_engine : Bool → M (NewContext S)
  unfolding with_session give_up session_new
  with_engine false = give_up {S = S} (record {
    session = none;
    paths = none;
    registry = none;
    engine = false;
    requests = false;
    results = false;
  })
  with_engine true = do
    s ← session_new {S = S} o.opens_channel o.now o.rand_first o.rand_second none
    with_session wr o
        (record {
          session = none;
          paths = none;
          registry = none;
          engine = true;
          requests = false;
          results = false;
        })
        s

  -- ContextNew
  unfoldable pub context_new : M (NewContext S)
  unfolding with_engine engine_new
  context_new = do
    ok ← alloc
    if ok then (do e ← engine_new o.inits; with_engine e) else pure failed
