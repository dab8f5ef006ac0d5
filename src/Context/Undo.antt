-- ===== src/Context/Undo.antt =====
-- source/Context.c: the blocks that ContextNew takes, and those it leaves when a part fails.
use haze.Base.{
  ℕ, ◌+◌, ◌-◌, ◌≤◌, ◌<◌, ◌≡◌, refl, ap, Option, none, some, List, Bool, true, false, if◌then◌else◌,
  arith, Bool-cases, inl, inr,
}
use haze.Memory.{M, Heap, alloc, free, got, live-alloc}
use haze.Session
use haze.Session.{Session, New, session_new, session_free}
use haze.Session.Laws.{session_blocks, new_blocks, live-session_free, live-session_new}
use haze.Fs.{Paths, path_blocks, paths_new, paths_free}
use haze.Fs.Laws.{discard, paths_balanced}
use haze.Fs.Registry
use haze.Fs.Registry.{FixedWriter, NewReg, InstanceReg, reg_blocks, new_registry, registry_free}
use haze.Fs.Registry.File.{Accounted, new_registry-Accounted}
use haze.Context.{
  Context, NewContext, made, failed, crashed, free_queue, with_results, with_requests, Outside,
  engine_new, engine_free, free_paths, free_registry, free_session, context_free, give_up,
  with_registry, with_paths, with_session, with_engine, context_new,
}

abbrev pub registry_held : Option InstanceReg → ℕ
registry_held none = 0
registry_held (some r) = reg_blocks r

abbrev pub paths_held : Option Paths → ℕ
paths_held none = 0
paths_held (some p) = path_blocks p

live-free_paths : (p : Option Paths) (h : Heap) → (free_paths p h).1.live ≡ h.live - paths_held p
unfolding free_paths paths_free free
live-free_paths none h = omega arith
live-free_paths (some p) h = refl

live-free_registry :
    (r : Option InstanceReg) (h : Heap) → (free_registry r h).1.live ≡ h.live - registry_held r
unfolding free_registry registry_free free
live-free_registry none h = omega arith
live-free_registry (some r) h = refl

-- PathsNew with at least one block live before.
live-paths_new :
    (home : Option (List ℕ)) (h : Heap)
    → 0 < h.live
    → (paths_new home h).1.live ≡ h.live + paths_held (paths_new home h).0
unfolding paths_free free
live-paths_new home h k = go (paths_new home h) (paths_balanced home h)
  where
    go : (r : Option Paths × Heap) → (discard r).live ≡ h.live → r.1.live ≡ h.live + paths_held r.0
    go (none, g) e = omega (arith, e)
    go (some p, g) e = omega (arith, e, k)

live-free_queue : (there : Bool) (h : Heap) → (free_queue there h).1.live ≡ h.live
unfolding free_queue
live-free_queue false h = refl
live-free_queue true h = refl

module _ {S : Type 0} where
  abbrev pub session_held : Option (Session S) → ℕ
  session_held none = 0
  session_held (some s) = session_blocks s

  -- The blocks of a context and its parts.
  abbrev pub context_blocks : Context S → ℕ
  context_blocks c =
      1 + got c.engine + session_held c.session + paths_held c.paths + registry_held c.registry

  -- With `k` the blocks that a call of JobQueueNew may keep: a NULL leaves at most two blocks more
  -- than there were and those of two queues. A context has its blocks and those of the queues, and
  -- is there only if uv_loop_init returned from its call with the null pointer.
  abbrev pub Undone : Outside → ℕ → ℕ → NewContext S × Heap → Type 0
  Undone o k before (failed, h) = (before ≤ h.live) × (h.live ≤ before + 2 + k + k)
  Undone o k before (made c, h) =
      (before + context_blocks c ≤ h.live)
      × (h.live ≤ before + context_blocks c + k + k)
      × (o.null_loop_returns ≡ true)
  Undone o k before (crashed, h) = Unit

  live-free_session :
      (s : Option (Session S)) (h : Heap)
      → session_held s ≤ h.live
      → (free_session s h).1.live + session_held s ≡ h.live
  unfolding free_session
  live-free_session none h k = omega arith
  live-free_session (some s) h k = live-session_free s h k

  live-context_free :
      (c : Context S) (h : Heap)
      → context_blocks c ≤ h.live
      → (context_free c h).1.live + context_blocks c ≡ h.live
  unfolding context_free engine_free free
  live-context_free c h k =
      let zero_one = live-free_queue c.results h in
      let f : Heap = (free_queue c.results h).1 in
      let zero_two = live-free_queue c.requests f in
      let f' : Heap = (free_queue c.requests f).1 in
      let one = live-free_registry c.registry f' in
      let g : Heap = (free_registry c.registry f').1 in
      let two = live-free_paths c.paths g in
      let g' : Heap = (free_paths c.paths g).1 in
      omega (
        arith,
        zero_one,
        zero_two,
        one,
        two,
        live-free_session c.session g' (omega (arith, k, one, two, zero_one, zero_two)),
      )

  give_up-Undone :
      (o : Outside) (k : ℕ) (c : Context S) (before lost : ℕ) (h : Heap)
      → h.live ≡ before + context_blocks c + lost
      → lost ≤ 2 + k + k
      → Undone o k before (give_up c h)
  unfolding give_up
  give_up-Undone o k c before lost h e few =
      let freed = live-context_free c h (omega (arith, e)) in
      (omega (arith, freed, e), omega (arith, freed, e, few))

-- A call of JobQueueNew gives no block back that was there before, and keeps at most `k`.
abbrev pub Keeps : Outside → ℕ → Type 0
Keeps o k = (h : Heap) → (h.live ≤ (o.queue_new h).1.live) × ((o.queue_new h).1.live ≤ h.live + k)

module _ {S : Type 0} (o : Outside) (k : ℕ) (keeps : Keeps o k)
    (returned : o.null_loop_returns ≡ true) where
  with_results-Undone :
      (c : Context S) (there : Bool) (before lost : ℕ) (h : Heap)
      → h.live ≡ before + context_blocks c + lost
      → lost ≤ k + k
      → Undone o k before (with_results o c there h)
  unfolding with_results
  with_results-Undone c false before lost h e few =
      give_up-Undone o k c before lost h e (omega (arith, few))
  with_results-Undone c true before lost h e few =
      (omega (arith, e), omega (arith, e, few), returned)

  with_requests-Undone :
      (c : Context S) (there : Bool) (before lost : ℕ) (h : Heap)
      → h.live ≡ before + context_blocks c + lost
      → lost ≤ k
      → Undone o k before (with_requests o c there h)
  unfolding with_requests
  with_requests-Undone c false before lost h e few =
      give_up-Undone o k c before lost h e (omega (arith, few))
  with_requests-Undone c true before lost h e few =
      let q = o.queue_new h in
      let (least, most) = keeps h in
      with_results-Undone (record c { requests = true }) q.0 before (lost + (q.1.live - h.live)) q.1
        (omega (arith, e, least)) (omega (arith, most, few))

module _ {S : Type 0} (o : Outside) (k : ℕ) (keeps : Keeps o k) where
  if-Undone :
      (b : Bool) (m n : M (NewContext S)) (before : ℕ) (h : Heap)
      → (b ≡ true → Undone o k before (m h))
      → Undone o k before (n h)
      → Undone o k before ((if b then m else n) h)
  if-Undone true m n before h u v = u refl
  if-Undone false m n before h u v = v

  with_registry-Undone :
      (c : Context S) (before : ℕ) (r : NewReg) (g : ℕ) (h : Heap)
      → c.registry ≡ none
      → Accounted r g h.live
      → g ≡ before + context_blocks c
      → Undone o k before (with_registry o c r h)
  unfolding with_registry
  with_registry-Undone c before (Registry.made r file) g h n a e =
      if-Undone o.null_loop_returns _ _ before h
        (λ returned.
          let q = o.queue_new h in
          let (least, most) = keeps h in
          with_requests-Undone o k keeps returned (record c { registry = some r }) q.0 before
            (q.1.live - h.live) q.1 (omega (arith, a, e, least, ap registry_held n))
            (omega (arith, most)))
        tt
  with_registry-Undone c before Registry.failed g h n a e =
      give_up-Undone o k c before (h.live - g) h (omega (arith, a.0, e)) (omega (arith, a.1))
  with_registry-Undone c before Registry.crashed g h n a e = tt

module _ {S W : Type 0} (wr : FixedWriter W) (o : Outside) (k : ℕ) (keeps : Keeps o k) where
  with_paths-Undone :
      (c : Context S) (s : Session S) (before : ℕ) (p : Option Paths) (h : Heap)
      → c.paths ≡ none
      → c.registry ≡ none
      → h.live ≡ before + context_blocks c + paths_held p
      → Undone o k before (with_paths wr o c s p h)
  unfolding with_paths
  with_paths-Undone c s before none h n v e =
      give_up-Undone o k c before 0 h (omega (arith, e)) (omega arith)
  with_paths-Undone c s before (some p) h n v e =
      let r = new_registry wr o.opens_file o.pid s p 7192 h in
      with_registry-Undone o k keeps (record c { paths = some p }) before r.0 h.live r.1 v
        (new_registry-Accounted wr o.opens_file o.pid s p 7192 h)
        (omega (arith, e, ap paths_held n))

  with_session-Undone :
      (c : Context S) (before : ℕ) (s : New S) (h : Heap)
      → c.paths ≡ none
      → c.registry ≡ none
      → c.session ≡ none
      → 0 < h.live
      → h.live ≡ before + context_blocks c + new_blocks s
      → Undone o k before (with_session wr o c s h)
  unfolding with_session
  with_session-Undone c before (Session.made s) h n v m pos_live e =
      let p = paths_new o.home h in
      with_paths-Undone (record c { session = some s }) s before p.0 p.1 n v
        (omega (arith, live-paths_new o.home h pos_live, e, ap session_held m))
  with_session-Undone c before Session.failed h n v m pos_live e =
      give_up-Undone o k c before 0 h (omega (arith, e)) (omega arith)
  with_session-Undone c before Session.crashed h n v m pos_live e = tt

module _ (S : Type 0) {W : Type 0} (wr : FixedWriter W) (o : Outside) (k : ℕ)
    (keeps : Keeps o k) where
  with_engine-Undone :
      (there : Bool) (before : ℕ) (h : Heap)
      → h.live ≡ before + 1 + got there
      → Undone o k before (with_engine S wr o there h)
  unfolding with_engine
  with_engine-Undone false before h e =
      give_up-Undone {S = S} o k
        (record {
          session = none;
          paths = none;
          registry = none;
          engine = false;
          requests = false;
          results = false;
        })
        before 0 h (omega (arith, e)) (omega arith)
  with_engine-Undone true before h e =
      let s = session_new {S = S} o.opens_channel o.now o.rand_first o.rand_second none h in
      let gained = live-session_new S o.opens_channel o.now o.rand_first o.rand_second none h in
      with_session-Undone wr o k keeps
        (record {
          session = none;
          paths = none;
          registry = none;
          engine = true;
          requests = false;
          results = false;
        })
        before s.0 s.1 refl refl refl (omega (arith, gained, e)) (omega (arith, gained, e))

  live-engine_new :
      (inits : Bool) (h : Heap) → (engine_new inits h).1.live ≡ h.live + got (engine_new inits h).0
  unfolding engine_new free
  live-engine_new inits h = ground (arith, live-alloc h)

  -- Whatever the allocator, the engine, the file system and rand answer, and where a call of
  -- JobQueueNew gives no block back and keeps at most k: unless ContextNew uses a null pointer, of
  -- which nothing is said, it returns NULL and leaves the blocks that there were and at most
  -- 2 + 2 * k more, or it returns a context, memory has gained its blocks and at most 2 * k more, and
  -- uv_loop_init has returned from its call with a null pointer.
  pub context_new-Undone : (h : Heap) → Undone o k h.live (context_new S wr o h)
  unfolding context_new
  context_new-Undone h = elim (Bool-cases (alloc h).0) [
    | inr n ↦ rw n (omega (arith, live-alloc h, ap got n), omega (arith, live-alloc h, ap got n))
    | inl n ↦
        let e = engine_new o.inits (alloc h).1 in
        rw n (
          with_engine-Undone e.0 h.live e.1
            (omega (arith, live-engine_new o.inits (alloc h).1, live-alloc h, ap got n)))
  ]
