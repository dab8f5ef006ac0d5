-- ===== src/Tests/Starting.antt =====
-- Tests of the start of an instance.
use haze.Base.{
  ℕ, ◌+◌, ◌≡◌, ◌<◌, ◌==◌, refl, arith, zero, suc, ℤ, pos, negsuc, some, true, if◌then◌else◌,
}
use haze.Memory.{alloc, live-alloc}
use haze.Context.{Outside, context_new}
use haze.Context.Undo.{Undone, Keeps, context_new-Undone}
use haze.Server.Net.{server_start}
use haze.Main.{listening, is_taken, search}
use haze.Main.Search.{fresh, IsTaken, search_finds}
use haze.Tests.Files.{home, fixed_writer, opens_all}
use haze.Tests.Sessions.{session}
use haze.Tests.{ample}

-- A queue is one block; uv_loop_init returns.
abbrev outside : Outside
outside = record {
  inits = true;
  opens_channel = true;
  now = 100;
  rand_first = 3;
  rand_second = 20;
  home = some home;
  pid = 5;
  opens_file = opens_all;
  null_loop_returns = true;
  queue_new = alloc;
}

alloc-Keeps : Keeps outside 1
alloc-Keeps h = ground (arith, live-alloc h)

context_new-Undone_example : Undone outside 1 10 (context_new ℕ fixed_writer outside ample)
context_new-Undone_example = context_new-Undone ℕ fixed_writer outside 1 alloc-Keeps ample

-- Port 7192 is taken.
bound : ℕ → ℤ
bound port = if port == 7192 then negsuc 97 else pos 0

listens : ℕ → ℤ
listens port = pos 0

taken : (k : ℕ) → k < 1 → IsTaken bound listens session (7192 + k)
unfolding bound is_taken server_start fresh
taken zero h = (negsuc 97, refl, refl)
taken (suc k) h = absurd (omega arith)

search_finds_example :
    let r = search bound listens session 5 7192 ample in
    (r.0 ≡ listening (fresh 7193)) × (r.1.live ≡ 13)
unfolding bound listens server_start fresh
search_finds_example =
    search_finds bound listens session 1 5 7192 ample (omega arith) refl taken refl
