-- ===== src/Fs.antt =====
-- source/fs/Paths.c and source/fs/InstanceRegistry.c: the server's directories, and the ports of its
-- instances. Directories and the environment are arguments.
pub mod Laws
pub mod Registry
use haze.Base.{
  ℕ, zero, suc, ◌+◌, ◌*◌, ◌-◌, ◌^◌, ◌%◌, Option, none, some, List, [], ◌∷◌, ◌++◌, Bool, true, false,
  ◌==◌, ◌&&◌, ◌||◌, not, ltb, leb, if◌then◌else◌, length, codes, bytes_eq,
}
use haze.Memory.{M, pure, ◌>>=◌, ◌>>◌, alloc, free}

-- sizeof(buffer) of PathsJoin
abbrev pub path_size : ℕ
path_size = 4096

-- What stands in the buffer: a C string; or bytes without a terminator behind them.
pub data Joined : Type 0 where
  text unterminated : List ℕ → Joined

-- No separator is put behind one, nor at the start.
unfoldable pub ends_in_sep : List ℕ → Bool
ends_in_sep [] = true
ends_in_sep (c ∷ []) = c == b'/'
ends_in_sep (c ∷ d ∷ rest) = ends_in_sep (d ∷ rest)

-- The loop, with what was written so far: the separator overwrites the terminator, and a component
-- that does not fit ends the loop.
unfoldable pub join_from : List ℕ → List (List ℕ) → Joined
unfolding ends_in_sep
join_from written [] = text written
join_from written (c ∷ rest) =
    let bare = join_from (written ++ c) rest in
    let parted = join_from (written ++ b'/' ∷ c) rest in
    if ends_in_sep written
    then (if leb (path_size - 1) (length written + length c) then text written else bare)
    else if leb (path_size - 1) (length written + 1 + length c)
    then unterminated (written ++ b'/' ∷ [])
    else parted

-- PathsJoin: a copy of the buffer.
unfoldable pub join : List (List ℕ) → M (Option Joined)
unfolding join_from
join parts = do ok ← alloc; pure (if ok then some (join_from [] parts) else none)

-- The struct Paths.
pub record Paths : Type 0 where
  pub home : Option Joined
  pub config : Option Joined
  pub data_dir : Option Joined
  pub cache : Option Joined
  pub projects : Option Joined
  pub samples : Option Joined
  pub themes : Option Joined
  pub plugins : Option Joined
  pub logs : Option Joined
  pub instances : Option Joined

pub data PathsEnum : Type 0 where
  paths_home paths_config paths_data paths_cache paths_projects paths_samples : PathsEnum
  paths_themes paths_plugins paths_logs paths_instances : PathsEnum

-- PathsGet of paths that are there.
unfoldable pub paths_get : Paths → PathsEnum → Option Joined
paths_get p paths_home = p.home
paths_get p paths_config = p.config
paths_get p paths_data = p.data_dir
paths_get p paths_cache = p.cache
paths_get p paths_projects = p.projects
paths_get p paths_samples = p.samples
paths_get p paths_themes = p.themes
paths_get p paths_plugins = p.plugins
paths_get p paths_logs = p.logs
paths_get p paths_instances = p.instances

unfoldable pub bytes_of : Joined → List ℕ
bytes_of (text s) = s
bytes_of (unterminated s) = s

-- The block of a string that may be null.
abbrev pub held : Option Joined → ℕ
held none = 0
held (some s) = 1

-- The directories below the base, whose copies are not tested.
directories : List ℕ → List ℕ → M Paths
directories home base = do
  config ← join (base ∷ codes "config" ∷ [])
  data_dir ← join (base ∷ codes "data" ∷ [])
  cache ← join (base ∷ codes "cache" ∷ [])
  projects ← join (base ∷ codes "projects" ∷ [])
  samples ← join (base ∷ codes "samples" ∷ [])
  themes ← join (base ∷ codes "themes" ∷ [])
  plugins ← join (base ∷ codes "plugins" ∷ [])
  logs ← join (base ∷ codes "logs" ∷ [])
  instances ← join (base ∷ codes "instances" ∷ [])
  pure (record {
    home = some (text home);
    config = config;
    data_dir = data_dir;
    cache = cache;
    projects = projects;
    samples = samples;
    themes = themes;
    plugins = plugins;
    logs = logs;
    instances = instances;
  })

with_base : List ℕ → Option Joined → M (Option Paths)
unfolding directories free bytes_of
with_base home none = do free 2; pure none
with_base home (some base) = do p ← directories home (bytes_of base); free 1; pure (some p)

with_home : List ℕ → Bool → M (Option Paths)
unfolding with_base join free codes
with_home home false = do free 1; pure none
with_home home true = do base ← join (home ∷ codes "Haze" ∷ []); with_base home base

-- PathsNew with what getenv gives for HOME; EnsureDir has an effect on the file system alone.
unfoldable pub paths_new : Option (List ℕ) → M (Option Paths)
unfolding with_home
paths_new none = pure none
paths_new (some home) = do
  ok ← alloc
  if ok then (do copied ← alloc; with_home home copied) else pure none

abbrev pub path_blocks : Paths → ℕ
path_blocks p =
    1
    + held p.home
    + held p.config
    + held p.data_dir
    + held p.cache
    + held p.projects
    + held p.samples
    + held p.themes
    + held p.plugins
    + held p.logs
    + held p.instances

-- PathsFree of paths that are there.
unfoldable pub paths_free : Paths → M (Unit {0})
unfolding free
paths_free p = free (path_blocks p)

-- isspace
is_space : ℕ → Bool
is_space c = c == b' ' || (leb 9 c && leb c 13)

is_digit : ℕ → Bool
is_digit c = leb b'0' c && leb c b'9'

-- ULONG_MAX
abbrev pub ulong_max : ℕ
ulong_max = 2 ^ 64 - 1

-- The digits at the start; a number that is too large stays at ULONG_MAX.
digits_value : ℕ → List ℕ → ℕ
unfolding is_digit
digits_value n [] = n
digits_value n (c ∷ s) =
    let more = digits_value (n * 10 + (c - b'0')) s in if is_digit c then more else n

saturate : ℕ → ℕ
saturate n = if ltb ulong_max n then ulong_max else n

-- A minus negates modulo 2 ^ 64, but for a number that was too large.
signed_value : List ℕ → ℕ
unfolding digits_value saturate
signed_value [] = 0
signed_value (c ∷ s) =
    if c == b'-'
    then (if ltb ulong_max (digits_value 0 s)
        then ulong_max
        else (2 ^ 64 - digits_value 0 s) % 2 ^ 64)
    else if c == b'+'
    then saturate (digits_value 0 s)
    else saturate (digits_value 0 (c ∷ s))

-- strtoul(s, NULL, 10)
unfoldable pub strtoul : List ℕ → ℕ
unfolding signed_value is_space
strtoul [] = 0
strtoul (c ∷ s) = let rest = strtoul s in if is_space c then rest else signed_value (c ∷ s)

-- The largest port so far, with one more name.
next_port : List ℕ → ℕ → ℕ
unfolding strtoul codes bytes_eq
next_port name found =
    let port = strtoul name in
    let is_dir = bytes_eq name (codes ".") || bytes_eq name (codes "..") in
    if not is_dir && ltb 0 port && leb port 65535 && ltb found port then port else found

-- The loop over the directory.
unfoldable pub max_port : List (List ℕ) → ℕ → ℕ
unfolding next_port
max_port [] found = found
max_port (name ∷ rest) found = max_port rest (next_port name found)

default_or : ℕ → ℕ
default_or port = if port == 0 then 7191 else port

-- InstanceRegistryGetLastPort with the names in the directory, if it has a name and opens.
unfoldable pub last_port : Option (List (List ℕ)) → ℕ
unfolding max_port default_or
last_port none = 7191
last_port (some names) = default_or (max_port names 0)
