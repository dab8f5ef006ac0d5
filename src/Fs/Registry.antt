-- ===== src/Fs/Registry.antt =====
-- source/fs/InstanceRegistry.c: the file that tells of a running instance. mpack's writer over a buffer
-- that does not grow is a parameter.
pub mod Ports
pub mod File
use haze.Base.{
  ℕ, zero, suc, ◌+◌, ◌-◌, ◌*◌, ◌%◌, ◌^◌, ◌≤◌, ◌≡◌, Option, none, some, List, [], ◌∷◌, ◌++◌, Bool,
  true, false, ltb, if◌then◌else◌, length, take, codes,
}
use haze.Memory.{M, pure, ◌>>=◌, ◌>>◌, alloc, free}
use haze.Buffer.{RawBuffer, new, free_buffer, data_of, len_of}
use haze.Audio.{name_blocks}
use haze.Audio.SampleList.{decimal_fuel}
use haze.Session.{Session, session_get_name}
use haze.Wire.Mpack.{Tag, str, uint, map}
use haze.Fs.{Joined, Paths, paths_instances, paths_get, bytes_of, held, join}

-- The calls of mpack_writer_t that InstanceRegistry.c makes, over a buffer of a size; `used` are the
-- bytes that mpack_writer_buffer_used counts.
pub record FixedWriter (W : Type 0) : Type 0 where
  pub init : ℕ → W
  pub start_map : ℕ → W → W
  pub write_cstr : List ℕ → W → W
  pub write_u64 : ℕ → W → W
  pub write_u16 : ℕ → W → W
  pub finish_map : W → W
  pub writer_failed : W → Bool
  pub used : W → List ℕ

-- Each call appends an encoding, and the writer is in error exactly if they did not fit.
pub record WritesFixed {W : Type 0} (wr : FixedWriter W) (enc : Tag → List ℕ) : Type 0 where
  pub output : W → List ℕ
  pub size : W → ℕ
  pub output_init : (n : ℕ) → output (wr.init n) ≡ []
  pub size_init : (n : ℕ) → size (wr.init n) ≡ n
  pub output_map : (n : ℕ) (w : W) → output (wr.start_map n w) ≡ output w ++ enc (map n)
  pub size_map : (n : ℕ) (w : W) → size (wr.start_map n w) ≡ size w
  pub output_cstr :
      (s : List ℕ) (w : W) → output (wr.write_cstr s w) ≡ output w ++ (enc (str (length s)) ++ s)
  pub size_cstr : (s : List ℕ) (w : W) → size (wr.write_cstr s w) ≡ size w
  pub output_u64 : (n : ℕ) (w : W) → output (wr.write_u64 n w) ≡ output w ++ enc (uint n)
  pub size_u64 : (n : ℕ) (w : W) → size (wr.write_u64 n w) ≡ size w
  pub output_u16 : (n : ℕ) (w : W) → output (wr.write_u16 n w) ≡ output w ++ enc (uint n)
  pub size_u16 : (n : ℕ) (w : W) → size (wr.write_u16 n w) ≡ size w
  pub output_finish : (w : W) → output (wr.finish_map w) ≡ output w
  pub size_finish : (w : W) → size (wr.finish_map w) ≡ size w
  pub failed_if_full : (w : W) → wr.writer_failed w ≡ ltb (size w) (length (output w))
  pub used_output : (w : W) → length (output w) ≤ size w → wr.used w ≡ output w

-- The struct InstanceReg: `created_at` is the bit pattern of an int, and the file is open or not.
pub record InstanceReg : Type 0 where
  pub pid : ℕ
  pub session_name : Option (List ℕ)
  pub port : ℕ
  pub created_at : ℕ
  pub path : Option Joined
  pub is_open : Bool

-- An int as a uint64_t: the sign is extended.
unfoldable pub extended : ℕ → ℕ
extended n = if ltb n (2 ^ 31) then n else n + 2 ^ 64 - 2 ^ 32

-- _InstanceRegistryWrite: a buffer or NULL, or a use of the null name.
pub data Written : Type 0 where
  written : Option RawBuffer → Written
  crashed : Written

-- What InstanceRegistryNew gives, with the bytes of the file.
pub data NewReg : Type 0 where
  made : InstanceReg → List ℕ → NewReg
  failed crashed : NewReg

or_nothing : Option (List ℕ) → List ℕ
or_nothing none = []
or_nothing (some bytes) = bytes

-- fwrite of the content.
with_content : InstanceReg → Written → M NewReg
unfolding free free_buffer data_of len_of or_nothing
with_content r crashed = pure crashed
with_content r (written none) = do free (name_blocks r.session_name); free 1; pure failed
with_content r (written (some b)) = do
  free_buffer (some b)
  pure (made (record r { is_open = true }) (take (len_of (some b)) (or_nothing (data_of (some b)))))

-- The parts before the NULL.
parts : Option Joined → List ℕ → List (List ℕ)
unfolding bytes_of
parts none port = []
parts (some dir) port = bytes_of dir ∷ port ∷ []

module _ {W : Type 0} (wr : FixedWriter W) where
  -- The calls of the writer.
  record_written : InstanceReg → List ℕ → W
  unfolding codes extended
  record_written r name =
      let head : W =
        wr.write_u64 r.pid (wr.write_cstr (codes "pid") (wr.start_map 4 (wr.init 255))) in
      let ports : W = wr.write_u16 r.port (wr.write_cstr (codes "port") head) in
      let names : W = wr.write_cstr name (wr.write_cstr (codes "session_name") ports) in
      wr.finish_map
        (wr.write_u64 (extended r.created_at) (wr.write_cstr (codes "created_at") names))

  copy_used : W → M Written
  unfolding new
  copy_used w =
      if wr.writer_failed w
      then pure (written none)
      else (do b ← new (some (wr.used w)) (length (wr.used w)); pure (written b))

  -- _InstanceRegistryWrite
  registry_write : InstanceReg → Option (List ℕ) → M Written
  unfolding record_written copy_used
  registry_write r none = pure crashed
  registry_write r (some name) = copy_used (record_written r name)

  -- fopen of the path, which may be null.
  with_path : (List ℕ → Bool) → InstanceReg → Option Joined → M NewReg
  unfolding with_content registry_write free bytes_of
  with_path opens r none = pure crashed
  with_path opens r (some p) =
      if opens (bytes_of p)
      then (do c ← registry_write r r.session_name; with_content r c)
      else (do free 1; pure failed)

  -- InstanceRegistryNew of a session that is there, where fopen of a path succeeds if `opens` says so.
  unfoldable pub new_registry :
      {S : Type 0} → (List ℕ → Bool) → ℕ → Session S → Paths → ℕ → M NewReg
  unfolding with_path parts decimal_fuel session_get_name
  new_registry opens pid s pt port = do
    ok ← alloc
    if ok
        then (do
          copied ← alloc
          path ← join (parts (paths_get pt paths_instances) (decimal_fuel port port))
          with_path opens
              (record {
                pid = pid;
                session_name = if copied then some (session_get_name (some s)) else none;
                port = port;
                created_at = s.created_at % 2 ^ 32;
                path = path;
                is_open = false;
              })
              path)
        else pure failed

-- The blocks of an InstanceReg, its name and its path.
abbrev pub reg_blocks : InstanceReg → ℕ
reg_blocks r = 1 + name_blocks r.session_name + held r.path

-- InstanceRegistryFree of one that is there.
unfoldable pub registry_free : InstanceReg → M (Unit {0})
unfolding free
registry_free r = free (reg_blocks r)

-- The results of InstanceRegistryRemove.
pub data Removal : Type 0 where
  removed deallocated close_failed remove_failed : Removal

-- remove of the path, if there is one.
path_removed : (List ℕ → Bool) → Option Joined → Removal
unfolding bytes_of
path_removed removes none = removed
path_removed removes (some p) = if removes (bytes_of p) then removed else remove_failed

-- InstanceRegistryRemove, where fclose and remove answer so.
unfoldable pub registry_remove :
    Bool → (List ℕ → Bool) → Option InstanceReg → Removal × Option InstanceReg
unfolding path_removed
registry_remove closes removes none = (deallocated, none)
registry_remove closes removes (some r) =
    if r.is_open
    then (if closes
        then (path_removed removes r.path, some (record r { is_open = false }))
        else (close_failed, some r))
    else (path_removed removes r.path, some r)
