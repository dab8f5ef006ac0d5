-- ===== src/Fs/Registry/File.antt =====
-- source/fs/InstanceRegistry.c: the bytes of an instance's file, and its blocks.
use haze.Base.{
  ℕ, suc, ◌+◌, ◌%◌, ◌^◌, ◌≤◌, ◌≡◌, refl, ap, ◌∙◌, Option, none, some, List, [], ◌∷◌, ◌++◌,
  append_assoc, Bool, true, false, ltb, leb, if◌then◌else◌, length, take, take-length, arith,
  Bool-cases, inl, inr, codes,
}
use haze.Memory.{Heap, IsAmple, alloc, free, live-alloc, alloc-IsAmple}
use haze.Buffer.{RawBuffer, new, free_buffer, data_of, len_of}
use haze.Buffer.Ledger.{owned, live-new}
use haze.Audio.SampleList.{decimal_fuel}
use haze.Session.{Session, session_get_name}
use haze.Wire.Mpack.{Tag, str, uint, map}
use haze.Fs.{Joined, Paths, paths_instances, paths_get, bytes_of, held, join, join_from}
use haze.Fs.Registry
use haze.Fs.Registry.{
  FixedWriter, WritesFixed, InstanceReg, extended, Written, written, NewReg, made, failed,
  record_written, copy_used, registry_write, with_content, with_path, parts, new_registry,
  reg_blocks, registry_free, or_nothing,
}

module _ (enc : Tag → List ℕ) where
  -- A string with its length before it.
  text_bytes : List ℕ → List ℕ
  text_bytes s = enc (str (length s)) ++ s

  -- A map of four entries.
  unfoldable pub reg_bytes : InstanceReg → List ℕ → List ℕ
  unfolding text_bytes codes extended
  reg_bytes r name =
      enc (map 4)
      ++ text_bytes (codes "pid")
      ++ enc (uint r.pid)
      ++ text_bytes (codes "port")
      ++ enc (uint r.port)
      ++ text_bytes (codes "session_name")
      ++ text_bytes name
      ++ text_bytes (codes "created_at")
      ++ enc (uint (extended r.created_at))

-- The file that is written, or the refusal of what does not fit.
abbrev pub content_of : InstanceReg → List ℕ → NewReg
content_of r bytes =
    if leb (length bytes) 255 then made (record r { is_open = true }) bytes else failed

-- The buffer that RawBufferNew makes with ample memory holds the bytes.
new_buffer :
    (bytes : List ℕ) (h : Heap)
    → IsAmple h
    → (b : RawBuffer) × ((new (some bytes) (length bytes) h).0 ≡ some b)
      × (take (len_of (some b)) (or_nothing (data_of (some b))) ≡ bytes)
unfolding new data_of len_of or_nothing
new_buffer [] h e = (record { bytes = none; len = 0 }, rw (alloc-IsAmple h e).0 (refl), refl)
new_buffer (x ∷ bytes) h e =
    let (one, ample) = alloc-IsAmple h e in
    (
      record { bytes = some (x ∷ take (length bytes) bytes); len = suc (length bytes) },
      rw (one, (alloc-IsAmple (alloc h).1 ample).0) (refl),
      rw (take-length bytes, take-length bytes) (refl),
    )

module _ {W : Type 0} (wr : FixedWriter W) (enc : Tag → List ℕ) (law : WritesFixed wr enc) where
  open law use {
    output, size, output_init, size_init, output_map, size_map, output_cstr, size_cstr, output_u64,
    size_u64, output_u16, size_u16, output_finish, size_finish, failed_if_full, used_output,
  }

  output-record :
      (r : InstanceReg) (name : List ℕ) → output (record_written wr r name) ≡ reg_bytes enc r name
  unfolding record_written reg_bytes
  output-record r name =
      simp
        (output_init, output_map, output_cstr, output_u64, output_u16, output_finish, append_assoc)

  size-record : (r : InstanceReg) (name : List ℕ) → size (record_written wr r name) ≡ 255
  unfolding record_written
  size-record r name = simp (size_init, size_map, size_cstr, size_u64, size_u16, size_finish)

  content_written :
      (r : InstanceReg) (name : List ℕ) (h : Heap)
      → IsAmple h
      → (let c = copy_used wr (record_written wr r name) h in with_content r c.0 c.1).0
        ≡ content_of r (reg_bytes enc r name)
  unfolding copy_used with_content
  content_written r name h e = elim (Bool-cases (leb (length (reg_bytes enc r name)) 255)) [
    | inl k ↦
        let (b, there, read) = new_buffer (reg_bytes enc r name) h e in
        rw (fits_not k, used k, there) (rw (read, k) (refl))
    | inr k ↦ rw (full k, k) (refl)
  ]
    where
      w : W
      w = record_written wr r name

      fits : wr.writer_failed w ≡ ltb 255 (length (reg_bytes enc r name))
      fits = rw (failed_if_full w, size-record r name, output-record r name) (refl)

      fits_not : leb (length (reg_bytes enc r name)) 255 ≡ true → wr.writer_failed w ≡ false
      fits_not k = fits ∙ ground (arith, k)

      full : leb (length (reg_bytes enc r name)) 255 ≡ false → wr.writer_failed w ≡ true
      full k = fits ∙ ground (arith, k)

      used : leb (length (reg_bytes enc r name)) 255 ≡ true → wr.used w ≡ reg_bytes enc r name
      used k =
          used_output w (rw (size-record r name, output-record r name) (ground (arith, k)))
          ∙ output-record r name

  -- InstanceRegistryNew where no allocation fails, the path opens and the directory of instances is
  -- known: a file with the MessagePack map of the instance, if the map takes at most 255 bytes, and
  -- NULL if it takes more.
  pub new_registry_writes :
      {S : Type 0} (opens : List ℕ → Bool) (pid : ℕ) (s : Session S) (pt : Paths) (port : ℕ)
      (h : Heap) (dir : Joined)
      → IsAmple h
      → ((path : List ℕ) → opens path ≡ true)
      → paths_get pt paths_instances ≡ some dir
      → let r : InstanceReg = record {
        pid = pid;
        session_name = some (session_get_name (some s));
        port = port;
        created_at = s.created_at % 2 ^ 32;
        path = some (join_from [] (bytes_of dir ∷ decimal_fuel port port ∷ []));
        is_open = false;
      } in
        (new_registry wr opens pid s pt port h).0
        ≡ content_of r (reg_bytes enc r (session_get_name (some s)))
  unfolding new_registry with_path registry_write parts join
  new_registry_writes opens pid s pt port h dir e o d =
      let (one, ample) = alloc-IsAmple h e in
      let (two, ample') = alloc-IsAmple (alloc h).1 ample in
      let (three, ample'') = alloc-IsAmple (alloc (alloc h).1).1 ample' in
      rw
        (
          one,
          two,
          three,
          d,
          o (bytes_of (join_from [] (bytes_of dir ∷ decimal_fuel port port ∷ []))),
        )
        (content_written _ (session_get_name (some s)) _ ample'')

-- What a result of InstanceRegistryNew holds more than before.
abbrev pub Accounted : NewReg → ℕ → ℕ → Type 0
Accounted (made r file) before after = after ≡ before + reg_blocks r
Accounted failed before after = (before ≤ after) × (after ≤ before + 2)
Accounted Registry.crashed before after = Unit

module _ {W : Type 0} (wr : FixedWriter W) where
  with_content-Accounted :
      (r : InstanceReg) (o : Option RawBuffer) (before : ℕ) (h : Heap)
      → before + owned o + reg_blocks r ≡ h.live
      → let t = with_content r (written o) h in Accounted t.0 before t.1.live
  unfolding with_content free_buffer free
  with_content-Accounted r none before h k = ground arith
  with_content-Accounted r (some b) before h k = ground arith

  registry_write-Accounted :
      (r : InstanceReg) (o : Option (List ℕ)) (before : ℕ) (h : Heap)
      → before + reg_blocks r ≡ h.live
      → let c = registry_write wr r o h in
        let t = with_content r c.0 c.1 in Accounted t.0 before t.1.live
  unfolding registry_write copy_used with_content
  registry_write-Accounted r none before h k = tt
  registry_write-Accounted r (some name) before h k =
      let w : W = record_written wr r name in
      elim (Bool-cases (wr.writer_failed w)) [
        | inl e ↦ rw e (with_content-Accounted r none before h (omega arith))
        | inr e ↦
            let b = new (some (wr.used w)) (length (wr.used w)) h in
            rw e (
              with_content-Accounted r b.0 before b.1
                (omega (arith, live-new (some (wr.used w)) (length (wr.used w)) h)))
      ]

  with_path-Accounted :
      (opens : List ℕ → Bool) (r : InstanceReg) (before : ℕ) (h : Heap)
      → before + reg_blocks r ≡ h.live
      → let t = with_path wr opens r r.path h in Accounted t.0 before t.1.live
  unfolding with_path free
  with_path-Accounted opens r before h k = go r.path refl
    where
      go :
          (o : Option Joined)
          → o ≡ r.path
          → let t = with_path wr opens r o h in Accounted t.0 before t.1.live
      go none e = tt
      go (some p) e = elim (Bool-cases (opens (bytes_of p))) [
        | inl t ↦ rw t (registry_write-Accounted r r.session_name before h k)
        | inr t ↦ rw t (ground (arith, ap held e))
      ]

  live-join :
      (names : List (List ℕ)) (h : Heap) → (join names h).1.live ≡ h.live + held (join names h).0
  unfolding join
  live-join names h = ground (arith, live-alloc h)

  -- Whatever the allocator and the file system answer, and unless InstanceRegistryNew uses a null
  -- pointer, of which nothing is said: memory gains what InstanceRegistryFree gives back of the
  -- InstanceReg that is made, and with NULL no block is given back that was there before and at most
  -- two are lost.
  pub new_registry-Accounted :
      {S : Type 0} (opens : List ℕ → Bool) (pid : ℕ) (s : Session S) (pt : Paths) (port : ℕ)
      (h : Heap)
      → let t = new_registry wr opens pid s pt port h in Accounted t.0 h.live t.1.live
  unfolding new_registry
  new_registry-Accounted opens pid s pt port h = elim (Bool-cases (alloc h).0) [
    | inr e ↦ rw e (ground (arith, live-alloc h))
    | inl e ↦
        let h' : Heap = (alloc h).1 in
        let names : List (List ℕ) = parts (paths_get pt paths_instances) (decimal_fuel port port) in
        let r : InstanceReg = record {
          pid = pid;
          session_name = if (alloc h').0 then some (session_get_name (some s)) else none;
          port = port;
          created_at = s.created_at % 2 ^ 32;
          path = (join names (alloc h').1).0;
          is_open = false;
        } in
        rw e (
          with_path-Accounted opens r h.live (join names (alloc h').1).1
            (ground (arith, live-alloc h, live-alloc h', live-join names (alloc h').1)))
  ]
