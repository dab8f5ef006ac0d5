-- ===== src/Fs/Laws.antt =====
-- Bounds of joined paths and of ports, and the blocks of the paths.
use haze.Base.{
  ℕ, suc, ◌+◌, ◌≤◌, ◌<◌, ◌≡◌, refl, ◌⊎◌, Option, none, some, List, [], ◌∷◌, ◌++◌, Bool, true, false,
  leb, if◌then◌else◌, length, length-append, arith, inl, codes, bytes_eq,
}
use haze.Memory.{Heap, alloc, free, got, live-alloc, pure, ◌>>=◌}
use haze.Fs.{
  Joined, text, unterminated, join_from, join, ends_in_sep, Paths, path_blocks, paths_new,
  paths_free, with_home, with_base, directories, held, bytes_of, strtoul, next_port, max_port,
  last_port,
}

-- The bytes that PathsJoin has written, with the terminator if there is one.
abbrev pub written : Joined → ℕ
written (text s) = suc (length s)
written (unterminated s) = length s

join_from-bounded :
    (w : List ℕ) (parts : List (List ℕ)) → length w < 4095 → written (join_from w parts) ≤ 4095
unfolding join_from
join_from-bounded w [] h = omega arith
join_from-bounded w (c ∷ rest) h = ground (
  arith,
  join_from-bounded (w ++ c) rest,
  join_from-bounded (w ++ b'/' ∷ c) rest,
  length-append w c,
  length-append w (b'/' ∷ c),
  length-append w (b'/' ∷ []),
)

-- What PathsJoin writes stays within its buffer, whatever the components, with the terminator.
pub join_bounded : (parts : List (List ℕ)) → written (join_from [] parts) ≤ 4095
join_bounded parts = join_from-bounded [] parts (omega arith)

-- A name below a directory that is not empty and does not end in the separator is joined by it,
-- if all of it has fewer than 4095 bytes.
pub join_two :
    (dir name : List ℕ)
    → ends_in_sep dir ≡ false
    → length dir + 1 + length name < 4095
    → join_from [] (dir ∷ name ∷ []) ≡ text (dir ++ b'/' ∷ name)
unfolding join_from
join_two dir name e k = ground (arith)

-- A component that does not fit behind a separator leaves the string without a terminator.
pub join_unterminated :
    (dir name : List ℕ)
    → ends_in_sep dir ≡ false
    → length dir < 4095
    → 4095 ≤ length dir + 1 + length name
    → join_from [] (dir ∷ name ∷ []) ≡ unterminated (dir ++ b'/' ∷ [])
unfolding join_from
join_unterminated dir name e k l = ground (arith)

live-join :
    (parts : List (List ℕ)) (h : Heap) → (join parts h).1.live ≡ h.live + held (join parts h).0
unfolding join
live-join parts h = ground (arith, live-alloc h)

live-directories :
    (home base : List ℕ) (h : Heap)
    → (directories home base h).1.live + 2 ≡ h.live + path_blocks (directories home base h).0
unfolding directories
live-directories home base h = grind (arith, live-join)

abbrev pub discard : Option Paths × Heap → Heap
discard (none, h) = h
discard (some p, h) = (paths_free p h).1

-- The port that a name stands for, 0 for no port.
abbrev pub port_of : List ℕ → ℕ
port_of name =
    if bytes_eq name (codes ".")
    then 0
    else if bytes_eq name (codes "..")
    then 0
    else if leb (strtoul name) 65535
    then strtoul name
    else 0

abbrev pub Covers : List (List ℕ) → ℕ → Type 0
Covers [] p = Unit
Covers (name ∷ rest) p = (port_of name ≤ p) × Covers rest p

abbrev pub Stands : List (List ℕ) → ℕ → Type 0
Stands [] p = ⊥
Stands (name ∷ rest) p = (port_of name ≡ p) ⊎ Stands rest p

next_port_step :
    (name : List ℕ) (found : ℕ)
    → (found ≤ next_port name found)
      × (port_of name ≤ next_port name found)
      × ((next_port name found ≡ found)
          ⊎ ((0 < next_port name found) × (port_of name ≡ next_port name found)))
      × (found ≤ 65535 → next_port name found ≤ 65535)
unfolding next_port
next_port_step name found = ground (arith)

max_port_above : (names : List (List ℕ)) (found : ℕ) → found ≤ max_port names found
unfolding max_port
max_port_above [] found = omega arith
max_port_above (name ∷ rest) found =
    omega (arith, max_port_above rest (next_port name found), (next_port_step name found).0)

max_port-Covers : (names : List (List ℕ)) (found : ℕ) → Covers names (max_port names found)
unfolding max_port
max_port-Covers [] found = tt
max_port-Covers (name ∷ rest) found = (
  omega (arith, max_port_above rest (next_port name found), (next_port_step name found).1),
  max_port-Covers rest (next_port name found),
)

max_port-Stands :
    (names : List (List ℕ)) (found : ℕ)
    → (max_port names found ≡ found)
      ⊎ ((0 < max_port names found) × Stands names (max_port names found))
unfolding max_port
max_port-Stands [] found = inl refl
max_port-Stands (name ∷ rest) found = ground (
  arith,
  next_port_step name found,
  max_port_above rest (next_port name found),
  max_port-Stands rest (next_port name found),
)

max_port-bounded :
    (names : List (List ℕ)) (found : ℕ) → found ≤ 65535 → max_port names found ≤ 65535
unfolding max_port
max_port-bounded [] found h = h
max_port-bounded (name ∷ rest) found h =
    max_port-bounded rest (next_port name found) ((next_port_step name found).3 h)

Covers-mono : (names : List (List ℕ)) (p q : ℕ) → p ≤ q → Covers names p → Covers names q
Covers-mono [] p q h c = tt
Covers-mono (name ∷ rest) p q h (a, c) = (omega arith, Covers-mono rest p q h c)

-- With any opened directory the port is within 1 and 65535, no name's port is above it, and it is
-- the default or the port of a name.
pub last_port_lem :
    (names : List (List ℕ))
    → (0 < last_port (some names))
      × (last_port (some names) ≤ 65535)
      × Covers names (last_port (some names))
      × ((last_port (some names) ≡ 7191) ⊎ Stands names (last_port (some names)))
unfolding last_port
last_port_lem names = ground (
  arith,
  max_port-Covers names 0,
  max_port-Stands names 0,
  max_port-bounded names 0,
  Covers-mono names 0 7191 (omega arith),
)

live-with_base :
    (home : List ℕ) (b : Option Joined) (h : Heap)
    → 2 + held b ≤ h.live
    → (discard (with_base home b h)).live + 2 + held b ≡ h.live
unfolding with_base free paths_free
live-with_base home none h k = omega arith
live-with_base home (some b) h k = omega (arith, live-directories home (bytes_of b) h)

live-with_home :
    (home : List ℕ) (copied : Bool) (h : Heap)
    → (if copied then 2 else 1) ≤ h.live
    → (discard (with_home home copied h)).live + (if copied then 2 else 1) ≡ h.live
unfolding with_home
live-with_home home false h k = omega arith
live-with_home home true h k = omega (
  arith,
  live-with_base home (join (home ∷ codes "Haze" ∷ []) h).0 (join (home ∷ codes "Haze" ∷ []) h).1,
  live-join (home ∷ codes "Haze" ∷ []) h,
)

-- What PathsNew allocates is gone when PathsFree has freed the paths, and nothing is left when it fails.
pub paths_balanced :
    (home : Option (List ℕ)) (h : Heap) → (discard (paths_new home h)).live ≡ h.live
unfolding paths_new
paths_balanced none h = refl
paths_balanced (some home) h = allocated (alloc h).0 (alloc h).1 h.live (live-alloc h)
  where
    copied :
        (ok : Bool) (h : Heap) (n : ℕ)
        → h.live ≡ n + 1 + got ok
        → (discard (with_home home ok h)).live ≡ n
    copied false h n e = omega (arith, live-with_home home false h (omega (arith, e)), e)
    copied true h n e = omega (arith, live-with_home home true h (omega (arith, e)), e)

    allocated :
        (ok : Bool) (h : Heap) (n : ℕ)
        → h.live ≡ n + got ok
        → (discard ((if ok then (alloc >>= with_home home) else pure none) h)).live ≡ n
    allocated false h n e = omega (arith, e)
    allocated true h n e = copied (alloc h).0 (alloc h).1 n (omega (arith, live-alloc h, e))
