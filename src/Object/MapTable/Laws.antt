-- ===== src/Object/MapTable/Laws.antt =====
-- ObjectMapTable as a dictionary.
use haze.Base.{
  ◌+◌, ◌≡◌, refl, ap, sym, ◌∙◌, Option, none, some, Bool, true, false, arith, if◌then◌else◌,
  Bool-cases, Option-cases, inl, inr,
}
use haze.Memory.{Heap, IsAmple, alloc, alloc-IsAmple, realloc-IsAmple}
use haze.Object.{Object, Pairs, ObjectMapTable, no_pairs, pair}
use haze.Object.Copy.{copy}
use haze.Object.Copy.Content.{IsFull, Went, canonical, copy_faithful, copy-Total, copy-Same}
use haze.Object.Equal.{equals, equals-canonical, equals_euclidean, equals_comm}
use haze.Object.MapTable.{
  count, snoc, create_pair, find, find_pair, replace, without, grow, set, set_there, get, remove,
  len,
}

find-snoc :
    (p : Pairs) (k v key : Object)
    → find (snoc p k v) key
      ≡ (elim (find p key) [ some w ↦ some w | none ↦ if equals k key then some v else none ])
find-snoc no_pairs k v key = refl
find-snoc (pair j w rest) k v key = ground (arith, find-snoc rest k v key)

find-find_pair :
    (p : Pairs) (key : Object)
    → find p key ≡ (elim (find_pair p key) [ none ↦ none | some (k, v) ↦ some v ])
find-find_pair no_pairs key = refl
find-find_pair (pair k v rest) key = ground (arith, find-find_pair rest key)

count-snoc : (p : Pairs) (k v : Object) → count (snoc p k v) ≡ count p + 1
count-snoc no_pairs k v = refl
count-snoc (pair j w rest) k v = omega (arith, count-snoc rest k v)

-- A key that is found is equal to itself.
find_self : (p : Pairs) (key : Object) → equals key key ≡ false → find p key ≡ none
find_self no_pairs key h = refl
find_self (pair k v rest) key h = ground (arith, equals_euclidean k key key, find_self rest key)

-- Keys that are equal find the same value.
find_same : (p : Pairs) (key k : Object) → equals key k ≡ true → find p key ≡ find p k
find_same no_pairs key k h = refl
find_same (pair j v rest) key k h =
    ground
      (arith, find_same rest key k, equals_comm j key, equals_euclidean key k j, equals_comm k j)

find-replace :
    (p : Pairs) (key key' value old : Object)
    → equals key key ≡ true
    → find p key ≡ some old
    → find (replace p key value) key' ≡ (if equals key key' then some value else find p key')
find-replace no_pairs key key' value old self h = cc
find-replace (pair k v rest) key key' value old self h = elim (Bool-cases (equals k key)) [
  | inl e ↦ ground (arith, equals_euclidean k key key')
  | inr e ↦ ground (
    arith,
    find-replace rest key key' value old self,
    equals_euclidean k key' key,
    equals_euclidean key key' key,
  )
]

grow-Went : (t : ObjectMapTable) (h : Heap) → IsAmple h → Went (grow t h).0.0 (grow t h).1
unfolding grow
grow-Went t h e = ground (arith, realloc-IsAmple h)

grow_keeps : (t : ObjectMapTable) (h : Heap) → (grow t h).0.1.pairs ≡ t.pairs
unfolding grow
grow_keeps t h = ground arith

-- No key of the table is equal to a later one.
abbrev pub IsDistinct : Pairs → Type 0
IsDistinct no_pairs = Unit
IsDistinct (pair k v rest) = (find rest k ≡ none) × IsDistinct rest

abbrev after_set : Bool → Option Object → Option Object → Option Object
after_set true c old = c
after_set false c old = old

-- A copy of a key is compared like the key.
equals-copy : (c key k : Object) → canonical c ≡ canonical key → equals c k ≡ equals key k
equals-copy c key k e = sym (equals-canonical c k) ∙ ap (λ o. equals o k) e ∙ equals-canonical key k

create_pair_copies :
    (key value : Object) (h : Heap)
    → IsAmple h
    → IsFull key
    → IsFull value
    → (k : Object) × (v : Object) × ((create_pair key value h).0 ≡ some (k, v))
      × (canonical k ≡ canonical key)
      × (canonical v ≡ canonical value)
unfolding create_pair
create_pair_copies key value h e fk fv =
    let (k, copied, same) = copy_faithful key (alloc h).1 (alloc-IsAmple h e).1 fk in
    let ample : IsAmple (copy key (alloc h).1).1 =
      ground (arith, alloc-IsAmple h, copy-Total key (alloc h).1) in
    let (v, copied', same') = copy_faithful value (copy key (alloc h).1).1 ample fv in
    (k, v, ground (arith, alloc-IsAmple h), same, same')

-- With ample memory ObjectMapTableSet of a key that is equal to itself, of key and value without
-- null elements, makes the key, and each key equal to it, find a copy of the value; what other keys
-- find stays the same.
pub set_reads :
    (t : ObjectMapTable) (key value : Object) (h : Heap)
    → IsAmple h
    → IsFull key
    → IsFull value
    → equals key key ≡ true
    → (t' : ObjectMapTable) × (c : Object) × ((set (some t) (some key) (some value) h).0
        ≡ (true, some t'))
      × (canonical c ≡ canonical value)
      × ((k : Object)
          → get (some t') (some k) ≡ (if equals key k then some c else get (some t) (some k)))
unfolding set set_there get
set_reads t key value h e fk fv self = elim (Option-cases (find t.pairs key)) [
  | inr (old, found) ↦
      let (c, copied, same) = copy_faithful value h e fv in
      (
        record t { pairs = replace t.pairs key c },
        c,
        ground arith,
        same,
        λ k. find-replace t.pairs key k c old self found,
      )
  | inl missing ↦
      let room = grow-Went t h e in
      let (j, c, made, samek, same) =
        create_pair_copies key value (grow t h).1 (ground (arith, grow-Went t h)) fk fv in
      (
        record (grow t h).0.1 { pairs = snoc t.pairs j c },
        c,
        ground (arith, grow-Went t h, grow_keeps t h),
        same,
        λ k.
            ground
              (arith, find-snoc t.pairs j c k, equals-copy j key k samek, find_same t.pairs key k),
      )
]

Distinct-snoc :
    (p : Pairs) (k v : Object) → find p k ≡ none → IsDistinct p → IsDistinct (snoc p k v)
Distinct-snoc no_pairs k v h d = (refl, tt)
Distinct-snoc (pair j w rest) k v h d = (
  ground (arith, find-snoc rest k v j, equals_comm j k),
  Distinct-snoc rest k v (ground arith) d.1,
)

find-replace-none :
    (p : Pairs) (key value k : Object) → find p k ≡ none → find (replace p key value) k ≡ none
find-replace-none no_pairs key value k h = refl
find-replace-none (pair j w rest) key value k h = ground (arith, find-replace-none rest key value k)

Distinct-replace :
    (p : Pairs) (key value : Object) → IsDistinct p → IsDistinct (replace p key value)
Distinct-replace no_pairs key value d = tt
Distinct-replace (pair j w rest) key value d = elim (Bool-cases (equals j key)) [
  | inl e ↦ rw e d
  | inr e ↦ rw e (find-replace-none rest key value j d.0, Distinct-replace rest key value d.1)
]

find-without-none : (p : Pairs) (key k : Object) → find p k ≡ none → find (without p key) k ≡ none
find-without-none no_pairs key k h = refl
find-without-none (pair j w rest) key k h = ground (arith, find-without-none rest key k)

Distinct-without : (p : Pairs) (key : Object) → IsDistinct p → IsDistinct (without p key)
Distinct-without no_pairs key d = tt
Distinct-without (pair j w rest) key d = elim (Bool-cases (equals j key)) [
  | inl e ↦ rw e d.1
  | inr e ↦ rw e (find-without-none rest key j d.0, Distinct-without rest key d.1)
]

find-without :
    (p : Pairs) (key k : Object)
    → IsDistinct p
    → find (without p key) k ≡ (if equals key k then none else find p k)
find-without no_pairs key k d = ground arith
find-without (pair j w rest) key k d = elim (Bool-cases (equals j key)) [
  | inl e ↦ ground (arith, equals_euclidean j key k, find_same rest j k)
  | inr e ↦ ground (
    arith,
    find-without rest key k d.1,
    equals_comm j k,
    equals_comm key k,
    equals_euclidean k key j,
    equals_comm key j,
  )
]

create_pair_key :
    (key value k v : Object) (h : Heap)
    → (create_pair key value h).0 ≡ some (k, v)
    → canonical k ≡ canonical key
unfolding create_pair
create_pair_key key value k v h e = elim (Option-cases (copy key (alloc h).1).0) [
  | inl f ↦ ground arith
  | inr (c, f) ↦ elim (Option-cases (copy value (copy key (alloc h).1).1).0) [
    | inl g ↦ ground arith
    | inr (w, g) ↦ ground (arith, copy-Same key (alloc h).1)
  ]
]

-- Without a condition on the keys, of which those that are not equal to themselves may be repeated.
set-kept :
    (t : ObjectMapTable) (key value : Object) (h : Heap)
    → IsDistinct t.pairs
    → IsDistinct (set_there t key value h).0.1.pairs
unfolding set_there
set-kept t key value h d = elim (Option-cases (find t.pairs key)) [
  | inr (old, found) ↦ elim (Option-cases (copy value h).0) [
    | inl e ↦ rw found (rw e d)
    | inr (c, e) ↦ rw found (rw e (Distinct-replace t.pairs key c d))
  ]
  | inl missing ↦ elim (Option-cases (create_pair key value (grow t h).1).0) [
    | inl e ↦ elim (Bool-cases (grow t h).0.0) [
      | inr f ↦ rw (missing, f, grow_keeps t h) d
      | inl f ↦ rw (missing, f, e, grow_keeps t h) d
    ]
    | inr ((k, v), e) ↦
        let same = create_pair_key key value k v (grow t h).1 e in
        let fresh : find t.pairs k ≡ none = ground (
          arith,
          equals-copy k key key same,
          equals-copy k key k same,
          find_same t.pairs key k,
          find_self t.pairs k,
        ) in
        elim (Bool-cases (grow t h).0.0) [
          | inr f ↦ rw (missing, f, grow_keeps t h) d
          | inl f ↦ rw (missing, f, e, grow_keeps t h) (Distinct-snoc t.pairs k v fresh d)
        ]
  ]
]

-- Every key of the table is ObjectEqual to itself, which a nil, a bin, an array, a map and a NaN are
-- not.
abbrev pub AreSelfEqual : Pairs → Type 0
AreSelfEqual no_pairs = Unit
AreSelfEqual (pair k v rest) = (equals k k ≡ true) × AreSelfEqual rest

SelfEqual-snoc :
    (p : Pairs) (k v : Object) → equals k k ≡ true → AreSelfEqual p → AreSelfEqual (snoc p k v)
SelfEqual-snoc no_pairs k v e d = (e, tt)
SelfEqual-snoc (pair j w rest) k v e d = (d.0, SelfEqual-snoc rest k v e d.1)

SelfEqual-replace :
    (p : Pairs) (key value : Object) → AreSelfEqual p → AreSelfEqual (replace p key value)
SelfEqual-replace no_pairs key value d = tt
SelfEqual-replace (pair j w rest) key value d = elim (Bool-cases (equals j key)) [
  | inl e ↦ rw e d
  | inr e ↦ rw e (d.0, SelfEqual-replace rest key value d.1)
]

set-AreSelfEqual :
    (t : ObjectMapTable) (key value : Object) (h : Heap)
    → equals key key ≡ true
    → AreSelfEqual t.pairs
    → AreSelfEqual (set_there t key value h).0.1.pairs
unfolding set_there
set-AreSelfEqual t key value h self d = elim (Option-cases (find t.pairs key)) [
  | inr (old, found) ↦ elim (Option-cases (copy value h).0) [
    | inl e ↦ rw found (rw e d)
    | inr (c, e) ↦ rw found (rw e (SelfEqual-replace t.pairs key c d))
  ]
  | inl missing ↦ elim (Option-cases (create_pair key value (grow t h).1).0) [
    | inl e ↦ elim (Bool-cases (grow t h).0.0) [
      | inr f ↦ rw (missing, f, grow_keeps t h) d
      | inl f ↦ rw (missing, f, e, grow_keeps t h) d
    ]
    | inr ((k, v), e) ↦
        let same = create_pair_key key value k v (grow t h).1 e in
        let own : equals k k ≡ true =
          ground (arith, equals-copy k key key same, equals-copy k key k same, equals_comm k key) in
        elim (Bool-cases (grow t h).0.0) [
          | inr f ↦ rw (missing, f, grow_keeps t h) d
          | inl f ↦ rw (missing, f, e, grow_keeps t h) (SelfEqual-snoc t.pairs k v own d)
        ]
  ]
]

-- ObjectMapTableSet keeps the keys distinct, whatever the allocator answers: of a table each key of
-- which is ObjectEqual to itself and to no later one, and with a key that is ObjectEqual to itself,
-- it leaves a table of which the same holds.
pub set-IsDistinct :
    (t : ObjectMapTable) (key value : Object) (h : Heap)
    → equals key key ≡ true
    → AreSelfEqual t.pairs
    → IsDistinct t.pairs
    → AreSelfEqual (set_there t key value h).0.1.pairs
      × IsDistinct (set_there t key value h).0.1.pairs
set-IsDistinct t key value h self all d =
    (set-AreSelfEqual t key value h self all, set-kept t key value h d)

-- ObjectMapTableRemove of a key that is found, in a table with distinct keys, returns true; then the
-- key and each key equal to it find nothing, what other keys find stays the same, and the keys are
-- distinct still.
pub remove_forgets :
    (t : ObjectMapTable) (key value : Object) (h : Heap)
    → IsDistinct t.pairs
    → get (some t) (some key) ≡ some value
    → (t' : ObjectMapTable) × ((remove (some t) (some key) h).0 ≡ (true, some t'))
      × IsDistinct t'.pairs
      × ((k : Object)
          → get (some t') (some k) ≡ (if equals key k then none else get (some t) (some k)))
unfolding remove get
remove_forgets t key value h d e = (
  record t { pairs = without t.pairs key },
  ground (arith, find-find_pair t.pairs key),
  Distinct-without t.pairs key d,
  λ k. find-without t.pairs key k d,
)

-- A key that is not equal to itself, a nil, a bin, an array, a map or a NaN, is never found; with
-- ample memory every ObjectMapTableSet of it adds one more pair.
pub set_unfindable :
    (t : ObjectMapTable) (key value : Object) (h : Heap)
    → IsAmple h
    → IsFull key
    → IsFull value
    → equals key key ≡ false
    → (t' : ObjectMapTable) × ((set (some t) (some key) (some value) h).0 ≡ (true, some t'))
      × (len (some t') ≡ len (some t) + 1)
      × (get (some t') (some key) ≡ none)
unfolding set set_there get len
set_unfindable t key value h e fk fv self =
    let missing = find_self t.pairs key self in
    let (j, c, made, samek, same) =
      create_pair_copies key value (grow t h).1 (ground (arith, grow-Went t h)) fk fv in
    (
      record (grow t h).0.1 { pairs = snoc t.pairs j c },
      ground (arith, grow-Went t h, grow_keeps t h),
      count-snoc t.pairs j c,
      find_self (snoc t.pairs j c) key self,
    )
