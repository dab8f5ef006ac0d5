-- ===== src/Object/MapTable.antt =====
-- Object.c: the functions on ObjectMap and ObjectMapTable.
pub mod Laws
use haze.Base.{ℕ, suc, ◌+◌, ◌*◌, ◌%◌, Option, none, some, Bool, true, false, leb, if◌then◌else◌}
use haze.Memory.{M, pure, ◌>>=◌, ◌>>◌, alloc, realloc, free}
use haze.Object.{
  Value, Object, Pairs, ObjectMapTable, null_map, map_pair, map_table, object, no_pairs, pair,
  initial_capacity, size_mod,
}
use haze.Object.Copy.{copy, free_object}
use haze.Object.Equal.{equals}

abbrev pub count : Pairs → ℕ
count no_pairs = 0
count (pair k v rest) = suc (count rest)

abbrev pub snoc : Pairs → Object → Object → Pairs
snoc no_pairs k v = pair k v no_pairs
snoc (pair j w rest) k v = pair j w (snoc rest k v)

free_there : Option Object → M (Unit {0})
free_there none = pure tt
free_there (some o) = free_object o

-- The end of ObjectMapCreate: both copies are there, or what is there is given back.
paired : Option Object → Option Object → M (Option (Object × Object))
unfolding free_there free
paired (some k) (some v) = pure (some (k, v))
paired k v = free_there k >> free_there v >> free 1 >> pure none

-- ObjectMapCreate of a key and a value that are there.
unfoldable pub create_pair : Object → Object → M (Option (Object × Object))
unfolding paired
create_pair key value = do
  ok ← alloc
  if ok then (do k ← copy key; v ← copy value; paired k v) else pure none

-- ObjectMapFree
unfoldable pub free_pair : Object → Object → M (Unit {0})
unfolding free
free_pair k v = free_object k >> free_object v >> free 1

created : Bool → M (Option ObjectMapTable)
unfolding free
created true = pure (some (record { pairs = no_pairs; capacity = initial_capacity }))
created false = do free 1; pure none

-- ObjectMapTableCreate
unfoldable pub create_table : M (Option ObjectMapTable)
unfolding created
create_table = do ok ← alloc; if ok then (do inner ← alloc; created inner) else pure none

free_pairs : Pairs → M (Unit {0})
unfolding free_pair
free_pairs no_pairs = pure tt
free_pairs (pair k v rest) = free_pair k v >> free_pairs rest

-- ObjectMapTableFree
unfoldable pub free_table : ObjectMapTable → M (Unit {0})
unfolding free_pairs free
free_table t = free_pairs t.pairs >> free 2

-- The value of the first pair whose key equals `key`.
abbrev pub find : Pairs → Object → Option Object
find no_pairs key = none
find (pair k v rest) key = if equals k key then some v else find rest key

-- The value of the first pair whose key equals `key` becomes `value`.
abbrev pub replace : Pairs → Object → Object → Pairs
replace no_pairs key value = no_pairs
replace (pair k v rest) key value =
    if equals k key then pair k value rest else pair k v (replace rest key value)

-- The first pair whose key equals `key` is taken out, and the gap is closed.
abbrev pub without : Pairs → Object → Pairs
without no_pairs key = no_pairs
without (pair k v rest) key = if equals k key then rest else pair k v (without rest key)

-- ObjectMapTableSet where the key is there: a copy of the value takes the place of `old`.
update : ObjectMapTable → Object → Object → Option Object → M (Bool × ObjectMapTable)
update t key old none = pure (false, t)
update t key old (some new) =
    free_object old >> pure (true, record t { pairs = replace t.pairs key new })

-- The capacity test of ObjectMapTableSet.
unfoldable pub grow : ObjectMapTable → M (Bool × ObjectMapTable)
grow t =
    if leb t.capacity (count t.pairs)
    then (do
      ok ← realloc
      pure (ok, if ok then record t { capacity = t.capacity * 2 % size_mod } else t))
    else pure (true, t)

insert : ObjectMapTable → Option (Object × Object) → Bool × ObjectMapTable
insert t none = (false, t)
insert t (some (k, v)) = (true, record t { pairs = snoc t.pairs k v })

-- ObjectMapTableSet of a key and a value that are there.
set_found : ObjectMapTable → Object → Object → Option Object → M (Bool × ObjectMapTable)
unfolding update insert
set_found t key value (some old) = do new ← copy value; update t key old new
set_found t key value none = do
  (room, t') ← grow t
  if room then (do made ← create_pair key value; pure (insert t' made)) else pure (false, t')

unfoldable pub set_there : ObjectMapTable → Object → Object → M (Bool × ObjectMapTable)
unfolding set_found
set_there t key value = set_found t key value (find t.pairs key)

-- ObjectMapTableSet; null arguments are refused.
unfoldable pub set :
    Option ObjectMapTable → Option Object → Option Object → M (Bool × Option ObjectMapTable)
set (some t) (some key) (some value) = do (done, t') ← set_there t key value; pure (done, some t')
set t key value = pure (false, t)

-- ObjectMapTableGet
unfoldable pub get : Option ObjectMapTable → Option Object → Option Object
get (some t) (some key) = find t.pairs key
get t key = none

-- The key of the first pair whose key equals `key`, with its value.
abbrev pub find_pair : Pairs → Object → Option (Object × Object)
find_pair no_pairs key = none
find_pair (pair k v rest) key = if equals k key then some (k, v) else find_pair rest key

remove_found : ObjectMapTable → Object → Option (Object × Object) → M (Bool × Option ObjectMapTable)
remove_found t key none = pure (false, some t)
remove_found t key (some (k, v)) =
    free_pair k v >> pure (true, some (record t { pairs = without t.pairs key }))

-- ObjectMapTableRemove
unfoldable pub remove : Option ObjectMapTable → Option Object → M (Bool × Option ObjectMapTable)
unfolding remove_found
remove (some t) (some key) = remove_found t key (find_pair t.pairs key)
remove t key = pure (false, t)

-- ObjectMapTableLen
unfoldable pub len : Option ObjectMapTable → ℕ
len none = 0
len (some t) = count t.pairs

-- The loop of ObjectMapTableCopy.
copy_pairs : Pairs → ObjectMapTable → M (Option ObjectMapTable)
unfolding free_table
copy_pairs no_pairs dst = pure (some dst)
copy_pairs (pair k v rest) dst = do
  (done, dst') ← set_there dst k v
  if done then copy_pairs rest dst' else (do free_table dst'; pure none)

copy_to : Pairs → Option ObjectMapTable → M (Option ObjectMapTable)
copy_to pairs none = pure none
copy_to pairs (some dst) = copy_pairs pairs dst

-- ObjectMapTableCopy
unfoldable pub copy_table : ObjectMapTable → M (Option ObjectMapTable)
unfolding copy_pairs copy_to
copy_table t = do dst ← create_table; copy_to t.pairs dst

abbrev table_value : Option ObjectMapTable → Value
table_value none = null_map
table_value (some t) = map_table t.pairs t.capacity

-- ObjectMapTableToObject: the copy is not tested.
unfoldable pub table_to_object : ObjectMapTable → M (Option Object)
table_to_object t = do
  ok ← alloc
  if ok
      then (do c ← copy_table t; pure (some (object (table_value c) (count t.pairs))))
      else pure none

wrap_pair : Option (Object × Object) → M (Option Object)
unfolding free
wrap_pair none = do free 1; pure none
wrap_pair (some (k, v)) = pure (some (object (map_pair k v) 1))

-- ObjectMapToObject
unfoldable pub pair_to_object : Object → Object → M (Option Object)
unfolding wrap_pair
pair_to_object key value = do
  ok ← alloc
  if ok then (do c ← create_pair key value; wrap_pair c) else pure none
