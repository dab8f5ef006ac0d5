-- ===== src/Tests/Objects.antt =====
-- Tests of buffers, objects, arrays and tables.
use haze.Base.{bytes_eq, ◌≡◌, refl, [], ◌∷◌, none, some, true, false, if◌then◌else◌}
use haze.Memory.{Heap, planned, alloc}
use haze.Buffer
use haze.Buffer.{RawBuffer, faults}
use haze.Buffer.Ledger.{append_faults}
use haze.Object.{Object, ObjectMapTable, object, array, bin, no_pairs, pair, nil}
use haze.Object.Copy.{copy}
use haze.Object.Copy.Content.{canonical, copy_faithful}
use haze.Object.Copy.Ledger.{discard, leaks, copy_balanced}
use haze.Object.Equal.{equals}
use haze.Object.MapTable
use haze.Object.MapTable.Laws.{IsDistinct, AreSelfEqual, set_reads, set-IsDistinct, remove_forgets}
use haze.Tests.{ample, text, kick, seven, two_slots}

abbrev nested : Object
nested = object (array two_slots 8) 0

copy_faithful_example :
    (c : Object) × ((copy nested ample).0 ≡ some c) × (canonical c ≡ canonical nested)
copy_faithful_example = copy_faithful nested ample refl (tt, (tt, tt))

-- The third allocation fails.
abbrev scarce : Heap
scarce = record { plan = planned (true ∷ true ∷ false ∷ []); live = 10 }

nested-leaks : leaks nested ≡ 0
nested-leaks = refl

copy_balanced_example : (discard (copy nested scarce)).live ≡ 10
copy_balanced_example = copy_balanced nested scarce nested-leaks

abbrev buffer : RawBuffer
buffer = record { bytes = some text; len = 4 }

abbrev blob : Object
blob = object (bin (some buffer)) 4

blob_copied : (copy blob ample).0 ≡ some blob
unfolding copy Buffer.dup alloc
blob_copied = refl

buffer_copied : (Buffer.dup buffer ample).0 ≡ some buffer
unfolding Buffer.dup alloc
buffer_copied = refl

append_faults_example : (Buffer.append buffer text 4 [] ample).0 ≡ faults
append_faults_example = append_faults buffer text text [] 3 ample refl refl

kick-equals : equals kick kick ≡ true
unfolding equals bytes_eq
kick-equals = refl

abbrev table : ObjectMapTable
table = record { pairs = pair kick seven no_pairs; capacity = 8 }

set_reads_example :
    (t' : ObjectMapTable) × (c : Object) × ((MapTable.set
        (some table)
        (some kick)
        (some nested)
        ample).0
      ≡ (true, some t'))
    × (canonical c ≡ canonical nested)
    × ((k : Object)
        → MapTable.get (some t') (some k)
          ≡ (if equals kick k then some c else MapTable.get (some table) (some k)))
set_reads_example = set_reads table kick nested ample refl tt (tt, (tt, tt)) kick-equals

table-IsDistinct : IsDistinct table.pairs
table-IsDistinct = (refl, tt)

self_equal : equals kick kick ≡ true
unfolding equals bytes_eq
self_equal = refl

seven_self_equal : equals seven seven ≡ true
unfolding equals
seven_self_equal = refl

set-IsDistinct_example :
    AreSelfEqual (MapTable.set_there table seven kick ample).0.1.pairs
    × IsDistinct (MapTable.set_there table seven kick ample).0.1.pairs
set-IsDistinct_example =
    set-IsDistinct table seven kick ample seven_self_equal (self_equal, tt) table-IsDistinct

found_seven : MapTable.get (some table) (some kick) ≡ some seven
unfolding MapTable.get equals bytes_eq
found_seven = refl

remove_forgets_example :
    (t' : ObjectMapTable) × ((MapTable.remove (some table) (some kick) ample).0 ≡ (true, some t'))
    × IsDistinct t'.pairs
    × ((k : Object)
        → MapTable.get (some t') (some k)
          ≡ (if equals kick k then none else MapTable.get (some table) (some k)))
remove_forgets_example = remove_forgets table kick seven ample table-IsDistinct found_seven

abbrev nothing : Object
nothing = object nil 0

nothing-equals : equals nothing nothing ≡ false
unfolding equals
nothing-equals = refl
