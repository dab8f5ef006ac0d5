-- ===== src/Tests/Codec.antt =====
-- A writer and a reader of lists of numbers, in which a number of a tag takes one place; they have
-- the properties that the model asks of mpack's.
use haze.Base.{
  ℕ, ◌≡◌, ◌<◌, refl, arith, List, [], ◌∷◌, ◌++◌, Option, none, some, Bool, true, false, length,
  take, drop, take-append, drop-append, length-append, ℤ, pos, negsuc, leb, ◌==◌, if◌then◌else◌,
}
use haze.Wire.Mpack.{Tag, Writer, Writes, Reader, Reads, int_tag}

encode_int : ℤ → List ℕ
encode_int (pos n) = 208 ∷ n ∷ []
encode_int (negsuc n) = 211 ∷ n ∷ []

unfoldable pub encode : Tag → List ℕ
unfolding encode_int
encode Tag.missing = 193 ∷ []
encode Tag.nil = 192 ∷ []
encode Tag.ext = 199 ∷ []
encode (Tag.bool false) = 194 ∷ []
encode (Tag.bool true) = 195 ∷ []
encode (Tag.int z) = encode_int z
encode (Tag.uint n) = 207 ∷ n ∷ []
encode (Tag.float x) = 202 ∷ x ∷ []
encode (Tag.double x) = 203 ∷ x ∷ []
encode (Tag.str n) = 219 ∷ n ∷ []
encode (Tag.bin n) = 198 ∷ n ∷ []
encode (Tag.array n) = 221 ∷ n ∷ []
encode (Tag.map n) = 223 ∷ n ∷ []

abbrev pub list_writer : Writer (List ℕ)
list_writer = record {
  start = [];
  write_nil = λ w. w ++ encode Tag.nil;
  write_bool = λ b w. w ++ encode (Tag.bool b);
  write_int = λ z w. w ++ encode (int_tag z);
  write_uint = λ n w. w ++ encode (Tag.uint n);
  write_float = λ x w. w ++ encode (Tag.float x);
  write_double = λ x w. w ++ encode (Tag.double x);
  write_str = λ s w. w ++ (encode (Tag.str (length s)) ++ s);
  write_cstr = λ s n w. let t = take n (s ++ 0 ∷ []) in w ++ (encode (Tag.str (length t)) ++ t);
  write_bin = λ s w. w ++ (encode (Tag.bin (length s)) ++ s);
  start_array = λ n w. w ++ encode (Tag.array n);
  finish_array = λ w. w;
  writer_failed = λ w. false;
  destroy = λ w. some w;
}

pub encode_nonempty : (t : Tag) → 0 < length (encode t)
unfolding encode
encode_nonempty (Tag.bool false) = omega arith
encode_nonempty (Tag.bool true) = omega arith
encode_nonempty (Tag.int (pos n)) = omega arith
encode_nonempty (Tag.int (negsuc n)) = omega arith
encode_nonempty _ = omega arith

unfoldable pub list_writer-Writes : Writes list_writer encode
list_writer-Writes = record {
  output = λ w. w;
  output_start = refl;
  output_nil = λ w. refl;
  output_bool = λ b w. refl;
  output_int = λ z w. refl;
  output_uint = λ n w. refl;
  output_float = λ x w. refl;
  output_double = λ x w. refl;
  output_str = λ s w. refl;
  output_cstr = λ s n w inside. refl;
  output_bin = λ s w. refl;
  output_array = λ n w. refl;
  output_finish = λ w. refl;
  no_failure = λ w. refl;
  tag_nonempty = encode_nonempty;
  output_destroy = λ w. refl;
}

abbrev tag_of : ℕ → ℕ → Tag
tag_of c n =
    if c == 207
    then Tag.uint n
    else if c == 208
    then Tag.int (pos n)
    else if c == 211
    then Tag.int (negsuc n)
    else if c == 202
    then Tag.float n
    else if c == 203
    then Tag.double n
    else if c == 219
    then Tag.str n
    else if c == 198
    then Tag.bin n
    else if c == 221
    then Tag.array n
    else Tag.map n

abbrev numbered_tag : ℕ → List ℕ → Tag × Option (List ℕ)
numbered_tag c [] = (Tag.missing, none)
numbered_tag c (n ∷ rest) = (tag_of c n, some rest)

abbrev next_tag : List ℕ → Tag × Option (List ℕ)
next_tag [] = (Tag.missing, none)
next_tag (c ∷ rest) =
    if c == 192
    then (Tag.nil, some rest)
    else if c == 193
    then (Tag.missing, some rest)
    else if c == 194
    then (Tag.bool false, some rest)
    else if c == 195
    then (Tag.bool true, some rest)
    else if c == 199
    then (Tag.ext, some rest)
    else numbered_tag c rest

abbrev pub read_next : Option (List ℕ) → Tag × Option (List ℕ)
read_next none = (Tag.missing, none)
read_next (some bytes) = next_tag bytes

abbrev pub read_inplace : ℕ → Option (List ℕ) → Option (List ℕ) × Option (List ℕ)
read_inplace n none = (none, none)
read_inplace n (some bytes) =
    if leb n (length bytes) then (some (take n bytes), some (drop n bytes)) else (none, none)

abbrev or_zeros : Option (List ℕ) → List ℕ
or_zeros none = []
or_zeros (some bytes) = bytes

abbrev left_of : Option (List ℕ) → ℕ
left_of none = 0
left_of (some bytes) = length bytes

abbrev is_none : Option (List ℕ) → Bool
is_none none = true
is_none (some bytes) = false

abbrev pub list_reader : Reader (Option (List ℕ))
list_reader = record {
  init_data = λ bytes. some bytes;
  read_tag = read_next;
  read_bytes = λ n r. (or_zeros (read_inplace n r).0, (read_inplace n r).1);
  read_bytes_inplace = read_inplace;
  done_str = λ r. r;
  done_bin = λ r. r;
  done_array = λ r. r;
  remaining = left_of;
  reader_failed = is_none;
}

pub next_tag-encode : (t : Tag) (rest : List ℕ) → next_tag (encode t ++ rest) ≡ (t, some rest)
unfolding encode
next_tag-encode (Tag.bool false) rest = refl
next_tag-encode (Tag.bool true) rest = refl
next_tag-encode (Tag.int (pos n)) rest = refl
next_tag-encode (Tag.int (negsuc n)) rest = refl
next_tag-encode Tag.missing rest = refl
next_tag-encode Tag.nil rest = refl
next_tag-encode Tag.ext rest = refl
next_tag-encode (Tag.uint n) rest = refl
next_tag-encode (Tag.float n) rest = refl
next_tag-encode (Tag.double n) rest = refl
next_tag-encode (Tag.str n) rest = refl
next_tag-encode (Tag.bin n) rest = refl
next_tag-encode (Tag.array n) rest = refl
next_tag-encode (Tag.map n) rest = refl

pub read_inplace-append :
    (bytes rest : List ℕ)
    → read_inplace (length bytes) (some (bytes ++ rest)) ≡ (some bytes, some rest)
read_inplace-append bytes rest =
    ground (arith, length-append bytes rest, take-append bytes rest, drop-append bytes rest)

unfoldable pub list_reader-Reads : Reads list_reader encode
list_reader-Reads = record {
  input = λ r. r;
  input_init = λ bytes. refl;
  tag_there = λ r t rest e. rw (e, next_tag-encode t rest) (refl, refl);
  bytes_there = λ r bytes rest e. rw (e, read_inplace-append bytes rest) (refl, refl);
  inplace_there = λ r bytes rest e. rw (e, read_inplace-append bytes rest) (refl, refl);
  input_done_str = λ r. refl;
  input_done_bin = λ r. refl;
  input_done_array = λ r. refl;
  remaining_there = λ r rest e. rw e refl;
  failed_not = λ r rest e. rw e refl;
}
