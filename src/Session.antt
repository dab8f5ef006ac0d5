-- ===== src/Session.antt =====
-- source/session/Session.c and Session.h: a session with its samples and its channels. What rand,
-- time and the engine answer are arguments.
pub mod Laws
use haze.Base.{
  ℕ, zero, suc, ◌+◌, ◌-◌, ◌%◌, ℤ, pos, negsuc, Option, none, some, List, [], ◌∷◌, ◌++◌, Bool, true,
  false, if◌then◌else◌, ltb, codes,
}
use haze.Memory.{M, pure, ◌>>=◌, ◌>>◌, alloc, free}
use haze.Audio.{name_blocks}
use haze.Audio.SampleList.{SampleList, list_new, list_free}
use haze.Audio.Channels.{ChannelList, channels_new, channels_free}

-- The struct Session; time_t is a number of seconds.
pub record Session (S : Type 0) : Type 0 where
  pub session_name : Option (List ℕ)
  pub project_path : Option (List ℕ)
  pub created_at : ℕ
  pub working_time : ℕ
  pub samples : Option (SampleList S)
  pub channels : Option ChannelList

-- What SessionNew returns, or a use of the null pointer that session_name_random does not test.
pub data New (S : Type 0) : Type 0 where
  made : Session S → New S
  failed crashed : New S

-- NAME_MAX
abbrev name_max : ℕ
name_max = 15

first_words : List (List ℕ)
unfolding codes
first_words =
    codes "goofball"
    ∷ codes "biscuit"
    ∷ codes "wombat"
    ∷ codes "noodle"
    ∷ codes "badger"
    ∷ codes "gizmo"
    ∷ codes "doofus"
    ∷ codes "gecko"
    ∷ codes "rascal"
    ∷ codes "walrus"
    ∷ codes "dingo"
    ∷ codes "muppet"
    ∷ codes "turnip"
    ∷ codes "hobbit"
    ∷ codes "chimp"
    ∷ []

second_words : List (List ℕ)
unfolding codes
second_words =
    codes "flabby"
    ∷ codes "haughty"
    ∷ codes "clumsy"
    ∷ codes "grumpy"
    ∷ codes "sneaky"
    ∷ codes "goofy"
    ∷ codes "sluggish"
    ∷ codes "silly"
    ∷ codes "cheeky"
    ∷ codes "wobbly"
    ∷ codes "cranky"
    ∷ codes "greedy"
    ∷ codes "shabby"
    ∷ codes "lousy"
    ∷ codes "spunky"
    ∷ []

word : List (List ℕ) → ℕ → List ℕ
word [] i = []
word (w ∷ rest) zero = w
word (w ∷ rest) (suc i) = word rest i

-- session_name_random where rand gives `i` and then `j`.
unfoldable pub random_name : ℕ → ℕ → List ℕ
unfolding word first_words second_words
random_name i j = word first_words (i % name_max) ++ b'_' ∷ word second_words (j % name_max)

or_empty : Option (List ℕ) → List ℕ
or_empty none = []
or_empty (some name) = name

module _ {S : Type 0} where
  -- SampleListFree of a pointer that may be null.
  free_samples : Option (SampleList S) → M (Unit {0})
  unfolding list_free
  free_samples none = pure tt
  free_samples (some l) = list_free l

-- ChannelListFree of a pointer that may be null.
free_channel_list : Option ChannelList → M (Unit {0})
unfolding channels_free
free_channel_list none = pure tt
free_channel_list (some l) = channels_free l

module _ {S : Type 0} where
  -- SessionFree of a session that is there.
  unfoldable pub session_free : Session S → M (Unit {0})
  unfolding free_samples free_channel_list free
  session_free s =
      free (name_blocks s.session_name)
      >> free (name_blocks s.project_path)
      >> free_samples s.samples
      >> free_channel_list s.channels
      >> free 1

  -- The label `fail`.
  give_up : Session S → M (New S)
  unfolding session_free
  give_up s = do session_free s; pure failed

  with_channels : Session S → Option ChannelList → M (New S)
  unfolding give_up
  with_channels s none = give_up s
  with_channels s (some c) = pure (made (record s { channels = some c }))

  with_samples : Bool → Session S → Option (SampleList S) → M (New S)
  unfolding give_up channels_new with_channels
  with_samples opens s none = give_up s
  with_samples opens s (some l) = do
    c ← channels_new opens
    with_channels (record s { samples = some l }) c

  with_name : Bool → Session S → M (New S)
  unfolding list_new with_samples
  with_name opens s = do l ← list_new; with_samples opens s l

  -- A zeroed struct with its time.
  abbrev blank : ℕ → Session S
  blank now = record {
    session_name = none;
    project_path = none;
    created_at = now;
    working_time = 0;
    samples = none;
    channels = none;
  }

  given_name : Bool → ℕ → List ℕ → Bool → M (New S)
  unfolding give_up with_name
  given_name opens now name false = give_up (blank now)
  given_name opens now name true = with_name opens (record (blank now) { session_name = some name })

  -- session_name_random writes to what malloc gives without a test.
  chosen_name : Bool → ℕ → List ℕ → Bool → M (New S)
  unfolding with_name
  chosen_name opens now name false = pure crashed
  chosen_name opens now name true =
      with_name opens (record (blank now) { session_name = some name })

  named_session : Bool → ℕ → ℕ → ℕ → Option (List ℕ) → M (New S)
  unfolding given_name chosen_name random_name
  named_session opens now i j none = do ok ← alloc; chosen_name opens now (random_name i j) ok
  named_session opens now i j (some name) = do ok ← alloc; given_name opens now name ok

  -- SessionNew
  unfoldable pub session_new : Bool → ℕ → ℕ → ℕ → Option (List ℕ) → M (New S)
  unfolding named_session
  session_new opens now i j name = do
    ok ← alloc
    if ok then named_session opens now i j name else pure failed

  name_set : Session S → List ℕ → Bool → M (Bool × Session S)
  unfolding free
  name_set s name false = pure (false, s)
  name_set s name true = do
    free (name_blocks s.session_name)
    pure (true, record s { session_name = some name })

  -- SessionSetName of a session that is there, to a name that is there.
  unfoldable pub session_set_name : Session S → List ℕ → M (Bool × Session S)
  unfolding name_set
  session_set_name s name = do ok ← alloc; name_set s name ok

  -- SessionGetName
  unfoldable pub session_get_name : Option (Session S) → List ℕ
  unfolding or_empty
  session_get_name none = []
  session_get_name (some s) = or_empty s.session_name

  -- SessionGetWorkingTime of a session that is there.
  unfoldable pub session_get_working_time : ℕ → Session S → ℤ
  session_get_working_time now s =
      if ltb now s.created_at then negsuc (s.created_at - now - 1) else pos (now - s.created_at)
