-- ===== src/Audio/Channels.antt =====
-- source/audio/Channel.c and ChannelList.c: the channels of a session. What the engine answers to
-- ma_sound_group_init is an argument, `opens`.
pub mod Laws
use haze.Base.{
  ℕ, suc, ◌+◌, Option, none, some, List, [], ◌∷◌, ◌++◌, Bool, true, false, if◌then◌else◌, length,
  take,
}
use haze.Memory.{M, pure, ◌>>=◌, ◌>>◌, alloc, realloc, free}
use haze.Audio.{ResultAudio, success, failure, err_alloc, no_name_copy, one, name_blocks}
use haze.Audio.SampleList.{decimal_fuel}

-- The struct Channel, with floats as bit patterns.
pub record Channel : Type 0 where
  pub volume : ℕ
  pub pan : ℕ
  pub muted : Bool
  pub solo : Bool
  pub chann_name : Option (List ℕ)

-- The struct ChannelList; `quantity` is the number of channels.
pub record ChannelList : Type 0 where
  pub channels : List Channel

-- "Unnamed Channel", "Master" and "Channel "
abbrev unnamed : List ℕ
unnamed =
    b'U' ∷ b'n' ∷ b'n' ∷ b'a' ∷ b'm' ∷ b'e' ∷ b'd' ∷ b' ' ∷ b'C' ∷ b'h' ∷ b'a' ∷ b'n' ∷ b'n' ∷ b'e'
    ∷ b'l' ∷ []

abbrev pub master : List ℕ
master = b'M' ∷ b'a' ∷ b's' ∷ b't' ∷ b'e' ∷ b'r' ∷ []

abbrev channel_prefix : List ℕ
channel_prefix = b'C' ∷ b'h' ∷ b'a' ∷ b'n' ∷ b'n' ∷ b'e' ∷ b'l' ∷ b' ' ∷ []

-- snprintf of "Channel %zu" into 32 bytes.
unfoldable pub channel_name : ℕ → List ℕ
unfolding decimal_fuel
channel_name n = take 31 (channel_prefix ++ decimal_fuel n n)

-- strdup of the name is not tested.
named_channel : Bool → Channel
named_channel named = record {
  volume = one;
  pan = 0;
  muted = false;
  solo = false;
  chann_name = if named then some unnamed else none;
}

opened : Bool → M (Option Channel)
unfolding named_channel free
opened false = do free 1; pure none
opened true = do named ← alloc; pure (some (named_channel named))

-- ChannelNew
unfoldable pub channel_new : Bool → M (Option Channel)
unfolding opened
channel_new opens = do ok ← alloc; if ok then opened opens else pure none

name_copied : Channel → List ℕ → Bool → M (ResultAudio × Channel)
unfolding free
name_copied c name false = pure (failure no_name_copy, c)
name_copied c name true = do
  free (name_blocks c.chann_name)
  pure (success, record c { chann_name = some name })

-- ChannelRename of a channel that is there, to a name that is there.
unfoldable pub channel_rename : Channel → List ℕ → M (ResultAudio × Channel)
unfolding name_copied
channel_rename c name = do ok ← alloc; name_copied c name ok

-- ChannelFree of a channel that is there.
unfoldable pub channel_free : Channel → M (Unit {0})
unfolding free
channel_free c = free (1 + name_blocks c.chann_name)

-- The first channel becomes the master; what ChannelRename answers is not tested.
with_master : Option Channel → M (Option ChannelList)
unfolding channel_rename free
with_master none = do free 2; pure none
with_master (some c) = do
  (r, c') ← channel_rename c master
  pure (some (record { channels = c' ∷ [] }))

with_block : Bool → Bool → M (Option ChannelList)
unfolding channel_new with_master free
with_block opens false = do free 1; pure none
with_block opens true = do c ← channel_new opens; with_master c

-- ChannelListNew with an engine.
unfoldable pub channels_new : Bool → M (Option ChannelList)
unfolding with_block
channels_new opens = do
  ok ← alloc
  if ok then (do block ← alloc; with_block opens block) else pure none

add_named : ChannelList → ResultAudio × Channel → M (ResultAudio × ChannelList)
unfolding channel_free
add_named l (success, c) = pure (success, record { channels = l.channels ++ c ∷ [] })
add_named l (e, c) = do channel_free c; pure (e, l)

add_new : ChannelList → Option Channel → M (ResultAudio × ChannelList)
unfolding channel_rename channel_name add_named
add_new l none = pure (failure err_alloc, l)
add_new l (some c) = do r ← channel_rename c (channel_name (length l.channels + 1)); add_named l r

-- ChannelListAdd of a list and an engine that are there.
unfoldable pub channels_add : Bool → ChannelList → M (ResultAudio × ChannelList)
unfolding channel_new add_new
channels_add opens l = do
  ok ← realloc
  if ok then (do c ← channel_new opens; add_new l c) else pure (failure err_alloc, l)

free_channels : List Channel → M (Unit {0})
unfolding channel_free
free_channels [] = pure tt
free_channels (c ∷ rest) = channel_free c >> free_channels rest

-- ChannelListFree of a list that is there.
unfoldable pub channels_free : ChannelList → M (Unit {0})
unfolding free_channels free
channels_free l = free_channels l.channels >> free 2
