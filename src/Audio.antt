-- ===== src/Audio.antt =====
-- source/audio/Sample.c and source/audio/ResultAudio.h: one sample and the results of operations on
-- it. The audio engine (third_party/miniaudio) and the file system are a parameter.
pub mod SampleList
pub mod Channels
pub mod Control
use haze.Base.{
  ◌++◌, take, codes, ℕ, zero, suc, ◌+◌, ◌*◌, Option, none, some, List, [], ◌∷◌, Bool, true, false,
  ◌==◌, if◌then◌else◌,
}
use haze.Memory.{M, pure, ◌>>=◌, ◌>>◌, alloc, free}

-- The messages of ResultAudioErr and ResultAudioErrF, of which some name a path or a sample.
pub data Reason : Type 0 where
  invalid_argument no_sample no_list_room no_name_room sample_not_found : Reason
  sample_is_null invalid_path out_of_memory err_alloc no_name_copy : Reason
  invalid_sample_name no_sample_list no_such_sample : Reason
  invalid_data sample_name_is_null invalid_sample_path : Reason
  file_not_found load_failed play_failed stop_failed : List ℕ → Reason
  decoder_failed sound_failed : List ℕ → Reason

-- ResultAudio. A formatted message is a block of its own, `owned`, if strdup gave one.
pub data ResultAudio : Type 0 where
  success : ResultAudio
  failure : Reason → ResultAudio
  owned : Reason → Bool → ResultAudio

unfoldable pub is_ok : ResultAudio → Bool
is_ok success = true
is_ok _ = false

-- The blocks that ResultAudioFree gives back.
abbrev pub message_blocks : ResultAudio → ℕ
message_blocks (owned r true) = 1
message_blocks _ = 0

unfoldable pub err_format : Reason → M ResultAudio
err_format r = do ok ← alloc; pure (owned r ok)

-- vsnprintf into a buffer of 256 bytes.
formatted : List ℕ → List ℕ → List ℕ
unfolding codes
formatted text detail = take 255 (text ++ detail ++ codes "'")

-- The text of a message.
unfoldable pub message : Reason → List ℕ
unfolding codes formatted
message invalid_argument = codes "invalid argument"
message no_sample = codes "failed to allocate sample"
message no_list_room = codes "failed to resize sample list"
message no_name_room = codes "failed to allocate sample name"
message sample_not_found = codes "sample not found"
message sample_is_null = codes "sample is null"
message invalid_path = codes "invalid path"
message out_of_memory = codes "out of memory"
message err_alloc = codes "err alloc"
message no_name_copy = codes "Erro allocating name"
message invalid_sample_name = codes "Invalid sample name."
message no_sample_list = codes "No sample list."
message no_such_sample = codes "Sample not found."
message (file_not_found path) =
    formatted (codes "arquivo nao encontrado ou sem permissao de leitura: '") path
message (load_failed path) = formatted (codes "failed to load sample from file: '") path
message invalid_sample_path = codes "Invalid sample path."
message invalid_data = codes "invalid data"
message sample_name_is_null = codes "sample name is null"
message (stop_failed name) = formatted (codes "failed to stop sample '") name
message (decoder_failed name) = formatted (codes "failed to init decoder for '") name
message (sound_failed name) = formatted (codes "failed to init sound for '") name
message (play_failed name) = formatted (codes "failed to play sample '") name

-- The `msg` of a ResultAudio: null for a success and where strdup failed.
unfoldable pub message_of : ResultAudio → Option (List ℕ)
unfolding message
message_of success = none
message_of (failure r) = some (message r)
message_of (owned r true) = some (message r)
message_of (owned r false) = none

-- What the program asks of the file system and of the engine: whether fopen of a path succeeds, the
-- sound that ma_sound_init_from_file gives, its duration and its rate, and whether ma_sound_start of a
-- sound succeeds.
pub record Engine (S : Type 0) : Type 0 where
  pub readable : List ℕ → Bool
  pub load : List ℕ → Option S
  pub duration : S → ℕ
  pub rate : ℕ
  pub starts : Option S → Bool

-- The struct Sample, with floats as bit patterns; `buf` is the copy that SampleInit makes of its data,
-- whose length is `buf_size`. The decoder reads it, and is there as long as it is.
pub record Sample (S : Type 0) : Type 0 where
  pub id : ℕ
  pub handle : Option S
  pub buf : Option (List ℕ)
  pub volume : ℕ
  pub pitch : ℕ
  pub duration : ℕ
  pub sample_rate : ℕ
  pub is_playing : Bool
  pub sample_name : Option (List ℕ)

-- 1.0f
abbrev pub one : ℕ
one = 127 * 8388608

abbrev pub name_blocks : Option (List ℕ) → ℕ
name_blocks none = 0
name_blocks (some _) = 1

-- What follows the last '/' of a path, or all of it.
unfoldable pub base_name : List ℕ → List ℕ → List ℕ
base_name found [] = found
base_name found (c ∷ path) = if c == b'/' then base_name path path else base_name found path

text_or_empty : Option (List ℕ) → List ℕ
text_or_empty none = []
text_or_empty (some s) = s

module _ {S : Type 0} where
  -- A zeroed struct with the fields that SampleNew sets.
  abbrev pub fresh_sample : Sample S
  fresh_sample = record {
    id = 0;
    handle = none;
    buf = none;
    volume = one;
    pitch = one;
    duration = 0;
    sample_rate = 0;
    is_playing = false;
    sample_name = some [];
  }

  with_name : Bool → M (Option (Sample S))
  unfolding free
  with_name true = pure (some fresh_sample)
  with_name false = do free 1; pure none

  -- SampleNew
  unfoldable pub new_sample : M (Option (Sample S))
  unfolding with_name
  new_sample = do ok ← alloc; if ok then (do named ← alloc; with_name named) else pure none

  -- The blocks of a sample, its buffer and its name.
  abbrev pub held_blocks : Sample S → ℕ
  held_blocks s = 1 + name_blocks s.sample_name + name_blocks s.buf

  -- SampleFree of a sample that is there.
  unfoldable pub free_sample : Sample S → M (Unit {0})
  unfolding free
  free_sample s = free (held_blocks s)

  -- The new name in place of the old one, which is given back first.
  renamed : Sample S → List ℕ → Bool → ResultAudio × Sample S
  renamed s name true = (success, record s { sample_name = some name })
  renamed s name false = (failure out_of_memory, record s { sample_name = none })

  loaded : Engine S → Sample S → List ℕ → Option S → M (ResultAudio × Sample S)
  unfolding renamed free err_format
  loaded eng s path none = do e ← err_format (load_failed path); pure (e, s)
  loaded eng s path (some sound) = do
    free (name_blocks s.sample_name)
    ok ← alloc
    pure (
        renamed
          (record s {
            handle = some sound;
            buf = none;
            duration = eng.duration sound;
            sample_rate = eng.rate;
            volume = one;
            pitch = one;
          })
          (base_name path path) ok)

  -- SampleInitFromFile of a sample that is there.
  unfoldable pub init_from_file : Engine S → Sample S → List ℕ → M (ResultAudio × Sample S)
  unfolding loaded err_format
  init_from_file eng s [] = pure (failure invalid_path, s)
  init_from_file eng s (c ∷ path) =
      if eng.readable (c ∷ path)
      then loaded eng s (c ∷ path) (eng.load (c ∷ path))
      else (do e ← err_format (file_not_found (c ∷ path)); pure (e, s))

  rename_copied : Sample S → List ℕ → Bool → M (ResultAudio × Sample S)
  unfolding free
  rename_copied s name false = pure (failure out_of_memory, s)
  rename_copied s name true = do
    free (name_blocks s.sample_name)
    pure (success, record s { sample_name = some name })

  -- SampleRename of a sample that is there, to a name that is there.
  unfoldable pub rename : Sample S → List ℕ → M (ResultAudio × Sample S)
  unfolding rename_copied
  rename s name = do ok ← alloc; rename_copied s name ok

  -- SamplePlay of a sample that is there.
  unfoldable pub play : Engine S → Sample S → M ResultAudio
  unfolding err_format text_or_empty
  play eng s =
      if eng.starts s.handle
      then pure success
      else err_format (play_failed (text_or_empty s.sample_name))
