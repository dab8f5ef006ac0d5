-- ===== src/Audio/Control.antt =====
-- source/audio/Sample.c: a sample from data in memory, its volume, stopping it, and its getters.
pub mod Laws
use haze.Base.{
  ℕ, ◌+◌, ◌*◌, ◌^◌, Option, none, some, List, [], ◌∷◌, Bool, true, false, ◌==◌, ◌&&◌, ltb, leb,
  if◌then◌else◌,
}
use haze.Memory.{M, pure, ◌>>=◌, ◌>>◌, alloc, free}
use haze.Audio.{
  Reason, invalid_data, sample_name_is_null, sample_is_null, out_of_memory, decoder_failed,
  sound_failed, stop_failed, ResultAudio, success, failure, err_format, Engine, Sample, one,
  name_blocks, text_or_empty,
}

-- What miniaudio makes of data: whether ma_decoder_init_memory accepts it, and the sound that
-- ma_sound_init_from_data_source gives.
pub record Decoders (S : Type 0) : Type 0 where
  pub decodes : List ℕ → Bool
  pub sound_of : List ℕ → Option S

-- `v < 0.0f` and `v > 1.0f`, which hold of no NaN; 0x7f800000 is the infinity.
below_zero : ℕ → Bool
below_zero v = ltb (2 ^ 31) v && leb v (2 ^ 31 + 0x7f800000)

above_one : ℕ → Bool
above_one v = ltb one v && leb v 0x7f800000

unfoldable pub clamped : ℕ → ℕ
unfolding below_zero above_one
clamped v = if below_zero v then 0 else if above_one v then one else v

module _ {S : Type 0} where
  without_buffer : Sample S → M (Unit {0})
  unfolding free
  without_buffer s = free (name_blocks s.buf)

  -- The name: the old one is given back first, and without room for the new one all is undone.
  named : Sample S → List ℕ → Bool → M (ResultAudio × Sample S)
  unfolding without_buffer
  named s name true = pure (success, record s { sample_name = some name })
  named s name false = do
    without_buffer s
    pure (failure out_of_memory, record s { handle = none; buf = none; sample_name = none })

  -- ma_sound_init_from_data_source, and the fields.
  with_sound : Engine S → Sample S → List ℕ → Option S → M (ResultAudio × Sample S)
  unfolding named without_buffer err_format free
  with_sound eng s name none = do
    without_buffer s
    e ← err_format (sound_failed name)
    pure (e, record s { buf = none })
  with_sound eng s name (some sound) = do
    free (name_blocks s.sample_name)
    ok ← alloc
    named
        (record s {
          handle = some sound;
          duration = eng.duration sound;
          sample_rate = eng.rate;
          volume = one;
          pitch = one;
        })
        name ok

  -- The copy of the data, in place of what `buf` held before, and ma_decoder_init_memory.
  with_copy : Engine S → Decoders S → Sample S → List ℕ → List ℕ → Bool → M (ResultAudio × Sample S)
  unfolding with_sound without_buffer err_format
  with_copy eng dec s name bytes false = pure (failure out_of_memory, record s { buf = none })
  with_copy eng dec s name bytes true =
      let s' : Sample S = record s { buf = some bytes } in
      if dec.decodes bytes then with_sound eng s' name (dec.sound_of bytes) else (do
        without_buffer s'
        e ← err_format (decoder_failed name)
        pure (e, record s { buf = none }))

  init_named :
      Engine S → Decoders S → Sample S → Option (List ℕ) → List ℕ → M (ResultAudio × Sample S)
  unfolding with_copy
  init_named eng dec s none bytes = pure (failure sample_name_is_null, s)
  init_named eng dec s (some name) bytes = do ok ← alloc; with_copy eng dec s name bytes ok

  -- SampleInit of a sample that is there.
  unfoldable pub sample_init :
      Engine S
      → Decoders S
      → Sample S
      → Option (List ℕ)
      → Option (List ℕ)
      → M (ResultAudio × Sample S)
  unfolding init_named
  sample_init eng dec s name none = pure (failure invalid_data, s)
  sample_init eng dec s name (some []) = pure (failure invalid_data, s)
  sample_init eng dec s name (some (b ∷ bytes)) = init_named eng dec s name (b ∷ bytes)

  -- SampleSetVolume; the handle gets the same volume.
  unfoldable pub set_volume : Option (Sample S) → ℕ → ResultAudio × Option (Sample S)
  unfolding clamped
  set_volume none v = (failure sample_is_null, none)
  set_volume (some s) v = (success, some (record s { volume = clamped v }))

  -- SampleStop, where `stops` says whether ma_sound_stop succeeds.
  unfoldable pub stop : (Option S → Bool) → Option (Sample S) → M ResultAudio
  unfolding err_format text_or_empty
  stop stops none = pure (failure sample_is_null)
  stop stops (some s) =
      if stops s.handle
      then pure success
      else err_format (stop_failed (text_or_empty s.sample_name))

  get_volume : Option (Sample S) → ℕ
  get_volume none = 0
  get_volume (some s) = s.volume

  get_pitch : Option (Sample S) → ℕ
  get_pitch none = 0
  get_pitch (some s) = s.pitch

  get_id : Option (Sample S) → ℕ
  get_id none = 0
  get_id (some s) = s.id

  get_duration : Option (Sample S) → ℕ
  get_duration none = 0
  get_duration (some s) = s.duration

  get_name : Option (Sample S) → Option (List ℕ)
  get_name none = none
  get_name (some s) = s.sample_name

  is_playing : (Option S → Bool) → Option (Sample S) → Bool
  is_playing plays none = false
  is_playing plays (some s) = plays s.handle
