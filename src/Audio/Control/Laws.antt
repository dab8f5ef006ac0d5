-- ===== src/Audio/Control/Laws.antt =====
-- What SampleInit and SampleSetVolume of source/audio/Sample.c do.
use haze.Base.{
  ℕ, ◌+◌, ◌-◌, ◌%◌, ◌^◌, ◌≤◌, ◌<◌, ◌≡◌, refl, ap, Option, none, some, List, [], ◌∷◌, Bool, true,
  false, ltb, min, max, if◌then◌else◌, arith, Bool-cases, inl, inr,
}
use haze.Memory.{Heap, alloc, free, got, live-alloc}
use haze.Audio.{
  ResultAudio, message_blocks, err_format, Engine, Sample, one, name_blocks, held_blocks, is_ok,
}
use haze.Audio.Control.{
  Decoders, below_zero, above_one, clamped, without_buffer, named, with_sound, with_copy,
  init_named, sample_init,
}

-- The order of floats that are no NaN, with both zeros at 2^31.
abbrev pub rank : ℕ → ℕ
rank v = if ltb v (2 ^ 31) then 2 ^ 31 + v else 2 ^ 31 - (v - 2 ^ 31)

-- A pattern of 32 bits behind an infinity of either sign.
abbrev is_nan32 : ℕ → Bool
is_nan32 v = ltb 0x7f800000 (v % 2 ^ 31)

-- SampleSetVolume brings every float that is no NaN between 0 and 1 in the order of floats, and keeps
-- a NaN.
pub clamped_lem :
    (v : ℕ)
    → v < 2 ^ 32
    → (is_nan32 v ≡ false → rank (clamped v) ≡ max (2 ^ 31) (min (rank one) (rank v)))
      × (is_nan32 v ≡ true → clamped v ≡ v)
unfolding clamped below_zero above_one
clamped_lem v b = (λ h. ground arith, λ h. ground arith)

module _ {S : Type 0} where
  -- The handle that SampleInit sets.
  abbrev handle_of : Decoders S → Option (List ℕ) → Option S
  handle_of dec none = none
  handle_of dec (some bytes) = dec.sound_of bytes

  -- The blocks of a result with its sample.
  abbrev gained : ResultAudio × Sample S → ℕ
  gained r = held_blocks r.1 + message_blocks r.0

  live-with_sound :
      (eng : Engine S) (s : Sample S) (name : List ℕ) (o : Option S) (h : Heap)
      → held_blocks s ≤ h.live
      → (with_sound eng s name o h).1.live + held_blocks s
        ≡ h.live + gained (with_sound eng s name o h).0
  unfolding with_sound named without_buffer err_format free
  live-with_sound eng s name none h k = ground (arith, live-alloc (free (name_blocks s.buf) h).1)
  live-with_sound eng s name (some sound) h k =
      ground (arith, live-alloc (free (name_blocks s.sample_name) h).1)

  live-with_copy :
      (eng : Engine S) (dec : Decoders S) (s : Sample S) (name bytes : List ℕ) (b : Bool) (h : Heap)
      → s.buf ≡ none
      → held_blocks s + got b ≤ h.live
      → (with_copy eng dec s name bytes b h).1.live + (held_blocks s + got b)
        ≡ h.live + gained (with_copy eng dec s name bytes b h).0
  unfolding with_copy without_buffer err_format free
  live-with_copy eng dec s name bytes false h e k = ground arith
  live-with_copy eng dec s name bytes true h e k = elim (Bool-cases (dec.decodes bytes)) [
    | inl d ↦
        let s' : Sample S = record s { buf = some bytes } in
        rw d (
          omega (
            arith,
            ap name_blocks e,
            live-with_sound eng s' name (dec.sound_of bytes) h (omega (arith, ap name_blocks e)),
          ))
    | inr d ↦ rw d (ground (arith, live-alloc (free 1 h).1))
  ]

  live-sample_init :
      (eng : Engine S) (dec : Decoders S) (s : Sample S) (name bytes : Option (List ℕ)) (h : Heap)
      → s.buf ≡ none
      → held_blocks s ≤ h.live
      → (sample_init eng dec s name bytes h).1.live + held_blocks s
        ≡ h.live + gained (sample_init eng dec s name bytes h).0
  unfolding sample_init init_named
  live-sample_init eng dec s name none h e k = omega arith
  live-sample_init eng dec s name (some []) h e k = omega arith
  live-sample_init eng dec s none (some (b ∷ bytes)) h e k = omega arith
  live-sample_init eng dec s (some name) (some (b ∷ bytes)) h e k = omega (
    arith,
    live-alloc h,
    live-with_copy eng dec s name (b ∷ bytes) (alloc h).0 (alloc h).1 e
        (omega (arith, live-alloc h)),
  )

  with_sound_content :
      (eng : Engine S) (s : Sample S) (name : List ℕ) (o : Option S) (h : Heap)
      → let r = (with_sound eng s name o h).0 in
        (is_ok r.0 ≡ true → (r.1.buf ≡ s.buf) × (r.1.sample_name ≡ some name) × (r.1.handle ≡ o))
        × (is_ok r.0 ≡ false → r.1.buf ≡ none)
  unfolding with_sound named without_buffer err_format is_ok
  with_sound_content eng s name none h = (λ e. absurd (ground arith), λ e. refl)
  with_sound_content eng s name (some sound) h =
      elim (Bool-cases (alloc (free (name_blocks s.sample_name) h).1).0) [
        | inl a ↦ rw a (λ e. (refl, refl, refl), λ e. absurd (ground arith))
        | inr a ↦ rw a (λ e. absurd (ground arith), λ e. refl)
      ]

  with_copy_content :
      (eng : Engine S) (dec : Decoders S) (s : Sample S) (name bytes : List ℕ) (b : Bool) (h : Heap)
      → let r = (with_copy eng dec s name bytes b h).0 in
        (is_ok r.0 ≡ true
          → (r.1.buf ≡ some bytes)
            × (r.1.sample_name ≡ some name)
            × (r.1.handle ≡ dec.sound_of bytes))
        × (is_ok r.0 ≡ false → r.1.buf ≡ none)
  unfolding with_copy err_format is_ok
  with_copy_content eng dec s name bytes false h = (λ e. absurd (ground arith), λ e. refl)
  with_copy_content eng dec s name bytes true h = elim (Bool-cases (dec.decodes bytes)) [
    | inl d ↦
        rw d (with_sound_content eng (record s { buf = some bytes }) name (dec.sound_of bytes) h)
    | inr d ↦ rw d (λ e. absurd (ground arith), λ e. refl)
  ]

  sample_init_content :
      (eng : Engine S) (dec : Decoders S) (s : Sample S) (name bytes : Option (List ℕ)) (h : Heap)
      → s.buf ≡ none
      → let r = (sample_init eng dec s name bytes h).0 in
        (is_ok r.0 ≡ true
          → (r.1.buf ≡ bytes) × (r.1.sample_name ≡ name) × (r.1.handle ≡ handle_of dec bytes))
        × (is_ok r.0 ≡ false → r.1.buf ≡ none)
  unfolding sample_init init_named is_ok
  sample_init_content eng dec s name none h e = (λ t. absurd (ground arith), λ t. e)
  sample_init_content eng dec s name (some []) h e = (λ t. absurd (ground arith), λ t. e)
  sample_init_content eng dec s none (some (b ∷ bytes)) h e = (λ t. absurd (ground arith), λ t. e)
  sample_init_content eng dec s (some name) (some (b ∷ bytes)) h e =
      with_copy_content eng dec s name (b ∷ bytes) (alloc h).0 (alloc h).1

  -- SampleInit on every branch, for a sample without a buffer whose blocks are live: memory gains what
  -- the sample gains and the message; with success the sample has the data, the name and the sound of
  -- its data, and with a failure it has no buffer.
  pub sample_init_all_or_nothing :
      (eng : Engine S) (dec : Decoders S) (s : Sample S) (name bytes : Option (List ℕ)) (h : Heap)
      → s.buf ≡ none
      → held_blocks s ≤ h.live
      → let r = sample_init eng dec s name bytes h in
        (r.1.live + held_blocks s ≡ h.live + gained r.0)
        × (is_ok r.0.0 ≡ true
            → (r.0.1.buf ≡ bytes)
              × (r.0.1.sample_name ≡ name)
              × (r.0.1.handle ≡ handle_of dec bytes))
        × (is_ok r.0.0 ≡ false → r.0.1.buf ≡ none)
  sample_init_all_or_nothing eng dec s name bytes h e k =
      let (done, undone) = sample_init_content eng dec s name bytes h e in
      (live-sample_init eng dec s name bytes h e k, done, undone)
