-- ===== src/Wire/Notification/Refusals.antt =====
-- The parameters that NotificationMarshal refuses.
use haze.Base.{
  ℕ, ◌≡◌, refl, Option, none, some, List, Bool, true, false, leb, not, ◌&&◌, if◌then◌else◌, arith,
}
use haze.Memory.{Heap}
use haze.Object.{Value, Object, ObjectArray, Slots, str, bin, array, object, end, slot, hole}
use haze.Object.Copy.{count}
use haze.Wire.Mpack.{Writer}
use haze.Wire.Encode.{u32_mod}
use haze.Wire.Notification.{
  notify_value, notify_object, notify_slots, marshal, boxed, write_notification, flagged, next,
  write_data,
}
use haze.Wire.Notification.Encoding.{sendable_value, sendable_object, sendable, no_dangling}

-- A writer that was flagged stays in error and gives no bytes.
pub record Flags {W : Type 0} (wr : Writer W) (flag_error : W → W) : Type 1 where
  pub IsFailed : W → Type 0
  pub flagged_fails : (w : W) → IsFailed (flag_error w)
  pub finish_fails : (w : W) → IsFailed w → IsFailed (wr.finish_array w)
  pub destroy_fails : (w : W) → IsFailed w → wr.destroy w ≡ none

module _ {W : Type 0} (wr : Writer W) where
  refused_if :
      (test ok : Bool) (r : Bool × W) (w : W)
      → (ok ≡ false → r.0 ≡ false)
      → not test && ok ≡ false
      → (if test then (false, w) else r).0 ≡ false
  refused_if true ok r w k e = refl
  refused_if false ok r w k e = k e

  refused_next :
      (r : Bool × W) (k : W → Bool × W) (a b : Bool)
      → (a ≡ false → r.0 ≡ false)
      → ((w : W) → b ≡ false → (k w).0 ≡ false)
      → a && b ≡ false
      → (next wr r k).0 ≡ false
  unfolding next
  refused_next (false, w) k a b f g e = refl
  refused_next (true, w) k false b f g e = absurd (ground (arith, f refl))
  refused_next (true, w) k true b f g e = g w e

  refused_data :
      (bytes : Option (List ℕ)) (n : ℕ) (w : W)
      → no_dangling bytes n ≡ false
      → (write_data wr bytes n w).0 ≡ false
  unfolding write_data
  refused_data none n w e = ground (arith, e)
  refused_data (some bytes) n w e = absurd (ground arith)

  mutual
    unfolding notify_value

    refused_value :
        (v : Value) (size : ℕ) (w : W)
        → sendable_value v size ≡ false
        → (notify_value wr v size w).0 ≡ false
    refused_value (str (some s)) size w e = ground (arith, e)
    refused_value (bin (some b)) size w e =
        refused_if (leb u32_mod b.len) _ _ w (refused_data b.bytes b.len w) e
    refused_value (array slots capacity) size w e =
        refused_if (leb u32_mod (count slots)) _ _ w
          (λ f. ground (arith, refused_slots slots (wr.start_array (count slots) w) f)) e
    refused_value _ size w e = ground (arith, e)

    refused_object :
        (o : Object) (w : W) → sendable_object o ≡ false → (notify_object wr o w).0 ≡ false
    refused_object (object v size) w e = refused_value v size w e

    refused_slots : (s : Slots) (w : W) → sendable s ≡ false → (notify_slots wr s w).0 ≡ false
    refused_slots end w e = absurd (ground arith)
    refused_slots (hole rest) w e = refl
    refused_slots (slot o rest) w e =
        refused_next (notify_object wr o w) (notify_slots wr rest) (sendable_object o)
          (sendable rest) (refused_object o w) (λ w'. refused_slots rest w') e

module _ {W : Type 0} (wr : Writer W) (flag_error : W → W) (law : Flags wr flag_error) where
  flagged-IsFailed : (r : Bool × W) → r.0 ≡ false → law.IsFailed (flagged wr flag_error r)
  unfolding flagged
  flagged-IsFailed (false, w) e = law.flagged_fails w
  flagged-IsFailed (true, w) e = absurd (ground arith)

  destroy_refused :
      (m : List ℕ) (s : Slots)
      → sendable s ≡ false
      → wr.destroy (write_notification wr flag_error m s) ≡ none
  unfolding write_notification
  destroy_refused m s e =
      law.destroy_fails _
        (law.finish_fails _ (law.finish_fails _ (flagged-IsFailed _ (refused_slots wr s _ e))))

  -- If a parameter is one that a notification does not carry, such as a map or one inside an array,
  -- NotificationMarshal returns none and keeps no block.
  pub marshal_refuses :
      (type : ℕ) (m : List ℕ) (a : ObjectArray) (h : Heap)
      → sendable a.slots ≡ false
      → marshal wr flag_error (some (record { type = type; method = some m; params = some a })) h
        ≡ (none, h)
  unfolding marshal boxed
  marshal_refuses type m a h e = ground (arith, destroy_refused m a.slots e)
