-- ===== src/Tests/Servers.antt =====
-- Tests of connections.
use haze.Base.{ℕ, ◌≡◌, ◌≢◌, refl, arith, List, [], ◌∷◌, ◌++◌, true, false, Bool, codes}
use haze.Object.{end}
use haze.Wire.Response.{Response}
use haze.Api.{is_method}
use haze.Server.{Conn, drained, no_fuel, drain, on_read, arrived}
use haze.Server.Loop.{drain_ends}
use haze.Server.Asks.{Ask, ArePlain, stream, replies, reply_ids}
use haze.Server.Pipeline.{on_read_answers}
use haze.Tests.Codec.{encode, list_writer, list_writer-Writes, list_reader, list_reader-Reads}
use haze.Tests.Messages.{text-IsText}
use haze.Tests.Sessions.{world, session}
use haze.Tests.{ample, text, two_slots}

abbrev pub conn : Conn ℕ
conn = record { buffer = []; cap = 0; session = session; sent = []; jobs = []; closes = 0 }

abbrev refuses : List ℕ → Bool
refuses bytes = false

drain_ends_example :
    (drain list_writer list_reader world refuses 2 (record conn { buffer = 1 ∷ 2 ∷ [] }) ample).0.0
    ≢ no_fuel
drain_ends_example =
    drain_ends list_writer list_reader world refuses 2 (record conn { buffer = 1 ∷ 2 ∷ [] }) ample
      (omega arith)

abbrev asks : List Ask
asks =
    record { id = 4; method = text; params = two_slots }
    ∷ record { id = 5; method = text; params = end }
    ∷ []

not_import : is_method text (codes "samplelist/import") ≡ false
unfolding is_method codes
not_import = refl

asks-ArePlain : ArePlain asks
asks-ArePlain = (
  (
    omega arith,
    text-IsText,
    ((refl, text-IsText, omega arith), (tt, tt)),
    not_import,
    omega arith,
    omega arith,
  ),
  ((omega arith, text-IsText, tt, not_import, omega arith, omega arith), tt),
)

abbrev takes : List ℕ → Bool
takes bytes = true

on_read_answers_example :
    let (stop, d) =
      (on_read list_writer list_reader world takes conn (arrived (stream encode asks)) ample).0 in
    (rs : List Response) × (stop ≡ drained)
    × (d.buffer ≡ [])
    × (d.sent ≡ [] ++ replies encode rs)
    × (reply_ids rs ≡ 4 ∷ 5 ∷ [])
on_read_answers_example =
    on_read_answers list_writer list_reader encode list_writer-Writes list_reader-Reads world takes
      (λ bytes. refl) asks conn ample asks-ArePlain refl refl
