-- ===== src/Server/Answered.antt =====
-- A turn of a connection (src/server.rs): a request is read, one response is written, and the next request
-- is found right behind it.
use mhttp.Common.{◌≡◌, Option, none, some, ◌++◌, Bytes}
use mhttp.FieldLines.Fields.{Fields}
use mhttp.Connection.{Connection}
use mhttp.Connection.Sent.{all_written}
use mhttp.Call.{Finished, kept, closed}
use mhttp.Call.Drain.{KeptAt}
use mhttp.Server.Answers.{IsResponse}

module _ (H : Type 0) where
  -- The connection is kept, stands in front of `rest`, and one response was written behind what was.
  pub AnsweredAt : Bytes → Connection → Option Finished → Type 0
  AnsweredAt rest before none = ⊥
  AnsweredAt rest before (some (closed after)) = ⊥
  AnsweredAt rest before (some (kept after)) =
      KeptAt rest (kept after)
      × ((text : Bytes) × IsResponse H text
          × (all_written after.writer ≡ all_written before.writer ++ text))
