-- ===== src/Proxy/Streaming.antt =====
-- src/proxy/streaming.rs: the body of a response that is fed by a download.
pub mod Frames
use squiddish.Prelude.{
  ℕ, ◌+◌, Bool, true, false, Option, none, some, List, [], ◌∷◌, ◌++◌, get_elem?, if◌then◌else◌,
}
use squiddish.Text.{Bytes, codes}
use squiddish.Text.Decimal.{print_uint}
use squiddish.Cache.Inflight.Broadcast.{DownloadChunk, data_chunk, complete, error}

-- what `BroadcastStream::poll_next` returns
pub data Polled : Type 0 where
  received : DownloadChunk → Polled
  lagged : ℕ → Polled
  closed waiting : Polled

-- what `poll_frame` returns
pub data Frame : Type 0 where
  frame : Bytes → Frame
  fault : Bytes → Frame
  finish not_ready : Frame

-- `BroadcastStream`, as a type with its `poll_next`
module _ (Stream : Type 0) (poll_next : Stream → Polled × Stream) where
  pub record StreamingBody : Type 0 where
    pub stream : Stream
    pub initial_chunks : List Bytes
    pub initial_index : ℕ
    pub finished : Bool

  pub new : Stream → List Bytes → StreamingBody
  new stream initial_chunks = record {
    stream = stream;
    initial_chunks = initial_chunks;
    initial_index = 0;
    finished = false;
  }

  polled : StreamingBody → Polled × Stream → Frame × StreamingBody
  polled this (received (data_chunk b), s) = (frame b, record this { stream = s })
  polled this (received complete, s) = (finish, record this { stream = s; finished = true })
  polled this (received (error e), s) = (fault e, record this { stream = s; finished = true })
  polled this (lagged n, s) = (
    fault (codes "Stream lagged by " ++ print_uint n ++ codes " messages"),
    record this { stream = s; finished = true },
  )
  polled this (closed, s) = (finish, record this { stream = s; finished = true })
  polled this (waiting, s) = (not_ready, record this { stream = s })

  initial_or : StreamingBody → Option Bytes → Frame × StreamingBody
  unfolding polled
  initial_or this (some chunk) =
      (frame chunk, record this { initial_index = this.initial_index + 1 })
  initial_or this none = polled this (poll_next this.stream)

  pub poll_frame : StreamingBody → Frame × StreamingBody
  unfolding initial_or
  poll_frame this =
      if this.finished
      then (finish, this)
      else initial_or this (get_elem? this.initial_chunks this.initial_index)
