-- ===== src/Sfu/Interceptor.antt =====
-- sfu/sequence_number_interceptor.go: `TrackMerger` numbers the packets of a stream anew. The writer
-- behind it is a parameter: its state, and what it answers.
pub mod Numbers
mod Examples
use web_rtcsfu.Base.{
  ℕ, ◌+◌, ◌%◌, ◌^◌, ◌≡◌, refl, List, [], ◌∷◌, ◌++◌, map, arith, length, ◌∙◌, ap, ap₂, Option, some,
  none, get_elem?, zero, suc, ◌<◌,
}
use web_rtcsfu.Base.Bytes.{Bytes}

-- `rtp.Header`, of which the interceptor changes the sequence number alone.
pub record RtpHeader (Rest : Type 0) : Type 0 where
  pub sequence_number : ℕ  -- uint16
  pub rest : Rest

module _ {Rest Writer Answer : Type 0}
    (write : RtpHeader Rest → Bytes → Writer → Answer × Writer) where
  -- What the closure that `BindLocalStream` returns keeps, around the writer.
  pub record LocalStream : Type 0 where
    pub seq_nr : ℕ  -- uint16
    pub writer : Writer

  pub bind_local_stream : Writer → LocalStream
  bind_local_stream w = record { seq_nr = 0; writer = w }

  -- One call of the closure.
  pub write_rtp : RtpHeader Rest → Bytes → LocalStream → Answer × LocalStream
  write_rtp header payload stream =
      let numbered = record header { sequence_number = stream.seq_nr } in
      let (answer, w) = write numbered payload stream.writer in
      (answer, record { seq_nr = (stream.seq_nr + 1) % 2 ^ 16; writer = w })

  -- A run of calls.
  pub write_all : List (RtpHeader Rest × Bytes) → LocalStream → LocalStream
  write_all [] stream = stream
  write_all (packet ∷ packets) stream = write_all packets (write_rtp packet.0 packet.1 stream).1

-- `TrackMerger` and its factory have no fields.
pub data TrackMergerFactory : Type 0 where
  track_merger_factory : TrackMergerFactory

pub data TrackMerger : Type 0 where
  track_merger : TrackMerger

pub new_track_merger_interceptor : TrackMergerFactory
new_track_merger_interceptor = track_merger_factory

pub new_interceptor : TrackMergerFactory → Bytes → TrackMerger
new_interceptor factory id = track_merger

-- The readers and writers of everything but outgoing streams go through as they are.
module _ {Handler : Type 0} (i : TrackMerger) where
  pub bind_rtcp_reader : Handler → Handler
  bind_rtcp_reader reader = reader

  pub bind_rtcp_writer : Handler → Handler
  bind_rtcp_writer writer = writer

  pub bind_remote_stream : Handler → Handler
  bind_remote_stream reader = reader
