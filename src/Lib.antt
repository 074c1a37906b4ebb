-- ===== src/Lib.antt =====
-- WebRTCSFU: clients send point cloud tiles and audio to a selective forwarding unit, which sends
-- each client what the others publish, at a quality that the client chooses. Two programs: the
-- peer client (peer/) and the unit (sfu/).
--
-- The modules and the code they are about:
--
-- - Base: shared helpers. Base.Bytes has uint32, little endian, `copy` and slices; Base.Map has Go
--   maps as association lists; Base.Text has `%d`, ParseUint, Atoi and strings.Split.
-- - Peer.Packet: peer/packet.go, the payloaders that cut a frame into fragments.
-- - Peer.Proxy: peer/proxy_connection.go, the datagrams of the DLL, the frames that they make up,
--   the calls that wait for a frame, and (Send) the datagrams to the DLL.
-- - Peer.Proxy.AnyOrder, Peer.Proxy.Interleaved, Peer.Proxy.Audio: the datagrams of one frame in
--   any order, between those of other frames, and for audio.
-- - Peer.Proxy.Waiting: the goroutines that wait for tiles, as steps that interleave with the
--   datagrams.
-- - Peer.Signaling: peer/signaling.go, the text of a message to the unit, and the reading of one.
-- - Peer.PriorityLock: peer/priority_lock.go, as steps of callers that interleave.
-- - Peer.Tracks: peer/main.go, the IDs of the tracks that a client publishes.
-- - Peer.Transcoder: peer/transcoder.go, where a video track gets its frames from.
-- - Peer.Media: peer/main.go, TrackLocalCloudRTP and TrackLocalAudioRTP: Bind, WriteVideoFrame,
--   WriteAudioFrame.
-- - Peer.EndToEnd: a frame from the DLL of one client, through its track, to another client's
--   receiving loop.
-- - Peer.Receiver: peer/main.go, the loop that reads the packets of an incoming track.
-- - Peer.Client: peer/main.go, handleMessageCallback and OnICECandidate.
-- - Sfu.Types, Sfu.Tracks: sfu/main.go, the global maps and the list of peers; addTrack,
--   removeTrack, addQualityTrack, addNewTrackForPeer, setTrackQuality, updateClientTrackState,
--   updateClientTrackStateQuality.
-- - Sfu.Signal: sfu/main.go, signalPeerConnections and its closure attemptSync.
-- - Sfu.Socket: sfu/main.go, what websocketHandler does with a client's query, its tracks and its
--   messages.
-- - Sfu.OnTrack: sfu/main.go, the callback for a track that a client publishes, with addTrack and
--   removeTrack as they renegotiate.
-- - Peer.Connected: peer/main.go, OnConnectionStateChange: the addresses that a new connection
--   uses.
-- - Sfu.Protocol: sfu/main.go, OnICECandidate, and how each program reads what the other sends.
-- - Sfu.OnTrack.Regions: the same callback as the regions that it runs under the locks.
-- - Sfu.System: sfu/main.go, what goroutines do between two locks as steps from the unit's start
--   on, with their invariants.
-- - Sfu.Interceptor: sfu/sequence_number_interceptor.go, the numbers of a stream's packets.
-- - Engine, Peer.Setup, Sfu.Setup: peer/main.go and sfu/main.go, the set-up of the engine, the
--   tracks of a client and the transceivers of the unit.
-- - Peer.Start: peer/main.go, what the flags of the client lead to.
-- - Peer.Proxy.Address, Peer.Proxy.Connecting: peer/proxy_connection.go, SetupConnection.
-- - Peer.Log, Sfu.Log: peer/log.go and sfu/log.go, the lines that are printed.
-- - Sfu.Fake, Peer.Media.Plain: small libraries of WebRTC and RTP for the tests.
--
-- How the parts interact: Peer.Proxy hands the DLL's frames to Peer.Media, which puts
-- Peer.Packet's fragments into RTP packets; Sfu.OnTrack reads the IDs that Peer.Tracks makes and
-- relays the packets; Peer.Receiver counts them at the other clients and passes them on to the
-- DLL. Sfu.Signal reads the maps that Sfu.Tracks writes and gives peers their senders by it.
--
-- Conventions. A byte, a uint32 and a uint64 are native numbers with the wrap-around written out.
-- A panic is `none`. A function that runs under a lock from its start to its end is one step; the
-- lock of Peer.PriorityLock is itself modelled by its single calls, and its wait group by the
-- accesses to its counter, its waiters and those that it has released. A map's list order stands
-- for the order in which Go ranges over it. The WebRTC library is the record Sfu.Types.Library:
-- its state is abstract and each call that can fail may fail; the laws that theorems use are few:
-- that ReplaceTrack sets what its sender's Track returns and touches no other sender, is
-- Sfu.Tracks.Quality.ReplaceLaw; that a new track has the ID that it is asked for is
-- Sfu.Socket.Register.NamingLaw; that the calls of a renegotiation go through on a connection that
-- is not closed is Sfu.Signal.Healthy.IsHealthy; Sfu.Fake meets all three. The calls of package
-- net that SetupConnection makes are the record Peer.Proxy.Connecting.Udp. pion/rtp is the record
-- Peer.Media.RtpLibrary; that its packetizer makes one packet of each of the payloader's fragments
-- is Peer.Media.Frames.PacketizerLaw. The writer behind the interceptor is a parameter of
-- Sfu.Interceptor, and the client's one connection is the record Peer.Client.Connection.
--
-- Loops. The loop of the payloaders is recursion on the accessibility of the remaining length, so
-- it needs no fuel and its end is part of the definition; all other loops are recursion on the
-- list or the count that they run over. signalPeerConnections tries once and then starts itself
-- again after 50 ms: one call is one attempt, `try_again` says that another is due, and `attempts`
-- runs the calls one after another on fuel, with the number of closed connections and one more as
-- enough.
--
-- Not modelled: what sockets do behind the calls, the HTTP server and the parsing of flags, which
-- are I/O or calls of libraries; of the callbacks for connection states, all but the addresses of
-- a new connection. The engine of pion/webrtc, as both programs set it up, is the record
-- Engine.Engine; that its connections count their tracks and transceivers is
-- Peer.Setup.Senders.SendingLaw and Sfu.Setup.Transceivers.CountingLaw.
pub mod Base
pub mod Engine
pub mod Peer
pub mod Sfu
