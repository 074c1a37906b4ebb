-- ===== src/Peer/Start.antt =====
-- peer/main.go, `main`: what the flags decide before the client connects, up to the assignment of the
-- websocket handler, and the transcoder that the goroutines use. The set-up of the WebRTC engine in
-- between is calls of the library.
pub mod Listening
pub mod Outcome
mod Examples
use web_rtcsfu.Base.{
  ℕ, Bool, true, Option, none, some, ◌>>=◌, ◌&&◌, not, ◌==◌, bytes_eq, if◌then◌else◌,
}
use web_rtcsfu.Base.Bytes.{Bytes, codes}
use web_rtcsfu.Base.Text.{ℤ, pos, negsuc}
use web_rtcsfu.Peer.Proxy.Types.{ProxyConnection}
use web_rtcsfu.Peer.Proxy.{new_proxy_connection, start_listening}
use web_rtcsfu.Peer.Proxy.Connecting.{Udp, Socket, setup_connection}
use web_rtcsfu.Peer.Transcoder.{
  Transcoder, remote, dummy, new_transcoder_remote, new_transcoder_dummy,
}

-- The flags that `main` branches on.
pub record Flags : Type 0 where
  pub proxy_port : Bytes  -- -p
  pub use_proxy_input : Bool  -- -i
  pub n_tiles : ℤ  -- -t
  pub n_qualities : ℤ  -- -q
  pub enable_debug : Bool  -- -d

-- How often `for t := 0; t < n; t++` runs.
abbrev pub rounds : ℤ → ℕ
rounds (pos n) = n
rounds (negsuc n) = 0

module _ (udp : Udp) where
  -- The global `proxyConn`, and the transcoder, of a client without debugging.
  pub open_proxy : Flags → Option (Socket udp × ProxyConnection × Transcoder)
  open_proxy f = setup_connection udp f.proxy_port >>= λ socket.
      if f.use_proxy_input
      then some (
        socket,
        start_listening new_proxy_connection (rounds f.n_tiles) (rounds f.n_qualities),
        remote new_transcoder_remote,
      )
      else some (socket, new_proxy_connection, dummy new_transcoder_dummy)

  -- `os.Exit(1)`, a panic, or the client that goes on.
  pub data Start : Type 0 where
    exits : Start
    panics : Start
    runs : Socket udp → ProxyConnection → Transcoder → Start

  -- `proxyConn.ws_handler = wsHandler`
  set_handler : Option (Socket udp × ProxyConnection × Transcoder) → Start
  set_handler none = panics
  set_handler (some (socket, pc, t)) = runs socket (record pc { ws_handler = true }) t

  -- With debugging `proxyConn` stays nil.
  pub start : Flags → Start
  unfolding set_handler open_proxy
  start f =
      if f.proxy_port == codes ":0" && not f.enable_debug
      then exits
      else (if f.enable_debug then panics else set_handler (open_proxy f))
