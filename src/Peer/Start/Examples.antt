-- ===== src/Peer/Start/Examples.antt =====
-- Three clients: with input from the DLL, without it, and for debugging.
use web_rtcsfu.Base.{◌≡◌, refl, true, false, some, [], nat_eq, bytes_eq}
use web_rtcsfu.Base.Bytes.{Bytes, codes}
use web_rtcsfu.Base.Text.{pos, split}
use web_rtcsfu.Peer.Proxy.Address.{dll_address}
use web_rtcsfu.Peer.Proxy.Connecting.{Udp, setup_connection}
use web_rtcsfu.Peer.Start.{Flags, start, panics}
use web_rtcsfu.Peer.Start.Outcome.{start-outcome}

abbrev sender : Flags
sender = record {
  proxy_port = codes ":8000";
  use_proxy_input = true;
  n_tiles = pos 2;
  n_qualities = pos 3;
  enable_debug = false;
}

abbrev viewer : Flags
viewer = record sender { use_proxy_input = false }

abbrev debugging : Flags
debugging = record sender { enable_debug = true }

-- A machine on which each address is good and the DLL takes every packet.
abbrev machine : Udp
machine = record {
  Address = Bytes;
  resolve = λ text. some text;
  listen = λ address. true;
  write = λ address packet. true;
  read = some (codes "dll");
}

abbrev unnamed : Flags
unnamed = record sender { proxy_port = [] }

debugging_panics : start machine debugging ≡ panics
debugging_panics = start-outcome machine debugging

-- An empty -p.
unnamed_panics : start machine unnamed ≡ panics
unfolding start setup_connection dll_address split
unnamed_panics = refl
