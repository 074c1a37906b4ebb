-- ===== src/Peer/Proxy/Address/Examples.antt =====
-- A port without a host, one with a host, and an IPv6 address, which is cut at its colons.
use web_rtcsfu.Base.{◌≡◌, refl, some, dec_lt}
use web_rtcsfu.Base.Bytes.{codes}
use web_rtcsfu.Base.Text.{format_int, format_uint, split, atoi, wrap_int}
use web_rtcsfu.Peer.Proxy.Address.{dll_address}

own_machine : dll_address (codes ":8000") ≡ some (codes "127.0.0.1:8001")
unfolding dll_address split atoi format_int format_uint dec_lt wrap_int
own_machine = refl

cut_at_colons : dll_address (codes "[::1]:8000") ≡ some (codes "[:1")
unfolding dll_address split atoi format_int format_uint dec_lt wrap_int
cut_at_colons = refl
