-- ===== src/Sfu/Socket/Texts.antt =====
-- A message of quality decisions, as a client writes it: the decisions reach the tiles that it names.
use web_rtcsfu.Base.{ℕ, ◌+◌, ◌≡◌, refl, ap, ◌∙◌, List, [], ◌∷◌, map, All, arith, bytes_eq, nat_eq}
use web_rtcsfu.Base.Bytes.{Bytes}
use web_rtcsfu.Base.Text.{ℤ, pos, split, format_int}
use web_rtcsfu.Base.Text.Laws.{Lacks}
use web_rtcsfu.Base.Text.Join.{join, split-join, join-Lacks, format_ints-Lacks}
use web_rtcsfu.Base.Text.Numbers.{IsInt, atoi-format_int, format_int-Lacks}
use web_rtcsfu.Sfu.Types.{Peer, Sfu, Library, video_id}
use web_rtcsfu.Sfu.Tracks.{set_track_quality}
use web_rtcsfu.Sfu.Socket.{decide_tiles, decide_client, decide_clients, quality_decisions}

-- The decisions on one client's tiles, from tile 0 on.
pub record Entry : Type 0 where
  pub client : ℤ
  pub qualities : List ℤ

-- `client,q0,q1,…`
abbrev pub entry_text : Entry → Bytes
entry_text e = join b',' (format_int e.client) (map format_int e.qualities)

-- The entries with `;` in between.
abbrev pub message_text : Entry → List Entry → Bytes
message_text e es = join b';' (entry_text e) (map entry_text es)

abbrev pub IsInts : Entry → Type 0
IsInts e = IsInt e.client × All IsInt e.qualities

entry-Lacks : (e : Entry) → Lacks b';' (entry_text e)
entry-Lacks e =
    join-Lacks b';' b',' (format_int e.client) (map format_int e.qualities) (omega arith)
      (format_int-Lacks e.client b';' (omega arith) (omega arith))
      (format_ints-Lacks b';' e.qualities (omega arith) (omega arith))

entries-Lacks : (es : List Entry) → All (Lacks b';') (map entry_text es)
entries-Lacks [] = tt
entries-Lacks (e ∷ es) = (entry-Lacks e, entries-Lacks es)

module _ (lib : Library) (s : Sfu) where
  -- `setTrackQuality` for each of the tiles, in order.
  abbrev pub decide_from : ℤ → ℕ → List ℤ → Peer → lib.Rtc → Peer × lib.Rtc
  decide_from client tile [] p rtc = (p, rtc)
  decide_from client tile (q ∷ qs) p rtc =
      let now = set_track_quality lib s rtc p (video_id client (pos tile)) q in
      decide_from client (tile + 1) qs now.0 now.1

  abbrev pub decide_all : List Entry → Peer → lib.Rtc → Peer × lib.Rtc
  decide_all [] p rtc = (p, rtc)
  decide_all (e ∷ es) p rtc =
      let now = decide_from e.client 0 e.qualities p rtc in decide_all es now.0 now.1

  decide_tiles-texts :
      (client : ℤ) (tile : ℕ) (qs : List ℤ) (p : Peer) (rtc : lib.Rtc)
      → All IsInt qs
      → decide_tiles lib s (format_int client) tile (map format_int qs) p rtc
        ≡ decide_from client tile qs p rtc
  unfolding decide_tiles video_id format_int
  decide_tiles-texts client tile [] p rtc h = refl
  decide_tiles-texts client tile (q ∷ qs) p rtc (int, h) =
      let now = set_track_quality lib s rtc p (video_id client (pos tile)) q in
      rw (atoi-format_int q int, decide_tiles)
        (decide_tiles-texts client (tile + 1) qs now.0 now.1 h)

  decide_client-text :
      (e : Entry) (p : Peer) (rtc : lib.Rtc)
      → All IsInt e.qualities
      → decide_client lib s (split (entry_text e) b',') p rtc
        ≡ decide_from e.client 0 e.qualities p rtc
  unfolding decide_client
  decide_client-text e p rtc h =
      ap (λ parts. decide_client lib s parts p rtc)
        (split-join b',' (format_int e.client) (map format_int e.qualities)
          (format_int-Lacks e.client b',' (omega arith) (omega arith))
          (format_ints-Lacks b',' e.qualities (omega arith) (omega arith)))
      ∙ decide_tiles-texts e.client 0 e.qualities p rtc h

  decide_clients-texts :
      (es : List Entry) (p : Peer) (rtc : lib.Rtc)
      → All IsInts es
      → decide_clients lib s (map entry_text es) p rtc ≡ decide_all es p rtc
  unfolding decide_clients
  decide_clients-texts [] p rtc h = refl
  decide_clients-texts (e ∷ es) p rtc ((client, int), h) =
      let now = decide_from e.client 0 e.qualities p rtc in
      rw (decide_client-text e p rtc int, decide_clients) (decide_clients-texts es now.0 now.1 h)

  -- For a message of quality decisions as a client writes it, entries with `;` in between, each a
  -- client and the qualities of its tiles from tile 0 on with `,` in between, all of them ints in
  -- decimal: the unit handles it as `setTrackQuality` for the IDs that it publishes these clients'
  -- tiles under, each with its quality, in the order of the message.
  pub quality_decisions-text :
      (e : Entry) (es : List Entry) (p : Peer) (rtc : lib.Rtc)
      → All IsInts (e ∷ es)
      → quality_decisions lib s (message_text e es) p rtc ≡ decide_all (e ∷ es) p rtc
  unfolding quality_decisions
  quality_decisions-text e es p rtc h =
      ap (λ parts. decide_clients lib s parts p rtc)
        (split-join b';' (entry_text e) (map entry_text es) (entry-Lacks e) (entries-Lacks es))
      ∙ decide_clients-texts (e ∷ es) p rtc h
