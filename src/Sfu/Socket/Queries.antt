-- ===== src/Sfu/Socket/Queries.antt =====
-- The unit reads the numbers that a client writes into its query.
use web_rtcsfu.Base.{◌≡◌, none, some, [], ◌∷◌}
use web_rtcsfu.Base.Bytes.{Bytes}
use web_rtcsfu.Base.Text.{ℤ, pos, atoi, format_int}
use web_rtcsfu.Base.Text.Numbers.{IsInt, atoi-format_int}
use web_rtcsfu.Sfu.Socket.{read_number, read_client, read_query}

read_number-atoi :
    (text : Bytes) (default z : ℤ) → atoi text ≡ some z → read_number text default ≡ z
unfolding read_number
read_number-atoi [] default z e =
    let broken : none ≡ some z = (unfold atoi in e) in absurd (cc broken)
read_number-atoi (c ∷ text) default z e = rw (e, read_number)

read_client-atoi : (text : Bytes) (z : ℤ) → atoi text ≡ some z → read_client text ≡ some z
unfolding read_client
read_client-atoi [] z e = let broken : none ≡ some z = (unfold atoi in e) in absurd (cc broken)
read_client-atoi (c ∷ text) z e = e

-- For three ints, the texts of the query give them back, whatever the default number of tiles is.
pub read_query-numbers :
    (max_tiles n_tiles n_qualities client_id : ℤ)
    → IsInt n_tiles
    → IsInt n_qualities
    → IsInt client_id
    → read_query max_tiles (format_int n_tiles) (format_int n_qualities) (format_int client_id)
      ≡ some (record {
        number_of_tiles = n_tiles;
        number_of_qualities = n_qualities;
        client_id = client_id;
      })
unfolding read_query
read_query-numbers max_tiles n_tiles n_qualities client_id ht hq hc = rw (
  read_client-atoi (format_int client_id) client_id (atoi-format_int client_id hc),
  read_number-atoi (format_int n_tiles) max_tiles n_tiles (atoi-format_int n_tiles ht),
  read_number-atoi (format_int n_qualities) (pos 1) n_qualities (atoi-format_int n_qualities hq),
)
