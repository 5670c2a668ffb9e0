-- ===== src/PeerState/File.antt =====
-- The file of rust/ds-net/src/peerstate.rs: a header and a row for each peer, written by `save` and
-- read by `open`.
pub mod RoundTrip
use directswarm.Base.{
  ℕ, ◌≤◌, List, [], ◌∷◌, ◌++◌, Option, none, some, ◌>>=◌, unwrap_or, get_elem?, insert, bytes_eq,
  codes, u32_max, u64_max,
}
use directswarm.Base.Decimal.{decimal, parse_uint}
use directswarm.Base.Split.{lines, split_on}
use directswarm.Hex.{HexCrate}
use directswarm.PeerState.{PeerState, Store}

abbrev pub header : List ℕ
header =
    codes
      "overlay_hex,threshold_last,lambda_ms,settled_units,last_ok_unix,service_cps_x10,surplus_units"

-- An absent latency is an empty column.
abbrev pub latency : Option ℕ → List ℕ
latency none = []
latency (some l) = decimal 20 l

-- The columns behind the peer's address.
abbrev pub columns : PeerState → List (List ℕ)
columns s =
    decimal 20 s.threshold_last
    ∷ latency s.lambda_ms
    ∷ decimal 20 s.settled_units
    ∷ decimal 20 s.last_ok_unix
    ∷ decimal 10 s.service_cps_x10
    ∷ decimal 20 s.surplus_units
    ∷ []

abbrev pub joined : List ℕ → List (List ℕ) → List ℕ
joined first [] = first
joined first (c ∷ cs) = first ++ b',' ∷ joined c cs

abbrev pub row : HexCrate → List ℕ × PeerState → List ℕ
row hex (overlay, s) = joined (hex.encode overlay) (columns s)

abbrev pub rows : HexCrate → Store → List ℕ
rows hex [] = []
rows hex (e ∷ entries) = row hex e ++ b'\n' ∷ rows hex entries

-- `save`: the text that the file has afterwards.
unfoldable pub save : HexCrate → Store → List ℕ
save hex entries = header ++ b'\n' ∷ rows hex entries

-- `parse().unwrap_or(0)`.
abbrev pub number_or_zero : ℕ → List ℕ → ℕ
number_or_zero bound text = unwrap_or (parse_uint bound text) 0

-- A column that older rows lack.
abbrev pub late_column : ℕ → Option (List ℕ) → ℕ
late_column bound column = unwrap_or (column >>= parse_uint bound) 0

unfoldable pub read_columns : HexCrate → List (List ℕ) → Option (List ℕ × PeerState)
read_columns hex cols = do
  oh ← get_elem? cols 0
  t ← get_elem? cols 1
  l ← get_elem? cols 2
  s ← get_elem? cols 3
  last ← get_elem? cols 4
  overlay ← hex.decode oh
  some (
    overlay,
    record {
      threshold_last = number_or_zero u64_max t;
      lambda_ms = parse_uint u64_max l;
      settled_units = number_or_zero u64_max s;
      service_cps_x10 = late_column u32_max (get_elem? cols 5);
      surplus_units = late_column u64_max (get_elem? cols 6);
      last_ok_unix = number_or_zero u64_max last;
    },
  )

-- A row that does not have the first five columns, or no address, is skipped.
abbrev pub add_row : Option (List ℕ × PeerState) → Store → Store
add_row none m = m
add_row (some (overlay, s)) m = insert overlay s m

unfoldable pub read_rows : HexCrate → List (List ℕ) → Store → Store
read_rows hex [] m = m
read_rows hex (line ∷ rest) m =
    read_rows hex rest (add_row (read_columns hex (split_on b',' line)) m)

abbrev pub skip_header : List (List ℕ) → List (List ℕ)
skip_header [] = []
skip_header (line ∷ rest) = rest

-- `PeerStateStore::open`: no file is an empty store.
unfoldable pub open_file : HexCrate → Option (List ℕ) → Store
open_file hex none = []
open_file hex (some text) = read_rows hex (skip_header (lines text)) []
