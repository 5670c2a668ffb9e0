-- ===== src/Resume/PlainHex.antt =====
-- The printer and the reader of rust/ds-core/src/resume.rs do what is relied on of the hex crate.
use directswarm.Hex.{HexCrate}
use directswarm.Resume.{hex_of, parse_hex32}
use directswarm.Resume.RoundTrip.{hex_of-IsHex, parse_hex32-hex_of}

abbrev pub plain_hex : HexCrate
plain_hex = record {
  encode = hex_of;
  decode = parse_hex32;
  decode-encode = parse_hex32-hex_of;
  encode-IsHex = λ a h. hex_of-IsHex a h.bytes;
}
