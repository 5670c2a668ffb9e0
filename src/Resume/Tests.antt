-- ===== src/Resume/Tests.antt =====
-- A sidecar written and read, and texts that are no sidecar.
use directswarm.Base.{◌≡◌, refl, none, some, replicate, codes, arith, All, ℕ, ◌<◌, zero, suc}
use directswarm.Base.Decimal.{scan, parse_uint}
use directswarm.Base.Split.{lines_from, strip_cr}
use directswarm.Resume.{ResumeState, render, parse}
use directswarm.Resume.RoundTrip.{parse-render}

abbrev halfway : ResumeState
halfway = record { root = replicate 32 0x2e; offset = 123_456_789 }

zeros_small : (n : ℕ) → All (λ b. b < 256) (replicate n 0x2e)
zeros_small zero = tt
zeros_small (suc n) = (omega arith, zeros_small n)

parse-render_example : parse (render halfway) ≡ some halfway
parse-render_example =
    parse-render halfway (record { size = refl; bytes = zeros_small 32 }) (omega arith)

-- A sign is accepted by the number's parser.
with_plus : parse_uint 1_000 (codes "+42") ≡ some 42
unfolding parse_uint scan
with_plus = refl

other_version : parse (codes "directswarm-resume v2\nroot=00\n") ≡ none
unfolding parse lines_from strip_cr
other_version = refl
