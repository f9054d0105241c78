-- ===== src/Scan.antt =====
-- core/clamav.go: what is sent to the virus scanner, and what its reply means.
-- The calls of the socket do not fail; the reader that `ScanStream` is given has all its bytes.
pub mod Framing
use tmail.Prelude.{
  Bytes, ◌∷◌, ◌++◌, ◌-◌, ◌/◌, ◌%◌, ◌^◌, if◌then◌else◌, [], ℕ, zero, suc, List, length, codes,
}
use tmail.Text.{split, take, drop, has_suffix, trim_left}
use mathlib.Core.List.{reverse}

abbrev pub chunk_size : ℕ
chunk_size = 1024

unfoldable pub zeros : ℕ → Bytes
zeros zero = []
zeros (suc n) = 0 ∷ zeros n

-- the four bytes of a length, the highest first
unfoldable pub size_bytes : ℕ → Bytes
size_bytes n = (n / 2 ^ 24) % 256 ∷ (n / 2 ^ 16) % 256 ∷ (n / 2 ^ 8) % 256 ∷ n % 256 ∷ []

-- `inbuf` after `Read`: the next bytes, and zeros up to the size of a chunk
unfoldable pub in_buf : Bytes → Bytes
in_buf s = let got = take chunk_size s in got ++ zeros (chunk_size - length got)

-- The loop: each round reads at least one byte, so that the number of bytes is enough fuel.
unfoldable pub chunks : ℕ → Bytes → Bytes
chunks fuel [] = []
chunks zero (c ∷ s) = []
chunks (suc fuel) (c ∷ s) =
    size_bytes chunk_size ++ (in_buf (c ∷ s) ++ chunks fuel (drop chunk_size (c ∷ s)))

-- all that `ScanStream` writes
unfoldable pub scan_request : Bytes → Bytes
scan_request raw = codes "nINSTREAM\n" ++ (chunks (length raw) raw ++ zeros 4)

-- `strings.TrimRight(line, " \t\r\n")`, where a line has no other white space at its end
unfoldable pub trim_line : Bytes → Bytes
trim_line line = reverse (trim_left (reverse line))

unfoldable pub reply_of : List Bytes → Bytes
reply_of [] = []
reply_of (line ∷ rest) = trim_line line ++ reply_of rest

pub data ScanResult : Type 0 where
  clean panics : ScanResult
  infected : Bytes → ScanResult

unfoldable pub virus_name : List Bytes → ScanResult
virus_name (x ∷ (virus ∷ rest)) = infected virus
virus_name _ = panics

-- the end of `ScanStream`, with the lines of the reply
unfoldable pub verdict : List Bytes → ScanResult
verdict lines =
    let reply = reply_of lines in
    if has_suffix reply (codes "FOUND") then virus_name (split reply (32 ∷ [])) else clean
