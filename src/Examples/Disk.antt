-- ===== src/Examples/Disk.antt =====
-- Tests of the disk store and of the virus scanner.
use tmail.Prelude.{◌<◌, suc, length, ◌++◌, List}
use tmail.Text.{has_suffix, has_prefix, trim_left, is_space, split_from, onto_first, drop}
use tmail.Scan.{
  verdict, infected, clean, reply_of, trim_line, virus_name, chunk_size, scan_request, zeros,
}
use tmail.Scan.Framing.{received, scan_request-received}
use tmail.Prelude.{Bytes, ◌≡◌, ◌∷◌, [], ℕ, true, none, some, codes, refl, if◌then◌else◌, eq_bytes}
use tmail.Text.{split, has_byte}
use tmail.Text.Parts.{IsWhole-of}
use tmail.Store.{
  FilePath, storage_path, join_path, join_names, join_name, key_dirs, get, put, del, complete,
}
use tmail.Store.View.{IsPlain, put-View}

abbrev base : FilePath
base = codes "var" ∷ codes "store" ∷ []

abbrev key : Bytes
key = codes "a1b2c3"

key_path :
    storage_path base key
    ≡ codes "var"
      ∷ codes "store"
      ∷ codes "a"
      ∷ codes "1"
      ∷ codes "b"
      ∷ codes "2"
      ∷ codes "a1b2c3"
      ∷ []
unfolding storage_path key_dirs join_path join_names join_name split eq_bytes
key_path = refl

-- A dot in a key is no directory.
dotted_path :
    storage_path base (codes "a.b") ≡ codes "var" ∷ codes "store" ∷ codes "a" ∷ codes "a.b" ∷ []
unfolding storage_path key_dirs join_path join_names join_name split eq_bytes
dotted_path = refl

key-IsPlain : IsPlain key
unfolding has_byte
key-IsPlain = record {
  whole = IsWhole-of 47 key refl;
  no_dot = IsWhole-of 46 key refl;
  some_byte = λ e. cc;
}

put-View_example :
    ((put complete base key (codes "hello") []).0 ≡ true)
    × ((j : Bytes)
        → IsPlain j
        → get true base j (put complete base key (codes "hello") []).1
          ≡ (if eq_bytes j key then some (codes "hello") else get true base j []))
    × ((j : Bytes)
        → IsPlain j
        → get true base j (del true base key []).1
          ≡ (if eq_bytes j key then none else get true base j []))
put-View_example = put-View base key (codes "hello") [] key-IsPlain

abbrev found : List Bytes
found = codes "stream: Eicar-Test-Signature FOUND\n" ∷ []

names_virus : verdict found ≡ infected (codes "Eicar-Test-Signature")
unfolding verdict reply_of trim_line trim_left is_space has_suffix has_prefix virus_name split
    split_from onto_first
names_virus = refl

-- An error of the scanner is no virus.
error_is_clean : verdict (codes "INSTREAM size limit exceeded. ERROR\n" ∷ []) ≡ clean
unfolding verdict reply_of trim_line trim_left is_space has_suffix has_prefix
error_is_clean = refl

scan_request-received_example :
    (k : ℕ) × (k < chunk_size)
    × (received (suc (length key)) (drop 10 (scan_request key)) ≡ some (key ++ zeros k))
scan_request-received_example = scan_request-received key
