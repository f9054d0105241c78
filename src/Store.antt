-- ===== src/Store.antt =====
-- core/store_disk.go: the raw messages as files of a directory.
-- A path is the list of its names below the root. What the operating system does is told by
-- parameters: a read or a removal may be refused, and a write may be refused or break off.
pub mod View
use tmail.Prelude.{
  Bytes, ◌∷◌, ◌++◌, ◌&&◌, ◌==◌, ◌+◌, if◌then◌else◌, [], ℕ, true, false, Bool, none, some, Option,
  List, eq_bytes, length, codes,
}
use tmail.Text.{split, take}

abbrev pub FilePath : Type 0
FilePath = List Bytes

abbrev pub Files : Type 0
Files = List (FilePath × Bytes)

unfoldable pub parent : FilePath → FilePath
parent [] = []
parent (x ∷ []) = []
parent (x ∷ (y ∷ p)) = x ∷ parent (y ∷ p)

-- `path.Join` of one name
unfoldable pub join_name : FilePath → Bytes → FilePath
join_name p name =
    if eq_bytes name []
    then p
    else if eq_bytes name (codes ".")
    then p
    else if eq_bytes name (codes "..")
    then parent p
    else p ++ name ∷ []

unfoldable pub join_names : FilePath → List Bytes → FilePath
join_names p [] = p
join_names p (name ∷ rest) = join_names (join_name p name) rest

-- `path.Join`
unfoldable pub join_path : FilePath → Bytes → FilePath
join_path p elem = join_names p (split elem (47 ∷ []))

-- the loop over the first bytes of the key: not its last one, and four at most
unfoldable pub key_dirs : ℕ → Bytes → FilePath → FilePath
key_dirs i (c ∷ (d ∷ rest)) p =
    let deeper = key_dirs (i + 1) (d ∷ rest) (join_path p (c ∷ [])) in
    if i == 3 then join_path p (c ∷ []) else deeper
key_dirs i _ p = p

-- `getStoragePath`
unfoldable pub storage_path : FilePath → Bytes → FilePath
storage_path base key =
    if length key == 1 then join_path base key else join_path (key_dirs 0 key base) key

unfoldable pub eq_path : FilePath → FilePath → Bool
eq_path [] [] = true
eq_path (x ∷ p) (y ∷ q) = eq_bytes x y && eq_path p q
eq_path _ _ = false

unfoldable pub find_file : FilePath → Files → Option Bytes
find_file p [] = none
find_file p ((q, raw) ∷ rest) = if eq_path q p then some raw else find_file p rest

unfoldable pub remove_file : FilePath → Files → Files
remove_file p [] = []
remove_file p ((q, raw) ∷ rest) =
    let kept = remove_file p rest in if eq_path q p then kept else (q, raw) ∷ kept

unfoldable pub write_file : FilePath → Bytes → Files → Files
write_file p raw fs = (p, raw) ∷ remove_file p fs

-- How a write ends: the file is never opened, it is emptied and gets the first bytes, or all.
pub data Written : Type 0 where
  unopened complete : Written
  broken_off : ℕ → Written

-- `Get`
unfoldable pub get : Bool → FilePath → Bytes → Files → Option Bytes
get readable base key fs =
    if length key == 0
    then none
    else if readable
    then find_file (storage_path base key) fs
    else none

unfoldable pub end_put : FilePath → Bytes → Written → Files → Bool × Files
end_put p raw unopened fs = (false, fs)
end_put p raw (broken_off n) fs = (false, write_file p (take n raw) fs)
end_put p raw complete fs = (true, write_file p raw fs)

-- `Put`; true where there is no error
unfoldable pub put : Written → FilePath → Bytes → Bytes → Files → Bool × Files
put w base key raw fs =
    if length key == 0 then (false, fs) else end_put (storage_path base key) raw w fs

unfoldable pub end_del : FilePath → Option Bytes → Files → Bool × Files
end_del p none fs = (false, fs)
end_del p (some raw) fs = (true, remove_file p fs)

-- `Del`
unfoldable pub del : Bool → FilePath → Bytes → Files → Bool × Files
del removable base key fs =
    let p = storage_path base key in
    if length key == 0
    then (false, fs)
    else if removable
    then end_del p (find_file p fs) fs
    else (false, fs)
