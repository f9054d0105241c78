-- ===== src/Store/View.antt =====
-- The disk store is a map from keys to messages.
use mathlib.Core.Path.{subst}
use tmail.Prelude.{
  Bytes, ◌≡◌, ◌≢◌, ◌∷◌, ◌++◌, [], true, eq_bytes, eq_bytes_iff, refl, arith, ◌↔◌, ◌==◌, ◌∙◌,
  if◌then◌else◌, false, none, some, sym, ap, inl, inr, length, Bool-cases, Option,
}
use tmail.Text.Parts.{IsWhole, split-whole}
use tmail.Store.{
  FilePath, join_name, join_names, join_path, eq_path, storage_path, find_file, get, put,
  remove_file, write_file, del, end_put, key_dirs, Files, end_del, complete,
}

-- A key of bytes that are neither a slash nor a dot, like those of an id.
pub record IsPlain (key : Bytes) : Type 0 where
  pub whole : IsWhole 47 key
  pub no_dot : IsWhole 46 key
  pub some_byte : key ≢ []

eq_path_iff : (p q : FilePath) → (eq_path p q ≡ true) ↔ (p ≡ q)
unfolding eq_path
eq_path_iff (x ∷ p) (y ∷ q) = ground (arith, eq_bytes_iff x y, eq_path_iff p q)
eq_path_iff _ _ = ground arith

plain-names : (key : Bytes) → IsPlain key → (p : FilePath) → join_path p key ≡ p ++ key ∷ []
unfolding join_path join_names join_name eq_bytes
plain-names [] k p = absurd (k.some_byte refl)
plain-names (c ∷ s) k p =
    let other : c ≢ 46 = k.no_dot.0 in
    let one : (c == 46) ≡ false = ground arith in rw (split-whole 47 (c ∷ s) k.whole, one) refl

abbrev last_name : FilePath → Bytes
last_name [] = []
last_name (x ∷ []) = x
last_name (x ∷ (y ∷ p)) = last_name (y ∷ p)

last_name-append : (p : FilePath) (k : Bytes) → last_name (p ++ k ∷ []) ≡ k
last_name-append [] k = refl
last_name-append (x ∷ []) k = refl
last_name-append (x ∷ (y ∷ p)) k = last_name-append (y ∷ p) k

-- The file of a key has the key for its name.
last_name-path : (base : FilePath) (k : Bytes) → IsPlain k → last_name (storage_path base k) ≡ k
unfolding storage_path
last_name-path base k plain = elim (Bool-cases (length k == 1)) [
  | inl short ↦ rw (short, plain-names k plain base) (last_name-append base k)
  | inr long ↦
      rw (long, plain-names k plain (key_dirs 0 k base)) (last_name-append (key_dirs 0 k base) k)
]

same_file :
    (base : FilePath) (j k : Bytes)
    → IsPlain j
    → IsPlain k
    → eq_path (storage_path base k) (storage_path base j) ≡ eq_bytes j k
same_file base j k pj pk = elim (Bool-cases (eq_bytes j k)) [
  | inl same ↦
      let e = (eq_bytes_iff j k).0 same in
      (eq_path_iff (storage_path base k) (storage_path base j)).1 (ap (storage_path base) (sym e))
      ∙ sym same
  | inr differs ↦ elim (Bool-cases (eq_path (storage_path base k) (storage_path base j))) [
    | inl one ↦
        let e = (eq_path_iff (storage_path base k) (storage_path base j)).0 one in
        let names =
          sym (last_name-path base j pj) ∙ (ap last_name (sym e) ∙ last_name-path base k pk) in
        let same = (eq_bytes_iff j k).1 names in cc (← same)
    | inr two ↦ two ∙ sym differs
  ]
]

find-removed :
    (p q : FilePath) (fs : Files)
    → find_file q (remove_file p fs) ≡ (if eq_path p q then none else find_file q fs)
unfolding find_file remove_file
find-removed p q [] = elim (Bool-cases (eq_path p q)) [ inl same ↦ rw same | inr other ↦ rw other ]
find-removed p q ((r, raw) ∷ rest) = elim (Bool-cases (eq_path r p)) [
  | inl at_p ↦ elim (Bool-cases (eq_path p q)) [
    | inl same ↦ rw (at_p, find-removed p q rest, same)
    | inr other ↦
        let e = (eq_path_iff r p).0 at_p in
        let away : eq_path r q ≡ false = subst (λ x. eq_path x q ≡ false) (sym e) other in
        rw (at_p, find-removed p q rest, other, away)
  ]
  | inr not_p ↦ elim (Bool-cases (eq_path r q)) [
    | inl at_q ↦
        let e = (eq_path_iff r q).0 at_q in
        let other : eq_path p q ≡ false =
          differs (λ h. cc (← not_p, ← (eq_path_iff r p).1 (e ∙ sym h))) in
        rw (not_p, at_q, other)
    | inr not_q ↦ rw (not_p, not_q, find-removed p q rest)
  ]
]
  where
    differs : p ≢ q → eq_path p q ≡ false
    differs ne = elim (Bool-cases (eq_path p q)) [
      | inl same ↦ absurd (ne ((eq_path_iff p q).0 same))
      | inr other ↦ other
    ]

full : (k : Bytes) → IsPlain k → (length k == 0) ≡ false
full [] k = absurd (k.some_byte refl)
full (c ∷ s) k = ground arith

get-written :
    (base : FilePath) (key raw : Bytes) (fs : Files) (j : Bytes)
    → IsPlain key
    → IsPlain j
    → get true base j (write_file (storage_path base key) raw fs)
      ≡ (if eq_bytes j key then some raw else get true base j fs)
unfolding get write_file find_file
get-written base key raw fs j pk pj = elim (Bool-cases (eq_bytes j key)) [
  | inl same ↦ rw (full j pj, same_file base j key pj pk, same)
  | inr other ↦ rw (
    full j pj,
    same_file base j key pj pk,
    find-removed (storage_path base key) (storage_path base j) fs,
    same_file base j key pj pk,
    other,
  )
]

end_del-find :
    (p q : FilePath) (fs : Files) (o : Option Bytes)
    → find_file p fs ≡ o
    → find_file q (end_del p o fs).1 ≡ (if eq_path p q then none else find_file q fs)
unfolding end_del
end_del-find p q fs (some raw) h = find-removed p q fs
end_del-find p q fs none h = elim (Bool-cases (eq_path p q)) [
  | inl same ↦ let e = (eq_path_iff p q).0 same in rw same (subst (λ x. find_file x fs ≡ none) e h)
  | inr other ↦ rw other refl
]

get-deleted :
    (base : FilePath) (key : Bytes) (fs : Files) (j : Bytes)
    → IsPlain key
    → IsPlain j
    → get true base j (del true base key fs).1
      ≡ (if eq_bytes j key then none else get true base j fs)
unfolding get del
get-deleted base key fs j pk pj =
    let found =
      end_del-find (storage_path base key) (storage_path base j) fs
        (find_file (storage_path base key) fs) refl in
    elim (Bool-cases (eq_bytes j key)) [
      | inl same ↦ rw (full key pk, full j pj, found, same_file base j key pj pk, same) refl
      | inr other ↦ rw (full key pk, full j pj, found, same_file base j key pj pk, other) refl
    ]

-- For keys of bytes that are no slash and no dot, whose files the operating system does not refuse:
-- after a Put, Get gives the message under its key, and under any other key what it gave before;
-- after a Del, it gives an error under the key, and under any other key what it gave before.
pub put-View :
    (base : FilePath) (key raw : Bytes) (fs : Files)
    → IsPlain key
    → ((put complete base key raw fs).0 ≡ true)
      × ((j : Bytes)
          → IsPlain j
          → get true base j (put complete base key raw fs).1
            ≡ (if eq_bytes j key then some raw else get true base j fs))
      × ((j : Bytes)
          → IsPlain j
          → get true base j (del true base key fs).1
            ≡ (if eq_bytes j key then none else get true base j fs))
unfolding put end_put
put-View base key raw fs plain = (
  rw (full key plain) refl,
  λ j pj. rw (full key plain) (get-written base key raw fs j plain pj),
  λ j pj. get-deleted base key fs j plain pj,
)
