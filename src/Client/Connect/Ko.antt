-- ===== src/Client/Connect/Ko.antt =====
-- How long an address is left alone.
use tmail.Prelude.{
  Bytes, ◌≡◌, ◌≢◌, ◌≤◌, ◌↔◌, sym, ◌∙◌, ltb→lt, ltb-false→le, ◌+◌, ◌∷◌, [], ℕ, false, refl, eq_bytes,
  inl, inr, Bool-cases, none, some, Option, arith, ltb, eq_bytes_iff, eq_bytes_refl,
}
use tmail.Client.Connect.{Net, KoIps, find_ko, remove_ko, is_remote_ip_ok, set_ip_ko, judge_ko}

pub eq_bytes-ne : (a b : Bytes) → a ≢ b → eq_bytes a b ≡ false
eq_bytes-ne a b ne = elim (Bool-cases (eq_bytes a b)) [
  | inl same ↦ absurd (ne ((eq_bytes_iff a b).0 same))
  | inr differs ↦ differs
]

pub find-remove :
    (ip other : Bytes) (l : KoIps) → other ≢ ip → find_ko other (remove_ko ip l) ≡ find_ko other l
unfolding find_ko remove_ko
find-remove ip other [] ne = refl
find-remove ip other ((i, t) ∷ rest) ne = elim (Bool-cases (eq_bytes i ip)) [
  | inl same ↦
      let e = (eq_bytes_iff i ip).0 same in
      let differs = eq_bytes-ne i other (λ k. ne (sym k ∙ e)) in
      rw (same, differs) (find-remove ip other rest ne)
  | inr differs ↦ elim (Bool-cases (eq_bytes i other)) [
    | inl at ↦ rw (differs, at)
    | inr away ↦ rw (differs, away) (find-remove ip other rest ne)
  ]
]

judge_ko_iff :
    (ip : Bytes) (t : ℕ) (n : Net) → ((judge_ko ip (some (some t)) n).0 ≡ false) ↔ (n.now ≤ t + 900)
unfolding judge_ko
judge_ko_iff ip t n = elim (Bool-cases (ltb (t + 900) n.now)) [
  | inl old ↦ rw old (λ h. cc, λ h. absurd (omega (arith, ltb→lt (t + 900) n.now old)))
  | inr recent ↦ rw recent (λ _. ltb-false→le (t + 900) n.now recent, λ _. refl)
]

judge_ko-same :
    (ip : Bytes) (r : Option (Option ℕ)) (n m : Net)
    → n.now ≡ m.now
    → (judge_ko ip r n).0 ≡ (judge_ko ip r m).0
unfolding judge_ko
judge_ko-same ip none n m e = refl
judge_ko-same ip (some none) n m e = refl
judge_ko-same ip (some (some t)) n m e = elim (Bool-cases (ltb (t + 900) n.now)) [
  | inl old ↦ ground arith
  | inr recent ↦ ground arith
]

-- An address that is put into the bucket is not tried again for 900 seconds, and after that it is;
-- any other address is judged as before.
pub set_ip_ko_iff :
    (ip : Bytes) (n : Net) (later : ℕ)
    → (((is_remote_ip_ok ip (record (set_ip_ko ip n) { now = later })).0 ≡ false)
        ↔ (later ≤ n.now + 900))
      × ((other : Bytes)
          → other ≢ ip
          → (is_remote_ip_ok other (record (set_ip_ko ip n) { now = later })).0
            ≡ (is_remote_ip_ok other (record n { now = later })).0)
unfolding is_remote_ip_ok set_ip_ko find_ko
set_ip_ko_iff ip n later = (
  rw (eq_bytes_refl ip) (judge_ko_iff ip n.now _),
  λ other ne.
      let differs = eq_bytes-ne ip other (λ k. ne (sym k)) in
      rw (differs, find-remove ip other n.ko_ips ne)
        (judge_ko-same other (find_ko other n.ko_ips) _ _ refl),
)
