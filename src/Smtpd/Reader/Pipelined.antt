-- ===== src/Smtpd/Reader/Pipelined.antt =====
-- What a client sends behind a message.
use tmail.Prelude.{Bytes, ℕ, ◌∷◌, ◌++◌, arith, ◌≡◌, []}
use tmail.Smtpd.Reader.{
  Limits, Reader, continue, store, push, switch, scan_header, read_data, settle, complete, Move,
  finish, stray,
}

-- Bytes behind a complete message change nothing of how it is read.
module _ (l : Limits) (q : Reader) (rest tail : Bytes) where
  pub settle-append :
      (s : Bytes) (c : ℕ) (r : Reader) (m : Move)
      → ((p : Reader)
          → read_data l p s ≡ complete q rest
          → read_data l p (s ++ tail) ≡ complete q (rest ++ tail))
      → settle l (λ p. read_data l p s) s r c m ≡ complete q rest
      → settle l (λ p. read_data l p (s ++ tail)) (s ++ tail) r c m ≡ complete q (rest ++ tail)
  unfolding settle
  settle-append s c r stray ih h = cc
  settle-append s c r (continue p) ih h = ih p h
  settle-append s c r (finish p) ih h = ground arith
  settle-append s c r (store p) ih h = ground (arith, ih (push c p))

  pub read_data-append :
      (input : Bytes) (r : Reader)
      → read_data l r input ≡ complete q rest
      → read_data l r (input ++ tail) ≡ complete q (rest ++ tail)
  unfolding read_data
  read_data-append [] r h = cc
  read_data-append (c ∷ s) r h =
      let next = record r { header = scan_header c r.header } in
      settle-append s c next (switch r.state c next) (λ p. read_data-append s p) h
