-- ===== src/Client/Tls.antt =====
-- When the client speaks over TLS.
use mathlib.Core.Path.{subst}
use tmail.Prelude.{Bytes, ◌≡◌, ◌↔◌, true, none, false, some, Option, refl, ◌++◌, sym, ap, codes}
use tmail.Client.{
  SmtpClient, cmd, start_tls, over_tls, end_tls, ehlo, end_ehlo, Outcome, extensions, ClientError,
}

abbrev IsOver : Outcome × SmtpClient → Type 0
IsOver x =
    ((x.0.err ≡ none) ↔ (x.1.tls ≡ true)) × (x.0.err ≡ none → x.1.ext ≡ some (extensions x.0.msg))

end_tls-IsOver :
    (o : Outcome) (e : Option ClientError) (c : SmtpClient)
    → o.err ≡ e
    → c.tls ≡ false
    → IsOver (end_tls (end_ehlo o e c).0 e (end_ehlo o e c).1)
unfolding end_tls end_ehlo
end_tls-IsOver o none c h k = ((λ _. refl, λ _. h), λ _. refl)
end_tls-IsOver o (some e) c h k = ((λ x. cc (← x, ← h), λ x. cc (← x, ← k)), λ x. cc (← x, ← h))

end_ehlo-outcome : (o : Outcome) (e : Option ClientError) (c : SmtpClient) → (end_ehlo o e c).0 ≡ o
unfolding end_ehlo
end_ehlo-outcome o none c = refl
end_ehlo-outcome o (some e) c = refl

ehlo-IsOver :
    (me : Bytes) (c : SmtpClient)
    → c.tls ≡ false
    → IsOver (end_tls (ehlo me c).0 (ehlo me c).0.err (ehlo me c).1)
unfolding ehlo cmd
ehlo-IsOver me c k =
    let (o, c') = cmd 250 (codes "EHLO " ++ me) c in
    subst (λ e. IsOver (end_tls (end_ehlo o o.err c').0 e (end_ehlo o o.err c').1))
      (ap (λ x. x.err) (sym (end_ehlo-outcome o o.err c'))) (end_tls-IsOver o o.err c' refl k)

over_tls-IsOver :
    (me : Bytes) (o : Outcome) (e : Option ClientError) (c : SmtpClient)
    → o.err ≡ e
    → c.tls ≡ false
    → IsOver (over_tls me o e c)
unfolding over_tls
over_tls-IsOver me o (some e) c h k = ((λ x. cc (← x, ← h), λ x. cc (← x, ← k)), λ x. cc (← x, ← h))
over_tls-IsOver me o none c h k = ehlo-IsOver me c k

-- StartTLS gives no error exactly if the client is then marked as speaking over TLS, and the
-- extensions are then those of the EHLO that was sent over TLS, not those it had before.
pub start_tls_iff :
    (me : Bytes) (c : SmtpClient)
    → (((start_tls me c).0.err ≡ none) ↔ ((start_tls me c).1.tls ≡ true))
      × ((start_tls me c).0.err ≡ none
          → (start_tls me c).1.ext ≡ some (extensions (start_tls me c).0.msg))
unfolding start_tls cmd
start_tls_iff me c = over_tls-IsOver me _ _ _ refl refl
