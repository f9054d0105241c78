-- ===== src/Deliverd/Keeps.antt =====
-- What leaves the mark of success of a delivery alone.
use Queue.{err, panic}
use tmail.Queue.{Queue, Result}
use tmail.Prelude.{Bytes, ◌≡◌, ◌++◌, ℕ, true, false, Bool, none, some, Option, refl, arith}
use tmail.Queue
use tmail.Deliverd.{
  Delivery, World, requeue, end_delete, discard, end_bounce, enqueue_bounce, die_perm, die_temp,
  handle_smtp_error, save, bounce, too_long_notice, raw_or_notice, ok,
}

abbrev pub Keeps : Delivery → Delivery → Type 0
Keeps d t = t.success ≡ d.success

module _ (w : World) where
  pub requeue-Keeps : (status : ℕ) (d : Delivery) → Keeps d (requeue w status d)
  unfolding requeue save
  requeue-Keeps status d = refl

  end_delete-Keeps :
      (status : ℕ) (r : Queue × Bool) (d : Delivery) → Keeps d (end_delete w status r d)
  unfolding end_delete
  end_delete-Keeps status (q, true) d = refl
  end_delete-Keeps status (q, false) d = requeue-Keeps status (record d { queue = q })

  discard-Keeps : (d : Delivery) → Keeps d (discard w d)
  unfolding discard
  discard-Keeps d = end_delete-Keeps 1 (Queue.delete w.delete_faults d.qmsg d.queue) d

  end_bounce-Keeps : (r : Queue × Result Bytes) (d : Delivery) → Keeps d (end_bounce w r d)
  unfolding end_bounce
  end_bounce-Keeps (q, ok id) d =
      end_delete-Keeps 1 (Queue.delete w.delete_faults d.qmsg q) (record d { queue = q })
  end_bounce-Keeps (q, err) d = requeue-Keeps 3 (record d { queue = q })
  end_bounce-Keeps (q, panic) d = refl

  enqueue_bounce-Keeps : (r : Option Bytes) (d : Delivery) → Keeps d (enqueue_bounce w r d)
  unfolding enqueue_bounce
  enqueue_bounce-Keeps none d = requeue-Keeps 3 d
  enqueue_bounce-Keeps (some t) d = end_bounce-Keeps _ d

  pub die_perm-Keeps : (msg : Bytes) (d : Delivery) → Keeps d (die_perm w msg d)
  unfolding die_perm bounce
  die_perm-Keeps msg d =
      let raw = raw_or_notice d.raw_data in
      ground (
        arith,
        discard-Keeps d,
        enqueue_bounce-Keeps (w.render_bounce d.qmsg.mail_from d.qmsg.rcpt_to msg raw)
            (record d { raw_data = some raw }),
      )

  pub die_temp-Keeps : (msg : Bytes) (d : Delivery) → Keeps d (die_temp w msg d)
  unfolding die_temp
  die_temp-Keeps msg d =
      ground (arith, discard-Keeps d, requeue-Keeps 2 d, die_perm-Keeps (msg ++ too_long_notice) d)

  pub handle_smtp_error-Keeps :
      (code : ℕ) (msg : Bytes) (d : Delivery) → Keeps d (handle_smtp_error w code msg d)
  unfolding handle_smtp_error
  handle_smtp_error-Keeps code msg d = ground (arith, die_perm-Keeps msg d, die_temp-Keeps msg d)
