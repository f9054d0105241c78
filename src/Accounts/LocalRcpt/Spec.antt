-- ===== src/Accounts/LocalRcpt/Spec.antt =====
-- What `IsValidLocalRcpt` decides.
use tmail.Directory.{Alias}
use tmail.Text.{to_lower, split}
use tmail.Prelude.{
  Bytes, ◌≡◌, ◌↔◌, ◌∷◌, ◌++◌, ◌∙◌, [], ℕ, suc, zero, true, false, Bool, none, some, Option, List,
  refl, ap, inl, inr, Bool-cases, ◌≢◌, arith,
}
use tmail.Accounts.LocalRcpt.Steps.{
  healthy, is_valid-step, by_domain-step, through_alias-some, through_alias-none, has_place,
}
use tmail.Accounts.LocalRcpt.{is_valid_local_rcpt, by_domain, has_box, through_alias}
use tmail.Accounts.{
  Tables, Db, Returned, find_user, value, Action, is_some, find_alias, find_catchall,
}

-- A recipient that the tables have a place for: the mailbox of a user, an alias of its own, a place
-- at the domain that its domain is an alias of, or a catchall where its domain is no alias.
pub data Deliverable (t : Tables) : Bytes → Type 0 where
  by_mailbox :
      {rcpt : Bytes} → has_box (find_user (to_lower rcpt) t.users) ≡ true → Deliverable t rcpt
  by_alias :
      {rcpt : Bytes} → is_some (find_alias (to_lower rcpt) t.aliases) ≡ true → Deliverable t rcpt
  by_domain_alias :
      {rcpt : Bytes} (l d : Bytes) (a : Alias)
      → split rcpt (64 ∷ []) ≡ l ∷ d ∷ []
      → is_some (find_alias (to_lower d) t.aliases) ≡ true
      → find_alias d t.aliases ≡ some a
      → Deliverable t (l ++ (64 ∷ a.deliver_to))
      → Deliverable t rcpt
  by_catchall :
      {rcpt : Bytes} (l d : Bytes)
      → split rcpt (64 ∷ []) ≡ l ∷ d ∷ []
      → is_some (find_alias (to_lower d) t.aliases) ≡ false
      → is_some (find_catchall (b'%' ∷ to_lower d) t.users) ≡ true
      → Deliverable t rcpt

module _ (t : Tables) where
  abbrev Says : Returned Bool × Db → Type 0
  Says x = x ≡ (value true, healthy t)

  abbrev Sound : (Bytes → Action Bool) → Type 0
  Sound m = (rcpt : Bytes) → (m rcpt (healthy t)).0 ≡ value true → Deliverable t rcpt

  through_alias-Deliverable :
      (again : Bytes → Action Bool) (rcpt l d : Bytes)
      → Sound again
      → split rcpt (64 ∷ []) ≡ l ∷ d ∷ []
      → is_some (find_alias (to_lower d) t.aliases) ≡ true
      → (through_alias again l d (healthy t)).0 ≡ value true
      → Deliverable t rcpt
  through_alias-Deliverable again rcpt l d sound parts known h = go (find_alias d t.aliases) refl
    where
      go : (o : Option Alias) → find_alias d t.aliases ≡ o → Deliverable t rcpt
      go none e = cc (rw (through_alias-none again l d t e) at h)
      go (some a) e =
          by_domain_alias l d a parts known e
            (sound (l ++ (64 ∷ a.deliver_to)) (rw (through_alias-some again l d t a e) at h))

  -- `by_domain` where there are not two parts
  abbrev Refuses : (Bytes → Action Bool) → List Bytes → Type 0
  Refuses again ps = (by_domain again ps (healthy t)).0 ≢ value true

  Refuses-none : (again : Bytes → Action Bool) → Refuses again []
  unfolding by_domain
  Refuses-none again h = cc

  Refuses-one : (again : Bytes → Action Bool) (l : Bytes) → Refuses again (l ∷ [])
  unfolding by_domain
  Refuses-one again l h = cc

  Refuses-more :
      (again : Bytes → Action Bool) (l d p : Bytes) (ps : List Bytes)
      → Refuses again (l ∷ d ∷ p ∷ ps)
  unfolding by_domain
  Refuses-more again l d p ps h = cc

  no_fuel : (rcpt : Bytes) → (is_valid_local_rcpt 0 rcpt (healthy t)).0 ≢ value true
  unfolding is_valid_local_rcpt
  no_fuel rcpt h = cc

  by_domain-Deliverable :
      (again : Bytes → Action Bool) (rcpt : Bytes) (ps : List Bytes)
      → Sound again
      → split rcpt (64 ∷ []) ≡ ps
      → (by_domain again ps (healthy t)).0 ≡ value true
      → Deliverable t rcpt
  by_domain-Deliverable again rcpt [] sound parts h = absurd (Refuses-none again h)
  by_domain-Deliverable again rcpt (l ∷ []) sound parts h = absurd (Refuses-one again l h)
  by_domain-Deliverable again rcpt (l ∷ (d ∷ [])) sound parts h =
      elim (Bool-cases (is_some (find_alias (to_lower d) t.aliases))) [
        | inl known ↦
            through_alias-Deliverable again rcpt l d sound parts known
              (rw (by_domain-step again l d t, known) at h)
        | inr new ↦
            by_catchall l d parts new (ground (arith, rw (by_domain-step again l d t, new) at h))
      ]
  by_domain-Deliverable again rcpt (l ∷ (d ∷ (p ∷ ps))) sound parts h =
      absurd (Refuses-more again l d p ps h)

  is_valid-Deliverable : (n : ℕ) → Sound (is_valid_local_rcpt n)
  is_valid-Deliverable zero rcpt h = absurd (no_fuel rcpt h)
  is_valid-Deliverable (suc n) rcpt h =
      let box = has_box (find_user (to_lower rcpt) t.users) in
      let known = is_some (find_alias (to_lower rcpt) t.aliases) in
      elim (Bool-cases box) [
        | inl b ↦ by_mailbox b
        | inr no_box ↦ elim (Bool-cases known) [
          | inl k ↦ by_alias k
          | inr new ↦
              by_domain-Deliverable (is_valid_local_rcpt n) rcpt (split rcpt (64 ∷ []))
                (is_valid-Deliverable n) refl (rw (is_valid-step n rcpt t, no_box, new) at h)
        ]
      ]

  abbrev IsFound : Bytes → Type 0
  IsFound rcpt = (n : ℕ) × Says (is_valid_local_rcpt n rcpt (healthy t))

  -- a place of its own comes before what the domain says
  IsFound-by_domain :
      (n : ℕ) (rcpt : Bytes)
      → Says (by_domain (is_valid_local_rcpt n) (split rcpt (64 ∷ [])) (healthy t))
      → IsFound rcpt
  IsFound-by_domain n rcpt h = (
    suc n,
    is_valid-step n rcpt t
        ∙ elim (Bool-cases (has_place t rcpt)) [ inl early ↦ rw early | inr late ↦ rw late h ],
  )

  IsFound-at_place : (rcpt : Bytes) → has_place t rcpt ≡ true → IsFound rcpt
  IsFound-at_place rcpt h = (1, is_valid-step 0 rcpt t ∙ rw h)

  Deliverable-IsFound : {rcpt : Bytes} → Deliverable t rcpt → IsFound rcpt
  Deliverable-IsFound {rcpt} (by_mailbox b) = IsFound-at_place rcpt (ground arith)
  Deliverable-IsFound {rcpt} (by_alias k) = IsFound-at_place rcpt (ground arith)
  Deliverable-IsFound {rcpt} (by_domain_alias l d a parts known e more) =
      let (n, says) = Deliverable-IsFound more in
      IsFound-by_domain n rcpt (
        rw
          (
            parts,
            by_domain-step (is_valid_local_rcpt n) l d t,
            known,
            through_alias-some (is_valid_local_rcpt n) l d t a e,
          )
          says)
  Deliverable-IsFound {rcpt} (by_catchall l d parts new found) =
      IsFound-by_domain 0 rcpt
        (rw (parts, by_domain-step (is_valid_local_rcpt 0) l d t, new, found))

  -- Where no call of the database fails, `IsValidLocalRcpt` answers yes, after enough calls of
  -- itself, exactly for the recipients that the tables have a place for.
  pub is_valid_local_rcpt_iff :
      (rcpt : Bytes)
      → ((n : ℕ) × ((is_valid_local_rcpt n rcpt (healthy t)).0 ≡ value true)) ↔ Deliverable t rcpt
  is_valid_local_rcpt_iff rcpt = (
    λ (n, h). is_valid-Deliverable n rcpt h,
    λ h. let (n, says) = Deliverable-IsFound h in (n, ap (λ x. x.0) says),
  )
