-- ===== src/Lends/Rebalance/Again.antt =====
-- The repayments follow from the payments that are pinned: deriving them again changes nothing.
use sajni_api.Prelude.{
  append-All, ℕ, ◌-◌, ◌≤◌, ◌≡◌, ◌==◌, min, Bool, true, false, not, Option, none, some, List, [],
  ◌∷◌, ◌++◌, String, ok, ok_of_bind, arith, refl, sym, ap, subst, ◌∙◌, All, Bool-cases, inl, inr,
}
use sajni_api.Calendar.Zone.{Zone}
use sajni_api.Lends.Tables.{select, select-append, exists, find, find_id}
use sajni_api.Lends.Ledger.{
  Txn, Settlement, Repayment, Book, Names, of_ok, err_not, lends_of, settlements_of,
}
use sajni_api.Lends.Rebalance.{
  Rooms, is_early, set_room, all_rooms, Pin, pin_of, pins, insert_pin, sort_pins, earlier, cover,
  check_lend_order, is_paid_by, other_repayments, derived, rebalance,
}
use sajni_api.Lends.Rebalance.Cover.{
  repaid_on, cover_cases, cover_bound, principal_of, left-principal_of,
}

module _ {ℓ} {A : Type ℓ} (keep : A → Bool) where
  select_every : (rows : List A) → All (λ r. keep r ≡ true) rows → select keep rows ≡ rows
  unfolding select
  select_every [] h = refl
  select_every (r ∷ rows) h = rw (select, h.0) (ap (λ x. r ∷ x) (select_every rows h.1))

  select_none : (rows : List A) → All (λ r. keep r ≡ false) rows → select keep rows ≡ []
  unfolding select
  select_none [] h = refl
  select_none (r ∷ rows) h = rw (select, h.0) (select_none rows h.1)

  select_kept : (rows : List A) → All (λ r. keep r ≡ true) (select keep rows)
  unfolding select
  select_kept [] = tt
  select_kept (r ∷ rows) = elim (Bool-cases (keep r)) [
    | inl kept ↦ rw (select, kept) (kept, select_kept rows)
    | inr dropped ↦ rw (select, dropped) (select_kept rows)
  ]

append-nil {ℓ} : {A : Type ℓ} (rows : List A) → rows ++ [] ≡ rows
append-nil [] = refl
append-nil (r ∷ rows) = ap (λ x. r ∷ x) (append-nil rows)

module _ {ℓ} {A : Type ℓ} (P Q : A → Type 0) where
  weaken : ((a : A) → P a → Q a) → (rows : List A) → All P rows → All Q rows
  weaken f [] h = tt
  weaken f (r ∷ rows) h = (f r h.0, weaken f rows h.1)

module _ (paid : ℕ → Bool) where
  insert_pin-paid :
      (p : Pin) (ps : List Pin)
      → paid p.txn_id ≡ true
      → All (λ p. paid p.txn_id ≡ true) ps
      → All (λ p. paid p.txn_id ≡ true) (insert_pin p ps)
  unfolding insert_pin
  insert_pin-paid p [] h all = (h, tt)
  insert_pin-paid p (q ∷ ps) h all = elim (Bool-cases (earlier q p)) [
    | inl later ↦ rw (insert_pin, later) (all.0, insert_pin-paid p ps h all.1)
    | inr first ↦ rw (insert_pin, first) (h, all)
  ]

  sort_pins-paid :
      (ps : List Pin)
      → All (λ p. paid p.txn_id ≡ true) ps
      → All (λ p. paid p.txn_id ≡ true) (sort_pins ps)
  unfolding sort_pins
  sort_pins-paid [] all = tt
  sort_pins-paid (p ∷ ps) all = insert_pin-paid p (sort_pins ps) all.0 (sort_pins-paid ps all.1)

  cover-paid :
      (ps : List Pin) (rooms : Rooms) (rows : List Repayment)
      → All (λ p. paid p.txn_id ≡ true) ps
      → cover ps rooms ≡ ok rows
      → All (λ r. paid r.transaction_id ≡ true) rows
  unfolding cover
  cover-paid [] rooms rows all h = subst (All (λ r. paid r.transaction_id ≡ true)) (of_ok h) tt
  cover-paid (p ∷ ps) rooms rows all h = elim (cover_cases p ps rooms rows h) [
    | inl skipped ↦ cover-paid ps rooms rows all.1 skipped
    | inr (left, more, e, some_part, f, same) ↦
        subst (All (λ r. paid r.transaction_id ≡ true)) (sym same)
          (all.0, cover-paid ps (set_room p.lend_id (left - min p.amount left) rooms) more all.1 f)
  ]

  pins-paid :
      (txns : List Txn) (ps : List Settlement)
      → All (λ p. paid p.transaction_id ≡ true) ps
      → All (λ p. paid p.txn_id ≡ true) (pins txns ps)
  unfolding pins
  pins-paid txns [] all = tt
  pins-paid txns (p ∷ ps) all =
      append-All (λ p. paid p.txn_id ≡ true) (pin_of p.lend_id (find Txn.id p.transaction_id txns))
        (pins txns ps)
        (one p.lend_id (find Txn.id p.transaction_id txns)
          (λ t e. ap paid (find_id Txn.id p.transaction_id txns e) ∙ all.0))
        (pins-paid txns ps all.1)
    where
      one :
          (lend_id : Option ℕ) (o : Option Txn)
          → ((t : Txn) → o ≡ some t → paid t.id ≡ true)
          → All (λ p. paid p.txn_id ≡ true) (pin_of lend_id o)
      one none o h = tt
      one (some id) none h = tt
      one (some id) (some t) h = (h t refl, tt)

exists_own :
    (ps : List Settlement)
    → All (λ p. exists (λ q. q.transaction_id == p.transaction_id) ps ≡ true) ps
unfolding exists
exists_own [] = tt
exists_own (p ∷ ps) = (
  ground arith,
  weaken (λ q. exists (λ x. x.transaction_id == q.transaction_id) ps ≡ true)
      (λ q. exists (λ x. x.transaction_id == q.transaction_id) (p ∷ ps) ≡ true)
      (λ q h. unfold exists in ground arith) ps (exists_own ps),
)

module _ (names : Names) (loc : Zone) (borrower : String) (s : Book) where
  derived-paid :
      (rows : List Repayment)
      → derived names loc borrower s ≡ ok rows
      → All (λ r. is_paid_by names loc borrower s r.transaction_id ≡ true) rows
  unfolding derived is_paid_by
  derived-paid rows h =
      let ps = settlements_of names borrower s in
      let test : ℕ → Bool = λ x. exists (λ p. p.transaction_id == x) ps in
      cover-paid test (sort_pins (pins s.txns ps)) (all_rooms (lends_of names borrower s)) rows
        (sort_pins-paid test (pins s.txns ps) (pins-paid test s.txns ps (exists_own ps))) h

  -- The person's part of the repayments, and the others' part.
  own_part :
      (rows : List Repayment)
      → All (λ r. is_paid_by names loc borrower s r.transaction_id ≡ true) rows
      → select
          (λ r. is_paid_by names loc borrower s r.transaction_id)
          (other_repayments names loc borrower s ++ rows)
        ≡ rows
  unfolding other_repayments
  own_part rows all =
      let test : Repayment → Bool = λ r. is_paid_by names loc borrower s r.transaction_id in
      let others = select_kept (λ r. not (test r)) s.repayments in
      select-append test (select (λ r. not (test r)) s.repayments) rows
      ∙ ap (λ x. x ++ select test rows)
          (select_none test (select (λ r. not (test r)) s.repayments) (
            weaken (λ r. not (test r) ≡ true) (λ r. test r ≡ false) (λ r h. ground arith)
              (select (λ r. not (test r)) s.repayments) others))
      ∙ select_every test rows all

  others_part :
      (rows : List Repayment)
      → All (λ r. is_paid_by names loc borrower s r.transaction_id ≡ true) rows
      → select
          (λ r. not (is_paid_by names loc borrower s r.transaction_id))
          (other_repayments names loc borrower s ++ rows)
        ≡ other_repayments names loc borrower s
  unfolding other_repayments
  others_part rows all =
      let test : Repayment → Bool = λ r. not (is_paid_by names loc borrower s r.transaction_id) in
      let others = select test s.repayments in
      select-append test others rows
      ∙ ap (λ x. x ++ select test rows) (select_every test others (select_kept test s.repayments))
      ∙ ap (λ x. others ++ x)
          (select_none test rows (
            weaken (λ r. is_paid_by names loc borrower s r.transaction_id ≡ true)
              (λ r. test r ≡ false) (λ r h. ground arith) rows all))
      ∙ append-nil others

  ordered_true :
      (c : Bool)
      → check_lend_order names loc borrower s ≡ ok c
      → check_lend_order names loc borrower s ≡ ok true
  unfolding check_lend_order
  ordered_true c f =
      elim (Bool-cases (
        exists (is_early loc s.txns (lends_of names borrower s))
          (settlements_of names borrower s))) [
            | inl early ↦ absurd (err_not (rw (check_lend_order, early) at f))
            | inr fine ↦ rw (check_lend_order, fine) refl
          ]

  rebalance_lem :
      (t : Book)
      → rebalance names loc borrower s ≡ ok t
      → (rows : List Repayment) × (derived names loc borrower s ≡ ok rows)
        × (check_lend_order names loc borrower s ≡ ok true)
        × (record s { repayments = other_repayments names loc borrower s ++ rows } ≡ t)
  unfolding rebalance
  rebalance_lem t h =
      let (rows, e, more) = ok_of_bind (derived names loc borrower s) h in
      let (ordered, f, last) = ok_of_bind (check_lend_order names loc borrower s) more in
      (rows, e, ordered_true ordered f, of_ok last)

-- After a rebalance the person's payments cover no more of any lend than its principal, and nothing
-- of a lend that is not theirs.
pub rebalance_covered :
    (names : Names) (loc : Zone) (borrower : String) (s t : Book) (id : ℕ)
    → rebalance names loc borrower s ≡ ok t
    → repaid_on id (select (λ r. is_paid_by names loc borrower t r.transaction_id) t.repayments)
      ≤ principal_of id (lends_of names borrower t)
unfolding is_paid_by settlements_of lends_of derived
rebalance_covered names loc borrower s t id h =
    let (rows, e, ordered, same) = rebalance_lem names loc borrower s t h in
    let own = own_part names loc borrower s rows (derived-paid names loc borrower s rows e) in
    let bound = cover_bound id _ _ rows e in
    let room = left-principal_of id (lends_of names borrower s) in
    subst
      (λ (x : Book).
        repaid_on id (select (λ r. is_paid_by names loc borrower x r.transaction_id) x.repayments)
        ≤ principal_of id (lends_of names borrower x))
      same (rw own (rw (← room) bound))

-- A rebalance right after a rebalance changes nothing.
pub rebalance_again :
    (names : Names) (loc : Zone) (borrower : String) (s t : Book)
    → rebalance names loc borrower s ≡ ok t
    → rebalance names loc borrower t ≡ ok t
unfolding rebalance derived other_repayments is_paid_by check_lend_order settlements_of lends_of
rebalance_again names loc borrower s t h =
    let (rows, e, ordered, same) = rebalance_lem names loc borrower s t h in
    let others = others_part names loc borrower s rows (derived-paid names loc borrower s rows e) in
    let x : Book = record s { repayments = other_repayments names loc borrower s ++ rows } in
    let again : derived names loc borrower x ≡ ok rows = e in
    let in_order : check_lend_order names loc borrower x ≡ ok true = ordered in
    let left : other_repayments names loc borrower x ≡ other_repayments names loc borrower s =
      others in
    subst (λ x. rebalance names loc borrower x ≡ ok x) same
      (rw (rebalance, again, in_order, left) refl)
