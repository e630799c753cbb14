-- ===== src/Lends/Shares/Conserved.antt =====
-- The bill and its shares add up to the charge, whatever line is drawn between them.
use text.Mathlib.Text.{◌==◌ as str_eq}
use sajni_api.Prelude.{
  ℕ, ◌+◌, ◌≡◌, ◌≢◌, ◌==◌, Bool, false, not, ◌&&◌, ◌||◌, Option, none, some, List, [], ◌∷◌, ◌++◌,
  String, ltb, ok, ok_of_bind, arith, refl, sym, ap, subst, ◌∙◌, Bool-cases, Option-cases, inl, inr,
  length,
}
use sajni_api.Calendar.Text.{Text}
use sajni_api.Calendar.Zone.{Zone}
use sajni_api.Lends.Tables.{find, find_id, update, delete}
use sajni_api.Lends.Ledger.{
  Account, Txn, Lend, Book, Names, of_must, of_ok, err_not, refuse, insert_txn, insert_lend,
  no_person_or_txn, one_bill_only, txn_gone, not_plain_expense, lend_gone, not_paid_for, failed,
}
use sajni_api.Lends.Due.{lend_due}
use sajni_api.Lends.Rebalance.{derived, check_lend_order, other_repayments, rebalance}
use sajni_api.Lends.Shares.{
  is_id, is_plain_expense, update_txn, whole_again, cut_share, move_line, has_others, write_share,
  bill_of, delete_lend, fold_back, paid_for, set_paid_for_share, take_share, mark_one, mark_all,
  mark_paid_for, unmark_paid_for,
}
use sajni_api.Lends.Shares.Rows.{
  IsRow, IsLedger, IsCharged, Keeps, refl-Keeps, trans-Keeps, same-Keeps, insert-Keeps, find-IsRow,
  cut-IsCharged, move-IsCharged, fold-IsCharged, type-IsCharged, of-IsCharged,
}

some_same {ℓ} : {A : Type ℓ} {a b : A} → some a ≡ some b → a ≡ b
some_same h = cc

bill_found :
    (split : Option ℕ) (txns : List Txn) (bill : Txn)
    → bill_of split txns ≡ ok (some bill)
    → (id : ℕ) × (split ≡ some id) × (find Txn.id id txns ≡ some bill)
bill_found none txns bill h = cc
bill_found (some id) txns bill h =
    let (b, e, last) = of_must failed (find Txn.id id txns) h in (id, refl, e ∙ of_ok last)

pub own_row :
    (s : Book) (id : ℕ) {row : Txn}
    → find Txn.id id s.txns ≡ some row
    → find Txn.id row.id s.txns ≡ some row
own_row s id {row} h =
    subst (λ i. find Txn.id i s.txns ≡ some row) (sym (find_id Txn.id id s.txns h)) h

-- A share and the bill that it was cut from are two rows.
two_rows :
    (s : Book) (row bill : Txn)
    → IsRow s.next_id row
    → bill_of row.split_of s.txns ≡ ok (some bill)
    → (find Txn.id bill.id s.txns ≡ some bill) × (bill.id ≢ row.id)
two_rows s row bill order h =
    let (id, cut, found) = bill_found row.split_of s.txns bill h in
    let same = find_id Txn.id id s.txns found in
    let differs : is_id (some id) row.id ≡ false = ap (λ o. is_id o row.id) (sym cut) ∙ order.1 in
    (own_row s id found, λ e. ground arith)

write_share-Keeps :
    (lend_id share : ℕ) (row : Txn) (bill : Option Txn) (s t : Book)
    → IsLedger s
    → find Txn.id row.id s.txns ≡ some row
    → bill_of row.split_of s.txns ≡ ok bill
    → write_share lend_id share row bill s ≡ ok t
    → Keeps s t
unfolding write_share IsLedger
write_share-Keeps lend_id share row none s t order found at_bill h =
    elim (Bool-cases (share == 0 || ltb row.amount share)) [
      | inl bad ↦ absurd (err_not (rw (write_share, bad) at h))
      | inr good ↦ elim (Bool-cases (share == row.amount)) [
        | inl whole ↦
            subst (Keeps s) (of_ok (rw (write_share, good, whole) at h)) (refl-Keeps s order)
        | inr cut ↦ subst (Keeps s) (of_ok (rw (write_share, good, cut) at h)) (
            of-IsCharged s (cut_share lend_id row share s) (
              unfold cut_share insert_txn in
              cut-IsCharged s.next_id row share _ s.txns order found (ground arith)
                (λ x. (refl, refl)) refl))
      ]
    ]
write_share-Keeps lend_id share row (some bill) s t order found at_bill h =
    let total : ℕ = row.amount + bill.amount in
    let (here, apart) = two_rows s row bill (find-IsRow s row.id order found) at_bill in
    elim (Bool-cases (share == 0 || ltb total share)) [
      | inl bad ↦ absurd (err_not (rw (write_share, bad) at h))
      | inr good ↦ elim (Bool-cases ((share == total) && not (has_others bill.id row.id s.txns))) [
        | inl whole ↦ subst (Keeps s) (of_ok (rw (write_share, good, whole) at h)) (
            of-IsCharged s (whole_again lend_id row bill total s) (
              unfold whole_again in
              fold-IsCharged s.next_id row bill _ s.txns order found here apart (λ x. (refl, refl))
                refl))
        | inr part ↦ subst (Keeps s) (of_ok (rw (write_share, good, part) at h)) (
            of-IsCharged s (move_line lend_id row bill share total s) (
              unfold move_line in
              move-IsCharged s.next_id row bill share _ _ s.txns order found here apart
                (ground arith) (λ x. (refl, refl)) (λ x. (refl, refl)) refl refl))
      ]
    ]

pub insert_lend-txns : (row : Lend) (s t : Book) → insert_lend row s ≡ ok t → t.txns ≡ s.txns
unfolding insert_lend
insert_lend-txns row s t h = elim (Bool-cases (row.principal == 0)) [
  | inl empty ↦ absurd (err_not (rw (insert_lend, empty) at h))
  | inr some_amount ↦ ap Book.txns (sym (of_ok (rw (insert_lend, some_amount) at h)))
]

module _ (names : Names) (loc : Zone) where
  pub insert_lend-Keeps :
      (row : Lend) (s t : Book) → IsLedger s → insert_lend row s ≡ ok t → Keeps s t
  unfolding insert_lend
  insert_lend-Keeps row s t order h = elim (Bool-cases (row.principal == 0)) [
    | inl empty ↦ absurd (err_not (rw (insert_lend, empty) at h))
    | inr some_amount ↦ subst (Keeps s) (of_ok (rw (insert_lend, some_amount) at h)) (
        insert-Keeps s (record s { lends = s.lends ++ row ∷ []; next_id = s.next_id + 1 }) refl refl
          order)
  ]

  pub rebalance-Keeps :
      (borrower : String) (s t : Book)
      → IsLedger s
      → rebalance names loc borrower s ≡ ok t
      → Keeps s t
  unfolding rebalance
  rebalance-Keeps borrower s t order h =
      let (rows, e, more) = ok_of_bind (derived names loc borrower s) h in
      let (ordered, f, last) = ok_of_bind (check_lend_order names loc borrower s) more in
      subst (Keeps s) (of_ok last) (
        same-Keeps s (record s { repayments = other_repayments names loc borrower s ++ rows }) refl
          refl order)

  -- Changing the share of a paid-for lend leaves what all rows charge together, and a ledger in order
  -- stays in order.
  pub set_paid_for_share-Keeps :
      (lend_id share : ℕ) (s t : Book)
      → IsLedger s
      → set_paid_for_share names loc lend_id share s ≡ ok t
      → Keeps s t
  unfolding set_paid_for_share
  set_paid_for_share-Keeps lend_id share s t order h =
      let (lend, e, h1) = of_must lend_gone (find Lend.id lend_id s.lends) h in
      let (c, f, h2) = ok_of_bind (refuse not_paid_for (not (str_eq lend.origin "paid_for"))) h1 in
      let (row, found, h3) = of_must failed (find Txn.id lend.source_transaction_id s.txns) h2 in
      let (bill, at_bill, h4) = ok_of_bind (bill_of row.split_of s.txns) h3 in
      let (written, w, h5) = ok_of_bind (write_share lend_id share row bill s) h4 in
      let line =
        write_share-Keeps lend_id share row bill s written order
          (own_row s lend.source_transaction_id found) at_bill w in
      trans-Keeps s written t line (rebalance-Keeps lend.borrower written t line.order h5)

  take_share-Keeps :
      (lend_id share amount : ℕ) (s t : Book)
      → IsLedger s
      → take_share names loc lend_id share amount s ≡ ok t
      → Keeps s t
  unfolding take_share
  take_share-Keeps lend_id share amount s t order h =
      elim (Bool-cases (not (share == 0) && ltb share amount)) [
        | inl split ↦ set_paid_for_share-Keeps lend_id share s t order (rw (take_share, split) at h)
        | inr whole ↦ subst (Keeps s) (of_ok (rw (take_share, whole) at h)) (refl-Keeps s order)
      ]

  mark_one-Keeps :
      (borrower : String) (due_date : Option Text) (remind : Bool) (share txn_id : ℕ) (s : Book)
      (marked : ℕ × Book)
      → IsLedger s
      → mark_one names loc borrower due_date remind share txn_id s ≡ ok marked
      → Keeps s marked.1
  unfolding mark_one IsLedger
  mark_one-Keeps borrower due_date remind share txn_id s marked order h =
      let (row, found, h1) = of_must txn_gone (find Txn.id txn_id s.txns) h in
      let (account, f, h2) = of_must txn_gone (find Account.id row.account_id s.accounts) h1 in
      let (c, g, h3) = ok_of_bind (refuse not_plain_expense (not (is_plain_expense s row))) h2 in
      let lend =
        paid_for s.next_id row txn_id borrower row.amount (lend_due due_date account row.txn_at loc)
          remind in
      let typed = update_txn txn_id (λ t. record t { type = "lend" }) s in
      let (lent, i, h4) = ok_of_bind (insert_lend lend typed) h3 in
      let (split, k, h5) = ok_of_bind (take_share names loc lend.id share row.amount lent) h4 in
      let first =
        of-IsCharged s typed
          (type-IsCharged s.next_id txn_id _ s.txns order (λ x. (refl, refl, refl))) in
      let second = insert_lend-Keeps lend typed lent first.order i in
      let third = take_share-Keeps lend.id share row.amount lent split second.order k in
      subst (λ p. Keeps s p.1) (of_ok h5)
        (trans-Keeps s typed split first (trans-Keeps typed lent split second third))

  mark_all-Keeps :
      (borrower : String) (due_date : Option Text) (remind : Bool) (share : ℕ) (txn_ids : List ℕ)
      (s : Book) (marked : List ℕ × Book)
      → IsLedger s
      → mark_all names loc borrower due_date remind share txn_ids s ≡ ok marked
      → Keeps s marked.1
  unfolding mark_all
  mark_all-Keeps borrower due_date remind share [] s marked order h =
      subst (λ p. Keeps s p.1) (of_ok h) (refl-Keeps s order)
  mark_all-Keeps borrower due_date remind share (txn_id ∷ txn_ids) s marked order h =
      let (first, e, h1) =
        ok_of_bind (mark_one names loc borrower due_date remind share txn_id s) h in
      let (rest, f, h2) =
        ok_of_bind (mark_all names loc borrower due_date remind share txn_ids first.1) h1 in
      let one = mark_one-Keeps borrower due_date remind share txn_id s first order e in
      let more = mark_all-Keeps borrower due_date remind share txn_ids first.1 rest one.order f in
      subst (λ p. Keeps s p.1) (of_ok h2) (trans-Keeps s first.1 rest.1 one more)

-- Marking expenses as paid for someone, whole or with a share, leaves what all rows charge together,
-- and a ledger in order stays in order.
pub mark_paid_for-Keeps :
    (names : Names) (loc : Zone) (name : String) (txn_ids : List ℕ) (due_date : Option Text)
    (remind : Bool) (share : ℕ) (s : Book) (marked : List ℕ × Book)
    → IsLedger s
    → mark_paid_for names loc name txn_ids due_date remind share s ≡ ok marked
    → Keeps s marked.1
unfolding mark_paid_for
mark_paid_for-Keeps names loc name txn_ids due_date remind share s marked order h =
    let borrower = names.trim name in
    let (c, e, h1) =
      ok_of_bind (refuse no_person_or_txn (str_eq borrower "" || (length txn_ids == 0))) h in
    let (d, f, h2) =
      ok_of_bind (refuse one_bill_only (not (share == 0) && not (length txn_ids == 1))) h1 in
    let (all, g, h3) =
      ok_of_bind (mark_all names loc borrower due_date remind share txn_ids s) h2 in
    let (balanced, i, h4) = ok_of_bind (rebalance names loc borrower all.1) h3 in
    let first = mark_all-Keeps names loc borrower due_date remind share txn_ids s all order g in
    let second = rebalance-Keeps names loc borrower all.1 balanced first.order i in
    subst (λ p. Keeps s p.1) (of_ok h4) (trans-Keeps s all.1 balanced first second)

fold_back-Keeps :
    (row : Txn) (bill : Option Txn) (lend_id : ℕ) (s : Book)
    → IsLedger s
    → find Txn.id row.id s.txns ≡ some row
    → bill_of row.split_of s.txns ≡ ok bill
    → Keeps s (fold_back row (delete_lend lend_id s))
unfolding IsLedger fold_back delete_lend
fold_back-Keeps row bill lend_id s order found at_bill = elim (Option-cases row.split_of) [
  | inl whole ↦
      rw (fold_back, whole)
        (of-IsCharged s
          (update_txn row.id (λ t. record t { type = "expense" }) (delete_lend lend_id s))
          (type-IsCharged s.next_id row.id _ s.txns order (λ x. (refl, refl, refl))))
  | inr (bill_id, cut) ↦
      let (b, here, last) =
        of_must failed (find Txn.id bill_id s.txns)
          (ap (λ o. bill_of o s.txns) (sym cut) ∙ at_bill) in
      let g : Txn → Txn = λ t. record t { amount = t.amount + row.amount } in
      let (again, apart) =
        two_rows s row b (find-IsRow s row.id order found) (at_bill ∙ sym last) in
      let same : b.id ≡ bill_id = find_id Txn.id bill_id s.txns here in
      rw (fold_back, cut)
        (of-IsCharged s
          (update_txn bill_id g
            (record (delete_lend lend_id s) { txns = delete Txn.id row.id s.txns }))
          (subst (λ i. IsCharged s.next_id s.txns (update Txn.id i g (delete Txn.id row.id s.txns)))
            same
            (fold-IsCharged s.next_id row b g s.txns order found again apart (λ x. (refl, refl))
              (omega arith))))
]

-- Undoing a paid-for lend leaves what all rows charge together, where the bill of a share is there: a
-- share is folded back into its bill. A ledger in order stays in order.
pub unmark_paid_for-Keeps :
    (names : Names) (loc : Zone) (lend_id : ℕ) (s t : Book) (lend : Lend) (row : Txn)
    (bill : Option Txn)
    → IsLedger s
    → find Lend.id lend_id s.lends ≡ some lend
    → find Txn.id lend.source_transaction_id s.txns ≡ some row
    → bill_of row.split_of s.txns ≡ ok bill
    → unmark_paid_for names loc lend_id s ≡ ok t
    → Keeps s t
unfolding unmark_paid_for
unmark_paid_for-Keeps names loc lend_id s t lend row bill order e found at_bill h =
    let (lend', f, h1) = of_must lend_gone (find Lend.id lend_id s.lends) h in
    let same_lend : lend' ≡ lend = some_same (sym f ∙ e) in
    let (c, g, h2) = ok_of_bind (refuse not_paid_for (not (str_eq lend'.origin "paid_for"))) h1 in
    let (row', found', h3) = of_must failed (find Txn.id lend'.source_transaction_id s.txns) h2 in
    let same_row : row ≡ row' =
      some_same (
        sym found
        ∙ ap (λ l. find Txn.id l.source_transaction_id s.txns) (sym same_lend)
        ∙ found') in
    let there = subst (λ x. bill_of x.split_of s.txns ≡ ok bill) same_row at_bill in
    let line =
      fold_back-Keeps row' bill lend_id s order (own_row s lend'.source_transaction_id found')
        there in
    let folded = fold_back row' (delete_lend lend_id s) in
    trans-Keeps s folded t line (rebalance-Keeps names loc lend'.borrower folded t line.order h3)
