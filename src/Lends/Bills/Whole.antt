-- ===== src/Lends/Bills/Whole.antt =====
-- A bill that is split still adds up to its charge.
use sajni_api.Prelude.{
  ℕ, ◌+◌, ◌-◌, ◌≡◌, ◌==◌, Bool, not, ◌&&◌, Option, some, List, [], ◌∷◌, ltb, length, ok, ok_of_bind,
  arith, refl, sym, subst, ◌∙◌, Bool-cases, inl, inr,
}
use sajni_api.Calendar.Text.{Text}
use sajni_api.Calendar.Zone.{Zone}
use sajni_api.Lends.Tables.{find, find-append, exists}
use sajni_api.Lends.Ledger.{
  Account, Txn, Lend, Book, Names, of_must, refuse_ok, of_ok, refuse, insert_txn, insert_lend,
  nobody, txn_gone, not_plain_expense, has_share, shares_too_large,
}
use sajni_api.Lends.Due.{lend_due}
use sajni_api.Lends.Rebalance.{rebalance}
use sajni_api.Lends.Shares.{update_txn, cut_row, paid_for}
use sajni_api.Lends.Shares.Rows.{
  IsLedger, Keeps, charges, refl-Keeps, trans-Keeps, find-IsRow, cut-order, cut-sum,
  amount-IsCharged, of-IsCharged,
}
use sajni_api.Lends.Shares.Conserved.{
  rebalance-Keeps, mark_paid_for-Keeps, insert_lend-Keeps, insert_lend-txns, own_row,
}
use sajni_api.Lends.Bills.{
  SplitShare, can_split, sharers, check_shares, share_sum, is_listed, cut_one, cut_all,
  rebalance_all, split_shares, split_checked, split_bill,
}

-- Some rows were cut from a bill that still stands: the charges grew by the shares.
record Cut (bill : Txn) (shares : ℕ) (s t : Book) : Type 0 where
  order : IsLedger t
  charge : charges t ≡ charges s + shares
  stands : find Txn.id bill.id t.txns ≡ some bill

module _ (names : Names) (loc : Zone) (bill : Txn) where
  insert-Cut :
      (share : ℕ) (s : Book)
      → IsLedger s
      → find Txn.id bill.id s.txns ≡ some bill
      → Cut bill share s (insert_txn (cut_row s.next_id bill share) s)
  unfolding insert_txn IsLedger charges
  insert-Cut share s order stands = record {
    order = cut-order s.next_id bill share s.txns order (find-IsRow s bill.id order stands).0;
    charge = cut-sum s.next_id bill share s.txns;
    stands = find-append Txn.id bill.id s.txns (cut_row s.next_id bill share ∷ []) stands;
  }

  lend-Cut :
      (row : Lend) (share : ℕ) (s t u : Book)
      → Cut bill share s t
      → insert_lend row t ≡ ok u
      → Cut bill share s u
  lend-Cut row share s t u cut h =
      let kept = insert_lend-Keeps names loc row t u cut.order h in
      let same = insert_lend-txns row t u h in
      record {
        order = kept.order;
        charge = kept.charge ∙ cut.charge;
        stands = subst (λ txns. find Txn.id bill.id txns ≡ some bill) (sym same) cut.stands;
      }

  cut_one-Cut :
      (due : Option Text) (remind : Bool) (sh : SplitShare) (s : Book) (cut : ℕ × Book)
      → IsLedger s
      → find Txn.id bill.id s.txns ≡ some bill
      → cut_one names loc bill due remind sh s ≡ ok cut
      → Cut bill sh.share s cut.1
  unfolding cut_one
  cut_one-Cut due remind sh s cut order stands h =
      let lend = paid_for (s.next_id + 1) bill s.next_id sh.borrower sh.share due remind in
      let added = insert_txn (cut_row s.next_id bill sh.share) s in
      let (lent, e, h1) = ok_of_bind (insert_lend lend added) h in
      subst (λ p. Cut bill sh.share s p.1) (of_ok h1)
        (lend-Cut lend sh.share s added lent (insert-Cut sh.share s order stands) e)

  cut_all-Cut :
      (due : Option Text) (remind : Bool) (shares : List SplitShare) (s : Book)
      (cut : List ℕ × Book)
      → IsLedger s
      → find Txn.id bill.id s.txns ≡ some bill
      → cut_all names loc bill due remind shares s ≡ ok cut
      → Cut bill (share_sum names loc shares) s cut.1
  unfolding cut_all share_sum
  cut_all-Cut due remind [] s cut order stands h =
      subst (λ p. Cut bill 0 s p.1) (of_ok h)
        (record { order = order; charge = omega arith; stands = stands })
  cut_all-Cut due remind (sh ∷ shares) s cut order stands h =
      let (first, e, h1) = ok_of_bind (cut_one names loc bill due remind sh s) h in
      let (rest, f, h2) = ok_of_bind (cut_all names loc bill due remind shares first.1) h1 in
      let one = cut_one-Cut due remind sh s first order stands e in
      let more = cut_all-Cut due remind shares first.1 rest one.order one.stands f in
      subst (λ p. Cut bill (sh.share + share_sum names loc shares) s p.1) (of_ok h2)
        (record {
          order = more.order;
          charge = omega (arith, one.charge, more.charge);
          stands = more.stands;
        })

  rebalance_all-Keeps :
      (shares : List SplitShare) (s t : Book)
      → IsLedger s
      → rebalance_all names loc shares s ≡ ok t
      → Keeps s t
  unfolding rebalance_all
  rebalance_all-Keeps [] s t order h = subst (Keeps s) (of_ok h) (refl-Keeps s order)
  rebalance_all-Keeps (sh ∷ shares) s t order h =
      let (balanced, e, h1) = ok_of_bind (rebalance names loc sh.borrower s) h in
      let first = rebalance-Keeps names loc sh.borrower s balanced order e in
      trans-Keeps s balanced t first (rebalance_all-Keeps shares balanced t first.order h1)

  split_shares-Keeps :
      (account : Account) (shares : List SplitShare) (due_date : Option Text) (remind : Bool)
      (s : Book) (split : List ℕ × Book)
      → IsLedger s
      → find Txn.id bill.id s.txns ≡ some bill
      → split_shares names loc bill account shares due_date remind s ≡ ok split
      → Keeps s split.1
  unfolding split_shares IsLedger charges
  split_shares-Keeps account shares due_date remind s split order stands h =
      let sum = share_sum names loc shares in
      let f : Txn → Txn = λ t. record t { amount = bill.amount - sum } in
      let (c, e, h1) = ok_of_bind (refuse shares_too_large (ltb bill.amount sum)) h in
      let (cut, g, h2) =
        ok_of_bind
          (cut_all names loc bill (lend_due due_date account bill.txn_at loc) remind shares s) h1 in
      let (balanced, i, h3) =
        ok_of_bind (rebalance_all names loc shares (update_txn bill.id f cut.1)) h2 in
      let rows =
        cut_all-Cut (lend_due due_date account bill.txn_at loc) remind shares s cut order stands
          g in
      let fits = refuse_ok shares_too_large (ltb bill.amount sum) e in
      let first = of-IsCharged s (update_txn bill.id f cut.1) (
        amount-IsCharged cut.1.next_id sum bill f s.txns cut.1.txns rows.order rows.stands
          rows.charge (ground arith) (λ x. (refl, refl)) refl) in
      let second = rebalance_all-Keeps shares (update_txn bill.id f cut.1) balanced first.order i in
      subst (λ p. Keeps s p.1) (of_ok h3)
        (trans-Keeps s (update_txn bill.id f cut.1) balanced first second)

  split_checked-Keeps :
      (account : Account) (shares : List SplitShare) (due_date : Option Text) (remind : Bool)
      (s : Book) (split : List ℕ × Book)
      → IsLedger s
      → find Txn.id bill.id s.txns ≡ some bill
      → split_checked names loc bill account shares due_date remind s ≡ ok split
      → Keeps s split.1
  unfolding split_checked
  split_checked-Keeps account [] due_date remind s split order stands h =
      split_shares-Keeps account [] due_date remind s split order stands h
  split_checked-Keeps account (sh ∷ shares) due_date remind s split order stands h =
      elim (Bool-cases ((length shares == 0) && (length (sharers bill.id s) == 0))) [
        | inl single ↦
            mark_paid_for-Keeps names loc sh.borrower (bill.id ∷ []) due_date remind sh.share s
              split order (rw (split_checked, single) at h)
        | inr several ↦
            split_shares-Keeps account (sh ∷ shares) due_date remind s split order stands
              (rw (split_checked, several) at h)
      ]

-- Splitting a bill with any number of people leaves what all rows charge together: the bill's part and
-- the shares are the old bill. A ledger in order stays in order.
pub split_bill-Keeps :
    (names : Names) (loc : Zone) (bill_id : ℕ) (given : List SplitShare) (due_date : Option Text)
    (remind : Bool) (s : Book) (split : List ℕ × Book)
    → IsLedger s
    → split_bill names loc bill_id given due_date remind s ≡ ok split
    → Keeps s split.1
unfolding split_bill
split_bill-Keeps names loc bill_id given due_date remind s split order h =
    let (c, e, h1) = ok_of_bind (refuse nobody (length given == 0)) h in
    let (shares, f, h2) = ok_of_bind (check_shares names loc [] given) h1 in
    let (bill, found, h3) = of_must txn_gone (find Txn.id bill_id s.txns) h2 in
    let (account, g, h4) = of_must txn_gone (find Account.id bill.account_id s.accounts) h3 in
    let (d, i, h5) = ok_of_bind (refuse not_plain_expense (not (can_split s bill))) h4 in
    let (b, j, h6) =
      ok_of_bind (refuse has_share (exists (is_listed names loc shares) (sharers bill_id s))) h5 in
    split_checked-Keeps names loc bill account shares due_date remind s split order
      (own_row s bill_id found) h6
