-- ===== src/Lends/Shares.antt =====
-- `SetPaidForShare`, `MarkPaidFor` and `UnmarkPaidFor`.
pub mod Rows
pub mod Conserved
use Prim.Native.String.{◌++◌ as append}
use text.Mathlib.Text.{◌==◌ as str_eq}
use sajni_api.Prelude.{
  ℕ, ◌+◌, ◌-◌, ◌==◌, Bool, true, false, not, ◌&&◌, ◌||◌, Option, none, some, List, [], ◌∷◌, ◌++◌,
  map, String, ltb, length, if◌then◌else◌, Result, ok, err, ◌>>=◌, contains,
}
use sajni_api.Calendar.Text.{Text}
use sajni_api.Calendar.Zone.{Zone}
use sajni_api.Lends.Tables.{select, exists, find, update, delete}
use sajni_api.Lends.Ledger.{
  Account, Txn, Lend, Settlement, Repayment, Book, Names, LendError, no_person_or_txn,
  one_bill_only, txn_gone, not_plain_expense, lend_gone, not_paid_for, bad_share, failed, must,
  refuse, insert_txn, insert_lend,
}
use sajni_api.Lends.Due.{lend_due}
use sajni_api.Lends.Rebalance.{rebalance}

abbrev pub is_some {ℓ} : {A : Type ℓ} → Option A → Bool
is_some none = false
is_some (some a) = true

abbrev pub is_id : Option ℕ → ℕ → Bool
is_id none id = false
is_id (some other) id = other == id

abbrev pub update_txn : ℕ → (Txn → Txn) → Book → Book
update_txn id f s = record s { txns = update Txn.id id f s.txns }

abbrev pub update_lend : ℕ → (Lend → Lend) → Book → Book
update_lend id f s = record s { lends = update Lend.id id f s.lends }

-- The row that is cut out of a bill: it has the columns of the insert, and defaults.
unfoldable pub cut_row : ℕ → Txn → ℕ → Txn
cut_row id bill share = record {
  id = id;
  account_id = bill.account_id;
  category_id = bill.category_id;
  type = "lend";
  amount = share;
  description = bill.description;
  note = "";
  txn_at = bill.txn_at;
  transfer_pair = none;
  slate_id = bill.slate_id;
  split_of = some bill.id;
}

-- The three writing cases of `SetPaidForShare`. Whole again: the bill row becomes the lend.
unfoldable pub whole_again : ℕ → Txn → Txn → ℕ → Book → Book
whole_again lend_id row bill total s =
    update_txn bill.id (λ t. record t { type = "lend"; amount = total })
      (record s {
        lends =
            update Lend.id lend_id
              (λ l. record l { source_transaction_id = bill.id; principal = total }) s.lends;
        txns = delete Txn.id row.id s.txns;
      })

-- Whole to split: the row is the user's expense, and the share is cut into a new one.
unfoldable pub cut_share : ℕ → Txn → ℕ → Book → Book
cut_share lend_id row share s =
    update_txn row.id (λ t. record t { type = "expense"; amount = row.amount - share })
      (update_lend lend_id (λ l. record l { source_transaction_id = s.next_id; principal = share })
        (insert_txn (cut_row s.next_id row share) s))

-- The default: the line between the two rows moves.
unfoldable pub move_line : ℕ → Txn → Txn → ℕ → ℕ → Book → Book
move_line lend_id row bill share total s =
    update_lend lend_id (λ l. record l { principal = share })
      (update_txn bill.id (λ t. record t { amount = total - share })
        (update_txn row.id (λ t. record t { amount = share }) s))

-- Other people with a share of the bill.
unfoldable pub has_others : ℕ → ℕ → List Txn → Bool
has_others bill_id row_id txns = exists (λ t. is_id t.split_of bill_id && not (t.id == row_id)) txns

-- The part of `SetPaidForShare` past the reads, for a row that is whole or cut from a bill.
unfoldable pub write_share : ℕ → ℕ → Txn → Option Txn → Book → Result LendError Book
write_share lend_id share row none s =
    if share == 0 || ltb row.amount share
    then err bad_share
    else if share == row.amount
    then ok s
    else ok (cut_share lend_id row share s)
write_share lend_id share row (some bill) s =
    let total = row.amount + bill.amount in
    if share == 0 || ltb total share
    then err bad_share
    else if (share == total) && not (has_others bill.id row.id s.txns)
    then ok (whole_again lend_id row bill total s)
    else ok (move_line lend_id row bill share total s)

-- The bill that a row was cut from has to be there.
abbrev pub bill_of : Option ℕ → List Txn → Result LendError (Option Txn)
bill_of none txns = ok none
bill_of (some id) txns = must failed (find Txn.id id txns) >>= λ bill. ok (some bill)

-- The deletion of a lend: its repayments go with it, and settlements no longer name it.
abbrev pub unpin : ℕ → Settlement → Settlement
unpin id p = if is_id p.lend_id id then record p { lend_id = none } else p

unfoldable pub delete_lend : ℕ → Book → Book
delete_lend id s = record s {
  lends = delete Lend.id id s.lends;
  repayments = select (λ r. not (r.lend_id == id)) s.repayments;
  settlements = map (unpin id) s.settlements;
}

-- The part of `UnmarkPaidFor` that folds the lend's row back, after the lend is gone.
unfoldable pub fold_back : Txn → Book → Book
fold_back row s = elim row.split_of [
  | none ↦ update_txn row.id (λ t. record t { type = "expense" }) s
  | some bill_id ↦
      update_txn bill_id (λ t. record t { amount = t.amount + row.amount })
        (record s { txns = delete Txn.id row.id s.txns })
]

-- A plain expense: no transfer, no investment and no bill that was split.
unfoldable pub is_plain_expense : Book → Txn → Bool
is_plain_expense s t =
    str_eq t.type "expense"
    && not (is_some t.transfer_pair)
    && not (contains s.invested t.id)
    && not (exists (λ other. is_id other.split_of t.id) s.txns)

abbrev pub title : String → String → String
title description borrower =
    if str_eq description "" then append "Paid for " borrower else description

-- The lend of a bill that was paid for someone.
unfoldable pub paid_for : ℕ → Txn → ℕ → String → ℕ → Option Text → Bool → Lend
paid_for id t row_id borrower principal due remind = record {
  id = id;
  source_account_id = t.account_id;
  source_transaction_id = row_id;
  borrower = borrower;
  principal = principal;
  description = title t.description borrower;
  note = t.note;
  lent_at = t.txn_at;
  due_date = due;
  remind = remind && is_some due;
  origin = "paid_for";
}

module _ (names : Names) (loc : Zone) where
  unfoldable pub set_paid_for_share : ℕ → ℕ → Book → Result LendError Book
  set_paid_for_share lend_id share s = do
    lend ← must lend_gone (find Lend.id lend_id s.lends)
    from_bill ← refuse not_paid_for (not (str_eq lend.origin "paid_for"))
    row ← must failed (find Txn.id lend.source_transaction_id s.txns)
    bill ← bill_of row.split_of s.txns
    written ← write_share lend_id share row bill s
    rebalance names loc lend.borrower written

  -- A share below the bill splits it at once.
  unfoldable pub take_share : ℕ → ℕ → ℕ → Book → Result LendError Book
  take_share lend_id share amount s =
      if not (share == 0) && ltb share amount then set_paid_for_share lend_id share s else ok s

  -- One round of the loop of `MarkPaidFor`.
  unfoldable pub mark_one : String → Option Text → Bool → ℕ → ℕ → Book → Result LendError (ℕ × Book)
  mark_one borrower due_date remind share txn_id s = do
    t ← must txn_gone (find Txn.id txn_id s.txns)
    account ← must txn_gone (find Account.id t.account_id s.accounts)
    plain ← refuse not_plain_expense (not (is_plain_expense s t))
    let due = lend_due due_date account t.txn_at loc
    let lend = paid_for s.next_id t txn_id borrower t.amount due remind
    lent ← insert_lend lend (update_txn txn_id (λ t. record t { type = "lend" }) s)
    split ← take_share lend.id share t.amount lent
    ok (lend.id, split)

  unfoldable pub mark_all :
      String → Option Text → Bool → ℕ → List ℕ → Book → Result LendError (List ℕ × Book)
  mark_all borrower due_date remind share [] s = ok ([], s)
  mark_all borrower due_date remind share (txn_id ∷ txn_ids) s = do
    first ← mark_one borrower due_date remind share txn_id s
    rest ← mark_all borrower due_date remind share txn_ids first.1
    ok (first.0 ∷ rest.0, rest.1)

  unfoldable pub mark_paid_for :
      String → List ℕ → Option Text → Bool → ℕ → Book → Result LendError (List ℕ × Book)
  mark_paid_for name txn_ids due_date remind share s = do
    let borrower = names.trim name
    picked ← refuse no_person_or_txn (str_eq borrower "" || (length txn_ids == 0))
    single ← refuse one_bill_only (not (share == 0) && not (length txn_ids == 1))
    marked ← mark_all borrower due_date remind share txn_ids s
    balanced ← rebalance names loc borrower marked.1
    ok (marked.0, balanced)

  unfoldable pub unmark_paid_for : ℕ → Book → Result LendError Book
  unmark_paid_for lend_id s = do
    lend ← must lend_gone (find Lend.id lend_id s.lends)
    from_bill ← refuse not_paid_for (not (str_eq lend.origin "paid_for"))
    row ← must failed (find Txn.id lend.source_transaction_id s.txns)
    rebalance names loc lend.borrower (fold_back row (delete_lend lend_id s))
