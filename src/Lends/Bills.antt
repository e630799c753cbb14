-- ===== src/Lends/Bills.antt =====
-- `SplitBill` and `SyncSplit`.
pub mod Whole
use text.Mathlib.Text.{◌==◌ as str_eq}
use sajni_api.Prelude.{
  ℕ, ◌+◌, ◌-◌, ◌==◌, Bool, true, false, not, ◌&&◌, ◌||◌, Option, none, some, List, [], ◌∷◌, ◌++◌,
  String, ltb, length, if◌then◌else◌, Result, ok, err, ◌>>=◌, contains, map,
}
use sajni_api.Calendar.Text.{Text}
use sajni_api.Calendar.Zone.{Zone}
use sajni_api.Lends.Tables.{select, exists, find, update}
use sajni_api.Lends.Ledger.{
  Account, Txn, Lend, Book, Names, LendError, nobody, share_without_person, twice,
  share_not_positive, txn_gone, not_plain_expense, has_share, shares_too_large, must, refuse,
  insert_txn, insert_lend,
}
use sajni_api.Lends.Due.{lend_due}
use sajni_api.Lends.Rebalance.{check_lend_order, rebalance}
use sajni_api.Lends.Shares.{is_some, is_id, update_txn, cut_row, paid_for, mark_paid_for}

-- `SplitShare`
pub record SplitShare : Type 0 where
  pub borrower : String
  pub share : ℕ

abbrev pub has_name : List String → String → Bool
has_name [] name = false
has_name (other ∷ others) name = str_eq other name || has_name others name

-- A plain expense that may be split already.
unfoldable pub can_split : Book → Txn → Bool
can_split s t =
    str_eq t.type "expense"
    && not (is_some t.transfer_pair)
    && not (is_some t.split_of)
    && not (contains s.invested t.id)

-- The borrowers of the lends of the rows cut from a bill.
unfoldable pub is_cut_from : ℕ → List Txn → ℕ → Bool
is_cut_from bill_id txns txn_id = exists (λ t. (t.id == txn_id) && is_id t.split_of bill_id) txns

unfoldable pub sharers : ℕ → Book → List Lend
sharers bill_id s = select (λ l. is_cut_from bill_id s.txns l.source_transaction_id) s.lends

module _ (names : Names) (loc : Zone) where
  -- The loop that checks the shares: the trimmed shares, or the first refusal. `seen` has the keys.
  unfoldable pub check_share : List String → SplitShare → Result LendError SplitShare
  check_share seen sh =
      let name = names.trim sh.borrower in
      if str_eq (names.lower name) ""
      then err share_without_person
      else if has_name seen (names.lower name)
      then err twice
      else if sh.share == 0
      then err share_not_positive
      else ok (record { borrower = name; share = sh.share })

  unfoldable pub check_shares : List String → List SplitShare → Result LendError (List SplitShare)
  check_shares seen [] = ok []
  check_shares seen (sh ∷ shares) = do
    first ← check_share seen sh
    rest ← check_shares (names.lower first.borrower ∷ seen) shares
    ok (first ∷ rest)

  unfoldable pub share_sum : List SplitShare → ℕ
  share_sum [] = 0
  share_sum (sh ∷ shares) = sh.share + share_sum shares

  -- Someone who has a share of the bill already.
  unfoldable pub is_listed : List SplitShare → Lend → Bool
  is_listed shares l =
      has_name (map (λ (sh : SplitShare). names.lower sh.borrower) shares)
        (names.lower (names.trim l.borrower))

  -- The loop that cuts a row and books a lend for each share.
  unfoldable pub cut_one :
      Txn → Option Text → Bool → SplitShare → Book → Result LendError (ℕ × Book)
  cut_one bill due remind sh s = do
    let cut = s.next_id
    let lend = paid_for (cut + 1) bill cut sh.borrower sh.share due remind
    lent ← insert_lend lend (insert_txn (cut_row cut bill sh.share) s)
    ok (lend.id, lent)

  unfoldable pub cut_all :
      Txn → Option Text → Bool → List SplitShare → Book → Result LendError (List ℕ × Book)
  cut_all bill due remind [] s = ok ([], s)
  cut_all bill due remind (sh ∷ shares) s = do
    first ← cut_one bill due remind sh s
    rest ← cut_all bill due remind shares first.1
    ok (first.0 ∷ rest.0, rest.1)

  -- The rebalances of everyone who was added.
  unfoldable pub rebalance_all : List SplitShare → Book → Result LendError Book
  rebalance_all [] s = ok s
  rebalance_all (sh ∷ shares) s =
      rebalance names loc sh.borrower s >>= λ balanced. rebalance_all shares balanced

  -- The part of `SplitBill` past the one-person case.
  unfoldable pub split_shares :
      Txn → Account → List SplitShare → Option Text → Bool → Book → Result LendError (List ℕ × Book)
  split_shares bill account shares due_date remind s = do
    let sum = share_sum shares
    fits ← refuse shares_too_large (ltb bill.amount sum)
    let due = lend_due due_date account bill.txn_at loc
    cut ← cut_all bill due remind shares s
    balanced ←
        rebalance_all shares
          (update_txn bill.id (λ t. record t { amount = bill.amount - sum }) cut.1)
    ok (cut.0, balanced)

  -- One person on a bill that is not split takes the path of `MarkPaidFor`.
  unfoldable pub split_checked :
      Txn → Account → List SplitShare → Option Text → Bool → Book → Result LendError (List ℕ × Book)
  split_checked bill account [] due_date remind s = split_shares bill account [] due_date remind s
  split_checked bill account (sh ∷ shares) due_date remind s =
      if (length shares == 0) && (length (sharers bill.id s) == 0)
      then mark_paid_for names loc sh.borrower (bill.id ∷ []) due_date remind sh.share s
      else split_shares bill account (sh ∷ shares) due_date remind s

  unfoldable pub split_bill :
      ℕ → List SplitShare → Option Text → Bool → Book → Result LendError (List ℕ × Book)
  split_bill bill_id given due_date remind s = do
    some_share ← refuse nobody (length given == 0)
    shares ← check_shares [] given
    bill ← must txn_gone (find Txn.id bill_id s.txns)
    account ← must txn_gone (find Account.id bill.account_id s.accounts)
    plain ← refuse not_plain_expense (not (can_split s bill))
    new ← refuse has_share (exists (is_listed shares) (sharers bill_id s))
    split_checked bill account shares due_date remind s

  -- `SyncSplit`: the rows that are cut from a bill follow it, and so do their lends.
  unfoldable pub follow_bill : Txn → Txn → Txn
  follow_bill bill t =
      if is_id t.split_of bill.id
      then record t {
        account_id = bill.account_id;
        txn_at = bill.txn_at;
        slate_id = bill.slate_id;
        description = bill.description;
      }
      else t

  unfoldable pub follow_row : ℕ → List Txn → Lend → Lend
  follow_row bill_id txns l = elim (find Txn.id l.source_transaction_id txns) [
    | none ↦ l
    | some t ↦
        if is_id t.split_of bill_id
        then record l { source_account_id = t.account_id; lent_at = t.txn_at }
        else l
  ]

  unfoldable pub check_all : List Lend → Book → Result LendError Book
  check_all [] s = ok s
  check_all (l ∷ lends) s = check_lend_order names loc l.borrower s >>= λ ordered. check_all lends s

  unfoldable pub synced : ℕ → Book → Book
  synced bill_id s = elim (find Txn.id bill_id s.txns) [
    | none ↦ s
    | some bill ↦
        let txns = map (follow_bill bill) s.txns in
        record s { txns = txns; lends = map (follow_row bill_id txns) s.lends }
  ]

  unfoldable pub sync_split : ℕ → Book → Result LendError Book
  sync_split bill_id s = let t = synced bill_id s in check_all (sharers bill_id t) t
