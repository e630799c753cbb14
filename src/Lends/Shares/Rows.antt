-- ===== src/Lends/Shares/Rows.antt =====
-- The rows of a bill and its shares under the statements that draw the line between them.
use sajni_api.Prelude.{
  append-All, ℕ, ◌+◌, ◌-◌, ◌≤◌, ◌<◌, ◌≡◌, ◌≢◌, false, some, List, [], ◌∷◌, ◌++◌, arith, refl, ap,
  ◌∙◌, All,
}
use sajni_api.Lends.Tables.{
  find, update, delete, sum_of, sum_of-append, sum_of-update, sum_of-delete, sum_of-update_same,
  find-delete_ne, find-update_ne, find-append, find-All, update-All, delete-All,
}
use sajni_api.Lends.Ledger.{Txn, Book}
use sajni_api.Lends.Shares.{is_id, update_txn, cut_row}

-- What all the rows charge.
unfoldable pub charges : Book → ℕ
charges s = sum_of Txn.amount s.txns

-- A row's id was given out, and it is not cut from itself.
abbrev pub IsRow : ℕ → Txn → Type 0
IsRow next_id t = (t.id < next_id) × (is_id t.split_of t.id ≡ false)

unfoldable pub IsLedger : Book → Type 0
IsLedger s = All (IsRow s.next_id) s.txns

-- A step that leaves the ledger in order and the charges as they were.
pub record Keeps (s t : Book) : Type 0 where
  pub order : IsLedger t
  pub charge : charges t ≡ charges s

pub refl-Keeps : (s : Book) → IsLedger s → Keeps s s
refl-Keeps s order = record { order = order; charge = refl }

pub trans-Keeps : (s t u : Book) → Keeps s t → Keeps t u → Keeps s u
trans-Keeps s t u a b = record { order = b.order; charge = b.charge ∙ a.charge }

-- A step that leaves the transactions.
pub same-Keeps : (s t : Book) → t.txns ≡ s.txns → t.next_id ≡ s.next_id → IsLedger s → Keeps s t
unfolding IsLedger charges
same-Keeps s t same next order = record {
  order = rw (same, next) order;
  charge = ap (sum_of Txn.amount) same;
}

pub find-IsRow :
    (s : Book) (id : ℕ) {row : Txn}
    → IsLedger s
    → find Txn.id id s.txns ≡ some row
    → IsRow s.next_id row
unfolding IsLedger
find-IsRow s id order h = find-All Txn.id (IsRow s.next_id) id s.txns h order

update-IsLedger :
    (s : Book) (id : ℕ) (f : Txn → Txn)
    → ((t : Txn) → ((f t).id ≡ t.id) × ((f t).split_of ≡ t.split_of))
    → IsLedger s
    → IsLedger (update_txn id f s)
unfolding IsLedger
update-IsLedger s id f keeps order =
    update-All Txn.id (IsRow s.next_id) id f s.txns (λ t row. rw ((keeps t).0, (keeps t).1) row)
      order

grow : (n m : ℕ) (txns : List Txn) → n ≤ m → All (IsRow n) txns → All (IsRow m) txns
grow n m [] le all = tt
grow n m (t ∷ txns) le all = ((omega (arith, all.0.0), all.0.1), grow n m txns le all.1)

cut_row-IsRow :
    (n : ℕ) (bill : Txn) (share : ℕ) → bill.id < n → IsRow (n + 1) (cut_row n bill share)
unfolding cut_row
cut_row-IsRow n bill share older = (omega arith, ground arith)

-- New rows in order, which charge what the old ones do.
unfoldable pub IsCharged : ℕ → List Txn → List Txn → Type 0
IsCharged next_id old new =
    All (IsRow next_id) new × (sum_of Txn.amount new ≡ sum_of Txn.amount old)

pub cut-order :
    (n : ℕ) (bill : Txn) (share : ℕ) (txns : List Txn)
    → All (IsRow n) txns
    → bill.id < n
    → All (IsRow (n + 1)) (txns ++ cut_row n bill share ∷ [])
cut-order n bill share txns order older =
    append-All (IsRow (n + 1)) txns (cut_row n bill share ∷ [])
      (grow n (n + 1) txns (omega arith) order) (cut_row-IsRow n bill share older, tt)

pub cut-sum :
    (n : ℕ) (bill : Txn) (share : ℕ) (txns : List Txn)
    → sum_of Txn.amount (txns ++ cut_row n bill share ∷ []) ≡ sum_of Txn.amount txns + share
unfolding cut_row
cut-sum n bill share txns =
    let cut_amount : sum_of Txn.amount (cut_row n bill share ∷ []) ≡ share =
      unfold sum_of in omega arith in
    omega (arith, sum_of-append Txn.amount txns (cut_row n bill share ∷ []))

pub amount-IsCharged :
    (n extra : ℕ) (bill : Txn) (f : Txn → Txn) (old txns : List Txn)
    → All (IsRow n) txns
    → find Txn.id bill.id txns ≡ some bill
    → sum_of Txn.amount txns ≡ sum_of Txn.amount old + extra
    → extra ≤ bill.amount
    → ((t : Txn) → ((f t).id ≡ t.id) × ((f t).split_of ≡ t.split_of))
    → (f bill).amount ≡ bill.amount - extra
    → IsCharged n old (update Txn.id bill.id f txns)
unfolding IsCharged
amount-IsCharged n extra bill f old txns order found sum le keeps amount =
    let changed = sum_of-update Txn.id Txn.amount bill.id f txns found in
    (
      update-All Txn.id (IsRow n) bill.id f txns (λ t r. rw ((keeps t).0, (keeps t).1) r) order,
      omega arith,
    )

pub cut-IsCharged :
    (n : ℕ) (row : Txn) (share : ℕ) (f : Txn → Txn) (txns : List Txn)
    → All (IsRow n) txns
    → find Txn.id row.id txns ≡ some row
    → share ≤ row.amount
    → ((t : Txn) → ((f t).id ≡ t.id) × ((f t).split_of ≡ t.split_of))
    → (f row).amount ≡ row.amount - share
    → IsCharged (n + 1) txns (update Txn.id row.id f (txns ++ cut_row n row share ∷ []))
unfolding IsCharged
cut-IsCharged n row share f txns order found le keeps amount =
    let cut = cut_row n row share in
    let here = find-append Txn.id row.id txns (cut ∷ []) found in
    let older = (find-All Txn.id (IsRow n) row.id txns found order).0 in
    let paid = sum_of-update Txn.id Txn.amount row.id f (txns ++ cut ∷ []) here in
    let added = sum_of-append Txn.amount txns (cut ∷ []) in
    let cut_amount : sum_of Txn.amount (cut ∷ []) ≡ share = unfold sum_of cut_row in omega arith in
    (
      update-All Txn.id (IsRow (n + 1)) row.id f (txns ++ cut ∷ [])
          (λ t r. rw ((keeps t).0, (keeps t).1) r)
          (append-All (IsRow (n + 1)) txns (cut ∷ []) (grow n (n + 1) txns (omega arith) order)
            (cut_row-IsRow n row share older, tt)),
      omega arith,
    )

pub move-IsCharged :
    (n : ℕ) (row bill : Txn) (share : ℕ) (f g : Txn → Txn) (txns : List Txn)
    → All (IsRow n) txns
    → find Txn.id row.id txns ≡ some row
    → find Txn.id bill.id txns ≡ some bill
    → bill.id ≢ row.id
    → share ≤ row.amount + bill.amount
    → ((t : Txn) → ((f t).id ≡ t.id) × ((f t).split_of ≡ t.split_of))
    → ((t : Txn) → ((g t).id ≡ t.id) × ((g t).split_of ≡ t.split_of))
    → (f row).amount ≡ share
    → (g bill).amount ≡ row.amount + bill.amount - share
    → IsCharged n txns (update Txn.id bill.id g (update Txn.id row.id f txns))
unfolding IsCharged
move-IsCharged n row bill share f g txns order found at_bill apart le keeps_f keeps_g amount_f
      amount_g =
    let still = find-update_ne Txn.id bill.id row.id f txns apart (λ t. (keeps_f t).0) ∙ at_bill in
    let first = sum_of-update Txn.id Txn.amount row.id f txns found in
    let second = sum_of-update Txn.id Txn.amount bill.id g (update Txn.id row.id f txns) still in
    (
      update-All Txn.id (IsRow n) bill.id g (update Txn.id row.id f txns)
          (λ t r. rw ((keeps_g t).0, (keeps_g t).1) r)
          (update-All Txn.id (IsRow n) row.id f txns (λ t r. rw ((keeps_f t).0, (keeps_f t).1) r)
            order),
      omega arith,
    )

pub fold-IsCharged :
    (n : ℕ) (row bill : Txn) (g : Txn → Txn) (txns : List Txn)
    → All (IsRow n) txns
    → find Txn.id row.id txns ≡ some row
    → find Txn.id bill.id txns ≡ some bill
    → bill.id ≢ row.id
    → ((t : Txn) → ((g t).id ≡ t.id) × ((g t).split_of ≡ t.split_of))
    → (g bill).amount ≡ row.amount + bill.amount
    → IsCharged n txns (update Txn.id bill.id g (delete Txn.id row.id txns))
unfolding IsCharged
fold-IsCharged n row bill g txns order found at_bill apart keeps amount =
    let still = find-delete_ne Txn.id bill.id row.id txns apart ∙ at_bill in
    let first = sum_of-delete Txn.id Txn.amount row.id txns found in
    let second = sum_of-update Txn.id Txn.amount bill.id g (delete Txn.id row.id txns) still in
    (
      update-All Txn.id (IsRow n) bill.id g (delete Txn.id row.id txns)
          (λ t r. rw ((keeps t).0, (keeps t).1) r) (delete-All Txn.id (IsRow n) row.id txns order),
      omega arith,
    )

pub type-IsCharged :
    (n id : ℕ) (f : Txn → Txn) (txns : List Txn)
    → All (IsRow n) txns
    → ((t : Txn) → ((f t).id ≡ t.id) × ((f t).split_of ≡ t.split_of) × ((f t).amount ≡ t.amount))
    → IsCharged n txns (update Txn.id id f txns)
unfolding IsCharged
type-IsCharged n id f txns order keeps = (
  update-All Txn.id (IsRow n) id f txns (λ t r. rw ((keeps t).0, (keeps t).1) r) order,
  sum_of-update_same Txn.id Txn.amount id f txns (λ t. (keeps t).2),
)

pub of-IsCharged : (s t : Book) → IsCharged t.next_id s.txns t.txns → Keeps s t
unfolding IsCharged IsLedger charges
of-IsCharged s t h = record { order = h.0; charge = h.1 }

-- An insert into another table takes an id.
pub insert-Keeps :
    (s t : Book) → t.txns ≡ s.txns → t.next_id ≡ s.next_id + 1 → IsLedger s → Keeps s t
unfolding IsLedger charges
insert-Keeps s t same next order = record {
  order = rw (same, next) (grow s.next_id (s.next_id + 1) s.txns (omega arith) order);
  charge = ap (sum_of Txn.amount) same;
}
