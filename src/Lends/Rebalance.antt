-- ===== src/Lends/Rebalance.antt =====
-- `RebalanceLends` and `CheckLendOrder`. `loc` is the user's zone.
pub mod Cover
pub mod Again
use sajni_api.Prelude.{
  ℕ, ◌+◌, ◌-◌, ◌==◌, min, Bool, true, false, not, ◌&&◌, ◌||◌, Option, none, some, List, [], ◌∷◌,
  ◌++◌, String, ltb, if◌then◌else◌, Result, ok, err, ◌>>=◌,
}
use sajni_api.Calendar.Zone.{Zone, local_day}
use sajni_api.Lends.Tables.{select, exists, find}
use sajni_api.Lends.Ledger.{
  Txn, Lend, Settlement, Repayment, Book, Names, LendError, failed, too_early, lends_of,
  settlements_of,
}

-- `room`: what is left of each lend, by its id.
abbrev pub Rooms : Type 0
Rooms = List (ℕ × ℕ)

unfoldable pub room_of : ℕ → Rooms → Option ℕ
room_of id [] = none
room_of id ((other, left) ∷ rooms) = if other == id then some left else room_of id rooms

unfoldable pub set_room : ℕ → ℕ → Rooms → Rooms
set_room id left [] = []
set_room id left ((other, old) ∷ rooms) =
    if other == id then (other, left) ∷ rooms else (other, old) ∷ set_room id left rooms

unfoldable pub all_rooms : List Lend → Rooms
all_rooms [] = []
all_rooms (l ∷ lends) = (l.id, l.principal) ∷ all_rooms lends

-- `pin`
pub record Pin : Type 0 where
  pub lend_id : ℕ
  pub txn_id : ℕ
  pub account_id : ℕ
  pub amount : ℕ
  pub at : ℕ

abbrev pub pin_of : Option ℕ → Option Txn → List Pin
pin_of none t = []
pin_of (some lend_id) none = []
pin_of (some lend_id) (some t) =
    record {
      lend_id = lend_id;
      txn_id = t.id;
      account_id = t.account_id;
      amount = t.amount;
      at = t.txn_at;
    }
    ∷ []

-- The settlements that name a lend, with their transactions.
unfoldable pub pins : List Txn → List Settlement → List Pin
pins txns [] = []
pins txns (p ∷ settlements) =
    pin_of p.lend_id (find Txn.id p.transaction_id txns) ++ pins txns settlements

-- `ORDER BY t.txn_at, t.id`
unfoldable pub earlier : Pin → Pin → Bool
earlier p q = ltb p.at q.at || (p.at == q.at) && ltb p.txn_id q.txn_id

unfoldable pub insert_pin : Pin → List Pin → List Pin
insert_pin p [] = p ∷ []
insert_pin p (q ∷ pins) = if earlier q p then q ∷ insert_pin p pins else p ∷ q ∷ pins

unfoldable pub sort_pins : List Pin → List Pin
sort_pins [] = []
sort_pins (p ∷ pins) = insert_pin p (sort_pins pins)

abbrev pub repayment : Pin → ℕ → Repayment
repayment p part = record {
  lend_id = p.lend_id;
  destination_account_id = p.account_id;
  transaction_id = p.txn_id;
  amount = part;
  repaid_at = p.at;
}

-- The loop over the pins: each pays up to what is left of its lend. A row of amount 0 is refused.
unfoldable pub cover : List Pin → Rooms → Result LendError (List Repayment)
cover [] rooms = ok []
cover (p ∷ pins) rooms = elim (room_of p.lend_id rooms) [
  | none ↦ cover pins rooms
  | some left ↦
      let skipped = cover pins rooms in
      let part = min p.amount left in
      let rest = cover pins (set_room p.lend_id (left - part) rooms) in
      if left == 0
      then skipped
      else if part == 0
      then err failed
      else rest >>= λ rows. ok (repayment p part ∷ rows)
]

-- The day that a settlement may not come before; none when the person has no lend.
unfoldable pub first_lend_day : Zone → List Lend → Option ℕ
first_lend_day loc [] = none
first_lend_day loc (l ∷ lends) = elim (first_lend_day loc lends) [
  | none ↦ some (local_day loc l.lent_at)
  | some d ↦ if ltb d (local_day loc l.lent_at) then some d else some (local_day loc l.lent_at)
]

abbrev pub pinned_day : Zone → List Lend → Option ℕ → Option ℕ
pinned_day loc lends none = first_lend_day loc lends
pinned_day loc lends (some id) = elim (find Lend.id id lends) [
  | none ↦ first_lend_day loc lends
  | some l ↦ some (local_day loc l.lent_at)
]

abbrev pub is_before : Zone → Option Txn → Option ℕ → Bool
is_before loc none limit = false
is_before loc (some t) none = false
is_before loc (some t) (some limit) = ltb (local_day loc t.txn_at) limit

-- A settlement that is dated before what it pays.
unfoldable pub is_early : Zone → List Txn → List Lend → Settlement → Bool
is_early loc txns lends p =
    is_before loc (find Txn.id p.transaction_id txns) (pinned_day loc lends p.lend_id)

module _ (names : Names) (loc : Zone) where
  -- `CheckLendOrder`, without the words of its message.
  unfoldable pub check_lend_order : String → Book → Result LendError Bool
  check_lend_order borrower s =
      if exists (is_early loc s.txns (lends_of names borrower s)) (settlements_of names borrower s)
      then err too_early
      else ok true

  -- A transaction that the person settled with.
  unfoldable pub is_paid_by : String → Book → ℕ → Bool
  is_paid_by borrower s txn_id =
      exists (λ p. p.transaction_id == txn_id) (settlements_of names borrower s)

  -- The repayments that are deleted first, and those that follow from the pins.
  unfoldable pub other_repayments : String → Book → List Repayment
  other_repayments borrower s =
      select (λ r. not (is_paid_by borrower s r.transaction_id)) s.repayments

  unfoldable pub derived : String → Book → Result LendError (List Repayment)
  derived borrower s =
      cover (sort_pins (pins s.txns (settlements_of names borrower s)))
        (all_rooms (lends_of names borrower s))

  -- `RebalanceLends`
  unfoldable pub rebalance : String → Book → Result LendError Book
  rebalance borrower s = do
    rows ← derived borrower s
    ordered ← check_lend_order borrower s
    ok (record s { repayments = other_repayments borrower s ++ rows })
