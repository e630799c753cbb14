-- ===== src/HabitPeriod/Runs.antt =====
-- The loop for the longest streak finds every run of consecutive periods: its input is sorted, and
-- no period starts between a period and the next one.
use native.Mathlib.Decide.{dec_lt, ℕ_discrete}
use sajni_api.Prelude.{
  ℕ, zero, suc, ◌+◌, ◌≤◌, ◌<◌, ◌==◌, true, false, ◌||◌, List, [], ◌∷◌, String, ltb, leb, ◌≡◌,
  if◌then◌else◌, contains, All, arith, Bool-cases, inl, inr, refl, subst, sym,
}
use sajni_api.HabitPeriod.{next}
use sajni_api.HabitPeriod.Periods.{IsDate, spec_unique}
use sajni_api.HabitPeriod.Count.{lt-next, Opens, next-Opens}
use sajni_api.HabitPeriod.Streaks.{insert_sorted, sort, next_run, longest_run}

-- No start is there twice.
abbrev pub Distinct : List ℕ → Type 0
Distinct [] = Unit
Distinct (x ∷ xs) = (contains xs x ≡ false) × Distinct xs

abbrev pub IsSorted : List ℕ → Type 0
IsSorted [] = Unit
IsSorted (x ∷ xs) = All (λ y. x < y) xs × IsSorted xs

-- A date that opens its period.
abbrev pub IsStart : String → ℕ → Type 0
IsStart frequency s = IsDate s × Opens s frequency

All-insert_sorted :
    (P : ℕ → Type 0) (a : ℕ) (xs : List ℕ) → P a → All P xs → All P (insert_sorted a xs)
unfolding insert_sorted
All-insert_sorted P a [] p ps = (p, tt)
All-insert_sorted P a (x ∷ xs) p ps = elim (Bool-cases (leb a x)) [
  | inl before ↦ rw before (p, ps)
  | inr after ↦ rw after (ps.0, All-insert_sorted P a xs p ps.1)
]

pub All-sort : (P : ℕ → Type 0) (xs : List ℕ) → All P xs → All P (sort xs)
unfolding sort
All-sort P [] ps = tt
All-sort P (x ∷ xs) ps = All-insert_sorted P x (sort xs) ps.0 (All-sort P xs ps.1)

pub contains-insert_sorted :
    (a b : ℕ) (xs : List ℕ) → contains (insert_sorted a xs) b ≡ (a == b || contains xs b)
unfolding insert_sorted
contains-insert_sorted a b [] = refl
contains-insert_sorted a b (x ∷ xs) = ground (arith, contains-insert_sorted a b xs)

pub contains-sort : (b : ℕ) (xs : List ℕ) → contains (sort xs) b ≡ contains xs b
unfolding sort
contains-sort b [] = refl
contains-sort b (x ∷ xs) = ground (arith, contains-insert_sorted x b (sort xs), contains-sort b xs)

All-lt_trans : (a b : ℕ) (xs : List ℕ) → a < b → All (λ y. b < y) xs → All (λ y. a < y) xs
All-lt_trans a b [] h ps = tt
All-lt_trans a b (x ∷ xs) h ps = (omega arith, All-lt_trans a b xs h ps.1)

insert_sorted-IsSorted :
    (a : ℕ) (xs : List ℕ) → contains xs a ≡ false → IsSorted xs → IsSorted (insert_sorted a xs)
unfolding insert_sorted
insert_sorted-IsSorted a [] new s = (tt, tt)
insert_sorted-IsSorted a (x ∷ xs) new s = elim (Bool-cases (leb a x)) [
  | inl before ↦
      let less : a < x = ground arith in rw before ((less, All-lt_trans a x xs less s.0), s)
  | inr after ↦ rw after (
    All-insert_sorted (λ y. x < y) a xs (ground arith) s.0,
    insert_sorted-IsSorted a xs (ground arith) s.1,
  )
]

pub sort-IsSorted : (xs : List ℕ) → Distinct xs → IsSorted (sort xs)
unfolding sort
sort-IsSorted [] h = tt
sort-IsSorted (x ∷ xs) h =
    insert_sorted-IsSorted x (sort xs) (rw (contains-sort x xs) h.0) (sort-IsSorted xs h.1)

-- The `k` periods from `a` on are all there.
abbrev pub Chain : String → ℕ → ℕ → List ℕ → Type 0
Chain frequency zero a xs = Unit
Chain frequency (suc k) a xs = (contains xs a ≡ true) × Chain frequency k (next a frequency) xs

-- The chain lies after an element that is below its first period.
Chain-tail :
    (frequency : String) (k a x : ℕ) (xs : List ℕ)
    → x < a
    → Chain frequency k a (x ∷ xs)
    → Chain frequency k a xs
Chain-tail frequency zero a x xs h c = tt
Chain-tail frequency (suc k) a x xs h c =
    let grows = lt-next a frequency in
    (ground arith, Chain-tail frequency k (next a frequency) x xs (omega arith) c.1)

-- Of the starts past `p` none is before the start of the next period.
next-le :
    (frequency : String) (p s : ℕ)
    → IsStart frequency p
    → IsStart frequency s
    → p < s
    → next p frequency ≤ s
next-le frequency p s hp hs lt = elim (dec_lt s (next p frequency)) [
  | yes inside ↦
      let (next_is, _) = next-Opens p frequency hp.0 hp.1 in
      let same = spec_unique p s frequency hp.0 (omega (arith, hp.1)) (omega arith) in
      absurd (omega (arith, hp.1, hs.1, same.0))
  | no outside ↦ omega arith
]

longest-le :
    (frequency : String) (starts : List ℕ) (run p longest : ℕ)
    → longest ≤ longest_run frequency starts run p longest
unfolding longest_run
longest-le frequency [] run p longest = omega arith
longest-le frequency (s ∷ starts) run p longest =
    let run' = next_run frequency run p s in
    let rest = longest-le frequency starts run' s (if ltb longest run' then run' else longest) in
    ground arith

next_run-pos : (frequency : String) (run p s : ℕ) → 1 ≤ next_run frequency run p s
unfolding next_run
next_run-pos frequency run p s = ground arith

next_run-consecutive :
    (frequency : String) (run p s : ℕ) → next p frequency ≡ s → next_run frequency run p s ≡ run + 1
unfolding next_run
next_run-consecutive frequency run p s h = ground arith

contains-lt : (a x : ℕ) (xs : List ℕ) → contains xs a ≡ true → All (λ y. x < y) xs → x < a
contains-lt a x [] h s = cc
contains-lt a x (y ∷ xs) h s = ground (arith, contains-lt a x xs)

contains-head :
    (a x : ℕ) (xs : List ℕ) → contains (x ∷ xs) a ≡ true → All (λ y. x < y) xs → a ≤ x → a ≡ x
contains-head a x xs h s le = ground (arith, contains-lt a x xs)

-- A run that goes on is counted on: `k` more periods after `p` make it longer by `k`.
run-le :
    (frequency : String) (starts : List ℕ) (run p longest k : ℕ)
    → IsStart frequency p
    → run ≤ longest
    → All (IsStart frequency) starts
    → All (λ y. p < y) starts
    → IsSorted starts
    → Chain frequency k (next p frequency) starts
    → run + k ≤ longest_run frequency starts run p longest
unfolding longest_run
run-le frequency [] run p longest zero hp le all after sorted c = omega arith
run-le frequency [] run p longest (suc k) hp le all after sorted c = cc
run-le frequency (s ∷ starts) run p longest zero hp le all after sorted c =
    let more = longest-le frequency (s ∷ starts) run p longest in omega arith
run-le frequency (s ∷ starts) run p longest (suc k) hp le all after sorted c =
    let below = next-le frequency p s hp all.0 after.0 in
    let here = contains-head (next p frequency) s starts c.0 sorted.0 below in
    let chain = subst (λ t. Chain frequency k (next t frequency) (s ∷ starts)) here c.1 in
    let more = Chain-tail frequency k (next s frequency) s starts (lt-next s frequency) chain in
    rw (next_run-consecutive frequency run p s here) (
      omega (
        arith,
        run-le frequency starts (run + 1) s (if ltb longest (run + 1) then run + 1 else longest) k
            all.0 (ground arith) all.1 sorted.0 sorted.1 more,
      ))

-- The longest run is as long as any chain of periods among the starts.
pub Chain-le :
    (frequency : String) (starts : List ℕ) (run p longest a k : ℕ)
    → All (IsStart frequency) starts
    → IsSorted starts
    → Chain frequency (suc k) a starts
    → suc k ≤ longest_run frequency starts run p longest
unfolding longest_run
Chain-le frequency [] run p longest a k all sorted c = cc
Chain-le frequency (s ∷ starts) run p longest a k all sorted c =
    let run' = next_run frequency run p s in
    let longest' : ℕ = if ltb longest run' then run' else longest in
    let fresh = next_run-pos frequency run p s in
    let enough : run' ≤ longest' = ground arith in
    elim (ℕ_discrete s a) [
      | yes here ↦
          let chain =
            subst (λ t. Chain frequency k (next t frequency) (s ∷ starts)) (sym here) c.1 in
          let more =
            Chain-tail frequency k (next s frequency) s starts (lt-next s frequency) chain in
          omega (
            arith,
            run-le frequency starts run' s longest' k all.0 enough all.1 sorted.0 sorted.1 more,
          )
      | no later ↦
          let rest : contains starts a ≡ true = ground arith in
          Chain-le frequency starts run' s longest' a k all.1 sorted.1
            (Chain-tail frequency (suc k) a s starts (contains-lt a s starts rest sorted.0) c)
    ]
