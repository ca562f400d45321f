-- ===== src/Cluster/Count.antt =====
-- How many of the numbers below a bound pass a test, and majorities.
use native.Mathlib.Decide.{dec_lt}
use raft_algorithm_thesis.Base.{
  ℕ, zero, suc, ◌+◌, ◌/◌, ◌≤◌, ◌<◌, ◌≡◌, Bool, true, false, if◌then◌else◌, arith, ap,
}

unfoldable pub count : ℕ → (ℕ → Bool) → ℕ
count zero p = 0
count (suc n) p = (if p n then 1 else 0) + count n p

-- More than half of n.
abbrev pub IsMajority : ℕ → (ℕ → Bool) → Type 0
IsMajority n p = n / 2 + 1 ≤ count n p

abbrev pub Implies : (ℕ → Bool) → (ℕ → Bool) → Type 0
Implies p q = (j : ℕ) → p j ≡ true → q j ≡ true

pub count_mono : (n : ℕ) (p q : ℕ → Bool) → Implies p q → count n p ≤ count n q
unfolding count
count_mono zero p q h = omega arith
count_mono (suc n) p q h = ground (arith, h n, count_mono n p q h)

-- One more.
pub count_more :
    (n : ℕ) (p q : ℕ → Bool) (j : ℕ)
    → Implies p q
    → j < n
    → p j ≡ false
    → q j ≡ true
    → count n p + 1 ≤ count n q
unfolding count
count_more zero p q j h lt no_p yes_q = absurd (omega arith)
count_more (suc n) p q j h lt no_p yes_q = elim (dec_lt j n) [
  | yes low ↦ ground (arith, h n, count_more n p q j h low no_p yes_q)
  | no high ↦ (let at : j ≡ n = omega arith in ground (arith, ap p at, ap q at, count_mono n p q h))
]

-- Tests that nothing passes both of are together passed at most n times.
pub count_disjoint :
    (n : ℕ) (p q : ℕ → Bool) → ((j : ℕ) → p j ≡ true → q j ≡ true → ⊥) → count n p + count n q ≤ n
unfolding count
count_disjoint zero p q h = omega arith
count_disjoint (suc n) p q h = ground (arith, h n, count_disjoint n p q h)

pub majorities_meet :
    (n : ℕ) (p q : ℕ → Bool)
    → ((j : ℕ) → p j ≡ true → q j ≡ true → ⊥)
    → IsMajority n p
    → IsMajority n q
    → ⊥
majorities_meet n p q h a b = absurd (omega (arith, count_disjoint n p q h))
