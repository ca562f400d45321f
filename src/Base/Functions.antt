-- ===== src/Base/Functions.antt =====
-- Functions on the natural numbers as tables whose entries are replaced.
use Prim.Native.Nat.{ℕ}
use mathlib.Core.Path.{◌≡◌, refl, subst, sym, ◌∙◌}
use mathlib.Core.Logic.{inl, inr, ◌≢◌}
use mathlib.Core.Bool.{false≢true}
use raft_algorithm_thesis.Base.Tests.{◌==◌, ==_iff, if◌then◌else◌, if_cases, Bool-cases}

-- A function with one value replaced.
abbrev pub put_at {ℓ} : {A : Type ℓ} → ℕ → A → (ℕ → A) → ℕ → A
put_at i a f j = if i == j then a else f j

pub put_at-All :
    {A : Type 0} (P : ℕ → A → Type 0) (i : ℕ) (a : A) (f : ℕ → A)
    → P i a
    → ((j : ℕ) → P j (f j))
    → (j : ℕ) → P j (put_at i a f j)
put_at-All P i a f h k j =
    if_cases (P j) (i == j) (λ e. subst (λ j. P j a) ((==_iff i j).0 e) h) (λ _. k j)

pub put_at-Both :
    {A B : Type 0} (P : ℕ → A → B → Type 0) (i : ℕ) (a : A) (b : B) (f : ℕ → A) (g : ℕ → B)
    → P i a b
    → ((j : ℕ) → P j (f j) (g j))
    → (j : ℕ) → P j (put_at i a f j) (put_at i b g j)
put_at-Both P i a b f g h k j = elim (Bool-cases (i == j)) [
  | inl e ↦ rw e (subst (λ j. P j a b) ((==_iff i j).0 e) h)
  | inr e ↦ rw e (k j)
]

pub put_at-here : {A : Type 0} (i : ℕ) (a : A) (f : ℕ → A) → put_at i a f i ≡ a
put_at-here i a f = rw ((==_iff i i).1 refl) refl

pub put_at-cases :
    {A : Type 0} (P : A → Type 0) (i j : ℕ) (a : A) (f : ℕ → A)
    → (i ≡ j → P a)
    → (i ≢ j → P (f j))
    → P (put_at i a f j)
put_at-cases P i j a f h k =
    if_cases P (i == j) (λ e. h ((==_iff i j).0 e))
      (λ n. k (λ e. false≢true (sym n ∙ (==_iff i j).1 e)))
