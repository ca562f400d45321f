-- ===== src/Kv/Rsm/Entries.antt =====
-- rsm.go: the entries of the map of pending requests.
use raft_algorithm_thesis.Base.{
  ℕ, ◌+◌, ◌≡◌, inl, inr, refl, ap, true, false, none, some, List, [], ◌∷◌, ◌==◌, ◌≢◌, ◌⊎◌, IsAmong,
  sym, ◌∙◌, ==_iff, arith, Bool-cases, length, subst,
}
use raft_algorithm_thesis.Kv.Rsm.{Pending, delete, find}

-- An index has one entry at most.
abbrev pub IsMap : List Pending → Type 0
IsMap [] = Unit
IsMap (p ∷ ps) = (find p.index ps ≡ none) × IsMap ps

pub find-index :
    (index : ℕ) (ps : List Pending) {p : Pending} → find index ps ≡ some p → p.index ≡ index
unfolding find
find-index index [] h = cc
find-index index (q ∷ ps) {p} h = elim (Bool-cases (q.index == index)) [
  | inl here ↦ ground arith
  | inr there ↦ find-index index ps {p = p} (rw there at h)
]

pub delete-none : (index : ℕ) (ps : List Pending) → find index ps ≡ none → delete index ps ≡ ps
unfolding find delete
delete-none index [] h = refl
delete-none index (q ∷ ps) h = ground (arith, delete-none index ps)

pub length-delete :
    (index : ℕ) (ps : List Pending) {p : Pending}
    → IsMap ps
    → find index ps ≡ some p
    → length (delete index ps) + 1 ≡ length ps
unfolding find delete
length-delete index [] m h = cc
length-delete index (q ∷ ps) {p} m h = elim (Bool-cases (q.index == index)) [
  | inl here ↦ rw here (omega (arith, ap length (delete-none index ps (only here))))
  | inr there ↦ rw there (omega (arith, length-delete index ps {p = p} m.1 (rw there at h)))
]
  where
    only : (q.index == index) ≡ true → find index ps ≡ none
    only here = subst (λ i. find i ps ≡ none) ((==_iff q.index index).0 here) m.0

pub none-index :
    (index : ℕ) (ps : List Pending) (p : Pending)
    → find index ps ≡ none
    → IsAmong p ps
    → p.index ≢ index
unfolding find
none-index index [] p h m e = absurd m
none-index index (q ∷ ps) p h (inl same) e =
    let here : (q.index == index) ≡ true =
      (==_iff q.index index).1 (ap (λ x. x.index) (sym same) ∙ e) in
    let found : some q ≡ none = rw here at h in cc
none-index index (q ∷ ps) p h (inr m) e = elim (Bool-cases (q.index == index)) [
  | inl here ↦ (let found : some q ≡ none = rw here at h in cc)
  | inr there ↦ none-index index ps p (rw there at h) m e
]

-- The other entries of a map are of other indices, and stay when the one found is deleted.
pub other_entry :
    (index : ℕ) (ps : List Pending) (p q : Pending)
    → IsMap ps
    → find index ps ≡ some p
    → IsAmong q ps
    → (q ≡ p) ⊎ ((q.index ≢ index) × IsAmong q (delete index ps))
unfolding find delete
other_entry index [] p q m h among = absurd among
other_entry index (x ∷ ps) p q m h among = elim (Bool-cases (x.index == index)) [
  | inl here ↦ at_head here among
  | inr there ↦ behind there (λ t a. other_entry index ps p q m.1 t a) among
]
  where
    at_head :
        (x.index == index) ≡ true
        → IsAmong q (x ∷ ps)
        → (q ≡ p) ⊎ ((q.index ≢ index) × IsAmong q (delete index (x ∷ ps)))
    at_head here (inl same) = let found : some x ≡ some p = rw here at h in inl cc
    at_head here (inr among) =
        let gone : find index ps ≡ none =
          subst (λ i. find i ps ≡ none) ((==_iff x.index index).0 here) m.0 in
        inr (none-index index ps q gone among, rw (here, delete-none index ps gone) among)

    behind :
        (x.index == index) ≡ false
        → (find index ps ≡ some p
            → IsAmong q ps
            → (q ≡ p) ⊎ ((q.index ≢ index) × IsAmong q (delete index ps)))
        → IsAmong q (x ∷ ps)
        → (q ≡ p) ⊎ ((q.index ≢ index) × IsAmong q (delete index (x ∷ ps)))
    behind there later (inl same) = inr (λ e. ground arith, rw there (inl same))
    behind there later (inr among) = elim (later (rw there at h) among) [
      | inl found ↦ inl found
      | inr (ne, stays) ↦ inr (ne, rw there (inr stays))
    ]
