-- ===== src/Harness/Network/Mesh.antt =====
-- network.go: the links that AddServer puts up.
use raft_algorithm_thesis.Base.{
  ℕ, ◌≡◌, ◌≢◌, refl, sym, ◌∙◌, ap, subst, inl, inr, Bool, true, false, Option, some, List, [], ◌∷◌,
  ◌==◌, ==_iff, if_cases, put_at, put_at-here, IsAmong, Returns, Bool-cases,
}
use raft_algorithm_thesis.Harness.Network.{is_up, is_linked, set_link, link_all}

abbrev pub Links : Type 0
Links = ℕ → Option (ℕ → Bool)

-- The links of one table that are up are up in another, and so for the keys.
pub record Grows (c c' : Links) : Type 0 where
  pub rows : (x : ℕ) (row : ℕ → Bool) → c x ≡ some row → (row' : ℕ → Bool) × (c' x ≡ some row')
  pub links : (a b : ℕ) → is_linked c a b ≡ true → is_linked c' a b ≡ true

Grows-refl : (c : Links) → Grows c c
Grows-refl c = record { rows = λ x row q. (row, q); links = λ a b h. h }

Grows-trans : {c d e : Links} → Grows c d → Grows d e → Grows c e
Grows-trans g h = record {
  rows = λ x row q. (let (row', q') = g.rows x row q in h.rows x row' q');
  links = λ a b l. h.links a b (g.links a b l);
}

row-linked :
    (c : Links) (from to : ℕ) {row : ℕ → Bool} → c from ≡ some row → is_linked c from to ≡ row to
row-linked c from to q = ap (λ o. is_up o to) q

put_link-Grows :
    (from to : ℕ) (c : Links) (row : ℕ → Bool)
    → c from ≡ some row
    → Grows c (put_at from (some (put_at to true row)) c)
put_link-Grows from to c row q = record {
  rows = λ x r e. elim (Bool-cases (from == x)) [
    | inl here ↦ (put_at to true row, rw here refl)
    | inr there ↦ (r, rw there e)
  ];
  links = λ a b l. elim (Bool-cases (from == a)) [
    | inl here ↦
        (let at : from ≡ a = (==_iff from a).0 here in
          ap (λ o. is_up o b) (here_row a here)
          ∙ if_cases (λ (up : Bool). up ≡ true) (to == b) (λ _. refl)
              (λ _. sym (row-linked c a b (subst (λ x. c x ≡ some row) at q)) ∙ l))
    | inr there ↦ ap (λ o. is_up o b) (there_row a there) ∙ l
  ];
}
  where
    here_row :
        (a : ℕ)
        → (from == a) ≡ true
        → put_at from (some (put_at to true row)) c a ≡ some (put_at to true row)
    here_row a here = rw here refl

    there_row : (a : ℕ) → (from == a) ≡ false → put_at from (some (put_at to true row)) c a ≡ c a
    there_row a there = rw there refl

-- A link that is put up.
set_link-up :
    (from to : ℕ) (c : Links) (row : ℕ → Bool)
    → c from ≡ some row
    → Returns (λ c'. Grows c c' × (is_linked c' from to ≡ true)) (set_link from to true c)
unfolding set_link
set_link-up from to c row q = (
  put_at from (some (put_at to true row)) c,
  rw q refl,
  (
    put_link-Grows from to c row q,
    row-linked (put_at from (some (put_at to true row)) c) from to
          (put_at-here from (some (put_at to true row)) c)
        ∙ put_at-here to true row,
  ),
)

-- After the loop of AddServer the new server is linked with all others, both ways.
abbrev pub Linked : ℕ → List ℕ → Links → Type 0
Linked id others c =
    (x : ℕ) → IsAmong x others → id ≢ x → (is_linked c id x ≡ true) × (is_linked c x id ≡ true)

pub link_all-Linked :
    (id : ℕ) (others : List ℕ) (c : Links) (row : ℕ → Bool)
    → c id ≡ some row
    → ((x : ℕ) → IsAmong x others → (row : ℕ → Bool) × (c x ≡ some row))
    → Returns (λ c'. Grows c c' × Linked id others c') (link_all id others c)
unfolding link_all
link_all-Linked id [] c row q h = (c, refl, (Grows-refl c, λ x m. absurd m))
link_all-Linked id (other ∷ others) c row q h = elim (Bool-cases (id == other)) [
  | inl same ↦
      (let (c', run, (g, l)) = link_all-Linked id others c row q (λ x m. h x (inr m)) in
        (c', rw same run, (g, λ x m ne. first c' same m ne l)))
  | inr other_one ↦
      (let (r, at_other) = h other (inl refl) in
        let (c₁, run₁, (g₁, up₁)) = set_link-up id other c row q in
        let (r₁, at₁) = g₁.rows other r at_other in
        let (c₂, run₂, (g₂, up₂)) = set_link-up other id c₁ r₁ at₁ in
        let (row₁, q₁) = g₁.rows id row q in
        let (row₂, q₂) = g₂.rows id row₁ q₁ in
        let g₁₂ = Grows-trans g₁ g₂ in
        let (c', run, (g, l)) =
          link_all-Linked id others c₂ row₂ q₂
            (λ x m. let (s, e) = h x (inr m) in g₁₂.rows x s e) in
        (
          c',
          rw (other_one, run₁, run₂) run,
          (
            Grows-trans g₁₂ g,
            both c' l (g.links id other (g₂.links id other up₁)) (g.links other id up₂),
          ),
        ))
]
  where
    first :
        (c' : Links) {x : ℕ}
        → (id == other) ≡ true
        → IsAmong x (other ∷ others)
        → id ≢ x
        → Linked id others c'
        → (is_linked c' id x ≡ true) × (is_linked c' x id ≡ true)
    first c' same (inl e) ne l = absurd (ne ((==_iff id other).0 same ∙ sym e))
    first c' {x = x} same (inr m) ne l = l x m ne

    both :
        (c' : Links)
        → Linked id others c'
        → is_linked c' id other ≡ true
        → is_linked c' other id ≡ true
        → Linked id (other ∷ others) c'
    both c' l out back x (inl e) ne =
        subst (λ x. (is_linked c' id x ≡ true) × (is_linked c' x id ≡ true)) (sym e) (out, back)
    both c' l out back x (inr m) ne = l x m ne
