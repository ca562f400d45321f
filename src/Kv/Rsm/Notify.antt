-- ===== src/Kv/Rsm/Notify.antt =====
-- rsm.go: who is woken, and by what, when a command is applied.
use raft_algorithm_thesis.Base.{
  ℕ, suc, ◌+◌, ◌<◌, ◌≡◌, inl, inr, refl, Bool, true, false, ◌&&◌, Option, none, some, List, [], ◌∷◌,
  ◌==◌, ◌≢◌, ◌⊎◌, IsAmong, All-of, sym, arith, if_cases, length, All, subst,
}
use raft_algorithm_thesis.Kv.Rsm.{
  Pending, Wake, done, failed, delete, find, is_outdated, notify_outdated, answer_entry,
  notify_found, notify_pending,
}
use raft_algorithm_thesis.Kv.Rsm.Entries.{IsMap, find-index, length-delete, none-index, other_entry}

-- A pending entry that may go on waiting when `index` is applied.
abbrev pub Waits : ℕ → ℕ → Bool → Pending → Type 0
Waits index term is_leader p = (index < p.index) × (is_leader ≡ true) × (p.term ≡ term)

-- An entry whose Submit gets the value of the command.
abbrev pub Owns : ℕ → ℕ → Bool → Pending → Type 0
Owns index id leads p = (p.index ≡ index) × (p.id ≡ id) × (leads ≡ true)

waiting :
    (index term : ℕ) (is_leader : Bool) (p : Pending)
    → is_outdated index term is_leader p ≡ false
    → Waits index term is_leader p
unfolding is_outdated
waiting index term is_leader p h = ground arith

fails :
    (index term : ℕ) (is_leader : Bool) (p : Pending)
    → is_outdated index term is_leader p ≡ true
    → Waits index term is_leader p
    → ⊥
unfolding is_outdated
fails index term is_leader p h (lt, leads, same) = ground arith

-- An entry that notifyOutdated goes over goes on waiting, or its Submit is told to retry.
abbrev Sorted : {Val : Type 0} → ℕ → ℕ → Bool → List Pending × List (Wake Val) → Pending → Type 0
Sorted index term is_leader r p =
    (Waits index term is_leader p × IsAmong p r.0)
    ⊎ ((Waits index term is_leader p → ⊥) × IsAmong (failed p.index p.id) r.1)

module _ (Val : Type 0) where
  outdated-Waits :
      (index term : ℕ) (is_leader : Bool) (ps : List Pending)
      → All (Waits index term is_leader) (notify_outdated {Val = Val} index term is_leader ps).0
  unfolding notify_outdated
  outdated-Waits index term is_leader [] = tt
  outdated-Waits index term is_leader (p ∷ ps) =
      if_cases (λ (r : List Pending × List (Wake Val)). All (Waits index term is_leader) r.0)
        (is_outdated index term is_leader p) (λ out. outdated-Waits index term is_leader ps)
        (λ waits. (waiting index term is_leader p waits, outdated-Waits index term is_leader ps))

  length-outdated :
      (index term : ℕ) (is_leader : Bool) (ps : List Pending)
      → length (notify_outdated {Val = Val} index term is_leader ps).0
          + length (notify_outdated {Val = Val} index term is_leader ps).1
        ≡ length ps
  unfolding notify_outdated
  length-outdated index term is_leader [] = omega arith
  length-outdated index term is_leader (p ∷ ps) =
      if_cases (λ (r : List Pending × List (Wake Val)). length r.0 + length r.1 ≡ suc (length ps))
        (is_outdated index term is_leader p)
        (λ out. omega (arith, length-outdated index term is_leader ps))
        (λ waits. omega (arith, length-outdated index term is_leader ps))

  outdated-Sorted :
      (index term : ℕ) (is_leader : Bool) (ps : List Pending) (p : Pending)
      → IsAmong p ps
      → Sorted index term is_leader (notify_outdated {Val = Val} index term is_leader ps) p
  unfolding notify_outdated
  outdated-Sorted index term is_leader [] p among = absurd among
  outdated-Sorted index term is_leader (q ∷ ps) p (inl same) =
      subst
        (λ q.
          Sorted index term is_leader (notify_outdated {Val = Val} index term is_leader (q ∷ ps)) p)
        same
        (if_cases (λ (r : List Pending × List (Wake Val)). Sorted index term is_leader r p)
          (is_outdated index term is_leader p)
          (λ out. inr (fails index term is_leader p out, inl refl))
          (λ waits. inl (waiting index term is_leader p waits, inl refl)))
  outdated-Sorted index term is_leader (q ∷ ps) p (inr among) =
      if_cases (λ (r : List Pending × List (Wake Val)). Sorted index term is_leader r p)
        (is_outdated index term is_leader q)
        (λ out. elim (outdated-Sorted index term is_leader ps p among) [
          | inl (w, stays) ↦ inl (w, stays)
          | inr (n, told) ↦ inr (n, inr told)
        ])
        (λ waits. elim (outdated-Sorted index term is_leader ps p among) [
          | inl (w, stays) ↦ inl (w, inr stays)
          | inr (n, told) ↦ inr (n, told)
        ])

module _ {Val : Type 0} where
  -- A message with a value goes to the entry of the command's index and id, from a leader.
  abbrev pub Honest : ℕ → ℕ → Val → Bool → Wake Val → Type 0
  Honest index id val is_leader (done i d own v) =
      (i ≡ index) × (d ≡ id) × (own ≡ id) × (v ≡ val) × (is_leader ≡ true)
  Honest index id val is_leader (failed i d) = Unit

  -- What becomes of an entry: it goes on waiting, or its Submit is sent the value or told to retry.
  abbrev pub Fate :
      ℕ → ℕ → Val → Bool → ℕ → Bool → List Pending × List (Wake Val) → Pending → Type 0
  Fate index id val leads term is_leader r p =
      (Waits index term is_leader p × IsAmong p r.0)
      ⊎ (Owns index id leads p × IsAmong (done index id id val) r.1)
      ⊎ ((Waits index term is_leader p → ⊥)
          × (Owns index id leads p → ⊥)
          × IsAmong (failed p.index p.id) r.1)

  -- After a notification: who goes on waiting, what was sent, what became of each entry, and that
  -- there is no more than that.
  abbrev pub Notified :
      ℕ → ℕ → Val → Bool → ℕ → Bool → List Pending → List Pending × List (Wake Val) → Type 0
  Notified index id val leads term is_leader ps r =
      All (Waits index term is_leader) r.0
      × All (Honest index id val leads) r.1
      × All (Fate index id val leads term is_leader r) ps
      × (length r.0 + length r.1 ≡ length ps)

  outdated-Honest :
      (index id : ℕ) (val : Val) (leads : Bool) (term : ℕ) (is_leader : Bool) (ps : List Pending)
      → All (Honest index id val leads) (notify_outdated index term is_leader ps).1
  unfolding notify_outdated
  outdated-Honest index id val leads term is_leader [] = tt
  outdated-Honest index id val leads term is_leader (p ∷ ps) =
      if_cases (λ (r : List Pending × List (Wake Val)). All (Honest index id val leads) r.1)
        (is_outdated index term is_leader p)
        (λ out. (tt, outdated-Honest index id val leads term is_leader ps))
        (λ waits. outdated-Honest index id val leads term is_leader ps)

  answer-Honest :
      (index id : ℕ) (val : Val) (leads : Bool) (p : Pending)
      → p.index ≡ index
      → Honest index id val leads (answer_entry id leads val p)
  unfolding answer_entry
  answer-Honest index id val leads p e =
      if_cases (Honest index id val leads) (leads && (p.id == id))
        (λ mine. (e, ground arith, refl, refl, ground arith)) (λ not_mine. tt)

  -- The fate of the entry that is found, and of the others.
  found-Fate :
      (index id : ℕ) (val : Val) (leads : Bool) (term : ℕ) (is_leader : Bool) (p : Pending)
      (rest : List Pending × List (Wake Val))
      → p.index ≡ index
      → Fate index id val leads term is_leader (rest.0, answer_entry id leads val p ∷ rest.1) p
  unfolding answer_entry
  found-Fate index id val leads term is_leader p rest e =
      if_cases (λ w. Fate index id val leads term is_leader (rest.0, w ∷ rest.1) p)
        (leads && (p.id == id))
        (λ mine.
          let same : p.id ≡ id = ground arith in
          let leading : leads ≡ true = ground arith in
          inr (inl ((e, same, leading), inl (rw (e, same) refl))))
        (λ not_mine.
          inr (inr (λ w. absurd (omega (arith, w.0, e)), λ owns. ground arith, inl refl)))

  other-Fate :
      (index id : ℕ) (val : Val) (leads : Bool) (term : ℕ) (is_leader : Bool) (q : Pending)
      (kept : List Pending) (wakes more : List (Wake Val))
      → q.index ≢ index
      → ((w : Wake Val) → IsAmong w wakes → IsAmong w more)
      → Sorted index term is_leader (kept, wakes) q
      → Fate index id val leads term is_leader (kept, more) q
  other-Fate index id val leads term is_leader q kept wakes more ne grows (inl h) = inl h
  other-Fate index id val leads term is_leader q kept wakes more ne grows (inr (n, told)) =
      inr (inr (n, λ owns. ne owns.0, grows _ told))

  found-Notified :
      (index id : ℕ) (val : Val) (leads : Bool) (term : ℕ) (is_leader : Bool) (ps : List Pending)
      (e : Option Pending)
      → IsMap ps
      → find index ps ≡ e
      → Notified index id val leads term is_leader ps
          (notify_found index id val leads term is_leader ps e)
  unfolding notify_found
  found-Notified index id val leads term is_leader ps none m q = (
    outdated-Waits Val index term is_leader ps,
    outdated-Honest index id val leads term is_leader ps,
    All-of ps (λ x among.
        other-Fate index id val leads term is_leader x _ _ _ (none-index index ps x q among)
          (λ w h. h) (outdated-Sorted Val index term is_leader ps x among)),
    length-outdated Val index term is_leader ps,
  )
  found-Notified index id val leads term is_leader ps (some p) m q = (
    outdated-Waits Val index term is_leader (delete index ps),
    (
      answer-Honest index id val leads p (find-index index ps q),
      outdated-Honest index id val leads term is_leader (delete index ps),
    ),
    All-of ps (λ x among. elim (other_entry index ps p x m q among) [
      | inl same ↦
          subst
            (Fate index id val leads term is_leader
              (notify_found index id val leads term is_leader ps (some p)))
            (sym same)
            (found-Fate index id val leads term is_leader p
              (notify_outdated index term is_leader (delete index ps)) (find-index index ps q))
      | inr (ne, stays) ↦
          other-Fate index id val leads term is_leader x _ _
            (notify_found index id val leads term is_leader ps (some p)).1 ne (λ w h. inr h)
            (outdated-Sorted Val index term is_leader (delete index ps) x stays)
    ]),
    omega (
      arith,
      length-outdated Val index term is_leader (delete index ps),
      length-delete index ps {p = p} m q,
    ),
  )

  -- After the command at an index is applied, an entry goes on waiting exactly if it is of a later
  -- index and of the current term, and the node leads; the value is sent to the entry of the
  -- command's index and id, if there is one and the node led when it was looked up, and to no other;
  -- the Submit of every entry left is told to retry; and nothing else waits or is sent.
  pub notify_pending-Notified :
      (index id : ℕ) (val : Val) (leads : Bool) (term : ℕ) (is_leader : Bool) (ps : List Pending)
      → IsMap ps
      → Notified index id val leads term is_leader ps
          (notify_pending index id val leads term is_leader ps)
  unfolding notify_pending
  notify_pending-Notified index id val leads term is_leader ps m =
      found-Notified index id val leads term is_leader ps (find index ps) m refl
