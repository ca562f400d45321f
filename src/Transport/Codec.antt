-- ===== src/Transport/Codec.antt =====
-- kvraft/raftransport/codec.go, and the int32 conversions of client.go and service.go.
use raft_algorithm_thesis.Base.{
  ℕ, ◌-◌, ◌%◌, ◌^◌, ◌<◌, ◌≡◌, refl, Option, none, some, List, [], ◌∷◌, ltb, if◌then◌else◌, ◌>>=◌,
  arith, All, subst, >>=-eq-some,
}
use raft_algorithm_thesis.Consensus.Types.{Entry}

-- `negsuc n` is -(n + 1).
pub data ℤ : Type 0 where
  pos : ℕ → ℤ
  negsuc : ℕ → ℤ

-- `int32(x)`, two's complement.
unfoldable pub int32 : ℤ → ℤ
int32 (pos n) =
    if ltb (n % 2 ^ 32) (2 ^ 31) then pos (n % 2 ^ 32) else negsuc (2 ^ 32 - 1 - n % 2 ^ 32)
int32 (negsuc n) =
    if ltb (n % 2 ^ 32) (2 ^ 31) then negsuc (n % 2 ^ 32) else pos (2 ^ 32 - 1 - n % 2 ^ 32)

-- An int of the node as an integer, and back.
abbrev pub of_id : Option ℕ → ℤ
of_id none = negsuc 0
of_id (some n) = pos n

unfoldable pub to_ℕ : ℤ → Option ℕ
to_ℕ (pos n) = some n
to_ℕ (negsuc n) = none

-- Of the negative numbers -1 alone is a value of the node's.
unfoldable pub to_id : ℤ → Option (Option ℕ)
to_id (pos n) = some (some n)
to_id (negsuc n) = if ltb 0 n then none else some none

pub int32_small : (n : ℕ) → n < 2 ^ 31 → to_ℕ (int32 (pos n)) ≡ some n
unfolding int32 to_ℕ
int32_small n h = ground arith

-- In range, or -1.
abbrev pub FitsId : Option ℕ → Type 0
FitsId none = Unit
FitsId (some n) = n < 2 ^ 31

pub int32_id : (x : Option ℕ) → FitsId x → to_id (int32 (of_id x)) ≡ some x
unfolding int32 to_id
int32_id none h = refl
int32_id (some n) h = ground arith

-- The gob encoding of a command, which may fail; what is encoded is decoded to the same command.
pub record Gob (C : Type 0) : Type 0 where
  pub encode : Option C → Option (List ℕ)
  pub decode : List ℕ → Option (Option C)
  pub decode-encode :
      (c : Option C) (bytes : List ℕ) → encode c ≡ some bytes → decode bytes ≡ some c

-- `kvpb.LogEntry`
pub record LogEntry : Type 0 where
  pub index : ℤ
  pub term : ℤ
  pub command : List ℕ

abbrev pub FitsEntry : {C : Type 0} → Entry C → Type 0
FitsEntry e = (e.index < 2 ^ 31) × (e.term < 2 ^ 31)

some_inj : {A : Type 0} {a b : A} → some a ≡ some b → a ≡ b
some_inj h = cc

module _ {C : Type 0} (gob : Gob C) where
  -- `entriesToProto`
  unfoldable pub entries_to_proto : List (Entry C) → Option (List LogEntry)
  entries_to_proto [] = some []
  entries_to_proto (e ∷ es) = do
    bytes ← gob.encode e.command
    rest ← entries_to_proto es
    some (record { index = int32 (pos e.index); term = int32 (pos e.term); command = bytes } ∷ rest)

  -- `entriesFromProto`
  unfoldable pub entries_from_proto : List LogEntry → Option (List (Entry C))
  entries_from_proto [] = some []
  entries_from_proto (e ∷ es) = do
    command ← gob.decode e.command
    index ← to_ℕ e.index
    term ← to_ℕ e.term
    rest ← entries_from_proto es
    some (record { index = index; term = term; command = command } ∷ rest)

  entry_round_trip :
      (e : Entry C) (bytes : List ℕ) (es : List (Entry C)) (rest : List LogEntry)
      → FitsEntry e
      → gob.encode e.command ≡ some bytes
      → entries_from_proto rest ≡ some es
      → entries_from_proto (
          record { index = int32 (pos e.index); term = int32 (pos e.term); command = bytes } ∷ rest)
        ≡ some (e ∷ es)
  unfolding entries_from_proto
  entry_round_trip e bytes es rest fits enc ih = rw (
    gob.decode-encode e.command bytes enc,
    int32_small e.index fits.0,
    int32_small e.term fits.1,
    ih,
  )

  -- Entries whose indices and terms fit an int32 come out of the codec as they went in.
  pub entries_from_proto-entries_to_proto :
      (es : List (Entry C)) {wire : List LogEntry}
      → All FitsEntry es
      → entries_to_proto es ≡ some wire
      → entries_from_proto wire ≡ some es
  unfolding entries_to_proto entries_from_proto
  entries_from_proto-entries_to_proto [] {wire} h e =
      subst (λ (w : List LogEntry). entries_from_proto w ≡ some []) wire_eq refl
    where
      wire_eq : [] ≡ wire
      wire_eq = cc
  entries_from_proto-entries_to_proto (x ∷ es) {wire} h e =
      let (bytes, enc, run) = >>=-eq-some (gob.encode x.command) _ e in
      let (rest, more, done) = >>=-eq-some (entries_to_proto es) _ run in
      subst (λ (w : List LogEntry). entries_from_proto w ≡ some (x ∷ es)) (some_inj done)
        (entry_round_trip x bytes es rest h.0 enc (entries_from_proto-entries_to_proto es h.1 more))
