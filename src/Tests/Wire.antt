-- ===== src/Tests/Wire.antt =====
-- Entries on the wire.
use raft_algorithm_thesis.Base.{ℕ, ◌≡◌, refl, arith, none, some, List, [], ◌∷◌, Option}
use raft_algorithm_thesis.Transport.Codec.{
  Gob, LogEntry, pos, int32, entries_to_proto, entries_from_proto,
  entries_from_proto-entries_to_proto,
}
use raft_algorithm_thesis.Transport.Calls.Remote.{
  FitsAppend, FitsReply, call_append_entries, call_append_entries_lem,
}
use raft_algorithm_thesis.Tests.Data.{entry, request, following, followed}
use raft_algorithm_thesis.Tests.Logs.{accepted_reply, accepts}

-- An encoding of numbers, which refuses nil.
encode : Option ℕ → Option (List ℕ)
encode none = none
encode (some c) = some (c ∷ [])

decode : List ℕ → Option (Option ℕ)
decode [] = none
decode (c ∷ rest) = some (some c)

decode-encode : (c : Option ℕ) (bytes : List ℕ) → encode c ≡ some bytes → decode bytes ≡ some c
unfolding encode decode
decode-encode none bytes h = cc
decode-encode (some c) [] h = cc
decode-encode (some c) (b ∷ rest) h = cc

abbrev gob : Gob ℕ
gob = record { encode = encode; decode = decode; decode-encode = decode-encode }

abbrev wire : List LogEntry
wire = record { index = pos 1; term = pos 1; command = 7 ∷ [] } ∷ []

sent : entries_to_proto gob (entry 1 1 7 ∷ []) ≡ some wire
unfolding entries_to_proto encode int32
sent = refl

entries_from_proto-entries_to_proto_example : entries_from_proto gob wire ≡ some (entry 1 1 7 ∷ [])
entries_from_proto-entries_to_proto_example =
    entries_from_proto-entries_to_proto gob (entry 1 1 7 ∷ []) {wire = wire}
      ((omega arith, omega arith), tt) sent

abbrev request_wire : List LogEntry
request_wire =
    record { index = pos 2; term = pos 2; command = 8 ∷ [] }
    ∷ record { index = pos 3; term = pos 2; command = 9 ∷ [] }
    ∷ []

request_sent : entries_to_proto gob request.entries ≡ some request_wire
unfolding entries_to_proto encode int32
request_sent = refl

request-FitsAppend : FitsAppend request
request-FitsAppend = record {
  term = omega arith;
  leader_id = omega arith;
  prev_log_index = omega arith;
  prev_log_term = omega arith;
  entries = ((omega arith, omega arith), ((omega arith, omega arith), tt));
  leader_commit = omega arith;
}

reply-FitsReply : FitsReply accepted_reply
reply-FitsReply = record {
  term = omega arith;
  conflict_index = omega arith;
  conflict_term = omega arith;
}

call_append_entries_lem_example :
    call_append_entries gob request following ≡ some (followed, accepted_reply)
call_append_entries_lem_example =
    call_append_entries_lem gob request following {entries = request_wire} {rf' = followed}
      {reply = accepted_reply} request-FitsAppend reply-FitsReply request_sent accepts
