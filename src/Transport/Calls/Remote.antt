-- ===== src/Transport/Calls/Remote.antt =====
-- client.go and service.go: a call from the caller's arguments to the caller's reply.
use raft_algorithm_thesis.Base.{
  ◌<◌, ◌^◌, ◌≡◌, refl, true, Option, some, List, [], ◌∷◌, ◌>>=◌, All, >>=-eq-some,
}
use raft_algorithm_thesis.Consensus.Types.{Entry, AppendEntriesArgs, AppendEntriesReply, Raft}
use raft_algorithm_thesis.Consensus.Append.{append_entries}
use raft_algorithm_thesis.Transport.Codec.{
  to_ℕ, Gob, LogEntry, FitsId, FitsEntry, entries_to_proto, entries_from_proto,
  entries_from_proto-entries_to_proto, int32_small, int32_id,
}
use raft_algorithm_thesis.Transport.Calls.{
  PbAppendEntriesArgs, wire, send_append_entries, serve_append_entries, receive_append_entries,
  reply_append_entries, decodes,
}

-- The numbers of a message fit an int32.
pub record FitsAppend {C : Type 0} (a : AppendEntriesArgs C) : Type 0 where
  pub term : a.term < 2 ^ 31
  pub leader_id : a.leader_id < 2 ^ 31
  pub prev_log_index : a.prev_log_index < 2 ^ 31
  pub prev_log_term : a.prev_log_term < 2 ^ 31
  pub entries : All FitsEntry a.entries
  pub leader_commit : a.leader_commit < 2 ^ 31

pub record FitsReply (r : AppendEntriesReply) : Type 0 where
  pub term : r.term < 2 ^ 31
  pub conflict_index : r.conflict_index < 2 ^ 31
  pub conflict_term : FitsId r.conflict_term

receive-reply :
    (r : AppendEntriesReply)
    → FitsReply r
    → receive_append_entries (reply_append_entries r) ≡ some r
unfolding receive_append_entries reply_append_entries
receive-reply r h = rw (
  int32_small r.term h.term,
  int32_small r.conflict_index h.conflict_index,
  int32_id r.conflict_term h.conflict_term,
)

module _ {C : Type 0} (gob : Gob C) where
  decodes-entries :
      (wire : List LogEntry) {es : List (Entry C)}
      → entries_from_proto gob wire ≡ some es
      → decodes gob wire ≡ true
  unfolding decodes entries_from_proto
  decodes-entries [] h = refl
  decodes-entries (w ∷ wire) {es} h =
      let (command, d, h₁) = >>=-eq-some (gob.decode w.command) _ h in
      let (index, i, h₂) = >>=-eq-some (to_ℕ w.index) _ h₁ in
      let (term, t, h₃) = >>=-eq-some (to_ℕ w.term) _ h₂ in
      let (rest, more, h₄) = >>=-eq-some (entries_from_proto gob wire) _ h₃ in
      rw (d, decodes) (decodes-entries wire more)

  -- The request on the wire, with its entries encoded.
  abbrev sent_request : AppendEntriesArgs C → List LogEntry → PbAppendEntriesArgs
  sent_request a entries = record {
    term = wire a.term;
    leader_id = wire a.leader_id;
    prev_log_index = wire a.prev_log_index;
    prev_log_term = wire a.prev_log_term;
    entries = entries;
    leader_commit = wire a.leader_commit;
  }

  send-sent_request :
      (a : AppendEntriesArgs C) {entries : List LogEntry}
      → entries_to_proto gob a.entries ≡ some entries
      → send_append_entries gob a ≡ some (sent_request a entries)
  unfolding send_append_entries
  send-sent_request a sent = rw sent

  serve-sent_request :
      (a : AppendEntriesArgs C) (rf : Raft C) {entries : List LogEntry}
      → FitsAppend a
      → entries_to_proto gob a.entries ≡ some entries
      → serve_append_entries gob (sent_request a entries) rf
        ≡ (append_entries a rf >>= λ r. some (r.0, reply_append_entries r.1))
  unfolding serve_append_entries
  serve-sent_request a rf {entries} h sent = rw (
    decodes-entries entries came,
    came,
    int32_small a.term h.term,
    int32_small a.leader_id h.leader_id,
    int32_small a.prev_log_index h.prev_log_index,
    int32_small a.prev_log_term h.prev_log_term,
    int32_small a.leader_commit h.leader_commit,
  )
    where
      came : entries_from_proto gob entries ≡ some a.entries
      came = entries_from_proto-entries_to_proto gob a.entries h.entries sent

  -- A whole call: what the caller gets back, and the node that has served it.
  unfoldable pub call_append_entries :
      AppendEntriesArgs C → Raft C → Option (Raft C × AppendEntriesReply)
  call_append_entries a rf = do
    req ← send_append_entries gob a
    (rf', res) ← serve_append_entries gob req rf
    reply ← receive_append_entries res
    some (rf', reply)

  -- For a request and a reply whose numbers fit an int32, and entries that can be encoded, a call
  -- of AppendEntries over gRPC does to the node, and returns, what the node's AppendEntries does
  -- and returns.
  pub call_append_entries_lem :
      (a : AppendEntriesArgs C) (rf : Raft C) {entries : List LogEntry} {rf' : Raft C}
      {reply : AppendEntriesReply}
      → FitsAppend a
      → FitsReply reply
      → entries_to_proto gob a.entries ≡ some entries
      → append_entries a rf ≡ some (rf', reply)
      → call_append_entries a rf ≡ some (rf', reply)
  unfolding call_append_entries
  call_append_entries_lem a rf {reply = reply} h r sent run =
      rw (send-sent_request a sent, serve-sent_request a rf h sent, run, receive-reply reply r)
