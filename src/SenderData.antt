-- ===== src/SenderData.antt =====
-- `SenderCoreData` of sender_unit/sender_core.cpp: what other threads leave for the sender core. Its
-- two lists are fields of the server.
use server_unit.Base.{
  ℕ, ◌≡◌, sym, ◌∙◌, Bool, List, [], ◌∷◌, ◌++◌, append_assoc, append-nil, String, length, ◌==◌,
}

abbrev pub add_worker : String → List String → List String
add_worker uid workers = workers ++ uid ∷ []

abbrev pub add_packets : ℕ → List ℕ → List ℕ
add_packets packet packets = packets ++ packet ∷ []

abbrev pub is_new_worker_list_empty : List String → Bool
is_new_worker_list_empty workers = length workers == 0

abbrev pub is_pending_packets_list_empty : List ℕ → Bool
is_pending_packets_list_empty packets = length packets == 0

-- The loop of `Timeout::execute` over the packets of a worker that was deleted.
unfoldable pub add_all : List ℕ → List ℕ → List ℕ
add_all [] packets = packets
add_all (p ∷ ps) packets = add_all ps (add_packets p packets)

pub add_all-append : (ps packets : List ℕ) → add_all ps packets ≡ packets ++ ps
unfolding add_all
add_all-append [] packets = sym (append-nil packets)
add_all-append (p ∷ ps) packets =
    add_all-append ps (packets ++ p ∷ []) ∙ append_assoc packets (p ∷ []) ps
