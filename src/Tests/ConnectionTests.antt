-- ===== src/Tests/ConnectionTests.antt =====
-- A node whose only client is lost and comes back, and a node whose index was deleted.
use godcoin_js_legacy.Prelude.{ℕ, refl, [], ◌∷◌, true, false, none, pos}
use godcoin_js_legacy.Node.Listeners.{Parts, client_opens, client_closes}
use godcoin_js_legacy.Node.Connected.{
  Connections, starts, opens, closes, fresh, IsFollowing, Connections-IsFollowing,
}
use godcoin_js_legacy.Blockchain.Folders.{Outcome, open_chain, open_chain-Outcome}

abbrev connected : Parts ℕ
connected = record {
  pool = record { clients = 0 ∷ []; index = 0; connected_count = pos 1; events = [] };
  is_complete = true;
  server = none;
  asked = [];
}

abbrev lost_and_back : Connections 1 connected 1 (client_opens (client_closes connected))
lost_and_back = opens (closes starts)

Connections-IsFollowing_example : IsFollowing 1 1 (client_opens (client_closes connected))
Connections-IsFollowing_example =
    Connections-IsFollowing lost_and_back
      (record { counted = refl; complete = refl; unserved = refl; alternates = fresh })

open_chain-Outcome_example :
    Outcome false false true (open_chain false (record { index_dir = false; log_dir = true }))
open_chain-Outcome_example = open_chain-Outcome false (record { index_dir = false; log_dir = true })
