-- ===== src/Node/Listeners.antt =====
-- What a node asks of its parts when its clients connect and disconnect: the listeners of
-- src/lib/node/index.ts on the events of src/lib/node/client_peer_pool.ts.
use godcoin_js_legacy.Prelude.{
  ℕ, zero, suc, List, [], ◌∷◌, ◌++◌, Bool, true, false, Option, none, some,
}
use godcoin_js_legacy.Node.PeerPool
use godcoin_js_legacy.Node.PeerPool.{PeerPool, is_zero}

-- The calls of the listeners, none of which is awaited: `producer.start(true)`, `sync.resume()`,
-- `sync.pause()` and `producer.stop()`. Each goes on by itself, as in Node.Synchronizer and
-- Producer.Minting; `pause` waits for the lock of the synchronizer.
pub data Asked : Type 0 where
  starts_producer resumes pauses stops_producer : Asked

-- `is_complete` is `sync.isComplete`, `server` the `clientCount` of the server, if there is one, and
-- `asked` the calls that the listeners made, the latest first.
pub record Parts (Client : Type 0) : Type 0 where
  pub pool : PeerPool Client
  pub is_complete : Bool
  pub server : Option ℕ
  pub asked : List Asked

-- `this.server && this.server.clientCount > 0`
abbrev pub has_clients : Option ℕ → Bool
has_clients none = false
has_clients (some zero) = false
has_clients (some (suc k)) = true

module _ {Client : Type 0} where
  abbrev pub ask_for : Bool → List Asked → Parts Client → Parts Client
  ask_for false calls s = s
  ask_for true calls s = record s { asked = calls ++ s.asked }

  abbrev pub ask_unless : Bool → List Asked → Parts Client → Parts Client
  ask_unless true calls s = s
  ask_unless false calls s = record s { asked = calls ++ s.asked }

  -- the listener of 'open'
  unfoldable pub on_pool_open : Parts Client → Parts Client
  on_pool_open s = ask_for s.is_complete (resumes ∷ starts_producer ∷ []) s

  -- the listener of 'close'
  unfoldable pub on_pool_close : Parts Client → Parts Client
  on_pool_close s = ask_unless (has_clients s.server) (stops_producer ∷ pauses ∷ []) s

  abbrev pub open_if : Bool → Parts Client → Parts Client
  open_if true s = on_pool_open s
  open_if false s = s

  abbrev pub close_if : Bool → Parts Client → Parts Client
  close_if true s = on_pool_close s
  close_if false s = s

  -- a client reports 'open': the pool counts it, and its own event reaches the node
  unfoldable pub client_opens : Parts Client → Parts Client
  client_opens s =
      open_if (is_zero (s.pool).connected_count) (record s { pool = PeerPool.on_open s.pool })

  unfoldable pub client_closes : Parts Client → Parts Client
  client_closes s =
      let pool = PeerPool.on_close s.pool in
      close_if (is_zero pool.connected_count) (record s { pool = pool })
