-- ===== src/Node/Server.antt =====
-- src/lib/node/server.ts, and what reaches the synchronizer from the peers: through the server, and through
-- `subscribeTx` and `subscribeBlock` of src/lib/node/client_peer_pool.ts.
use godcoin_js_legacy.Prelude.{ℕ, List, Bool, true, false, Option, none, some, Bytes}
use godcoin_js_legacy.Neon.{Neon}
use godcoin_js_legacy.Packages.{Level, Packages}
use godcoin_js_legacy.Blockchain.Blocks.{Clock}
use godcoin_js_legacy.Net.Payload.{Event, block_event, tx_event}
use godcoin_js_legacy.Net.Socket.{RpcCodec, Net}
use godcoin_js_legacy.Net.Handshake
use godcoin_js_legacy.Net.Handshake.{Greeting, ServerNet, ServerEvent, server_run}
use godcoin_js_legacy.Node.Synchronizer.{Synchronizer, handle_block, handle_tx}

-- `listening` is the address and the port of `server`, if there is one; nothing changes `client_count`
pub record Server : Type 0 where
  pub bind_addr : Bytes
  pub port : ℕ
  pub client_count : ℕ
  pub listening : Option (Bytes × ℕ)

-- the constructor
unfoldable pub new_server : Bytes → ℕ → Server
new_server bind_address port = record {
  bind_addr = bind_address;
  port = port;
  client_count = 0;
  listening = none;
}

abbrev pub listen_unless : Option (Bytes × ℕ) → Server → Server
listen_unless (some at) s = s
listen_unless none s = record s { listening = some (s.bind_addr, s.port) }

unfoldable pub start_server : Server → Server
start_server s = listen_unless s.listening s

unfoldable pub stop_server : Server → Server
stop_server s = record s { listening = none }

-- what a reading of an event of a peer needs: the clock of each transaction of a block and three readings
-- of the clock
pub record EventTimes : Type 0 where
  pub clock : Clock
  pub now : ℕ
  pub now' : ℕ
  pub now'' : ℕ

module _ {Db : Type 0} ⦃n : Neon⦄ ⦃p : Packages⦄ ⦃l : Level Db⦄ (to_hex : Bytes → Bytes) where
  -- the listeners of 'net_event_block' and 'net_event_tx'
  unfoldable pub on_peer_event : EventTimes → Event → Synchronizer Db → Synchronizer Db
  on_peer_event t (block_event block) s = handle_block t.clock t.now block s
  on_peer_event t (tx_event tx) s = handle_tx to_hex t.now t.now' t.now'' tx s

  -- an event of a connection, which has listeners once it is served
  abbrev pub event_if : Bool → EventTimes → Event → Synchronizer Db → Synchronizer Db
  event_if true t e s = on_peer_event t e s
  event_if false t e s = s

  -- the callback of a connection: its events up to some point, then an event of the peer
  unfoldable pub connection_event :
      {C : Type 0}
      → RpcCodec Greeting C
      → Net Greeting C
      → List ServerEvent
      → EventTimes
      → Event
      → Synchronizer Db
      → Synchronizer Db
  connection_event k net es t e s = event_if (server_run k es (Handshake.init k net)).serving t e s
