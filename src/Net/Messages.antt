-- ===== src/Net/Messages.antt =====
-- `onMessage` and `processMessage` of src/lib/net/peer.ts, on the chain and the pool of the peer's
-- options.
use godcoin_js_legacy.Prelude.{
  ℕ, ◌∷◌, Bool, true, false, Option, none, some, Error, Result, ok, err, Bytes, unknown_method,
  lookup, ◌>>=◌, nat_eq,
}
use godcoin_js_legacy.Neon.{Neon, Tx}
use godcoin_js_legacy.Packages.{Level, Packages}
use godcoin_js_legacy.Exec.{Exec}
use godcoin_js_legacy.Indexer.{get_token_supply}
use godcoin_js_legacy.Blockchain.Chain.{Chain, get_block, get_head! }
use godcoin_js_legacy.Producer.TxPool
use godcoin_js_legacy.Producer.TxPool.{TxPool, pool_balance, pool_total_fee}
use godcoin_js_legacy.Net.Payload.{
  Event, Body, RpcPayload, Properties, nothing, failure, broadcast_req, properties_req,
  properties_res, block_req, block_res, balance_req, balance_res, total_fee_req, total_fee_res,
  event_of, has_req,
}
use godcoin_js_legacy.Net.Calls.{Answer, resolved, refused, settle}
use godcoin_js_legacy.Net.Peer.{Peer, with_calls, send}

pub record Host (Db : Type 0) : Type 0 where
  pub peer : Peer
  pub chain : Chain Db
  pub pool : TxPool

-- What a message meets: the readings of the clock while a transaction is pushed, and the error with which
-- the socket refuses the first write.
pub record Moment : Type 0 where
  pub now : ℕ
  pub now' : ℕ
  pub now'' : ℕ
  pub refusal : Option Error

-- `Buffer.toString('hex')`, and whether a decoded request for the properties has a `req`
pub record Wire : Type 0 where
  pub to_hex : Bytes → Bytes
  pub properties_has_req : Bool

abbrev pub answer_body : {A : Type 0} → (A → Body) → Result A → Result Body
answer_body f (err e) = err e
answer_body f (ok a) = ok (f a)

-- an entry of `requests` is given the message
abbrev pub answer_with : Body → RpcPayload → Answer
answer_with (failure e) rpc = refused e
answer_with _ rpc = resolved rpc

abbrev pub answer_of : RpcPayload → Answer
answer_of rpc = answer_with rpc.body rpc

abbrev pub failed : ℕ → Error → RpcPayload
failed id e = record { id = id; body = failure e }

abbrev pub after_write : Result (Unit {0}) → ℕ → Peer → Peer
after_write (ok done) id p = p
after_write (err e) id p = (send none (failed id e) p).1

-- the answer to a request, and, when its write or the request failed, the error
unfoldable pub reply : Option Error → ℕ → Result Body → Peer → Peer
reply refusal id (err e) p = (send none (failed id e) p).1
reply refusal id (ok body) p =
    let (r, p') = send refusal (record { id = id; body = body }) p in after_write r id p'

unfoldable pub settle_waiting : Option (Unit {0}) → RpcPayload → Peer → Peer
settle_waiting none rpc p = p
settle_waiting (some u) rpc p = with_calls (settle rpc.id (answer_of rpc)) p

module _ {Db : Type 0} ⦃n : Neon⦄ ⦃p : Packages⦄ ⦃l : Level Db⦄ (wire : Wire) where
  unfoldable pub properties : Chain Db → Result Properties
  properties c = do
    head_block ← get_head! c
    supply ← get_token_supply c.index
    ok (record { height = head_block.height; token_supply = supply; network_fee = c.network_fee })

  -- `pool.push(buf, buf.toString('hex'))`
  unfoldable pub push_tx : Moment → Tx → Exec (Host Db) (Unit {0})
  push_tx m tx h =
      let buf = n.encode_with_sigs tx in
      let (r, pool') = TxPool.push h.chain m.now m.now' m.now'' buf (wire.to_hex buf) h.pool in
      (r, record h { pool = pool' })

  unfoldable pub process_message : Moment → Body → Exec (Host Db) Body
  process_message m (broadcast_req tx) h =
      let (r, h') = push_tx m tx h in (answer_body (λ u. nothing) r, h')
  process_message m properties_req h = (answer_body properties_res (properties h.chain), h)
  process_message m (block_req height) h = (answer_body block_res (get_block h.chain height), h)
  process_message m (balance_req address) h =
      (answer_body balance_res (pool_balance h.chain h.pool address), h)
  process_message m (total_fee_req address) h =
      (answer_body total_fee_res (pool_total_fee h.chain h.pool address), h)
  process_message m _ h = (err unknown_method, h)

  unfoldable pub serve : Moment → RpcPayload → Host Db → Host Db
  serve m rpc h =
      let (r, h') = process_message m rpc.body h in
      record h' { peer = reply m.refusal rpc.id r h'.peer }

  unfoldable pub emit : Event → Host Db → Host Db
  emit e h = record h { peer = record (h.peer) { events = e ∷ h.peer.events } }

  unfoldable pub on_answer : RpcPayload → Host Db → Host Db
  on_answer rpc h = record h {
    peer = settle_waiting (lookup rpc.id h.peer.calls.requests) rpc h.peer;
  }

  -- by the event and by whether there is a `req`
  abbrev pub dispatch : Option Event → Bool → Moment → RpcPayload → Host Db → Host Db
  dispatch (some e) asks m rpc h = emit e h
  dispatch none true m rpc h = serve m rpc h
  dispatch none false m rpc h = on_answer rpc h

  unfoldable pub on_message : Moment → RpcPayload → Host Db → Host Db
  on_message m rpc h =
      dispatch (event_of rpc.body) (has_req wire.properties_has_req rpc.body) m rpc h
