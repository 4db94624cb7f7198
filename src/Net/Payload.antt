-- ===== src/Net/Payload.antt =====
-- The messages between peers. They are objects of godcoin-neon, read by src/lib/net/peer.ts through the
-- properties `id`, `msg_type`, `req` and `res`; `Body` joins the last three, one constructor for each
-- combination that the source builds.
use godcoin_js_legacy.Prelude.{ℕ, Bool, true, false, Option, none, some, Error}
use godcoin_js_legacy.Neon.{Asset, PublicKey, SignedBlock, Tx}
use godcoin_js_legacy.Assets.{Balance}

pub data PeerType : Type 0 where
  wallet node : PeerType

pub data Event : Type 0 where
  block_event : SignedBlock → Event
  tx_event : Tx → Event

-- `RpcMsgResProperties`
pub record Properties : Type 0 where
  pub height : ℕ
  pub token_supply : Asset × Asset
  pub network_fee : Option Balance

pub data Body : Type 0 where
  nothing : Body
  -- the `message` of what was thrown
  failure : Error → Body
  event : Event → Body
  handshake_req : PeerType → Body
  handshake_res : Body
  broadcast_req : Tx → Body
  properties_req : Body
  properties_res : Properties → Body
  block_req : ℕ → Body
  block_res : Option SignedBlock → Body
  balance_req : PublicKey → Body
  balance_res : Balance → Body
  total_fee_req : PublicKey → Body
  total_fee_res : Balance → Body

pub record RpcPayload : Type 0 where
  pub id : ℕ
  pub body : Body

-- the event of a message whose type is `EVENT`
abbrev pub event_of : Body → Option Event
event_of (event e) = some e
event_of _ = none

-- Whether a received message has a `req`. A request for the properties is sent without one; what the
-- package's decoder makes of it is `properties_has_req`.
abbrev pub has_req : Bool → Body → Bool
has_req properties_has_req (handshake_req t) = true
has_req properties_has_req (broadcast_req tx) = true
has_req properties_has_req properties_req = properties_has_req
has_req properties_has_req (block_req height) = true
has_req properties_has_req (balance_req address) = true
has_req properties_has_req (total_fee_req address) = true
has_req properties_has_req _ = false
