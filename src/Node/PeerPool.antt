-- ===== src/Node/PeerPool.antt =====
-- The round robin of src/lib/node/client_peer_pool.ts and `getBlockRange` of src/lib/net/peer.ts.
use godcoin_js_legacy.Prelude.{
  ℕ, zero, suc, ◌+◌, ◌-◌, ◌%◌, List, [], ◌∷◌, ◌++◌, Bool, true, false, Option, none, some, Error,
  Result, ok, err, length, get_elem?, type_error, disconnected, end_of_clients, ◌>>=◌, ℤ, pos,
  negsuc, ◌+ℤ◌, ◌-ℤ◌, eqb, if◌then◌else◌,
}
use godcoin_js_legacy.Neon.{SignedBlock}

-- `clients`, `index` and `connectedCount`; the events 'open' and 'close' that were emitted are `events`,
-- the latest first.
pub data PoolEvent : Type 0 where
  opened closed : PoolEvent

pub record PeerPool (Client : Type 0) : Type 0 where
  pub clients : List Client
  pub index : ℕ
  pub connected_count : ℤ
  pub events : List PoolEvent

abbrev pub is_zero : ℤ → Bool
is_zero (pos n) = eqb n 0
is_zero (negsuc n) = false

module _ {Client : Type 0} where
  unfoldable pub add_node : Client → PeerPool Client → PeerPool Client
  add_node peer pool = record pool { clients = pool.clients ++ peer ∷ [] }

  -- the listener of a client's 'open'
  unfoldable pub on_open : PeerPool Client → PeerPool Client
  on_open pool = record pool {
    connected_count = pool.connected_count +ℤ pos 1;
    events = if is_zero pool.connected_count then opened ∷ pool.events else pool.events;
  }

  -- the listener of a client's 'close'
  unfoldable pub on_close : PeerPool Client → PeerPool Client
  on_close pool =
      let count = pool.connected_count -ℤ pos 1 in
      record pool {
        connected_count = count;
        events = if is_zero count then closed ∷ pool.events else pool.events;
      }

  unfoldable pub stop : PeerPool Client → PeerPool Client
  stop pool = record pool { index = 0 }

-- `e instanceof DisconnectedError`
abbrev pub is_disconnected : Error → Bool
is_disconnected disconnected = true
is_disconnected _ = false

module _ {Client A : Type 0} (call : Client → Result A) where
  -- the body of the loop, with what the rounds that follow give
  unfoldable pub attempt : Option Client → ℕ → Result A × ℕ → Result A × ℕ
  attempt none index rest = (err type_error, index)
  attempt (some client) index rest = elim (call client) [
    | ok a ↦ (ok a, index)
    | err e ↦ elim (is_disconnected e) [ true ↦ rest | false ↦ (err e, index) ]
  ]

  -- the rounds of `invoke` that are left, from `i`; what comes back is the value and `this.index`
  unfoldable pub invoke_from : List Client → ℕ → ℕ → ℕ → Result A × ℕ
  invoke_from clients zero i index = (err end_of_clients, index)
  invoke_from clients (suc rounds) i index =
      let index' = (i + 1) % length clients in
      attempt (get_elem? clients index') index' (invoke_from clients rounds (i + 1) index')

  unfoldable pub invoke : PeerPool Client → Result A × PeerPool Client
  invoke pool =
      let (r, index) = invoke_from pool.clients (length pool.clients) pool.index pool.index in
      (r, record pool { index = index })

pub record BlockRange : Type 0 where
  pub range_outside_height : Bool
  pub blocks : List SignedBlock

abbrev pub add_front : SignedBlock → BlockRange → BlockRange
add_front block range = record range { blocks = block ∷ range.blocks }

-- what a round makes of the peer's answer and of the rounds that follow
unfoldable pub range_step : Result (Option SignedBlock) → Result BlockRange → Result BlockRange
range_step (err e) rest = err e
range_step (ok none) rest = ok (record { range_outside_height = true; blocks = [] })
range_step (ok (some block)) rest = rest >>= λ range. ok (add_front block range)

-- the requests for `count` blocks from the height `i`
unfoldable pub range_from : (ℕ → Result (Option SignedBlock)) → ℕ → ℕ → Result BlockRange
range_from get_block zero i = ok (record { range_outside_height = false; blocks = [] })
range_from get_block (suc count) i = range_step (get_block i) (range_from get_block count (i + 1))

-- `getBlockRange`, where `getBlock` asks the peer
unfoldable pub get_block_range : (ℕ → Result (Option SignedBlock)) → ℕ → ℕ → Result BlockRange
get_block_range get_block min_height max_height =
    range_from get_block (max_height + 1 - min_height) min_height
