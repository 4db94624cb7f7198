-- ===== src/Net/Calls.antt =====
-- The promises of src/lib/net/peer.ts: `requests` and `id` of `Peer`, with what became of each promise
-- that `invokeRpc` gave.
use godcoin_js_legacy.Prelude.{
  ℕ, ◌+◌, [], ◌∷◌, ◌++◌, Option, none, some, Error, disconnected, Dict, lookup, insert, erase,
  nat_eq,
}
use godcoin_js_legacy.Net.Payload.{RpcPayload}

-- `refused` is a rejection with the text of an error of the other side, `rejected` one with an error
pub data Answer : Type 0 where
  resolved : RpcPayload → Answer
  rejected refused : Error → Answer

-- `asked` are the identifiers for which there is a promise, `settled` what each settled promise gave,
-- and `deferred` the rejections that wait in `setImmediate`, the first one next.
pub record Calls : Type 0 where
  pub requests : Dict ℕ (Unit {0})
  pub id : ℕ
  pub asked : Dict ℕ (Unit {0})
  pub settled : Dict ℕ Answer
  pub deferred : Dict ℕ (Unit {0})

abbrev pub no_calls : Calls
no_calls = record { requests = []; id = 0; asked = []; settled = []; deferred = [] }

-- a promise that is settled stays as it is
unfoldable pub keep_first : Option Answer → ℕ → Answer → Dict ℕ Answer → Dict ℕ Answer
keep_first (some earlier) k a settled = settled
keep_first none k a settled = insert k a settled

-- `resolve(…)` or `reject(…)` of the promise
unfoldable pub fulfil : ℕ → Answer → Calls → Calls
fulfil k a c = record c { settled = keep_first (lookup k c.settled) k a c.settled }

-- the functions `resolve` and `reject` of an entry of `requests`
unfoldable pub settle : ℕ → Answer → Calls → Calls
settle k a c = fulfil k a (record c { requests = erase k c.requests })

-- `++this.id`
unfoldable pub next_id : Calls → Calls
next_id c = record c { id = c.id + 1 }

-- `new Promise(…)` for the request `k`
unfoldable pub promise : ℕ → Calls → Calls
promise k c = record c { asked = insert k tt c.asked }

-- `this.requests[id] = …`
unfoldable pub wait_for : ℕ → Calls → Calls
wait_for k c = record c { requests = insert k tt c.requests }

-- the requests in `onClose`
unfoldable pub drop_all : Calls → Calls
drop_all c = record c { requests = []; deferred = c.deferred ++ c.requests }

-- the next of the functions that `onClose` gave to `setImmediate`, by those that wait
abbrev pub next_from : Dict ℕ (Unit {0}) → Calls → Calls
next_from [] c = c
next_from ((k, u) ∷ rest) c = settle k (rejected disconnected) (record c { deferred = rest })

unfoldable pub next_deferred : Calls → Calls
next_deferred c = next_from c.deferred c
