-- ===== src/Node/Running.antt =====
-- `start` and `stop` of src/lib/node/index.ts, on what its parts do when they are started and stopped.
use godcoin_js_legacy.Prelude.{◌≡◌, List, ◌∷◌, Bool, true, false, not, ◌&&◌, ◌||◌, Result, ok, err}
use godcoin_js_legacy.Exec.{Exec, ◌>>◌, modify}

pub data Call : Type 0 where
  start_chain create_genesis start_peers start_sync start_producer start_server : Call
  stop_producer stop_sync stop_peers stop_server stop_chain : Call

-- whether there is a minter, peers and a server in the options, and whether the chain has a head once it
-- has started
pub record NodeOpts : Type 0 where
  pub has_minter : Bool
  pub has_peers : Bool
  pub listen : Bool
  pub has_head : Bool

-- `calls` are the calls of the parts, the latest first
pub record NodeState : Type 0 where
  pub running : Bool
  pub server : Bool
  pub calls : List Call

-- what each call gives
module _ (outcome : Call → Result (Unit {0})) where
  unfoldable pub call_part : Call → Exec NodeState (Unit {0})
  call_part c s = (outcome c, record s { calls = c ∷ s.calls })

  abbrev pub call_if : Bool → Call → Exec NodeState (Unit {0})
  call_if true c s = call_part c s
  call_if false c s = (ok tt, s)

  abbrev pub serve_if : Bool → Exec NodeState (Unit {0})
  serve_if false s = (ok tt, s)
  serve_if true s = call_part start_server (record s { server = true })

  abbrev pub end_server : Bool → Exec NodeState (Unit {0})
  end_server false s = (ok tt, s)
  end_server true s = (call_part stop_server >> modify (λ t. record t { server = false })) s

  -- the `try` of `start`
  unfoldable pub start_parts : NodeOpts → Exec NodeState (Unit {0})
  start_parts o = do
    call_part start_chain
    call_if (o.has_minter && not (o.has_head || o.has_peers)) create_genesis
    call_part start_peers
    call_part start_sync
    call_part start_producer
    serve_if o.listen

  unfoldable pub stop_node : Exec NodeState (Unit {0})
  stop_node = do
    modify (λ s. record s { running = false })
    call_part stop_producer
    call_part stop_sync
    call_part stop_peers
    (λ s. end_server s.server s)
    call_part stop_chain

  -- `catch (e) { await this.stop(); throw e; }`
  abbrev pub or_stop : Result (Unit {0}) → Exec NodeState (Unit {0})
  or_stop (ok done) s = (ok tt, s)
  or_stop (err e) s = (stop_node >> (λ t. (err e, t))) s

  abbrev pub start_unless_running : Bool → NodeOpts → Exec NodeState (Unit {0})
  start_unless_running true o s = (ok tt, s)
  start_unless_running false o s =
      let r = start_parts o (record s { running = true }) in or_stop r.0 r.1

  unfoldable pub start_node : NodeOpts → Exec NodeState (Unit {0})
  start_node o s = start_unless_running s.running o s

  -- the calls of `stop` do not throw
  pub record StopsWork : Type 0 where
    pub producer : outcome stop_producer ≡ ok tt
    pub sync : outcome stop_sync ≡ ok tt
    pub peers : outcome stop_peers ≡ ok tt
    pub server : outcome stop_server ≡ ok tt
    pub chain : outcome stop_chain ≡ ok tt
