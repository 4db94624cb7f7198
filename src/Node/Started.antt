-- ===== src/Node/Started.antt =====
-- What `start` of src/lib/node/index.ts does when a part throws, by the calls that it makes.
use godcoin_js_legacy.Prelude.{
  ◌≡◌, refl, ap, ◌∙◌, List, [], ◌∷◌, Bool, true, false, not, ◌&&◌, ◌||◌, Result, ok, err,
}
use godcoin_js_legacy.Exec.{Exec, ◌>>◌, modify, resume}
use godcoin_js_legacy.Node.Running.{
  Call, start_chain, create_genesis, start_peers, start_sync, start_producer, start_server,
  stop_producer, stop_sync, stop_peers, stop_server, stop_chain, NodeOpts, NodeState, call_part,
  call_if, serve_if, end_server, start_parts, stop_node, or_stop, start_unless_running, start_node,
  StopsWork,
}

-- `stop` makes its calls in this order, and leaves neither server nor `running`.
abbrev pub stop_server_if : Bool → List Call → List Call
stop_server_if false calls = calls
stop_server_if true calls = stop_server ∷ calls

abbrev pub stopped : NodeState → NodeState
stopped s = record {
  running = false;
  server = false;
  calls = stop_chain ∷ stop_server_if s.server (stop_peers ∷ stop_sync ∷ stop_producer ∷ s.calls);
}

-- the calls of a `start` in which none throws, from the options
abbrev pub create_if : Bool → List Call → List Call
create_if true calls = create_genesis ∷ calls
create_if false calls = calls

abbrev pub listen_if : Bool → List Call
listen_if true = start_server ∷ []
listen_if false = []

abbrev pub planned : NodeOpts → List Call
planned o =
    start_chain
    ∷ create_if (o.has_minter && not (o.has_head || o.has_peers))
        (start_peers ∷ start_sync ∷ start_producer ∷ listen_if o.listen)

abbrev pub unless_thrown : Result (Unit {0}) → List Call → List Call
unless_thrown (ok done) calls = calls
unless_thrown (err e) calls = []

abbrev pub or_later : Result (Unit {0}) → Result (Unit {0}) → Result (Unit {0})
or_later (ok done) later = later
or_later (err e) later = err e

-- The calls are noted, and a server that is started is there.
abbrev pub noted : Call → NodeState → NodeState
noted start_server s = record s { server = true; calls = start_server ∷ s.calls }
noted c s = record s { calls = c ∷ s.calls }

abbrev pub all_noted : List Call → NodeState → NodeState
all_noted [] s = s
all_noted (c ∷ cs) s = all_noted cs (noted c s)

-- What `start` gives and leaves, by what its calls threw.
abbrev pub started : Result (Unit {0}) → NodeState → Result (Unit {0}) × NodeState
started (ok done) s = (ok tt, s)
started (err e) s = (err e, stopped s)

-- what each call gives
module _ (outcome : Call → Result (Unit {0})) where
  call_part-ok :
      (c : Call) (next : Exec NodeState (Unit {0})) (s : NodeState)
      → outcome c ≡ ok tt
      → (call_part outcome c >> next) s ≡ next (record s { calls = c ∷ s.calls })
  unfolding call_part
  call_part-ok c next s works =
      ap (λ r. resume r (λ done. next) (record s { calls = c ∷ s.calls })) works

  end_server-ok :
      (b : Bool) (s : NodeState)
      → s.server ≡ b
      → outcome stop_server ≡ ok tt
      → end_server outcome b s
        ≡ (ok tt, record s { server = false; calls = stop_server_if b s.calls })
  end_server-ok false s same works = ap (λ b. (ok tt, record s { server = b })) same
  end_server-ok true s same works =
      call_part-ok stop_server (modify (λ t. record t { server = false })) s works

  stop_node-stopped : (s : NodeState) → StopsWork outcome → stop_node outcome s ≡ (ok tt, stopped s)
  unfolding stop_node call_part
  stop_node-stopped s works =
      let s1 : NodeState = record s { running = false; calls = stop_producer ∷ s.calls } in
      let s2 : NodeState = record s1 { calls = stop_sync ∷ s1.calls } in
      let s3 : NodeState = record s2 { calls = stop_peers ∷ s2.calls } in
      let last =
        (λ (u : NodeState). end_server outcome u.server u) >> call_part outcome stop_chain in
      call_part-ok stop_producer
        (call_part outcome stop_sync >> (call_part outcome stop_peers >> last))
        (record s { running = false }) works.producer
      ∙ call_part-ok stop_sync (call_part outcome stop_peers >> last) s1 works.sync
      ∙ call_part-ok stop_peers last s2 works.peers
      ∙ ap
          (λ (x : Result (Unit {0}) × NodeState).
            resume x.0 (λ done. call_part outcome stop_chain) x.1)
          (end_server-ok s3.server s3 refl works.server)
      ∙ ap (λ r. (r, stopped s)) works.chain

  -- the calls up to the first that throws, and what it throws
  abbrev pub made : List Call → List Call
  made [] = []
  made (c ∷ cs) = c ∷ unless_thrown (outcome c) (made cs)

  abbrev pub thrown : List Call → Result (Unit {0})
  thrown [] = ok tt
  thrown (c ∷ cs) = or_later (outcome c) (thrown cs)

  -- a chain of steps that makes these calls
  record Makes (m : Exec NodeState (Unit {0})) (cs : List Call) : Type 0 where
    makes : (s : NodeState) → m s ≡ (thrown cs, all_noted (made cs) s)

  resume-Makes :
      (r : Result (Unit {0})) (next : Exec NodeState (Unit {0})) (cs : List Call) (t : NodeState)
      → Makes next cs
      → resume r (λ done. next) t
        ≡ (or_later r (thrown cs), all_noted (unless_thrown r (made cs)) t)
  resume-Makes (ok done) next cs t ms = ms.makes t
  resume-Makes (err e) next cs t ms = refl

  call_part-Makes :
      (c : Call) (next : Exec NodeState (Unit {0})) (cs : List Call)
      → ((s : NodeState) → record s { calls = c ∷ s.calls } ≡ noted c s)
      → Makes next cs
      → Makes (call_part outcome c >> next) (c ∷ cs)
  unfolding call_part
  call_part-Makes c next cs plain ms = record {
    makes = λ s.
        ap (λ t. resume (outcome c) (λ done. next) t) (plain s)
        ∙ resume-Makes (outcome c) next cs (noted c s) ms;
  }

  call_if-Makes :
      (b : Bool) (next : Exec NodeState (Unit {0})) (cs : List Call)
      → Makes next cs
      → Makes (call_if outcome b create_genesis >> next) (create_if b cs)
  call_if-Makes true next cs ms = call_part-Makes create_genesis next cs (λ s. refl) ms
  call_if-Makes false next cs ms = record { makes = λ s. ms.makes s }

  serve_if-Makes : (b : Bool) → Makes (serve_if outcome b) (listen_if b)
  unfolding call_part
  serve_if-Makes true = record { makes = λ s. last (outcome start_server) (noted start_server s) }
    where
      last :
          (r : Result (Unit {0})) (t : NodeState)
          → ◌≡◌ {A = Result (Unit {0}) × NodeState}
              (r, t)
              (or_later r (ok tt), all_noted (unless_thrown r []) t)
      last (ok done) t = refl
      last (err e) t = refl
  serve_if-Makes false = record { makes = λ s. refl }

  start_parts-Makes : (o : NodeOpts) → Makes (start_parts outcome o) (planned o)
  unfolding start_parts
  start_parts-Makes o =
      call_part-Makes start_chain _ _ (λ s. refl)
        (call_if-Makes (o.has_minter && not (o.has_head || o.has_peers)) _ _ (
          call_part-Makes start_peers _ _ (λ s. refl)
            (call_part-Makes start_sync _ _ (λ s. refl)
              (call_part-Makes start_producer _ _ (λ s. refl) (serve_if-Makes o.listen)))))

  or_stop-started :
      (r : Result (Unit {0})) (s : NodeState)
      → StopsWork outcome
      → or_stop outcome r s ≡ started r s
  or_stop-started (ok done) s works = refl
  or_stop-started (err e) s works =
      ap (λ (x : Result (Unit {0}) × NodeState). resume x.0 (λ done t. (err e, t)) x.1)
        (stop_node-stopped s works)

  -- A node that does not run and is started makes the calls that its options ask for, in their order,
  -- up to the first that throws, provided that the calls of `stop` do not throw. When none throws it
  -- runs, with a server if it is to listen; when one does, the calls of `stop` are made after it, that
  -- of the server where one was set up, the node neither runs nor has a server, and `start` throws the
  -- same error.
  pub start_node-stop_node :
      (o : NodeOpts) (s : NodeState)
      → s.running ≡ false
      → StopsWork outcome
      → start_node outcome o s
        ≡ started (thrown (planned o)) (all_noted (made (planned o)) (record s { running = true }))
  unfolding start_node
  start_node-stop_node o s idle works =
      ap (λ b. start_unless_running outcome b o s) idle
      ∙ ap (λ (x : Result (Unit {0}) × NodeState). or_stop outcome x.0 x.1)
          ((start_parts-Makes o).makes (record s { running = true }))
      ∙ or_stop-started (thrown (planned o))
          (all_noted (made (planned o)) (record s { running = true })) works
