-- ===== src/Net/Portless.antt =====
-- A client whose address has no port, with the lock that its attempt to connect has taken.
use godcoin_js_legacy.Prelude.{
  ℕ, zero, suc, ◌≡◌, refl, sym, List, [], ◌∷◌, Bool, true, false, Option, none, some, arith,
}
use mathlib.Core.Path.{subst}
use godcoin_js_legacy.Net.Unconnected.{
  IsPortless, ask-IsPortless, release_at, dial-IsPortless, timed,
}
use godcoin_js_legacy.Net.Client.{
  ConnectState, opened, closed, connecting, Caller, opener, stopper, ClientNet, new_client,
  ask_lock, release, retry_if, start_unless, start_net, open_if, fire_timer, dial, connect_from,
  take_turn, connect_attempt, fail_attempt, end_handshake, close_socket, reopen, stop_if, NetStep,
  starts, stops, fires, goes_on, connects, handshake_ends, closes, fails, reopens, net_step,
  net_run,
}

-- the client goes on without a connection, and keeps what it says of connecting
record Goes (c d : ClientNet) : Type 0 where
  still : IsPortless d
  stuck : c.connect_state ≡ connecting → d.connect_state ≡ connecting

stays : (c : ClientNet) → IsPortless c → Goes c c
stays c p = record { still = p; stuck = λ h. h }

start-Goes : (b : Bool) (c : ClientNet) → IsPortless c → Goes c (start_unless b c)
start-Goes true c p = stays c p
start-Goes false c p = record { still = timed _ true c.reopening c p; stuck = λ h. h }

stop-Goes : (b : Bool) (c : ClientNet) → IsPortless c → Goes c (stop_if b c)
unfolding ask_lock
stop-Goes false c p = stays c p
stop-Goes true c p = record {
  still = ask-IsPortless stopper _ (timed none false c.reopening c p);
  stuck = λ h. h;
}

fire-Goes : (o : Option (ℕ × ℕ)) (c : ClientNet) → IsPortless c → Goes c (fire_timer o c)
unfolding ask_lock
fire-Goes none c p = stays c p
fire-Goes (some t) c p = asks_if c.running
  where
    c' : ClientNet
    c' = record c { timer = none }

    still' : IsPortless c'
    still' = timed none c.running c.reopening c p

    asks_if : (b : Bool) → Goes c (open_if b (t.0) c')
    asks_if true = record { still = ask-IsPortless (opener (t.0)) c' still'; stuck = λ h. h }
    asks_if false = record { still = still'; stuck = λ h. h }

-- `open` and `stop` with the lock; a client that connects has given nobody the lock
connect_from-Goes :
    (s : ConnectState) (tries : ℕ) (c : ClientNet)
    → c.connect_state ≡ s
    → c.turn ≡ some (opener tries)
    → IsPortless c
    → Goes c (connect_from s tries c)
connect_from-Goes opened tries c is mine p = absurd (p.not_open is)
connect_from-Goes connecting tries c is mine p = absurd (ground (arith, mine, p.stuck_rests is))
connect_from-Goes closed tries c is mine p =
    subst (λ b. Goes c (dial b tries c)) (sym p.portless)
      (record { still = dial-IsPortless tries (opener tries) c mine p; stuck = λ h. refl })

skip-Goes :
    (s : ConnectState) (c : ClientNet)
    → c.connect_state ≡ s
    → c.turn ≡ some stopper
    → IsPortless c
    → Goes c (release (record c { turn = none }))
skip-Goes opened c is mine p = absurd (p.not_open is)
skip-Goes connecting c is mine p = absurd (ground (arith, mine, p.stuck_rests is))
skip-Goes closed c is mine p = record {
  still =
      release_at c.open_lock.locked c.open_lock.handles c is (p.turn_holds (ground (arith, mine)))
        p;
  stuck = λ h. absurd (ground (arith, h, is));
}

turn-Goes : (o : Option Caller) (c : ClientNet) → c.turn ≡ o → IsPortless c → Goes c (take_turn o c)
turn-Goes none c mine p = stays c p
turn-Goes (some (opener tries)) c mine p = connect_from-Goes c.connect_state tries c refl mine p
turn-Goes (some stopper) c mine p = skip-Goes c.connect_state c refl mine p

retry-Goes :
    (b : Bool) (random : ℕ × ℕ) (k : ℕ) (c : ClientNet)
    → IsPortless c
    → Goes c (retry_if b 1 random (record c { reopening = k }))
retry-Goes true random k c p = record { still = timed _ c.running k c p; stuck = λ h. h }
retry-Goes false random k c p = record { still = timed c.timer c.running k c p; stuck = λ h. h }

reopen-Goes : (k : ℕ) (random : ℕ × ℕ) (c : ClientNet) → IsPortless c → Goes c (reopen k random c)
reopen-Goes zero random c p = stays c p
reopen-Goes (suc k) random c p = retry-Goes c.running random k c p

net_step-Goes : (s : NetStep) (c : ClientNet) → IsPortless c → Goes c (net_step s c)
unfolding net_step start_net
net_step-Goes starts c p = start-Goes c.running c p
net_step-Goes stops c p = stop-Goes c.running c p
net_step-Goes fires c p = fire-Goes c.timer c p
net_step-Goes goes_on c p = turn-Goes c.turn c refl p
net_step-Goes connects c p =
    subst (λ o. Goes c (connect_attempt o c)) (sym p.no_attempt) (stays c p)
net_step-Goes handshake_ends c p =
    subst (λ b. Goes c (end_handshake b c)) (sym p.no_handshake) (stays c p)
net_step-Goes closes c p = subst (λ b. Goes c (close_socket b c)) (sym p.no_socket) (stays c p)
net_step-Goes (fails random) c p =
    subst (λ o. Goes c (fail_attempt o random c)) (sym p.no_attempt) (stays c p)
net_step-Goes (reopens random) c p = reopen-Goes c.reopening random c p

net_run-Goes : (steps : List NetStep) (c : ClientNet) → IsPortless c → Goes c (net_run steps c)
unfolding net_run
net_run-Goes [] c p = stays c p
net_run-Goes (s ∷ steps) c p =
    let step = net_step-Goes s c p in
    let later = net_run-Goes steps (net_step s c) step.still in
    record { still = later.still; stuck = λ h. later.stuck (step.stuck h) }

new_client-IsPortless : IsPortless (new_client false)
new_client-IsPortless = record {
  portless = refl;
  no_attempt = refl;
  no_handshake = refl;
  no_socket = refl;
  not_open = λ h. absurd (ground (arith, h));
  turn_holds = λ h. absurd (ground (arith, h));
  stuck_holds = λ h. absurd (ground (arith, h));
  stuck_rests = λ h. refl;
}

-- Once the state of a client whose address has no port says that it connects, its lock stays held
-- whatever happens; there is neither a socket nor an attempt that could succeed or fail, and nobody who
-- waits for the lock, `stop` included, has a turn.
pub net_run-stuck :
    (before after : List NetStep)
    → (net_run before (new_client false)).connect_state ≡ connecting
    → ((net_run after (net_run before (new_client false))).open_lock.locked ≡ true)
      × ((net_run after (net_run before (new_client false))).turn ≡ none)
      × ((net_run after (net_run before (new_client false))).attempt ≡ none)
      × ((net_run after (net_run before (new_client false))).socket ≡ false)
net_run-stuck before after h =
    let first = net_run-Goes before (new_client false) new_client-IsPortless in
    let later = net_run-Goes after (net_run before (new_client false)) first.still in
    let stuck = later.stuck h in
    (
      later.still.stuck_holds stuck,
      later.still.stuck_rests stuck,
      later.still.no_attempt,
      later.still.no_socket,
    )
