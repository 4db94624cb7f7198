-- ===== src/Net/Exclusive.antt =====
-- The steps of a client's connection.
use godcoin_js_legacy.Prelude.{
  ℕ, zero, suc, ◌+◌, ◌≡◌, refl, sym, ◌∙◌, List, [], ◌∷◌, Bool, true, false, Option, none, some,
  arith,
}
use mathlib.Core.Path.{subst}
use godcoin_js_legacy.Producer.TxPool.{is_some}
use godcoin_js_legacy.Net.Client.{
  ConnectState, opened, closed, connecting, Caller, opener, stopper, ClientNet, new_client, delay,
  retry_if, release, start_unless, start_net, open_if, fire_timer, dial, connect_from, take_turn,
  connect_attempt, fail_attempt, end_handshake, close_socket, reopen, stop_if, NetStep, starts,
  stops, fires, goes_on, connects, handshake_ends, closes, fails, reopens, net_step, net_run,
}
use godcoin_js_legacy.Net.Holding.{
  inside, IsExclusive, IsReleasing, delay-le, ask-IsExclusive, release-IsExclusive,
}

-- a timer that starts while the client runs
retry-IsExclusive :
    (b : Bool) (tries : ℕ) (random : ℕ × ℕ) (c : ClientNet)
    → c.running ≡ b
    → IsExclusive c
    → IsExclusive (retry_if b tries random c)
retry-IsExclusive false tries random c same ex = ex
retry-IsExclusive true tries random c same ex = record {
  one_inside = ex.one_inside;
  none_waits = ex.none_waits;
  connects_once = ex.connects_once;
  attempts = ex.attempts;
  has_socket = ex.has_socket;
  timer_runs = λ h. same;
  soon = λ t wait h. ground (arith, h, delay-le tries random);
  ported = ex.ported;
}

start-IsExclusive :
    (b : Bool) (c : ClientNet) → c.running ≡ b → IsExclusive c → IsExclusive (start_unless b c)
unfolding delay
start-IsExclusive true c same ex = ex
start-IsExclusive false c same ex = record {
  one_inside = ex.one_inside;
  none_waits = ex.none_waits;
  connects_once = ex.connects_once;
  attempts = ex.attempts;
  has_socket = ex.has_socket;
  timer_runs = λ h. refl;
  soon = λ t wait h. ground (arith, h);
  ported = ex.ported;
}

-- without a timer
stopped_timer :
    (b : Bool) (c : ClientNet)
    → IsExclusive c
    → IsExclusive (record c { running = b; timer = none })
stopped_timer b c ex = record {
  one_inside = ex.one_inside;
  none_waits = ex.none_waits;
  connects_once = ex.connects_once;
  attempts = ex.attempts;
  has_socket = ex.has_socket;
  timer_runs = λ h. absurd (ground (arith, h));
  soon = λ t wait h. absurd (ground (arith, h));
  ported = ex.ported;
}

open_if-IsExclusive :
    (b : Bool) (tries : ℕ) (c : ClientNet) → IsExclusive c → IsExclusive (open_if b tries c)
open_if-IsExclusive true tries c ex = ask-IsExclusive (opener tries) c ex
open_if-IsExclusive false tries c ex = ex

fire-IsExclusive :
    (o : Option (ℕ × ℕ)) (c : ClientNet) → IsExclusive c → IsExclusive (fire_timer o c)
fire-IsExclusive none c ex = ex
fire-IsExclusive (some t) c ex = open_if-IsExclusive c.running t.0 _ (stopped_timer c.running c ex)

-- whoever has the lock gives it back, alone
done_with :
    (c d : ClientNet)
    → IsExclusive c
    → inside d ≡ 0
    → d.open_lock.locked ≡ true
    → (d.connect_state ≡ connecting → is_some d.attempt ≡ true)
    → (is_some d.attempt ≡ true → d.connect_state ≡ connecting)
    → (d.socket ≡ true → d.connect_state ≡ opened)
    → d.timer ≡ c.timer
    → d.running ≡ c.running
    → d.has_port ≡ c.has_port
    → IsReleasing d
done_with c d ex nobody held connects_once attempts has_socket same_timer same_running same_port =
    record {
      nobody = nobody;
      held = held;
      connects_once = connects_once;
      attempts = attempts;
      has_socket = has_socket;
      timer_runs = λ h. ground (arith, h, ex.timer_runs, same_timer, same_running);
      soon = λ t wait h. ex.soon t wait (sym same_timer ∙ h);
      ported = same_port ∙ ex.ported;
    }

-- the turn ends without a connection
skip_turn :
    (w : Caller) (c : ClientNet)
    → c.turn ≡ some w
    → IsExclusive c
    → IsExclusive (release (record c { turn = none }))
skip_turn w c same ex =
    release-IsExclusive (record c { turn = none })
      (done_with c (record c { turn = none }) ex (ground (arith, same, ex.one_inside))
        (ground (arith, same, ex.one_inside)) ex.connects_once ex.attempts ex.has_socket refl refl
        refl)

dial-IsExclusive :
    (tries : ℕ) (w : Caller) (c : ClientNet)
    → c.connect_state ≡ closed
    → c.turn ≡ some w
    → IsExclusive c
    → IsExclusive (dial true tries c)
dial-IsExclusive tries w c is mine ex = record {
  one_inside = ground (arith, mine, ex.one_inside, ex.attempts, is);
  none_waits = ex.none_waits;
  connects_once = λ h. refl;
  attempts = λ h. refl;
  has_socket = λ h. absurd (ground (arith, h, ex.has_socket, is));
  timer_runs = ex.timer_runs;
  soon = ex.soon;
  ported = ex.ported;
}

connect_from-IsExclusive :
    (s : ConnectState) (tries : ℕ) (w : Caller) (c : ClientNet)
    → c.connect_state ≡ s
    → c.turn ≡ some w
    → IsExclusive c
    → IsExclusive (connect_from s tries c)
connect_from-IsExclusive opened tries w c is mine ex = skip_turn w c mine ex
connect_from-IsExclusive connecting tries w c is mine ex = skip_turn w c mine ex
connect_from-IsExclusive closed tries w c is mine ex =
    subst (λ b. IsExclusive (dial b tries c)) (sym ex.ported)
      (dial-IsExclusive tries w c is mine ex)

take_turn-IsExclusive :
    (o : Option Caller) (c : ClientNet) → c.turn ≡ o → IsExclusive c → IsExclusive (take_turn o c)
take_turn-IsExclusive none c same ex = ex
take_turn-IsExclusive (some (opener tries)) c same ex =
    connect_from-IsExclusive c.connect_state tries (opener tries) c refl same ex
take_turn-IsExclusive (some stopper) c same ex = skip_turn stopper c same ex

connect-IsExclusive :
    (o : Option ℕ) (c : ClientNet)
    → c.attempt ≡ o
    → IsExclusive c
    → IsExclusive (connect_attempt o c)
connect-IsExclusive none c same ex = ex
connect-IsExclusive (some tries) c same ex = record {
  one_inside = ground (arith, same, ex.one_inside);
  none_waits = ex.none_waits;
  connects_once = λ h. absurd (ground (arith, h));
  attempts = λ h. absurd (ground (arith, h));
  has_socket = λ h. refl;
  timer_runs = ex.timer_runs;
  soon = ex.soon;
  ported = ex.ported;
}

fail-IsExclusive :
    (o : Option ℕ) (random : ℕ × ℕ) (c : ClientNet)
    → c.attempt ≡ o
    → IsExclusive c
    → IsExclusive (fail_attempt o random c)
unfolding release
fail-IsExclusive none random c same ex = ex
fail-IsExclusive (some tries) random c same ex =
    let d = record c { attempt = none; connect_state = closed; socket = false } in
    retry-IsExclusive c.running (tries + 1) random (release d) refl (
      release-IsExclusive d (
        done_with c d ex (ground (arith, same, ex.one_inside)) (ground (arith, same, ex.one_inside))
          (λ h. absurd (ground (arith, h))) (λ h. absurd (ground (arith, h)))
          (λ h. absurd (ground (arith, h))) refl refl refl))

handshake-IsExclusive :
    (b : Bool) (c : ClientNet) → c.handshake ≡ b → IsExclusive c → IsExclusive (end_handshake b c)
handshake-IsExclusive false c same ex = ex
handshake-IsExclusive true c same ex =
    let d = record c { handshake = false } in
    release-IsExclusive d (
      done_with c d ex (ground (arith, same, ex.one_inside)) (ground (arith, same, ex.one_inside))
        ex.connects_once ex.attempts ex.has_socket refl refl refl)

close-IsExclusive :
    (b : Bool) (c : ClientNet) → c.socket ≡ b → IsExclusive c → IsExclusive (close_socket b c)
close-IsExclusive false c same ex = ex
close-IsExclusive true c same ex = record {
  one_inside = ex.one_inside;
  none_waits = ex.none_waits;
  connects_once = λ h. absurd (ground (arith, h));
  attempts = λ h. absurd (ground (arith, h, ex.attempts h, ex.has_socket same));
  has_socket = λ h. absurd (ground (arith, h));
  timer_runs = ex.timer_runs;
  soon = ex.soon;
  ported = ex.ported;
}

-- one function less of those that wait
fewer_reopening : (k : ℕ) (c : ClientNet) → IsExclusive c → IsExclusive (record c { reopening = k })
fewer_reopening k c ex = record {
  one_inside = ex.one_inside;
  none_waits = ex.none_waits;
  connects_once = ex.connects_once;
  attempts = ex.attempts;
  has_socket = ex.has_socket;
  timer_runs = ex.timer_runs;
  soon = ex.soon;
  ported = ex.ported;
}

reopen-IsExclusive :
    (k : ℕ) (random : ℕ × ℕ) (c : ClientNet) → IsExclusive c → IsExclusive (reopen k random c)
reopen-IsExclusive zero random c ex = ex
reopen-IsExclusive (suc k) random c ex =
    retry-IsExclusive c.running 1 random (record c { reopening = k }) refl (fewer_reopening k c ex)

stop-IsExclusive : (b : Bool) (c : ClientNet) → IsExclusive c → IsExclusive (stop_if b c)
stop-IsExclusive false c ex = ex
stop-IsExclusive true c ex =
    ask-IsExclusive stopper (record c { running = false; timer = none }) (stopped_timer false c ex)

net_step-IsExclusive : (s : NetStep) (c : ClientNet) → IsExclusive c → IsExclusive (net_step s c)
unfolding net_step start_net
net_step-IsExclusive starts c ex = start-IsExclusive c.running c refl ex
net_step-IsExclusive stops c ex = stop-IsExclusive c.running c ex
net_step-IsExclusive fires c ex = fire-IsExclusive c.timer c ex
net_step-IsExclusive goes_on c ex = take_turn-IsExclusive c.turn c refl ex
net_step-IsExclusive connects c ex = connect-IsExclusive c.attempt c refl ex
net_step-IsExclusive handshake_ends c ex = handshake-IsExclusive c.handshake c refl ex
net_step-IsExclusive closes c ex = close-IsExclusive c.socket c refl ex
net_step-IsExclusive (fails random) c ex = fail-IsExclusive c.attempt random c refl ex
net_step-IsExclusive (reopens random) c ex = reopen-IsExclusive c.reopening random c ex

net_run_lem : (steps : List NetStep) (c : ClientNet) → IsExclusive c → IsExclusive (net_run steps c)
unfolding net_run
net_run_lem [] c ex = ex
net_run_lem (s ∷ steps) c ex = net_run_lem steps (net_step s c) (net_step-IsExclusive s c ex)

new_client-IsExclusive : IsExclusive (new_client true)
new_client-IsExclusive = record {
  one_inside = refl;
  none_waits = λ h. refl;
  connects_once = λ h. absurd (ground (arith, h));
  attempts = λ h. absurd (ground (arith, h));
  has_socket = λ h. absurd (ground (arith, h));
  timer_runs = λ h. absurd (ground (arith, h));
  soon = λ t wait h. absurd (ground (arith, h));
  ported = refl;
}

-- Whatever happens to a new client whose address has a port, its lock is held exactly while one caller, one attempt to connect or
-- one handshake is under way, and there is never more than one of these; the state says that it
-- connects when there is an attempt; a socket is set only when the state says that it is open; and a
-- timer runs only while the client does, for at most ten seconds.
pub net_run-IsExclusive : (steps : List NetStep) → IsExclusive (net_run steps (new_client true))
net_run-IsExclusive steps = net_run_lem steps (new_client true) new_client-IsExclusive
