-- ===== src/Net/Client.antt =====
-- `ClientNet` of src/lib/net/client_peer/net.ts: how a client connects, shakes hands, and tries again.
-- The socket is Node's: what it reports are steps. A reading of `Math.random()` is a pair of numbers, the
-- first below the second.
use godcoin_js_legacy.Prelude.{
  ℕ, zero, suc, ◌+◌, ◌*◌, ◌/◌, ◌^◌, List, [], ◌∷◌, Bool, true, false, Option, none, some,
  if◌then◌else◌, leb,
}
use godcoin_js_legacy.Lock
use godcoin_js_legacy.Lock.{Lock, unlocked}

pub data ConnectState : Type 0 where
  opened closed connecting : ConnectState

-- who asks for `openLock`: `open`, with the `tries` of its timer, or `stop`
pub data Caller : Type 0 where
  opener : ℕ → Caller
  stopper : Caller

-- `timer` is the `tries` and the delay of `openTimer`; `turn` is who has the lock and runs next,
-- `attempt` the `tries` of the `open` that connects, `handshake` says that `handshakePromise` waits, and
-- `reopening` how many functions of `onClose` wait in `setImmediate`. `has_port` says that
-- the part of `nodeUrl` behind the colon is a number.
pub record ClientNet : Type 0 where
  pub connect_state : ConnectState
  pub open_lock : Lock Caller
  pub turn : Option Caller
  pub attempt : Option ℕ
  pub handshake : Bool
  pub socket : Bool
  pub timer : Option (ℕ × ℕ)
  pub running : Bool
  pub reopening : ℕ
  pub has_port : Bool

abbrev pub new_client : Bool → ClientNet
new_client has_port = record {
  connect_state = closed;
  open_lock = unlocked;
  turn = none;
  attempt = none;
  handshake = false;
  socket = false;
  timer = none;
  running = false;
  reopening = 0;
  has_port = has_port;
}

-- `Math.min(10000, x)`
abbrev pub at_most_ten_seconds : ℕ → ℕ
at_most_ten_seconds x = if leb 10000 x then 10000 else x

unfoldable pub delay : ℕ → ℕ × ℕ → ℕ
delay zero random = 0
delay (suc tries) random = at_most_ten_seconds ((2 ^ suc tries * 700 * random.0) / random.1)

abbrev pub start_open_timer : ℕ → ℕ × ℕ → ClientNet → ClientNet
start_open_timer tries random c = record c { timer = some (tries, delay tries random) }

-- `if (this.running) this.startOpenTimer(…)`
abbrev pub retry_if : Bool → ℕ → ℕ × ℕ → ClientNet → ClientNet
retry_if true tries random c = start_open_timer tries random c
retry_if false tries random c = c

abbrev pub or_turn : Option Caller → Option Caller → Option Caller
or_turn none turn = turn
or_turn (some w) turn = some w

-- `openLock.lock()` and `openLock.unlock()`
unfoldable pub ask_lock : Caller → ClientNet → ClientNet
ask_lock w c =
    let r = Lock.lock w c.open_lock in record c { open_lock = r.1; turn = or_turn r.0 c.turn }

unfoldable pub release : ClientNet → ClientNet
release c = let r = Lock.unlock c.open_lock in record c { open_lock = r.1; turn = r.0 }

-- the assertion of `start` keeps a second one away
abbrev pub start_unless : Bool → ClientNet → ClientNet
start_unless true c = c
start_unless false c = start_open_timer 0 (0, 1) (record c { running = true })

unfoldable pub start_net : ClientNet → ClientNet
start_net c = start_unless c.running c

-- the timer's function, up to the lock
abbrev pub open_if : Bool → ℕ → ClientNet → ClientNet
open_if true tries c = ask_lock (opener tries) c
open_if false tries c = c

abbrev pub fire_timer : Option (ℕ × ℕ) → ClientNet → ClientNet
fire_timer none c = c
fire_timer (some t) c = open_if c.running (t.0) (record c { timer = none })

-- from `this.connectState = ConnectState.CONNECTING` on; without a port the assertion throws, in a
-- promise's executor, where nobody sees it
abbrev pub dial : Bool → ℕ → ClientNet → ClientNet
dial true tries c = record c { turn = none; connect_state = connecting; attempt = some tries }
dial false tries c = record c { turn = none; connect_state = connecting }

-- the rest of `open`, once it has the lock
abbrev pub connect_from : ConnectState → ℕ → ClientNet → ClientNet
connect_from closed tries c = dial c.has_port tries c
connect_from opened tries c = release (record c { turn = none })
connect_from connecting tries c = release (record c { turn = none })

-- who has the lock goes on; `stop` ends the socket
abbrev pub take_turn : Option Caller → ClientNet → ClientNet
take_turn none c = c
take_turn (some (opener tries)) c = connect_from c.connect_state tries c
take_turn (some stopper) c = release (record c { turn = none })

-- `connectHandler`, and the first part of `onOpen`
abbrev pub connect_attempt : Option ℕ → ClientNet → ClientNet
connect_attempt none c = c
connect_attempt (some tries) c = record c {
  attempt = none;
  connect_state = opened;
  socket = true;
  handshake = true;
}

-- `errHandler`, and what the timer's function does with the rejection
abbrev pub fail_attempt : Option ℕ → ℕ × ℕ → ClientNet → ClientNet
fail_attempt none random c = c
fail_attempt (some tries) random c =
    retry_if c.running (tries + 1) random
      (release (record c { attempt = none; connect_state = closed; socket = false }))

-- the end of `onOpen`, after the handshake, its timeout or a failure
abbrev pub end_handshake : Bool → ClientNet → ClientNet
end_handshake false c = c
end_handshake true c = release (record c { handshake = false })

-- `onClose`
abbrev pub close_socket : Bool → ClientNet → ClientNet
close_socket false c = c
close_socket true c = record c {
  connect_state = closed;
  socket = false;
  reopening = c.reopening + 1;
}

abbrev pub reopen : ℕ → ℕ × ℕ → ClientNet → ClientNet
reopen zero random c = c
reopen (suc k) random c = retry_if c.running 1 random (record c { reopening = k })

-- `stop`, whose rejection of the handshake is a step of its own
abbrev pub stop_if : Bool → ClientNet → ClientNet
stop_if false c = c
stop_if true c = ask_lock stopper (record c { running = false; timer = none })

pub data NetStep : Type 0 where
  starts stops fires goes_on connects handshake_ends closes : NetStep
  fails reopens : ℕ × ℕ → NetStep

unfoldable pub net_step : NetStep → ClientNet → ClientNet
net_step starts c = start_net c
net_step stops c = stop_if c.running c
net_step fires c = fire_timer c.timer c
net_step goes_on c = take_turn c.turn c
net_step connects c = connect_attempt c.attempt c
net_step handshake_ends c = end_handshake c.handshake c
net_step closes c = close_socket c.socket c
net_step (fails random) c = fail_attempt c.attempt random c
net_step (reopens random) c = reopen c.reopening random c

unfoldable pub net_run : List NetStep → ClientNet → ClientNet
net_run [] c = c
net_run (s ∷ steps) c = net_run steps (net_step s c)
