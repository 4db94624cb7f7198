-- ===== src/Net/Unconnected.antt =====
-- A client whose address has no port: what its lock, its timers and its attempt leave.
use godcoin_js_legacy.Prelude.{
  ℕ, ◌≡◌, ◌≢◌, refl, List, [], ◌∷◌, Bool, true, false, Option, none, some, arith,
}
use godcoin_js_legacy.Lock
use godcoin_js_legacy.Producer.TxPool.{is_some}
use godcoin_js_legacy.Net.Client.{
  opened, closed, connecting, Caller, ClientNet, ask_lock, release, dial,
}

-- Nothing of a connection is there; who runs has the lock, and once the client connects nobody runs.
pub record IsPortless (c : ClientNet) : Type 0 where
  pub portless : c.has_port ≡ false
  pub no_attempt : c.attempt ≡ none
  pub no_handshake : c.handshake ≡ false
  pub no_socket : c.socket ≡ false
  pub not_open : c.connect_state ≢ opened
  pub turn_holds : is_some c.turn ≡ true → c.open_lock.locked ≡ true
  pub stuck_holds : c.connect_state ≡ connecting → c.open_lock.locked ≡ true
  pub stuck_rests : c.connect_state ≡ connecting → c.turn ≡ none

ask_at :
    (b : Bool) (hs : List Caller) (w : Caller) (c : ClientNet)
    → IsPortless (record c { open_lock = record { locked = b; handles = hs } })
    → IsPortless (ask_lock w (record c { open_lock = record { locked = b; handles = hs } }))
unfolding ask_lock Lock.lock
ask_at true hs w c p = record {
  portless = p.portless;
  no_attempt = p.no_attempt;
  no_handshake = p.no_handshake;
  no_socket = p.no_socket;
  not_open = p.not_open;
  turn_holds = λ h. refl;
  stuck_holds = λ h. refl;
  stuck_rests = p.stuck_rests;
}
ask_at false hs w c p = record {
  portless = p.portless;
  no_attempt = p.no_attempt;
  no_handshake = p.no_handshake;
  no_socket = p.no_socket;
  not_open = p.not_open;
  turn_holds = λ h. refl;
  stuck_holds = λ h. refl;
  stuck_rests = λ h. absurd (ground (arith, p.stuck_holds h));
}

pub ask-IsPortless : (w : Caller) (c : ClientNet) → IsPortless c → IsPortless (ask_lock w c)
ask-IsPortless w c p = ask_at c.open_lock.locked c.open_lock.handles w c p

pub release_at :
    (b : Bool) (hs : List Caller) (c : ClientNet)
    → c.connect_state ≡ closed
    → b ≡ true
    → IsPortless c
    → IsPortless
        (release (record c { turn = none; open_lock = record { locked = b; handles = hs } }))
unfolding release Lock.unlock
release_at b [] c is held p = record {
  portless = p.portless;
  no_attempt = p.no_attempt;
  no_handshake = p.no_handshake;
  no_socket = p.no_socket;
  not_open = p.not_open;
  turn_holds = λ h. absurd (ground (arith, h));
  stuck_holds = λ h. absurd (ground (arith, h, is));
  stuck_rests = λ h. refl;
}
release_at b (w ∷ hs) c is held p = record {
  portless = p.portless;
  no_attempt = p.no_attempt;
  no_handshake = p.no_handshake;
  no_socket = p.no_socket;
  not_open = p.not_open;
  turn_holds = λ h. held;
  stuck_holds = λ h. absurd (ground (arith, h, is));
  stuck_rests = λ h. absurd (ground (arith, h, is));
}

-- the attempt to connect takes the lock for good
pub dial-IsPortless :
    (tries : ℕ) (w : Caller) (c : ClientNet)
    → c.turn ≡ some w
    → IsPortless c
    → IsPortless (dial false tries c)
dial-IsPortless tries w c mine p = record {
  portless = p.portless;
  no_attempt = p.no_attempt;
  no_handshake = p.no_handshake;
  no_socket = p.no_socket;
  not_open = λ h. absurd (ground (arith, h));
  turn_holds = λ h. absurd (ground (arith, h));
  stuck_holds = λ h. p.turn_holds (ground (arith, mine));
  stuck_rests = λ h. refl;
}

-- other timers and counts, with the same lock and the same connection
pub timed :
    (t : Option (ℕ × ℕ)) (b : Bool) (k : ℕ) (c : ClientNet)
    → IsPortless c
    → IsPortless (record c { timer = t; running = b; reopening = k })
timed t b k c p = record {
  portless = p.portless;
  no_attempt = p.no_attempt;
  no_handshake = p.no_handshake;
  no_socket = p.no_socket;
  not_open = p.not_open;
  turn_holds = p.turn_holds;
  stuck_holds = p.stuck_holds;
  stuck_rests = p.stuck_rests;
}
