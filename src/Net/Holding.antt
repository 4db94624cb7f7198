-- ===== src/Net/Holding.antt =====
-- Who holds the lock of a client's connection.
use godcoin_js_legacy.Prelude.{
  ℕ, zero, suc, ◌+◌, ◌≤◌, ◌≡◌, refl, List, [], ◌∷◌, Bool, true, false, some, arith,
}
use godcoin_js_legacy.Lock
use godcoin_js_legacy.Lock.{Lock}
use godcoin_js_legacy.Lock.Fairness.{holders}
use godcoin_js_legacy.Producer.TxPool.{is_some}
use godcoin_js_legacy.Net.Client.{opened, connecting, Caller, ClientNet, delay, ask_lock, release}

-- how many run between `openLock.lock()` and `openLock.unlock()`
abbrev pub inside : ClientNet → ℕ
inside c = holders (is_some c.turn) + (holders (is_some c.attempt) + holders c.handshake)

-- The lock is held as long as one runs, who is alone; who connects is the attempt that the state says.
pub record IsExclusive (c : ClientNet) : Type 0 where
  pub one_inside : inside c ≡ holders c.open_lock.locked
  pub none_waits : c.open_lock.locked ≡ false → c.open_lock.handles ≡ []
  pub connects_once : c.connect_state ≡ connecting → is_some c.attempt ≡ true
  pub attempts : is_some c.attempt ≡ true → c.connect_state ≡ connecting
  pub has_socket : c.socket ≡ true → c.connect_state ≡ opened
  pub timer_runs : is_some c.timer ≡ true → c.running ≡ true
  pub soon : (tries wait : ℕ) → c.timer ≡ some (tries, wait) → wait ≤ 10000
  pub ported : c.has_port ≡ true

pub delay-le : (tries : ℕ) (random : ℕ × ℕ) → delay tries random ≤ 10000
unfolding delay
delay-le zero random = omega arith
delay-le (suc tries) random = ground arith

-- the state in which the lock is given back
pub record IsReleasing (c : ClientNet) : Type 0 where
  pub nobody : inside c ≡ 0
  pub held : c.open_lock.locked ≡ true
  pub connects_once : c.connect_state ≡ connecting → is_some c.attempt ≡ true
  pub attempts : is_some c.attempt ≡ true → c.connect_state ≡ connecting
  pub has_socket : c.socket ≡ true → c.connect_state ≡ opened
  pub timer_runs : is_some c.timer ≡ true → c.running ≡ true
  pub soon : (tries wait : ℕ) → c.timer ≡ some (tries, wait) → wait ≤ 10000
  pub ported : c.has_port ≡ true

abbrev with_lock : Bool → List Caller → ClientNet → ClientNet
with_lock b hs c = record c { open_lock = record { locked = b; handles = hs } }

ask_at :
    (b : Bool) (hs : List Caller) (w : Caller) (c : ClientNet)
    → IsExclusive (with_lock b hs c)
    → IsExclusive (ask_lock w (with_lock b hs c))
unfolding ask_lock Lock.lock
ask_at true hs w c ex = record {
  one_inside = ex.one_inside;
  none_waits = λ h. absurd (ground (arith, h));
  connects_once = ex.connects_once;
  attempts = ex.attempts;
  has_socket = ex.has_socket;
  timer_runs = ex.timer_runs;
  soon = ex.soon;
  ported = ex.ported;
}
ask_at false hs w c ex = record {
  one_inside = ground (arith, ex.one_inside);
  none_waits = λ h. absurd (ground (arith, h));
  connects_once = ex.connects_once;
  attempts = ex.attempts;
  has_socket = ex.has_socket;
  timer_runs = ex.timer_runs;
  soon = ex.soon;
  ported = ex.ported;
}

pub ask-IsExclusive : (w : Caller) (c : ClientNet) → IsExclusive c → IsExclusive (ask_lock w c)
ask-IsExclusive w c ex = ask_at c.open_lock.locked c.open_lock.handles w c ex

release_at :
    (b : Bool) (hs : List Caller) (c : ClientNet)
    → IsReleasing (with_lock b hs c)
    → IsExclusive (release (with_lock b hs c))
unfolding release Lock.unlock
release_at b [] c re = record {
  one_inside = ground (arith, re.nobody);
  none_waits = λ h. refl;
  connects_once = re.connects_once;
  attempts = re.attempts;
  has_socket = re.has_socket;
  timer_runs = re.timer_runs;
  soon = re.soon;
  ported = re.ported;
}
release_at b (w ∷ hs) c re = record {
  one_inside = ground (arith, re.nobody, re.held);
  none_waits = λ h. absurd (ground (arith, h, re.held));
  connects_once = re.connects_once;
  attempts = re.attempts;
  has_socket = re.has_socket;
  timer_runs = re.timer_runs;
  soon = re.soon;
  ported = re.ported;
}

pub release-IsExclusive : (c : ClientNet) → IsReleasing c → IsExclusive (release c)
release-IsExclusive c re = release_at c.open_lock.locked c.open_lock.handles c re
