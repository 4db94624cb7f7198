-- ===== src/Node/Connected.antt =====
-- The clients of a node as they connect and are lost, and what the node asks of its parts meanwhile.
use godcoin_js_legacy.Prelude.{
  ℕ, zero, suc, ◌≡◌, sym, ap, ◌∙◌, not, Bool, true, false, List, [], ◌∷◌, pos, ◌+ℤ◌, ◌-ℤ◌, arith,
  eq_of_parts, +ℤ_parts, -ℤ_parts,
}
use mathlib.Core.Path.{subst}
use godcoin_js_legacy.Node.PeerPool
use godcoin_js_legacy.Node.PeerPool.{is_zero}
use godcoin_js_legacy.Node.Listeners.{
  Asked, starts_producer, resumes, pauses, stops_producer, Parts, ask_for, on_pool_open,
  has_clients, ask_unless, on_pool_close, open_if, close_if, client_opens, client_closes,
}

abbrev pub is_any : ℕ → Bool
is_any zero = false
is_any (suc n) = true

-- The calls that were made, by whether a client was connected at first, and is now: starts and pauses
-- take turns.
pub data Alternates (first : Bool) : Bool → List Asked → Type 0 where
  fresh : Alternates first first []
  on :
      {calls : List Asked}
      → Alternates first false calls
      → Alternates first true (resumes ∷ starts_producer ∷ calls)
  off :
      {calls : List Asked}
      → Alternates first true calls
      → Alternates first false (stops_producer ∷ pauses ∷ calls)

module _ {Client : Type 0} where
  -- The clients' connections that are made and lost, from a state where `m` clients are connected; only a
  -- client that is connected is lost.
  pub data Connections (m : ℕ) (s : Parts Client) : ℕ → Parts Client → Type 0 where
    starts : Connections m s m s
    opens :
        {k : ℕ} {t : Parts Client} → Connections m s k t → Connections m s (suc k) (client_opens t)
    closes :
        {k : ℕ} {t : Parts Client} → Connections m s (suc k) t → Connections m s k (client_closes t)

  -- `k` clients are connected, of `m` at first
  pub record IsFollowing (m k : ℕ) (s : Parts Client) : Type 0 where
    pub counted : (s.pool).connected_count ≡ pos k
    pub complete : s.is_complete ≡ true
    pub unserved : has_clients s.server ≡ false
    pub alternates : Alternates (is_any m) (is_any k) s.asked

is_zero-pos : (k : ℕ) → is_zero (pos k) ≡ not (is_any k)
is_zero-pos zero = ground arith
is_zero-pos (suc k) = ground arith

one_more : (k : ℕ) → pos k +ℤ pos 1 ≡ pos (suc k)
one_more k = eq_of_parts (pos k +ℤ pos 1) (pos (suc k)) (omega (arith, +ℤ_parts (pos k) (pos 1)))

one_less : (k : ℕ) → pos (suc k) -ℤ pos 1 ≡ pos k
one_less k =
    eq_of_parts (pos (suc k) -ℤ pos 1) (pos k) (omega (arith, -ℤ_parts (pos (suc k)) (pos 1)))

module _ {Client : Type 0} where
  -- after the pool has counted the client
  opened-IsFollowing :
      (m k : ℕ) (s : Parts Client)
      → IsFollowing m k s
      → IsFollowing m
          (suc k)
          (open_if (not (is_any k)) (record s { pool = PeerPool.on_open s.pool }))
  unfolding on_pool_open PeerPool.on_open
  opened-IsFollowing m zero s at =
      let t : Parts Client = record s { pool = PeerPool.on_open s.pool } in
      let calls = resumes ∷ starts_producer ∷ [] in
      subst (λ b. IsFollowing m 1 (ask_for b calls t)) (sym at.complete)
        (record {
          counted = ap (λ c. c +ℤ pos 1) at.counted ∙ one_more 0;
          complete = at.complete;
          unserved = at.unserved;
          alternates = on at.alternates;
        })
  opened-IsFollowing m (suc k) s at = record {
    counted = ap (λ c. c +ℤ pos 1) at.counted ∙ one_more (suc k);
    complete = at.complete;
    unserved = at.unserved;
    alternates = at.alternates;
  }

  closed-IsFollowing :
      (m k : ℕ) (s : Parts Client)
      → IsFollowing m (suc k) s
      → IsFollowing m k (close_if (not (is_any k)) (record s { pool = PeerPool.on_close s.pool }))
  unfolding on_pool_close PeerPool.on_close
  closed-IsFollowing m zero s at =
      let t : Parts Client = record s { pool = PeerPool.on_close s.pool } in
      let calls = stops_producer ∷ pauses ∷ [] in
      subst (λ b. IsFollowing m 0 (ask_unless b calls t)) (sym at.unserved)
        (record {
          counted = ap (λ c. c -ℤ pos 1) at.counted ∙ one_less 0;
          complete = at.complete;
          unserved = at.unserved;
          alternates = off at.alternates;
        })
  closed-IsFollowing m (suc k) s at = record {
    counted = ap (λ c. c -ℤ pos 1) at.counted ∙ one_less (suc k);
    complete = at.complete;
    unserved = at.unserved;
    alternates = at.alternates;
  }

  -- While clients connect and are lost, each lost only after it has connected, a node whose
  -- synchronization is complete and whose server has no clients counts them. The calls that its
  -- listeners make, from a state in which they have made none, take turns: to start the producer and to
  -- resume the synchronizer when a first client is back, and to pause it and to stop the producer when
  -- the last one is lost; so the latest calls, if any, are those that fit the number of clients. What
  -- these calls, which are not awaited, then do is not part of it.
  pub Connections-IsFollowing :
      {m : ℕ} {s : Parts Client} {k : ℕ} {t : Parts Client}
      → Connections m s k t
      → IsFollowing m m s
      → IsFollowing m k t
  unfolding client_opens client_closes PeerPool.on_close
  Connections-IsFollowing starts at = at
  Connections-IsFollowing {m} (opens {k} {t} before) at =
      let at' = Connections-IsFollowing before at in
      subst (λ b. IsFollowing m (suc k) (open_if b (record t { pool = PeerPool.on_open t.pool })))
        (sym (ap is_zero at'.counted ∙ is_zero-pos k)) (opened-IsFollowing m k t at')
  Connections-IsFollowing {m} (closes {k} {t} before) at =
      let at' = Connections-IsFollowing before at in
      let left : (PeerPool.on_close t.pool).connected_count ≡ pos k =
        ap (λ c. c -ℤ pos 1) at'.counted ∙ one_less k in
      subst (λ b. IsFollowing m k (close_if b (record t { pool = PeerPool.on_close t.pool })))
        (sym (ap is_zero left ∙ is_zero-pos k)) (closed-IsFollowing m k t at')
