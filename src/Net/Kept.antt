-- ===== src/Net/Kept.antt =====
-- The bookkeeping of promises: which are open, which are settled, and with what.
use godcoin_js_legacy.Prelude.{
  ℕ, ◌+◌, ◌≤◌, ◌≡◌, ◌⊎◌, inl, inr, refl, ◌∙◌, [], ◌∷◌, ◌++◌, Bool, true, false, ◌||◌, Option, none,
  some, Option-cases, arith, disconnected, Dict, lookup, insert, erase, lookup-insert, lookup-erase,
  nat_eq, eqb, eqb_iff,
}
use godcoin_js_legacy.Producer.TxPool.{is_some}
use godcoin_js_legacy.Net.Payload.{RpcPayload}
use godcoin_js_legacy.Net.Calls.{
  Answer, resolved, rejected, Calls, no_calls, keep_first, fulfil, settle, next_id, promise,
  wait_for, drop_all, next_from, next_deferred,
}

-- `k in d`
abbrev pub has : {V : Type 0} → ℕ → Dict ℕ V → Bool
has k d = is_some (lookup k d)

module _ {V : Type 0} where
  pub has-insert : (k j : ℕ) (v : V) (d : Dict ℕ V) → has j (insert k v d) ≡ (eqb k j || has j d)
  has-insert k j v d = ground (arith, lookup-insert k j v d)

  pub has-erase : (k j : ℕ) (d : Dict ℕ V) → has j (erase k d) ≡ true → has j d ≡ true
  has-erase k j d h = ground (arith, lookup-erase k j d, h)

  pub has-erase_other :
      (k j : ℕ) (d : Dict ℕ V) → has j (erase k d) ≡ false → has j d ≡ true → k ≡ j
  has-erase_other k j d h h' = ground (arith, lookup-erase k j d, h, h')

  pub has-append : (k : ℕ) (d e : Dict ℕ V) → has k (d ++ e) ≡ (has k d || has k e)
  unfolding lookup
  has-append k [] e = refl
  has-append k ((j, v) ∷ d) e = ground (arith, has-append k d e)

-- the first answer stays
pub has-keep_first :
    (k j : ℕ) (a : Answer) (d : Dict ℕ Answer)
    → has j (keep_first (lookup k d) k a d) ≡ (eqb k j || has j d)
unfolding keep_first
has-keep_first k j a d = elim (Option-cases (lookup k d)) [
  | inl e ↦ rw e (has-insert k j a d)
  | inr (earlier, e) ↦ rw e (ground (arith, e, eqb_iff k j))
]

pub keep_first-origin :
    (o : Option Answer) (k j : ℕ) (a b : Answer) (d : Dict ℕ Answer)
    → lookup j (keep_first o k a d) ≡ some b
    → (lookup j d ≡ some b) ⊎ ((k ≡ j) × (a ≡ b))
unfolding keep_first
keep_first-origin (some earlier) k j a b d h = inl h
keep_first-origin none k j a b d h = ground (arith, h, lookup-insert k j a d, eqb_iff k j)

-- Every promise is open, settled, or waits for its rejection, and an answer is for its own request.
pub record IsKept (c : Calls) : Type 0 where
  pub known : (k : ℕ) → has k c.asked ≡ true → k ≤ c.id
  pub waiting : (k : ℕ) → has k c.requests ≡ true → has k c.asked ≡ true
  pub open_only : (k : ℕ) → has k c.requests ≡ true → has k c.settled ≡ false
  pub asked_only : (k : ℕ) → has k c.settled ≡ true → has k c.asked ≡ true
  pub deferred_only : (k : ℕ) → has k c.deferred ≡ true → has k c.asked ≡ true
  pub kept :
      (k : ℕ)
      → has k c.asked ≡ true
      → has k c.settled ≡ false
      → (has k c.requests || has k c.deferred) ≡ true
  pub own : (k : ℕ) (rpc : RpcPayload) → lookup k c.settled ≡ some (resolved rpc) → rpc.id ≡ k

-- the answer is no message, or the one to the request
abbrev pub IsOwn : ℕ → Answer → Type 0
IsOwn k a = (rpc : RpcPayload) → a ≡ resolved rpc → rpc.id ≡ k

pub settle-IsKept :
    (k : ℕ) (a : Answer) (c : Calls)
    → has k c.asked ≡ true
    → IsOwn k a
    → IsKept c
    → IsKept (settle k a c)
unfolding settle fulfil
settle-IsKept k a c asked own held = record {
  known = held.known;
  waiting = λ j h. held.waiting j (has-erase k j c.requests h);
  open_only = λ j h. ground (
    arith,
    has-keep_first k j a c.settled,
    lookup-erase k j c.requests,
    h,
    held.open_only j,
    has-erase k j c.requests h,
  );
  asked_only = λ j h.
      ground (arith, has-keep_first k j a c.settled, h, held.asked_only j, eqb_iff k j, asked);
  deferred_only = held.deferred_only;
  kept = λ j h h'.
      ground
        (arith, has-keep_first k j a c.settled, h', held.kept j h, lookup-erase k j c.requests);
  own = λ j rpc h. elim (keep_first-origin (lookup k c.settled) k j a (resolved rpc) c.settled h) [
    | inl before ↦ held.own j rpc before
    | inr (same, now) ↦ own rpc now ∙ same
  ];
}

next_from-IsKept :
    (d : Dict ℕ (Unit {0})) (c : Calls)
    → IsKept (record c { deferred = d })
    → IsKept (next_from d (record c { deferred = d }))
unfolding settle fulfil lookup
next_from-IsKept [] c held = held
next_from-IsKept ((k, u) ∷ rest) c held =
    let a = rejected disconnected in
    record {
      known = held.known;
      waiting = λ j h. held.waiting j (has-erase k j c.requests h);
      open_only = λ j h. ground (
        arith,
        has-keep_first k j a c.settled,
        lookup-erase k j c.requests,
        h,
        held.open_only j,
        has-erase k j c.requests h,
      );
      asked_only = λ j h. ground (
        arith,
        has-keep_first k j a c.settled,
        h,
        held.asked_only j,
        eqb_iff k j,
        held.deferred_only k,
      );
      deferred_only = λ j h. ground (arith, h, held.deferred_only j);
      kept = λ j h h'.
          ground
            (arith, has-keep_first k j a c.settled, h', held.kept j h, lookup-erase k j c.requests);
      own = λ j rpc h.
          elim (keep_first-origin (lookup k c.settled) k j a (resolved rpc) c.settled h) [
            | inl before ↦ held.own j rpc before
            | inr (same, now) ↦ absurd (ground (arith, now))
          ];
    }

pub next_deferred-IsKept : (c : Calls) → IsKept c → IsKept (next_deferred c)
unfolding next_deferred
next_deferred-IsKept c held = next_from-IsKept c.deferred c held

pub ask-IsKept :
    (c : Calls) → IsKept c → IsKept (wait_for (c.id + 1) (promise (c.id + 1) (next_id c)))
unfolding wait_for promise next_id
ask-IsKept c held = record {
  known = λ j h. ground (arith, has-insert (c.id + 1) j tt c.asked, h, held.known j);
  waiting = λ j h. ground (
    arith,
    has-insert (c.id + 1) j tt c.asked,
    has-insert (c.id + 1) j tt c.requests,
    h,
    held.waiting j,
  );
  open_only = λ j h. ground (
    arith,
    has-insert (c.id + 1) j tt c.requests,
    h,
    held.open_only j,
    held.asked_only j,
    held.known j,
  );
  asked_only = λ j h. ground (arith, has-insert (c.id + 1) j tt c.asked, h, held.asked_only j);
  deferred_only =
      λ j h. ground (arith, has-insert (c.id + 1) j tt c.asked, h, held.deferred_only j);
  kept = λ j h h'. ground (
    arith,
    has-insert (c.id + 1) j tt c.asked,
    has-insert (c.id + 1) j tt c.requests,
    h,
    h',
    held.kept j,
  );
  own = held.own;
}

pub drop_all-IsKept : (c : Calls) → IsKept c → IsKept (drop_all c)
unfolding drop_all lookup
drop_all-IsKept c held = record {
  known = held.known;
  waiting = λ j h. absurd (ground (arith, h));
  open_only = λ j h. absurd (ground (arith, h));
  asked_only = held.asked_only;
  deferred_only = λ j h.
      ground (arith, has-append j c.deferred c.requests, h, held.deferred_only j, held.waiting j);
  kept = λ j h h'. ground (arith, has-append j c.deferred c.requests, h', held.kept j h h');
  own = held.own;
}

pub no_calls-IsKept : IsKept no_calls
unfolding lookup
no_calls-IsKept = record {
  known = λ k h. absurd (ground (arith, h));
  waiting = λ k h. absurd (ground (arith, h));
  open_only = λ k h. absurd (ground (arith, h));
  asked_only = λ k h. absurd (ground (arith, h));
  deferred_only = λ k h. absurd (ground (arith, h));
  kept = λ k h h'. absurd (ground (arith, h));
  own = λ k rpc h. absurd (ground (arith, h));
}

-- a call while the connection is closed
pub refuse-IsKept :
    (c : Calls)
    → IsKept c
    → IsKept (fulfil (c.id + 1) (rejected disconnected) (promise (c.id + 1) (next_id c)))
unfolding fulfil promise next_id
refuse-IsKept c held =
    let k = c.id + 1 in
    let a = rejected disconnected in
    record {
      known = λ j h. ground (arith, has-insert k j tt c.asked, h, held.known j);
      waiting = λ j h. ground (arith, has-insert k j tt c.asked, h, held.waiting j);
      open_only = λ j h. ground (
        arith,
        has-keep_first k j a c.settled,
        h,
        held.open_only j,
        held.waiting j,
        held.known j,
      );
      asked_only = λ j h.
          ground (
            arith,
            has-keep_first k j a c.settled,
            has-insert k j tt c.asked,
            h,
            held.asked_only j,
          );
      deferred_only = λ j h. ground (arith, has-insert k j tt c.asked, h, held.deferred_only j);
      kept = λ j h h'.
          ground
            (arith, has-keep_first k j a c.settled, has-insert k j tt c.asked, h, h', held.kept j);
      own = λ j rpc h.
          elim (keep_first-origin (lookup k c.settled) k j a (resolved rpc) c.settled h) [
            | inl before ↦ held.own j rpc before
            | inr (same, now) ↦ absurd (ground (arith, now))
          ];
    }

-- the number alone moves on
pub next_id-IsKept : (c : Calls) → IsKept c → IsKept (next_id c)
unfolding next_id
next_id-IsKept c held = record {
  known = λ k h. omega (arith, held.known k h);
  waiting = held.waiting;
  open_only = held.open_only;
  asked_only = held.asked_only;
  deferred_only = held.deferred_only;
  kept = held.kept;
  own = held.own;
}
