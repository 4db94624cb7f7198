-- ===== src/Node/Rounds.antt =====
-- Which peer's answer `invoke` gives.
use godcoin_js_legacy.Prelude.{
  ℕ, zero, suc, ◌+◌, ◌%◌, ◌<◌, ◌≤◌, ◌≡◌, refl, ap, ◌∙◌, ◌≢◌, List, [], ◌∷◌, true, Option, none,
  some, arith, Error, Result, ok, err, length, get_elem?, type_error, disconnected, end_of_clients,
  Bool-cases, inl, inr,
}
use native.Mathlib.Nat.{mod-lt}
use godcoin_js_legacy.Node.PeerPool.{PeerPool, is_disconnected, attempt, invoke_from, invoke}

module _ {Client A : Type 0} (call : Client → Result A) where
  abbrev outcome : Option Client → Result A
  outcome none = err type_error
  outcome (some client) = call client

  -- what the client at a place answers
  abbrev pub answer_at : List Client → ℕ → Result A
  answer_at clients k = outcome (get_elem? clients k)

  is_disconnected→≡ : (e : Error) → is_disconnected e ≡ true → e ≡ disconnected
  is_disconnected→≡ e h = ground arith

  attempt-skips :
      (o : Option Client) (index : ℕ) (rest : Result A × ℕ)
      → outcome o ≡ err disconnected
      → attempt call o index rest ≡ rest
  unfolding attempt
  attempt-skips none index rest h = absurd (ground arith)
  attempt-skips (some client) index rest h = rw (attempt, h)

  attempt_err :
      (client : Client) (index : ℕ) (rest : Result A × ℕ) (e : Error)
      → call client ≡ err e
      → e ≢ disconnected
      → attempt call (some client) index rest ≡ (err e, index)
  unfolding attempt
  attempt_err client index rest e h other = elim (Bool-cases (is_disconnected e)) [
    | inl same ↦ absurd (other (is_disconnected→≡ e same))
    | inr differs ↦ rw (attempt, h, differs)
  ]

  attempt-answers :
      (o : Option Client) (r : Result A) (index : ℕ) (rest : Result A × ℕ)
      → outcome o ≡ r
      → r ≢ err disconnected
      → attempt call o index rest ≡ (r, index)
  unfolding attempt
  attempt-answers none r index rest h other = ap (λ (x : Result A). (x, index)) h
  attempt-answers (some client) (ok a) index rest h other = rw (attempt, h)
  attempt-answers (some client) (err e) index rest h other =
      attempt_err client index rest e h (λ same. other (ap err same))

  -- the place that is asked in the round `k` of a call
  abbrev pub place : List Client → ℕ → ℕ → ℕ
  place clients i k = (i + 1 + k) % length clients

  invoke_from-first :
      (clients : List Client) (rounds i index j : ℕ)
      → j < rounds
      → ((k : ℕ) → k < j → answer_at clients (place clients i k) ≡ err disconnected)
      → answer_at clients (place clients i j) ≢ err disconnected
      → invoke_from call clients rounds i index
        ≡ (answer_at clients (place clients i j), place clients i j)
  unfolding invoke_from
  invoke_from-first clients zero i index j h skipped answers = absurd (omega (arith, h))
  invoke_from-first clients (suc rounds) i index zero h skipped answers =
      let here : i + 1 + 0 ≡ i + 1 = omega arith in
      rw here (
        attempt-answers (get_elem? clients ((i + 1) % length clients)) _ ((i + 1) % length clients)
          (invoke_from call clients rounds (i + 1) ((i + 1) % length clients)) refl
          (rw here at answers))
  invoke_from-first clients (suc rounds) i index (suc j) h skipped answers =
      let shift : (k : ℕ) → i + 1 + 1 + k ≡ i + 1 + suc k = λ k. omega arith in
      let here : i + 1 + 0 ≡ i + 1 = omega arith in
      let later =
        invoke_from-first clients rounds (i + 1) ((i + 1) % length clients) j (omega (arith, h))
          (λ k lt. rw (shift k) (skipped (suc k) (omega (arith, lt)))) (rw (shift j) answers) in
      attempt-skips (get_elem? clients ((i + 1) % length clients)) ((i + 1) % length clients) _
        (rw here at (skipped 0 (omega arith)))
      ∙ rw (shift j) at later

  invoke_from-none :
      (clients : List Client) (rounds i index : ℕ)
      → rounds ≤ length clients
      → ((k : ℕ) → k < length clients → answer_at clients k ≡ err disconnected)
      → (invoke_from call clients rounds i index).0 ≡ err end_of_clients
  unfolding invoke_from
  invoke_from-none clients zero i index few gone = refl
  invoke_from-none [] (suc rounds) i index few gone = absurd (omega (arith, few))
  invoke_from-none (c ∷ cs) (suc rounds) i index few gone =
      let skip =
        attempt-skips (get_elem? (c ∷ cs) ((i + 1) % length (c ∷ cs))) ((i + 1) % length (c ∷ cs))
          (invoke_from call (c ∷ cs) rounds (i + 1) ((i + 1) % length (c ∷ cs)))
          (gone ((i + 1) % length (c ∷ cs)) (mod-lt (i + 1) (omega arith))) in
      ap (λ (x : Result A × ℕ). x.0) skip
      ∙ invoke_from-none (c ∷ cs) rounds (i + 1) ((i + 1) % length (c ∷ cs)) (omega (arith, few))
          gone

  -- `invoke` ends with `EndOfClients` when every client's answer is that it is disconnected; otherwise
  -- it gives the answer, a value or another error, of the first client after the one asked last that
  -- is not disconnected, and remembers that client.
  pub invoke-IsRoundRobin :
      (pool : PeerPool Client)
      → (((k : ℕ) → k < length pool.clients → answer_at pool.clients k ≡ err disconnected)
          → (invoke call pool).0 ≡ err end_of_clients)
        × ((j : ℕ)
            → j < length pool.clients
            → ((k : ℕ)
                → k < j
                → answer_at pool.clients (place pool.clients pool.index k) ≡ err disconnected)
            → answer_at pool.clients (place pool.clients pool.index j) ≢ err disconnected
            → invoke call pool ≡ (
              answer_at pool.clients (place pool.clients pool.index j),
              record pool { index = place pool.clients pool.index j },
            ))
  unfolding invoke
  invoke-IsRoundRobin pool = (
    λ gone.
        invoke_from-none pool.clients (length pool.clients) pool.index pool.index (omega arith)
          gone,
    λ j h skipped answers.
        let found =
          invoke_from-first pool.clients (length pool.clients) pool.index pool.index j h skipped
            answers in
        ap (λ (x : Result A × ℕ). (x.0, record pool { index = x.1 })) found,
  )
