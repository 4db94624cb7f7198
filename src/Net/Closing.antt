-- ===== src/Net/Closing.antt =====
-- What a closed connection means for the promises of a peer.
use godcoin_js_legacy.Prelude.{
  ℕ, zero, suc, ◌-◌, ◌≤◌, ◌≡◌, ◌⊎◌, inl, inr, refl, ap, ◌∙◌, List, [], ◌∷◌, true, some,
  Option-cases, arith, Dict, lookup, erase, disconnected, length, nat_eq,
}
use mathlib.Core.Path.{subst}
use godcoin_js_legacy.Neon.{Neon}
use godcoin_js_legacy.Packages.{Level, Packages}
use godcoin_js_legacy.Net.Payload.{PeerType}
use godcoin_js_legacy.Net.Calls.{
  Answer, rejected, Calls, settle, fulfil, drop_all, next_from, next_deferred,
}
use godcoin_js_legacy.Net.Peer.{new_peer, run_deferred}
use godcoin_js_legacy.Net.Messages.{Host, Wire}
use godcoin_js_legacy.Net.Steps.{Step, closes, rejects_next, closed_by, step, run}
use godcoin_js_legacy.Net.Kept.{has, keep_first-origin, IsKept}
use godcoin_js_legacy.Net.Answers.{on_close-calls, run-keeps, run-IsKept}

abbrev pub repeat : {A : Type 0} → ℕ → A → List A
repeat zero a = []
repeat (suc n) a = a ∷ repeat n a

-- what is settled meanwhile is a rejection
abbrev OnlyRejects : Calls → Calls → Type 0
OnlyRejects c d =
    (k : ℕ) (a : Answer)
    → lookup k d.settled ≡ some a
    → (lookup k c.settled ≡ some a) ⊎ (rejected disconnected ≡ a)

next_from-OnlyRejects : (w : Dict ℕ (Unit {0})) (c : Calls) → OnlyRejects c (next_from w c)
unfolding settle fulfil
next_from-OnlyRejects [] c k a h = inl h
next_from-OnlyRejects ((j, u) ∷ rest) c k a h =
    elim (keep_first-origin (lookup j c.settled) j k (rejected disconnected) a c.settled h) [
      | inl before ↦ inl before
      | inr (same, now) ↦ inr now
    ]

-- one rejection less, and still no open request
next_from-progress :
    (w : Dict ℕ (Unit {0})) (c : Calls)
    → c.deferred ≡ w
    → c.requests ≡ []
    → (length (next_from w c).deferred ≤ length w - 1)
      × ((next_from w c).requests ≡ [])
      × ((next_from w c).asked ≡ c.asked)
unfolding settle fulfil erase
next_from-progress [] c e h = (omega (arith, ap length e), h, refl)
next_from-progress ((j, u) ∷ rest) c e h = (omega arith, ap (erase j) h, refl)

no_elements : {A : Type 0} (xs : List A) → length xs ≤ 0 → xs ≡ []
no_elements [] few = refl
no_elements (x ∷ xs) few = absurd (omega (arith, few))

-- every rejection that waits has run
record IsDrained (c d : Calls) : Type 0 where
  none_waits : d.deferred ≡ []
  none_open : d.requests ≡ []
  same_asked : d.asked ≡ c.asked
  only_rejects : OnlyRejects c d

settled_or_lost :
    (k : ℕ) (c d : Calls)
    → IsDrained c d
    → IsKept d
    → has k c.asked ≡ true
    → (a : Answer) × (lookup k d.settled ≡ some a)
      × ((lookup k c.settled ≡ some a) ⊎ (rejected disconnected ≡ a))
unfolding lookup
settled_or_lost k c d drained held asked = elim (Option-cases (lookup k d.settled)) [
  | inl e ↦
      let asked' : has k d.asked ≡ true = rw drained.same_asked asked in
      let waits = held.kept k asked' (ground (arith, e)) in
      absurd (ground (arith, waits, drained.none_waits, drained.none_open))
  | inr (a, e) ↦ (a, e, drained.only_rejects k a e)
]

module _ {Db : Type 0} ⦃n : Neon⦄ ⦃p : Packages⦄ ⦃l : Level Db⦄ (wire : Wire) where
  drain :
      (count : ℕ) (h : Host Db)
      → length h.peer.calls.deferred ≤ count
      → h.peer.calls.requests ≡ []
      → IsDrained h.peer.calls (run wire (repeat count rejects_next) h).peer.calls
  unfolding run step run_deferred next_deferred
  drain zero h few none_open = record {
    none_waits = no_elements h.peer.calls.deferred few;
    none_open = none_open;
    same_asked = refl;
    only_rejects = λ k a e. inl e;
  }
  drain (suc count) h few none_open =
      let c = h.peer.calls in
      let (shorter, none_open', same) = next_from-progress c.deferred c refl none_open in
      let later = drain count (step wire rejects_next h) (omega (arith, few, shorter)) none_open' in
      record {
        none_waits = later.none_waits;
        none_open = later.none_open;
        same_asked = later.same_asked ∙ same;
        only_rejects = λ k e got. elim (later.only_rejects k e got) [
          | inl before ↦ next_from-OnlyRejects c.deferred c k e before
          | inr now ↦ inr now
        ];
      }

  closed :
      (h : Host Db)
      → h.peer.attached ≡ true
      → (step wire closes h).peer.calls ≡ drop_all h.peer.calls
  unfolding step
  closed h attached = ap (λ b. (closed_by b h.peer).calls) attached ∙ on_close-calls h.peer

  -- Once the connection of a peer that still listens to its `net`, which is one that was not stopped, has
  -- closed and the functions that wait have run, every promise that it ever gave is settled: as before
  -- it closed, or rejected as disconnected.
  pub close-settles :
      (steps : List Step) (h : Host Db) (t : PeerType) (count k : ℕ)
      → h.peer ≡ new_peer t
      → (run wire steps h).peer.attached ≡ true
      → length (step wire closes (run wire steps h)).peer.calls.deferred ≤ count
      → has k (run wire steps h).peer.calls.asked ≡ true
      → (a : Answer) × (lookup k
            (run wire (closes ∷ repeat count rejects_next) (run wire steps h)).peer.calls.settled
          ≡ some a)
        × ((lookup k (run wire steps h).peer.calls.settled ≡ some a) ⊎ (rejected disconnected ≡ a))
  unfolding run drop_all
  close-settles steps h t count k fresh attached few asked =
      let before = run wire steps h in
      let after = step wire closes before in
      let end = run wire (repeat count rejects_next) after in
      let held = run-IsKept wire steps h t fresh in
      let c = closed before attached in
      let drained = drain count after few (ap (λ (d : Calls). d.requests) c) in
      let (a, e, origin) =
        settled_or_lost k after.peer.calls end.peer.calls drained
          (run-keeps wire (closes ∷ repeat count rejects_next) before held)
          (ap (λ (d : Calls). has k d.asked) c ∙ asked) in
      (
        a,
        e,
        subst (λ (d : Calls). (lookup k d.settled ≡ some a) ⊎ (rejected disconnected ≡ a)) c origin,
      )
