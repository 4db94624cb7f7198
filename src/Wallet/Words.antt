-- ===== src/Wallet/Words.antt =====
-- Lines of plain words, for `Wallet.parse`.
use godcoin_js_legacy.Prelude.{
  ℕ, ◌+◌, ◌≡◌, refl, sym, ap, ◌∙◌, List, [], ◌∷◌, ◌++◌, false, Option, none, some, eqb, inr, All,
}
use mathlib.Core.List.{append_assoc, append-nil}
use godcoin_js_legacy.Wallet.Parser.{
  Text, is_space, trim_start, trim_end, trim, Scan, step, finish, scan, parse,
}

-- a character that `parse` takes as it is
pub record IsPlain (ch : ℕ) : Type 0 where
  pub no_space : is_space ch ≡ false
  pub no_blank : eqb ch 32 ≡ false
  pub no_quote : eqb ch 34 ≡ false
  pub no_backslash : eqb ch 92 ≡ false

pub data IsWord : Text → Type 0 where
  word : {ch : ℕ} {rest : Text} → IsPlain ch → All IsPlain rest → IsWord (ch ∷ rest)

-- the words with one space between them
abbrev pub join : Text → List Text → Text
join w [] = w
join w (v ∷ ws) = w ++ 32 ∷ join v ws

abbrev outside : List Text → Text → Option ℕ → ℕ → Scan
outside args tmp prev i = record {
  args = args;
  tmp = tmp;
  in_quotes = false;
  prev = prev;
  i = i;
  skip = false;
}

scan-plain :
    (ch : ℕ) (rest : Text) (args : List Text) (tmp : Text) (prev : Option ℕ) (i : ℕ)
    → IsPlain ch
    → scan (outside args tmp prev i) (ch ∷ rest)
      ≡ scan (outside args (tmp ++ ch ∷ []) (some ch) (i + 1)) rest
unfolding scan step
scan-plain ch rest args tmp prev i plain =
    rw (scan, step, plain.no_blank, plain.no_quote, plain.no_backslash)

-- where the scan of a plain word ends
scan-word :
    (w more : Text) (args : List Text) (tmp : Text) (prev : Option ℕ) (i : ℕ)
    → All IsPlain w
    → (prev' : Option ℕ) × (i' : ℕ) × (scan (outside args tmp prev i) (w ++ more)
        ≡ scan (outside args (tmp ++ w) prev' i') more)
scan-word [] more args tmp prev i plain = (prev, i, rw (append-nil tmp))
scan-word (ch ∷ w) more args tmp prev i plain =
    let (prev', i', e) = scan-word w more args (tmp ++ ch ∷ []) (some ch) (i + 1) plain.1 in
    let regroup : (tmp ++ ch ∷ []) ++ w ≡ tmp ++ ch ∷ w = append_assoc tmp (ch ∷ []) w in
    (prev', i', scan-plain ch (w ++ more) args tmp prev i plain.0 ∙ rw regroup at e)

scan-space :
    (more : Text) (args : List Text) (tmp : Text) (prev : Option ℕ) (i : ℕ)
    → scan (outside args tmp prev i) (32 ∷ more)
      ≡ scan (outside (args ++ tmp ∷ []) [] (some 32) (i + 1)) more
unfolding scan step
scan-space more args tmp prev i = refl

scan-last :
    (w : Text) (args : List Text) (prev : Option ℕ) (i : ℕ)
    → IsWord w
    → scan (outside args w prev i) [] ≡ inr (args ++ w ∷ [])
unfolding scan finish
scan-last (ch ∷ w) args prev i is_word = refl
scan-last [] args prev i is_word = elim is_word [ ]

IsWord-All : {w : Text} → IsWord w → All IsPlain w
IsWord-All (word p ps) = (p, ps)

scan-join :
    (w : Text) (ws : List Text) (args : List Text) (prev : Option ℕ) (i : ℕ)
    → IsWord w
    → All IsWord ws
    → scan (outside args [] prev i) (join w ws) ≡ inr (args ++ w ∷ ws)
scan-join w [] args prev i is_word rest =
    let (prev', i', e) = scan-word w [] args [] prev i (IsWord-All is_word) in
    rw (append-nil w) at e ∙ scan-last w args prev' i' is_word
scan-join w (v ∷ ws) args prev i is_word rest =
    let (prev', i', e) = scan-word w (32 ∷ join v ws) args [] prev i (IsWord-All is_word) in
    e
    ∙ scan-space (join v ws) args w prev' i'
    ∙ scan-join v ws (args ++ w ∷ []) (some 32) (i' + 1) rest.0 rest.1
    ∙ ap inr (append_assoc args (w ∷ []) (v ∷ ws))

trim_end-word : (ch : ℕ) (w : Text) → IsPlain ch → All IsPlain w → trim_end (ch ∷ w) ≡ ch ∷ w
unfolding trim_end
trim_end-word ch [] plain rest = rw plain.no_space
trim_end-word ch (c ∷ w) plain rest = rw (trim_end-word c w rest.0 rest.1)

trim_end-cons :
    (x c : ℕ) (cs : Text) → trim_end (c ∷ cs) ≡ c ∷ cs → trim_end (x ∷ c ∷ cs) ≡ x ∷ c ∷ cs
unfolding trim_end
trim_end-cons x c cs h = rw (trim_end, h)

trim_end-append :
    (xs : Text) (c : ℕ) (cs : Text)
    → trim_end (c ∷ cs) ≡ c ∷ cs
    → trim_end (xs ++ c ∷ cs) ≡ xs ++ c ∷ cs
trim_end-append [] c cs h = h
trim_end-append (x ∷ []) c cs h = trim_end-cons x c cs h
trim_end-append (x ∷ y ∷ ys) c cs h =
    trim_end-cons x y (ys ++ c ∷ cs) (trim_end-append (y ∷ ys) c cs h)

trim_end-join :
    (w : Text) (ws : List Text)
    → IsWord w
    → All IsWord ws
    → (ch : ℕ) × (rest : Text) × (join w ws ≡ ch ∷ rest)
      × (is_space ch ≡ false)
      × (trim_end (ch ∷ rest) ≡ ch ∷ rest)
trim_end-join [] ws is_word rest = elim is_word [ ]
trim_end-join (ch ∷ w) [] (word p ps) rest = (ch, w, refl, p.no_space, trim_end-word ch w p ps)
trim_end-join (ch ∷ w) (v ∷ ws) (word p ps) rest =
    let (c, cs, e, no_space, t) = trim_end-join v ws rest.0 rest.1 in
    let tail_kept : trim_end (32 ∷ c ∷ cs) ≡ 32 ∷ c ∷ cs = trim_end-cons 32 c cs t in
    (
      ch,
      w ++ 32 ∷ join v ws,
      refl,
      p.no_space,
      rw e (trim_end-append (ch ∷ w) 32 (c ∷ cs) tail_kept),
    )

-- Words of plain characters with one space between them are the arguments that `parse` finds.
pub parse-join :
    (w : Text) (ws : List Text) → IsWord w → All IsWord ws → parse (join w ws) ≡ inr (w ∷ ws)
unfolding parse trim trim_start
parse-join w ws is_word rest =
    let (ch, cs, e, no_space, t) = trim_end-join w ws is_word rest in
    let trimmed : trim (join w ws) ≡ join w ws = ap trim e ∙ (rw (no_space, t)) ∙ sym e in
    rw trimmed (scan-join w ws [] none 0 is_word rest)
