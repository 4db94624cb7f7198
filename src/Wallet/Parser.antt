-- ===== src/Wallet/Parser.antt =====
-- `Wallet.parse` of src/cli/wallet/wallet.ts. A character is its code; `i` is its place.
use godcoin_js_legacy.Prelude.{
  ℕ, ◌+◌, List, [], ◌∷◌, ◌++◌, Bool, true, false, Option, none, some, eqb, leb, ◌||◌, ◌&&◌, ◌⊎◌,
  inl, inr, if◌then◌else◌,
}

pub data ParseError : Type 0 where
  unexpected_quote : ℕ → ParseError
  expected_quote : ParseError

abbrev pub Text : Type 0
Text = List ℕ

-- the white space that `trim` removes, of the first 256 characters
unfoldable pub is_space : ℕ → Bool
is_space ch = (leb 9 ch && leb ch 13) || eqb ch 32 || eqb ch 160

unfoldable pub trim_start : Text → Text
trim_start [] = []
trim_start (ch ∷ rest) = let trimmed = trim_start rest in if is_space ch then trimmed else ch ∷ rest

unfoldable pub trim_end : Text → Text
trim_end [] = []
trim_end (ch ∷ rest) =
    let trimmed = trim_end rest in
    elim trimmed [ [] ↦ (if is_space ch then [] else ch ∷ []) | c ∷ cs ↦ ch ∷ c ∷ cs ]

unfoldable pub trim : Text → Text
trim line = trim_end (trim_start line)

-- the variables of the loop; `skip` says that the `++i` of a closing quote has passed the next one
pub record Scan : Type 0 where
  pub args : List Text
  pub tmp : Text
  pub in_quotes : Bool
  pub prev : Option ℕ
  pub i : ℕ
  pub skip : Bool

abbrev pub is_char : ℕ → Option ℕ → Bool
is_char ch none = false
is_char ch (some c) = eqb ch c

abbrev pub first? : Text → Option ℕ
first? [] = none
first? (ch ∷ rest) = some ch

abbrev pub Step : Type 0
Step = ParseError ⊎ Scan

-- what every round does at its end: `++i`
abbrev pub next : ℕ → Scan → Scan
next ch s = record s { prev = some ch; i = s.i + 1 }

abbrev pub append_char : ℕ → Scan → Scan
append_char ch s = record s { tmp = s.tmp ++ ch ∷ [] }

abbrev pub push_arg : Scan → Scan
push_arg s = record s { args = s.args ++ s.tmp ∷ []; tmp = [] }

-- `case '"'`, where `cont` is the character that follows
unfoldable pub quote : Scan → Option ℕ → Step
quote s cont = elim (is_char 92 s.prev) [
  | true ↦ inr (next 34 (append_char 34 s))
  | false ↦ elim s.in_quotes [
    | false ↦ elim (is_char 32 s.prev) [
      | false ↦ inl (unexpected_quote s.i)
      | true ↦ inr (next 34 (record s { in_quotes = true }))
    ]
    | true ↦ elim cont [
      | none ↦ inr (next 34 (record (push_arg s) { in_quotes = false; skip = true }))
      | some c ↦ elim (eqb c 32) [
        | false ↦ inl (unexpected_quote (s.i + 1))
        | true ↦ inr (next 34 (record (push_arg s) { in_quotes = false; skip = true }))
      ]
    ]
  ]
]

-- the `switch` on the character `ch`
unfoldable pub step : Scan → ℕ → Option ℕ → Step
step s ch cont = elim s.skip [
  | true ↦ inr (next ch (record s { skip = false }))
  | false ↦ elim (eqb ch 32) [
    | true ↦ inr (next ch (if s.in_quotes then append_char 32 s else push_arg s))
    | false ↦ elim (eqb ch 34) [
      | true ↦ quote s cont
      | false ↦ elim (eqb ch 92) [
        | true ↦ inr (next ch s)
        | false ↦ inr (next ch (append_char ch s))
      ]
    ]
  ]
]

-- what follows the loop
unfoldable pub finish : Scan → ParseError ⊎ (List Text)
finish s = elim s.tmp [
  | [] ↦ inr s.args
  | ch ∷ rest ↦ elim s.in_quotes [
    | true ↦ inl expected_quote
    | false ↦ inr (s.args ++ (ch ∷ rest) ∷ [])
  ]
]

unfoldable pub scan : Scan → Text → ParseError ⊎ (List Text)
scan s [] = finish s
scan s (ch ∷ rest) = elim (step s ch (first? rest)) [ inl e ↦ inl e | inr s' ↦ scan s' rest ]

unfoldable pub parse : Text → ParseError ⊎ (List Text)
parse line =
    scan (record { args = []; tmp = []; in_quotes = false; prev = none; i = 0; skip = false })
      (trim line)
