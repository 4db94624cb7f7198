-- ===== src/Wallet/Lines.antt =====
-- The choice of a command in `processLine`, and `writeHelp`, of src/cli/wallet/wallet.ts.
use godcoin_js_legacy.Prelude.{
  ℕ, zero, suc, ◌-◌, ◌≡◌, ◌⊎◌, inl, inr, refl, ap, ◌∙◌, List, [], ◌∷◌, ◌++◌, Bool, true, false,
  ◌&&◌, not, Option, none, some, arith, bytes_equal, bytes_eq, ◌==◌, eqb, ltb, length, All,
  if◌then◌else◌,
}
use godcoin_js_legacy.Wallet.Parser.{Text, ParseError, is_space, parse}
use godcoin_js_legacy.Wallet.Words.{IsPlain, IsWord, word, join, parse-join}

pub data Command : Type 0 where
  run_new run_unlock run_get_properties run_get_block run_get_block_range run_get_total_fee
        run_get_balance run_create_account run_remove_account run_import_account run_list_accounts
        run_list_all_keys run_transfer run_create_bond run_help :
      Command

-- the names in the cases of the `switch`, by their characters
abbrev pub name_of : Command → Text
name_of run_new = 110 ∷ 101 ∷ 119 ∷ []
name_of run_unlock = 117 ∷ 110 ∷ 108 ∷ 111 ∷ 99 ∷ 107 ∷ []
name_of run_get_properties =
    103 ∷ 101 ∷ 116 ∷ 95 ∷ 112 ∷ 114 ∷ 111 ∷ 112 ∷ 101 ∷ 114 ∷ 116 ∷ 105 ∷ 101 ∷ 115 ∷ []
name_of run_get_block = 103 ∷ 101 ∷ 116 ∷ 95 ∷ 98 ∷ 108 ∷ 111 ∷ 99 ∷ 107 ∷ []
name_of run_get_block_range =
    103 ∷ 101 ∷ 116 ∷ 95 ∷ 98 ∷ 108 ∷ 111 ∷ 99 ∷ 107 ∷ 95 ∷ 114 ∷ 97 ∷ 110 ∷ 103 ∷ 101 ∷ []
name_of run_get_total_fee =
    103 ∷ 101 ∷ 116 ∷ 95 ∷ 116 ∷ 111 ∷ 116 ∷ 97 ∷ 108 ∷ 95 ∷ 102 ∷ 101 ∷ 101 ∷ []
name_of run_get_balance = 103 ∷ 101 ∷ 116 ∷ 95 ∷ 98 ∷ 97 ∷ 108 ∷ 97 ∷ 110 ∷ 99 ∷ 101 ∷ []
name_of run_create_account =
    99 ∷ 114 ∷ 101 ∷ 97 ∷ 116 ∷ 101 ∷ 95 ∷ 97 ∷ 99 ∷ 99 ∷ 111 ∷ 117 ∷ 110 ∷ 116 ∷ []
name_of run_remove_account =
    114 ∷ 101 ∷ 109 ∷ 111 ∷ 118 ∷ 101 ∷ 95 ∷ 97 ∷ 99 ∷ 99 ∷ 111 ∷ 117 ∷ 110 ∷ 116 ∷ []
name_of run_import_account =
    105 ∷ 109 ∷ 112 ∷ 111 ∷ 114 ∷ 116 ∷ 95 ∷ 97 ∷ 99 ∷ 99 ∷ 111 ∷ 117 ∷ 110 ∷ 116 ∷ []
name_of run_list_accounts =
    108 ∷ 105 ∷ 115 ∷ 116 ∷ 95 ∷ 97 ∷ 99 ∷ 99 ∷ 111 ∷ 117 ∷ 110 ∷ 116 ∷ 115 ∷ []
name_of run_list_all_keys =
    108 ∷ 105 ∷ 115 ∷ 116 ∷ 95 ∷ 97 ∷ 108 ∷ 108 ∷ 95 ∷ 107 ∷ 101 ∷ 121 ∷ 115 ∷ []
name_of run_transfer = 116 ∷ 114 ∷ 97 ∷ 110 ∷ 115 ∷ 102 ∷ 101 ∷ 114 ∷ []
name_of run_create_bond = 99 ∷ 114 ∷ 101 ∷ 97 ∷ 116 ∷ 101 ∷ 95 ∷ 98 ∷ 111 ∷ 110 ∷ 100 ∷ []
name_of run_help = 104 ∷ 101 ∷ 108 ∷ 112 ∷ []

abbrev pub all_commands : List Command
all_commands =
    run_new ∷ run_unlock ∷ run_get_properties ∷ run_get_block ∷ run_get_block_range
    ∷ run_get_total_fee ∷ run_get_balance ∷ run_create_account ∷ run_remove_account
    ∷ run_import_account ∷ run_list_accounts ∷ run_list_all_keys ∷ run_transfer ∷ run_create_bond
    ∷ run_help ∷ []

unfoldable pub find_command : Text → List Command → Option Command
find_command text [] = none
find_command text (c ∷ cs) =
    let rest = find_command text cs in elim (name_of c == text) [ true ↦ some c | false ↦ rest ]

unfoldable pub command_of : Text → Option Command
command_of text = find_command text all_commands

-- What a line leads to; after an unknown command the help is shown too.
pub data Choice : Type 0 where
  nothing : Choice
  runs : Command → List Text → Choice
  unknown_command : Text → Choice
  bad_line : ParseError → Choice

abbrev pub choose : Option Command → Text → List Text → Choice
choose none name args = unknown_command name
choose (some c) name args = runs c args

abbrev pub choose_from : ParseError ⊎ (List Text) → Choice
choose_from (inl e) = bad_line e
choose_from (inr []) = nothing
choose_from (inr (name ∷ args)) = choose (command_of name) name (name ∷ args)

unfoldable pub process_line : Text → Choice
process_line line = choose_from (parse line)

-- `maxLen`
unfoldable pub widest : ℕ → List (Text × Text) → ℕ
widest max_len [] = max_len
widest max_len (cmd ∷ cmds) =
    widest (if ltb max_len (length (cmd.0)) then length (cmd.0) else max_len) cmds

-- `' '.repeat(n)`
unfoldable pub spaces : ℕ → Text
spaces zero = []
spaces (suc n) = 32 ∷ spaces n

unfoldable pub pad : ℕ → Text → Text
pad max_len c = if ltb (length c) max_len then c ++ spaces (max_len - length c) else c

unfoldable pub help_line : ℕ → Text × Text → Text
help_line max_len cmd = (32 ∷ 32 ∷ []) ++ (pad max_len (cmd.0) ++ ((32 ∷ 32 ∷ []) ++ cmd.1))

unfoldable pub help_lines : ℕ → List (Text × Text) → List Text
help_lines max_len [] = []
help_lines max_len (cmd ∷ cmds) = help_line max_len cmd ∷ help_lines max_len cmds

-- what `writeHelp` writes
unfoldable pub write_help : Text → List (Text × Text) → List Text
write_help header cmds = header ∷ help_lines (widest 0 cmds) cmds

all_plain : Text → Bool
all_plain [] = true
all_plain (ch ∷ text) =
    let rest = all_plain text in
    not (is_space ch) && (not (eqb ch 32) && (not (eqb ch 34) && (not (eqb ch 92) && rest)))

all_plain-IsPlain :
    (ch : ℕ) (text : Text) → all_plain (ch ∷ text) ≡ true → IsPlain ch × (all_plain text ≡ true)
unfolding all_plain
all_plain-IsPlain ch text h = (
  record {
    no_space = ground (arith, h);
    no_blank = ground (arith, h);
    no_quote = ground (arith, h);
    no_backslash = ground (arith, h);
  },
  ground (arith, h),
)

all_plain-All : (text : Text) → all_plain text ≡ true → All IsPlain text
all_plain-All [] h = tt
all_plain-All (ch ∷ text) h =
    let (here, later) = all_plain-IsPlain ch text h in (here, all_plain-All text later)

all_plain-IsWord : (ch : ℕ) (text : Text) → all_plain (ch ∷ text) ≡ true → IsWord (ch ∷ text)
all_plain-IsWord ch text h =
    let (here, later) = all_plain-IsPlain ch text h in word here (all_plain-All text later)

command_of-name_of : (c : Command) → command_of (name_of c) ≡ some c
unfolding command_of find_command bytes_equal
command_of-name_of run_new = refl
command_of-name_of run_unlock = refl
command_of-name_of run_get_properties = refl
command_of-name_of run_get_block = refl
command_of-name_of run_get_block_range = refl
command_of-name_of run_get_total_fee = refl
command_of-name_of run_get_balance = refl
command_of-name_of run_create_account = refl
command_of-name_of run_remove_account = refl
command_of-name_of run_import_account = refl
command_of-name_of run_list_accounts = refl
command_of-name_of run_list_all_keys = refl
command_of-name_of run_transfer = refl
command_of-name_of run_create_bond = refl
command_of-name_of run_help = refl

name_of-IsWord : (c : Command) → IsWord (name_of c)
unfolding all_plain is_space
name_of-IsWord run_new = all_plain-IsWord _ _ refl
name_of-IsWord run_unlock = all_plain-IsWord _ _ refl
name_of-IsWord run_get_properties = all_plain-IsWord _ _ refl
name_of-IsWord run_get_block = all_plain-IsWord _ _ refl
name_of-IsWord run_get_block_range = all_plain-IsWord _ _ refl
name_of-IsWord run_get_total_fee = all_plain-IsWord _ _ refl
name_of-IsWord run_get_balance = all_plain-IsWord _ _ refl
name_of-IsWord run_create_account = all_plain-IsWord _ _ refl
name_of-IsWord run_remove_account = all_plain-IsWord _ _ refl
name_of-IsWord run_import_account = all_plain-IsWord _ _ refl
name_of-IsWord run_list_accounts = all_plain-IsWord _ _ refl
name_of-IsWord run_list_all_keys = all_plain-IsWord _ _ refl
name_of-IsWord run_transfer = all_plain-IsWord _ _ refl
name_of-IsWord run_create_bond = all_plain-IsWord _ _ refl
name_of-IsWord run_help = all_plain-IsWord _ _ refl

-- A line that begins with the name of a command and goes on with plain words, one space before each, runs
-- this command with these words.
pub process_line-join :
    (c : Command) (args : List Text)
    → All IsWord args
    → process_line (join (name_of c) args) ≡ runs c (name_of c ∷ args)
unfolding process_line
process_line-join c args words =
    ap choose_from (parse-join (name_of c) args (name_of-IsWord c) words)
    ∙ ap (λ o. choose o (name_of c) (name_of c ∷ args)) (command_of-name_of c)
