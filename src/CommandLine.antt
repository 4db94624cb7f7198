-- ===== src/CommandLine.antt =====
-- src/cli/index.ts with src/lib/env.ts and `hookSigInt` of src/lib/node-util.ts: what is run for a command, and
-- in which folders. The parsing of the arguments is that of the package yargs; `path.join`, the reading of
-- the configuration and godcoin-neon's keys are arguments.
use godcoin_js_legacy.Prelude.{
  ℕ, List, [], ◌∷◌, Bool, true, false, Option, none, some, Bytes, Error, Result, ok, err,
  type_error, defined, invalid_wif, bytes_equal, ◌>>=◌,
}
use godcoin_js_legacy.Node.Running.{NodeOpts}

-- the variables of `process.env` that are read, and whether `process.platform` is win32
pub record Environment : Type 0 where
  pub godcoin_home : Option Bytes
  pub godcoin_rc : Option Bytes
  pub app_data : Option Bytes
  pub home : Option Bytes
  pub is_win32 : Bool

-- a variable that is empty counts as one that is not set
abbrev pub non_empty : Option Bytes → Option Bytes
non_empty none = none
non_empty (some []) = none
non_empty (some (b ∷ bs)) = some (b ∷ bs)

-- '.godcoin' and 'godcoinrc'
abbrev pub home_folder : Bytes
home_folder = 46 ∷ 103 ∷ 111 ∷ 100 ∷ 99 ∷ 111 ∷ 105 ∷ 110 ∷ []

abbrev pub rc_file : Bytes
rc_file = 103 ∷ 111 ∷ 100 ∷ 99 ∷ 111 ∷ 105 ∷ 110 ∷ 114 ∷ 99 ∷ []

module _ (join : Bytes → Bytes → Bytes) where
  -- `path.join` of a variable that is not set throws
  abbrev pub in_folder : Option Bytes → Result Bytes
  in_folder none = err type_error
  in_folder (some folder) = ok (join folder home_folder)

  abbrev pub platform_home : Bool → Environment → Result Bytes
  platform_home true env = in_folder env.app_data
  platform_home false env = in_folder env.home

  abbrev pub home_of : Option Bytes → Environment → Result Bytes
  home_of (some folder) env = ok folder
  home_of none env = platform_home env.is_win32 env

  -- `GODCOIN_HOME`
  unfoldable pub godcoin_home : Environment → Result Bytes
  godcoin_home env = home_of (non_empty env.godcoin_home) env

  abbrev pub rc_of : Option Bytes → Environment → Result Bytes
  rc_of (some file) env = ok file
  rc_of none env = do folder ← godcoin_home env; ok (join folder rc_file)

  -- `GODCOIN_RC`
  unfoldable pub godcoin_rc : Environment → Result Bytes
  godcoin_rc env = rc_of (non_empty env.godcoin_rc) env

-- what `fs.accessSync` of the home folder gives: it is there, it is not (ENOENT), or another error
pub data Access : Type 0 where
  accessible missing : Access
  inaccessible : Error → Access

-- whether `fs.mkdirSync` makes the folder
unfoldable pub prepare_home : Access → Result Bool
prepare_home accessible = ok false
prepare_home missing = ok true
prepare_home (inaccessible e) = err e

pub data Program : Type 0 where
  node_command wallet_command keygen_command : Program

abbrev pub program_name : Program → Bytes
program_name node_command = 110 ∷ 111 ∷ 100 ∷ 101 ∷ []
program_name wallet_command = 119 ∷ 97 ∷ 108 ∷ 108 ∷ 101 ∷ 116 ∷ []
program_name keygen_command = 107 ∷ 101 ∷ 121 ∷ 103 ∷ 101 ∷ 110 ∷ []

-- `cmd === 'node'` and so on: the command that has the alias `$0` runs when none is given
unfoldable pub is_default : Option Bytes → Program → Bool
is_default none c = false
is_default (some cmd) c = bytes_equal cmd (program_name c)

-- the options that yargs is given, with their defaults and whether they need an argument
pub data Value : Type 0 where
  flag : Bool → Value
  text : Bytes → Value
  number : ℕ → Value
  no_texts nothing : Value

pub record OptionSpec : Type 0 where
  pub default : Value
  pub requires_arg : Bool

-- '0.0.0.0' and '127.0.0.1:7777'
abbrev pub any_address : Bytes
any_address = 48 ∷ 46 ∷ 48 ∷ 46 ∷ 48 ∷ 46 ∷ 48 ∷ []

abbrev pub local_node : Bytes
local_node = 49 ∷ 50 ∷ 55 ∷ 46 ∷ 48 ∷ 46 ∷ 48 ∷ 46 ∷ 49 ∷ 58 ∷ 55 ∷ 55 ∷ 55 ∷ 55 ∷ []

pub record NodeSpecs : Type 0 where
  pub listen : OptionSpec
  pub bind : OptionSpec
  pub port : OptionSpec
  pub peers : OptionSpec
  pub minter_wif : OptionSpec
  pub reindex : OptionSpec

abbrev pub node_specs : NodeSpecs
node_specs = record {
  listen = record { default = flag true; requires_arg = false };
  bind = record { default = text any_address; requires_arg = true };
  port = record { default = number 7777; requires_arg = true };
  peers = record { default = no_texts; requires_arg = false };
  minter_wif = record { default = nothing; requires_arg = true };
  reindex = record { default = flag false; requires_arg = false };
}

abbrev pub server_spec : OptionSpec
server_spec = record { default = text local_node; requires_arg = true }

-- the values that yargs makes of the arguments of `node`
pub record Argv : Type 0 where
  pub minter_wif : Option Bytes
  pub reindex : Bool
  pub peers : List Bytes
  pub listen : Bool
  pub bind : Bytes
  pub port : ℕ

-- `NodeOpts`
pub record NodeSettings (Key : Type 0) : Type 0 where
  pub home_dir : Bytes
  pub signing_keys : Option Key
  pub reindex : Bool
  pub peers : List Bytes
  pub listen : Bool
  pub bind : Bytes
  pub port : ℕ

abbrev pub keys_of : {Key : Type 0} → (Bytes → Option Key) → Option Bytes → Result (Option Key)
keys_of from_wif none = ok none
keys_of from_wif (some wif) = do key ← defined (from_wif wif) invalid_wif; ok (some key)

-- the options of the node that `startNode` makes; a WIF that is no key throws
unfoldable pub node_settings :
    {Key : Type 0} → (Bytes → Option Key) → Bytes → Argv → Result (NodeSettings Key)
node_settings from_wif home argv = do
  keys ← keys_of from_wif (non_empty argv.minter_wif)
  ok (record {
    home_dir = home;
    signing_keys = keys;
    reindex = argv.reindex;
    peers = argv.peers;
    listen = argv.listen;
    bind = argv.bind;
    port = argv.port;
  })

abbrev pub has_key : {Key : Type 0} → Option Key → Bool
has_key none = false
has_key (some key) = true

abbrev pub any_of : List Bytes → Bool
any_of [] = false
any_of (x ∷ xs) = true

-- what `Node.start` reads of them, with whether the chain has a head
unfoldable pub opts_of : {Key : Type 0} → Bool → NodeSettings Key → NodeOpts
opts_of has_head o = record {
  has_minter = has_key o.signing_keys;
  has_peers = any_of o.peers;
  listen = o.listen;
  has_head = has_head;
}

-- the handler of SIGINT in `hookSigInt`: the lines are closed and the callback runs, and whether or not it
-- throws the process ends after a second
pub record Interrupt : Type 0 where
  pub closed : Bool
  pub exit_after : Option ℕ

unfoldable pub on_interrupt : Result (Unit {0}) → Interrupt → Result (Unit {0}) × Interrupt
on_interrupt callback s = (callback, record s { closed = true; exit_after = some 1000 })
