-- ===== src/Prelude/Errors.antt =====
-- What the code throws: one constructor for each message, and JavaScript's own `TypeError`.
pub data Error : Type 0 where
  -- a method call on `undefined`
  type_error : Error
  -- asset.ts, and the comparisons of godcoin-neon
  unhandled_symbol wrong_symbol too_many_decimals symbol_mismatch : Error
  -- chain_store.ts
  already_initialized not_initialized invalid_head chop_failed not_genesis : Error
  unexpected_eof invalid_checksum undecodable_block : Error
  -- blockchain.ts
  unexpected_height invalid_bond bad_merkle_root bad_previous_hash invalid_signature : Error
  cannot_skip_tx duplicate_tx undecodable_tx timestamp_in_future zero_fee tx_expired : Error
  behind_head nonzero_reward_time signed_reward fee_asset_differs zero_amount memo_too_long : Error
  unknown_balance_symbol fee_too_small insufficient_balance same_keys zero_stake : Error
  wrong_signature_count wrong_bond_fee invalid_transaction : Error
  -- producer and node
  unable_to_proceed : Error
  invalid_tx_type genesis_exists not_a_minter producer_stopped : Error
  disconnected end_of_clients startup_failed unknown_method peer_type_set : Error
  index_without_log needs_reindex : Error
  handshake_timeout invalid_handshake_id not_a_handshake disconnected_in_handshake : Error
  -- the wallet
  password_already_set not_unlocked not_found wrong_secret_key invalid_wif : Error
  encryption_test_failed unhandled_asset_type invalid_asset : Error
