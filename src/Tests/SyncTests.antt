-- ===== src/Tests/SyncTests.antt =====
-- A synchronization of a small chain with one peer.
use godcoin_js_legacy.Prelude.{◌≡◌, List, [], ◌∷◌, ◌++◌, true, ok, err, end_of_clients}
use godcoin_js_legacy.Neon.{SignedBlock}
use godcoin_js_legacy.ChainStore.Log.{frames}
use godcoin_js_legacy.Blockchain.Chain.{head}
use godcoin_js_legacy.Node.Synchronizer.{Round, synchronize_chain}
use godcoin_js_legacy.Node.Linked.{Linked}
use godcoin_js_legacy.Node.Synced.{synchronize_chain-LogGrown}
use godcoin_js_legacy.Neon.{gold, silver}
use godcoin_js_legacy.Prelude.{refl, some, pos, lookup, bytes_equal}
use godcoin_js_legacy.Indexer.{get_token_supply, get_chain_height, get_prop}
use godcoin_js_legacy.ChainStore.{read}
use godcoin_js_legacy.ChainStore.Cache
use godcoin_js_legacy.Blockchain.Chain.{Chain}
use godcoin_js_legacy.Node.Rewound.{nothing_new, synchronize_chain-rewound}
use godcoin_js_legacy.Tests.Sample.{Db, level, packages, level_laws, neon_laws, coin}
use godcoin_js_legacy.Tests.BlockTests.{neon, clock, first_block, second_block, short_chain}

-- no peer answers the first request; the second one is answered with a block
abbrev rounds : List Round
rounds =
    record { running = true; answer = λ min max. err end_of_clients; still = λ k. true }
    ∷ record {
      running = true;
      answer = λ min max.
          ok (record { range_outside_height = true; blocks = second_block ∷ second_block ∷ [] });
      still = λ k. true;
    }
    ∷ []

synchronize_chain-LogGrown_example :
    (bs : List SignedBlock) × Linked (head short_chain) bs
    × ((synchronize_chain true clock rounds short_chain).1.store.file
        ≡ short_chain.store.file ++ frames bs)
synchronize_chain-LogGrown_example = synchronize_chain-LogGrown true clock rounds short_chain

-- a chain of two blocks, whose peer has no more
abbrev long_chain : Chain Db
long_chain = record short_chain {
  store = record (short_chain.store) {
    block_head = some second_block;
    block_cache = record { cache = (0, first_block) ∷ (1, second_block) ∷ []; min = 0; count = 2 };
  };
}

abbrev last_round : Round
last_round = record { running = true; answer = λ min max. ok nothing_new; still = λ k. true }

supply_of : get_token_supply long_chain.index ≡ ok (coin 0 gold, coin 0 silver)
unfolding get_token_supply get_prop lookup bytes_equal
supply_of = refl

block_zero : read long_chain.index long_chain.store 0 ≡ ok (some first_block)
unfolding read Cache.get lookup
block_zero = refl

synchronize_chain-rewound_example :
    (get_chain_height (synchronize_chain true clock (last_round ∷ []) long_chain).1.index
      ≡ ok (some (pos 0)))
    × (head (synchronize_chain true clock (last_round ∷ []) long_chain).1 ≡ some first_block)
synchronize_chain-rewound_example =
    synchronize_chain-rewound (neon_laws [] (first_block ∷ second_block ∷ [])) level_laws clock
      last_round [] long_chain (coin 0 gold) (coin 0 silver) first_block refl refl supply_of refl
      refl refl block_zero
