-- ===== src/Neon/Laws.antt =====
-- What the program relies on of godcoin-neon. A theorem that needs them takes them as a hypothesis.
use godcoin_js_legacy.Prelude.{◌≡◌, ◌↔◌, true, some, ℤ, pos, ◌+ℤ◌, ◌-ℤ◌, ◌≤ℤ◌}
use godcoin_js_legacy.Neon.{Asset, gold, silver, PublicKey, Neon}

-- `value` is what an asset is worth, in units of the finest precision. Sums and differences of one
-- symbol are exact, two symbols have no difference, and what is printed is parsed back.
pub record NeonLaws (n : Neon) : Type 0 where
  pub value : Asset → ℤ
  pub value_nonneg : (a : Asset) → (pos 0 ≤ℤ a.amount) ↔ (pos 0 ≤ℤ value a)
  pub empty_gold_lem : (n.empty_gold.symbol ≡ gold) × (value n.empty_gold ≡ pos 0)
  pub empty_silver_lem : (n.empty_silver.symbol ≡ silver) × (value n.empty_silver ≡ pos 0)
  pub add_lem :
      (a b : Asset)
      → a.symbol ≡ b.symbol
      → (c : Asset) × (n.add a b ≡ some c) × (c.symbol ≡ a.symbol) × (value c ≡ value a +ℤ value b)
  pub sub_lem :
      (a b : Asset)
      → a.symbol ≡ b.symbol
      → (c : Asset) × (n.sub a b ≡ some c) × (c.symbol ≡ a.symbol) × (value c ≡ value a -ℤ value b)
  pub sub_same : (a b : Asset) {c : Asset} → n.sub a b ≡ some c → a.symbol ≡ b.symbol
  pub geq_lem : (a b : Asset) → n.geq a b ≡ some true → (a.symbol ≡ b.symbol) × (value b ≤ℤ value a)
  pub eq_lem : (a b : Asset) → n.eq a b ≡ some true → (a.symbol ≡ b.symbol) × (value a ≡ value b)
  pub parse-print : (a : Asset) → n.parse_asset (n.print_asset a) ≡ some a
  pub key_equals_iff : (a b : PublicKey) → (n.key_equals a b ≡ true) ↔ (a ≡ b)
