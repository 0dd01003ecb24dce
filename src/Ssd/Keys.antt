-- ===== src/Ssd/Keys.antt =====
-- The keys of blocks in the database (`block_key` and `iterate_all_blocks` of src/ssd.cpp and
-- include/ssd.h).
use kvcache.Base.{
  ℕ, ◌<◌, ◌≡◌, ◌∙◌, refl, sym, ap, true, Bytes, [], ◌∷◌, ◌++◌, some, arith, drop, bytes_eq,
  bytes_eq_iff,
}
use mathlib.Core.Option.{some-injective}
use kvcache.Base.Decimal.{decimal, AllDigits, decimal-AllDigits, decimal_injective, stoi-decimal}
use kvcache.State.{done}
use kvcache.Ssd.{block_key, block_prefix, split_slash, key_block, starts_with}

split_slash-append : (xs ys : Bytes) → AllDigits xs → split_slash (xs ++ b'/' ∷ ys) ≡ some (xs, ys)
unfolding split_slash
split_slash-append [] ys p = refl
split_slash-append (x ∷ xs) ys (p, q) = rw (split_slash-append xs ys q) (ground (arith, p))

split-block_key :
    (channel block : ℕ)
    → split_slash (drop 8 (block_key channel block)) ≡ some (decimal channel, decimal block)
unfolding block_key
split-block_key channel block =
    split_slash-append (decimal channel) (decimal block) (decimal-AllDigits channel)

-- A block is told by its key.
pub block_key_injective : (c b c' b' : ℕ) → block_key c b ≡ block_key c' b' → (c ≡ c') × (b ≡ b')
block_key_injective c b c' b' e =
    let same =
      some-injective _ _
        (sym (split-block_key c b) ∙ ap (λ k. split_slash (drop 8 k)) e ∙ split-block_key c' b') in
    (
      decimal_injective c c' (ap (λ (x : Bytes × Bytes). x.0) same),
      decimal_injective b b' (ap (λ (x : Bytes × Bytes). x.1) same),
    )

-- From the key that `create` writes for a block, where the numbers of channel and block are below 2 ^ 31,
-- the iteration finds the block.
pub key_block-block_key :
    (channel block : ℕ)
    → channel < 2147483648
    → block < 2147483648
    → key_block (block_key channel block) ≡ done (some block)
unfolding key_block
key_block-block_key channel block hc hb =
    rw (split-block_key channel block, key_block)
      (rw (stoi-decimal channel hc, stoi-decimal block hb) refl)

pub block_key-prefix : (c b : ℕ) → starts_with (block_key c b) block_prefix ≡ true
unfolding block_key starts_with
block_key-prefix c b = refl

pub block_key_test :
    (c b c' b' : ℕ) → bytes_eq (block_key c b) (block_key c' b') ≡ true → (c ≡ c') × (b ≡ b')
block_key_test c b c' b' h = block_key_injective c b c' b' ((bytes_eq_iff _ _).0 h)
