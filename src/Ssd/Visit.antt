-- ===== src/Ssd/Visit.antt =====
-- The blocks that `iterate_all_blocks` (include/ssd.h) finds in a database that `create` (src/ssd.cpp)
-- wrote.
use kvcache.Base.{
  ℕ, ◌*◌, ◌/◌, ◌<◌, ◌≤◌, ◌≡◌, ◌∙◌, refl, sym, ap, subst, Bool, Bool-cases, true, false, Bytes,
  bytes_eq, bytes_eq_iff, List, [], ◌∷◌, none, arith, ltb, ◌==◌, if◌then◌else◌, inl, inr,
}
use native.Mathlib.Nat.{div-le_self}
use kvcache.Lists.{count}
use kvcache.State.{done}
use kvcache.Ssd.{
  Medium, SsdConfig, formatted, block_prefix, starts_with, is_some, leading, count_key, visit_keys,
  format_db, iterate_all_blocks, num_blocks_key, block_size_key, num_channels_key,
  block_per_channel_key,
}
use kvcache.Ssd.Keys.{block_key_injective, block_key_test, key_block-block_key, block_key-prefix}
use kvcache.Ssd.Format.{key, put_channels-Filled}
use kvcache.Ssd.Opened.{formatted_ssd, format_db-Stages}

bytes_eq_same : (k : Bytes) → bytes_eq k k ≡ true
bytes_eq_same k = (bytes_eq_iff k k).1 refl

module _ (md : Medium) (p : ℕ) where
  -- The keys tell the blocks apart.
  test_key : (a b : ℕ) → bytes_eq (key md p a) (key md p b) ≡ (a == b)
  test_key a b = elim (Bool-cases (a == b)) [
    | inl y ↦
        subst (λ x. bytes_eq (key md p a) (key md p x) ≡ true) (ground (arith, y)) (bytes_eq_same _)
        ∙ sym y
    | inr n ↦ elim (Bool-cases (bytes_eq (key md p a) (key md p b))) [
      | inl z ↦ absurd (ground (arith, n, (block_key_test (a / p) a (b / p) b z).1))
      | inr z ↦ z ∙ sym n
    ]
  ]

  visit_keys-cons :
      (b : ℕ) (k : Bytes) (ks : List Bytes) (bs : List ℕ)
      → k ≡ key md p b
      → b < 2147483648
      → visit_keys ks ≡ done bs
      → visit_keys (k ∷ ks) ≡ done (b ∷ bs)
  unfolding visit_keys
  visit_keys-cons b k ks bs same below e =
      rw (same, key_block-block_key (b / p) b (omega (arith, below, div-le_self b p)) below, e) refl

  count-cons :
      (a b : ℕ) (k : Bytes) (ks : List Bytes) (bs : List ℕ)
      → k ≡ key md p a
      → count b bs ≡ count_key (key md p b) ks
      → count b (a ∷ bs) ≡ count_key (key md p b) (k ∷ ks)
  unfolding count count_key
  count-cons a b k ks bs same e = rw (same, test_key a b, e) refl

  -- Over keys of blocks the iteration visits each block as often as its key is there.
  visit_keys-count :
      (n : ℕ) (ks : List Bytes)
      → n ≤ 2147483648
      → ((k : Bytes) → 0 < count_key k ks → (b : ℕ) × (b < n) × (k ≡ key md p b))
      → (bs : List ℕ) × (visit_keys ks ≡ done bs)
        × ((b : ℕ) → count b bs ≡ count_key (key md p b) ks)
  unfolding visit_keys count_key count
  visit_keys-count n [] fits keys = ([], refl, λ b. refl)
  visit_keys-count n (k ∷ ks) fits keys =
      let (b₀, below, same) = keys k (rw (bytes_eq_same k) (omega arith)) in
      let (bs, e, counts) = visit_keys-count n ks fits (λ q h. keys q (omega (arith, h))) in
      (
        b₀ ∷ bs,
        visit_keys-cons b₀ k ks bs same (omega (arith, below, fits)) e,
        λ b. count-cons b₀ b k ks bs same (counts b),
      )

module _ (md : Medium) where
  open md use {Db, db_get, db_seek, seek-prefix}

  -- On a database that held nothing, `create` leaves the keys of the blocks and no other with their prefix.
  origin_key :
      (config : SsdConfig) (db db' : Db) (k : Bytes)
      → 0 < config.blocks_per_channel
      → ((q : Bytes) → db_get db q ≡ none)
      → format_db md db config ≡ formatted db'
      → starts_with k block_prefix ≡ true
      → is_some (db_get db' k) ≡ true
      → (b : ℕ) × (b < config.nr_channels * config.blocks_per_channel)
        × (k ≡ key md config.blocks_per_channel b)
  unfolding starts_with
  origin_key config db db' k pos new h starts found =
      let st = format_db-Stages md config db db' h in
      let p = config.blocks_per_channel in
      let filled =
        put_channels-Filled md p config.nr_channels 0 0 st.before db' pos (omega arith) st.blocks in
      elim (filled.origin k found) [
        | inr (b, below, same) ↦ (b, omega (arith, below), same)
        | inl old ↦
            let differs : (q : Bytes) → starts_with q block_prefix ≡ false → bytes_eq q k ≡ false =
              λ q no. elim (Bool-cases (bytes_eq q k)) [
                | inr z ↦ z
                | inl y ↦ absurd (
                    cc (
                      subst (λ x. starts_with x block_prefix ≡ false) ((bytes_eq_iff q k).0 y) no,
                      starts,
                    ))
              ] in
            let same =
              st.other k (differs num_blocks_key refl) (differs block_size_key refl)
                (differs num_channels_key refl) (differs block_per_channel_key refl) in
            absurd (ground (arith, same, new k, old))
      ]

  stored_key :
      (config : SsdConfig) (db db' : Db) (b : ℕ)
      → 0 < config.blocks_per_channel
      → ((q : Bytes) → db_get db q ≡ none)
      → format_db md db config ≡ formatted db'
      → is_some (db_get db' (key md config.blocks_per_channel b))
        ≡ ltb b (config.nr_channels * config.blocks_per_channel)
  stored_key config db db' b pos new h =
      let st = format_db-Stages md config db db' h in
      let p = config.blocks_per_channel in
      let filled =
        put_channels-Filled md p config.nr_channels 0 0 st.before db' pos (omega arith) st.blocks in
      elim (Bool-cases (ltb b (config.nr_channels * p))) [
        | inl y ↦ rw (filled.hit b (omega arith) (ground (arith, y))) (sym y)
        | inr n ↦ elim (Bool-cases (is_some (db_get db' (key md p b)))) [
          | inr z ↦ z ∙ sym n
          | inl z ↦
              let (a, below, same) =
                origin_key config db db' (key md p b) pos new h (block_key-prefix (b / p) b) z in
              absurd (ground (arith, n, below, (block_key_injective (b / p) b (a / p) a same).1))
        ]
      ]

  -- On a database that held nothing, after `create` with numbers that `stoi` reads, the iteration over
  -- the blocks succeeds, and visits each block below the number of blocks once and no other.
  pub iterate_all_blocks-count :
      (config : SsdConfig) (db db' : Db)
      → 0 < config.blocks_per_channel
      → config.nr_channels * config.blocks_per_channel < 2147483648
      → ((k : Bytes) → db_get db k ≡ none)
      → format_db md db config ≡ formatted db'
      → (bs : List ℕ) × (iterate_all_blocks md (formatted_ssd md config db') ≡ done bs)
        × ((b : ℕ)
            → count b bs
              ≡ (if ltb b (config.nr_channels * config.blocks_per_channel) then 1 else 0))
  unfolding iterate_all_blocks
  iterate_all_blocks-count config db db' pos fits new h =
      let p = config.blocks_per_channel in
      let st = format_db-Stages md config db db' h in
      let filled =
        put_channels-Filled md p config.nr_channels 0 0 st.before db' pos (omega arith) st.blocks in
      let ks = leading block_prefix (db_seek db' block_prefix) in
      let met = λ (k : Bytes). seek-prefix db' block_prefix k in
      let (bs, e, counts) =
        visit_keys-count md p (config.nr_channels * p) ks (omega (arith, fits)) (λ k some_key.
          elim (Bool-cases (starts_with k block_prefix)) [
            | inr z ↦ absurd (ground (arith, some_key, met k, z))
            | inl y ↦ elim (Bool-cases (is_some (db_get db' k))) [
              | inr z ↦ absurd (ground (arith, some_key, met k, y, z))
              | inl z ↦ origin_key config db db' k pos new h y z
            ]
          ]) in
      (
        bs,
        e,
        λ b.
            counts b
            ∙ met (key md p b)
            ∙ rw (block_key-prefix (b / p) b)
                (ap (λ (x : Bool). if x then 1 else 0) (stored_key config db db' b pos new h)),
      )
