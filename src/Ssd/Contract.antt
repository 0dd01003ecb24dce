-- ===== src/Ssd/Contract.antt =====
-- Reads after writes of blocks (`read_block` and `write_block` of src/ssd.cpp).
use kvcache.Base.{
  ℕ, ◌+◌, ◌*◌, ◌/◌, ◌<◌, ◌≤◌, ◌≡◌, ◌⊎◌, ◌∙◌, refl, sym, ap, subst, Bool-cases, true, false, Bytes,
  bytes_eq, bytes_eq_iff, Option-cases, none, some, arith, length, ◌==◌, ltb, if◌then◌else◌, inl,
  inr,
}
use kvcache.Status.{ok_status, corruption_status}
use kvcache.State.{done, ◌>>=◌}
use kvcache.Ssd.{
  Medium, Ssd, Backing, in_database, on_device, get_block, block_key, int_product, read_block,
  write_block, read, write,
}
use kvcache.Ssd.Keys.{block_key_test}

module _ (md : Medium) where
  open md use {Db, Dev, db_get, db_put, pread, pwrite, get-put, pread-pwrite, pread-pwrite_apart}

  -- The ranges of two blocks are apart.
  ranges_apart : (b q size : ℕ) → b < q → b * size + size ≤ q * size
  ranges_apart b q size h = grind arith

  database_read :
      (s : Ssd md) (db : Db) (q : ℕ)
      → s.backing ≡ in_database db
      → read_block md s q ≡ (elim (db_get db (block_key (q / s.blocks_per_channel) q)) [
        | none ↦ done (corruption_status "read failed", none)
        | some v ↦ done (ok_status, some v)
      ])
  unfolding read_block read get_block
  database_read s db q e = rw (e, read_block) refl

  device_read :
      (s : Ssd md) (dev : Dev) (q : ℕ)
      → s.backing ≡ on_device dev
      → read_block md s q ≡ (
          int_product q s.block_size >>= λ offset. elim (pread dev offset s.block_size) [
            | none ↦ done (corruption_status "read failed", none)
            | some v ↦ done (ok_status, some v)
          ])
  unfolding read_block read get_block
  device_read s dev q e = rw (e, read_block) refl

  -- A write that returns OK, on a database and on a device.
  database_write :
      (s s' : Ssd md) (db : Db) (b : ℕ) (v : Bytes)
      → s.backing ≡ in_database db
      → write_block md s b v ≡ done (ok_status, s')
      → (db' : Db) × (db_put db (block_key (b / s.blocks_per_channel) b) v ≡ some db')
        × (record s { backing = in_database db' } ≡ s')
  unfolding write_block write get_block
  database_write s s' db b v e p =
      elim (Option-cases (db_put db (block_key (b / s.blocks_per_channel) b) v)) [
        | inl z ↦ absurd (ground (arith, p, e, z))
        | inr (db', z) ↦ (db', z, ground (arith, p, e, z))
      ]

  device_write :
      (s s' : Ssd md) (dev : Dev) (b : ℕ) (v : Bytes)
      → s.backing ≡ on_device dev
      → write_block md s b v ≡ done (ok_status, s')
      → (dev' : Dev) × (pwrite dev (b * s.block_size) v ≡ some dev')
        × (int_product b s.block_size ≡ done (b * s.block_size))
        × (record s { backing = on_device dev' } ≡ s')
  unfolding write_block write get_block int_product
  device_write s s' dev b v e p = elim (Bool-cases (ltb (b * s.block_size) 2147483648)) [
    | inr n ↦ absurd (ground (arith, p, e, n))
    | inl y ↦ elim (Option-cases (pwrite dev (b * s.block_size) v)) [
      | inl z ↦ absurd (ground (arith, p, e, z, y))
      | inr (dev', z) ↦ (dev', z, ground (arith, y), ground (arith, p, e, z, y))
    ]
  ]

  database_contract :
      (s s' : Ssd md) (db : Db) (b q : ℕ) (v : Bytes)
      → s.backing ≡ in_database db
      → write_block md s b v ≡ done (ok_status, s')
      → read_block md s' q ≡ (if b == q then done (ok_status, some v) else read_block md s q)
  database_contract s s' db b q v e p =
      let (db', put, same) = database_write s s' db b v e p in
      let p = s.blocks_per_channel in
      let found = get-put db db' (block_key (b / p) b) v (block_key (q / p) q) put in
      subst
        (λ x. read_block md x q ≡ (if b == q then done (ok_status, some v) else read_block md s q))
        same
        (database_read (record s { backing = in_database db' }) db' q refl
          ∙ elim (Bool-cases (b == q)) [
            | inl y ↦
                let at : b ≡ q = ground (arith, y) in
                let key : bytes_eq (block_key (b / p) b) (block_key (q / p) q) ≡ true =
                  (bytes_eq_iff _ _).1 (ap (λ x. block_key (x / p) x) at) in
                rw (found, y) (rw key refl)
            | inr n ↦ elim (Bool-cases (bytes_eq (block_key (b / p) b) (block_key (q / p) q))) [
              | inl z ↦ absurd (ground (arith, n, block_key_test (b / p) b (q / p) q z))
              | inr z ↦ rw (found, n) (rw z (sym (database_read s db q e)))
            ]
          ])

  elsewhere :
      (b q size : ℕ) (v : Bytes)
      → length v ≡ size
      → (b == q) ≡ false
      → (b * size + length v ≤ q * size) ⊎ (q * size + size ≤ b * size)
  elsewhere b q size v whole n = elim (Bool-cases (ltb b q)) [
    | inl y ↦ inl (omega (arith, whole, ranges_apart b q size (ground (arith, y))))
    | inr z ↦ inr (ranges_apart q b size (ground (arith, z, n)))
  ]

  device_contract :
      (s s' : Ssd md) (dev : Dev) (b q : ℕ) (v : Bytes)
      → s.backing ≡ on_device dev
      → length v ≡ s.block_size
      → write_block md s b v ≡ done (ok_status, s')
      → read_block md s' q ≡ (if b == q then done (ok_status, some v) else read_block md s q)
  device_contract s s' dev b q v e whole p =
      let (dev', put, fits, same) = device_write s s' dev b v e p in
      let size = s.block_size in
      let here : pread dev' (b * size) size ≡ some v =
        subst (λ n. pread dev' (b * size) n ≡ some v) whole
          (pread-pwrite dev dev' (b * size) v put) in
      subst
        (λ x. read_block md x q ≡ (if b == q then done (ok_status, some v) else read_block md s q))
        same
        (device_read (record s { backing = on_device dev' }) dev' q refl
          ∙ elim (Bool-cases (b == q)) [
            | inl y ↦
                let at : b ≡ q = ground (arith, y) in rw y (rw (← at) (rw fits (rw here refl)))
            | inr n ↦
                let other =
                  pread-pwrite_apart dev dev' (b * size) (q * size) size v put
                    (elsewhere b q size v whole n) in
                rw n (elim (Bool-cases (ltb (q * size) 2147483648)) [
                  | inl y ↦ rw (device_read s dev q e) (unfold int_product in rw y (rw other refl))
                  | inr z ↦ rw (device_read s dev q e) (unfold int_product in rw z refl)
                ])
          ])

  -- On a database and on a device: where the write of a value of the size of a block returns OK, the
  -- block reads that value, and every other block reads what it read before.
  pub read_block-write_block :
      (s s' : Ssd md) (b q : ℕ) (v : Bytes)
      → length v ≡ s.block_size
      → write_block md s b v ≡ done (ok_status, s')
      → read_block md s' q ≡ (if b == q then done (ok_status, some v) else read_block md s q)
  read_block-write_block s s' b q v whole p = go s.backing refl
    where
      go :
          (k : Backing md)
          → s.backing ≡ k
          → read_block md s' q ≡ (if b == q then done (ok_status, some v) else read_block md s q)
      go (in_database db) e = database_contract s s' db b q v e p
      go (on_device dev) e = device_contract s s' dev b q v e whole p
