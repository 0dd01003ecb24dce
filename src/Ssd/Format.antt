-- ===== src/Ssd/Format.antt =====
-- What `SSD::create` (src/ssd.cpp) leaves in a database.
use kvcache.Base.{
  ℕ, zero, suc, ◌+◌, ◌-◌, ◌*◌, ◌/◌, ◌<◌, ◌≤◌, ◌≡◌, ◌⊎◌, ◌∙◌, refl, sym, ap, subst, Bool-cases, true,
  false, Bytes, bytes_eq, bytes_eq_iff, Option-cases, some, [], arith, ltb, inl, inr,
}
use native.Mathlib.Nat.{mul-add-div_right, div-eq_of_lt}
use Prim.Native.String.{String}
use kvcache.Ssd.{
  Medium, Attempt, formatted, failed, ◌>>-◌, put_or, block_key, block_prefix, starts_with, is_some,
  put_channel, put_channels,
}
use kvcache.Ssd.Keys.{block_key-prefix}

pub >>--eq-formatted :
    {A B : Type 0} (m : Attempt A) (f : A → Attempt B) (b : B)
    → (m >>- f) ≡ formatted b
    → (a : A) × (m ≡ formatted a) × (f a ≡ formatted b)
>>--eq-formatted (formatted a) f b h = (a, refl, h)
>>--eq-formatted (failed st) f b h = absurd (cc)

module _ (md : Medium) (p : ℕ) where
  open md use {Db, db_get, db_put, get-put}

  -- The key of a block, where a channel has `p` of them.
  abbrev pub key : ℕ → Bytes
  key b = block_key (b / p) b

  -- From `d` to `d'` the blocks from `lo` on below `hi` got a value, and nothing else did.
  pub record Filled (d d' : Db) (lo hi : ℕ) : Type 0 where
    pub base : (k : Bytes) → starts_with k block_prefix ≡ false → db_get d' k ≡ db_get d k
    pub kept : (k : Bytes) → db_get d k ≡ some [] → db_get d' k ≡ some []
    pub hit : (b : ℕ) → lo ≤ b → b < hi → db_get d' (key b) ≡ some []
    pub origin :
        (k : Bytes)
        → is_some (db_get d' k) ≡ true
        → (is_some (db_get d k) ≡ true) ⊎ ((b : ℕ) × (b < hi) × (k ≡ key b))

  Filled-refl : (d : Db) (lo : ℕ) → Filled d d lo lo
  Filled-refl d lo = record {
    base = λ k h. refl;
    kept = λ k h. h;
    hit = λ b lo' hi'. absurd (omega (arith, lo', hi'));
    origin = λ k h. inl h;
  }

  Filled-trans :
      (d d₁ d₂ : Db) (lo mid hi : ℕ)
      → mid ≤ hi
      → Filled d d₁ lo mid
      → Filled d₁ d₂ mid hi
      → Filled d d₂ lo hi
  Filled-trans d d₁ d₂ lo mid hi le f g = record {
    base = λ k h. g.base k h ∙ f.base k h;
    kept = λ k h. g.kept k (f.kept k h);
    hit = λ b l h. elim (Bool-cases (ltb b mid)) [
      | inl y ↦ g.kept (key b) (f.hit b l (ground (arith, y)))
      | inr n ↦ g.hit b (ground (arith, n)) h
    ];
    origin = λ k h. elim (g.origin k h) [
      | inr found ↦ inr found
      | inl old ↦ elim (f.origin k old) [
        | inl older ↦ inl older
        | inr (b, below, same) ↦ inr (b, omega (arith, below, le), same)
      ]
    ];
  }

  put-Filled : (d d' : Db) (b : ℕ) → db_put d (key b) [] ≡ some d' → Filled d d' b (b + 1)
  put-Filled d d' b e = record {
    base = λ k h. elim (Bool-cases (bytes_eq (key b) k)) [
      | inl y ↦
          let same = (bytes_eq_iff (key b) k).0 y in
          absurd (
            cc (
              block_key-prefix (b / p) b,
              subst (λ x. starts_with x block_prefix ≡ false) (sym same) h,
            ))
      | inr n ↦ get-put d d' (key b) [] k e ∙ rw n refl
    ];
    kept = λ k h. ground (arith, get-put d d' (key b) [] k e, h);
    hit = λ q l h.
        let same : b ≡ q = omega (arith, l, h) in
        subst (λ x. db_get d' (key x) ≡ some []) same
          (get-put d d' (key b) [] (key b) e ∙ rw ((bytes_eq_iff (key b) (key b)).1 refl) refl);
    origin = λ k h. elim (Bool-cases (bytes_eq (key b) k)) [
      | inl y ↦ inr (b, omega arith, sym ((bytes_eq_iff (key b) k).0 y))
      | inr n ↦ inl (ground (arith, h, n, get-put d d' (key b) [] k e))
    ];
  }

  pub put_or_done :
      (msg : String) (d d' : Db) (k v : Bytes)
      → put_or md msg d k v ≡ formatted d'
      → db_put d k v ≡ some d'
  put_or_done msg d d' k v h = elim (Option-cases (db_put d k v)) [
    | inl z ↦ absurd (ground (arith, h, z))
    | inr (x, z) ↦ z ∙ ground (arith, h, z)
  ]

  put_channel-Filled :
      (channel n i : ℕ) (d d' : Db)
      → ((b : ℕ) → i ≤ b → b < i + n → b / p ≡ channel)
      → put_channel md channel n i d ≡ formatted d'
      → Filled d d' i (i + n)
  unfolding put_channel
  put_channel-Filled channel zero i d d' same h =
      let e : d ≡ d' = ground (arith, h) in
      subst (λ x. Filled d d' i x) (omega arith) (subst (λ x. Filled d x i i) e (Filled-refl d i))
  put_channel-Filled channel (suc n) i d d' same h =
      let (d₁, q, r) =
        >>--eq-formatted (put_or md "put block_key failed" d (block_key channel i) []) _ _ h in
      let stored = put_or_done "put block_key failed" d d₁ (block_key channel i) [] q in
      let first = put-Filled d d₁ i (
        subst (λ c. db_put d (block_key c i) [] ≡ some d₁)
          (sym (same i (omega arith) (omega arith))) stored) in
      let rest =
        put_channel-Filled channel n (i + 1) d₁ d'
          (λ b l u. same b (omega (arith, l)) (omega (arith, u))) r in
      subst (λ x. Filled d d' i x) (omega arith)
        (Filled-trans d d₁ d' i (i + 1) (i + 1 + n) (omega arith) first rest)

  in_channel : (channel i b : ℕ) → 0 < p → i ≡ channel * p → i ≤ b → b < i + p → b / p ≡ channel
  in_channel channel i b pos at l u =
      let split : b ≡ channel * p + (b - i) = omega (arith, at, l) in
      ap (λ x. x / p) split
      ∙ mul-add-div_right pos channel (b - i)
      ∙ omega (arith, div-eq_of_lt {n = b - i} {m = p} (omega (arith, l, u)))

  pub put_channels-Filled :
      (n channel i : ℕ) (d d' : Db)
      → 0 < p
      → i ≡ channel * p
      → put_channels md p n channel i d ≡ formatted d'
      → Filled d d' i (i + n * p)
  unfolding put_channels
  put_channels-Filled zero channel i d d' pos at h =
      let e : d ≡ d' = ground (arith, h) in
      subst (λ x. Filled d d' i x) (omega arith) (subst (λ x. Filled d x i i) e (Filled-refl d i))
  put_channels-Filled (suc n) channel i d d' pos at h =
      let (d₁, q, r) = >>--eq-formatted (put_channel md channel p i d) _ _ h in
      let first =
        put_channel-Filled channel p i d d₁ (λ b l u. in_channel channel i b pos at l u) q in
      let rest = put_channels-Filled n (channel + 1) (i + p) d₁ d' pos (omega (arith, at)) r in
      subst (λ x. Filled d d' i x) (omega arith)
        (Filled-trans d d₁ d' i (i + p) (i + p + n * p) (omega arith) first rest)
