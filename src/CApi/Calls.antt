-- ===== src/CApi/Calls.antt =====
-- Calls through the C interface (src/kvcache_c_api.cpp).
use Prim.Native.String.{String}
use kvcache.Base.{
  ℕ, ◌<◌, ◌≤◌, ◌≡◌, ◌⊎◌, ◌↔◌, ◌∙◌, refl, sym, ap, Bytes, Bool, Bool-cases, true, false, Option,
  Option-cases, none, some, arith, ltb, if◌then◌else◌, length, inl, inr, bytes_eq, not,
}
use kvcache.Base.Int.{pos, negsuc}
use kvcache.Status.{Status, is_ok, ok_status, not_found_status, buffer_too_small_status}
use kvcache.State.{
  Platform, Config, Cache, Outcome, done, throws, done_injective, ◌>>=◌, >>=-eq-done,
}
use kvcache.Index.{IndexEntry, get_index_entry}
use kvcache.Slot.{key, value}
use kvcache.Api.{fetch, get_slice, get_into, put}
use kvcache.Api.Running.{Running}
use kvcache.Api.Puts.{put-Puts}
use kvcache.CApi.{
  Reply, answer, catching, kvcache_get, kvcache_put, int_of_size, refusal, set_error,
  kvcache_options_set_slab_mem_budget, kvcache_options_set_index_mem_budget,
  kvcache_options_set_index_table_size,
}
use kvcache.Options.{Floats, Options}

int_of_size_exact : (n : ℕ) → (int_of_size n ≡ pos n) ↔ (n < 2147483648)
unfolding int_of_size
int_of_size_exact n = (λ e. grind (arith, e), λ h. ground arith)

module _ (fl : Floats) (o : Options fl) (n : ℕ) where
  -- The setters of the two budgets and of the size of the index table give their option the number that
  -- they are called with, and leave the other options, exactly where the number is below 2 ^ 31.
  pub setters_exact :
      ((kvcache_options_set_slab_mem_budget fl o n ≡ record o { slab_mem_budget = pos n })
        ↔ (n < 2147483648))
      × ((kvcache_options_set_index_mem_budget fl o n ≡ record o { index_mem_budget = pos n })
          ↔ (n < 2147483648))
      × ((kvcache_options_set_index_table_size fl o n ≡ record o { index_table_size = pos n })
          ↔ (n < 2147483648))
  unfolding kvcache_options_set_slab_mem_budget kvcache_options_set_index_mem_budget
      kvcache_options_set_index_table_size
  setters_exact =
      let (to, from) = int_of_size_exact n in
      (
        (
          λ e. to (ap (λ (x : Options fl). x.slab_mem_budget) e),
          λ h. ap (λ b. record o { slab_mem_budget = b }) (from h),
        ),
        (
          λ e. to (ap (λ (x : Options fl). x.index_mem_budget) e),
          λ h. ap (λ b. record o { index_mem_budget = b }) (from h),
        ),
        (
          λ e. to (ap (λ (x : Options fl). x.index_table_size) e),
          λ h. ap (λ b. record o { index_table_size = b }) (from h),
        ),
      )

catching-cases :
    {A B : Type 0} (o : Outcome A) (f : A → B) (b r : B)
    → catching o f b ≡ done r
    → ((a : A) × (o ≡ done a) × (f a ≡ r)) ⊎ ((o ≡ throws) × (b ≡ r))
unfolding catching
catching-cases (done a) f b r h = inl (a, refl, done_injective h)
catching-cases throws f b r h = inr (refl, done_injective h)
catching-cases _ f b r h = absurd (cc)

answer-ok :
    (errptr : Bool) (st : Status) (v : Option Bytes)
    → (answer errptr st v).code ≡ pos 0
    → is_ok st ≡ true
unfolding answer
answer-ok errptr st v h = elim (Bool-cases (is_ok st)) [
  | inl y ↦ y
  | inr n ↦ absurd (ground (arith, n, h))
]

module _ (pf : Platform) (cfg : Config) where
  open pf use {Disk}

  get_stored :
      (c : Cache Disk) (k v : Bytes) (buf_len : ℕ) (errptr : Bool) (what : String)
      → get_slice pf cfg c k ≡ done (ok_status, some v)
      → length v ≤ buf_len
      → kvcache_get pf cfg c k buf_len errptr what
        ≡ done (record { code = pos 0; error = none; value = some v })
  unfolding kvcache_get get_into answer is_ok catching
  get_stored c k v buf_len errptr what read fits =
      let small : ltb buf_len (length v) ≡ false = ground (arith, fits) in rw read (rw small refl)

  -- Where `kvcache_put` gave 0 on a running cache, the invariant holds afterwards, and `kvcache_get` of
  -- the key with a buffer that is long enough gives 0, no error and the value.
  pub kvcache_get-kvcache_put :
      (gc_fuel flush_fuel fuel buf_len : ℕ) (c : Cache Disk) (after : Option (Cache Disk))
      (k v : Bytes) (errptr : Bool) (what : String) (r : Reply)
      → Running pf cfg c
      → kvcache_put pf cfg gc_fuel flush_fuel fuel c k v errptr what ≡ done (r, after)
      → r.code ≡ pos 0
      → length v ≤ buf_len
      → (c' : Cache Disk) × (after ≡ some c')
        × Running pf cfg c'
        × (kvcache_get pf cfg c' k buf_len errptr what
            ≡ done (record { code = pos 0; error = none; value = some v }))
  unfolding kvcache_put kvcache_get
  kvcache_get-kvcache_put gc_fuel flush_fuel fuel buf_len c after k v errptr what r run h zero_code
        fits =
      elim (catching-cases (put pf cfg gc_fuel flush_fuel fuel c k v) _ _ _ h) [
        | inr (_, e) ↦
            let minus : r.code ≡ negsuc 0 =
              unfold refusal in sym (ap (λ (x : Reply × Option (Cache Disk)). x.0.code) e) in
            absurd (cc (minus, zero_code))
        | inl ((st, c'), p, e) ↦
            let f = put-Puts pf cfg gc_fuel flush_fuel fuel c c' k v st run p in
            let ok =
              answer-ok errptr st none
                (ap (λ (x : Reply × Option (Cache Disk)). x.0.code) e ∙ zero_code) in
            (
              c',
              sym (ap (λ (x : Reply × Option (Cache Disk)). x.1) e),
              f.running,
              get_stored c' k v buf_len errptr what (f.hit ok) fits,
            )
      ]

  opened :
      (c : Cache Disk) (k : Bytes) (e : IndexEntry)
      → get_index_entry pf.hashing c.index k ≡ some e
      → get_slice pf cfg c k ≡ (
          fetch pf cfg c e >>= λ slot.
          if not (bytes_eq k (key slot))
          then done (not_found_status "Key not found", none)
          else done (ok_status, some (value slot)))
  unfolding get_slice
  opened c k e z = rw (z, get_slice) refl

  get_slice-cases :
      (c : Cache Disk) (k : Bytes) (st : Status) (x : Option Bytes)
      → get_slice pf cfg c k ≡ done (st, x)
      → ((st ≡ not_found_status "Key not found") × (x ≡ none))
        ⊎ ((v : Bytes) × (st ≡ ok_status) × (x ≡ some v))
  unfolding get_slice
  get_slice-cases c k st x h = elim (Option-cases (get_index_entry pf.hashing c.index k)) [
    | inl z ↦ inl (ground (arith, z, h))
    | inr (e, z) ↦
        let (slot, p, q) =
          >>=-eq-done (fetch pf cfg c e) _ {b = (st, x)} (sym (opened c k e z) ∙ h) in
        elim (Bool-cases (bytes_eq k (key slot))) [
          | inl y ↦
              let at : (st ≡ ok_status) × (x ≡ some (value slot)) = ground (arith, y, q) in
              inr (value slot, at.0, at.1)
          | inr n ↦ inl (ground (arith, n, q))
        ]
  ]

  buffered-cases :
      (c : Cache Disk) (k : Bytes) (buf_len : ℕ) (got st : Status) (y x : Option Bytes)
      → get_slice pf cfg c k ≡ done (got, y)
      → (elim y as (λ _. Outcome (Status × Option Bytes)) [
        | none ↦ done (got, none)
        | some v ↦
            if ltb buf_len (length v)
            then done (buffer_too_small_status "Buffer is too small", none)
            else done (ok_status, some v)
      ])
        ≡ done (st, x)
      → ((v : Bytes) × (get_slice pf cfg c k ≡ done (ok_status, some v))
          × (length v ≤ buf_len)
          × (st ≡ ok_status)
          × (x ≡ some v))
        ⊎ ((is_ok st ≡ false) × (x ≡ none))
  unfolding is_ok
  buffered-cases c k buf_len got st none x p q = elim (get_slice-cases c k got none p) [
    | inl (missing, z) ↦ inr (ground (arith, missing, q))
    | inr (v, ok, z) ↦ absurd (cc z)
  ]
  buffered-cases c k buf_len got st (some v) x p q = elim (get_slice-cases c k got (some v) p) [
    | inl (missing, z) ↦ absurd (cc z)
    | inr (w, ok, z) ↦ elim (Bool-cases (ltb buf_len (length v))) [
      | inl small ↦ inr (ground (arith, small, q))
      | inr fits ↦
          let at : (st ≡ ok_status) × (x ≡ some v) = ground (arith, fits, q) in
          inl (v, p ∙ ap (λ (z : Status). done (z, some v)) ok, ground (arith, fits), at.0, at.1)
    ]
  ]

  get_into-cases :
      (c : Cache Disk) (k : Bytes) (buf_len : ℕ) (st : Status) (x : Option Bytes)
      → get_into pf cfg c k buf_len ≡ done (st, x)
      → ((v : Bytes) × (get_slice pf cfg c k ≡ done (ok_status, some v))
          × (length v ≤ buf_len)
          × (st ≡ ok_status)
          × (x ≡ some v))
        ⊎ ((is_ok st ≡ false) × (x ≡ none))
  unfolding get_into
  get_into-cases c k buf_len st x h =
      let ((got, y), p, q) = >>=-eq-done (get_slice pf cfg c k) _ h in
      buffered-cases c k buf_len got st y x p q

  -- Why a buffered read gives no value: it threw with the text `what`, or returned a status that is not
  -- OK, whose text is `msg`.
  abbrev pub Fails : Cache Disk → Bytes → ℕ → String → String → Type 0
  Fails c k buf_len what msg =
      ((get_into pf cfg c k buf_len ≡ throws) × (msg ≡ what))
      ⊎ ((st : Status) × (get_into pf cfg c k buf_len ≡ done (st, none))
          × (is_ok st ≡ false)
          × (st.msg ≡ msg))

  -- What `kvcache_get` returned is one of two replies: 0, no error and the value that is stored, which
  -- fits the buffer; or -1 and nothing written, where the read threw or gave a status that is not OK: the
  -- error is the text of that exception or status where the caller gave a pointer for it, and none where
  -- not.
  pub kvcache_get-replies :
      (c : Cache Disk) (k : Bytes) (buf_len : ℕ) (errptr : Bool) (what : String) (r : Reply)
      → kvcache_get pf cfg c k buf_len errptr what ≡ done r
      → ((v : Bytes) × (get_slice pf cfg c k ≡ done (ok_status, some v))
          × (length v ≤ buf_len)
          × (r ≡ record { code = pos 0; error = none; value = some v }))
        ⊎ ((msg : String) × Fails c k buf_len what msg
            × (r ≡ record {
              code = negsuc 0;
              error = if errptr then some msg else none;
              value = none;
            }))
  unfolding kvcache_get
  kvcache_get-replies c k buf_len errptr what r h =
      elim (catching-cases (get_into pf cfg c k buf_len) _ _ _ h) [
        | inr (thrown, e) ↦ inr (what, inl (thrown, refl), sym e ∙ unfold refusal set_error in refl)
        | inl ((st, written), p, e) ↦ elim (get_into-cases c k buf_len st written p) [
          | inl (v, read, fits, ok, stored) ↦
              inl (v, read, fits, sym e ∙ unfold answer is_ok in rw (ok, stored) refl)
          | inr (bad, nothing) ↦ inr (
            st.msg,
            inr (st, p ∙ ap (λ x. done (st, x)) nothing, bad, refl),
            sym e ∙ unfold answer set_error in rw (bad, nothing) refl,
          )
        ]
      ]
