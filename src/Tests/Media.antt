-- ===== src/Tests/Media.antt =====
-- A database in memory and a device in memory, as what an SSD is built on.
use kvcache.Base.{
  ℕ, zero, suc, ◌+◌, ◌≤◌, ◌<◌, ◌≡◌, ◌⊎◌, ◌∙◌, refl, sym, ap, Bool-cases, true, false, Bytes,
  bytes_eq, bytes_eq_iff, List, [], ◌∷◌, Option, none, some, arith, length, ◌&&◌, if◌then◌else◌,
  update, inl, inr, subst,
}
use mathlib.Core.Option.{some-injective}
use kvcache.Ssd.{Medium, starts_with, leading, count_key, is_some}

abbrev Pairs : Type 0
Pairs = List (Bytes × Bytes)

abbrev find : Pairs → Bytes → Option Bytes
find [] k = none
find ((q, v) ∷ d) k = let rest = find d k in if bytes_eq q k then some v else rest

abbrev without : Bytes → List Bytes → List Bytes
without k [] = []
without k (q ∷ qs) = let rest = without k qs in if bytes_eq k q then rest else q ∷ rest

abbrev seek : Pairs → Bytes → List Bytes
seek [] p = []
seek ((k, v) ∷ d) p = let rest = seek d p in if starts_with k p then k ∷ without k rest else rest

bytes_eq_apart : (k q x : Bytes) → k ≡ q → bytes_eq k x ≡ false → bytes_eq x q ≡ false
bytes_eq_apart k q x same n = elim (Bool-cases (bytes_eq x q)) [
  | inr m ↦ m
  | inl y ↦
      let at : k ≡ x = same ∙ sym ((bytes_eq_iff x q).0 y) in
      absurd (cc ((bytes_eq_iff k x).1 at, n))
]

count-without :
    (k q : Bytes) (xs : List Bytes)
    → count_key q (without k xs) ≡ (if bytes_eq k q then 0 else count_key q xs)
unfolding count_key
count-without k q [] = ground arith
count-without k q (x ∷ xs) = elim (Bool-cases (bytes_eq k x)) [
  | inl y ↦
      let same : k ≡ x = (bytes_eq_iff k x).0 y in
      rw y (
        count-without k q xs
        ∙ subst
            (λ z.
              (if bytes_eq k q then 0 else count_key q xs)
              ≡ (if bytes_eq k q then 0 else (if bytes_eq z q then 1 else 0) + count_key q xs))
            same (ground arith))
  | inr n ↦
      rw (n, count-without k q xs)
        (elim (Bool-cases (bytes_eq k q)) [
          | inl y ↦
              let same : k ≡ q = (bytes_eq_iff k q).0 y in
              let apart : bytes_eq x q ≡ false = bytes_eq_apart k q x same n in rw (y, apart) refl
          | inr m ↦ rw m refl
        ])
]

pub count-seek :
    (d : Pairs) (p q : Bytes)
    → count_key q (seek d p) ≡ (if starts_with q p && is_some (find d q) then 1 else 0)
unfolding count_key
count-seek [] p q = ground arith
count-seek ((k, v) ∷ d) p q = elim (Bool-cases (bytes_eq k q)) [
  | inl y ↦
      let same : k ≡ q = (bytes_eq_iff k q).0 y in
      elim (Bool-cases (starts_with k p)) [
        | inl z ↦
            let at : starts_with q p ≡ true = subst (λ x. starts_with x p ≡ true) same z in
            rw (z, y, at) (rw (count-without k q (seek d p), y) refl)
        | inr z ↦
            let at : starts_with q p ≡ false = subst (λ x. starts_with x p ≡ false) same z in
            rw (z, y, at) (count-seek d p q ∙ rw at refl)
      ]
  | inr n ↦ elim (Bool-cases (starts_with k p)) [
    | inl z ↦ rw (z, n) (rw (count-without k q (seek d p), n) (omega (arith, count-seek d p q)))
    | inr z ↦ rw (z, n) (count-seek d p q)
  ]
]

abbrev pub AllStart : Bytes → List Bytes → Type 0
AllStart p [] = Unit
AllStart p (x ∷ xs) = (starts_with x p ≡ true) × AllStart p xs

pub leading-AllStart : (p : Bytes) (xs : List Bytes) → AllStart p xs → leading p xs ≡ xs
unfolding leading
leading-AllStart p [] h = refl
leading-AllStart p (x ∷ xs) (h, hs) = rw (h, leading-AllStart p xs hs) refl

without-AllStart : (p k : Bytes) (xs : List Bytes) → AllStart p xs → AllStart p (without k xs)
without-AllStart p k [] h = h
without-AllStart p k (x ∷ xs) (h, hs) = elim (Bool-cases (bytes_eq k x)) [
  | inl y ↦ rw y (without-AllStart p k xs hs)
  | inr n ↦ rw n (h, without-AllStart p k xs hs)
]

pub seek-AllStart : (d : Pairs) (p : Bytes) → AllStart p (seek d p)
seek-AllStart [] p = tt
seek-AllStart ((k, v) ∷ d) p = elim (Bool-cases (starts_with k p)) [
  | inl y ↦ rw y (y, without-AllStart p k (seek d p) (seek-AllStart d p))
  | inr n ↦ rw n (seek-AllStart d p)
]

abbrev read_bytes : (ℕ → ℕ) → ℕ → ℕ → Bytes
read_bytes dev zero o = []
read_bytes dev (suc n) o = dev o ∷ read_bytes dev n (o + 1)

abbrev pub write_bytes : (ℕ → ℕ) → ℕ → Bytes → ℕ → ℕ
write_bytes dev o [] = dev
write_bytes dev o (x ∷ xs) = update (write_bytes dev (o + 1) xs) o x

pub write_bytes_apart :
    (dev : ℕ → ℕ) (o : ℕ) (xs : Bytes) (i : ℕ)
    → (o + length xs ≤ i) ⊎ (i < o)
    → write_bytes dev o xs i ≡ dev i
write_bytes_apart dev o [] i h = refl
write_bytes_apart dev o (x ∷ xs) i (inl h) =
    ground (arith, h, write_bytes_apart dev (o + 1) xs i (inl (omega (arith, h))))
write_bytes_apart dev o (x ∷ xs) i (inr h) =
    ground (arith, h, write_bytes_apart dev (o + 1) xs i (inr (omega (arith, h))))

pub read_bytes_same :
    (dev dev' : ℕ → ℕ) (n o : ℕ)
    → ((i : ℕ) → o ≤ i → i < o + n → dev' i ≡ dev i)
    → read_bytes dev' n o ≡ read_bytes dev n o
read_bytes_same dev dev' zero o same = refl
read_bytes_same dev dev' (suc n) o same =
    rw
      (
        same o (omega arith) (omega arith),
        read_bytes_same dev dev' n (o + 1) (λ i l u. same i (omega (arith, l)) (omega (arith, u))),
      )
      refl

pub read-write_bytes :
    (dev : ℕ → ℕ) (o : ℕ) (xs : Bytes) → read_bytes (write_bytes dev o xs) (length xs) o ≡ xs
read-write_bytes dev o [] = refl
read-write_bytes dev o (x ∷ xs) =
    rw
      (
        read_bytes_same (write_bytes dev (o + 1) xs) (write_bytes dev o (x ∷ xs)) (length xs)
            (o + 1) (λ i l u. ground (arith, l)),
        read-write_bytes dev (o + 1) xs,
      )
      (ground arith)

abbrev pub media : Medium
media = record {
  Db = Pairs;
  db_get = find;
  db_put = λ d k v. some ((k, v) ∷ d);
  db_seek = seek;
  Dev = ℕ → ℕ;
  pread = λ dev o n. some (read_bytes dev n o);
  pwrite = λ dev o v. some (write_bytes dev o v);
  get-put = λ d d' k v q e. ap (λ x. find x q) (sym (some-injective _ _ e));
  pread-pwrite = λ d d' o v e.
      ap (λ x. some (read_bytes x (length v) o)) (sym (some-injective _ _ e))
      ∙ ap some (read-write_bytes d o v);
  pread-pwrite_apart = λ d d' o q n v e apart.
      ap (λ x. some (read_bytes x n q)) (sym (some-injective _ _ e))
      ∙ ap some (
          read_bytes_same d (write_bytes d o v) n q (λ i l u.
            write_bytes_apart d o v i (elim apart [
              | inl h ↦ inl (omega (arith, h, l))
              | inr h ↦ inr (omega (arith, h, u))
            ])));
  seek-prefix = λ d p k.
      ap (count_key k) (leading-AllStart p (seek d p) (seek-AllStart d p)) ∙ count-seek d p k;
}
