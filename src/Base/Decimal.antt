-- ===== src/Base/Decimal.antt =====
-- Numbers as decimal text (`std::format`, `std::to_string`) and back (`std::stoi`).
use kvcache.Base.{
  ℕ, zero, suc, ◌+◌, ◌-◌, ◌*◌, ◌/◌, ◌%◌, ◌<◌, ◌≡◌, ◌∙◌, refl, sym, ap, subst, Bool, true, ◌&&◌,
  Bytes, [], ◌∷◌, ◌++◌, Option, none, some, arith, ltb, leb, if◌then◌else◌, Bool-cases, inl, inr,
}

-- The digits of `n`, on fuel that is more than their number.
unfoldable pub digits : ℕ → ℕ → Bytes
digits zero n = []
digits (suc fuel) n =
    let above = digits fuel (n / 10) in
    if ltb n 10 then (48 + n) ∷ [] else above ++ (48 + n % 10) ∷ []

unfoldable pub decimal : ℕ → Bytes
decimal n = digits (suc n) n

abbrev pub is_digit : ℕ → Bool
is_digit c = leb 48 c && leb c 57

-- The digits that the text begins with, after those that gave `acc`.
unfoldable pub leading_number : ℕ → Bytes → ℕ
leading_number acc [] = acc
leading_number acc (c ∷ cs) =
    let v = leading_number (acc * 10 + (c - 48)) cs in if is_digit c then v else acc

-- `std::stoi` on a text that begins with no space and no sign: `none` is an exception, for a text with
-- no digit in front or a number that is no `int`.
unfoldable pub stoi : Bytes → Option ℕ
stoi [] = none
stoi (c ∷ cs) =
    let v = leading_number 0 (c ∷ cs) in if is_digit c && ltb v 2147483648 then some v else none

abbrev pub AllDigits : Bytes → Type 0
AllDigits [] = Unit {0}
AllDigits (c ∷ cs) = (is_digit c ≡ true) × AllDigits cs

AllDigits-append : (xs ys : Bytes) → AllDigits xs → AllDigits ys → AllDigits (xs ++ ys)
AllDigits-append [] ys p q = q
AllDigits-append (x ∷ xs) ys (p, r) q = (p, AllDigits-append xs ys r q)

digits-AllDigits : (fuel n : ℕ) → AllDigits (digits fuel n)
unfolding digits
digits-AllDigits zero n = tt
digits-AllDigits (suc fuel) n = elim (Bool-cases (ltb n 10)) [
  | inl y ↦ rw y (ground arith, tt)
  | inr z ↦ rw z (AllDigits-append _ _ (digits-AllDigits fuel (n / 10)) (ground arith, tt))
]

pub decimal-AllDigits : (n : ℕ) → AllDigits (decimal n)
unfolding decimal
decimal-AllDigits n = digits-AllDigits (suc n) n

leading_number-append :
    (acc : ℕ) (xs ys : Bytes)
    → AllDigits xs
    → leading_number acc (xs ++ ys) ≡ leading_number (leading_number acc xs) ys
unfolding leading_number
leading_number-append acc [] ys p = refl
leading_number-append acc (x ∷ xs) ys (p, q) =
    rw p (leading_number-append (acc * 10 + (x - 48)) xs ys q)

leading_number-digits : (fuel n : ℕ) → n < fuel → leading_number 0 (digits fuel n) ≡ n
unfolding digits
leading_number-digits zero n h = absurd (omega (arith, h))
leading_number-digits (suc fuel) n h = elim (Bool-cases (ltb n 10)) [
  | inl y ↦ rw y (unfold leading_number in ground arith)
  | inr z ↦ rw z (
      leading_number-append 0 (digits fuel (n / 10)) _ (digits-AllDigits fuel (n / 10))
      ∙ ap (λ v. leading_number v ((48 + n % 10) ∷ []))
          (leading_number-digits fuel (n / 10) (ground (arith, h, z)))
      ∙ unfold leading_number in ground arith)
]

pub leading_number-decimal : (n : ℕ) → leading_number 0 (decimal n) ≡ n
unfolding decimal
leading_number-decimal n = leading_number-digits (suc n) n (omega arith)

-- A decimal text is told by its number.
pub decimal_injective : (a b : ℕ) → decimal a ≡ decimal b → a ≡ b
decimal_injective a b e =
    sym (leading_number-decimal a) ∙ ap (leading_number 0) e ∙ leading_number-decimal b

snoc_head : (xs : Bytes) (x : ℕ) → (c : ℕ) × (cs : Bytes) × (xs ++ x ∷ [] ≡ c ∷ cs)
snoc_head [] x = (x, [], refl)
snoc_head (y ∷ ys) x = (y, ys ++ x ∷ [], refl)

decimal_head : (n : ℕ) → (c : ℕ) × (cs : Bytes) × (decimal n ≡ c ∷ cs)
unfolding decimal digits
decimal_head n = elim (Bool-cases (ltb n 10)) [
  | inl y ↦ (48 + n, [], rw y refl)
  | inr z ↦ let (c, cs, e) = snoc_head (digits n (n / 10)) (48 + n % 10) in (c, cs, rw z e)
]

-- A printed `int` is read back.
pub stoi-decimal : (n : ℕ) → n < 2147483648 → stoi (decimal n) ≡ some n
unfolding stoi
stoi-decimal n h =
    let (c, cs, e) = decimal_head n in
    let (first, rest) = subst AllDigits e (decimal-AllDigits n) in
    let v : leading_number 0 (c ∷ cs) ≡ n =
      ap (leading_number 0) (sym e) ∙ leading_number-decimal n in
    rw e (ground (arith, first, v, h))
