-- ===== src/Scheduling/Callback/Numerals.antt =====
-- Decimal numerals as Python writes and reads them, for the callbacks of task_scheduling.py.
use foxhound.Prelude.{
  ℕ, zero, suc, ◌+◌, ◌-◌, ◌*◌, ◌/◌, ◌%◌, ◌≤◌, ◌<◌, ◌≡◌, refl, sym, ap, subst, ◌∙◌, true, false,
  Option, some, [], ◌∷◌, ◌++◌, All, ltb, ◌==◌, length, arith, Bool-cases, inl, inr,
}
use foxhound.Operation.{is_space}
use foxhound.Scheduling.Callback.{
  Text, digits, decimal, read_digits, lstrip, rstrip, rstrip_end, positive, positive_id,
  read_signed,
}

-- The code of an ASCII digit.
abbrev pub IsDigit : ℕ → Type 0
IsDigit c = (48 ≤ c) × (c ≤ 57)

All-append : (xs ys : Text) → All IsDigit xs → All IsDigit ys → All IsDigit (xs ++ ys)
All-append [] ys p q = q
All-append (x ∷ xs) ys (p, ps) q = (p, All-append xs ys ps q)

digits-last : (fuel n : ℕ) → n < 10 → digits (suc fuel) n ≡ (48 + n % 10) ∷ []
unfolding digits
digits-last fuel n low = (let e : ltb n 10 ≡ true = ground (arith, low) in rw (e, digits) refl)

digits-more :
    (fuel n : ℕ) → 10 ≤ n → digits (suc fuel) n ≡ digits fuel (n / 10) ++ (48 + n % 10) ∷ []
unfolding digits
digits-more fuel n high = let e : ltb n 10 ≡ false = ground (arith, high) in rw (e, digits) refl

last-IsDigit : (n : ℕ) → All IsDigit ((48 + n % 10) ∷ [])
last-IsDigit n = ((omega arith, omega arith), tt)

pub digits-IsDigit : (fuel n : ℕ) → All IsDigit (digits fuel n)
unfolding digits
digits-IsDigit zero n = tt
digits-IsDigit (suc fuel) n = elim (Bool-cases (ltb n 10)) [
  | inl e ↦ rw e (last-IsDigit n)
  | inr e ↦ rw e (
      All-append (digits fuel (n / 10)) ((48 + n % 10) ∷ []) (digits-IsDigit fuel (n / 10))
        (last-IsDigit n))
]

-- What a run of digits is worth, after a value that was read before it.
value : ℕ → Text → ℕ
value v [] = v
value v (c ∷ cs) = value (10 * v + (c - 48)) cs

value-append : (v c : ℕ) (xs : Text) → value v (xs ++ c ∷ []) ≡ 10 * value v xs + (c - 48)
unfolding value
value-append v c [] = refl
value-append v c (x ∷ xs) = value-append (10 * v + (x - 48)) c xs

value-last : (n : ℕ) → n < 10 → value 0 ((48 + n % 10) ∷ []) ≡ n
unfolding value
value-last n low = omega (arith, low)

-- With fuel above the number, its digits are worth the number.
value-digits : (fuel n : ℕ) → n < fuel → value 0 (digits fuel n) ≡ n
value-digits zero n h = absurd (omega (arith, h))
value-digits (suc fuel) n h = elim (Bool-cases (ltb n 10)) [
  | inl e ↦
      let low : n < 10 = ground (arith, e) in
      ap (value 0) (digits-last fuel n low) ∙ value-last n low
  | inr e ↦
      let high : 10 ≤ n = ground (arith, e) in
      let rest = value-digits fuel (n / 10) (omega (arith, h, high)) in
      let whole = value-append 0 (48 + n % 10) (digits fuel (n / 10)) in
      ap (value 0) (digits-more fuel n high)
      ∙ whole
      ∙ (ap (λ v. 10 * v + (48 + n % 10 - 48)) rest ∙ omega arith)
]

abbrev pub tens : ℕ → ℕ
tens zero = 1
tens (suc k) = 10 * tens k

length-append : (xs : Text) (c : ℕ) → length (xs ++ c ∷ []) ≡ length xs + 1
length-append [] c = refl
length-append (x ∷ xs) c = omega (arith, length-append xs c)

-- A number below a power of ten has as many digits at most.
pub length-digits : (fuel k n : ℕ) → n < tens (suc k) → length (digits fuel n) ≤ suc k
unfolding digits
length-digits zero k n h = omega arith
length-digits (suc fuel) zero n h =
    let low : n < 10 = omega (arith, h) in rw (digits-last fuel n low) (omega arith)
length-digits (suc fuel) (suc k) n h = elim (Bool-cases (ltb n 10)) [
  | inl e ↦ rw e (omega arith)
  | inr e ↦
      let rest = length-digits fuel k (n / 10) (omega (arith, h)) in
      let one = length-append (digits fuel (n / 10)) (48 + n % 10) in
      rw e (omega (arith, rest, one))
]

-- A digit is none of the spaces.
is_space-IsDigit : (c : ℕ) → IsDigit c → is_space c ≡ false
unfolding is_space
is_space-IsDigit c (low, high) = ground (arith, low, high)

lstrip-digits : (xs : Text) → All IsDigit xs → lstrip xs ≡ xs
unfolding lstrip
lstrip-digits [] h = refl
lstrip-digits (x ∷ xs) (d, ds) = rw (is_space-IsDigit x d) refl

rstrip-digits : (xs : Text) → All IsDigit xs → rstrip xs ≡ xs
unfolding rstrip rstrip_end
rstrip-digits [] h = refl
rstrip-digits (x ∷ []) (d, ds) = rw (is_space-IsDigit x d) refl
rstrip-digits (x ∷ y ∷ ys) (d, ds) = rw (rstrip-digits (y ∷ ys) ds) refl

digits-nonempty : (fuel n : ℕ) → (c : ℕ) × (cs : Text) × (digits (suc fuel) n ≡ c ∷ cs)
digits-nonempty fuel n = elim (Bool-cases (ltb n 10)) [
  | inl e ↦ (48 + n % 10, [], digits-last fuel n (ground (arith, e)))
  | inr e ↦
      let (c, cs, z) = append-nonempty (digits fuel (n / 10)) (48 + n % 10) in
      (c, cs, digits-more fuel n (ground (arith, e)) ∙ z)
]
  where
    append-nonempty : (xs : Text) (d : ℕ) → (c : ℕ) × (cs : Text) × (xs ++ d ∷ [] ≡ c ∷ cs)
    append-nonempty [] d = (d, [], refl)
    append-nonempty (x ∷ xs) d = (x, xs ++ d ∷ [], refl)

module _ (digit_value : ℕ → Option ℕ)
    (ascii : (c : ℕ) → IsDigit c → digit_value c ≡ some (c - 48)) where
  read_digits-value :
      (v : ℕ) (xs : Text) → All IsDigit xs → read_digits digit_value v true xs ≡ some (value v xs)
  unfolding read_digits value
  read_digits-value v [] h = refl
  read_digits-value v (c ∷ cs) (d, ds) =
      rw (ascii c d, read_digits) (read_digits-value (10 * v + (c - 48)) cs ds)

  read_signed-digits :
      (c : ℕ) (cs : Text)
      → All IsDigit (c ∷ cs)
      → read_signed digit_value (c ∷ cs) ≡ some (value 0 (c ∷ cs))
  unfolding read_signed read_digits value
  read_signed-digits c cs (d, ds) =
      let plus : (c == 43) ≡ false = ground (arith, d) in
      let minus : (c == 45) ≡ false = ground (arith, d) in
      rw (plus, minus, ascii c d, read_digits) (read_digits-value (10 * 0 + (c - 48)) cs ds)

  -- Python reads back the positive number that it wrote.
  pub positive_id-decimal : (n : ℕ) → 1 ≤ n → positive_id digit_value (decimal n) ≡ some n
  unfolding positive_id positive
  positive_id-decimal zero h = absurd (omega (arith, h))
  positive_id-decimal (suc n) h =
      let m = suc n in
      let (c, cs, shape) = digits-nonempty m m in
      let ds = digits-IsDigit (suc m) m in
      let same = value-digits (suc m) m (omega arith) in
      let read = read_signed-digits c cs (subst (All IsDigit) shape ds) in
      ap (λ t. positive (read_signed digit_value (rstrip t))) (lstrip-digits (decimal m) ds)
      ∙ ap (λ t. positive (read_signed digit_value t)) (rstrip-digits (decimal m) ds ∙ shape)
      ∙ ap positive (read ∙ ap some (sym (ap (value 0) shape) ∙ same))
