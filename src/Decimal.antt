-- ===== src/Decimal.antt =====
-- Go's strconv, as the handlers use it: FormatUint and ParseUint in base 10. A text is the list of its
-- bytes.
use stellar_rpc.Prelude.{
  ℕ, zero, suc, ◌+◌, ◌-◌, ◌*◌, ◌/◌, ◌%◌, ◌≤◌, ◌<◌, ◌≡◌, refl, ◌&&◌, Option, none, some, List, [],
  ◌∷◌, ltb, leb, if◌then◌else◌, arith, ap, ◌∙◌, Bool-cases, inl, inr, ltb→lt, ltb→le, le→leb,
}

abbrev pub Text : Type 0
Text = List ℕ

-- The digits of n before the rest; one unit of fuel for a digit.
pub digits : ℕ → ℕ → Text → Text
digits zero n rest = rest
digits (suc fuel) n rest =
    let longer = digits fuel (n / 10) ((48 + n % 10) ∷ rest) in
    if ltb n 10 then (48 + n) ∷ rest else longer

-- `strconv.FormatUint(n, 10)`: 20 digits are enough below 2^64.
unfoldable pub format_uint : ℕ → Text
unfolding digits
format_uint n = digits 20 n []

pub parse_digits : ℕ → ℕ → Text → Option ℕ
parse_digits max_val n [] = some n
parse_digits max_val n (c ∷ cs) =
    let rest = parse_digits max_val (n * 10 + (c - 48)) cs in
    if leb 48 c && leb c 57 then if leb (n * 10 + (c - 48)) max_val then rest else none else none

-- `strconv.ParseUint(s, 10, bits)`, by the greatest value of that size; `none` is an error.
unfoldable pub parse_uint : ℕ → Text → Option ℕ
unfolding parse_digits
parse_uint max_val [] = none
parse_uint max_val (c ∷ cs) = parse_digits max_val 0 (c ∷ cs)

abbrev power_of_ten : ℕ → ℕ
power_of_ten zero = 1
power_of_ten (suc k) = 10 * power_of_ten k

parse_digit :
    (max_val n d : ℕ) (rest : Text)
    → d < 10
    → n * 10 + d ≤ max_val
    → parse_digits max_val n ((48 + d) ∷ rest) ≡ parse_digits max_val (n * 10 + d) rest
unfolding parse_digits
parse_digit max_val n d rest h fits =
    let same : n * 10 + (48 + d - 48) ≡ n * 10 + d = omega arith in
    rw
      (
        le→leb 48 (48 + d) (omega arith),
        le→leb (48 + d) 57 (omega arith),
        same,
        le→leb (n * 10 + d) max_val fits,
      )
      refl

parse_digits-digits :
    (fuel n max_val : ℕ) (rest : Text)
    → n < power_of_ten fuel
    → n ≤ max_val
    → parse_digits max_val 0 (digits fuel n rest) ≡ parse_digits max_val n rest
unfolding digits
parse_digits-digits zero n max_val rest h fits = ap (λ k. parse_digits max_val k rest) (omega arith)
parse_digits-digits (suc fuel) n max_val rest h fits = elim (Bool-cases (ltb n 10)) [
  | inl small ↦
      let lt = ltb→lt _ _ small in
      rw (small) (
        parse_digit max_val 0 n rest lt (omega arith)
        ∙ ap (λ k. parse_digits max_val k rest) (omega arith))
  | inr large ↦
      let ge = ltb→le _ _ large in
      rw (large) (
        parse_digits-digits fuel (n / 10) max_val ((48 + n % 10) ∷ rest) (omega arith) (omega arith)
        ∙ parse_digit max_val (n / 10) (n % 10) rest (omega arith) (omega arith)
        ∙ ap (λ k. parse_digits max_val k rest) (omega arith))
]

digits-cons :
    (fuel n : ℕ) (rest : Text) → (c : ℕ) × (cs : Text) × (digits (suc fuel) n rest ≡ c ∷ cs)
unfolding digits
digits-cons zero n rest = elim (Bool-cases (ltb n 10)) [
  | inl small ↦ (48 + n, rest, rw (small) refl)
  | inr large ↦ (48 + n % 10, rest, rw (large) refl)
]
digits-cons (suc fuel) n rest = elim (Bool-cases (ltb n 10)) [
  | inl small ↦ (48 + n, rest, rw (small) refl)
  | inr large ↦
      let (c, cs, e) = digits-cons fuel (n / 10) ((48 + n % 10) ∷ rest) in (c, cs, rw (large) e)
]

parse_uint-cons :
    (max_val : ℕ) (t : Text) (c : ℕ) (cs : Text)
    → t ≡ c ∷ cs
    → parse_uint max_val t ≡ parse_digits max_val 0 t
unfolding parse_uint
parse_uint-cons max_val [] c cs e = absurd (clash e)
  where
    clash : ◌≡◌ {A = Text} [] (c ∷ cs) → ⊥
    clash e = cc
parse_uint-cons max_val (x ∷ xs) c cs e = refl

-- What `FormatUint` writes is read back by `ParseUint` of every size that the number fits.
pub parse_uint-format_uint :
    (n max_val : ℕ)
    → n ≤ max_val
    → max_val < 18446744073709551616
    → parse_uint max_val (format_uint n) ≡ some n
unfolding format_uint parse_digits
parse_uint-format_uint n max_val fits small =
    let (c, cs, e) = digits-cons 19 n [] in
    parse_uint-cons max_val (digits 20 n []) c cs e
    ∙ parse_digits-digits 20 n max_val [] (omega arith) fits
