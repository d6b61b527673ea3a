-- ===== src/Prelude/Decimal.antt =====
-- Decimal numbers as Go prints (`%d`) and parses (strconv.Atoi) an int of 64 bits.
use Prim.Native.Nat.{ℕ, zero, suc, ◌+◌, ◌-◌, ◌*◌, ◌/◌, ◌%◌, ◌^◌, ◌≤◌, ◌<◌}
use mathlib.Core.Path.{◌≡◌, refl, sym, ap, ◌∙◌}
use mathlib.Core.Logic.{◌≢◌, inl, inr}
use mathlib.Core.Bool.{Bool, true, false, ◌&&◌}
use mathlib.Core.Option.{Option, none, some}
use mathlib.Core.List.{[], ◌∷◌, ◌++◌}
use native.Mathlib.Omega.{arith}
use pgstream.Prelude.Tests.{ltb, leb, ◌==◌, if◌then◌else◌, Bool-cases}
use pgstream.Prelude.Lists.{All, All-append}
use pgstream.Prelude.Text.{Str, is_empty}
use pgstream.Prelude.Int.{ℤ, pos, negsuc}
use pgstream.Prelude.Strings.{Without}

-- The digits of n, on fuel above n.
digits : ℕ → ℕ → Str
digits zero n = []
digits (suc fuel) n =
    let rest = digits fuel (n / 10) in
    if ltb n 10 then (48 + n) ∷ [] else rest ++ (48 + n % 10) ∷ []

unfoldable pub print_ℕ : ℕ → Str
unfolding digits
print_ℕ n = digits (suc n) n

-- fmt.Sprintf("%d", n)
unfoldable pub print_int : ℤ → Str
print_int (pos n) = print_ℕ n
print_int (negsuc n) = b'-' ∷ print_ℕ (suc n)

value_from : ℕ → Str → Option ℕ
value_from acc [] = some acc
value_from acc (c ∷ s) =
    let rest = value_from (acc * 10 + (c - 48)) s in if leb 48 c && leb c 57 then rest else none

value_of : Str → Option ℕ
unfolding value_from
value_of [] = none
value_of (c ∷ s) = value_from 0 (c ∷ s)

positive : Option ℕ → Option ℤ
positive none = none
positive (some n) = if ltb n (2 ^ 63) then some (pos n) else none

negative : Option ℕ → Option ℤ
negative none = none
negative (some zero) = some (pos 0)
negative (some (suc n)) = if ltb n (2 ^ 63) then some (negsuc n) else none

-- strconv.Atoi; `none` is its error.
unfoldable pub atoi : Str → Option ℤ
unfolding value_of positive negative
atoi [] = none
atoi (c ∷ s) =
    if c == b'-'
    then negative (value_of s)
    else if c == b'+'
    then positive (value_of s)
    else positive (value_of (c ∷ s))

-- An int of 64 bits.
abbrev pub InInt64 : ℤ → Type 0
InInt64 (pos n) = n < 2 ^ 63
InInt64 (negsuc n) = n < 2 ^ 63

then_digit : Option ℕ → ℕ → Option ℕ
then_digit none d = none
then_digit (some v) d = some (v * 10 + d)

value_from-append :
    (acc : ℕ) (s : Str) (d : ℕ)
    → d < 10
    → value_from acc (s ++ (48 + d) ∷ []) ≡ then_digit (value_from acc s) d
unfolding value_from then_digit
value_from-append acc [] d h = ground arith
value_from-append acc (c ∷ s) d h =
    let rest = value_from-append (acc * 10 + (c - 48)) s d h in
    elim (Bool-cases (leb 48 c && leb c 57)) [ inl e ↦ simp e rest | inr e ↦ simp e ]

value_from-digits : (fuel n : ℕ) → n < fuel → value_from 0 (digits fuel n) ≡ some n
unfolding digits then_digit value_from
value_from-digits zero n h = absurd (omega arith)
value_from-digits (suc fuel) n h = elim (Bool-cases (ltb n 10)) [
  | inl e ↦ simp e (ground arith)
  | inr e ↦
      let small : n / 10 < fuel = ground arith in
      let rest = value_from-digits fuel (n / 10) small in
      simp e (
        value_from-append 0 (digits fuel (n / 10)) (n % 10) (omega arith)
        ∙ simp rest (ap some (omega arith)))
]

abbrev Digits : Str → Type 0
Digits s = All (λ c. (48 ≤ c) × (c ≤ 57)) s

digits-Digits : (fuel n : ℕ) → Digits (digits fuel n)
unfolding digits
digits-Digits zero n = tt
digits-Digits (suc fuel) n = elim (Bool-cases (ltb n 10)) [
  | inl e ↦ simp e (ground arith)
  | inr e ↦ simp e (
      All-append (λ c. (48 ≤ c) × (c ≤ 57)) (digits fuel (n / 10)) ((48 + n % 10) ∷ [])
        (digits-Digits fuel (n / 10)) ((omega arith, omega arith), tt))
]

pub Digits-Without : (sep : ℕ) (s : Str) → sep < 48 → Digits s → Without sep s
Digits-Without sep [] h d = tt
Digits-Without sep (c ∷ s) h d =
    ((λ e. let l = d.0.0 in absurd (omega arith)), Digits-Without sep s h d.1)

not_empty-digits : (fuel n : ℕ) → is_empty (digits (suc fuel) n) ≡ false
unfolding digits
not_empty-digits fuel n = by_case (digits fuel (n / 10)) (ltb n 10)
  where
    by_case :
        (s : Str) (b : Bool)
        → is_empty (if b then (48 + n) ∷ [] else s ++ (48 + n % 10) ∷ []) ≡ false
    by_case s true = refl
    by_case [] false = refl
    by_case (c ∷ s) false = refl

value_of-print_ℕ : (n : ℕ) → value_of (print_ℕ n) ≡ some n
unfolding print_ℕ
value_of-print_ℕ n =
    whole (digits (suc n) n) (not_empty-digits n n) ∙ value_from-digits (suc n) n (omega arith)
  where
    whole : (s : Str) → is_empty s ≡ false → value_of s ≡ value_from 0 s
    whole [] e = absurd (cc)
    whole (c ∷ s) e = unfold value_of in refl

unsigned : (s : Str) → Digits s → is_empty s ≡ false → atoi s ≡ positive (value_of s)
unfolding atoi
unsigned [] d e = absurd (cc)
unsigned (c ∷ s) d e = let l = d.0.0 in ground arith

-- Parsing what is printed gives the number back.
pub atoi-print_int : (z : ℤ) → InInt64 z → atoi (print_int z) ≡ some z
unfolding print_int atoi positive negative
atoi-print_int (pos n) h =
    unsigned (print_ℕ n) (unfold print_ℕ in digits-Digits (suc n) n)
      (unfold print_ℕ in not_empty-digits n n)
    ∙ rw (value_of-print_ℕ n, positive) (ground arith)
atoi-print_int (negsuc n) h = rw (value_of-print_ℕ (suc n), negative) (ground arith)

pub print_ℕ-Without : (sep n : ℕ) → sep < 48 → Without sep (print_ℕ n)
unfolding print_ℕ
print_ℕ-Without sep n h = Digits-Without sep (digits (suc n) n) h (digits-Digits (suc n) n)

pub print_int-Without : (sep : ℕ) (z : ℤ) → sep < 48 → sep ≢ 45 → Without sep (print_int z)
unfolding print_int print_ℕ
print_int-Without sep (pos n) h g = print_ℕ-Without sep n h
print_int-Without sep (negsuc n) h g = (
  (λ e. ground arith),
  Digits-Without sep (digits (suc (suc n)) (suc n)) (ground arith)
      (digits-Digits (suc (suc n)) (suc n)),
)

pub print_ℕ-injective : (m n : ℕ) → print_ℕ m ≡ print_ℕ n → m ≡ n
print_ℕ-injective m n e =
    let same : ◌≡◌ {A = Option ℕ} (some m) (some n) =
      sym (value_of-print_ℕ m) ∙ ap value_of e ∙ value_of-print_ℕ n in
    cc
