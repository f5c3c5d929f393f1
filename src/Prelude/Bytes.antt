-- ===== src/Prelude/Bytes.antt =====
-- Byte strings: the tests of Go's `strings` package that the code uses, and decimal numbers as
-- `strconv` writes and reads them.
use Prim.Native.Nat.{ℕ, zero, suc, ◌+◌, ◌-◌, ◌*◌, ◌/◌, ◌%◌, ◌<◌}
use Prim.Native.Char.{code}
use Prim.Native.String.{String}
use mathlib.Core.Path.{◌≡◌, refl, ap, sym, ◌∙◌}
use mathlib.Core.Logic.{◌↔◌, inl, inr}
use mathlib.Core.Bool.{Bool, true, false, ◌&&◌}
use mathlib.Core.Option.{Option, none, some}
use mathlib.Core.List.{List, [], ◌∷◌, ◌++◌, reverse, reverse-append, reverse-reverse}
use native.Mathlib.Omega.{arith}
use base_go_api.Prelude.Tests.{ltb, leb, ◌==◌, if◌then◌else◌, Bool-cases}

abbrev pub Bytes : Type 0
Bytes = List ℕ

-- The bytes of an ASCII literal.
abbrev pub codes : String → Bytes
codes String.[] = []
codes (String.◌∷◌ c s) = code c ∷ codes s

abbrev pub bytes_eq : Bytes → Bytes → Bool
bytes_eq [] [] = true
bytes_eq [] (b ∷ bs) = false
bytes_eq (a ∷ r) [] = false
bytes_eq (a ∷ r) (b ∷ bs) = a == b && bytes_eq r bs

pub bytes_eq_refl : (a : Bytes) → bytes_eq a a ≡ true
bytes_eq_refl [] = refl
bytes_eq_refl (x ∷ xs) = ground (arith, bytes_eq_refl xs)

pub eq_of_bytes_eq : (a b : Bytes) → bytes_eq a b ≡ true → a ≡ b
eq_of_bytes_eq [] [] h = refl
eq_of_bytes_eq [] (b ∷ bs) h = cc
eq_of_bytes_eq (x ∷ xs) [] h = cc
eq_of_bytes_eq (x ∷ xs) (b ∷ bs) h = ground (arith, eq_of_bytes_eq xs bs)

pub bytes_eq_sym : (a b : Bytes) → bytes_eq a b ≡ bytes_eq b a
bytes_eq_sym [] [] = refl
bytes_eq_sym [] (b ∷ bs) = refl
bytes_eq_sym (x ∷ xs) [] = refl
bytes_eq_sym (x ∷ xs) (b ∷ bs) = ground (arith, bytes_eq_sym xs bs)

pub bytes_eq-append : (p a b : Bytes) → bytes_eq (p ++ a) (p ++ b) ≡ bytes_eq a b
bytes_eq-append [] a b = refl
bytes_eq-append (c ∷ p) a b = ground (arith, bytes_eq-append p a b)

-- `strings.HasPrefix`, `strings.HasSuffix` and `strings.Contains`.
abbrev pub has_prefix : Bytes → Bytes → Bool
has_prefix s [] = true
has_prefix [] (p ∷ ps) = false
has_prefix (c ∷ s) (p ∷ ps) = c == p && has_prefix s ps

abbrev pub has_suffix : Bytes → Bytes → Bool
has_suffix s p = has_prefix (reverse s) (reverse p)

abbrev pub contains : Bytes → Bytes → Bool
contains [] p = has_prefix [] p
contains (c ∷ s) p = if has_prefix (c ∷ s) p then true else contains s p

split_prefix : (s p : Bytes) → has_prefix s p ≡ true → (rest : Bytes) × (s ≡ p ++ rest)
split_prefix s [] h = (s, refl)
split_prefix [] (c ∷ p) h = cc
split_prefix (d ∷ s) (c ∷ p) h =
    let (rest, e) = split_prefix s p (ground arith) in (rest, ground arith)

has_prefix-append : (p rest : Bytes) → has_prefix (p ++ rest) p ≡ true
has_prefix-append [] rest = ground arith
has_prefix-append (c ∷ p) rest = ground (arith, has_prefix-append p rest)

pub has_prefix_iff : (s p : Bytes) → (has_prefix s p ≡ true) ↔ ((rest : Bytes) × (s ≡ p ++ rest))
has_prefix_iff s p = (split_prefix s p, λ (rest, e). rw e (has_prefix-append p rest))

pub has_suffix_iff : (s p : Bytes) → (has_suffix s p ≡ true) ↔ ((front : Bytes) × (s ≡ front ++ p))
has_suffix_iff s p = (forth, back)
  where
    forth : has_suffix s p ≡ true → (front : Bytes) × (s ≡ front ++ p)
    forth h =
        let (rest, e) = split_prefix (reverse s) (reverse p) h in
        (
          reverse rest,
          sym (reverse-reverse s)
              ∙ ap reverse e
              ∙ reverse-append (reverse p) rest
              ∙ ap (λ q. reverse rest ++ q) (reverse-reverse p),
        )

    back : (front : Bytes) × (s ≡ front ++ p) → has_suffix s p ≡ true
    back (front, e) = rw (e, reverse-append front p) (has_prefix-append (reverse p) (reverse front))

-- `strconv.Itoa` of a number that is not negative; the fuel bounds the number of digits.
itoa_from : ℕ → ℕ → Bytes → Bytes
itoa_from zero n acc = acc
itoa_from (suc fuel) n acc =
    let rest = itoa_from fuel (n / 10) ((48 + n % 10) ∷ acc) in
    if ltb n 10 then (48 + n) ∷ acc else rest

unfoldable pub itoa : ℕ → Bytes
unfolding itoa_from
itoa n = itoa_from (suc n) n []

-- `strconv.Atoi` of an unsigned decimal; `none` is its error.
atoi_from : ℕ → Bytes → Option ℕ
atoi_from acc [] = some acc
atoi_from acc (c ∷ s) =
    let rest = atoi_from (acc * 10 + (c - 48)) s in if leb 48 c && leb c 57 then rest else none

unfoldable pub atoi : Bytes → Option ℕ
unfolding atoi_from
atoi [] = none
atoi (c ∷ s) = atoi_from 0 (c ∷ s)

atoi_from-itoa_from :
    (fuel n : ℕ) (acc : Bytes) → n < fuel → atoi_from 0 (itoa_from fuel n acc) ≡ atoi_from n acc
unfolding itoa_from atoi_from
atoi_from-itoa_from zero n acc h = elim h [ ]
atoi_from-itoa_from (suc fuel) n acc h = elim (Bool-cases (ltb n 10)) [
  | inl last ↦ rw last (ground arith)
  | inr more ↦
      rw more
        (atoi_from-itoa_from fuel (n / 10) ((48 + n % 10) ∷ acc) (ground arith) ∙ ground arith)
]

itoa_from-cons :
    (fuel n : ℕ) (acc : Bytes) → n < fuel → (c : ℕ) × (s : Bytes) × (itoa_from fuel n acc ≡ c ∷ s)
unfolding itoa_from
itoa_from-cons zero n acc h = elim h [ ]
itoa_from-cons (suc fuel) n acc h = elim (Bool-cases (ltb n 10)) [
  | inl last ↦ (48 + n, acc, rw last refl)
  | inr more ↦ rw more (itoa_from-cons fuel (n / 10) ((48 + n % 10) ∷ acc) (ground arith))
]

atoi_of_cons : (c : ℕ) (s b : Bytes) → b ≡ c ∷ s → atoi b ≡ atoi_from 0 b
unfolding atoi
atoi_of_cons c s b h = rw h refl

pub atoi-itoa : (n : ℕ) → atoi (itoa n) ≡ some n
unfolding itoa atoi_from
atoi-itoa n =
    let (c, s, e) = itoa_from-cons (suc n) n [] (omega arith) in
    atoi_of_cons c s (itoa_from (suc n) n []) e ∙ atoi_from-itoa_from (suc n) n [] (omega arith)
