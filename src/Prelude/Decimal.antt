-- ===== src/Prelude/Decimal.antt =====
-- Numbers in decimal: what "%d" and PRIu64 print, and strtoll as the source uses it.
use aisl.Prelude.{
  ◌≤◌, if_false, ℕ, zero, suc, ◌+◌, ◌-◌, ◌*◌, ◌/◌, ◌%◌, ◌^◌, ◌<◌, ◌≡◌, refl, ◌∙◌, [], ◌∷◌, ◌&&◌,
  ◌||◌, Bytes, ltb, leb, ◌==◌, if◌then◌else◌, arith, Bool, min, ltb→lt, true, false,
}
use native.Mathlib.Nat.{pow-suc}

-- The digits of `n` in front of `acc`, in at most the given number of rounds.
pub decimal_onto : ℕ → ℕ → Bytes → Bytes
decimal_onto zero n acc = acc
decimal_onto (suc rounds) n acc =
    let more = decimal_onto rounds (n / 10) ((48 + n % 10) ∷ acc) in
    if ltb n 10 then (48 + n % 10) ∷ acc else more

-- Twenty digits hold every uint64_t.
unfoldable pub decimal : ℕ → Bytes
unfolding decimal_onto
decimal n = decimal_onto 20 n []

abbrev is_digit : ℕ → Bool
is_digit c = leb b'0' c && leb c b'9'

-- The digits read on, up to the first byte that is none.
pub digits_from : ℕ → Bytes → ℕ
digits_from n [] = n
digits_from n (c ∷ cs) =
    let more = digits_from (n * 10 + (c - 48)) cs in if is_digit c then more else n

abbrev is_blank : ℕ → Bool
is_blank c = c == b' ' || (leb 9 c && leb c 13)

signed : Bytes → ℕ
unfolding digits_from
signed [] = 0
signed (c ∷ cs) =
    if c == b'-'
    then (2 ^ 64 - min (digits_from 0 cs) (2 ^ 63)) % 2 ^ 64
    else if c == b'+'
    then min (digits_from 0 cs) (2 ^ 63 - 1)
    else min (digits_from 0 (c ∷ cs)) (2 ^ 63 - 1)

-- `(uint64_t) strtoll(s, NULL, 10)`
unfoldable pub strtoll : Bytes → ℕ
unfolding signed
strtoll [] = 0
strtoll (c ∷ cs) = let later = strtoll cs in if is_blank c then later else signed (c ∷ cs)

digit_read :
    (n : ℕ) (acc : Bytes) → n < 10 → digits_from 0 ((48 + n % 10) ∷ acc) ≡ digits_from n acc
unfolding digits_from
digit_read n acc h = ground arith

digit_next : (n : ℕ) (acc : Bytes) → digits_from (n / 10) ((48 + n % 10) ∷ acc) ≡ digits_from n acc
unfolding digits_from
digit_next n acc = ground arith

digits_from-if :
    (t : Bool) (xs ys : Bytes) (m : ℕ)
    → (t ≡ true → digits_from 0 xs ≡ m)
    → (t ≡ false → digits_from 0 ys ≡ m)
    → digits_from 0 (if t then xs else ys) ≡ m
digits_from-if true xs ys m h g = h refl
digits_from-if false xs ys m h g = g refl

tenth : (k m n : ℕ) → m ≡ k * 10 → n < m → n / 10 < k
tenth k m n e h = omega arith

digits_from-decimal_onto :
    (rounds n : ℕ) (acc : Bytes)
    → n < 10 ^ suc rounds
    → digits_from 0 (decimal_onto (suc rounds) n acc) ≡ digits_from n acc
unfolding decimal_onto
digits_from-decimal_onto zero n acc h =
    digits_from-if (ltb n 10) _ _ (digits_from n acc) (λ e. digit_read n acc (ltb→lt n 10 e))
      (λ e. digit_read n acc h)
digits_from-decimal_onto (suc rounds) n acc h =
    let before =
      digits_from-decimal_onto rounds (n / 10) ((48 + n % 10) ∷ acc)
        (tenth (10 ^ suc rounds) _ n (pow-suc 10 (suc rounds)) h) in
    digits_from-if (ltb n 10) _ _ (digits_from n acc) (λ e. digit_read n acc (ltb→lt n 10 e))
      (λ e. before ∙ digit_next n acc)

-- What `decimal` prints, `digits_from` reads.
digits_from-decimal : (n : ℕ) → n < 2 ^ 64 → digits_from 0 (decimal n) ≡ n
unfolding decimal digits_from
digits_from-decimal n h =
    let fits : n < 10 ^ 20 = omega arith in digits_from-decimal_onto 19 n [] fits

-- The first byte that `decimal` prints is a digit.
abbrev Digits : Bytes → Type 0
Digits [] = Unit {0}
Digits (c ∷ cs) = (48 ≤ c) × (c ≤ 57)

Digits-if : (t : Bool) (xs ys : Bytes) → Digits xs → Digits ys → Digits (if t then xs else ys)
Digits-if true xs ys h g = h
Digits-if false xs ys h g = g

Digits-decimal_onto : (rounds n : ℕ) (acc : Bytes) → Digits acc → Digits (decimal_onto rounds n acc)
unfolding decimal_onto
Digits-decimal_onto zero n acc h = h
Digits-decimal_onto (suc rounds) n acc h =
    let digit : (48 ≤ 48 + n % 10) × (48 + n % 10 ≤ 57) = omega arith in
    Digits-if (ltb n 10) _ _ digit (Digits-decimal_onto rounds (n / 10) ((48 + n % 10) ∷ acc) digit)

strtoll-Digits :
    (text : Bytes) → Digits text → digits_from 0 text < 2 ^ 63 → strtoll text ≡ digits_from 0 text
unfolding strtoll signed
strtoll-Digits [] h g = refl
strtoll-Digits (c ∷ cs) h g =
    let blank : is_blank c ≡ false = ground (arith, h) in
    let minus : (c == b'-') ≡ false = ground (arith, h) in
    let plus : (c == b'+') ≡ false = ground (arith, h) in
    let all : min (digits_from 0 (c ∷ cs)) (2 ^ 63 - 1) ≡ digits_from 0 (c ∷ cs) = omega arith in
    if_false _ _ _ blank ∙ if_false _ _ _ minus ∙ if_false _ _ _ plus ∙ all

-- `strtoll` reads what `decimal` prints, as long as it fits a long long.
pub strtoll-decimal : (n : ℕ) → n < 2 ^ 63 → strtoll (decimal n) ≡ n
strtoll-decimal n h =
    let read = digits_from-decimal n (omega arith) in
    let first : Digits (decimal n) = unfold decimal in Digits-decimal_onto 20 n [] tt in
    strtoll-Digits (decimal n) first (rw read h) ∙ read
