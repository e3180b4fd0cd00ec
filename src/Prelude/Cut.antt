-- ===== src/Prelude/Cut.antt =====
-- Strings that the parsers cut out of memory by writing NULs into it.
use aisl.Prelude.{
  ℕ, zero, suc, ◌+◌, ◌-◌, ◌≡◌, refl, ap, ◌∙◌, ◌++◌, [], ◌∷◌, not, ◌&&◌, Bool, Bytes, c_str, length,
  drop, set, ◌==◌, arith, true, drop-append_ge, drop_exact,
}

abbrev pub no_nul : Bytes → Bool
no_nul [] = true
no_nul (c ∷ cs) = not (c == 0) && no_nul cs

pub c_str-append : (xs ys : Bytes) → no_nul xs ≡ true → c_str (xs ++ 0 ∷ ys) ≡ xs
unfolding c_str
c_str-append [] ys h = refl
c_str-append (c ∷ xs) ys h = ground (arith, c_str-append xs ys)

pub set_skip :
    (xs ys : Bytes) (n k v : ℕ) → n ≡ length xs + k → set (xs ++ ys) n v ≡ xs ++ set ys k v
set_skip [] ys n k v e = let same : n ≡ k = omega arith in ap (λ j. set ys j v) same
set_skip (x ∷ xs) ys zero k v e = absurd (omega arith)
set_skip (x ∷ xs) ys (suc n) k v e = ap (◌∷◌ x) (set_skip xs ys n k v (omega arith))

-- A byte behind a known prefix.
pub set_here : (xs ys : Bytes) (c n v : ℕ) → n ≡ length xs → set (xs ++ c ∷ ys) n v ≡ xs ++ v ∷ ys
set_here xs ys c n v e = set_skip xs (c ∷ ys) n 0 v (omega arith)

pub drop_past : (xs ys : Bytes) (c n : ℕ) → n ≡ length xs + 1 → drop n (xs ++ c ∷ ys) ≡ ys
drop_past [] ys c n e = let one : n ≡ 1 = omega arith in ap (λ k. drop k (c ∷ ys)) one
drop_past (x ∷ xs) ys c zero e = absurd (omega arith)
drop_past (x ∷ xs) ys c (suc n) e = drop_past xs ys c n (omega arith)

-- A byte behind the second of two parts.
set_second :
    (a b c : Bytes) (x y n v : ℕ)
    → n ≡ length a + suc (length b)
    → set (a ++ x ∷ (b ++ y ∷ c)) n v ≡ a ++ x ∷ (b ++ v ∷ c)
set_second a b c x y n v h =
    set_skip a _ n (suc (length b)) v h ∙ ap (λ r. a ++ x ∷ r) (set_here b c y (length b) v refl)

-- Three bytes of a line, overwritten in the order of the parser: first, last, middle.
pub set_three :
    (a b c d : Bytes) (x y z e u n : ℕ)
    → e ≡ length a
    → u ≡ length a + suc (length b)
    → n ≡ length a + suc (length b + suc (length c))
    → set (set (set (a ++ x ∷ (b ++ y ∷ (c ++ z ∷ d))) e 0) n 0) u 0
      ≡ a ++ 0 ∷ (b ++ 0 ∷ (c ++ 0 ∷ d))
set_three a b c d x y z e u n he hu hn =
    ap (λ m. set (set m n 0) u 0) (set_here a _ x e 0 he)
    ∙ ap (λ m. set m u 0)
        (set_skip a _ n (suc (length b + suc (length c))) 0 hn
          ∙ ap (λ r. a ++ 0 ∷ r) (set_second b c d y z (length b + suc (length c)) 0 refl))
    ∙ set_second a b (c ++ 0 ∷ d) 0 y u 0 hu

pub drop_skip : (xs ys : Bytes) (n k : ℕ) → n ≡ length xs + k → drop n (xs ++ ys) ≡ drop k ys
drop_skip xs ys n k e =
    let d : n - length xs ≡ k = omega arith in
    drop-append_ge n xs ys (omega arith) ∙ ap (λ j. drop j ys) d

-- What stands at the byte behind the second of two parts.
pub drop_second :
    (a b c : Bytes) (x n : ℕ) → n ≡ length a + suc (length b) → drop n (a ++ x ∷ (b ++ c)) ≡ c
drop_second a b c x n e =
    drop_skip a (x ∷ (b ++ c)) n (suc (length b)) e ∙ drop_exact (length b) b c refl

pub c_str_nul : (ys : Bytes) → c_str (0 ∷ ys) ≡ []
unfolding c_str
c_str_nul ys = refl
