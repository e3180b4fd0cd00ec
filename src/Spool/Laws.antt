-- ===== src/Spool/Laws.antt =====
-- src/list.c as operations on the sequence of its entries.
use aisl.Prelude.{
  ℕ, zero, suc, ◌+◌, ◌-◌, ◌≤◌, ◌<◌, ◌≡◌, refl, sym, ap, ◌∙◌, inl, inr, Option, none, some, ◌++◌, [],
  ◌∷◌, List, length, take, drop, set, get_elem?, ltb, arith, Bool-cases, length-set, ◌⊎◌, take-take,
  take-drop, take_all, tests, ltb→lt, ltb→le,
}
use aisl.Spool.{
  Pointers, PtrList, close_gap, copy_down, list_remove_index, added, extended, list_append,
}

-- The slots are those of the memory, and those in use lie inside it.
pub record IsValid {A : Type 0} (l : PtrList A) : Type 0 where
  pub sized : length l.slots ≡ l.size
  pub fits : l.count ≤ l.size

-- the entries
abbrev pub entries : {A : Type 0} → PtrList A → List A
entries l = take l.count l.slots

module _ {A : Type 0} where
  copy_down-suc :
      (x : A) (xs : List A) (i : ℕ) (o : Option A)
      → copy_down (x ∷ xs) (suc i) o ≡ x ∷ copy_down xs i o
  copy_down-suc x xs i none = refl
  copy_down-suc x xs i (some v) = refl

  length-copy_down : (mem : List A) (i : ℕ) (o : Option A) → length (copy_down mem i o) ≡ length mem
  length-copy_down mem i none = refl
  length-copy_down mem i (some v) = length-set mem i v

  close_gap-suc :
      (x : A) (xs : List A) (i n : ℕ) → close_gap (x ∷ xs) (suc i) n ≡ x ∷ close_gap xs i n
  unfolding close_gap
  close_gap-suc x xs i zero = refl
  close_gap-suc x xs i (suc n) =
      ap (λ m. close_gap m (suc (suc i)) n) (copy_down-suc x xs i (get_elem? xs (suc i)))
      ∙ close_gap-suc x (copy_down xs i (get_elem? xs (suc i))) (suc i) n

  length-close_gap : (mem : List A) (i n : ℕ) → length (close_gap mem i n) ≡ length mem
  unfolding close_gap
  length-close_gap mem i zero = refl
  length-close_gap mem i (suc n) =
      length-close_gap (copy_down mem i (get_elem? mem (suc i))) (suc i) n
      ∙ length-copy_down mem i (get_elem? mem (suc i))

  close_gap_zero :
      (x : A) (xs : List A) (n : ℕ) → n ≤ length xs → take n (close_gap (x ∷ xs) 0 n) ≡ take n xs
  unfolding close_gap
  close_gap_zero x xs zero h = refl
  close_gap_zero x [] (suc n) h = ground arith
  close_gap_zero x (y ∷ xs) (suc n) h =
      ap (take (suc n)) (close_gap-suc y (y ∷ xs) 0 n)
      ∙ ap (λ ys. y ∷ ys) (close_gap_zero y xs n (omega arith))

  take-close_gap :
      (k : ℕ) (mem : List A) (i n : ℕ)
      → k ≡ i + n
      → k < length mem
      → take k (close_gap mem i n) ≡ take i mem ++ take n (drop (suc i) mem)
  take-close_gap k [] i n e h = ground arith
  take-close_gap k (x ∷ mem) zero n e h =
      let same : k ≡ n = omega arith in
      ap (λ k. take k (close_gap (x ∷ mem) 0 n)) same ∙ close_gap_zero x mem n (omega arith)
  take-close_gap zero (x ∷ mem) (suc i) n e h = ground arith
  take-close_gap (suc k) (x ∷ mem) (suc i) n e h =
      ap (take (suc k)) (close_gap-suc x mem i n)
      ∙ ap (λ ys. x ∷ ys) (take-close_gap k mem i n (omega arith) (omega arith))

  -- `list_remove_index` takes exactly the entry at the index out of the sequence and returns it;
  -- where there is none, it returns NULL and changes nothing.
  pub list_remove_index-entries :
      (l : PtrList A) (index : ℕ)
      → IsValid l
      → let (l', r) = list_remove_index l index in
        IsValid l'
        × ((index < l.count)
              × (r ≡ get_elem? l.slots index)
              × (entries l' ≡ take index (entries l) ++ drop (suc index) (entries l))
            ⊎ (l.count ≤ index) × (r ≡ none) × (l' ≡ l))
  list_remove_index-entries l index v = elim (Bool-cases (ltb index l.count)) [
    | inl e ↦
        let h = ltb→lt index l.count e in
        let n = l.count - 1 - index in
        let whole : suc index + n ≡ l.count = omega arith in
        let tail =
          take-drop n (suc index) l.slots ∙ ap (λ k. drop (suc index) (take k l.slots)) whole in
        let head = sym (take-take index l.count l.slots (omega arith)) in
        let gone =
          take-close_gap (l.count - 1) l.slots index n (omega arith)
            (omega (arith, v.sized, v.fits)) in
        unfold list_remove_index in
        rw e (
          record {
            sized = length-close_gap l.slots index n ∙ v.sized;
            fits = omega (arith, v.fits);
          },
          inl (
            h,
            refl,
            gone
                ∙ ap (λ ys. take index l.slots ++ ys) tail
                ∙ ap (λ ys. ys ++ drop (suc index) (entries l)) head,
          ),
        )
    | inr e ↦ unfold list_remove_index in rw e (v, inr (ltb→le index l.count e, refl, refl))
  ]

take-set_last :
    {A : Type 0} (n : ℕ) (xs : List A) (x : A)
    → n < length xs
    → take (suc n) (set xs n x) ≡ take n xs ++ (x ∷ [])
take-set_last n [] x h = ground arith
take-set_last zero (y ∷ ys) x h = refl
take-set_last (suc n) (y ∷ ys) x h = ap (λ zs. y ∷ zs) (take-set_last n ys x (omega arith))

-- What an append leaves: the entry behind the others and its position, or -1 and the list.
abbrev pub Appended : {W A : Type 0} → PtrList A → A → W × PtrList A × Option ℕ → Type 0
Appended l entry (_, l', none) = l' ≡ l
Appended l entry (_, l', some n) =
    (n ≡ l.count) × IsValid l' × (entries l' ≡ entries l ++ (entry ∷ []))

module _ {W A : Type 0} (pointers : Pointers W A) where
  added-Appended :
      (w : W) (l c : PtrList A) (entry : A)
      → IsValid c
      → c.count ≡ l.count
      → entries c ≡ entries l
      → c.count < c.size
      → Appended l entry (added pointers entry (w, c))
  added-Appended w l c entry v same e h =
      let next : c.count + 1 ≡ suc c.count = omega arith in
      let last = take-set_last c.count c.slots entry (omega (arith, v.sized, h)) in
      (
        same,
        record { sized = length-set c.slots c.count entry ∙ v.sized; fits = omega arith },
        ap (λ k. take k (set c.slots c.count entry)) next ∙ last ∙ ap (λ es. es ++ (entry ∷ [])) e,
      )

  extended-Appended :
      (l : PtrList A) (entry : A) (r : W × Option (List A))
      → IsValid l
      → l.count ≡ l.size
      → ((new : List A)
          → r.1 ≡ some new
          → (length new ≡ l.count + 1) × (take l.count new ≡ l.slots))
      → Appended l entry (extended pointers l entry r)
  unfolding extended
  extended-Appended l entry (w, none) v full h = refl
  extended-Appended l entry (w, some mem) v full h =
      let (len, same) = h mem refl in
      let c = record l { slots = mem; size = l.count + 1 } in
      let all = sym (take_all l.count l.slots (omega (arith, v.sized, full))) in
      added-Appended w l c entry (record { sized = len; fits = omega arith }) refl (same ∙ all)
        (omega arith)

  -- `list_append` adds the entry behind the others and returns its position, or returns -1 and
  -- changes nothing.
  pub list_append-Appended :
      (w : W) (l : PtrList A) (entry : A)
      → IsValid l
      → Appended l entry (list_append pointers w l entry)
  list_append-Appended w l entry v = elim (Bool-cases (ltb l.count l.size)) [
    | inl e ↦
        unfold list_append in
        rw e (added-Appended w l l entry v refl refl (ltb→lt l.count l.size e))
    | inr e ↦
        let full : l.count ≡ l.size = omega (tests, e, v.fits) in
        let n = l.count + 1 in
        unfold list_append in
        rw e (
          extended-Appended l entry (pointers.realloc w l.slots n) v full (λ new f.
            let len = pointers.realloc_length w l.slots n new f in
            let fits : length l.slots ≤ n = omega (arith, v.sized, full) in
            let long : length l.slots ≡ l.count = omega (arith, v.sized, full) in
            (
              len,
              ap (λ k. take k new) (sym long) ∙ pointers.realloc_prefix w l.slots n new f fits,
            )))
  ]
