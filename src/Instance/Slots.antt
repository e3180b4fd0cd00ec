-- ===== src/Instance/Slots.antt =====
-- The entry at an index of the spool of src/instance.c, written and removed in the middle.
use aisl.Prelude.{
  ℕ, zero, suc, ◌≤◌, ◌<◌, ◌≡◌, refl, sym, ap, ◌∙◌, none, some, List, [], ◌∷◌, ◌++◌, length, take,
  drop, set, get_elem?, arith, inl, inr, length-set, length-append, length-take, take_exact, tests,
}
use aisl.Spool.{PtrList, list_remove_index}
use aisl.Spool.Laws.{IsValid, entries, list_remove_index-entries}
use aisl.Instance.{entry_at}

module _ {A : Type 0} where
  get_elem?-take : (n i : ℕ) (xs : List A) → i < n → get_elem? (take n xs) i ≡ get_elem? xs i
  get_elem?-take zero i xs h = ground arith
  get_elem?-take (suc n) i [] h = refl
  get_elem?-take (suc n) zero (x ∷ xs) h = refl
  get_elem?-take (suc n) (suc i) (x ∷ xs) h = get_elem?-take n i xs (omega arith)

  get_elem?-append :
      (xs : List A) (y : A) (ys : List A) → get_elem? (xs ++ (y ∷ ys)) (length xs) ≡ some y
  get_elem?-append [] y ys = refl
  get_elem?-append (x ∷ xs) y ys = get_elem?-append xs y ys

  take-set : (n i : ℕ) (xs : List A) (x : A) → take n (set xs i x) ≡ set (take n xs) i x
  take-set zero i xs x = refl
  take-set (suc n) i [] x = refl
  take-set (suc n) zero (y ∷ ys) x = refl
  take-set (suc n) (suc i) (y ∷ ys) x = ap (λ zs. y ∷ zs) (take-set n i ys x)

  set-append :
      (xs : List A) (y : A) (ys : List A) (x : A)
      → set (xs ++ (y ∷ ys)) (length xs) x ≡ xs ++ (x ∷ ys)
  set-append [] y ys x = refl
  set-append (z ∷ xs) y ys x = ap (λ zs. z ∷ zs) (set-append xs y ys x)

  drop-middle : (xs : List A) (y : A) (ys : List A) → drop (suc (length xs)) (xs ++ (y ∷ ys)) ≡ ys
  drop-middle [] y ys = refl
  drop-middle (x ∷ xs) y ys = drop-middle xs y ys

  pub length-entries : (l : PtrList A) → IsValid l → length (entries l) ≡ l.count
  length-entries l v = omega (arith, length-take l.count l.slots, v.sized, v.fits)

  -- There is no entry behind the last one.
  pub entry_at_past : (l : PtrList A) (i : ℕ) → l.count ≤ i → entry_at l i ≡ none
  unfolding entry_at
  entry_at_past l i h = grind (arith, tests)

  module _ (l : PtrList A) (v : IsValid l) (xs : List A) (y : A) (ys : List A)
      (e : entries l ≡ xs ++ (y ∷ ys)) where
    within : length xs < l.count
    within = omega (arith, length-entries l v, ap length e, length-append xs (y ∷ ys))

    pub entry_at-entries : entry_at l (length xs) ≡ some y
    unfolding entry_at
    entry_at-entries = grind (
      arith,
      tests,
      within,
      sym (get_elem?-take l.count (length xs) l.slots within)
          ∙ ap (λ zs. get_elem? zs (length xs)) e
          ∙ get_elem?-append xs y ys,
    )

    pub set-entries :
        (x : A)
        → let l' = record l { slots = set l.slots (length xs) x } in
          IsValid l' × (entries l' ≡ xs ++ (x ∷ ys))
    set-entries x = (
      record { sized = length-set l.slots (length xs) x ∙ v.sized; fits = v.fits },
      take-set l.count (length xs) l.slots x
          ∙ ap (λ zs. set zs (length xs) x) e
          ∙ set-append xs y ys x,
    )

    pub remove-entries :
        let l' = (list_remove_index l (length xs)).0 in IsValid l' × (entries l' ≡ xs ++ ys)
    remove-entries =
        let (v', r) = list_remove_index-entries l (length xs) v in
        elim r [
          | inl (h, _, rest) ↦ (
            v',
            rest
                ∙ ap (λ zs. take (length xs) zs ++ drop (suc (length xs)) zs) e
                ∙ ap (λ zs. zs ++ drop (suc (length xs)) (xs ++ (y ∷ ys)))
                    (take_exact (length xs) xs (y ∷ ys) refl)
                ∙ ap (λ zs. xs ++ zs) (drop-middle xs y ys),
          )
          | inr (h, _, _) ↦ absurd (omega (arith, h, within))
        ]
