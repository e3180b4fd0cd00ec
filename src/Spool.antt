-- ===== src/Spool.antt =====
-- src/list.c: a growing array of pointers, in which the instance keeps its clients. The entries
-- have a type `A`; the memory is the list of its `size` slots.
pub mod Laws
mod Tests
use aisl.Prelude.{
  ℕ, zero, suc, ◌+◌, ◌-◌, ◌≤◌, ◌≡◌, Option, none, some, [], ◌∷◌, List, length, take, set, get_elem?,
  ltb, if◌then◌else◌,
}

-- calloc and realloc for memory of `n` pointers. NULL is `none`.
pub record Pointers (W A : Type 0) : Type 0 where
  pub calloc : W → ℕ → W × Option (List A)
  pub realloc : W → List A → ℕ → W × Option (List A)
  pub calloc_length : (w : W) (n : ℕ) (new : List A) → (calloc w n).1 ≡ some new → length new ≡ n
  pub realloc_length :
      (w : W) (mem : List A) (n : ℕ) (new : List A)
      → (realloc w mem n).1 ≡ some new
      → length new ≡ n
  pub realloc_prefix :
      (w : W) (mem : List A) (n : ℕ) (new : List A)
      → (realloc w mem n).1 ≡ some new
      → length mem ≤ n
      → take (length mem) new ≡ mem

-- `struct list`
pub record PtrList (A : Type 0) : Type 0 where
  pub slots : List A
  pub size : ℕ
  pub count : ℕ

-- `data[i] = data[i + 1]`
abbrev pub copy_down : {A : Type 0} → List A → ℕ → Option A → List A
copy_down mem i none = mem
copy_down mem i (some x) = set mem i x

-- The loop from `i` on, with `n` rounds left.
unfoldable pub close_gap : {A : Type 0} → List A → ℕ → ℕ → List A
close_gap mem i zero = mem
close_gap mem i (suc n) = close_gap (copy_down mem i (get_elem? mem (suc i))) (suc i) n

unfoldable pub list_remove_index : {A : Type 0} → PtrList A → ℕ → PtrList A × Option A
list_remove_index l index =
    if ltb index l.count
    then (
      record l { slots = close_gap l.slots index (l.count - 1 - index); count = l.count - 1 },
      get_elem? l.slots index,
    )
    else (l, none)

module _ {W A : Type 0} (pointers : Pointers W A) where
  unfoldable pub made : PtrList A → ℕ → W × Option (List A) → W × PtrList A × Option ℕ
  made l size (w, none) = (w, l, none)
  made l size (w, some mem) = (w, record { slots = mem; size = size; count = 0 }, some 0)

  unfoldable pub list_init : W → PtrList A → ℕ → W × PtrList A × Option ℕ
  unfolding made
  list_init w l size = made l size (pointers.calloc w size)

  abbrev pub added : A → W × PtrList A → W × PtrList A × Option ℕ
  added entry (w, l) =
      (w, record l { slots = set l.slots l.count entry; count = l.count + 1 }, some l.count)

  unfoldable pub extended : PtrList A → A → W × Option (List A) → W × PtrList A × Option ℕ
  extended l entry (w, none) = (w, l, none)
  extended l entry (w, some mem) = added entry (w, record l { slots = mem; size = l.count + 1 })

  -- The result is the position, or `none` for -1.
  unfoldable pub list_append : W → PtrList A → A → W × PtrList A × Option ℕ
  unfolding extended
  list_append w l entry =
      if ltb l.count l.size
      then added entry (w, l)
      else extended l entry (pointers.realloc w l.slots (l.count + 1))
