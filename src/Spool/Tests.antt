-- ===== src/Spool/Tests.antt =====
-- Runs of the functions of src/list.c, and the theorems about them at concrete lists.
use aisl.Prelude.{
  ℕ, ◌+◌, ◌≤◌, ◌<◌, ◌≡◌, refl, ap, sym, ◌∙◌, none, some, ◌++◌, [], ◌∷◌, List, ◌⊎◌, length, take,
  drop, get_elem?, replicate, length-replicate, take_all, arith, min,
}
use aisl.Prelude.Plenty.{plenty}
use aisl.Spool.{Pointers, PtrList, close_gap, list_append, list_remove_index}
use aisl.Spool.Laws.{IsValid, entries, Appended, list_append-Appended, list_remove_index-entries}

length_zeros : (w n : ℕ) (new : List ℕ) → some (replicate n 0) ≡ some new → length new ≡ n
length_zeros w n new e =
    let same : new ≡ replicate n 0 = cc in ap length same ∙ length-replicate n 0

keeps :
    (w : ℕ) (mem : List ℕ) (n : ℕ) (new : List ℕ)
    → (plenty.realloc w mem n).1 ≡ some new
    → length mem ≤ n
    → take (length mem) new ≡ mem
keeps w mem n new e le =
    let all : min (length mem) n ≡ length mem = omega arith in
    let old = plenty.realloc_prefix w mem n new e in
    ap (λ k. take k new) (sym all)
    ∙ old
    ∙ ap (λ k. take k mem) all
    ∙ take_all (length mem) mem (omega arith)

-- Memory for pointers that are numbers; no request is refused.
abbrev heap : Pointers ℕ ℕ
heap = record {
  calloc = λ w n. (w + 1, some (replicate n 0));
  realloc = plenty.realloc;
  calloc_length = length_zeros;
  realloc_length = plenty.realloc_length;
  realloc_prefix = keeps;
}

abbrev three : PtrList ℕ
three = record { slots = 7 ∷ 8 ∷ 9 ∷ []; size = 3; count = 3 }

three-IsValid : IsValid three
three-IsValid = record { sized = refl; fits = omega arith }

append_run : entries (list_append heap 0 three 5).1 ≡ 7 ∷ 8 ∷ 9 ∷ 5 ∷ []
unfolding list_append
append_run = refl

remove_run : entries (list_remove_index three 1).0 ≡ 7 ∷ 9 ∷ []
unfolding list_remove_index close_gap
remove_run = refl

list_append-Appended_example : Appended three 5 (list_append heap 0 three 5)
list_append-Appended_example = list_append-Appended heap 0 three 5 three-IsValid

list_remove_index-entries_example :
    let (l', r) = list_remove_index three 1 in
    IsValid l'
    × ((1 < three.count)
          × (r ≡ get_elem? three.slots 1)
          × (entries l' ≡ take 1 (entries three) ++ drop 2 (entries three))
        ⊎ (three.count ≤ 1) × (r ≡ none) × (l' ≡ three))
list_remove_index-entries_example = list_remove_index-entries three 1 three-IsValid
