-- ===== src/Buffer/Tests.antt =====
-- Runs of the functions of src/buffer.c, and the theorems about them at concrete buffers.
use aisl.Prelude.{suc, ◌<◌, ◌≡◌, refl, inl, inr, some, [], codes, length, arith}
use aisl.Prelude.Plenty.{plenty}
use aisl.Buffer.{
  Buffer, null, contents, buffer_set_size, buffer_append, buffer_insert, buffer_shift,
  buffer_append_vprintf, vprintf_rounds,
}
use aisl.Buffer.Grow.{IsValid}
use aisl.Buffer.Contents.{Outcome, buffer_append-Outcome}
use aisl.Buffer.Insert.{buffer_insert-Outcome}
use aisl.Buffer.Print.{buffer_append_vprintf-Outcome}
use aisl.Buffer.Shift.{Left, buffer_shift-drop, buffer_shift_loses}
use aisl.Buffer.Bounds.{IsPaged, buffer_set_size-IsPaged}

-- Six bytes of memory, five of them in use.
abbrev greeting : Buffer
greeting = record { mem = codes "hello!"; size = 6; used = 5 }

greeting-IsValid : IsValid greeting
greeting-IsValid = omega arith

append_run : contents (buffer_append plenty 0 null (codes "ab")).1 ≡ codes "ab"
unfolding buffer_append buffer_set_size
append_run = refl

insert_run : contents (buffer_insert plenty 0 greeting 2 (codes "--")).1 ≡ codes "he--llo"
unfolding buffer_insert buffer_set_size
insert_run = refl

vprintf_run : (buffer_append_vprintf plenty 0 greeting (codes "123")).2 ≡ some 3
unfolding buffer_append_vprintf vprintf_rounds buffer_set_size
vprintf_run = refl

-- Three of five bytes sent: the other two are lost.
shift_run : contents (buffer_shift greeting 3).0 ≡ []
unfolding buffer_shift
shift_run = refl

buffer_append-Outcome_example :
    let (_, b', r) = buffer_append plenty 0 greeting (codes " you") in
    Outcome greeting (codes "hello you") 4 b' r
buffer_append-Outcome_example =
    buffer_append-Outcome plenty 0 greeting (codes " you") greeting-IsValid

buffer_insert-Outcome_example :
    let (_, b', r) = buffer_insert plenty 0 greeting 2 (codes "--") in
    Outcome greeting (codes "he--llo") 2 b' r
buffer_insert-Outcome_example =
    buffer_insert-Outcome plenty 0 greeting 2 (codes "--") greeting-IsValid (omega arith)

buffer_append_vprintf-Outcome_example :
    let (_, b', r) = buffer_append_vprintf plenty 0 greeting (codes "123") in
    Outcome greeting (codes "hello123") 3 b' r
    × (vprintf_rounds plenty (suc (suc 5)) 0 greeting (codes "123")
        ≡ buffer_append_vprintf plenty 0 greeting (codes "123"))
buffer_append_vprintf-Outcome_example =
    buffer_append_vprintf-Outcome plenty 5 0 greeting (codes "123") greeting-IsValid

buffer_shift-drop_example : Left greeting 2 (codes "llo")
buffer_shift-drop_example = buffer_shift-drop greeting 2 greeting-IsValid (inr (inl (omega arith)))

buffer_shift_loses_example : Left greeting 3 [] × (0 < length (codes "lo"))
buffer_shift_loses_example =
    buffer_shift_loses greeting 3 greeting-IsValid (omega arith) (omega arith)

buffer_set_size-IsPaged_example : IsPaged (buffer_set_size plenty 0 null 5000).1
buffer_set_size-IsPaged_example =
    buffer_set_size-IsPaged plenty 0 null 5000 (omega arith) (omega arith)
