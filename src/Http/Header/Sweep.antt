-- ===== src/Http/Header/Sweep.antt =====
-- The loop of http_10_parse_header over a line `Key:  value  \r\n`.
use aisl.Prelude.{
  ℕ, zero, suc, ◌+◌, ◌≡◌, refl, ap, ◌∙◌, Option, none, some, ◌++◌, [], ◌∷◌, not, ◌&&◌, ◌||◌, Bool,
  map, Bytes, to_lower, length, replicate, ◌==◌, if◌then◌else◌, arith, is_some, true, false,
}
use aisl.Http.Scan.{all_chars}
use aisl.Http.Header.{
  HeaderMarks, no_header, header_char, header_byte, Swept, put_back, scan_header,
}

-- A byte of a key: no NUL, no colon, no line end.
abbrev pub is_key_char : ℕ → Bool
is_key_char c = not (c == 0 || c == b':' || c == b'\n' || c == b'\r')

-- A byte of a value: no NUL, no line end.
abbrev pub is_value_char : ℕ → Bool
is_value_char c = not (c == 0 || c == b'\n' || c == b'\r')

-- A byte that a value may begin and end with.
abbrev pub is_edge_char : ℕ → Bool
is_edge_char c = is_value_char c && not (c == b' ' || c == b':')

-- What may follow the first byte of a value, if `closed` says whether the byte before is an edge.
abbrev pub continues : Bool → Bytes → Bool
continues closed [] = closed
continues closed (c ∷ cs) = is_value_char c && continues (is_edge_char c) cs

-- A value begins and ends with an edge; spaces and colons stand inside.
abbrev pub is_value : Bytes → Bool
is_value [] = false
is_value (c ∷ cs) = is_edge_char c && continues true cs

-- The pointers behind the colon, and in the value.
abbrev pub after_colon : ℕ → HeaderMarks
after_colon k = record no_header { colon = some k }

abbrev pub in_value : ℕ → ℕ → Option ℕ → HeaderMarks
in_value k v e = record (after_colon k) { val = some v; val_end = e }

-- Bytes put back in front of what the loop leaves.
abbrev pub prepend : Bytes → Swept → Swept
prepend [] s = s
prepend (c ∷ cs) s = put_back c (prepend cs s)

header-step :
    (c i b : ℕ) (cs : Bytes) (m m' : HeaderMarks)
    → header_char c i m ≡ m'
    → m'.newline ≡ none
    → header_byte c m ≡ b
    → scan_header (c ∷ cs) i m ≡ put_back b (scan_header cs (i + 1) m')
unfolding scan_header
header-step c i b cs m m' e n h = ground arith

key_quiet :
    (c i : ℕ)
    → is_key_char c ≡ true
    → (header_char c i no_header ≡ no_header) × (header_byte c no_header ≡ to_lower c)
unfolding header_char header_byte to_lower
key_quiet c i h = ground arith

space_quiet :
    (k i : ℕ)
    → (header_char b' ' i (after_colon k) ≡ after_colon k)
      × (header_byte b' ' (after_colon k) ≡ b' ')
unfolding header_char header_byte
space_quiet k i = (refl, refl)

sweep_key :
    (key rest : Bytes) (i : ℕ)
    → all_chars is_key_char key ≡ true
    → scan_header (key ++ rest) i no_header
      ≡ prepend (map to_lower key) (scan_header rest (i + length key) no_header)
sweep_key [] rest i h = ap (λ k. scan_header rest k no_header) (omega arith)
sweep_key (c ∷ key) rest i h =
    let next : i + 1 + length key ≡ i + suc (length key) = omega arith in
    let (same, byte) = key_quiet c i (ground arith) in
    header-step c i (to_lower c) (key ++ rest) no_header no_header same refl byte
    ∙ ap (put_back (to_lower c)) (
        sweep_key key rest (i + 1) (ground arith)
        ∙ ap (λ k. prepend (map to_lower key) (scan_header rest k no_header)) next)

sweep_spaces :
    (n k i : ℕ) (rest : Bytes)
    → scan_header (replicate n b' ' ++ rest) i (after_colon k)
      ≡ prepend (replicate n b' ') (scan_header rest (i + n) (after_colon k))
sweep_spaces zero k i rest = ap (λ j. scan_header rest j (after_colon k)) (omega arith)
sweep_spaces (suc n) k i rest =
    let next : i + 1 + n ≡ i + suc n = omega arith in
    let (same, byte) = space_quiet k i in
    header-step b' ' i b' ' _ _ _ same refl byte
    ∙ ap (put_back b' ') (
        sweep_spaces n k (i + 1) rest
        ∙ ap (λ j. prepend (replicate n b' ') (scan_header rest j (after_colon k))) next)

-- One byte inside the value: an edge takes back an end set before, a space may set one.
value_char :
    (c i k v : ℕ) (e : Option ℕ)
    → is_value_char c ≡ true
    → (header_byte c (in_value k v e) ≡ c)
      × (header_char c i (in_value k v e)
          ≡ in_value k v
              (if is_edge_char c then none else (if c == b':' || is_some e then e else some i)))
unfolding header_char header_byte
value_char c i k v none h = ground arith
value_char c i k v (some e) h = ground arith

sweep_value :
    (cs rest : Bytes) (closed : Bool) (i k v : ℕ) (e : Option ℕ)
    → continues closed cs ≡ true
    → (closed ≡ true → e ≡ none)
    → scan_header (cs ++ rest) i (in_value k v e)
      ≡ prepend cs (scan_header rest (i + length cs) (in_value k v none))
sweep_value [] rest closed i k v e h none_if =
    let here : i ≡ i + 0 = omega arith in
    rw (none_if h) (ap (λ j. scan_header rest j (in_value k v none)) here)
sweep_value (c ∷ cs) rest closed i k v e h none_if =
    let next : i + 1 + length cs ≡ i + suc (length cs) = omega arith in
    let (byte, step) = value_char c i k v e (ground arith) in
    let e' = if is_edge_char c then none else (if c == b':' || is_some e then e else some i) in
    header-step c i c (cs ++ rest) (in_value k v e) (in_value k v e') step refl byte
    ∙ ap (put_back c) (
        sweep_value cs rest (is_edge_char c) (i + 1) k v e' (ground arith) (λ edge. rw edge)
        ∙ ap (λ j. prepend cs (scan_header rest j (in_value k v none))) next)

-- From the end of the value on: spaces, and the line end.
abbrev pub line_tail : ℕ → Bytes → Bytes
line_tail k rest = replicate k b' ' ++ b'\r' ∷ b'\n' ∷ rest

abbrev pub closed_at : ℕ → ℕ → ℕ → ℕ → HeaderMarks
closed_at k v e n = record (in_value k v (some e)) { newline = some n }

sweep_closed :
    (n i k v e : ℕ) (rest : Bytes)
    → scan_header (line_tail n rest) i (in_value k v (some e))
      ≡ record { bytes = line_tail n rest; marks = closed_at k v e (i + n + 1); left = length rest }
sweep_closed zero i k v e rest = unfold scan_header header_char header_byte in ground arith
sweep_closed (suc n) i k v e rest =
    let next : i + 1 + n + 1 ≡ i + suc n + 1 = omega arith in
    let (byte, step) = value_char b' ' i k v (some e) refl in
    header-step b' ' i b' ' (line_tail n rest) (in_value k v (some e)) (in_value k v (some e)) step
      refl byte
    ∙ ap (put_back b' ') (
        sweep_closed n (i + 1) k v e rest
        ∙ ap
            (λ j. record {
              bytes = line_tail n rest;
              marks = closed_at k v e j;
              left = length rest;
            })
            next)

sweep_tail :
    (n i k v : ℕ) (rest : Bytes)
    → scan_header (line_tail n rest) i (in_value k v none)
      ≡ record { bytes = line_tail n rest; marks = closed_at k v i (i + n + 1); left = length rest }
sweep_tail zero i k v rest = unfold scan_header header_char header_byte in ground arith
sweep_tail (suc n) i k v rest =
    let next : i + 1 + n + 1 ≡ i + suc n + 1 = omega arith in
    let (byte, step) = value_char b' ' i k v none refl in
    header-step b' ' i b' ' (line_tail n rest) (in_value k v none) (in_value k v (some i)) step refl
      byte
    ∙ ap (put_back b' ') (
        sweep_closed n (i + 1) k v i rest
        ∙ ap
            (λ j. record {
              bytes = line_tail n rest;
              marks = closed_at k v i j;
              left = length rest;
            })
            next)

colon_step :
    (i : ℕ) → (header_char b':' i no_header ≡ after_colon i) × (header_byte b':' no_header ≡ b':')
unfolding header_char header_byte
colon_step i = (refl, refl)

first_step :
    (c i k : ℕ)
    → is_edge_char c ≡ true
    → (header_char c i (after_colon k) ≡ in_value k i none) × (header_byte c (after_colon k) ≡ c)
unfolding header_char header_byte
first_step c i k h = ground arith

pub bytes-prepend : (xs : Bytes) (s : Swept) → prepend xs s ≡ record s { bytes = xs ++ s.bytes }
bytes-prepend [] s = refl
bytes-prepend (c ∷ xs) s = ap (put_back c) (bytes-prepend xs s)

-- The value and the tail.
sweep_field :
    (i k n : ℕ) (value rest : Bytes)
    → is_value value ≡ true
    → scan_header (value ++ line_tail n rest) i (after_colon k) ≡ record {
      bytes = value ++ line_tail n rest;
      marks = closed_at k i (i + length value) (i + length value + n + 1);
      left = length rest;
    }
sweep_field i k n [] rest h = absurd (cc)
sweep_field i k n (c ∷ cs) rest h =
    let end : i + 1 + length cs ≡ i + suc (length cs) = omega arith in
    let (step, byte) = first_step c i k (ground arith) in
    header-step c i c (cs ++ line_tail n rest) (after_colon k) (in_value k i none) step refl byte
    ∙ ap (put_back c) (
        sweep_value cs (line_tail n rest) true (i + 1) k i none (ground arith) (λ _. refl)
        ∙ ap (prepend cs) (sweep_tail n (i + 1 + length cs) k i rest)
        ∙ bytes-prepend cs _)
    ∙ ap
        (λ j. record {
          bytes = (c ∷ cs) ++ line_tail n rest;
          marks = closed_at k i j (j + n + 1);
          left = length rest;
        })
        end

-- The loop over a whole line lowers the key, and sets the pointers to the colon, to the value and
-- to the byte behind it.
pub sweep_line :
    (key value rest : Bytes) (before after : ℕ)
    → all_chars is_key_char key ≡ true
    → is_value value ≡ true
    → let k = length key in
      let v = k + 1 + before in
      scan_header
        (key ++ b':' ∷ (replicate before b' ' ++ (value ++ line_tail after rest)))
        0
        no_header
      ≡ record {
        bytes =
            map to_lower key ++ b':' ∷ (replicate before b' ' ++ (value ++ line_tail after rest));
        marks = closed_at k v (v + length value) (v + length value + after + 1);
        left = length rest;
      }
sweep_line key value rest before after h g =
    let k = length key in
    let start : 0 + k ≡ k = omega arith in
    let tail = replicate before b' ' ++ (value ++ line_tail after rest) in
    let (step, byte) = colon_step k in
    sweep_key key (b':' ∷ tail) 0 h
    ∙ ap (λ j. prepend (map to_lower key) (scan_header (b':' ∷ tail) j no_header)) start
    ∙ ap (prepend (map to_lower key)) (
        header-step b':' k b':' tail no_header (after_colon k) step refl byte
        ∙ ap (put_back b':') (
            sweep_spaces before k (k + 1) (value ++ line_tail after rest)
            ∙ ap (prepend (replicate before b' '))
                (sweep_field (k + 1 + before) k after value rest g)
            ∙ bytes-prepend (replicate before b' ') _))
    ∙ bytes-prepend (map to_lower key) _
