-- ===== src/Http/Frame.antt =====
-- How much of the input a request line takes.
use aisl.Prelude.{
  ℕ, ◌+◌, ◌<◌, ◌≡◌, refl, ap, inl, inr, Option, none, some, ◌++◌, [], ◌∷◌, not, ◌≢◌, Bool, Bytes,
  length, take, ◌==◌, if◌then◌else◌, arith, Option-cases, true, length-append,
}
use aisl.Http.{
  Marks, unmarked, Request, hungry, request, request_char, parse_request_line, scan_request,
}
use aisl.Http.Scan.{all_chars}
use aisl.Http.Accepted.{parse_request_line-Scanned, verified-hungry}

abbrev pub not_newline : ℕ → Bool
not_newline c = not (c == b'\n')

-- `left` bytes of `xs` stand behind its first newline.
pub record FirstLine (xs : Bytes) (left : ℕ) : Type 0 where
  pub line : Bytes
  pub rest : Bytes
  pub splits : xs ≡ line ++ b'\n' ∷ rest
  pub no_newline : all_chars not_newline line ≡ true
  pub left_eq : left ≡ length rest

newline-request_char :
    (c i : ℕ) (m m' : Marks)
    → m.newline ≡ none
    → request_char c i m ≡ some m'
    → m'.newline ≡ (if c == b'\n' then some i else none)
unfolding request_char
newline-request_char c i m m' n e = ground arith

FirstLine-cons :
    (c : ℕ) (cs : Bytes) (left : ℕ)
    → not_newline c ≡ true
    → FirstLine cs left
    → FirstLine (c ∷ cs) left
FirstLine-cons c cs left n f = record {
  line = c ∷ f.line;
  rest = f.rest;
  splits = ap (◌∷◌ c) f.splits;
  no_newline = rw n f.no_newline;
  left_eq = f.left_eq;
}

pub shorter : (xs : Bytes) (left : ℕ) → FirstLine xs left → left < length xs
shorter xs left f =
    let len = ap length f.splits in omega (arith, f.left_eq, length-append f.line (b'\n' ∷ f.rest))

-- What the loop has seen when it stops.
abbrev pub Stops : Bytes → Option ℕ → ℕ → Type 0
Stops xs none left = all_chars not_newline xs ≡ true
Stops xs (some _) left = FirstLine xs left

pub Stops-cons :
    (c : ℕ) (cs : Bytes) (newline : Option ℕ) (left : ℕ)
    → not_newline c ≡ true
    → Stops cs newline left
    → Stops (c ∷ cs) newline left
Stops-cons c cs none left n h = rw n h
Stops-cons c cs (some k) left n h = FirstLine-cons c cs left n h

module _ (c i : ℕ) (cs : Bytes) (m : Marks) where
  scan_bad :
      (m' : Marks) (left : ℕ)
      → request_char c i m ≡ none
      → scan_request (c ∷ cs) i m ≢ some (m', left)
  unfolding scan_request
  scan_bad m' left bad e = ground arith

  scan_more :
      (m1 m' : Marks) (left : ℕ)
      → request_char c i m ≡ some m1
      → m1.newline ≡ none
      → scan_request (c ∷ cs) i m ≡ some (m', left)
      → scan_request cs (i + 1) m1 ≡ some (m', left)
  unfolding scan_request
  scan_more m1 m' left good more e = ground arith

  scan_done :
      (m1 m' : Marks) (left k : ℕ)
      → request_char c i m ≡ some m1
      → m1.newline ≡ some k
      → scan_request (c ∷ cs) i m ≡ some (m', left)
      → (m' ≡ m1) × (left ≡ length cs)
  unfolding scan_request
  scan_done m1 m' left k good done e = ground arith

scan-Stops :
    (xs : Bytes) (i : ℕ) (m m' : Marks) (left : ℕ)
    → m.newline ≡ none
    → scan_request xs i m ≡ some (m', left)
    → Stops xs m'.newline left
scan-Stops [] i m m' left n e =
    let same : m'.newline ≡ none = unfold scan_request in ground arith in rw same
scan-Stops (c ∷ cs) i m m' left n e = elim (Option-cases (request_char c i m)) [
  | inl bad ↦ absurd (scan_bad c i cs m m' left bad e)
  | inr (m1, good) ↦ elim (Option-cases m1.newline) [
    | inl more ↦
        let char = newline-request_char c i m m1 n good in
        let plain : not_newline c ≡ true = ground arith in
        Stops-cons c cs m'.newline left plain
          (scan-Stops cs (i + 1) m1 m' left more (scan_more c i cs m m1 m' left good more e))
    | inr (k, done) ↦
        let char = newline-request_char c i m m1 n good in
        let byte : c ≡ b'\n' = ground arith in
        let (marks_eq, left_eq) = scan_done c i cs m m1 m' left k good done e in
        rw (marks_eq, done)
          (record {
            line = [];
            rest = cs;
            splits = ap (λ x. x ∷ cs) byte;
            no_newline = refl;
            left_eq = left_eq;
          })
  ]
]

-- What each round of the loop keeps, the loop keeps.
pub scan_inv :
    (P : Marks → Type 0)
    → ((c i : ℕ) (m m' : Marks) → P m → request_char c i m ≡ some m' → P m')
    → (xs : Bytes) (i : ℕ) (m m' : Marks) (left : ℕ) → P m
    → scan_request xs i m ≡ some (m', left)
    → P m'
scan_inv P keep [] i m m' left h e =
    let same : m' ≡ m = unfold scan_request in ground arith in rw same h
scan_inv P keep (c ∷ cs) i m m' left h e = elim (Option-cases (request_char c i m)) [
  | inl bad ↦ absurd (scan_bad c i cs m m' left bad e)
  | inr (m1, good) ↦ elim (Option-cases m1.newline) [
    | inl more ↦
        scan_inv P keep cs (i + 1) m1 m' left (keep c i m m1 h good)
          (scan_more c i cs m m1 m' left good more e)
    | inr (k, done) ↦ rw (scan_done c i cs m m1 m' left k good done e).0 (keep c i m m1 h good)
  ]
]

-- A request is read from input that holds a newline, and what is left is exactly what stands behind
-- the first one: in particular it is shorter than the input.
pub left-parse_request_line :
    (mem mem' : Bytes) (size : ℕ) (r : Request)
    → parse_request_line mem size ≡ (mem', request r)
    → FirstLine (take size mem) r.left × (r.left < length (take size mem))
left-parse_request_line mem mem' size r e =
    let s = parse_request_line-Scanned mem mem' size r e in
    let f = scan-Stops (take size mem) 0 unmarked s.marks s.left refl s.scanned in
    let g : FirstLine (take size mem) s.left = rw s.ended at f in
    let h : FirstLine (take size mem) r.left = rw s.accepted.left_eq g in
    (h, shorter (take size mem) r.left h)

-- The parser asks for more input only where the input holds no newline, and it has changed nothing
-- then.
pub hungry-parse_request_line :
    (mem mem' : Bytes) (size : ℕ)
    → parse_request_line mem size ≡ (mem', hungry)
    → (all_chars not_newline (take size mem) ≡ true) × (mem' ≡ mem)
hungry-parse_request_line mem mem' size e =
    let (m, left, s, n, same) =
      verified-hungry mem mem' (scan_request (take size mem) 0 unmarked)
        (unfold parse_request_line in e) in
    (rw n at (scan-Stops (take size mem) 0 unmarked m left refl s), same)
