-- ===== src/Client/Effects.antt =====
-- What header lines change of a stream and its client: aisl_stream_set_header of src/stream.c over a
-- list of lines.
use aisl.Prelude.{
  ◌≡◌, refl, ap, ◌∙◌, List, [], ◌∷◌, Bytes, Bool, false, inl, inr, ◌==◌, codes, bytes_eq,
  Bool-cases, map, to_lower, not, if◌then◌else◌,
}
use aisl.StrUtils.{str_cmpi}
use aisl.Stream.{Conn}
use aisl.Stream.Request.{header_effect}
use aisl.Client.Lines.{Line, ArePlain}

-- What header lines change of a stream and its client.
abbrev pub headers_effect : List Line → Conn → Conn
headers_effect [] c = c
headers_effect (h ∷ hs) c = headers_effect hs (header_effect c (map to_lower h.key) h.value)

pub header_effect-u_ptr :
    (c : Conn) (key value : Bytes) → (header_effect c key value).stream.u_ptr ≡ c.stream.u_ptr
header_effect-u_ptr c key value = elim (Bool-cases (bytes_eq key (codes "content-length"))) [
  | inl e ↦ rw e refl
  | inr e ↦ rw e (elim (Bool-cases (bytes_eq key (codes "connection"))) [
    | inl f ↦ rw f refl
    | inr f ↦ rw f refl
  ])
]

header_effect-plain :
    (c : Conn) (key value : Bytes)
    → bytes_eq key (codes "content-length") ≡ false
    → ((header_effect c key value).stream ≡ c.stream)
      × ((header_effect c key value).http_version ≡ c.http_version)
header_effect-plain c key value e = rw e (elim (Bool-cases (bytes_eq key (codes "connection"))) [
  | inl f ↦ rw f (refl, refl)
  | inr f ↦ rw f (refl, refl)
])

-- What plain header lines leave of the stream and the version.
pub headers_effect-plain :
    (hs : List Line) (c : Conn)
    → ArePlain hs
    → ((headers_effect hs c).stream ≡ c.stream)
      × ((headers_effect hs c).http_version ≡ c.http_version)
headers_effect-plain [] c h = (refl, refl)
headers_effect-plain (l ∷ hs) c (_, _, other, lines) =
    let key = map to_lower l.key in
    let (stream, version) = headers_effect-plain hs (header_effect c key l.value) lines in
    let (stream', version') = header_effect-plain c key l.value other in
    (stream ∙ stream', version ∙ version')

-- The keep-alive that header lines leave, after `keepalive`.
abbrev pub asked_keepalive : List Line → Bool → Bool
asked_keepalive [] keepalive = keepalive
asked_keepalive (h ∷ hs) keepalive = asked_keepalive hs (
    if bytes_eq (map to_lower h.key) (codes "connection")
    then not (str_cmpi h.value (codes "close") == 0)
    else keepalive)

header_effect-keepalive :
    (c : Conn) (key value : Bytes)
    → bytes_eq key (codes "content-length") ≡ false
    → (header_effect c key value).keepalive ≡ (
        if bytes_eq key (codes "connection")
        then not (str_cmpi value (codes "close") == 0)
        else c.keepalive)
header_effect-keepalive c key value e =
    rw e (elim (Bool-cases (bytes_eq key (codes "connection"))) [
      | inl f ↦ rw f refl
      | inr f ↦ rw f refl
    ])

pub headers_effect-keepalive :
    (hs : List Line) (c : Conn)
    → ArePlain hs
    → (headers_effect hs c).keepalive ≡ asked_keepalive hs c.keepalive
headers_effect-keepalive [] c h = refl
headers_effect-keepalive (l ∷ hs) c (_, _, other, lines) =
    let key = map to_lower l.key in
    headers_effect-keepalive hs (header_effect c key l.value) lines
    ∙ ap (asked_keepalive hs) (header_effect-keepalive c key l.value other)
