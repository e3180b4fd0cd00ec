-- ===== src/Stream/Pointer.antt =====
-- The user's pointer of a stream under the functions of src/stream.c that write a response.
use aisl.Prelude.{
  ℕ, ◌≡◌, refl, ◌∙◌, Option, none, some, Bytes, Bool, true, false, ltb, if◌then◌else◌, ◌==◌,
}
use aisl.Prelude.Alloc.{Alloc}
use aisl.Types.{
  Status, success, malloc_error, idle, input_error, extcall_error, syscall_error, auto_length,
}
use aisl.Types.Response.{HttpResponse}
use aisl.Stream.{Conn, rank, ready, send_body}
use aisl.Stream.Response.{
  Part, aisl_response, responded, aisl_start_response, started, marked, unless, continued, ◌>>◌,
  start_part, server_part, content_type_part, content_length_part, connection_part, blank_part,
  aisl_stream_close_headers, printf,
}
use aisl.Stream.Write.{
  in_body, with_closed_headers, aisl_vprintf, finished, length_inserted, marked_length, aisl_flush,
}

-- The pointer after a call is `p`.
abbrev pub Points : {W R : Type 0} → ℕ → W × Conn × R → Type 0
Points p (_, c, _) = c.stream.u_ptr ≡ p

Points-if :
    {W R : Type 0} {p : ℕ} (test : Bool) (a b : W × Conn × R)
    → Points p a
    → Points p b
    → Points p (if test then a else b)
Points-if true a b h g = h
Points-if false a b h g = g

module _ {W : Type 0} (alloc : Alloc W) where
  responded-Points : (p : ℕ) (r : W × Conn × Option ℕ) → Points p r → Points p (responded alloc r)
  unfolding responded
  responded-Points p (w, c, none) h = h
  responded-Points p (w, c, some n) h = h

  pub aisl_response-Points :
      (w : W) (c : Conn) (code : HttpResponse) (len : ℕ)
      → Points c.stream.u_ptr (aisl_response alloc w c code len)
  unfolding aisl_response
  aisl_response-Points w c code len =
      Points-if (ltb (rank ready) (rank c.stream.state)) (w, c, idle) _ refl
        (responded-Points c.stream.u_ptr _ refl)

  -- A part that leaves the pointer alone.
  abbrev PointsAll : Part alloc → Type 0
  PointsAll part = (w : W) (c : Conn) → Points c.stream.u_ptr (part w c)

  continued-Points :
      (next : Part alloc) (p : ℕ) (r : W × Conn × Bool)
      → PointsAll next
      → Points p r
      → Points p (continued alloc next r)
  unfolding continued
  continued-Points next p (w, c, false) g h = h
  continued-Points next p (w, c, true) g h = g w c ∙ h

  >>-Points :
      (first next : Part alloc)
      → PointsAll first
      → PointsAll next
      → PointsAll (◌>>◌ alloc first next)
  unfolding ◌>>◌
  >>-Points first next f g w c = continued-Points next c.stream.u_ptr (first w c) g (f w c)

  marked-Points :
      (mark : Conn → Conn) (p : ℕ) (r : W × Conn × Option ℕ)
      → ((c : Conn) → (mark c).stream.u_ptr ≡ c.stream.u_ptr)
      → Points p r
      → Points p (marked alloc mark r)
  unfolding marked
  marked-Points mark p (w, c, none) m h = h
  marked-Points mark p (w, c, some n) m h = m c ∙ h

  unless-Points :
      (sent : Bool) (op : W → Conn → W × Conn × Option ℕ) (mark : Conn → Conn) (w : W) (c : Conn)
      → ((c : Conn) → (mark c).stream.u_ptr ≡ c.stream.u_ptr)
      → Points c.stream.u_ptr (op w c)
      → Points c.stream.u_ptr (unless alloc sent op mark w c)
  unfolding unless
  unless-Points true op mark w c m h = refl
  unless-Points false op mark w c m h = marked-Points mark c.stream.u_ptr (op w c) m h

  started-Points : (p : ℕ) (r : W × Conn × Status) → Points p r → Points p (started alloc r)
  unfolding started
  started-Points p (w, c, input_error) h = h
  started-Points p (w, c, extcall_error) h = h
  started-Points p (w, c, syscall_error) h = h
  started-Points p (w, c, malloc_error) h = h
  started-Points p (w, c, success) h = h
  started-Points p (w, c, idle) h = h

  start_part-Points : PointsAll (start_part alloc)
  unfolding start_part aisl_start_response
  start_part-Points w c =
      started-Points c.stream.u_ptr (aisl_response alloc w c HttpResponse.ok auto_length)
        (aisl_response-Points w c HttpResponse.ok auto_length)

  server_part-Points : PointsAll (server_part alloc)
  unfolding server_part
  server_part-Points w c = unless-Points _ _ _ w c (λ c. refl) refl

  content_type_part-Points : PointsAll (content_type_part alloc)
  unfolding content_type_part
  content_type_part-Points w c = unless-Points _ _ _ w c (λ c. refl) refl

  content_length_part-Points : PointsAll (content_length_part alloc)
  unfolding content_length_part
  content_length_part-Points w c = unless-Points _ _ _ w c (λ c. refl) refl

  connection_part-Points : PointsAll (connection_part alloc)
  unfolding connection_part
  connection_part-Points w c = unless-Points _ _ _ w c (λ c. refl) refl

  blank_part-Points : PointsAll (blank_part alloc)
  unfolding blank_part
  blank_part-Points w c = unless-Points false _ _ w c (λ c. refl) refl

  aisl_stream_close_headers-Points : PointsAll (aisl_stream_close_headers alloc)
  unfolding aisl_stream_close_headers
  aisl_stream_close_headers-Points = >>-Points _ _ start_part-Points (
      >>-Points _ _ server_part-Points (
        >>-Points _ _ content_type_part-Points (
          >>-Points _ _ content_length_part-Points
            (>>-Points _ _ connection_part-Points blank_part-Points))))

  in_body-Points :
      (p : ℕ) (text : Bytes) (r : W × Conn × Bool)
      → Points p r
      → Points p (in_body alloc (printf alloc text) r)
  unfolding in_body
  in_body-Points p text (w, c, false) h = h
  in_body-Points p text (w, c, true) h = h

  pub aisl_vprintf-Points :
      (w : W) (c : Conn) (text : Bytes) → Points c.stream.u_ptr (aisl_vprintf alloc w c text)
  unfolding aisl_vprintf with_closed_headers
  aisl_vprintf-Points w c text = in_body-Points c.stream.u_ptr text _ (
      Points-if (ltb (rank c.stream.state) (rank send_body)) (aisl_stream_close_headers alloc w c)
        (w, c, true) (aisl_stream_close_headers-Points w c) refl)

  length_inserted-Points :
      (p : ℕ) (r : W × Conn × Option ℕ) → Points p r → Points p (length_inserted alloc r)
  unfolding length_inserted finished
  length_inserted-Points p (w, c, none) h = h
  length_inserted-Points p (w, c, some n) h = h

  finished-Points : (p : ℕ) (r : W × Conn × Bool) → Points p r → Points p (finished alloc r)
  unfolding finished
  finished-Points p (w, c, ok) h = h

  marked_length-Points :
      (p : ℕ) (r : W × Conn × Bool) → Points p r → Points p (marked_length alloc r)
  unfolding marked_length
  marked_length-Points p (w, c, ok) h = h

  pub aisl_flush-Points : (w : W) (c : Conn) → Points c.stream.u_ptr (aisl_flush alloc w c)
  unfolding aisl_flush
  aisl_flush-Points w c =
      let p = c.stream.u_ptr in
      let closed = aisl_stream_close_headers alloc w c in
      Points-if c.stream.content_length_header_sent (finished alloc (w, c, true)) _
        (finished-Points p (w, c, true) refl)
        (Points-if (c.stream.body_offset == 0) (finished alloc (marked_length alloc closed)) _
          (finished-Points p (marked_length alloc closed)
            (marked_length-Points p closed (aisl_stream_close_headers-Points w c)))
          (length_inserted-Points p _ refl))
