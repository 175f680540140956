-- ===== src/RequestDuration/Writer.antt =====
-- The HTTP form's response: `bufferedResponseWriter`, and what is written where the loop ends.
use stellar_rpc.Prelude.{
  ℕ, ◌≡◌, ◌≢◌, refl, sym, ap, ◌∙◌, Bool, true, Option, none, some, List, [], ◌∷◌, ◌++◌, append-nil,
  append_assoc, ◌==◌, ne→==, suc-==-zero, if◌then◌else◌, length,
}
use stellar_rpc.RequestDuration.{Reply, exceeded, context_failed, replied, failed}

-- `http.Header`, by name
abbrev pub Header : Type 0
Header = List (ℕ × ℕ)

unfoldable pub put : Header → ℕ → ℕ → Header
put [] name value = (name, value) ∷ []
put ((n, v) ∷ header) name value =
    if n == name then (name, value) ∷ header else (n, v) ∷ put header name value

-- Go's http.ResponseWriter: the first status is sent, with the headers that are set at that time.
pub record ResponseWriter : Type 0 where
  pub header : Header
  pub sent : Option (ℕ × Header)
  pub body : List ℕ

unfoldable pub send : ℕ → ResponseWriter → ResponseWriter
send status rw = elim rw.sent [ none ↦ record rw { sent = some (status, rw.header) } | some s ↦ rw ]

unfoldable pub put_body : List ℕ → ResponseWriter → ResponseWriter
unfolding send
put_body buf rw = let rw' = send 200 rw in record rw' { body = rw'.body ++ buf }

-- `bufferedResponseWriter`
pub record BufferedResponseWriter : Type 0 where
  pub header : Header
  pub buffer : List ℕ
  pub status_code : ℕ

-- `makeBufferedResponseWriter`
unfoldable pub make_buffered_response_writer : ResponseWriter → BufferedResponseWriter
make_buffered_response_writer rw = record { header = rw.header; buffer = []; status_code = 0 }

-- `Write` and `WriteHeader`
unfoldable pub write : List ℕ → BufferedResponseWriter → BufferedResponseWriter
write buf w = record w { buffer = w.buffer ++ buf }

unfoldable pub write_header : ℕ → BufferedResponseWriter → BufferedResponseWriter
write_header status w = record w { status_code = status }

-- `WriteOut`, where the request's context has failed or not
unfoldable pub write_out : Bool → BufferedResponseWriter → ResponseWriter → ResponseWriter
unfolding send put_body
write_out is_alive w rw =
    let headed = record rw { header = w.header } in
    let with_status = if w.status_code == 0 then headed else send w.status_code headed in
    if length w.buffer == 0
    then with_status
    else if is_alive
    then put_body w.buffer with_status
    else with_status

-- How `ServeHTTP` answers
unfoldable pub serve_reply : Bool → Reply BufferedResponseWriter → ResponseWriter → ResponseWriter
serve_reply is_alive exceeded rw = send 504 rw
serve_reply is_alive context_failed rw = rw
serve_reply is_alive (replied w) rw = write_out is_alive w rw
serve_reply is_alive failed rw = send 500 rw

-- What a handler calls: it sets headers, then writes its status if it has one, and then its body.
pub record WriterCalls : Type 0 where
  pub headers : List (ℕ × ℕ)
  pub status : Option ℕ
  pub chunks : List (List ℕ)

abbrev pub puts : Header → List (ℕ × ℕ) → Header
puts header [] = header
puts header ((n, v) ∷ hs) = puts (put header n v) hs

abbrev pub buffer_chunks : List (List ℕ) → BufferedResponseWriter → BufferedResponseWriter
buffer_chunks [] w = w
buffer_chunks (c ∷ cs) w = buffer_chunks cs (write c w)

abbrev pub send_chunks : List (List ℕ) → ResponseWriter → ResponseWriter
send_chunks [] rw = rw
send_chunks (c ∷ cs) rw = send_chunks cs (put_body c rw)

abbrev pub with_buffered : Option ℕ → BufferedResponseWriter → BufferedResponseWriter
with_buffered none w = w
with_buffered (some status) w = write_header status w

abbrev pub with_sent : Option ℕ → ResponseWriter → ResponseWriter
with_sent none rw = rw
with_sent (some status) rw = send status rw

-- The calls on a buffer, and without one.
abbrev pub run_buffered : WriterCalls → BufferedResponseWriter → BufferedResponseWriter
run_buffered calls w =
    let headed = record w { header = puts w.header calls.headers } in
    buffer_chunks calls.chunks (with_buffered calls.status headed)

abbrev pub run_direct : WriterCalls → ResponseWriter → ResponseWriter
run_direct calls rw =
    let headed = record rw { header = puts rw.header calls.headers } in
    send_chunks calls.chunks (with_sent calls.status headed)

abbrev concat : List (List ℕ) → List ℕ
concat [] = []
concat (c ∷ cs) = c ++ concat cs

buffer_chunks_lem :
    (cs : List (List ℕ)) (w : BufferedResponseWriter)
    → buffer_chunks cs w ≡ record w { buffer = w.buffer ++ concat cs }
unfolding write
buffer_chunks_lem [] w = ap (λ b. record w { buffer = b }) (sym (append-nil w.buffer))
buffer_chunks_lem (c ∷ cs) w =
    buffer_chunks_lem cs (write c w)
    ∙ ap (λ b. record w { buffer = b }) (append_assoc w.buffer c (concat cs))

-- The response that the server sends when the handler is done.
abbrev pub finish : ResponseWriter → ResponseWriter
finish rw = send 200 rw

sent_chunks_lem :
    (cs : List (List ℕ)) (header : Header) (sent : ℕ × Header) (body : List ℕ)
    → send_chunks cs (record { header = header; sent = some sent; body = body })
      ≡ record { header = header; sent = some sent; body = body ++ concat cs }
unfolding put_body send
sent_chunks_lem [] header sent body =
    ap (λ b. record { header = header; sent = some sent; body = b }) (sym (append-nil body))
sent_chunks_lem (c ∷ cs) header sent body =
    sent_chunks_lem cs header sent (body ++ c)
    ∙ ap (λ b. record { header = header; sent = some sent; body = b })
        (append_assoc body c (concat cs))

new_chunks_lem :
    (cs : List (List ℕ)) (header : Header) (body : List ℕ)
    → finish (send_chunks cs (record { header = header; sent = none; body = body }))
      ≡ record { header = header; sent = some (200, header); body = body ++ concat cs }
unfolding put_body send
new_chunks_lem [] header body =
    ap (λ b. record { header = header; sent = some (200, header); body = b })
      (sym (append-nil body))
new_chunks_lem (c ∷ cs) header body =
    ap finish (sent_chunks_lem cs header (200, header) (body ++ c))
    ∙ ap (λ b. record { header = header; sent = some (200, header); body = b })
        (append_assoc body c (concat cs))

write_out-unsent :
    (header header' : Header) (body buf : List ℕ)
    → finish (
        write_out true
          (record { header = header; buffer = buf; status_code = 0 })
          (record { header = header'; sent = none; body = body }))
      ≡ record { header = header; sent = some (200, header); body = body ++ buf }
unfolding write_out send put_body
write_out-unsent header header' body [] =
    ap (λ b. record { header = header; sent = some (200, header); body = b })
      (sym (append-nil body))
write_out-unsent header header' body (b ∷ bs) = rw (suc-==-zero (length bs)) refl

write_out-sent :
    (status : ℕ) (header header' : Header) (body buf : List ℕ)
    → status ≢ 0
    → finish (
        write_out true
          (record { header = header; buffer = buf; status_code = status })
          (record { header = header'; sent = none; body = body }))
      ≡ record { header = header; sent = some (status, header); body = body ++ buf }
unfolding write_out send put_body
write_out-sent status header header' body [] some_status = rw (ne→== status 0 some_status) (
    ap (λ b. record { header = header; sent = some (status, header); body = b })
      (sym (append-nil body)))
write_out-sent status header header' body (b ∷ bs) some_status =
    rw (suc-==-zero (length bs), ne→== status 0 some_status) refl

by_status :
    (status : Option ℕ) (chunks : List (List ℕ)) (header header' : Header) (body : List ℕ)
    → ((st : ℕ) → status ≡ some st → st ≢ 0)
    → finish (
        write_out true
          (buffer_chunks chunks
            (with_buffered status (record { header = header; buffer = []; status_code = 0 })))
          (record { header = header'; sent = none; body = body }))
      ≡ finish (
          send_chunks chunks
            (with_sent status (record { header = header; sent = none; body = body })))
unfolding write_header send
by_status none chunks header header' body some_status =
    ap (λ w. finish (write_out true w (record { header = header'; sent = none; body = body })))
      (buffer_chunks_lem chunks (record { header = header; buffer = []; status_code = 0 }))
    ∙ write_out-unsent header header' body (concat chunks)
    ∙ sym (new_chunks_lem chunks header body)
by_status (some st) chunks header header' body some_status =
    ap (λ w. finish (write_out true w (record { header = header'; sent = none; body = body })))
      (buffer_chunks_lem chunks (record { header = header; buffer = []; status_code = st }))
    ∙ write_out-sent st header header' body (concat chunks) (some_status st refl)
    ∙ sym (ap finish (sent_chunks_lem chunks header (st, header) body))

-- A handler that sets its headers, then its status (a number that is not 0), if any, and then writes its
-- body, is answered through the buffer as it is without one: same status, headers and body, where
-- nothing was sent before and the request's context is alive.
pub write_out-direct :
    (calls : WriterCalls) (header : Header) (body : List ℕ)
    → ((status : ℕ) → calls.status ≡ some status → status ≢ 0)
    → let rw : ResponseWriter = record { header = header; sent = none; body = body } in
      finish (serve_reply true (replied (run_buffered calls (make_buffered_response_writer rw))) rw)
      ≡ finish (run_direct calls rw)
unfolding serve_reply make_buffered_response_writer
write_out-direct calls header body some_status =
    by_status calls.status calls.chunks (puts header calls.headers) header body some_status
