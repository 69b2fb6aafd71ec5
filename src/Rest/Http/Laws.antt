-- ===== src/Rest/Http/Laws.antt =====
-- The statuses of errors and the reading of a body (src/api/rest/errors.ts, src/api/rest/router.ts).
use bapc_vpn_and_digital_sec.Base.{
  ℕ, ◌+◌, ◌≤◌, ◌<◌, String, ◌≡◌, refl, sym, ap, ◌⊎◌, inl, inr, ◌||◌, Option, none, some, List, [],
  ◌∷◌, ◌++◌, arith, if◌then◌else◌, ltb, ◌==◌, number_eq, string_eq, Bool-cases, length,
}
use mathlib.Core.List.{append_assoc, append-nil}
use bapc_vpn_and_digital_sec.Json.{Json, obj, end}
use bapc_vpn_and_digital_sec.Domain.{Error}
use bapc_vpn_and_digital_sec.Rest.Replay.{done, fails}
use bapc_vpn_and_digital_sec.Rest.Http.{
  failed, message, from_message, as_http_error, read_chunks, too_large, parse_body, read_json,
  Request,
}

-- An error that a handler throws, not an `HttpError` itself, reaches the client as a refusal with its own
-- message under one of the statuses 400, 403 and 404, or as a 500 whose text says nothing of the error.
pub as_http_error-status :
    (of_database : String → String) (e : Error)
    → let r = as_http_error of_database (failed e) in
      ((r.message ≡ message of_database e)
        × ((r.status ≡ 400) ⊎ (r.status ≡ 403) ⊎ (r.status ≡ 404)))
      ⊎ ((r.message ≡ "internal request failure") × (r.status ≡ 500) × (r.code ≡ "internal_error"))
unfolding as_http_error from_message
as_http_error-status of_database e = ground arith

abbrev pub total_length : List (List ℕ) → ℕ
total_length [] = 0
total_length (c ∷ cs) = length c + total_length cs

abbrev pub concat : List (List ℕ) → List ℕ
concat [] = []
concat (c ∷ cs) = c ++ concat cs

read_chunks-over :
    (size : ℕ) (read : List ℕ) (cs : List (List ℕ))
    → 1000000 < size + total_length cs
    → size ≤ 1000000
    → read_chunks size read cs ≡ none
unfolding read_chunks
read_chunks-over size read [] h k = ground arith
read_chunks-over size read (c ∷ cs) h k =
    ground (arith, read_chunks-over (size + length c) (read ++ c) cs)

read_chunks-within :
    (size : ℕ) (read : List ℕ) (cs : List (List ℕ))
    → size + total_length cs ≤ 1000000
    → read_chunks size read cs ≡ some (read ++ concat cs)
unfolding read_chunks
read_chunks-within size read [] h = ap some (sym (append-nil read))
read_chunks-within size read (c ∷ cs) h =
    rw (sym (append_assoc read c (concat cs)))
      (ground (arith, read_chunks-within (size + length c) (read ++ c) cs))

-- The reading of a body chunk by chunk gives what the whole body gives: nothing for a GET or HEAD, the
-- refusal with 413 exactly if its chunks have more than a million bytes together, and otherwise the
-- outcome of the content type and the parser on the chunks put together.
pub read_json_whole :
    (parse_json : List ℕ → Option Json) (req : Request)
    → read_json parse_json req ≡ (
        if req.method == "GET" || req.method == "HEAD"
        then done (obj end)
        else if ltb 1000000 (total_length req.chunks)
        then fails too_large
        else parse_body parse_json req.content_type req.chunks (concat req.chunks))
unfolding read_json
read_json_whole parse_json req = elim (Bool-cases (ltb 1000000 (total_length req.chunks))) [
  | inl e ↦ rw e (rw (read_chunks-over 0 [] req.chunks (ground arith) (omega arith)) refl)
  | inr e ↦ rw e (rw (read_chunks-within 0 [] req.chunks (ground arith)) refl)
]
