-- ===== src/Control/Http/Routes.antt =====
-- control/server/routes.go: what holds of every request.
use netproject.Shared.{
  ℕ, ◌≡◌, ◌≢◌, ◌⊎◌, ◌<◌, refl, List, [], ◌∷◌, true, Option, none, some, arith, inl, inr, Outcome,
  ok, err, panic, Option-cases, length, All, Outcome-cases,
}
use netproject.Bytes.{IsByte}
use netproject.Netip.{NetText}
use netproject.Keys.{zero_key}
use netproject.Keys.Base64.{encode}
use netproject.Keys.Lengths.{unmarshal_text_overflow}
use netproject.Control.Database.{Query, no_result}
use netproject.Control.Service.{
  Service, Env, LoginResponse, answers_with, login_node, update, UpdateRequest, UpdateResponse,
  ServiceError, update_looked_up, update_checked, waits, Poll,
}
use netproject.Control.Service.Login.{login_error_unchanged}
use netproject.Control.Wire.{Json, unmarshal_login, unmarshal_update, unmarshal_keys}
use netproject.Control.Http.{
  Method, method_get, method_head, method_other, Request, Response, Served, Ambient, responds,
  polls, aborts, shuts_down, upgrades, login_path, method_post, method_options, login_handler,
  serve_mux, with_cors, handle, cors_middleware, message, failed_to_marshal, login_answer,
  update_handler, poll_answer,
}

Method-cases : (m : Method) → (m ≡ method_options) ⊎ (m ≢ method_options)
Method-cases method_options = inl refl
Method-cases method_get = inr (λ e. absurd (ground (arith, e)))
Method-cases method_head = inr (λ e. absurd (ground (arith, e)))
Method-cases method_post = inr (λ e. absurd (ground (arith, e)))
Method-cases method_other = inr (λ e. absurd (ground (arith, e)))

with_cors-responds :
    (served : Served) (x : Response)
    → with_cors served ≡ responds x
    → (y : Response) × (served ≡ responds y) × (x ≡ record y { cors = true })
unfolding with_cors
with_cors-responds (responds r) x e = (r, refl, ground (arith, e))
with_cors-responds (polls _) x e = absurd (ground (arith, e))
with_cors-responds aborts x e = absurd (ground (arith, e))
with_cors-responds shuts_down x e = absurd (ground (arith, e))
with_cors-responds (upgrades _) x e = absurd (ground (arith, e))

with_cors-cors : (served : Served) (x : Response) → with_cors served ≡ responds x → x.cors ≡ true
with_cors-cors served x e = let (y, _, same) = with_cors-responds served x e in rw same refl

-- The answer is not the normal one, and not that the normal one could not be written.
abbrev pub IsRefusal : Response → Type 0
IsRefusal x = (x.status ≢ 200) × (x.body ≢ message failed_to_marshal)

IsRefusal-cors : (x y : Response) → x ≡ record y { cors = true } → IsRefusal x → IsRefusal y
IsRefusal-cors x y e h = ((λ s. h.0 (cc (e, s))), (λ b. h.1 (cc (e, b))))

module _ ⦃text : NetText⦄ ⦃json : Json⦄ where
  -- Every answer has the CORS headers.
  pub handle-cors :
      (w : Ambient) (r : Request) (s : Service) (x : Response)
      → (handle w r s).1 ≡ responds x
      → x.cors ≡ true
  unfolding handle cors_middleware
  handle-cors w r s x e = ground (arith, e, with_cors-cors (serve_mux w r s).1 x)

  login_answer_refusal :
      (result : Outcome ServiceError LoginResponse) (x : Response)
      → login_answer result ≡ responds x
      → IsRefusal x
      → (e : ServiceError) × (result ≡ err e)
  unfolding login_answer
  login_answer_refusal (ok r) x e h = elim (Option-cases (json.encode_login_response r)) [
    | inl f ↦ absurd (h.1 (ground (arith, e, f)))
    | inr (b, f) ↦ absurd (h.0 (ground (arith, e, f)))
  ]
  login_answer_refusal (err e) x _ h = (e, refl)
  login_answer_refusal panic x e h = absurd (ground (arith, e))

  login_refusal_unchanged :
      (env : Env) (body : Option (List ℕ)) (s : Service) (x : Response)
      → env.insert ≢ no_result
      → (login_handler env body s).1 ≡ responds x
      → IsRefusal x
      → (login_handler env body s).0 ≡ s
  unfolding login_handler
  login_refusal_unchanged env none s x ne e h = refl
  login_refusal_unchanged env (some body) s x ne e h = elim (Outcome-cases (unmarshal_login body)) [
    | inl (req, f) ↦
        let (error, g) = login_answer_refusal (login_node env req s).1 x (ground (arith, e, f)) h in
        ground (arith, f, login_error_unchanged env req s error ne g)
    | inr (inl (j, f)) ↦ ground (arith, f)
    | inr (inr f) ↦ ground (arith, f)
  ]

  update_answers_unchanged :
      (lookup list : Query) (now : ℕ) (req : UpdateRequest) (s : Service)
      (result : Outcome ServiceError UpdateResponse)
      → (update lookup list now req s).1 ≡ answers_with result
      → (update lookup list now req s).0 ≡ s
  unfolding update update_looked_up update_checked
  update_answers_unchanged lookup list now req s result e = ground arith

  poll_answer-responds :
      (poll : Poll) (x : Response)
      → poll_answer poll ≡ responds x
      → (result : Outcome ServiceError UpdateResponse) × (poll ≡ answers_with result)
  unfolding poll_answer
  poll_answer-responds (answers_with result) x e = (result, refl)
  poll_answer-responds (waits id) x e = absurd (ground (arith, e))

  update_refusal_unchanged :
      (lookup list : Query) (now : ℕ) (body : Option (List ℕ)) (s : Service) (x : Response)
      → (update_handler lookup list now body s).1 ≡ responds x
      → (update_handler lookup list now body s).0 ≡ s
  unfolding update_handler
  update_refusal_unchanged lookup list now none s x e = refl
  update_refusal_unchanged lookup list now (some body) s x e =
      elim (Outcome-cases (unmarshal_update body)) [
        | inl (req, f) ↦
            let (result, g) =
              poll_answer-responds (update lookup list now req s).1 x (ground (arith, e, f)) in
            ground (arith, f, update_answers_unchanged lookup list now req s result g)
        | inr (inl (j, f)) ↦ ground (arith, f)
        | inr (inr f) ↦ ground (arith, f)
      ]

  serve_mux_refusal_unchanged :
      (w : Ambient) (r : Request) (s : Service) (x : Response)
      → w.env.insert ≢ no_result
      → (serve_mux w r s).1 ≡ responds x
      → IsRefusal x
      → (serve_mux w r s).0 ≡ s
  unfolding serve_mux
  serve_mux_refusal_unchanged w r s x ne e h = ground (
    arith,
    e,
    login_refusal_unchanged w.env r.body s x ne,
    update_refusal_unchanged w.env.lookup w.list w.now r.body s x,
  )

  -- A request over HTTP that is answered at once, without a wait, with any answer but the normal
  -- one leaves the service as it was, unless the row was written and the driver has no id for it,
  -- or the normal answer could not be written.
  pub refusal_unchanged :
      (w : Ambient) (r : Request) (s : Service) (x : Response)
      → w.env.insert ≢ no_result
      → (handle w r s).1 ≡ responds x
      → IsRefusal x
      → (handle w r s).0 ≡ s
  unfolding handle cors_middleware
  refusal_unchanged w r s x ne e h = elim (Method-cases r.method) [
    | inl m ↦ ground (arith, m)
    | inr n ↦
        let (y, f, same) = with_cors-responds (serve_mux w r s).1 x (ground (arith, e, n)) in
        let unchanged = serve_mux_refusal_unchanged w r s y ne f (IsRefusal-cors x y same h) in
        ground (arith, n, unchanged)
  ]

  -- A login over HTTP whose body holds a standard base64 text of more than 32 bytes for the key
  -- makes the handler panic: the client gets no answer, and the service stays as it was.
  pub login_overflow :
      (w : Ambient) (r : Request) (s : Service) (body bs : List ℕ)
      → r.method ≡ method_post
      → r.path ≡ login_path
      → r.body ≡ some body
      → json.decode_login body ≡ some (encode bs ∷ [])
      → All IsByte bs
      → 32 < length bs
      → handle w r s ≡ (s, aborts)
  unfolding handle cors_middleware serve_mux with_cors login_handler unmarshal_login unmarshal_keys
  login_overflow w r s body bs m p b d h over =
      ground (arith, m, p, b, d, unmarshal_text_overflow zero_key bs h over)
