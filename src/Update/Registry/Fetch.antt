-- ===== src/Update/Registry/Fetch.antt =====
-- What a request and a fetch return: an answer of the network, checked against its digest.
use hadron_desktop.Base.{
  ◌≡◌, ◌⊎◌, inl, inr, refl, ap, ◌∙◌, Bool, true, false, Option, none, some, List, [], ◌==◌,
  Bool-cases, if◌then◌else◌, arith,
}
use hadron_desktop.Base.Text.{Text, text_eq_iff, is_empty_iff}
use hadron_desktop.Update.Registry.{
  Method, get_method, Request, Response, Web, RegError, Result, ok, err, Client, M, ◌>>=◌, fail,
  received, ask, send, authorization_of, new_token, retry, challenged, do_request, digest_of,
  check_wanted, check_header, check_body, fetched, checked, fetch,
}

-- The network gave the response to a request for the URL.
pub record Answered (w : Web) (method : Method) (u : Text) (r : Response) : Type 0 where
  pub before : List Request
  pub authorization : Text
  pub answer_eq :
      w.answer before (record { method = method; url = u; authorization = authorization }) ≡ some r

-- It answered a GET of the URL with the body.
pub record Served (w : Web) (u : Text) (body : Text) : Type 0 where
  pub response : Response
  pub answered : Answered w get_method u response
  pub status_ok : response.status ≡ 200
  pub body_eq : response.body ≡ some body

pub bind_ok {ℓ κ} :
    {A : Type ℓ} {B : Type κ} (m : M A) (f : A → M B) (c : Client) {b : B} {d : Client}
    → (m >>= f) c ≡ (ok b, d)
    → (a : A) × (e : Client) × (m c ≡ (ok a, e)) × (f a e ≡ (ok b, d))
bind_ok {A = A} {B = B} m f c {b = b} {d = d} h = split (m c) refl h
  where
    split :
        (p : Result A × Client)
        → m c ≡ p
        → elim p.0 [ ok a ↦ f a p.1 | err e ↦ (err e, p.1) ] ≡ (ok b, d)
        → (a : A) × (e : Client) × (m c ≡ (ok a, e)) × (f a e ≡ (ok b, d))
    split (ok a, e) k h = (a, e, k, h)
    split (err x, e) k h = absurd (cc (h))

received-eq_ok : (o : Option Response) (r : Response) → received o ≡ ok r → o ≡ some r
unfolding received
received-eq_ok none r h = absurd (cc h)
received-eq_ok (some s) r h = ground arith

send-eq_ok :
    (w : Web) (method : Method) (u : Text) (c d : Client) (r : Response)
    → send w method u c ≡ (ok r, d)
    → Answered w method u r
unfolding send ask
send-eq_ok w method u c d r h = record {
  before = c.log;
  authorization = authorization_of c.token;
  answer_eq = received-eq_ok _ r (ap (λ (p : Result Response × Client). p.0) h);
}

retry-eq_ok :
    (w : Web) (method : Method) (u challenge : Text) (c d : Client) (r : Response)
    → retry w method u challenge c ≡ (ok r, d)
    → Answered w method u r
unfolding retry
retry-eq_ok w method u challenge c d r h =
    let (token, e, _, k) = bind_ok (new_token w challenge) (λ (t : Text). send w method u) c h in
    send-eq_ok w method u e d r k

challenged-eq_ok :
    (w : Web) (method : Method) (u : Text) (first : Response) (c e d : Client) (r : Response)
    → send w method u c ≡ (ok first, e)
    → challenged w method u first e ≡ (ok r, d)
    → Answered w method u r
unfolding challenged
challenged-eq_ok w method u first c e d r sent h = elim (Bool-cases (first.status == 401)) [
  | inl f ↦ retry-eq_ok w method u first.challenge e d r (rw f at h)
  | inr f ↦ send-eq_ok w method u c d r (sent ∙ (rw f at h))
]

do_request-eq_ok :
    (w : Web) (method : Method) (u : Text) (c d : Client) (r : Response)
    → do_request w method u c ≡ (ok r, d)
    → Answered w method u r
unfolding do_request
do_request-eq_ok w method u c d r h =
    let (first, e, sent, k) = bind_ok (send w method u) (challenged w method u) c h in
    challenged-eq_ok w method u first c e d r sent k

-- The checks of `fetch`.
check_wanted-eq_ok :
    (body digest want b d : Text)
    → check_wanted body digest want ≡ ok (b, d)
    → (b ≡ body) × (d ≡ digest) × ((want ≡ []) ⊎ (want ≡ digest))
unfolding check_wanted
check_wanted-eq_ok body digest want b d h =
    ground (arith, is_empty_iff want, text_eq_iff want digest)

check_header-eq_ok :
    (body digest header want b d : Text)
    → check_header body digest header want ≡ ok (b, d)
    → (b ≡ body) × (d ≡ digest) × ((want ≡ []) ⊎ (want ≡ digest))
unfolding check_header
check_header-eq_ok body digest header want b d h =
    ground (arith, check_wanted-eq_ok body digest want b d)

check_body-eq_ok :
    (w : Web) (o : Option Text) (header want b d : Text)
    → check_body w o header want ≡ ok (b, d)
    → (o ≡ some b) × (d ≡ digest_of w b) × ((want ≡ []) ⊎ (want ≡ d))
unfolding check_body
check_body-eq_ok w none header want b d h = absurd (cc h)
check_body-eq_ok w (some body) header want b d h =
    ground (arith, check_header-eq_ok body (digest_of w body) header want b d)

fetched-eq_ok :
    (w : Web) (want : Text) (r : Response) (b d : Text)
    → fetched w want r ≡ ok (b, d)
    → (r.status ≡ 200) × (r.body ≡ some b) × (d ≡ digest_of w b) × ((want ≡ []) ⊎ (want ≡ d))
unfolding fetched
fetched-eq_ok w want r b d h = ground (arith, check_body-eq_ok w r.body r.content_digest want b d)

-- A body that `fetch` returns was served for the URL, its digest is computed over it, and is the one
-- that was wanted.
pub fetch-eq_ok :
    (w : Web) (u want : Text) (c e : Client) (b d : Text)
    → fetch w u want c ≡ (ok (b, d), e)
    → Served w u b × (d ≡ digest_of w b) × ((want ≡ []) ⊎ (want ≡ d))
unfolding fetch checked
fetch-eq_ok w u want c e b d h =
    let (r, f, sent, k) = bind_ok (do_request w get_method u) (checked w want) c h in
    let (status, body, same, wanted) =
      fetched-eq_ok w want r b d (ap (λ (p : Result (Text × Text) × Client). p.0) k) in
    (
      record {
        response = r;
        answered = do_request-eq_ok w get_method u c f r sent;
        status_ok = status;
        body_eq = body;
      },
      same,
      wanted,
    )

-- What follows a check that fails otherwise.
pub past_check {ℓ} :
    {A : Type ℓ} (b : Bool) (x : RegError) (m : M A) (c : Client) {a : A} {d : Client}
    → (if b then fail x else m) c ≡ (ok a, d)
    → (b ≡ false) × (m c ≡ (ok a, d))
past_check true x m c h = absurd (cc h)
past_check false x m c h = (refl, h)
