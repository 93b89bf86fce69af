-- ===== src/Middleware/Csrf/Issued.antt =====
-- Of what requests get through, and with which tokens.
use rwf.Prelude.{
  ◌+◌, ◌*◌, ◌^◌, ◌<◌, Option, none, some, List, [], ◌∷◌, Bool, true, false, inl, inr, ◌⊎◌, ◌≡◌,
  refl, ap, sym, ◌∙◌, arith, if◌then◌else◌,
}
use rwf.Prelude.Int.{ℤ, pos_part, neg_part}
use rwf.Prelude.Text.{Text, text_eq, text_eq→eq, split, parse_i64}
use rwf.Prelude.Outcome.{Outcome, ok, err, panic, out_of_fuel, ◌>>=◌}
use rwf.Crypto.{
  Bytes, Error, Cipher, Encoding, decrypt, csrf_token_validate, checked, dated, verdict,
}
use rwf.Middleware.{Decision, forward, stop}
use rwf.Middleware.Csrf
use rwf.Middleware.Csrf.{
  Request, Response, csrf_error, Host, is_checked, validate, header_token, form_token,
  handle_request,
}

module _ (h : Host) (c : Cipher) (e : Encoding) where
  open h use {as_bytes, from_utf8_lossy, timestamp, session_duration, now}

  -- A token that was made for the session, a while ago that is shorter than a session
  pub record IsIssued (token session_id : Text) : Type 0 where
    pub plain : Bytes
    pub second : Text
    pub more : List Text
    pub created : ℤ
    pub opens : decrypt c e token ≡ ok plain
    pub parts : split b'_' (from_utf8_lossy plain) ≡ second ∷ session_id ∷ more
    pub time : parse_i64 second ≡ some created
    pub valid : timestamp created ≡ true
    pub young : now + neg_part created * 10 ^ 9 < session_duration + pos_part created * 10 ^ 9

  abbrev date : Text → Option Text → Option ℤ → Bool
  date = dated c e as_bytes from_utf8_lossy timestamp session_duration now

  undated : (session_id : Text) (o : Option ℤ) → date session_id none o ≡ false
  undated session_id none = refl
  undated session_id (some created) = ground arith

  -- What the check of the time and the session finds
  record IsDated (session_id marker : Text) (o : Option ℤ) : Type 0 where
    seconds : ℤ
    same : o ≡ some seconds
    session : marker ≡ session_id
    in_range : timestamp seconds ≡ true
    recent : now + neg_part seconds * 10 ^ 9 < session_duration + pos_part seconds * 10 ^ 9

  date-IsDated :
      (session_id marker : Text) (o : Option ℤ)
      → date session_id (some marker) o ≡ true
      → IsDated session_id marker o
  date-IsDated session_id marker none v = absurd (cc)
  date-IsDated session_id marker (some s) v =
      let t : timestamp s ≡ true = ground (arith, v) in
      let m : text_eq marker session_id ≡ true = ground (arith, v) in
      record {
        seconds = s;
        same = refl;
        session = text_eq→eq marker session_id m;
        in_range = t;
        recent = ground (arith, v);
      }

  parts-IsIssued :
      (token session_id : Text) (plain : Bytes) (ts : List Text)
      → decrypt c e token ≡ ok plain
      → split b'_' (from_utf8_lossy plain) ≡ ts
      → checked c e as_bytes from_utf8_lossy timestamp session_duration now session_id ts ≡ true
      → IsIssued token session_id
  parts-IsIssued token session_id plain [] opens parts v = absurd (cc)
  parts-IsIssued token session_id plain (s ∷ []) opens parts v =
      absurd (cc (undated session_id (parse_i64 s), v))
  parts-IsIssued token session_id plain (s ∷ marker ∷ more) opens parts v =
      let d = date-IsDated session_id marker (parse_i64 s) v in
      record {
        plain = plain;
        second = s;
        more = more;
        created = d.seconds;
        opens = opens;
        parts = parts ∙ ap (λ t. s ∷ t ∷ more) d.session;
        time = d.same;
        valid = d.in_range;
        young = d.recent;
      }

  reply-IsIssued :
      (token session_id : Text) (reply : Outcome Error Bytes)
      → decrypt c e token ≡ reply
      → verdict c e as_bytes from_utf8_lossy timestamp session_duration now session_id reply
        ≡ ok true
      → IsIssued token session_id
  reply-IsIssued token session_id (ok plain) d v =
      parts-IsIssued token session_id plain _ d refl (cc v)
  reply-IsIssued token session_id (err f) d v = absurd (cc)
  reply-IsIssued token session_id panic d v = absurd (cc)
  reply-IsIssued token session_id out_of_fuel d v = absurd (cc)

  validate-IsIssued :
      (token session_id : Text)
      → validate h c e token session_id ≡ ok true
      → IsIssued token session_id
  unfolding validate csrf_token_validate
  validate-IsIssued token session_id v = reply-IsIssued token session_id (decrypt c e token) refl v

  -- What `checked` lets through has a valid token, or is let through otherwise.
  checked-IsIssued :
      (o : Option Text) (r r' : Request) (otherwise : Outcome Error (Decision Request Response))
      → Csrf.checked h c e o r otherwise ≡ ok (forward r')
      → ((token : Text) × (o ≡ some token) × IsIssued token r.session_id)
        ⊎ (otherwise ≡ ok (forward r'))
  checked-IsIssued none r r' otherwise v = inr v
  checked-IsIssued (some token) r r' otherwise v =
      answered (validate h c e token r.session_id) refl v
    where
      answered :
          (reply : Outcome Error Bool)
          → validate h c e token r.session_id ≡ reply
          → (do valid ← reply; if valid then ok (forward r) else otherwise) ≡ ok (forward r')
          → ((t : Text) × (some token ≡ some t) × IsIssued t r.session_id)
            ⊎ (otherwise ≡ ok (forward r'))
      answered (ok true) d w = inl (token, refl, validate-IsIssued token r.session_id d)
      answered (ok false) d w = inr w
      answered (err f) d w = absurd (cc)
      answered panic d w = absurd (cc)
      answered out_of_fuel d w = absurd (cc)

  -- Of a request without a valid token in its header
  form-IsIssued :
      (o : Outcome Error (Option Text)) (r r' : Request)
      → (o >>= λ t. Csrf.checked h c e t r (ok (stop r csrf_error))) ≡ ok (forward r')
      → (token : Text) × (o ≡ ok (some token)) × IsIssued token r.session_id
  form-IsIssued (ok t) r r' v = elim (checked-IsIssued t r r' (ok (stop r csrf_error)) v) [
    | inl (token, found, issued) ↦ (token, ap (λ x. ok x) found, issued)
    | inr stopped ↦ absurd (cc stopped)
  ]
  form-IsIssued (err f) r r' v = absurd (cc)
  form-IsIssued panic r r' v = absurd (cc)
  form-IsIssued out_of_fuel r r' v = absurd (cc)

  handle_lem :
      (r : Request)
      → r.skip_csrf ≡ false
      → is_checked r.method ≡ true
      → handle_request h c e r
        ≡ Csrf.checked h c e
            (header_token h c e r)
            r
            (form_token h c e r >>= λ o. Csrf.checked h c e o r (ok (stop r csrf_error)))
  unfolding handle_request
  handle_lem r skip method = rw (skip, method) refl

  -- A POST, PUT or PATCH request that is checked and that the middleware lets through has, in its
  -- header or its form, a token that is decrypted to a timestamp, the name of the session of the
  -- request, and perhaps more, of which less time has passed than a session lasts.
  pub forwarded-IsIssued :
      (r r' : Request)
      → r.skip_csrf ≡ false
      → is_checked r.method ≡ true
      → handle_request h c e r ≡ ok (forward r')
      → (token : Text) × ((header_token h c e r ≡ some token)
          ⊎ (form_token h c e r ≡ ok (some token)))
        × IsIssued token r.session_id
  forwarded-IsIssued r r' skip method v =
      let otherwise = form_token h c e r >>= λ o. Csrf.checked h c e o r (ok (stop r csrf_error)) in
      elim (checked-IsIssued (header_token h c e r) r r' otherwise
        (sym (handle_lem r skip method) ∙ v)) [
          | inl (token, found, issued) ↦ (token, inl found, issued)
          | inr later ↦
              let (token, found, issued) = form-IsIssued (form_token h c e r) r r' later in
              (token, inr found, issued)
        ]
