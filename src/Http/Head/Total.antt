-- ===== src/Http/Head/Total.antt =====
-- The parser of heads ends.
use rwf.Prelude.{
  ℕ, zero, suc, ◌≤◌, ◌<◌, List, [], ◌∷◌, Bool, false, map, length, is_empty, ◌≡◌, ◌≢◌, arith,
}
use rwf.Prelude.Text.{Text, split, trim}
use rwf.Prelude.Outcome.{
  Outcome, ok, err, panic, out_of_fuel, Ensures, holds, failed, panicked, Ensures-if, Ensures-bind,
  Ensures-out_of_fuel,
}
use rwf.Http.Path.{HttpPath, parse, of_parts, absolute}
use rwf.Http.Head.{
  Bytes, Error, malformed_request, Headers, part, path_of, read_line, add_header, read_headers,
  request_line, read_head,
}
use rwf.Http.Head.Lines.{IsRead, line_from-IsRead}

abbrev Ends {ℓ κ} : {E : Type ℓ} {A : Type κ} → Outcome E A → Type (ℓ ⊔ κ)
Ends r = Ensures (λ a. Unit {0}) r

part-Ends : (i : ℕ) (ts : List Text) → Ends (part i ts)
part-Ends i [] = failed
part-Ends zero (t ∷ ts) = holds tt
part-Ends (suc i) (t ∷ ts) = part-Ends i ts

of_parts-Ends :
    (is_numeric : ℕ → Bool) (path : Text) (ts : List Text) → Ends (of_parts is_numeric path ts)
of_parts-Ends is_numeric path [] = failed
of_parts-Ends is_numeric path (a ∷ []) = holds tt
of_parts-Ends is_numeric path (a ∷ b ∷ []) = holds tt
of_parts-Ends is_numeric path (a ∷ b ∷ c ∷ ts) = failed

parse-Ends : (is_numeric : ℕ → Bool) (s : Text) → Ends (parse is_numeric s)
unfolding parse
parse-Ends is_numeric s = of_parts-Ends is_numeric (absolute s) (split b'?' (absolute s))

module _ (lossy : Bytes → Text) (to_lowercase to_uppercase : Text → Text) (is_numeric : ℕ → Bool)
    (lossy_empty : lossy [] ≡ []) where
  -- A line that is not empty leaves fewer bytes.
  Shorter : Bytes → Text × Bytes → Type 0
  Shorter bs r = (length r.1 ≤ length bs) × (is_empty r.0 ≡ false → length r.1 < length bs)

  read_line-Shorter :
      (limit : ℕ) (bs : Bytes)
      → Ensures (Shorter bs) (read_line lossy to_lowercase to_uppercase is_numeric limit bs)
  unfolding read_line Shorter
  read_line-Shorter limit bs =
      Ensures-bind (line_from-IsRead limit false false [] bs)
        (λ (line, rest) h. holds (h.shorter, taken line rest h))
    where
      taken :
          (line rest : Bytes)
          → IsRead [] bs (line, rest)
          → is_empty (lossy line) ≡ false
          → length rest < length bs
      taken [] rest h full = absurd (cc (lossy_empty, full))
      taken (b ∷ line) rest h full = omega (arith, h.taken)

  add_header-Ends :
      (parts : List Text) (headers : Headers)
      → Ends (add_header lossy to_lowercase to_uppercase is_numeric parts headers)
  unfolding add_header
  add_header-Ends parts headers =
      Ensures-bind (part-Ends 0 parts) (λ n u. Ensures-bind (part-Ends 1 parts) (λ v u'. holds tt))

  path_of-Ends : (s : Text) → Ends (path_of lossy to_lowercase to_uppercase is_numeric s)
  path_of-Ends s = ended (parse is_numeric s) (parse-Ends is_numeric s)
    where
      ended :
          (r : Outcome rwf.Http.Path.Error HttpPath)
          → Ends r
          → Ends (elim r as (λ x. Outcome Error HttpPath) [
            | ok p ↦ ok p
            | err e ↦ err malformed_request
            | panic ↦ panic
            | out_of_fuel ↦ out_of_fuel
          ])
      ended r (holds u) = holds tt
      ended r failed = failed
      ended r panicked = panicked

  request_line-Ends :
      (parts : List Text) → Ends (request_line lossy to_lowercase to_uppercase is_numeric parts)
  unfolding request_line
  request_line-Ends parts = Ensures-bind (part-Ends 0 parts) (λ m u.
      Ensures-bind (part-Ends 1 parts) (λ p u'.
        Ensures-bind (path_of-Ends p)
          (λ path u''. Ensures-bind (part-Ends 2 parts) (λ v w. holds tt))))

  read_headers-Ends :
      (f limit : ℕ) (headers : Headers) (bs : Bytes)
      → length bs < f
      → Ends (read_headers lossy to_lowercase to_uppercase is_numeric f limit headers bs)
  unfolding read_headers Shorter
  read_headers-Ends zero limit headers bs h = absurd (omega arith)
  read_headers-Ends (suc f) limit headers bs h =
      Ensures-bind (read_line-Shorter limit bs) (λ (line, rest) k.
        Ensures-if (is_empty line) (λ e. holds tt)
          (λ e.
            Ensures-bind (add_header-Ends (map trim (split b':' line)) headers)
              (λ more u. read_headers-Ends f limit more rest (omega (arith, h, k.1 e)))))

  -- The reader of heads ends on all bytes: the fuel of its loop over the headers is never used up,
  -- where no bytes convert to the empty text.
  read_head_ends :
      (limit : ℕ) (bs : Bytes)
      → read_head lossy to_lowercase to_uppercase is_numeric limit bs ≢ out_of_fuel
  unfolding read_head
  read_head_ends limit bs = Ensures-out_of_fuel {P = λ a. Unit {0}} (
      Ensures-bind (read_line-Shorter limit bs) (λ (line, rest) k.
        Ensures-bind (request_line-Ends (split b' ' line)) (λ (method, path, version) u.
          Ensures-bind (read_headers-Ends (suc (length rest)) limit [] rest (omega arith))
            (λ (headers, body) u'. holds tt))))
