-- ===== src/Http/Form/Total.antt =====
-- The reader of multipart bodies ends.
use rwf.Prelude.{
  ◌++◌, ℕ, zero, suc, ◌≤◌, ◌<◌, Option, none, some, List, [], ◌∷◌, Bool, length, map, ◌≢◌, arith,
}
use rwf.Prelude.Text.{Text, codes, text_eq, split, trim, starts_with, to_ascii_lowercase}
use rwf.Prelude.Outcome.{
  Outcome, err, out_of_fuel, Ensures, holds, failed, Ensures-if, Ensures-bind, Ensures-out_of_fuel,
  Ensures-weaken,
}
use rwf.Http.Form.{
  start, Bytes, Error, Disposition, Reading, Line, blank, boundary_line, last_line, content_line,
  line_of, or_error, malformed_request, names_of, of_names, read_line, header_parts,
  parse_disposition, file_lines, part_lines, start_part, after_line, flushed, read_parts, read,
}
use rwf.Http.Form.Lines.{read_line-le, read_line-lt}

abbrev Ends {κ} : {A : Type κ} → Outcome Error A → Type κ
Ends r = Ensures (λ a. Unit {0}) r

or_error-Ends : {A : Type 0} (e : Error) (o : Option A) → Ends (or_error e o)
or_error-Ends e none = failed
or_error-Ends e (some a) = holds tt

of_names-Ends : (names : Option Text × Option Text) → Ends (of_names names)
of_names-Ends (none, filename) = failed
of_names-Ends (some name, filename) = holds tt

module _ (as_bytes : Text → Bytes) (from_utf8 : Bytes → Option Text)
    (from_utf8_lossy : Bytes → Text) (to_lowercase : Text → Text) (is_numeric : ℕ → Bool) where
  header_parts-Ends :
      (parts : List Text)
      → Ends (header_parts as_bytes from_utf8 from_utf8_lossy to_lowercase is_numeric parts)
  header_parts-Ends [] = failed
  header_parts-Ends (name ∷ []) = failed
  header_parts-Ends (name ∷ value ∷ more) =
      Ensures-if (text_eq (to_lowercase name) (codes "content-disposition"))
        {x = of_names (names_of as_bytes from_utf8 from_utf8_lossy to_lowercase is_numeric value)}
        {y = err malformed_request}
        (λ e.
          of_names-Ends (names_of as_bytes from_utf8 from_utf8_lossy to_lowercase is_numeric value))
        (λ e. failed)

  -- A part leaves no more bytes than there were.
  abbrev Leaves : Bytes → Reading × Bytes → Type 0
  Leaves bs p = length p.1 ≤ length bs

  file_lines-Leaves :
      (r : Reading) (d : Disposition) (line rest bs : Bytes)
      → length rest ≤ length bs
      → Ensures
          (Leaves bs)
          (file_lines as_bytes from_utf8 from_utf8_lossy to_lowercase is_numeric r d (line, rest))
  file_lines-Leaves r d line rest bs h =
      Ensures-if (starts_with (map to_ascii_lowercase line) (codes "content-type"))
        (λ e.
          Ensures-bind (or_error-Ends _ (from_utf8 line))
            (λ t u. holds (omega (arith, read_line-le rest))))
        (λ e. holds h)

  part_lines-Leaves :
      (r : Reading) (rest : Bytes) (d : Disposition) (filename : Option Text)
      → Ensures
          (Leaves rest)
          (part_lines as_bytes from_utf8 from_utf8_lossy to_lowercase is_numeric r rest d filename)
  part_lines-Leaves r rest d none = holds (read_line-le rest)
  part_lines-Leaves r rest d (some filename) =
      file_lines-Leaves r d (read_line rest).0 (read_line rest).1 rest (read_line-le rest)

  start_part-Leaves :
      (r : Reading) (bs : Bytes)
      → Ensures
          (Leaves bs)
          (start_part as_bytes from_utf8 from_utf8_lossy to_lowercase is_numeric r bs)
  unfolding start_part parse_disposition
  start_part-Leaves r bs = Ensures-bind (or_error-Ends _ (from_utf8 (read_line bs).0)) (λ header u.
      Ensures-bind (header_parts-Ends (map trim (split b':' header))) (λ d u'.
        Ensures-weaken (part_lines-Leaves r (read_line bs).1 d d.filename)
          (λ p h. omega (arith, h, read_line-le bs))))

  read_parts-Ends :
      (f : ℕ) (first last : Bytes) (r : Reading) (bs : Bytes)
      → length bs < f
      → Ends
          (read_parts as_bytes from_utf8 from_utf8_lossy to_lowercase is_numeric f first last r bs)
  unfolding read_parts
  read_parts-Ends zero first last r bs h = absurd (omega (arith, h))
  read_parts-Ends (suc f) first last r [] h = holds tt
  read_parts-Ends (suc f) first last r (b ∷ bs) h =
      ended (line_of first last (read_line (b ∷ bs)).0) (omega (arith, h, read_line-lt b bs))
        (λ r' rest' g. read_parts-Ends f first last r' rest' g)
    where
      ended :
          (kind : Line)
          → length (read_line (b ∷ bs)).1 < f
          → ((r' : Reading) (rest' : Bytes)
              → length rest' < f
              → Ends (
                  read_parts as_bytes from_utf8 from_utf8_lossy to_lowercase is_numeric f first last
                    r' rest'))
          → Ends (
              after_line as_bytes from_utf8 from_utf8_lossy to_lowercase is_numeric
                (read_parts as_bytes from_utf8 from_utf8_lossy to_lowercase is_numeric f first last)
                r
                (read_line (b ∷ bs))
                kind)
      ended blank g later = holds tt
      ended boundary_line g later =
          Ensures-bind (start_part-Leaves (flushed r) (read_line (b ∷ bs)).1)
            (λ p k. later p.0 p.1 (omega (arith, g, k)))
      ended last_line g later = holds tt
      ended content_line g later = later _ _ g

  -- The reader of multipart bodies ends on all bytes: the fuel of its loop is never used up.
  pub read_ends :
      (body : Bytes) (boundary : Text)
      → read as_bytes from_utf8 from_utf8_lossy to_lowercase is_numeric body boundary ≢ out_of_fuel
  unfolding read
  read_ends body boundary = Ensures-out_of_fuel (
      read_parts-Ends (suc (length body)) (as_bytes (codes "--" ++ boundary))
        (as_bytes (codes "--" ++ (boundary ++ codes "--"))) start body (omega arith))
