-- ===== src/Http/Form/Fields.antt =====
-- A form of fields that is submitted as a multipart body.
use rwf.Prelude.{
  ℕ, suc, ◌+◌, ◌-◌, ◌*◌, ◌≤◌, Option, none, some, List, [], ◌∷◌, ◌++◌, Bool, true, length,
  length-append, All, ◌≡◌, refl, ap, ◌∙◌, arith,
}
use rwf.Prelude.Text.{Text, codes}
use rwf.Prelude.Text.Splits.{lacks}
use rwf.Prelude.Outcome.{Outcome, ok}
use rwf.Http.Form.{
  Bytes, Error, Disposition, Multipart, put, Reading, start, flushed, Line, blank, boundary_line,
  last_line, content_line, line_of, read_line, parse_disposition, start_part, after_line,
  read_parts, read,
}
use rwf.Http.Form.Lines.{read_line-line}

-- The header of a field
abbrev header : Text → Text
header name = codes "Content-Disposition: form-data; name=\"" ++ (name ++ codes "\"")

abbrev field : Text → Disposition
field name = record { name = name; filename = none }

-- The entries of some fields, put among others
pub entries_of : List (Text × Bytes) → Multipart → Multipart
entries_of [] m = m
entries_of ((name, value) ∷ ps) m =
    entries_of ps
      (put name (record { content = value; disposition = field name; content_type = none }) m)

module _ (as_bytes : Text → Bytes) (from_utf8 : Bytes → Option Text)
    (from_utf8_lossy : Bytes → Text) (to_lowercase : Text → Text) (is_numeric : ℕ → Bool) where
  -- The text of a field, with what is behind it
  abbrev pub print_field : Bytes → Text × Bytes → Bytes → Bytes
  print_field first (name, value) rest =
      first ++ 13 ∷ 10 ∷ (as_bytes (header name) ++ 13 ∷ 10 ∷ 13 ∷ 10 ∷ (value ++ 13 ∷ 10 ∷ rest))

  pub print_fields : Bytes → List (Text × Bytes) → Bytes → Bytes
  print_fields first [] rest = rest
  print_fields first (p ∷ ps) rest = print_field first p (print_fields first ps rest)

  -- A name that the parser of the header reads
  pub record IsName (name : Text) : Type 0 where
    pub one_line : lacks 13 (as_bytes (header name)) ≡ true
    pub utf8 : from_utf8 (as_bytes (header name)) ≡ some (header name)
    pub parsed :
        parse_disposition as_bytes from_utf8 from_utf8_lossy to_lowercase is_numeric (header name)
        ≡ ok (field name)

  module _ (first last : Bytes) where
    -- The lines that part the fields
    pub record AreBoundaries : Type 0 where
      pub first_one_line : lacks 13 first ≡ true
      pub last_one_line : lacks 13 last ≡ true
      pub starts : line_of first last first ≡ boundary_line
      pub ends : line_of first last last ≡ last_line

    -- A value of one line that is neither empty nor a boundary
    pub record IsField (p : Text × Bytes) : Type 0 where
      pub name : IsName p.0
      pub value_one_line : lacks 13 p.1 ≡ true
      pub value : line_of first last p.1 ≡ content_line

    abbrev loop : ℕ → Reading → Bytes → Outcome Error Multipart
    loop f = read_parts as_bytes from_utf8 from_utf8_lossy to_lowercase is_numeric f first last

    -- A round of the loop
    round :
        (f : ℕ) (r : Reading) (line rest : Bytes) (kind : Line)
        → lacks 13 line ≡ true
        → line_of first last line ≡ kind
        → loop (suc f) r (line ++ 13 ∷ 10 ∷ rest)
          ≡ after_line as_bytes from_utf8 from_utf8_lossy to_lowercase is_numeric
              (loop f)
              r
              (line, rest)
              kind
    unfolding read_parts
    round f r [] rest kind h k =
        ap
          (after_line as_bytes from_utf8 from_utf8_lossy to_lowercase is_numeric (loop f) r
            ([], rest))
          k
    round f r (c ∷ line) rest kind h k = rw (read_line-line (c ∷ line) rest h, k) refl

    -- The state with nothing read of a part, and that behind the header of a field
    abbrev clean : Multipart → Reading
    clean m = record start { entries = m }

    abbrev open_field : Text → Bytes → Multipart → Reading
    open_field name value m = record {
      buf = value;
      disposition = some (field name);
      content_type = none;
      entries = m;
    }

    start_field :
        (name : Text) (rest : Bytes) (m : Multipart)
        → IsName name
        → start_part as_bytes from_utf8 from_utf8_lossy to_lowercase is_numeric
            (clean m)
            (as_bytes (header name) ++ 13 ∷ 10 ∷ 13 ∷ 10 ∷ rest)
          ≡ ok (open_field name [] m, rest)
    unfolding start_part
    start_field name rest m h =
        rw (read_line-line (as_bytes (header name)) (13 ∷ 10 ∷ rest) h.one_line, h.utf8, h.parsed)
          (unfold read_line in refl)

    -- Two rounds go by the boundary and the header, and by the line of the value.
    field_start :
        (f : ℕ) (r : Reading) (m : Multipart) (name : Text) (rest : Bytes)
        → AreBoundaries
        → IsName name
        → flushed r ≡ clean m
        → loop (suc f) r (first ++ 13 ∷ 10 ∷ (as_bytes (header name) ++ 13 ∷ 10 ∷ 13 ∷ 10 ∷ rest))
          ≡ loop f (open_field name [] m) rest
    field_start f r m name rest b h e =
        round f r first _ boundary_line b.first_one_line b.starts
        ∙ (rw (e, start_field name rest m h) refl)

    field_loop :
        (f : ℕ) (r : Reading) (m : Multipart) (p : Text × Bytes) (rest : Bytes)
        → AreBoundaries
        → IsField p
        → flushed r ≡ clean m
        → loop (suc (suc f)) r (print_field first p rest) ≡ loop f (open_field p.0 p.1 m) rest
    field_loop f r m (name, value) rest b h e =
        field_start (suc f) r m name (value ++ 13 ∷ 10 ∷ rest) b h.name e
        ∙ round f (open_field name [] m) value rest content_line h.value_one_line h.value

    -- What the loop makes of fields: their entries, and the state in which it goes on
    fields_loop :
        (ps : List (Text × Bytes)) (f : ℕ) (r : Reading) (m : Multipart) (rest : Bytes)
        → AreBoundaries
        → All IsField ps
        → flushed r ≡ clean m
        → (r' : Reading) × (flushed r' ≡ clean (entries_of ps m))
          × (loop (2 * length ps + f) r (print_fields first ps rest) ≡ loop f r' rest)
    unfolding print_fields entries_of
    fields_loop [] f r m rest b hs e =
        let fuel : 2 * 0 + f ≡ f = omega arith in (r, e, ap (λ k. loop k r rest) fuel)
    fields_loop (p ∷ ps) f r m rest b (h, hs) e =
        let fuel : 2 * length (p ∷ ps) + f ≡ suc (suc (2 * length ps + f)) = omega arith in
        let next =
          put p.0 (record { content = p.1; disposition = field p.0; content_type = none }) m in
        let (r', flush, ran) = fields_loop ps f (open_field p.0 p.1 m) next rest b hs refl in
        (
          r',
          flush,
          ap (λ k. loop k r (print_fields first (p ∷ ps) rest)) fuel
              ∙ field_loop (2 * length ps + f) r m p (print_fields first ps rest) b h e
              ∙ ran,
        )

    length-print_fields :
        (ps : List (Text × Bytes)) (rest : Bytes)
        → 2 * length ps + length rest ≤ length (print_fields first ps rest)
    unfolding print_fields
    length-print_fields [] rest = omega arith
    length-print_fields ((name, value) ∷ ps) rest =
        let later = print_fields first ps rest in
        let behind_header = value ++ 13 ∷ 10 ∷ later in
        omega (
          arith,
          length-print_fields ps rest,
          length-append value (13 ∷ 10 ∷ later),
          length-append (as_bytes (header name)) (13 ∷ 10 ∷ 13 ∷ 10 ∷ behind_header),
          length-append first
              (13 ∷ 10 ∷ (as_bytes (header name) ++ 13 ∷ 10 ∷ 13 ∷ 10 ∷ behind_header)),
        )

    read_loop :
        (ps : List (Text × Bytes)) (rest : Bytes)
        → AreBoundaries
        → All IsField ps
        → (g : ℕ) × (r : Reading) × (flushed r ≡ clean (entries_of ps []))
          × (length rest ≤ g)
          × (loop (suc (length (print_fields first ps rest))) start (print_fields first ps rest)
              ≡ loop (suc g) r rest)
    read_loop ps rest b hs =
        let body = print_fields first ps rest in
        let g = length body - 2 * length ps in
        let fuel : suc (length body) ≡ 2 * length ps + suc g =
          omega (arith, length-print_fields ps rest) in
        let (r, flush, ran) = fields_loop ps (suc g) start [] rest b hs refl in
        (
          g,
          r,
          flush,
          omega (arith, length-print_fields ps rest),
          ap (λ k. loop k start body) fuel ∙ ran,
        )

    -- Behind fields the last boundary ends the body.
    fields_end :
        (ps : List (Text × Bytes)) (rest : Bytes)
        → AreBoundaries
        → All IsField ps
        → loop
            (suc (length (print_fields first ps (last ++ 13 ∷ 10 ∷ rest))))
            start
            (print_fields first ps (last ++ 13 ∷ 10 ∷ rest))
          ≡ ok (entries_of ps [])
    fields_end ps rest b hs =
        let (g, r, flush, enough, ran) = read_loop ps (last ++ 13 ∷ 10 ∷ rest) b hs in
        ran ∙ round g r last rest last_line b.last_one_line b.ends ∙ ap (λ q. ok q.entries) flush

    -- So does a field without a value.
    empty_end :
        (ps : List (Text × Bytes)) (name : Text) (rest : Bytes)
        → AreBoundaries
        → All IsField ps
        → IsName name
        → loop
            (suc (length (print_fields first ps (print_field first (name, []) rest))))
            start
            (print_fields first ps (print_field first (name, []) rest))
          ≡ ok (entries_of ps [])
    empty_end ps name rest b hs h =
        let (g, r, flush, enough, ran) = read_loop ps (print_field first (name, []) rest) b hs in
        let more : suc g ≡ suc (suc (g - 1)) = omega (
          arith,
          enough,
          length-append first
              (13 ∷ 10 ∷ (as_bytes (header name) ++ 13 ∷ 10 ∷ 13 ∷ 10 ∷ 13 ∷ 10 ∷ rest)),
        ) in
        ran
        ∙ ap (λ k. loop k r (print_field first (name, []) rest)) more
        ∙ field_start (suc (g - 1)) r (entries_of ps []) name (13 ∷ 10 ∷ rest) b h flush
        ∙ round (g - 1) (open_field name [] (entries_of ps [])) [] rest blank refl
            (unfold line_of in refl)

  abbrev first_line : Text → Bytes
  first_line boundary = as_bytes (codes "--" ++ boundary)

  abbrev end_line : Text → Bytes
  end_line boundary = as_bytes (codes "--" ++ (boundary ++ codes "--"))

  -- A multipart form of fields is read back, each by its name, where a boundary is a line and no
  -- field, and each field has a name that its header is parsed to and a value of one line, neither
  -- empty nor a boundary.
  pub read-print_fields :
      (boundary : Text) (ps : List (Text × Bytes)) (rest : Bytes)
      → AreBoundaries (first_line boundary) (end_line boundary)
      → All (IsField (first_line boundary) (end_line boundary)) ps
      → read as_bytes from_utf8 from_utf8_lossy to_lowercase is_numeric
          (print_fields (first_line boundary) ps (end_line boundary ++ 13 ∷ 10 ∷ rest))
          boundary
        ≡ ok (entries_of ps [])
  unfolding read
  read-print_fields boundary ps rest b hs =
      fields_end (first_line boundary) (end_line boundary) ps rest b hs

  -- Of a multipart form in which a field with an empty value comes behind others as above, only
  -- these others are read: the empty field and all behind it are lost.
  pub read-empty_field :
      (boundary : Text) (ps : List (Text × Bytes)) (name : Text) (rest : Bytes)
      → AreBoundaries (first_line boundary) (end_line boundary)
      → All (IsField (first_line boundary) (end_line boundary)) ps
      → IsName name
      → read as_bytes from_utf8 from_utf8_lossy to_lowercase is_numeric
          (print_fields
            (first_line boundary)
            ps
            (print_field (first_line boundary) (name, []) rest))
          boundary
        ≡ ok (entries_of ps [])
  unfolding read
  read-empty_field boundary ps name rest b hs h =
      empty_end (first_line boundary) (end_line boundary) ps name rest b hs h
