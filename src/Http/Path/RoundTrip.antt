-- ===== src/Http/Path/RoundTrip.antt =====
-- A path that is written and parsed again.
use rwf.Prelude.{
  ℕ, List, [], ◌∷◌, ◌++◌, Bool, true, false, not, ◌&&◌, ◌==◌, ==→eq, map, all, All, All-append,
  append-nil, append_assoc, ◌≡◌, refl, sym, ap, subst, ◌∙◌, ltb, arith, Bool-cases, inl, inr,
}
use rwf.Prelude.Ranges.{passes, passes-below}
use rwf.Prelude.Text.{Text, codes, text_cmp, split, join, starts_with, is_digit}
use rwf.Prelude.Text.Splits.{lacks, split-lacks, split-pair, split-join, all-append}
use rwf.Prelude.Outcome.{ok}
use rwf.Http.Url.{encode_char, urldecode, urlencode}
use rwf.Http.Url.RoundTrip.{encode_above, urldecode-urlencode}
use rwf.Http.Path.{
  Query, insert, print_query, to_string, from_parts, add_part, add_parts, parse_query, parse,
  of_parts,
}
use Prim.Native.Nat.{Ordering}

-- Not one of the characters that a query is split at
is_plain : ℕ → Bool
is_plain c = not (c == b'=') && not (c == b'&') && not (c == b'#') && not (c == b'?')

plain_table : passes (λ c. all is_plain (encode_char c)) 0 128 ≡ true
unfolding passes is_plain encode_char
plain_table = refl

encode_char-plain : (c : ℕ) → all is_plain (encode_char c) ≡ true
encode_char-plain c = elim (Bool-cases (ltb c 128)) [
  | inl lt ↦ passes-below (λ d. all is_plain (encode_char d)) 128 c plain_table (ground arith)
  | inr ge ↦ rw (encode_above c (ground arith)) (unfold is_plain in ground arith)
]

urlencode-plain : (s : Text) → all is_plain (urlencode s) ≡ true
unfolding urlencode
urlencode-plain [] = refl
urlencode-plain (c ∷ s) =
    all-append is_plain (encode_char c) (urlencode s) (encode_char-plain c) (urlencode-plain s)

plain-lacks :
    (sep : ℕ) (s : Text) → is_plain sep ≡ false → all is_plain s ≡ true → lacks sep s ≡ true
plain-lacks sep [] h k = refl
plain-lacks sep (c ∷ s) h k =
    let plain : is_plain c ≡ true = ground arith in
    let later = plain-lacks sep s h (ground arith) in
    elim (Bool-cases (c == sep)) [
      | inl hit ↦
          let same : c ≡ sep = ==→eq c sep hit in
          absurd (ground (arith, h, subst (λ d. is_plain d ≡ true) same plain))
      | inr miss ↦ ground (arith, miss, later)
    ]

-- The text of one parameter
abbrev pair : Text × Text → Text
pair (k, v) = urlencode k ++ b'=' ∷ urlencode v

pair-lacks :
    (sep : ℕ) (p : Text × Text)
    → is_plain sep ≡ false
    → (b'=' == sep) ≡ false
    → lacks sep (pair p) ≡ true
pair-lacks sep (k, v) h other =
    all-append (λ c. not (c == sep)) (urlencode k) (b'=' ∷ urlencode v)
      (plain-lacks sep (urlencode k) h (urlencode-plain k))
      (ground (arith, plain-lacks sep (urlencode v) h (urlencode-plain v), other))

join-lacks :
    (sep : ℕ) (q : Query)
    → is_plain sep ≡ false
    → (b'=' == sep) ≡ false
    → (b'&' == sep) ≡ false
    → lacks sep (join (codes "&") (map pair q)) ≡ true
unfolding join
join-lacks sep [] h a b = refl
join-lacks sep (p ∷ []) h a b = pair-lacks sep p h a
join-lacks sep (p ∷ r ∷ q) h a b =
    all-append (λ c. not (c == sep)) (pair p ++ codes "&") (join (codes "&") (map pair (r ∷ q)))
      (all-append (λ c. not (c == sep)) (pair p) (codes "&") (pair-lacks sep p h a)
        (ground (arith, b)))
      (join-lacks sep (r ∷ q) h a b)

abbrev pub IsAbove : Text → Text × Text → Type 0
IsAbove key p = text_cmp key p.0 ≡ Ordering.gt

-- The keys increase.
unfoldable pub IsSorted : Query → Type 0
IsSorted [] = Unit
IsSorted (p ∷ q) = All (λ r. IsAbove r.0 p) q × IsSorted q

pub insert-above :
    (key value : Text) (q : Query)
    → All (IsAbove key) q
    → insert key value q ≡ q ++ (key, value) ∷ []
unfolding insert
insert-above key value [] h = refl
insert-above key value ((k, v) ∷ q) (hp, h) =
    rw (hp, insert) (ap (λ r. (k, v) ∷ r) (insert-above key value q h))

pub every_next :
    (acc : Query) (p : Text × Text) (rs : Query)
    → All (λ r. All (IsAbove r.0) acc) rs
    → All (λ r. IsAbove r.0 p) rs
    → All (λ r. All (IsAbove r.0) (acc ++ p ∷ [])) rs
every_next acc p [] a b = tt
every_next acc p (r ∷ rs) (ha, a) (hb, b) =
    (All-append (IsAbove r.0) acc (p ∷ []) ha (hb, tt), every_next acc p rs a b)

pub every_none : (q : Query) → All (λ r. All (IsAbove r.0) []) q
every_none [] = tt
every_none (r ∷ q) = (tt, every_none q)

pairs-lack : (q : Query) → All (λ s. lacks b'&' s ≡ true) (map pair q)
pairs-lack [] = tt
pairs-lack (p ∷ q) = (pair-lacks b'&' p (unfold is_plain in refl) refl, pairs-lack q)

starts_with-append :
    (s t : Text) → starts_with s (codes "/") ≡ true → starts_with (s ++ t) (codes "/") ≡ true
unfolding starts_with
starts_with-append [] t h = absurd (ground arith)
starts_with-append (c ∷ s) t h = ground arith

module _ (is_numeric : ℕ → Bool)
    (numeric_digits : (c : ℕ) → is_digit c ≡ true → is_numeric c ≡ true) where
  decoded : (s : Text) → urldecode is_numeric (urlencode s) ≡ s
  decoded s = urldecode-urlencode is_numeric numeric_digits s

  add_part-pair :
      (p : Text × Text) (q : Query) → add_part is_numeric (split b'=' (pair p)) q ≡ insert p.0 p.1 q
  unfolding add_part
  add_part-pair (k, v) q =
      rw
        (
          split-pair b'=' (urlencode k) (urlencode v)
              (plain-lacks b'=' (urlencode k) (unfold is_plain in refl) (urlencode-plain k))
              (plain-lacks b'=' (urlencode v) (unfold is_plain in refl) (urlencode-plain v)),
          decoded k,
          decoded v,
        )
        refl

  add_parts-pairs :
      (acc q : Query)
      → All (λ r. All (IsAbove r.0) acc) q
      → IsSorted q
      → add_parts is_numeric (map pair q) acc ≡ acc ++ q
  unfolding add_parts IsSorted
  add_parts-pairs acc [] h s = sym (append-nil acc)
  add_parts-pairs acc (p ∷ q) (hp, h) (above, s) =
      let next : All (λ r. All (IsAbove r.0) (acc ++ p ∷ [])) q = every_next acc p q h above in
      let added : add_part is_numeric (split b'=' (pair p)) acc ≡ acc ++ p ∷ [] =
        add_part-pair p acc ∙ insert-above p.0 p.1 acc hp in
      ap (add_parts is_numeric (map pair q)) added
      ∙ add_parts-pairs (acc ++ p ∷ []) q next s
      ∙ append_assoc acc (p ∷ []) q

  parse_query-of :
      (s : Text) (parts : List Text)
      → lacks b'#' s ≡ true
      → split b'&' s ≡ parts
      → parse_query is_numeric s ≡ add_parts is_numeric parts []
  parse_query-of s parts h e = unfold parse_query in rw (split-lacks b'#' s h, e) refl

  parse_query-print_query :
      (p : Text × Text) (q : Query)
      → IsSorted (p ∷ q)
      → parse_query is_numeric (join (codes "&") (map pair (p ∷ q))) ≡ p ∷ q
  parse_query-print_query p q s =
      parse_query-of (join (codes "&") (map pair (p ∷ q))) (map pair (p ∷ q))
        (join-lacks b'#' (p ∷ q) (unfold is_plain in refl) refl refl)
        (split-join b'&' (pair p) (map pair q) (pair-lacks b'&' p (unfold is_plain in refl) refl)
          (pairs-lack q))
      ∙ add_parts-pairs [] (p ∷ q) (every_none (p ∷ q)) s

  parse-of :
      (s : Text) (parts : List Text)
      → starts_with s (codes "/") ≡ true
      → split b'?' s ≡ parts
      → parse is_numeric s ≡ of_parts is_numeric s parts
  parse-of s parts h e = unfold parse in rw (h, e) refl

  -- A path with a base that begins with `/` and has no `?`, and a query by increasing keys, is read
  -- back from its text, where the ASCII digits are numeric.
  pub parse-to_string :
      (base : Text) (query : Query)
      → IsSorted query
      → starts_with base (codes "/") ≡ true
      → lacks b'?' base ≡ true
      → parse is_numeric (to_string (from_parts base query)) ≡ ok (from_parts base query)
  unfolding to_string print_query
  parse-to_string base [] sorted rooted plain =
      rw (append-nil base) (parse-of base (base ∷ []) rooted (split-lacks b'?' base plain))
  parse-to_string base (p ∷ q) sorted rooted plain =
      let text = join (codes "&") (map pair (p ∷ q)) in
      parse-of (base ++ b'?' ∷ text) (base ∷ text ∷ [])
        (starts_with-append base (b'?' ∷ text) rooted)
        (split-pair b'?' base text plain
          (join-lacks b'?' (p ∷ q) (unfold is_plain in refl) refl refl))
      ∙ ap (λ query. ok (from_parts base query)) (parse_query-print_query p q sorted)
