-- ===== src/Http/Head/Lines.antt =====
-- The lines of a head.
use rwf.Prelude.{
  ℕ, zero, suc, ◌+◌, ◌≤◌, [], ◌∷◌, ◌++◌, Bool, true, false, not, ◌&&◌, ◌==◌, all, length,
  length-append, append-nil, append_assoc, ◌≡◌, refl, ap, ◌∙◌, arith,
}
use rwf.Prelude.Outcome.{Outcome, ok, Ensures, holds, failed, Ensures-if, Ensures-weaken}
use rwf.Http.Head.{Bytes, Error, line_from}

-- Neither `\r` nor `\n`
abbrev pub is_plain : ℕ → Bool
is_plain b = not (b == 13) && not (b == 10)

-- A line within the limit is read up to its `\r\n`.
pub line_from-plain :
    (n : ℕ) (buf line rest : Bytes)
    → all is_plain line ≡ true
    → length line + 2 ≤ n
    → line_from n false false buf (line ++ 13 ∷ 10 ∷ rest) ≡ ok (buf ++ line, rest)
unfolding line_from
line_from-plain zero buf line rest h le = absurd (omega arith)
line_from-plain (suc zero) buf line rest h le = absurd (omega arith)
line_from-plain (suc (suc n)) buf [] rest h le = rw (append-nil buf) refl
line_from-plain (suc (suc n)) buf (b ∷ line) rest h le =
    let cr : (b == 13) ≡ false = ground arith in
    let lf : (b == 10) ≡ false = ground arith in
    let later =
      line_from-plain (suc n) (buf ++ b ∷ []) line rest (ground (arith, h)) (omega arith) in
    rw (cr, lf) (later ∙ ap (λ t. ok (t, rest)) (append_assoc buf (b ∷ []) line))

-- A line leaves no more bytes than there were, and fewer where it has any.
pub record IsRead (buf bs : Bytes) (r : Bytes × Bytes) : Type 0 where
  pub shorter : length r.1 ≤ length bs
  pub taken : length r.0 + length r.1 ≤ length buf + length bs

dropped :
    (b : ℕ) (buf bs : Bytes) {r : Outcome Error (Bytes × Bytes)}
    → Ensures (IsRead buf bs) r
    → Ensures (IsRead buf (b ∷ bs)) r
dropped b buf bs h =
    Ensures-weaken h
      (λ r k. record { shorter = omega (arith, k.shorter); taken = omega (arith, k.taken) })

pub line_from-IsRead :
    (n : ℕ) (cr lf : Bool) (buf bs : Bytes) → Ensures (IsRead buf bs) (line_from n cr lf buf bs)
unfolding line_from
line_from-IsRead zero cr lf buf bs = holds (record { shorter = omega arith; taken = omega arith })
line_from-IsRead (suc n) cr lf buf [] = failed
line_from-IsRead (suc n) cr lf buf (b ∷ bs) =
    Ensures-if (b == 13)
      (λ e.
        Ensures-if lf (λ e'. failed) (λ e'. dropped b buf bs (line_from-IsRead n true lf buf bs)))
      (λ e.
        Ensures-if (b == 10)
          (λ e'.
            Ensures-if cr (λ e''. holds (record { shorter = omega arith; taken = omega arith }))
              (λ e''. dropped b buf bs (line_from-IsRead n cr true buf bs)))
          (λ e'.
            Ensures-if (cr && lf)
              (λ e''. holds (record {
                shorter = omega arith;
                taken = omega (arith, length-append buf (b ∷ []));
              }))
              (λ e''. Ensures-weaken (line_from-IsRead n cr lf (buf ++ b ∷ []) bs) (λ r h. record {
                shorter = omega (arith, h.shorter);
                taken = omega (arith, h.taken, length-append buf (b ∷ []));
              }))))
