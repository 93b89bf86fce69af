-- ===== src/Template/Value/Compare.antt =====
-- `PartialEq`, `PartialOrd` and `truthy` of lexer/value.rs.
use Prim.Native.Nat.{compare, Ordering}
use rwf.Prelude.{
  ◌+◌, Option, none, some, Bool, true, false, not, ◌&&◌, ◌==◌, is_empty, if◌then◌else◌, length,
}
use rwf.Prelude.Int.{ℤ, pos, pos_part, neg_part, eqb_ℤ}
use rwf.Prelude.Text.{Text, text_eq, text_cmp}
use rwf.Template.Value.{
  Value, Values, Entries, integer, float, string, boolean, list, hash, null, interpreter,
  safe_string, nil, cons, end, entry, to_entries,
}
use rwf.Template.Host.{Host}

-- `HashMap::get`
unfoldable pub get : Text → Entries → Option Value
unfolding text_eq
get k end = none
get k (entry j v es) = let rest = get k es in if text_eq j k then some v else rest

bool_eq : Bool → Bool → Bool
bool_eq true b = b
bool_eq false b = not b

abbrev cmp_ℤ : ℤ → ℤ → Ordering
cmp_ℤ a b = compare (pos_part a + neg_part b) (pos_part b + neg_part a)

abbrev cmp_bool : Bool → Bool → Ordering
cmp_bool true true = Ordering.eq
cmp_bool true false = Ordering.gt
cmp_bool false true = Ordering.lt
cmp_bool false false = Ordering.eq

abbrev found_eq : Option Value → (Value → Bool) → Bool
found_eq none eq = false
found_eq (some w) eq = eq w

module _ (h : Host) where
  open h use {f64_eq, f64_cmp, of_i64}

  -- Two hashes are equal if they have as many entries and each of the first is found in the second.
  unfoldable mutual
    unfolding text_eq bool_eq get to_entries

    pub value_eq : Value → Value → Bool
    value_eq (integer i) (integer j) = eqb_ℤ i j
    value_eq (float f) (float g) = f64_eq f g
    value_eq (string s) (string t) = text_eq s t
    value_eq (boolean b) (boolean c) = bool_eq b c
    value_eq (list vs) (list ws) = values_eq vs ws
    value_eq (hash es) (hash fs) =
        length (to_entries es) == length (to_entries fs) && entries_in es fs
    value_eq null null = true
    value_eq interpreter interpreter = true
    value_eq (safe_string s) (safe_string t) = text_eq s t
    value_eq _ _ = false

    values_eq : Values → Values → Bool
    values_eq nil nil = true
    values_eq (cons v vs) (cons w ws) = value_eq v w && values_eq vs ws
    values_eq _ _ = false

    entries_in : Entries → Entries → Bool
    entries_in end fs = true
    entries_in (entry k v es) fs = found_eq (get k fs) (value_eq v) && entries_in es fs

  -- `partial_cmp`
  unfoldable pub partial_cmp : Value → Value → Option Ordering
  unfolding text_cmp
  partial_cmp (integer i) (integer j) = some (cmp_ℤ i j)
  partial_cmp (integer i) (float f) = f64_cmp (of_i64 i) f
  partial_cmp (float f) (integer j) = f64_cmp f (of_i64 j)
  partial_cmp (float f) (float g) = f64_cmp f g
  partial_cmp (string s) (string t) = some (text_cmp s t)
  partial_cmp (boolean b) (boolean c) = some (cmp_bool b c)
  partial_cmp (safe_string s) (safe_string t) = some (text_cmp s t)
  partial_cmp _ _ = none

  -- `*f != 0.0`; the bit pattern of 0.0 is 0.
  unfoldable pub truthy : Value → Bool
  truthy (boolean b) = b
  truthy (integer i) = not (eqb_ℤ i (pos 0))
  truthy (float f) = not (f64_eq f 0)
  truthy (string s) = not (is_empty s)
  truthy null = false
  truthy (list nil) = false
  truthy (list (cons v vs)) = true
  truthy (hash end) = false
  truthy (hash (entry k v es)) = true
  truthy interpreter = true
  truthy (safe_string s) = not (is_empty s)

-- `<`, `<=`, `>` and `>=` on the result of `partial_cmp`
abbrev pub is_lt : Option Ordering → Bool
is_lt none = false
is_lt (some o) = elim o [ Ordering.lt ↦ true | _ ↦ false ]

abbrev pub is_gt : Option Ordering → Bool
is_gt none = false
is_gt (some o) = elim o [ Ordering.gt ↦ true | _ ↦ false ]

abbrev pub is_le : Option Ordering → Bool
is_le none = false
is_le (some o) = elim o [ Ordering.gt ↦ false | _ ↦ true ]

abbrev pub is_ge : Option Ordering → Bool
is_ge none = false
is_ge (some o) = elim o [ Ordering.lt ↦ false | _ ↦ true ]
