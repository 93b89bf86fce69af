-- ===== src/Template/Value.antt =====
-- The data type `Value` of rwf/src/view/template/lexer/value.rs, with its equality, order and
-- printing. A list and a hash of values are types of the same block. A hash lists its entries in
-- the order in which the program iterates over them.
pub mod Compare
pub mod Arith
pub mod Show
pub mod Methods
pub mod Call
use rwf.Prelude.{ℕ, ◌≡◌, refl, List, [], ◌∷◌, Bool}
use rwf.Prelude.Int.{ℤ}
use rwf.Prelude.Text.{Text}

-- An f64 is its bit pattern; the operations on it are parameters (Template/Host.antt).
abbrev pub F64 : Type 0
F64 = ℕ

mutual
  pub data Value : Type 0 where
    integer : ℤ → Value
    float : F64 → Value
    string : Text → Value
    boolean : Bool → Value
    list : Values → Value
    hash : Entries → Value
    null : Value
    interpreter : Value
    safe_string : Text → Value

  pub data Values : Type 0 where
    nil : Values
    cons : Value → Values → Values

  pub data Entries : Type 0 where
    end : Entries
    entry : Text → Value → Entries → Entries

unfoldable pub to_list : Values → List Value
to_list nil = []
to_list (cons v vs) = v ∷ to_list vs

unfoldable pub of_list : List Value → Values
of_list [] = nil
of_list (v ∷ vs) = cons v (of_list vs)

unfoldable pub to_entries : Entries → List (Text × Value)
to_entries end = []
to_entries (entry k v es) = (k, v) ∷ to_entries es

to_list-of_list : (vs : List Value) → to_list (of_list vs) ≡ vs
unfolding to_list of_list
to_list-of_list [] = refl
to_list-of_list (v ∷ vs) = λ i. v ∷ to_list-of_list vs i
