-- ===== src/Orm/Migrations/Store.antt =====
-- The database that migrations are made in, and the folder of their files: parameters of
-- rwf/src/model/migrations/mod.rs. A transaction is a copy of the database until it is committed.
use rwf.Prelude.{if◌then◌else◌, List, Bool, ◌≡◌, refl, sym, ap, ◌∙◌}
use rwf.Prelude.Text.{Text, codes}
use rwf.Prelude.Outcome.{Outcome, ok, err, panic, out_of_fuel}
use rwf.Orm.Value.{Value}
use rwf.Orm.Query.Execute.{Error, other, Database}
use rwf.Orm.Migrations.{Migration}

pub record Store : Type 1 where
  pub State : Type 0
  pub Tx : Type 0
  pub Row : Type 0
  pub connect : State → Outcome Error (Unit {0}) × State
  pub fetch_cached : Text → List Value → State → Outcome Error (List Row) × State
  pub begin : State → Outcome Error Tx × State
  pub query_cached : Text → List Value → Tx → Outcome Error (List Row) × Tx
  pub query : Text → Tx → Outcome Error (List Row) × Tx
  pub commit : Tx → State → Outcome Error (Unit {0}) × State
  pub from_row : Row → Outcome Error Migration

-- A connection of the pool
abbrev pub connection : Store → Database
connection store = record {
  State = store.State;
  Row = store.Row;
  connect = store.connect;
  query_cached = store.fetch_cached;
}

abbrev pub transaction : Store → Database
transaction store = record {
  State = store.Tx;
  Row = store.Row;
  connect = λ t. (ok tt, t);
  query_cached = store.query_cached;
}

-- The directory that the program runs in, paths, the entries of a folder by name and whether they are
-- files, and a file's text
pub record Folder : Type 0 where
  pub current_dir : Outcome Error Text
  pub join : Text → Text → Text
  pub is_dir : Text → Bool
  pub read_dir : Text → Outcome Error (List (Text × Bool))
  pub read_to_string : Text → Outcome Error Text

abbrev dir_of : Folder → Outcome Error Text → Outcome Error Text
dir_of folder (ok dir) =
    let path = folder.join dir (codes "migrations") in
    if folder.is_dir path then ok path else err (other (codes "migrations folder does not exist"))
dir_of folder (err e) = err e
dir_of folder panic = panic
dir_of folder out_of_fuel = out_of_fuel

-- `Migrations::root_path`
unfoldable pub root_path : Folder → Outcome Error Text
root_path folder = dir_of folder folder.current_dir

-- Steps that may fail, one after the other
abbrev pub Run : Type 0 → Type 0 → Type 0
Run S A = S → Outcome Error A × S

abbrev pub bound_to : {S A B : Type 0} → (A → Run S B) → Outcome Error A × S → Outcome Error B × S
bound_to f (ok a, s) = f a s
bound_to f (err e, s) = (err e, s)
bound_to f (panic, s) = (panic, s)
bound_to f (out_of_fuel, s) = (out_of_fuel, s)

infixl 5 ◌>>=◌ ◌>>◌
abbrev pub ◌>>=◌ : {S A B : Type 0} → Run S A → (A → Run S B) → Run S B
a >>= f = λ s. bound_to f (a s)

abbrev pub ◌>>◌ : {S B : Type 0} → Run S (Unit {0}) → Run S B → Run S B
a >> b = a >>= λ _. b

abbrev pub pure : {S A : Type 0} → Outcome Error A → Run S A
pure a = λ s. (a, s)

-- Steps that succeed: the first does, and they are what follows it.
bound_lem :
    {S A B : Type 0} (k : A → Run S B) (x : Outcome Error A × S) (b : B)
    → (bound_to k x).0 ≡ ok b
    → (a : A) × (x.0 ≡ ok a) × (bound_to k x ≡ k a x.1)
bound_lem k (ok a, s) b e = (a, refl, refl)
bound_lem k (err g, s) b e = cc
bound_lem k (panic, s) b e = cc
bound_lem k (out_of_fuel, s) b e = cc

pub then_lem :
    {S A B : Type 0} (m : Run S A) (k : A → Run S B) (s : S) (b : B)
    → ((m >>= k) s).0 ≡ ok b
    → (a : A) × ((m s).0 ≡ ok a) × ((m >>= k) s ≡ k a (m s).1)
then_lem m k s b e = bound_lem k (m s) b e

pub then-ok :
    {S A B : Type 0} (m : Run S A) (k : A → Run S B) (s : S) (b : B)
    → ((m >>= k) s).0 ≡ ok b
    → (a : A) × ((m s).0 ≡ ok a) × ((k a (m s).1).0 ≡ ok b)
then-ok m k s b e = let (a, h, l) = then_lem m k s b e in (a, h, sym (ap (λ x. x.0) l) ∙ e)
