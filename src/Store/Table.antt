-- ===== src/Store/Table.antt =====
-- A driver over an association list, on which the operations never fail: the interface can be met.
use wireguard_ui.Prelude.{
  String, ◌≡◌, refl, true, Option, none, some, List, [], ◌∷◌, map, ◌==◌, eq_iff, All, if◌then◌else◌,
  arith,
}
use mathlib.Core.Path.{subst}
use mathlib.Core.Option.{some-injective}
use wireguard_ui.Store.{Driver, IsDriver, IsStored}

abbrev pub Assoc : Type 0 → Type 0
Assoc V = List (String × V)

module _ {V : Type 0} where
  unfoldable pub lookup : Assoc V → String → Option V
  lookup [] k = none
  lookup ((j, v) ∷ m) k = if j == k then some v else lookup m k

  unfoldable pub remove : String → Assoc V → Assoc V
  remove k [] = []
  remove k ((j, v) ∷ m) = let rest = remove k m in if j == k then rest else (j, v) ∷ rest

  lookup-remove :
      (k j : String) (m : Assoc V) → lookup (remove k m) j ≡ (if k == j then none else lookup m j)
  unfolding lookup remove
  lookup-remove k j [] = ground arith
  lookup-remove k j ((i, v) ∷ m) =
      ground (arith, lookup-remove k j m, eq_iff i k, eq_iff i j, eq_iff k j)

-- `read_all` reads the file of each name in the directory.
abbrev pub table : (V : Type 0) → Driver V
table V = record {
  Dir = Assoc V;
  read = lookup;
  read_all = λ d. some (map (λ e. lookup d e.0) d);
  write = λ d k v. ((k, v) ∷ remove k d, true);
  delete = λ d k. (remove k d, true);
  chmod = λ d k. true;
}

module _ {V : Type 0} where
  lookup-write :
      (k j : String) (v : V) (m : Assoc V)
      → lookup ((k, v) ∷ remove k m) j ≡ (if k == j then some v else lookup m j)
  unfolding lookup
  lookup-write k j v m = ground (arith, lookup-remove k j m)

  IsStored-read :
      (d : Assoc V) (k : String) (o : Option V) → lookup d k ≡ o → IsStored (table V) d o
  IsStored-read d k none e = tt
  IsStored-read d k (some v) e = (k, e)

  IsStored-listing : (d l : Assoc V) → All (IsStored (table V) d) (map (λ e. lookup d e.0) l)
  IsStored-listing d [] = tt
  IsStored-listing d (e ∷ l) = (IsStored-read d e.0 (lookup d e.0) refl, IsStored-listing d l)

  listing-IsStored :
      (d : Assoc V) (rs : List (Option V))
      → some (map (λ (e : String × V). lookup d e.0) d) ≡ some rs
      → All (IsStored (table V) d) rs
  listing-IsStored d rs e =
      subst (All (IsStored (table V) d)) (some-injective _ _ e) (IsStored-listing d d)

pub table-IsDriver : (V : Type 0) → IsDriver (table V)
table-IsDriver V = record {
  read-write = λ d k v j h. lookup-write k j v d;
  read-write_failed = λ d k v j h. cc;
  read-delete = λ d k j h. lookup-remove k j d;
  read-delete_failed = λ d k j h. cc;
  read_all-IsStored = listing-IsStored;
}
