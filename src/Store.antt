-- ===== src/Store.antt =====
-- The database driver that store/jsondb wraps: `scribble.Driver` with its methods `Read`, `ReadAll`,
-- `Write` and `Delete` on one collection, and `os.Chmod` on a file of it. The package is not part of
-- the repository, so its operations are a parameter and `IsDriver` states what the callers rely on.
pub mod Table
use wireguard_ui.Prelude.{
  String, ◌≡◌, Bool, true, false, Option, none, some, List, ◌==◌, All, if◌then◌else◌,
}

-- `Dir` is the collection's directory. `read` is `none` for an error, and so is a record of
-- `read_all` that does not decode. `write` and `delete` tell by `true` that they returned no error.
pub record Driver (V : Type 0) : Type 1 where
  pub Dir : Type 0
  pub read : Dir → String → Option V
  pub read_all : Dir → Option (List (Option V))
  pub write : Dir → String → V → Dir × Bool
  pub delete : Dir → String → Dir × Bool
  pub chmod : Dir → String → Bool

abbrev pub IsStored : {V : Type 0} (D : Driver V) → D.Dir → Option V → Type 0
IsStored D d none = Unit
IsStored D d (some v) = (k : String) × (D.read d k ≡ some v)

pub record IsDriver {V : Type 0} (D : Driver V) : Type 0 where
  -- a write that succeeds replaces the record of its key alone, one that fails changes nothing
  pub read-write :
      (d : D.Dir) (k : String) (v : V) (j : String)
      → (D.write d k v).1 ≡ true
      → D.read (D.write d k v).0 j ≡ (if k == j then some v else D.read d j)
  pub read-write_failed :
      (d : D.Dir) (k : String) (v : V) (j : String)
      → (D.write d k v).1 ≡ false
      → D.read (D.write d k v).0 j ≡ D.read d j
  -- so for a deletion
  pub read-delete :
      (d : D.Dir) (k j : String)
      → (D.delete d k).1 ≡ true
      → D.read (D.delete d k).0 j ≡ (if k == j then none else D.read d j)
  pub read-delete_failed :
      (d : D.Dir) (k j : String) → (D.delete d k).1 ≡ false → D.read (D.delete d k).0 j ≡ D.read d j
  -- a listing holds stored records only
  pub read_all-IsStored :
      (d : D.Dir) (rs : List (Option V)) → D.read_all d ≡ some rs → All (IsStored D d) rs
