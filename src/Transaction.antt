-- ===== src/Transaction.antt =====
-- One method call of a store is one transaction: `try: … await session.commit()` with its handlers.
-- `fault` says that some database call of the method fails (SQLAlchemyError or OSError).
use issue_pilot.Prelude.{◌≡◌, refl, Bool, true, false, Option, none, some, if◌then◌else◌, arith}
use issue_pilot.Result.{Error, Result, ok, err, database_unavailable, require, ◌>>=◌}
use issue_pilot.Db.{Db}

-- What a method body computes: its result, and the rows as it leaves them for the commit.
abbrev pub Body : Type 0 → Type 0
Body A = Db → Result (A × Db)

-- A body that raises is rolled back, and so is one that the database fails.
abbrev pub settle : {A : Type 0} → Db → Result (A × Db) → Result A × Db
settle db (ok (a, db')) = (ok a, db')
settle db (err e) = (err e, db)

unfoldable pub transaction : {A : Type 0} → Bool → Body A → Db → Result A × Db
transaction fault body db = if fault then (err database_unavailable, db) else settle db (body db)

-- `if row is None: raise e`
abbrev pub some_or {ℓ} : {A : Type ℓ} → Error → Option A → Result A
some_or e none = err e
some_or e (some a) = ok a

abbrev pub OnCommit : {A : Type 0} → (Db → Type 0) → Result (A × Db) → Type 0
OnCommit P (ok (a, db)) = P db
OnCommit P (err e) = Unit

-- `P` holds of the rows that a body leaves for the commit, if it gets there.
pub record Ends {A : Type 0} (P : Db → Type 0) (r : Result (A × Db)) : Type 0 where
  pub committed : OnCommit P r

settle-Ends :
    {A : Type 0} (P : Db → Type 0) (db : Db) (r : Result (A × Db))
    → P db
    → OnCommit P r
    → P (settle db r).1
settle-Ends P db (ok (a, db')) h p = p
settle-Ends P db (err e) h p = h

pub transaction-Ends :
    {A : Type 0} (P : Db → Type 0) (fault : Bool) (body : Body A) (db : Db)
    → P db
    → Ends P (body db)
    → P (transaction fault body db).1
unfolding transaction
transaction-Ends P true body db h e = h
transaction-Ends P false body db h e = settle-Ends P db (body db) h e.committed

module _ {A : Type 0} {P : Db → Type 0} where
  pub Ends-ok : (a : A) (db : Db) → P db → Ends P (ok (a, db))
  Ends-ok a db p = record { committed = p }

  pub Ends-bind :
      {C : Type 0} (m : Result C) (f : C → Result (A × Db))
      → ((c : C) → m ≡ ok c → Ends P (f c))
      → Ends P (m >>= f)
  Ends-bind (ok c) f h = h c refl
  Ends-bind (err e) f h = record { committed = tt }

  pub Ends-if :
      (b : Bool) (r s : Result (A × Db))
      → (b ≡ true → Ends P r)
      → (b ≡ false → Ends P s)
      → Ends P (if b then r else s)
  Ends-if true r s h k = h refl
  Ends-if false r s h k = k refl

  pub Ends-option :
      {C : Type 0} (o : Option C) (n : Result (A × Db)) (f : C → Result (A × Db))
      → (o ≡ none → Ends P n)
      → ((c : C) → o ≡ some c → Ends P (f c))
      → Ends P (elim o [ none ↦ n | some c ↦ f c ])
  Ends-option none n f h k = h refl
  Ends-option (some c) n f h k = k c refl

pub some_or-ok {ℓ} :
    {C : Type ℓ} (e : Error) (o : Option C) (c : C) → some_or e o ≡ ok c → o ≡ some c
some_or-ok e o c h = ground arith

pub require-ok : (b : Bool) (e : Error) (u : Unit {0}) → require b e ≡ ok u → b ≡ true
require-ok b e u h = ground arith
