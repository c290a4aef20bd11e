-- ===== src/Db/Session/Ensures.antt =====
-- What a transaction ensures if it returns, and a rule for each way to build one.
use super_mew.Prelude.{
  Option, none, some, Bool, true, false, ◌≡◌, refl, sym, ap, subst, ◌∙◌, ◌⊎◌, inl, inr,
  if◌then◌else◌,
}
use super_mew.Errors.{Error, integrity_error, Result, ok, err}
use super_mew.Db.Session.{Db, Tx, pure, raise, found, gets, guard, write_unless, continue, ◌>>=◌}

-- `Q` holds of what `m` returns and of the tables that it leaves, started in `db`.
pub record Ensures {ℓ κ} {A : Type ℓ} (Q : A → Db → Type κ) (m : Tx A) (db : Db)
    : Type (ℓ ⊔ κ) where
  pub at : (a : A) (db' : Db) → m db ≡ ok (a, db') → Q a db'

value_or {ℓ} : {A : Type ℓ} → A → Result A → A
value_or d (ok a) = a
value_or d (err e) = d

Result-cases {ℓ} :
    {A : Type ℓ} (x : Result A) → ((a : A) × (x ≡ ok a)) ⊎ ((e : Error) × (x ≡ err e))
Result-cases (ok a) = inl (a, refl)
Result-cases (err e) = inr (e, refl)

module _ {ℓ κ} {A : Type ℓ} {Q : A → Db → Type κ} where
  returns : (a : A) (m : Tx A) (db db' : Db) → m db ≡ ok (a, db') → Q a db' → Ensures Q m db
  unfolding value_or
  returns a m db db' r h = record {
    at = λ b db2 e. subst (λ (p : A × Db). Q p.0 p.1) (ap (value_or (a, db')) (sym r ∙ e)) h;
  }

  raises : (c : Error) (m : Tx A) (db : Db) → m db ≡ err c → Ensures Q m db
  raises c m db r = record { at = λ b db2 e. cc }

  pub Ensures-pure : (a : A) (db : Db) → Q a db → Ensures Q (pure a) db
  unfolding pure
  Ensures-pure a db h = returns a (pure a) db db refl h

  pub Ensures-raise : (e : Error) (db : Db) → Ensures Q (raise e) db
  unfolding raise
  Ensures-raise e db = raises e (raise e) db refl

  pub Ensures-if :
      (b : Bool) (m n : Tx A) (db : Db)
      → (b ≡ true → Ensures Q m db)
      → (b ≡ false → Ensures Q n db)
      → Ensures Q (if b then m else n) db
  Ensures-if true m n db km kn = km refl
  Ensures-if false m n db km kn = kn refl

  pub Ensures-found :
      (q : Db → Option A) (e : Error) (db : Db)
      → ((a : A) → q db ≡ some a → Q a db)
      → Ensures Q (found q e) db
  unfolding found
  Ensures-found q e db k = go (q db) refl
    where
      go : (o : Option A) → q db ≡ o → Ensures Q (found q e) db
      go none r = raises e (found q e) db (rw (r, found))
      go (some a) r = returns a (found q e) db db (rw (r, found)) (k a r)

  pub Ensures-gets : (f : Db → A) (db : Db) → Q (f db) db → Ensures Q (gets f) db
  unfolding gets
  Ensures-gets f db h = returns (f db) (gets f) db db refl h

module _ {κ} {Q : Unit {0} → Db → Type κ} where
  pub Ensures-guard :
      (b : Bool) (e : Error) (db : Db) → (b ≡ true → Q tt db) → Ensures Q (guard b e) db
  unfolding guard
  Ensures-guard true e db k = returns tt (guard true e) db db refl (k refl)
  Ensures-guard false e db k = raises e (guard false e) db refl

  pub Ensures-write_unless :
      (test : Db → Bool) (change : Db → Db) (db : Db)
      → (test db ≡ false → Q tt (change db))
      → Ensures Q (write_unless test change) db
  unfolding write_unless
  Ensures-write_unless test change db k = go (test db) refl
    where
      go : (b : Bool) → test db ≡ b → Ensures Q (write_unless test change) db
      go true r = raises integrity_error (write_unless test change) db (rw (r, write_unless))
      go false r = returns tt (write_unless test change) db (change db) (rw (r, write_unless)) (k r)

module _ {ℓ κ ι λ'} {A : Type ℓ} {B : Type κ} {Q : A → Db → Type ι} {R : B → Db → Type λ'} where
  pub Ensures-bind :
      (m : Tx A) (f : A → Tx B) (db : Db)
      → Ensures Q m db
      → ((a : A) (db' : Db) → Q a db' → Ensures R (f a) db')
      → Ensures R (m >>= f) db
  unfolding ◌>>=◌
  Ensures-bind m f db h k = record {
    at = λ b db2 e. elim (Result-cases (m db)) [
      | inl ((a, db'), r) ↦ (k a db' (h.at a db' r)).at b db2 (sym (ap (λ x. continue x f) r) ∙ e)
      | inr (c, r) ↦ cc (ap (λ x. continue x f) r, e)
    ];
  }

-- The same rules for the first step of a longer transaction.
module _ {ℓ κ ι} {A : Type ℓ} {B : Type κ} {R : B → Db → Type ι} where
  pub bind-pure :
      (a : A) (f : A → Tx B) (db : Db) → Ensures R (f a) db → Ensures R (pure a >>= f) db
  bind-pure a f db h =
      Ensures-bind {Q = λ x db'. Ensures R (f x) db'} (pure a) f db (Ensures-pure a db h)
        (λ x db' k. k)

  pub bind-raise : (e : Error) (f : A → Tx B) (db : Db) → Ensures R (raise e >>= f) db
  bind-raise e f db =
      Ensures-bind {Q = λ x db'. Ensures R (f x) db'} (raise e) f db (Ensures-raise e db)
        (λ x db' k. k)

  pub bind-found :
      (q : Db → Option A) (e : Error) (f : A → Tx B) (db : Db)
      → ((a : A) → q db ≡ some a → Ensures R (f a) db)
      → Ensures R (found q e >>= f) db
  bind-found q e f db h =
      Ensures-bind {Q = λ x db'. Ensures R (f x) db'} (found q e) f db (Ensures-found q e db h)
        (λ x db' k. k)

  pub bind-gets :
      (g : Db → A) (f : A → Tx B) (db : Db) → Ensures R (f (g db)) db → Ensures R (gets g >>= f) db
  bind-gets g f db h =
      Ensures-bind {Q = λ x db'. Ensures R (f x) db'} (gets g) f db (Ensures-gets g db h)
        (λ x db' k. k)

  pub bind-if :
      (b : Bool) (m n : Tx A) (f : A → Tx B) (db : Db)
      → (b ≡ true → Ensures R (m >>= f) db)
      → (b ≡ false → Ensures R (n >>= f) db)
      → Ensures R ((if b then m else n) >>= f) db
  bind-if true m n f db km kn = km refl
  bind-if false m n f db km kn = kn refl

module _ {κ ι} {B : Type κ} {R : B → Db → Type ι} where
  pub bind-guard :
      (b : Bool) (e : Error) (f : Unit {0} → Tx B) (db : Db)
      → (b ≡ true → Ensures R (f tt) db)
      → Ensures R (guard b e >>= f) db
  bind-guard b e f db h =
      Ensures-bind {Q = λ x db'. Ensures R (f x) db'} (guard b e) f db (Ensures-guard b e db h)
        (λ x db' k. k)

  pub bind-write_unless :
      (test : Db → Bool) (change : Db → Db) (f : Unit {0} → Tx B) (db : Db)
      → (test db ≡ false → Ensures R (f tt) (change db))
      → Ensures R (write_unless test change >>= f) db
  bind-write_unless test change f db h =
      Ensures-bind {Q = λ x db'. Ensures R (f x) db'} (write_unless test change) f db
        (Ensures-write_unless test change db h) (λ x db' k. k)

module _ {ℓ ι λ'} {A : Type ℓ} {Q : A → Db → Type ι} {R : A → Db → Type λ'} where
  pub Ensures-mono :
      {m : Tx A} {db : Db}
      → Ensures Q m db
      → ((a : A) (db' : Db) → Q a db' → R a db')
      → Ensures R m db
  Ensures-mono h k = record { at = λ a db' e. k a db' (h.at a db' e) }
