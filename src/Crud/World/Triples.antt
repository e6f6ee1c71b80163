-- ===== src/Crud/World/Triples.antt =====
-- Rules for what a service leaves in the database, whichever operation fails.
use flowlite.Base.{Bool, true, false, if◌then◌else◌, ◌≡◌, ◌⊎◌, inl, inr, ℕ, refl, arith, sym, ◌∙◌}
use mathlib.Core.Path.{subst}
use flowlite.Crud.World.{
  Db, World, Action, Result, ok, err, and_then, ◌>>=◌, ◌>>◌, operation, query, execute, insert,
  transaction, roll_back, publish, commit, create_job_run_dir,
}

-- From a database with `P` the action leaves one with `Q`, on success and on failure.
abbrev pub Triple : {A : Type 0} → (Db → Type 0) → Action A → (Db → Type 0) → Type 0
Triple P m Q = (w : World) → P w.db → Q (m w).1.db

-- The action writes nothing to the database.
abbrev pub Reads : {A : Type 0} → Action A → Type 0
Reads m = (w : World) → (m w).1.db ≡ w.db

pub operation-Reads : Reads operation
unfolding operation
operation-Reads w = ground arith

pub query-Reads : {A : Type 0} (f : Db → A) → Reads (query f)
unfolding query
query-Reads f w = ground arith

pub create_job_run_dir-Reads : (id : ℕ) → Reads (create_job_run_dir id)
unfolding create_job_run_dir
create_job_run_dir-Reads id w = ground arith

pub publish-Reads : Reads publish
unfolding publish
publish-Reads w = refl

execute-db : (g : Db → Db) (w : World) → ((execute g w).1.db ≡ w.db) ⊎ ((execute g w).1.db ≡ g w.db)
unfolding execute
execute-db g w = ground arith

insert-db :
    (allowed : Db → Bool) (g : Db → Db) (w : World)
    → ((insert allowed g w).1.db ≡ w.db) ⊎ ((insert allowed g w).1.db ≡ g w.db)
unfolding insert
insert-db allowed g w = ground arith

module _ (P Q : Db → Type 0) where
  one_of_two :
      (g : Db → Db)
      → ((d : Db) → P d → Q d)
      → ((d : Db) → P d → Q (g d))
      → (d e : Db) → (e ≡ d) ⊎ (e ≡ g d)
      → P d
      → Q e
  one_of_two g same new d e (inl p) h = subst Q (sym p) (same d h)
  one_of_two g same new d e (inr p) h = subst Q (sym p) (new d h)

  pub execute-Triple :
      (g : Db → Db) → ((d : Db) → P d → Q d) → ((d : Db) → P d → Q (g d)) → Triple P (execute g) Q
  execute-Triple g same new w = one_of_two g same new w.db (execute g w).1.db (execute-db g w)

  pub insert-Triple :
      (allowed : Db → Bool) (g : Db → Db)
      → ((d : Db) → P d → Q d)
      → ((d : Db) → P d → Q (g d))
      → Triple P (insert allowed g) Q
  insert-Triple allowed g same new w =
      one_of_two g same new w.db (insert allowed g w).1.db (insert-db allowed g w)

  pub Reads-Triple : {A : Type 0} (m : Action A) → Reads m → ((d : Db) → P d → Q d) → Triple P m Q
  Reads-Triple m reads same w p = subst Q (sym (reads w)) (same w.db p)

module _ {A B : Type 0} (P Q : Db → Type 0) where
  and_then-Triple :
      (x : Result A × World) (f : A → Action B)
      → ((d : Db) → P d → Q d)
      → ((a : A) → Triple P (f a) Q)
      → P x.1.db
      → Q (and_then x f).1.db
  and_then-Triple (ok a, w) f same next p = next a w p
  and_then-Triple (err e, w) f same next p = same w.db p

-- Sequencing: `P` holds between the two, and is enough for `Q` where the first one fails.
pub bind-Triple :
    {A B : Type 0} (O P Q : Db → Type 0) (m : Action A) (f : A → Action B)
    → ((d : Db) → P d → Q d)
    → Triple O m P
    → ((a : A) → Triple P (f a) Q)
    → Triple O (m >>= f) Q
bind-Triple O P Q m f same first next w o = and_then-Triple P Q (m w) f same next (first w o)

-- A read in front changes nothing of what is to show.
pub read-Triple :
    {A B : Type 0} (P Q : Db → Type 0) (m : Action A) (f : A → Action B)
    → Reads m
    → ((d : Db) → P d → Q d)
    → ((a : A) → Triple P (f a) Q)
    → Triple P (m >>= f) Q
read-Triple P Q m f reads same next =
    bind-Triple P P Q m f same (Reads-Triple P P m reads (λ d p. p)) next

and_then-Reads :
    {A B : Type 0} (x : Result A × World) (f : A → Action B)
    → ((a : A) → Reads (f a))
    → (and_then x f).1.db ≡ x.1.db
and_then-Reads (ok a, w) f next = next a w
and_then-Reads (err e, w) f next = refl

pub bind-Reads :
    {A B : Type 0} (m : Action A) (f : A → Action B)
    → Reads m
    → ((a : A) → Reads (f a))
    → Reads (m >>= f)
bind-Reads m f first next w = and_then-Reads (m w) f next ∙ first w

roll_back-Triple :
    {A : Type 0} (P Q : Db → Type 0) (old : Db) (x : Result A × World)
    → (P old → Q old)
    → P old
    → Q x.1.db
    → Q (roll_back old x).1.db
roll_back-Triple P Q old (ok a, w) same p q = q
roll_back-Triple P Q old (err e, w) same p q = same p

-- A transaction leaves all that its body writes, or nothing.
pub transaction-Triple :
    {A : Type 0} (P Q : Db → Type 0) (body : Action A)
    → ((d : Db) → P d → Q d)
    → Triple P body Q
    → Triple P (transaction body) Q
unfolding transaction
transaction-Triple P Q body same inner w p =
    roll_back-Triple P Q w.db ((operation >> body) w) (same w.db) p
      (read-Triple P Q operation (λ _. body) operation-Reads same (λ _. inner) w p)

pub commit-Reads : Reads commit
unfolding commit
commit-Reads = operation-Reads

query_next :
    {A B : Type 0} (Q : Db → Type 0) (f : Db → A) (k : A → Action B) (d : Db)
    → Q d
    → ((w : World) → w.db ≡ d → Q (k (f d) w).1.db)
    → (x : Result Unit × World) → x.1.db ≡ d
    → Q (and_then (and_then x (λ _ w. (ok (f w.db), w))) k).1.db
query_next Q f k d same next (ok tt, w) e = subst (λ g. Q (k (f g) w).1.db) (sym e) (next w e)
query_next Q f k d same next (err _, w) e = subst Q (sym e) same

-- A SELECT whose answer is used: what follows starts from the database that was read.
pub query-Triple :
    {A B : Type 0} (P Q : Db → Type 0) (f : Db → A) (k : A → Action B)
    → ((d : Db) → P d → Q d)
    → ((d : Db) → P d → Triple (λ e. e ≡ d) (k (f d)) Q)
    → Triple P (query f >>= k) Q
unfolding query
query-Triple P Q f k same next w p =
    query_next Q f k w.db (same w.db p) (next w.db p) (operation w) (operation-Reads w)

pub if-Triple :
    {A : Type 0} (P Q : Db → Type 0) (b : Bool) (m n : Action A)
    → (b ≡ true → Triple P m Q)
    → (b ≡ false → Triple P n Q)
    → Triple P (if b then m else n) Q
if-Triple P Q true m n h k = h refl
if-Triple P Q false m n h k = k refl
