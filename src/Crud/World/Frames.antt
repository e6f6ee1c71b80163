-- ===== src/Crud/World/Frames.antt =====
-- Rules for what a service leaves in the database and among the commands that were started,
-- whichever operation fails.
use flowlite.Base.{◌≡◌, refl, ◌∙◌, sym, subst, ℕ, List, ◌∷◌, Option, none, some, arith}
use flowlite.Crud.World.{
  Db, World, Action, Result, ok, err, and_then, ◌>>=◌, ◌>>◌, operation, query, execute, publish,
  spawn, started, insert_child, Child,
}

-- What the rules are about: the tables, and the attempts that a command was started for.
abbrev pub Seen : Type 0
Seen = Db × List ℕ

abbrev pub seen : World → Seen
seen w = (w.db, w.spawned)

-- The action changes neither.
abbrev pub Keeps : {A : Type 0} → Action A → Type 0
Keeps m = (w : World) → seen (m w).1 ≡ seen w

pub operation-Keeps : Keeps operation
unfolding operation
operation-Keeps w = ground arith

pub query-Keeps : {A : Type 0} (f : Db → A) → Keeps (query f)
unfolding query
query-Keeps f w = ground arith

pub publish-Keeps : Keeps publish
unfolding publish
publish-Keeps w = refl

pub insert_child-Keeps : (child : Child) → Keeps (insert_child child)
unfolding insert_child
insert_child-Keeps child w = refl

and_then-Keeps :
    {A B : Type 0} (x : Result A × World) (f : A → Action B)
    → ((a : A) → Keeps (f a))
    → seen (and_then x f).1 ≡ seen x.1
and_then-Keeps (ok a, w) f next = next a w
and_then-Keeps (err e, w) f next = refl

pub bind-Keeps :
    {A B : Type 0} (m : Action A) (f : A → Action B)
    → Keeps m
    → ((a : A) → Keeps (f a))
    → Keeps (m >>= f)
bind-Keeps m f first next w = and_then-Keeps (m w) f next ∙ first w

-- From what `P` says the action leaves what `Q` says, on success and on failure.
abbrev pub Leads : {A : Type 0} → (Seen → Type 0) → Action A → (Seen → Type 0) → Type 0
Leads P m Q = (w : World) → P (seen w) → Q (seen (m w).1)

pub Keeps-Leads :
    {A : Type 0} (P Q : Seen → Type 0) (m : Action A)
    → Keeps m
    → ((s : Seen) → P s → Q s)
    → Leads P m Q
Keeps-Leads P Q m keeps same w p = subst Q (sym (keeps w)) (same (seen w) p)

and_then-Leads :
    {A B : Type 0} (P Q : Seen → Type 0) (x : Result A × World) (f : A → Action B)
    → ((s : Seen) → P s → Q s)
    → ((a : A) → Leads P (f a) Q)
    → P (seen x.1)
    → Q (seen (and_then x f).1)
and_then-Leads P Q (ok a, w) f same next p = next a w p
and_then-Leads P Q (err e, w) f same next p = same (seen w) p

pub bind-Leads :
    {A B : Type 0} (O P Q : Seen → Type 0) (m : Action A) (f : A → Action B)
    → ((s : Seen) → P s → Q s)
    → Leads O m P
    → ((a : A) → Leads P (f a) Q)
    → Leads O (m >>= f) Q
bind-Leads O P Q m f same first next w o = and_then-Leads P Q (m w) f same next (first w o)

one_write :
    {B : Type 0} (P Q R : Seen → Type 0) (g : Db → Db) (k : Action B)
    → ((s : Seen) → P s → R s)
    → ((d : Db) (ids : List ℕ) → P (d, ids) → Q (g d, ids))
    → Leads Q k R
    → (x : Result Unit × World) → P (seen x.1)
    → R (seen (and_then (and_then x (λ _ w. (ok tt, record w { db = g w.db }))) (λ _. k)).1)
one_write P Q R g k same new next (ok _, w) p =
    next (record w { db = g w.db }) (new w.db w.spawned p)
one_write P Q R g k same new next (err e, w) p = same (seen w) p

-- A write, and what follows where it succeeds.
pub execute-Leads :
    {B : Type 0} (P Q R : Seen → Type 0) (g : Db → Db) (k : Action B)
    → ((s : Seen) → P s → R s)
    → ((d : Db) (ids : List ℕ) → P (d, ids) → Q (g d, ids))
    → Leads Q k R
    → Leads P (execute g >> k) R
unfolding execute
execute-Leads P Q R g k same new next w p =
    one_write P Q R g k same new next (operation w)
      (Keeps-Leads P P operation operation-Keeps (λ s q. q) w p)

one_spawn :
    {B : Type 0} (P Q R : Seen → Type 0) (id : ℕ) (k : Option ℕ → Action B)
    → ((d : Db) (ids : List ℕ) → P (d, ids) → Q (d, id ∷ ids))
    → Leads P (k none) R
    → ((pid : ℕ) → Leads Q (k (some pid)) R)
    → (x : Result Unit × World) → P (seen x.1)
    → R (seen (and_then (started id x) k).1)
one_spawn P Q R id k new failed next (ok tt, w) p = next w.next_pid _ (new w.db w.spawned p)
one_spawn P Q R id k new failed next (err e, w) p = failed w p

-- A spawn: `id` has been started for where it gives a process id, and only there.
pub spawn-Leads :
    {B : Type 0} (P Q R : Seen → Type 0) (id : ℕ) (k : Option ℕ → Action B)
    → ((d : Db) (ids : List ℕ) → P (d, ids) → Q (d, id ∷ ids))
    → Leads P (k none) R
    → ((pid : ℕ) → Leads Q (k (some pid)) R)
    → Leads P (spawn id >>= k) R
unfolding spawn
spawn-Leads P Q R id k new failed next w p =
    one_spawn P Q R id k new failed next (operation w)
      (Keeps-Leads P P operation operation-Keeps (λ s q. q) w p)
