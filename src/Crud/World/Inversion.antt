-- ===== src/Crud/World/Inversion.antt =====
-- What a successful action says of its parts.
use flowlite.Base.{◌≡◌, refl, ap, arith, Bool}
use flowlite.Crud.World.{
  Db, World, Action, Result, ok, err, and_then, ◌>>=◌, pure, operation, query, insert, Error,
}

and_then-eq-ok :
    {A B : Type 0} (x : Result A × World) (f : A → Action B) {b : B} {w' : World}
    → and_then x f ≡ (ok b, w')
    → (a : A) × (v : World) × (x ≡ (ok a, v)) × (f a v ≡ (ok b, w'))
and_then-eq-ok (ok a, v) f h = (a, v, refl, h)
and_then-eq-ok (err e, v) f h = cc

pub >>=-eq-ok :
    {A B : Type 0} (m : Action A) (f : A → Action B) (w : World) {b : B} {w' : World}
    → (m >>= f) w ≡ (ok b, w')
    → (a : A) × (v : World) × (m w ≡ (ok a, v)) × (f a v ≡ (ok b, w'))
>>=-eq-ok m f w h = and_then-eq-ok (m w) f h

pub operation-eq-ok : (w : World) {w' : World} → operation w ≡ (ok tt, w') → w'.db ≡ w.db
unfolding operation
operation-eq-ok w h = ground arith

pub query-eq-ok :
    {A : Type 0} (f : Db → A) (w : World) {a : A} {w' : World}
    → query f w ≡ (ok a, w')
    → (a ≡ f w.db) × (w'.db ≡ w.db)
unfolding query
query-eq-ok f w h =
    let (u, v, first, last) = and_then-eq-ok (operation w) (λ _ w. (ok (f w.db), w)) h in
    let same = operation-eq-ok w first in (cc (ap f same), cc)

pub pure-eq-ok :
    {A : Type 0} (a : A) (v : World) {b : A} {w : World} → pure a v ≡ (ok b, w) → (a ≡ b) × (v ≡ w)
pure-eq-ok a v h = (cc, cc)

-- What an INSERT leaves, refused or not.
pub insert-eq-ok :
    (allowed : Db → Bool) (g : Db → Db) (w : World) {v : World}
    → insert allowed g w ≡ (ok tt, v)
    → (v.db ≡ g w.db) × (v.now ≡ w.now)
unfolding insert operation
insert-eq-ok allowed g w {v} h = ground arith

pub insert-eq-err :
    (allowed : Db → Bool) (g : Db → Db) (w : World) {e : Error} {v : World}
    → insert allowed g w ≡ (err e, v)
    → (v.db ≡ w.db) × (v.now ≡ w.now)
unfolding insert operation
insert-eq-err allowed g w h = ground arith
