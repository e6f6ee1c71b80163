-- ===== src/Poller.antt =====
-- src/poller.rs: one pass of a service over the rows that it selects.
use flowlite.Base.{List, [], ◌∷◌}
use flowlite.Crud.World.{Action, ok, ◌>>=◌}

-- A row whose handler fails is logged and left; the others are handled all the same.
unfoldable pub handle_all : {Row : Type 0} → (Row → Action Unit) → List Row → Action Unit
handle_all handle [] w = (ok tt, w)
handle_all handle (row ∷ rows) w = handle_all handle rows (handle row w).1

-- The body of the loop of `Poller::run`; a select that fails ends the loop.
unfoldable pub pass : {Row : Type 0} → Action (List Row) → (Row → Action Unit) → Action Unit
unfolding handle_all
pass select handle = do rows ← select; handle_all handle rows
