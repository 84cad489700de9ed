-- ===== src/Utils/Once.antt =====
-- utils/utils.go: `Once`, a one-time action with a third state that forbids it. Its methods run
-- under a mutex or on one atomic word, so each is one step here.
use synctv.Base.{ℕ, Bool, true, false, ◌==◌, if◌then◌else◌}

pub record Once : Type 0 where
  pub done : ℕ

unfoldable pub new : Once
new = record { done = 0 }

-- Whether the action is done; asked before that, it forbids the action.
unfoldable pub done : Once → Bool × Once
done o =
    if o.done == 1
    then (true, o)
    else if o.done == 2
    then (false, o)
    else if o.done == 0
    then (false, record o { done = 2 })
    else (false, o)

-- `f` is the state change of the action.
unfoldable pub perform {ℓ} : {S : Type ℓ} → Once → (S → S) → S → Once × S
perform o f s = if o.done == 0 then (record o { done = 1 }, f s) else (o, s)

unfoldable pub reset : Once → Once
reset o = record o { done = 0 }
