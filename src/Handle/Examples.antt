-- ===== src/Handle/Examples.antt =====
-- include/ice/handle.h with the descriptors of a POSIX system: `ice::handle<int, -1, close_type>`.
use ice_test.Base.{◌≡◌, refl, List, [], ◌∷◌}
use ice_test.Base.Int.{ℤ, pos, minus_one}
use ice_test.Base.Equality.{int_comparable}
use ice_test.Handle.Store.{Op, construct, move_assign, destroys, releases, step, run, empty}
use ice_test.Handle.Ownership.{IsOwned, run-IsOwned}

-- The second cell takes over the descriptor of the first, and its own is closed.
abbrev program : List (Op ℤ)
program =
    construct (pos 4)
    ∷ construct (pos 5)
    ∷ move_assign 1 0
    ∷ releases 0
    ∷ destroys 1
    ∷ destroys 0
    ∷ []

closes_both : (run minus_one empty program).closed ≡ pos 5 ∷ pos 4 ∷ []
unfolding run step empty
closes_both = refl

run-IsOwned_example : IsOwned minus_one (pos 4) (run minus_one empty program)
run-IsOwned_example = run-IsOwned minus_one (pos 4) program refl
