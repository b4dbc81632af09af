-- ===== src/Mutex/Line.antt =====
-- include/ice/async.h: the plainest mutex of this kind, whose state is the roles and the queue.
use ice_test.Base.{ℕ, refl, Bool, true, false, List, [], ◌∷◌, ap}
use ice_test.Mutex.{Role, apart, Mutex, Does, IsMutex}

pub record Line : Type 0 where
  pub roles : ℕ → Role
  pub waits : List ℕ

abbrev pub is_empty : List ℕ → Bool
is_empty [] = true
is_empty (x ∷ xs) = false

abbrev pub line : Mutex
line = record {
  State = Line;
  new_mutex = record { roles = λ c. apart; waits = [] };
  Step = λ s t. Does s.roles s.waits t.roles t.waits;
  role = λ s. s.roles;
  queue = λ s. s.waits;
  may_destroy = λ s. is_empty s.waits;
}

pub line-IsMutex : IsMutex line
line-IsMutex = record {
  new_roles = λ c. refl;
  new_queue = refl;
  steps = λ s t r step. step;
  destroys = λ s r nobody. ap is_empty nobody.0;
}
