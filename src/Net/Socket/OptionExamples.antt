-- ===== src/Net/Socket/OptionExamples.antt =====
-- include/ice/net/socket.h: the options of a socket whose kernel keeps one `int`, 0 or 1.
use ice_test.Base.{ℕ, ◌==◌, ◌≡◌, refl, ◌↔◌, true, [], ◌∷◌, arith, ap, if◌then◌else◌}
use ice_test.Base.Int.{ℤ, pos, negsuc}
use ice_test.Event.{done, fail}
use ice_test.Net.Option.{Kind, of_bool, get_bool}
use ice_test.Net.Option.Values.{IsInt}
use ice_test.Net.Socket.{option_error}
use ice_test.Net.Socket.Carried.{IsSwitch, of_bytes-int_bytes, get_bool-set}
use ice_test.Net.Socket.Options.{
  gives, Options, Object, object, held, get, set, int_bytes, of_bytes,
}

-- A Boolean option is kept as 1 if it is on.
abbrev one_switch : Options ℕ
one_switch = record {
  getsockopt = λ k level name size. gives (int_bytes (pos k));
  setsockopt = λ k level name bytes. (done 0, if of_bytes bytes == 0 then 0 else 1);
}

stored_lem :
    (v : ℤ) (k' : ℕ)
    → IsInt v
    → (if of_bytes (int_bytes v) == 0 then 0 else 1) ≡ k'
    → IsInt (pos k') × ((pos k' ≡ pos 0) ↔ (v ≡ pos 0))
stored_lem (pos n) k' int q = let same = of_bytes-int_bytes (pos n) in ground (arith, int, q, same)
stored_lem (negsuc n) k' int q =
    let same = of_bytes-int_bytes (negsuc n) in ground (arith, int, q, same)

one_switch-IsSwitch : IsSwitch one_switch Kind.keep_alive
one_switch-IsSwitch = record {
  kept = λ k k' n v int q.
      let (small, same) = stored_lem v k' int (ap (λ r. r.1) q) in (pos k', refl, small, same);
  numbered = λ k k' errno bytes q. let no : done 0 ≡ fail errno = ap (λ r. r.0) q in absurd (cc);
}

get_bool-set_example :
    let k' = (set one_switch 0 (object Kind.keep_alive (of_bool true))).0 in
    let o : Object = record { kind = Kind.keep_alive; data_ = 0 ∷ 0 ∷ 0 ∷ 0 ∷ []; size_ = 1 } in
    ((get one_switch k' o).1 ≡ option_error (done 0))
    × (get_bool (held (get one_switch k' o).0) ≡ true)
unfolding set option_error
get_bool-set_example =
    get_bool-set one_switch Kind.keep_alive one_switch-IsSwitch true (0 ∷ 0 ∷ 0 ∷ 0 ∷ []) 1 refl 0
      refl
