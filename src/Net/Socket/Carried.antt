-- ===== src/Net/Socket/Carried.antt =====
-- include/ice/net/socket.h and src/ice/net/socket.cpp: what `get` and `set` of a socket carry
-- between the object of an option and the kernel.
use ice_test.Base.{
  ℕ, ◌+◌, ◌*◌, ◌/◌, ◌%◌, ◌^◌, ◌<◌, ◌≡◌, refl, ◌↔◌, Bool, true, false, List, drop, length,
  take-append, take-length, overwrite_whole, sym, ◌≢◌, ◌∙◌, ap, Bool-cases, inl, inr, arith,
}
use ice_test.Base.Int.{ℤ, pos, ◌==ℤ◌, ==ℤ_iff}
use ice_test.ErrorCode.{to_int, of_integral, of_combined}
use ice_test.Event.{Outcome, done, fail}
use ice_test.Net.Option.{Kind, level, name, OptionValue, of_bool, get_bool, of_pattern}
use ice_test.Net.Option.Values.{IsInt, of_pattern-to_int}
use ice_test.Net.Socket.{option_error}
use ice_test.Net.Socket.Options.{
  int_bytes, of_bytes, Object, capacity, object, held, Answered, gives, refuses, Options, get, set,
  getsockopt_of, setsockopt_of,
}

digits :
    (x : ℕ)
    → x % 2 ^ 8
        + 2 ^ 8 * (x / 2 ^ 8 % 2 ^ 8 + 2 ^ 8 * (x / 2 ^ 16 % 2 ^ 8 + 2 ^ 8 * (x / 2 ^ 24 + 0)))
      ≡ x
digits x = omega arith

pub of_bytes-int_bytes : (v : ℤ) → of_bytes (int_bytes v) ≡ to_int v
of_bytes-int_bytes v = digits (to_int v)

held_lem :
    (w : ℤ) (kind : Kind) (size : ℕ)
    → IsInt w
    → held (record { kind = kind; data_ = int_bytes w; size_ = size })
      ≡ record { value_ = w; size_ = size }
held_lem w kind size int =
    let same : of_pattern (of_bytes (int_bytes w)) ≡ w =
      ap of_pattern (of_bytes-int_bytes w) ∙ of_pattern-to_int w int in
    ap (λ v. record { value_ = v; size_ = size }) same

of_bool-IsInt : (b : Bool) → IsInt (of_bool b).value_
unfolding of_bool
of_bool-IsInt true = omega arith
of_bool-IsInt false = omega arith

fails :
    (errno : ℕ) → (0 < errno) × (errno < 2 ^ 28) → option_error (fail errno) ≢ option_error (done 0)
unfolding option_error of_integral of_combined
fails errno (positive, small) same =
    let zero : errno % 2 ^ 32 ≡ 0 = ap (λ c. c.value_) same in omega (arith, positive, small, zero)

get_bool_lem :
    (b : Bool) (o : OptionValue)
    → (o.value_ ≡ pos 0) ↔ ((of_bool b).value_ ≡ pos 0)
    → get_bool o ≡ b
unfolding get_bool of_bool
get_bool_lem false o same = rw ((==ℤ_iff o.value_ (pos 0)).1 (same.1 refl), get_bool) refl
get_bool_lem true o same = elim (Bool-cases (o.value_ ==ℤ pos 0)) [
  | inl zero ↦ let one : pos 1 ≡ pos 0 = same.0 ((==ℤ_iff o.value_ (pos 0)).0 zero) in absurd (cc)
  | inr other ↦ rw (other, get_bool) refl
]

module _ {K : Type 0} (kernel : Options K) where
  -- What an object has for `setsockopt` after a call of `getsockopt` with its memory.
  abbrev pub carried : Object → Answered → List ℕ
  carried o (gives bytes) = bytes
  carried o (refuses errno) = o.data_

  pub set-get :
      (k k' : K) (o : Object)
      → set kernel k' (get kernel k o).0 ≡ (
          let (answer, after) =
            setsockopt_of kernel k' o.kind
              (carried o (getsockopt_of kernel k o.kind (capacity o))) in
          (after, option_error answer))
  unfolding set get level name
  set-get k k' o = by_answer (getsockopt_of kernel k o.kind (capacity o)) refl
    where
      by_answer :
          (a : Answered)
          → getsockopt_of kernel k o.kind (capacity o) ≡ a
          → set kernel k' (get kernel k o).0 ≡ (
              let (answer, after) =
                setsockopt_of kernel k' o.kind
                  (carried o (getsockopt_of kernel k o.kind (capacity o))) in
              (after, option_error answer))
      by_answer (gives bytes) q = rw (q, take-append bytes (drop (length bytes) o.data_)) refl
      by_answer (refuses errno) q = rw (q, take-length o.data_) refl

  -- What the kernel promises of an option that is on or off: an `int` that has been set is read as an
  -- `int` that is 0 if it was, and an error has a number.
  pub record IsSwitch (kind : Kind) : Type 0 where
    pub kept :
        (k k' : K) (n : ℕ) (v : ℤ)
        → IsInt v
        → setsockopt_of kernel k kind (int_bytes v) ≡ (done n, k')
        → (w : ℤ) × (getsockopt_of kernel k' kind 4 ≡ gives (int_bytes w))
          × IsInt w
          × ((w ≡ pos 0) ↔ (v ≡ pos 0))
    pub numbered :
        (k k' : K) (errno : ℕ) (bytes : List ℕ)
        → setsockopt_of kernel k kind bytes ≡ (fail errno, k')
        → (0 < errno) × (errno < 2 ^ 28)

  module _ (kind : Kind) (switch : IsSwitch kind) (b : Bool) (data_ : List ℕ) (size_ : ℕ)
      (int_sized : length data_ ≡ 4) where
    abbrev reader : Object
    reader = record { kind = kind; data_ = data_; size_ = size_ }

    get_bool-get :
        (k : K) (w : ℤ)
        → getsockopt_of kernel k kind 4 ≡ gives (int_bytes w)
        → IsInt w
        → (w ≡ pos 0) ↔ ((of_bool b).value_ ≡ pos 0)
        → get kernel k reader
          ≡ (record { kind = kind; data_ = int_bytes w; size_ = 4 }, option_error (done 0))
    unfolding get level name
    get_bool-get k w q int same =
        rw (int_sized, q, overwrite_whole (int_bytes w) data_ (sym int_sized), get, reader) refl

    set_lem :
        (k k' : K) (answer : Outcome)
        → setsockopt_of kernel k kind (int_bytes (of_bool b).value_) ≡ (answer, k')
        → set kernel k (object kind (of_bool b)) ≡ (k', option_error answer)
    unfolding set level name of_bool
    set_lem k k' answer q = rw q refl

    -- If a Boolean option is set on a socket without an error, then get with any other object of
    -- that option whose value has four bytes, whatever is in it and whatever its size_ is, has no
    -- error, and the object then holds the Boolean that was set. The kernel keeps whether the int
    -- of the option is 0, and gives an error a number above 0 and below 2 ^ 28.
    pub get_bool-set :
        (k : K)
        → (set kernel k (object kind (of_bool b))).1 ≡ option_error (done 0)
        → ((get kernel (set kernel k (object kind (of_bool b))).0 reader).1 ≡ option_error (done 0))
          × (get_bool (held (get kernel (set kernel k (object kind (of_bool b))).0 reader).0) ≡ b)
    get_bool-set k success =
        let (answer, k') = setsockopt_of kernel k kind (int_bytes (of_bool b).value_) in
        by_answer answer k' refl
      where
        by_answer :
            (answer : Outcome) (k' : K)
            → setsockopt_of kernel k kind (int_bytes (of_bool b).value_) ≡ (answer, k')
            → ((get kernel (set kernel k (object kind (of_bool b))).0 reader).1
                ≡ option_error (done 0))
              × (get_bool (held (get kernel (set kernel k (object kind (of_bool b))).0 reader).0)
                  ≡ b)
        by_answer (done n) k' q =
            let (w, answered, int, same) =
              switch.kept k k' n (of_bool b).value_ (of_bool-IsInt b) q in
            rw (set_lem k k' (done n) q, get_bool-get k' w answered int same)
              (
                refl,
                rw (held_lem w kind 4 int) (get_bool_lem b (record { value_ = w; size_ = 4 }) same),
              )
        by_answer (fail errno) k' q =
            let no_error : option_error (fail errno) ≡ option_error (done 0) =
              sym (ap (λ r. r.1) (set_lem k k' (fail errno) q)) ∙ success in
            absurd
              (fails errno (switch.numbered k k' errno (int_bytes (of_bool b).value_) q) no_error)
