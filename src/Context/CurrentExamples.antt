-- ===== src/Context/CurrentExamples.antt =====
-- include/ice/context.h: a thread that runs the one context there is, with keys that count up.
use ice_test.Base.{
  ℕ, suc, ◌≡◌, refl, sym, ap, true, false, ◌&&◌, ◌==◌, ltb, ◌∷◌, [], none, some, if◌then◌else◌,
  arith,
}
use ice_test.Base.Int.{pos}
use ice_test.Event.{Kernel, done}
use ice_test.Event.Await.{resumed, await_all}
use ice_test.Context.Schedule.{schedule, new_scheduler, calls_of}
use ice_test.Context.Current.{schedule_stays}
use ice_test.Utility.{Keys, IsKeys, ThreadLocalStorage, new_storage, is_current}
use ice_test.Utility.Threads.{Threads, Reach, start, later, constructs, enters, known}

record Counted : Type 0 where
  next : ℕ
  values : (thread key : ℕ) → ℕ

abbrev counted : Keys
counted = record {
  Table = Counted;
  key_create = λ t. (
    some t.next,
    record {
      next = suc t.next;
      values = λ thread key. if key == t.next then 0 else t.values thread key;
    },
  );
  setspecific = λ thread key value t. record t {
    values = λ thread' key'.
        if (thread' == thread) && (key' == key) then value else t.values thread' key';
  };
  getspecific = λ thread key t. t.values thread key;
}

made_next : (t u : Counted) (k : ℕ) → counted.key_create t ≡ (some k, u) → k ≡ t.next
made_next t u k made = ground (arith, ap (λ p. p.0) made)

made_table :
    (t u : Counted) (k : ℕ) → counted.key_create t ≡ (some k, u) → u ≡ (counted.key_create t).1
made_table t u k made = sym (ap (λ p. p.1) made)

counted-IsKeys : IsKeys counted
counted-IsKeys = record {
  in_use = λ k t. ltb k t.next;
  created_unused = λ t u k made. ground (arith, made_next t u k made);
  created_in_use = λ t u k made. rw (made_table t u k made, made_next t u k made) (ground arith);
  created_null =
      λ t u k thread made. rw (made_table t u k made, made_next t u k made) (ground arith);
  created_keeps = λ t u k other made used. rw (made_table t u k made) (ground (arith, used));
  created_others = λ t u k other thread made apart.
      rw (made_table t u k made) (ground (arith, apart, made_next t u k made));
  set_in_use = λ t thread k value other. refl;
  set_get = λ t thread k value used. ground arith;
  set_others = λ t thread k value thread' k' apart. rw apart refl;
  set_other_keys = λ t thread k value thread' k' apart. ground (arith, apart);
}

abbrev nothing_made : Counted
nothing_made = record { next = 5; values = λ thread key. 9 }

abbrev index : ThreadLocalStorage
index = record { handle_ = record { value_ = 5 } }

index_known : known counted 5 ((new_storage counted nothing_made).0 ∷ []) ≡ true
unfolding new_storage
index_known = refl

-- The context at the address 64 is made, and the thread 7 runs it.
abbrev Found : Type 0
Found = (s : Threads counted) × Reach counted s

abbrev running : Found
running = (
  _,
  later (later (start nothing_made) (constructs refl))
      (enters 7 index 64 index_known refl (omega arith)),
)

abbrev kernel : Kernel
kernel = record { io = λ t size. done size; ctl = λ t. none }

schedule_stays_example :
    let r =
      await_all schedule kernel 1
        (new_scheduler (pos 3) (pos 5) false (is_current counted 7 index running.0.table)) in
    (r.1 ≡ resumed) × (r.0.event.calls ≡ calls_of none (pos 3) (pos 5) true)
schedule_stays_example =
    schedule_stays counted counted-IsKeys running.0 running.1 7 index index_known kernel (pos 3)
      (pos 5) 0 false
