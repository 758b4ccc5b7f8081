-- ===== src/Examples/Limits.antt =====
-- The theorems on limits and on answers at concrete inputs.
use telegram_bot_delivery_en.Base.{
  ℕ, ◌+◌, ◌-◌, ◌*◌, ◌/◌, min, ◌≡◌, refl, String, true, false, List, [], ◌∷◌, none, some, ltb, arith,
  nat_eq, string_eq, pair_eq,
}
use telegram_bot_delivery_en.Scheduler.Limiters.Scopes.{
  Scope, Float, Limiters, get_bucket, put_bucket,
}
use telegram_bot_delivery_en.Scheduler.Limiters.Buckets.{
  Acquisition, chat_scopes, call_scopes, new_bucket, refill, admit, check, take_token,
  with_global_rate, fresh_bucket, entry_or, chat_denied, check_scope, check_scopes, take_scopes,
  take_checked, check_and_acquire, release, pause,
}
use telegram_bot_delivery_en.Scheduler.Limiters.Counting.{inflight_in}
use telegram_bot_delivery_en.Scheduler.Limiters.Bounds.{Sound, with_global_rate-Sound}
use telegram_bot_delivery_en.Scheduler.Limiters.Places.{
  TakesPlaces, counts_in, check_and_acquire-TakesPlaces,
}
use telegram_bot_delivery_en.Scheduler.Limiters.Taking.{release-check_and_acquire}
use telegram_bot_delivery_en.Scheduler.Limiters.Running.{
  LimiterOp, Early, limiters_after, run_limiters, run_limiters-Sound, pause-refuses,
}

-- Thousandths, cut off.
abbrev float : Float
float = record {
  carrier = ℕ;
  of_nat = λ n. n * 1000;
  add = λ x y. x + y;
  sub = λ x y. x - y;
  mul = λ x y. x * y / 1000;
  div = λ x y. x * 1000 / y;
  min = min;
  less = ltb;
  ceil = λ x. (x + 999) / 1000 * 1000;
  as_u64 = λ x. x / 1000;
}

abbrev as_it_is : String → String
as_it_is s = s

abbrev start : Limiters float
start = with_global_rate 0 25000

-- Bot 7 sends to the group "-5".
abbrev first_call : Acquisition float
first_call = check_and_acquire as_it_is 7 (some "-5") true "sendMessage" false 20000 0 start

abbrev after_call : Limiters float
after_call = limiters_after start first_call

abbrev group_scopes : List Scope
group_scopes = call_scopes as_it_is 7 (some "-5") true "sendMessage"

check_and_acquire-TakesPlaces_example :
    TakesPlaces (counts_in as_it_is 7 (some "-5") true "sendMessage") start first_call
check_and_acquire-TakesPlaces_example =
    check_and_acquire-TakesPlaces as_it_is 7 (some "-5") true "sendMessage" false 20000 0 start
      (with_global_rate-Sound 0 25000)

release-check_and_acquire_example :
    inflight_in (Scope.group 7 "-5") (release group_scopes after_call)
    ≡ inflight_in (Scope.group 7 "-5") start
unfolding check_and_acquire check_scopes check_scope check take_checked take_scopes take_token admit
    refill fresh_bucket new_bucket entry_or chat_denied get_bucket put_bucket with_global_rate
    limiters_after call_scopes chat_scopes
release-check_and_acquire_example =
    release-check_and_acquire as_it_is 7 (some "-5") true "sendMessage" false 20000 0 start
      after_call group_scopes (with_global_rate-Sound 0 25000) refl (Scope.group 7 "-5")

abbrev ops : List (LimiterOp float)
ops =
    LimiterOp.acquire 7 (some "-5") true "sendMessage" false 20000 0
    ∷ LimiterOp.hold (Scope.bot 7) 5000 10
    ∷ LimiterOp.give_back group_scopes
    ∷ LimiterOp.evict 3000 1000
    ∷ []

run_limiters-Sound_example : Sound float (run_limiters as_it_is ops (with_global_rate 0 25000))
run_limiters-Sound_example = run_limiters-Sound as_it_is 0 25000 ops

pause-refuses_example :
    (t : Scope) × (again : ℕ) × (l' : Limiters float) × (check_and_acquire as_it_is 7 none false
        "sendMessage" false 20000 4999
        (run_limiters as_it_is ops (pause (Scope.bot 7) 5000 0 start))
      ≡ Acquisition.refused t again l')
unfolding chat_denied call_scopes chat_scopes Early
pause-refuses_example =
    pause-refuses as_it_is 5000 0 (Scope.bot 7) start ops 7 none false "sendMessage" false 20000
      4999 refl (tt, (tt, (tt, (omega arith, tt)))) refl (omega arith)
