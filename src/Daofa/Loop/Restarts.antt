-- ===== src/Daofa/Loop/Restarts.antt =====
-- What becomes of a restart that reaches a loop whose object is blank.
use sunwukong.Base.{
  String, ℕ, ◌+◌, ◌≤◌, ap, ◌≡◌, refl, ◌≢◌, Bool, true, false, arith, eq_iff, Result, ok,
}
use sunwukong.Float.{Float}
use sunwukong.Houmao.{Houmao}
use sunwukong.Daofa.Cluster.{CalculateHandle}
use sunwukong.Daofa.Scale.{Store, Readings, ScaleClient, Round, waits, detect_and_scale}
use sunwukong.Daofa.Loop.{
  Phase, starting, blocked, selecting, stopped, Loop, round_of, Own, Step, Steps,
}

-- The loop is not between a round and the next.
abbrev pub is_outside : Phase → Bool
is_outside starting = true
is_outside blocked = true
is_outside selecting = false
is_outside stopped = false

-- How many times `RestartZaohua` was called.
abbrev pub write_count :
    {detect : Houmao → Store → Result Round} {mode : String} {s t : Loop} → Step detect mode s t → ℕ
write_count (Step.own _ _ own) = 0
write_count (Step.write _ houmao) = 1
write_count (Step.send _ n e) = 0

abbrev pub writes :
    {detect : Houmao → Store → Result Round} {mode : String} {s t : Loop}
    → Steps detect mode s t
    → ℕ
writes (Steps.stay s) = 0
writes (Steps.then s t u step rest) = write_count step + writes rest

-- After `n` restarts the loop still has the object `o`, or there were two of them.
pub record HasLost (o : Houmao) (n : ℕ) (s : Loop) : Type 0 where
  pub same : s.object ≡ o
  pub few : n ≤ 1
  pub pending : s.sending + s.waiting ≤ n
  pub outside : s.sending + s.waiting ≡ n → is_outside s.phase ≡ true

pub none-HasLost :
    (s : Loop) → s.phase ≡ starting → s.sending ≡ 0 → s.waiting ≡ 0 → HasLost s.object 0 s
none-HasLost s p e w = record {
  same = refl;
  few = omega arith;
  pending = omega arith;
  outside = λ _. ap is_outside p;
}

module _ (detect : Houmao → Store → Result Round) (mode : String) (o : Houmao)
    (blank : (store : Store) → round_of detect mode o store ≡ ok (waits store)) where
  pub Own-HasLost : (s t : Loop) (n : ℕ) → Own detect mode s t → HasLost o n s → HasLost o n t
  Own-HasLost s _ n (Own.wait _ store p e) h = ground arith
  Own-HasLost s _ n (Own.finish _ failure store object p e same) h =
      absurd (ground (arith, blank s.store, ap (λ x. round_of detect mode x s.store) h.same))
  Own-HasLost s _ n (Own.wake _ k p e) h = ground arith
  Own-HasLost s _ n (Own.load _ k p e) h = ground arith
  Own-HasLost s _ n (Own.next _ p e) h = ground arith
  Own-HasLost s _ n (Own.done _ p) h = ground arith

  pub Step-HasLost :
      (s t : Loop) (n : ℕ) (step : Step detect mode s t)
      → HasLost o n s
      → write_count step + n ≤ 1
      → HasLost o (write_count step + n) t
  Step-HasLost s t n (Step.own _ _ own) h few = ground (arith, Own-HasLost s t n own h)
  Step-HasLost s _ n (Step.write _ houmao) h few = ground arith
  Step-HasLost s _ n (Step.send _ k e) h few = ground arith

  Steps-HasLost :
      (s t : Loop) (n : ℕ) (run : Steps detect mode s t)
      → HasLost o n s
      → writes run + n ≤ 1
      → t.object ≡ o
  Steps-HasLost s _ n (Steps.stay _) h few = h.same
  Steps-HasLost s u n (Steps.then _ t _ step rest) h few =
      Steps-HasLost t u (write_count step + n) rest (Step-HasLost s t n step h (omega arith))
        (omega arith)

module _ {F : Type 0} (fl : Float F) (c : CalculateHandle F) (client : ScaleClient)
    (readings : Readings) (mode : String) where
  pub blank_waits :
      (object : Houmao)
      → mode ≢ "Beidong"
      → client.is_blank object ≡ true
      → (store : Store)
      → round_of (detect_and_scale fl c client readings) mode object store ≡ ok (waits store)
  unfolding round_of detect_and_scale
  blank_waits object active blank store = ground (arith, eq_iff mode "Beidong")

  -- If the loop begins a round with a blank object and no restart is under way, then a single restart
  -- never reaches it, however the goroutines interleave: it works on the blank object until
  -- `RestartZaohua` is called a second time.
  pub single_restart_lost :
      (s t : Loop) (run : Steps (detect_and_scale fl c client readings) mode s t)
      → mode ≢ "Beidong"
      → client.is_blank s.object ≡ true
      → s.phase ≡ starting
      → s.sending ≡ 0
      → s.waiting ≡ 0
      → writes run ≤ 1
      → t.object ≡ s.object
  single_restart_lost s t run active blank p e w few =
      Steps-HasLost (detect_and_scale fl c client readings) mode s.object
        (blank_waits s.object active blank) s t 0 run (none-HasLost s p e w) (omega arith)
