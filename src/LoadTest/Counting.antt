-- ===== src/LoadTest/Counting.antt =====
-- The counters do not depend on the order in which the threads add to them.
use mathlib.Core.List.{Permᴰ}
use tiny_cp.Base.{ℕ, ◌+◌, ◌^◌, ◌<◌, ◌≡◌, refl, ap, ◌∙◌, arith, List, [], ◌∷◌, ◌++◌, u64}
use tiny_cp.LoadTest.{Add, Counters, fetch_add, count}

-- The additions of a schedule that go to one counter.
unfoldable pub tally : (Add → ℕ) → List Add → ℕ
tally weight [] = 0
tally weight (a ∷ schedule) = weight a + tally weight schedule

pub tally-append :
    (weight : Add → ℕ) (s t : List Add) → tally weight (s ++ t) ≡ tally weight s + tally weight t
unfolding tally
tally-append weight [] t = omega arith
tally-append weight (a ∷ s) t = omega (arith, tally-append weight s t)

pub tally-perm : (weight : Add → ℕ) {s t : List Add} → Permᴰ s t → tally weight s ≡ tally weight t
unfolding tally
tally-perm weight Permᴰ.nil = refl
tally-perm weight (Permᴰ.cons e d) = omega (arith, ap weight e, tally-perm weight d)
tally-perm weight (Permᴰ.swap e f) = omega (arith, ap weight e, ap weight f)
tally-perm weight (Permᴰ.trans d e) = tally-perm weight d ∙ tally-perm weight e

abbrev pub to_total : Add → ℕ
to_total Add.total = 1
to_total _ = 0

abbrev pub to_failed : Add → ℕ
to_failed Add.failed = 1
to_failed _ = 0

abbrev pub to_completed : Add → ℕ
to_completed Add.completed = 1
to_completed _ = 0

-- The counters after a schedule, modulo the width of their type.
pub record Counts (s : List Add) (before after : Counters) : Type 0 where
  pub total : after.total_sends ≡ u64 (before.total_sends + tally to_total s)
  pub failed : after.failed_sends ≡ u64 (before.failed_sends + tally to_failed s)
  pub completed :
      after.completed_transactions ≡ u64 (before.completed_transactions + tally to_completed s)

pub record Fits (c : Counters) : Type 0 where
  pub total_in : c.total_sends < 2 ^ 64
  pub failed_in : c.failed_sends < 2 ^ 64
  pub completed_in : c.completed_transactions < 2 ^ 64

pub count-Counts : (s : List Add) (c : Counters) → Fits c → Counts s c (count s c)
unfolding count tally fetch_add
count-Counts [] c f = record {
  total = omega (arith, f.total_in);
  failed = omega (arith, f.failed_in);
  completed = omega (arith, f.completed_in);
}
count-Counts (Add.total ∷ s) c f =
    let k =
      count-Counts s (fetch_add Add.total c) (record {
        total_in = omega arith;
        failed_in = f.failed_in;
        completed_in = f.completed_in;
      }) in
    record {
      total = omega (arith, k.total);
      failed = omega (arith, k.failed);
      completed = omega (arith, k.completed);
    }
count-Counts (Add.failed ∷ s) c f =
    let k =
      count-Counts s (fetch_add Add.failed c) (record {
        total_in = f.total_in;
        failed_in = omega arith;
        completed_in = f.completed_in;
      }) in
    record {
      total = omega (arith, k.total);
      failed = omega (arith, k.failed);
      completed = omega (arith, k.completed);
    }
count-Counts (Add.completed ∷ s) c f =
    let k =
      count-Counts s (fetch_add Add.completed c)
        (record { total_in = f.total_in; failed_in = f.failed_in; completed_in = omega arith }) in
    record {
      total = omega (arith, k.total);
      failed = omega (arith, k.failed);
      completed = omega (arith, k.completed);
    }
